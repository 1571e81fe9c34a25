-- ===== src/Evaluation/Model.antt =====
-- The records of packages/contracts/src/evaluation.ts, packages/contracts/src/feedback.ts and
-- packages/evaluation-runtime/src/result.ts. Times are milliseconds.
use my_pi.Prelude.{ℕ, String, Option, List, Bool, true, false}

pub record EvidenceRef : Type 0 where
  pub artifact_id : Option String
  pub provider : String
  pub digest : String
  pub target_state_ref : String
  pub observed_at : String

pub data EvaluationOutcome : Type 0 where
  pass fail error skipped inconclusive : EvaluationOutcome

-- `observed` is the JSON text of the observed value.
pub record EvaluationResult : Type 0 where
  pub criterion_id : String
  pub outcome : EvaluationOutcome
  pub evidence : List EvidenceRef
  pub observed : Option String
  pub reason_code : Option String

pub data EvaluationProvenance : Type 0 where
  verified_provider external_unverified : EvaluationProvenance

pub record StoredEvaluationResult : Type 0 where
  pub provider_result_id : String
  pub provider_id : String
  pub criterion_id : String
  pub result : EvaluationResult
  pub run_id : String
  pub result_digest : String
  pub recorded_at : ℕ
  pub provenance : EvaluationProvenance
  pub declared_provider_id : Option String

pub data RetryCycleState : Type 0 where
  not_needed recommended scheduled active succeeded exhausted cancelled review_required :
      RetryCycleState

pub record RetryCycle : Type 0 where
  pub id : String
  pub run_id : String
  pub attempt : ℕ
  pub max_attempts : ℕ
  pub state : RetryCycleState
  pub reason_codes : List String
  pub constraints : List String
  pub next_intent_id : Option String
  pub updated_at : ℕ

-- `outcome === "pass"`, `outcome === "fail"` and `provenance === "verified_provider"`.
abbrev pub is_pass : EvaluationOutcome → Bool
is_pass pass = true
is_pass _ = false

abbrev pub is_fail : EvaluationOutcome → Bool
is_fail fail = true
is_fail _ = false

abbrev pub is_verified : EvaluationProvenance → Bool
is_verified verified_provider = true
is_verified external_unverified = false
