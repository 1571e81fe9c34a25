-- ===== src/Evaluation/Validation.antt =====
-- What is checked of specifications, runs and results when they come in: `validateCriteria`,
-- `validateEvidence`, `validateProviderResult` and `makeEvaluationRun`
-- (packages/evaluation-runtime/src/criterion.ts, evidence.ts, result.ts and run.ts).
pub mod Accepted
use my_pi.Prelude.{
  ℕ, ◌*◌, String, Option, none, some, List, [], ◌∷◌, Bool, true, false, ◌&&◌, ◌||◌, not, str_eq,
  any, leb, ltb, length, if◌then◌else◌,
}
use my_pi.Prelude.Text.{js_length, truthy, is_given}
use my_pi.Prelude.Outcome.{
  Outcome, ok, err, ◌>>◌, require, plain_error, output_limit, evaluation_target_stale,
  evaluation_spec_invalid,
}
use my_pi.Coordination.Model.{
  EvaluationSpec, EvaluationCriterion, EvaluationRun, EvaluationRunState,
}
use my_pi.Evaluation.Model.{EvidenceRef, EvaluationResult}

-- The loop of `validateCriteria`, with the identifiers seen so far.
unfoldable pub check_criteria : List EvaluationCriterion → List String → Outcome (Unit {0})
check_criteria [] ids = ok tt
check_criteria (c ∷ cs) ids =
    let rest = check_criteria cs (c.id ∷ ids) in
    require (truthy c.id && (leb (js_length c.id) 128 && not (any (str_eq c.id) ids))) plain_error
    >> (require (truthy c.evaluator_ref && leb (js_length c.evaluator_ref) 256) plain_error >> rest)

-- `validateCriteria`
unfoldable pub validate_criteria : List EvaluationCriterion → Outcome (Unit {0})
unfolding check_criteria
validate_criteria cs =
    require (leb 1 (length cs) && leb (length cs) 100) plain_error >> check_criteria cs []

-- The loop of `validateEvidence`.
unfoldable pub check_evidence : String → List EvidenceRef → Outcome (Unit {0})
check_evidence target [] = ok tt
check_evidence target (e ∷ es) =
    let rest = check_evidence target es in
    require (str_eq e.target_state_ref target) evaluation_target_stale
    >> (require
          (truthy e.provider
            && (leb (js_length e.provider) 128
                && (truthy e.digest && (leb (js_length e.digest) 256 && truthy e.observed_at))))
          evaluation_spec_invalid
        >> rest)

abbrev pub max_evidence_refs : ℕ
max_evidence_refs = 50

-- `validateEvidence`
unfoldable pub validate_evidence : List EvidenceRef → String → Outcome (Unit {0})
unfolding check_evidence
validate_evidence es target =
    require (leb (length es) max_evidence_refs) output_limit >> check_evidence target es

pub record ProviderResultInput : Type 0 where
  pub provider_result_id : String
  pub provider_id : String
  pub criterion_id : String
  pub result : EvaluationResult

abbrev pub reason_ok : Option String → Bool
reason_ok none = true
reason_ok (some r) = leb (js_length r) 256

-- `validateProviderResult`; the length of the result's JSON text is an argument.
unfoldable pub validate_provider_result :
    (EvaluationResult → ℕ) → ProviderResultInput → String → Outcome (Unit {0})
unfolding validate_evidence
validate_provider_result json_length input target =
    require
      (truthy input.provider_result_id
        && (leb (js_length input.provider_result_id) 256
            && (truthy input.provider_id
                && (leb (js_length input.provider_id) 128
                    && leb (js_length input.criterion_id) 128))))
      plain_error
    >> (require (str_eq input.result.criterion_id input.criterion_id) plain_error
        >> (validate_evidence input.result.evidence target
            >> (require (reason_ok input.result.reason_code) plain_error
                >> require (leb (json_length input.result) (256 * 1024)) plain_error)))

pub record EvaluationRunInput : Type 0 where
  pub spec : EvaluationSpec
  pub work_item_id : String
  pub intent_id : Option String
  pub change_receipt_id : Option String
  pub repository_state_ref : String
  pub attempt : Option ℕ

abbrev pub or_one : Option ℕ → ℕ
or_one none = 1
or_one (some n) = n

-- `makeEvaluationRun`, with the identifier that it creates and the time.
unfoldable pub make_evaluation_run : String → EvaluationRunInput → ℕ → Outcome EvaluationRun
make_evaluation_run id input created_at =
    let attempt = or_one input.attempt in
    require (truthy input.repository_state_ref && leb (js_length input.repository_state_ref) 1024)
      plain_error
    >> (require (leb 1 attempt && leb attempt 100) plain_error
        >> ok (record {
          id = id;
          spec_id = input.spec.id;
          spec_version = input.spec.version;
          work_item_id = input.work_item_id;
          intent_id = input.intent_id;
          change_receipt_id = input.change_receipt_id;
          repository_state_ref = input.repository_state_ref;
          attempt = attempt;
          state = EvaluationRunState.pending;
          started_at = some created_at;
          completed_at = none;
        }))
