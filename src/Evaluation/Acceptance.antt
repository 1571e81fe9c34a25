-- ===== src/Evaluation/Acceptance.antt =====
-- `evaluateAcceptance` (packages/evaluation-runtime/src/acceptance.ts).
pub mod Verdicts
pub mod Decisions
use Prim.Native.String.{◌++◌ as text_append}
use my_pi.Prelude.{
  String, Option, none, some, List, [], ◌∷◌, ◌++◌, Bool, true, false, not, str_eq, any, filter, map,
  if◌then◌else◌,
}
use my_pi.Prelude.Dict.{Dict, get, put}
use my_pi.Coordination.Model.{EvaluationSpec, EvaluationCriterion, AcceptanceDecisionKind}
use my_pi.Evaluation.Model.{
  EvidenceRef, EvaluationOutcome, StoredEvaluationResult, is_pass, is_fail, is_verified,
}

pub record AcceptanceEvaluation : Type 0 where
  pub decision : AcceptanceDecisionKind
  pub decision_digest : String
  pub reasons : List String
  pub failed_criteria : List String
  pub inconclusive_criteria : List String

abbrev pub Groups : Type 0
Groups = Dict (List StoredEvaluationResult)

abbrev pub or_none : Option (List StoredEvaluationResult) → List StoredEvaluationResult
or_none none = []
or_none (some rs) = rs

-- `byCriterion.get(id) ?? []`
unfoldable pub results_of : String → Groups → List StoredEvaluationResult
results_of id groups = or_none (get id groups)

-- The loop that fills `byCriterion`.
unfoldable pub group_results : List StoredEvaluationResult → Groups → Groups
unfolding results_of
group_results [] groups = groups
group_results (r ∷ rs) groups =
    group_results rs (put r.criterion_id (results_of r.criterion_id groups ++ r ∷ []) groups)

-- The three lists that the loop over the criteria pushes to.
pub record Tally : Type 0 where
  pub failed : List String
  pub inconclusive : List String
  pub reasons : List String

abbrev pub push_failed : String → String → Tally → Tally
push_failed id reason t = record t {
  failed = t.failed ++ id ∷ [];
  reasons = t.reasons ++ text_append id reason ∷ [];
}

abbrev pub push_inconclusive : String → String → Tally → Tally
push_inconclusive id reason t = record t {
  inconclusive = t.inconclusive ++ id ∷ [];
  reasons = t.reasons ++ text_append id reason ∷ [];
}

abbrev pub is_empty {ℓ} : {A : Type ℓ} → List A → Bool
is_empty [] = true
is_empty (x ∷ xs) = false

abbrev pub is_stale : String → StoredEvaluationResult → Bool
is_stale target stored =
    any (λ (e : EvidenceRef). not (str_eq e.target_state_ref target)) stored.result.evidence

-- The body of the loop for a required criterion, from `trustedResults` on.
unfoldable pub judge_trusted :
    String → String → List StoredEvaluationResult → List StoredEvaluationResult → Tally → Tally
judge_trusted target id all_results trusted t =
    if is_empty trusted
    then push_inconclusive id
        (if is_empty all_results
          then ": missing required evidence"
          else ": evidence is not from a verified provider")
        t
    else if any (λ (s : StoredEvaluationResult). is_fail s.result.outcome) trusted
    then push_failed id ": criterion failed" t
    else if any (λ (s : StoredEvaluationResult). is_empty s.result.evidence) trusted
    then push_inconclusive id ": required evidence is empty" t
    else if any (is_stale target) trusted
    then push_inconclusive id ": stale target-state evidence" t
    else if any (λ (s : StoredEvaluationResult). not (is_pass s.result.outcome)) trusted
    then push_inconclusive id ": one or more outcomes are not acceptance" t
    else t

abbrev pub trusted_of : List StoredEvaluationResult → List StoredEvaluationResult
trusted_of = filter (λ (s : StoredEvaluationResult). is_verified s.provenance)

-- The body of the loop.
unfoldable pub judge : String → Groups → EvaluationCriterion → Tally → Tally
unfolding judge_trusted results_of
judge target groups c t =
    let rs = results_of c.id groups in
    if c.required then judge_trusted target c.id rs (trusted_of rs) t else t

-- The loop over the criteria.
unfoldable pub judge_all : String → Groups → List EvaluationCriterion → Tally → Tally
unfolding judge
judge_all target groups [] t = t
judge_all target groups (c ∷ cs) t = judge_all target groups cs (judge target groups c t)

abbrev pub decision_of : Tally → AcceptanceDecisionKind
decision_of t =
    if not (is_empty t.failed)
    then AcceptanceDecisionKind.rejected
    else if not (is_empty t.inconclusive)
    then AcceptanceDecisionKind.inconclusive
    else AcceptanceDecisionKind.accepted

abbrev pub no_tally : Tally
no_tally = record { failed = []; inconclusive = []; reasons = [] }

-- `evaluateAcceptance`. The digest of the specification, the target and the outcomes (sorted, as
-- JSON, with SHA-256) is an argument.
unfoldable pub evaluate_acceptance :
    (String → String → List (String × EvaluationOutcome × String) → String)
    → EvaluationSpec
    → String
    → List StoredEvaluationResult
    → AcceptanceEvaluation
unfolding group_results judge_all
evaluate_acceptance digest spec target results =
    let t = judge_all target (group_results results []) spec.criteria no_tally in
    record {
      decision = decision_of t;
      decision_digest = digest spec.spec_digest target (
          map (λ (s : StoredEvaluationResult). (s.criterion_id, s.result.outcome, s.result_digest))
            results);
      reasons = t.reasons;
      failed_criteria = t.failed;
      inconclusive_criteria = t.inconclusive;
    }
