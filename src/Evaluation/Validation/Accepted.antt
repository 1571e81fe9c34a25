-- ===== src/Evaluation/Validation/Accepted.antt =====
-- What is known of specifications and results that pass the checks.
use my_pi.Prelude.{
  ℕ, ◌≡◌, ◌≤◌, refl, String, List, [], ◌∷◌, false, not, arith, str_eq, eq_iff, any, length,
}
use my_pi.Prelude.Outcome.{ok}
use my_pi.Coordination.Model.{EvaluationCriterion}
use my_pi.Evaluation.Model.{EvidenceRef, EvaluationResult, StoredEvaluationResult}
use my_pi.Evaluation.Acceptance.{is_stale}
use my_pi.Evaluation.Validation.{
  check_criteria, validate_criteria, check_evidence, validate_evidence, ProviderResultInput,
  validate_provider_result,
}

-- No identifier of the criteria stands among `ids` or comes twice.
abbrev pub IsFresh : List EvaluationCriterion → List String → Type 0
IsFresh [] ids = Unit
IsFresh (c ∷ cs) ids = (any (str_eq c.id) ids ≡ false) × IsFresh cs (c.id ∷ ids)

check_criteria-IsFresh :
    (cs : List EvaluationCriterion) (ids : List String)
    → check_criteria cs ids ≡ ok tt
    → IsFresh cs ids
unfolding check_criteria
check_criteria-IsFresh [] ids h = tt
check_criteria-IsFresh (c ∷ cs) ids h =
    (ground arith, check_criteria-IsFresh cs (c.id ∷ ids) (ground arith))

-- Criteria that pass `validateCriteria` are between 1 and 100, and no two have one identifier.
pub validate_criteria-IsFresh :
    (cs : List EvaluationCriterion)
    → validate_criteria cs ≡ ok tt
    → (1 ≤ length cs) × (length cs ≤ 100) × IsFresh cs []
unfolding validate_criteria
validate_criteria-IsFresh cs h =
    (ground arith, ground arith, check_criteria-IsFresh cs [] (ground arith))

check_evidence-current :
    (target : String) (es : List EvidenceRef)
    → check_evidence target es ≡ ok tt
    → any (λ (e : EvidenceRef). not (str_eq e.target_state_ref target)) es ≡ false
unfolding check_evidence
check_evidence-current target [] h = refl
check_evidence-current target (e ∷ es) h =
    let rest = check_evidence-current target es (ground arith) in ground arith

-- A result that passes `validateProviderResult` for a target is its criterion's own, has at most 50
-- references, and `evaluateAcceptance` at that target never finds its evidence stale.
pub validate_provider_result-is_stale :
    (json_length : EvaluationResult → ℕ) (input : ProviderResultInput) (target : String)
    (stored : StoredEvaluationResult)
    → stored.result ≡ input.result
    → validate_provider_result json_length input target ≡ ok tt
    → (is_stale target stored ≡ false)
      × (length input.result.evidence ≤ 50)
      × (input.result.criterion_id ≡ input.criterion_id)
unfolding validate_provider_result validate_evidence
validate_provider_result-is_stale json_length input target stored same h =
    let current = check_evidence-current target input.result.evidence (ground arith) in
    (rw same current, ground arith, (eq_iff _ _).0 (ground arith))
