-- ===== src/Evaluation/Acceptance/Decisions.antt =====
-- When `evaluateAcceptance` accepts and when it rejects.
use my_pi.Prelude.{
  ◌≡◌, refl, ap, sym, ◌∙◌, ◌↔◌, String, List, [], ◌∷◌, Bool, true, false, ◌&&◌, ◌||◌, not, arith,
  any, all, if◌then◌else◌,
}
use my_pi.Coordination.Model.{EvaluationSpec, EvaluationCriterion, AcceptanceDecisionKind}
use my_pi.Evaluation.Model.{EvaluationOutcome, StoredEvaluationResult}
use my_pi.Evaluation.Acceptance.{evaluate_acceptance, is_empty, trusted_of}
use my_pi.Evaluation.Acceptance.Verdicts.{
  passes_at, fails, meets, trusted_for, is_failed, is_open, names, evaluate_acceptance-IsJudged,
}

is_empty-names :
    (p : EvaluationCriterion → Bool) (cs : List EvaluationCriterion)
    → is_empty (names p cs) ≡ not (any p cs)
is_empty-names p [] = refl
is_empty-names p (c ∷ cs) = ground (arith, is_empty-names p cs)

-- A required criterion is met.
abbrev pub is_met : String → List StoredEvaluationResult → EvaluationCriterion → Bool
is_met target rs c = not c.required || meets target (trusted_for c rs)

all_pass-fails :
    (target : String) (trusted : List StoredEvaluationResult)
    → all (passes_at target) trusted ≡ true
    → fails trusted ≡ false
all_pass-fails target [] h = refl
all_pass-fails target (s ∷ ss) h = ground (arith, all_pass-fails target ss)

meets-fails :
    (target : String) (trusted : List StoredEvaluationResult)
    → meets target trusted ≡ true
    → fails trusted ≡ false
meets-fails target trusted h = all_pass-fails target trusted (ground arith)

any-is_met :
    (target : String) (rs : List StoredEvaluationResult) (cs : List EvaluationCriterion)
    → (any (is_failed rs) cs || any (is_open target rs) cs) ≡ not (all (is_met target rs) cs)
any-is_met target rs [] = refl
any-is_met target rs (c ∷ cs) =
    ground (arith, any-is_met target rs cs, meets-fails target (trusted_for c rs))

module _ (digest : String → String → List (String × EvaluationOutcome × String) → String)
    (spec : EvaluationSpec) (target : String) (rs : List StoredEvaluationResult) where
  decision-eq : (evaluate_acceptance digest spec target rs).decision ≡ (
      if any (is_failed rs) spec.criteria
      then AcceptanceDecisionKind.rejected
      else if any (is_open target rs) spec.criteria
      then AcceptanceDecisionKind.inconclusive
      else AcceptanceDecisionKind.accepted)
  unfolding evaluate_acceptance
  decision-eq =
      let h = evaluate_acceptance-IsJudged digest spec target rs in
      ground (
        arith,
        ap is_empty h.failed,
        ap is_empty h.inconclusive,
        is_empty-names (is_failed rs) spec.criteria,
        is_empty-names (is_open target rs) spec.criteria,
      )

  -- The decision is "accepted" exactly if every required criterion has a verified result, and its
  -- verified results all pass with evidence, all of it of the target.
  pub evaluate_acceptance-accepted :
      ((evaluate_acceptance digest spec target rs).decision ≡ AcceptanceDecisionKind.accepted)
      ↔ (all (is_met target rs) spec.criteria ≡ true)
  evaluate_acceptance-accepted = (
    λ h. ground (arith, decision-eq, any-is_met target rs spec.criteria),
    λ h. ground (arith, decision-eq, any-is_met target rs spec.criteria),
  )

  -- It is "rejected" exactly if a required criterion has a failing verified result.
  pub evaluate_acceptance-rejected :
      ((evaluate_acceptance digest spec target rs).decision ≡ AcceptanceDecisionKind.rejected)
      ↔ (any (is_failed rs) spec.criteria ≡ true)
  evaluate_acceptance-rejected =
      (λ h. ground (arith, decision-eq), λ h. ground (arith, decision-eq))

trusted_for-trusted_of :
    (c : EvaluationCriterion) (rs : List StoredEvaluationResult)
    → trusted_for c (trusted_of rs) ≡ trusted_for c rs
trusted_for-trusted_of c [] = refl
trusted_for-trusted_of c (r ∷ rs) = ground (arith, trusted_for-trusted_of c rs)

any-same :
    (p q : EvaluationCriterion → Bool) (cs : List EvaluationCriterion)
    → ((c : EvaluationCriterion) → p c ≡ q c)
    → any p cs ≡ any q cs
any-same p q [] h = refl
any-same p q (c ∷ cs) h = rw (h c, any-same p q cs h) refl

-- Results that no verified provider gave, whatever they say and wherever they stand, do not change
-- the decision.
pub evaluate_acceptance-trusted_of :
    (digest : String → String → List (String × EvaluationOutcome × String) → String)
    (spec : EvaluationSpec) (target : String) (rs : List StoredEvaluationResult)
    → (evaluate_acceptance digest spec target (trusted_of rs)).decision
      ≡ (evaluate_acceptance digest spec target rs).decision
evaluate_acceptance-trusted_of digest spec target rs =
    decision-eq digest spec target (trusted_of rs)
    ∙ rw
        (
          any-same (is_failed (trusted_of rs)) (is_failed rs) spec.criteria
              (λ c. ap (λ l. c.required && fails l) (trusted_for-trusted_of c rs)),
          any-same (is_open target (trusted_of rs)) (is_open target rs) spec.criteria (λ c.
              ap (λ l. c.required && not (fails l || meets target l))
                (trusted_for-trusted_of c rs)),
        )
        (sym (decision-eq digest spec target rs))
