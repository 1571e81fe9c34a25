-- ===== src/Evaluation/Acceptance/Verdicts.antt =====
-- What `evaluateAcceptance` decides, by each criterion's own results.
use my_pi.Prelude.{
  ◌≡◌, refl, ap, sym, subst, ◌∙◌, String, List, [], ◌∷◌, ◌++◌, Bool, Bool-cases, inl, inr, ◌+◌,
  length-append, true, false, ◌&&◌, ◌||◌, not, arith, str_eq, eq_iff, any, all, filter, map, length,
  if◌then◌else◌,
}
use my_pi.Prelude.Dict.{get, put, get-put}
use my_pi.Coordination.Model.{EvaluationSpec, EvaluationCriterion}
use my_pi.Evaluation.Model.{EvaluationOutcome, StoredEvaluationResult, is_pass, is_fail}
use my_pi.Evaluation.Acceptance.{
  Groups, or_none, push_failed, push_inconclusive, results_of, group_results, Tally, is_empty,
  is_stale, judge_trusted, trusted_of, judge, judge_all, evaluate_acceptance, AcceptanceEvaluation,
  no_tally,
}
use mathlib.Core.List.{append-nil, append_assoc}

-- The results of a criterion, in the order of the list.
abbrev pub own_results : String → List StoredEvaluationResult → List StoredEvaluationResult
own_results id = filter (λ (s : StoredEvaluationResult). str_eq s.criterion_id id)

results_of-put :
    (id : String) (r : StoredEvaluationResult) (m : Groups)
    → results_of id (put r.criterion_id (results_of r.criterion_id m ++ r ∷ []) m)
      ≡ results_of id m ++ own_results id (r ∷ [])
unfolding results_of
results_of-put id r m =
    ap or_none (get-put r.criterion_id id (results_of r.criterion_id m ++ r ∷ []) m)
    ∙ elim (Bool-cases (str_eq r.criterion_id id)) [
      | inl own ↦
          rw own (ap (λ (k : String). results_of k m ++ r ∷ []) ((eq_iff r.criterion_id id).0 own))
      | inr other ↦ rw other (sym (append-nil (results_of id m)))
    ]

own_results-cons :
    (id : String) (r : StoredEvaluationResult) (rs : List StoredEvaluationResult)
    → own_results id (r ∷ []) ++ own_results id rs ≡ own_results id (r ∷ rs)
own_results-cons id r rs = ground arith

results_of-group_results :
    (id : String) (rs : List StoredEvaluationResult) (m : Groups)
    → results_of id (group_results rs m) ≡ results_of id m ++ own_results id rs
unfolding group_results
results_of-group_results id [] m = sym (append-nil (results_of id m))
results_of-group_results id (r ∷ rs) m =
    results_of-group_results id rs _
    ∙ ap (λ l. l ++ own_results id rs) (results_of-put id r m)
    ∙ append_assoc (results_of id m) (own_results id (r ∷ [])) (own_results id rs)
    ∙ ap (λ l. results_of id m ++ l) (own_results-cons id r rs)

-- A criterion fails when a verified result says so, and is met when there is a verified result
-- and each of them passes and has evidence, all of it of the target.
abbrev pub fails : List StoredEvaluationResult → Bool
fails trusted = any (λ (s : StoredEvaluationResult). is_fail s.result.outcome) trusted

abbrev pub passes_at : String → StoredEvaluationResult → Bool
passes_at target s =
    is_pass s.result.outcome && (not (is_empty s.result.evidence) && not (is_stale target s))

abbrev pub meets : String → List StoredEvaluationResult → Bool
meets target trusted = not (is_empty trusted) && all (passes_at target) trusted

-- A tally after more criteria.
record Extended (t u : Tally) (failed inconclusive : List String) : Type 0 where
  more_failed : u.failed ≡ t.failed ++ failed
  more_inconclusive : u.inconclusive ≡ t.inconclusive ++ inconclusive
  reasoned : length u.reasons ≡ length t.reasons + (length failed + length inconclusive)

abbrev listed : Bool → String → List String
listed b id = if b then id ∷ [] else []

abbrev unproven : List StoredEvaluationResult → Bool
unproven = any (λ (s : StoredEvaluationResult). is_empty s.result.evidence)

abbrev unpassed : List StoredEvaluationResult → Bool
unpassed = any (λ (s : StoredEvaluationResult). not (is_pass s.result.outcome))

all_passes :
    (target : String) (trusted : List StoredEvaluationResult)
    → all (passes_at target) trusted
      ≡ not (unproven trusted || (any (is_stale target) trusted || unpassed trusted))
all_passes target [] = refl
all_passes target (s ∷ ss) = ground (arith, all_passes target ss)

module _ (id : String) (t : Tally) where
  pushed_failed-Extended : (m : String) → Extended t (push_failed id m t) (id ∷ []) []
  pushed_failed-Extended m = record {
    more_failed = refl;
    more_inconclusive = sym (append-nil t.inconclusive);
    reasoned = length-append t.reasons _;
  }

  pushed_inconclusive-Extended : (m : String) → Extended t (push_inconclusive id m t) [] (id ∷ [])
  pushed_inconclusive-Extended m = record {
    more_failed = sym (append-nil t.failed);
    more_inconclusive = refl;
    reasoned = length-append t.reasons _;
  }

  same-Extended : Extended t t [] []
  same-Extended = record {
    more_failed = sym (append-nil t.failed);
    more_inconclusive = sym (append-nil t.inconclusive);
    reasoned = omega arith;
  }

  -- The tests of the loop as a chain.
  chain-Extended :
      (f n s u : Bool) (m₁ m₂ m₃ m₄ : String)
      → Extended t
          (if f
            then push_failed id m₁ t
            else if n
            then push_inconclusive id m₂ t
            else if s
            then push_inconclusive id m₃ t
            else if u
            then push_inconclusive id m₄ t
            else t)
          (listed f id)
          (listed (not (f || not (n || (s || u)))) id)
  chain-Extended true n s u m₁ m₂ m₃ m₄ = pushed_failed-Extended m₁
  chain-Extended false true s u m₁ m₂ m₃ m₄ = pushed_inconclusive-Extended m₂
  chain-Extended false false true u m₁ m₂ m₃ m₄ = pushed_inconclusive-Extended m₃
  chain-Extended false false false true m₁ m₂ m₃ m₄ = pushed_inconclusive-Extended m₄
  chain-Extended false false false false m₁ m₂ m₃ m₄ = same-Extended

  judge_trusted-Extended :
      (target : String) (rs trusted : List StoredEvaluationResult)
      → Extended t
          (judge_trusted target id rs trusted t)
          (listed (fails trusted) id)
          (listed (not (fails trusted || meets target trusted)) id)
  unfolding judge_trusted
  judge_trusted-Extended target rs [] = pushed_inconclusive-Extended _
  judge_trusted-Extended target rs (s ∷ ss) = rw (all_passes target (s ∷ ss)) (
      chain-Extended (fails (s ∷ ss)) (unproven (s ∷ ss)) (any (is_stale target) (s ∷ ss))
        (unpassed (s ∷ ss)) _ _ _ _)

-- The verified results of a criterion.
abbrev pub trusted_for :
    EvaluationCriterion → List StoredEvaluationResult → List StoredEvaluationResult
trusted_for c rs = trusted_of (own_results c.id rs)

-- A required criterion that fails, and one that neither fails nor is met.
abbrev pub is_failed : List StoredEvaluationResult → EvaluationCriterion → Bool
is_failed rs c = c.required && fails (trusted_for c rs)

abbrev pub is_open : String → List StoredEvaluationResult → EvaluationCriterion → Bool
is_open target rs c =
    c.required && not (fails (trusted_for c rs) || meets target (trusted_for c rs))

abbrev pub names : (EvaluationCriterion → Bool) → List EvaluationCriterion → List String
names p cs = map (λ (c : EvaluationCriterion). c.id) (filter p cs)

names-cons :
    (p : EvaluationCriterion → Bool) (c : EvaluationCriterion) (cs : List EvaluationCriterion)
    → listed (p c) c.id ++ names p cs ≡ names p (c ∷ cs)
names-cons p c cs = ground arith

Extended-chain :
    (t u v : Tally) (f i g j : List String)
    → Extended t u f i
    → Extended u v g j
    → Extended t v (f ++ g) (i ++ j)
Extended-chain t u v f i g j one two = record {
  more_failed = two.more_failed ∙ ap (λ l. l ++ g) one.more_failed ∙ append_assoc t.failed f g;
  more_inconclusive =
      two.more_inconclusive
      ∙ ap (λ l. l ++ j) one.more_inconclusive
      ∙ append_assoc t.inconclusive i j;
  reasoned = omega (arith, one.reasoned, two.reasoned, length-append f g, length-append i j);
}

module _ (target : String) (rs : List StoredEvaluationResult) where
  judge-Extended :
      (c : EvaluationCriterion) (t : Tally)
      → Extended t
          (judge target (group_results rs []) c t)
          (listed (is_failed rs c) c.id)
          (listed (is_open target rs c) c.id)
  unfolding judge get
  judge-Extended c t = elim (Bool-cases c.required) [
    | inl needed ↦
        rw (needed, results_of-group_results c.id rs [])
          (judge_trusted-Extended c.id t target (own_results c.id rs) (trusted_for c rs))
    | inr optional ↦ rw optional (same-Extended c.id t)
  ]

  judge_all-Extended :
      (cs : List EvaluationCriterion) (t : Tally)
      → Extended t
          (judge_all target (group_results rs []) cs t)
          (names (is_failed rs) cs)
          (names (is_open target rs) cs)
  unfolding judge_all
  judge_all-Extended [] t = same-Extended target t
  judge_all-Extended (c ∷ cs) t =
      let u = judge target (group_results rs []) c t in
      subst
        (λ (q : List String × List String).
          Extended t (judge_all target (group_results rs []) cs u) q.0 q.1)
        (ap (λ l. (l, listed (is_open target rs c) c.id ++ names (is_open target rs) cs))
            (names-cons (is_failed rs) c cs)
          ∙ ap (λ l. (names (is_failed rs) (c ∷ cs), l)) (names-cons (is_open target rs) c cs))
        (Extended-chain t u _ _ _ _ _ (judge-Extended c t) (judge_all-Extended cs u))

-- What `evaluateAcceptance` finds.
pub record IsJudged (target : String) (rs : List StoredEvaluationResult) (spec : EvaluationSpec)
    (a : AcceptanceEvaluation) : Type 0 where
  pub failed : a.failed_criteria ≡ names (is_failed rs) spec.criteria
  pub inconclusive : a.inconclusive_criteria ≡ names (is_open target rs) spec.criteria
  pub reasoned : length a.reasons ≡ length a.failed_criteria + length a.inconclusive_criteria

-- The failed criteria are the required ones with a failing verified result; the inconclusive ones
-- are the other required ones that are not met; both are in the order of the specification, and
-- there is one reason for each.
pub evaluate_acceptance-IsJudged :
    (digest : String → String → List (String × EvaluationOutcome × String) → String)
    (spec : EvaluationSpec) (target : String) (rs : List StoredEvaluationResult)
    → IsJudged target rs spec (evaluate_acceptance digest spec target rs)
unfolding evaluate_acceptance
evaluate_acceptance-IsJudged digest spec target rs =
    let all_judged = judge_all-Extended target rs spec.criteria no_tally in
    record {
      failed = all_judged.more_failed;
      inconclusive = all_judged.more_inconclusive;
      reasoned =
          rw (all_judged.more_failed, all_judged.more_inconclusive)
            (omega (arith, all_judged.reasoned));
    }
