-- ===== src/Evaluation/Retry.antt =====
-- `makeRetryCycle` (packages/evaluation-runtime/src/retry.ts).
use Prim.Native.String.{◌++◌ as text_append}
use my_pi.Prelude.{
  ℕ, ◌≡◌, ◌≢◌, ◌≤◌, ◌<◌, arith, subst, length, length-take, Bool-cases, inl, inr, String, none,
  List, Bool, true, false, ◌&&◌, ◌||◌, leb, ltb, take, if◌then◌else◌,
}
use my_pi.Prelude.Outcome.{Outcome, ok, err, ok-injective, plain_error}
use my_pi.Coordination.Model.{EvaluationRun}
use my_pi.Evaluation.Model.{RetryCycle, RetryCycleState}

abbrev pub is_recommended : RetryCycleState → Bool
is_recommended RetryCycleState.recommended = true
is_recommended _ = false

abbrev pub bounded_state : EvaluationRun → ℕ → RetryCycleState → RetryCycleState
bounded_state run max_attempts state =
    if leb max_attempts run.attempt && is_recommended state
    then RetryCycleState.exhausted
    else state

-- `makeRetryCycle`; how a number is written in a text is an argument.
unfoldable pub make_retry_cycle :
    (ℕ → String)
    → EvaluationRun
    → RetryCycleState
    → List String
    → List String
    → ℕ
    → ℕ
    → Outcome RetryCycle
make_retry_cycle decimal run state reason_codes constraints max_attempts updated_at =
    if ltb max_attempts 1 || ltb 10 max_attempts
    then err plain_error
    else ok (record {
      id = text_append "retry_" (text_append run.id (text_append "_" (decimal run.attempt)));
      run_id = run.id;
      attempt = run.attempt;
      max_attempts = max_attempts;
      state = bounded_state run max_attempts state;
      reason_codes = take 100 reason_codes;
      constraints = take 100 constraints;
      next_intent_id = none;
      updated_at = updated_at;
    })

-- What holds of a retry cycle that `makeRetryCycle` returns.
pub record IsBounded (run : EvaluationRun) (cycle : RetryCycle) : Type 0 where
  pub attempts : (1 ≤ cycle.max_attempts) × (cycle.max_attempts ≤ 10)
  pub recommended : cycle.state ≡ RetryCycleState.recommended → run.attempt < cycle.max_attempts
  pub lists : (length cycle.reason_codes ≤ 100) × (length cycle.constraints ≤ 100)

bounded_state-ne-recommended :
    (run : EvaluationRun) (m : ℕ) (st : RetryCycleState)
    → leb m run.attempt ≡ true
    → bounded_state run m st ≢ RetryCycleState.recommended
bounded_state-ne-recommended run m RetryCycleState.recommended h e = ground arith
bounded_state-ne-recommended run m st h e = ground arith

-- A retry cycle that `makeRetryCycle` returns allows between 1 and 10 attempts, recommends a retry
-- only while the run's attempt is below that, and has at most 100 reasons and 100 constraints.
pub make_retry_cycle-IsBounded :
    (decimal : ℕ → String) (run : EvaluationRun) (state : RetryCycleState)
    (reason_codes constraints : List String) (max_attempts updated_at : ℕ) (cycle : RetryCycle)
    → make_retry_cycle decimal run state reason_codes constraints max_attempts updated_at ≡ ok cycle
    → IsBounded run cycle
unfolding make_retry_cycle
make_retry_cycle-IsBounded decimal run state reason_codes constraints max_attempts updated_at cycle
      h =
    elim (Bool-cases (ltb max_attempts 1 || ltb 10 max_attempts)) [
      | inl out ↦ cc (rw out at h)
      | inr within ↦
          let same = ok-injective _ _ (rw within at h) in
          subst (λ (c : RetryCycle). IsBounded run c) same
            (record {
              attempts = (ground arith, ground arith);
              recommended = λ e. elim (Bool-cases (leb max_attempts run.attempt)) [
                | inl last ↦ absurd (bounded_state-ne-recommended run max_attempts state last e)
                | inr more ↦ ground arith
              ];
              lists = (
                omega (arith, length-take 100 reason_codes),
                omega (arith, length-take 100 constraints),
              );
            })
    ]
