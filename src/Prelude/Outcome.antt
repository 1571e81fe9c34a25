-- ===== src/Prelude/Outcome.antt =====
-- A call that returns a value or throws. The source throws `MyPiError` values, told apart by their
-- code (packages/contracts/src/errors.ts), and plain `Error`s; the messages are left out.
use my_pi.Prelude.{◌≡◌, refl, ap, Bool, true, false, ◌⊎◌, inl, inr}

pub data ErrorCode : Type 0 where
  invalid_argument project_not_found agent_session_not_found agent_session_expired : ErrorCode
  work_item_not_found work_item_conflict work_item_blocked evaluation_spec_invalid : ErrorCode
  evaluation_not_accepted evaluation_inconclusive evaluation_result_conflict : ErrorCode
  evaluation_target_stale path_not_found ambiguous_anchor parse_failed output_limit : ErrorCode
  idempotency_conflict coordination_store_failure lsp_frame_error plain_error : ErrorCode

pub data Outcome {ℓ} (A : Type ℓ) : Type ℓ where
  ok : A → Outcome A
  err : ErrorCode → Outcome A

value_or {ℓ} : {A : Type ℓ} → A → Outcome A → A
value_or d (err e) = d
value_or d (ok a) = a

pub ok-injective {ℓ} : {A : Type ℓ} (a b : A) → ok a ≡ ok b → a ≡ b
unfolding value_or
ok-injective a b h = ap (value_or a) h

pub Outcome-cases {ℓ} :
    {A : Type ℓ} (o : Outcome A) → ((a : A) × (o ≡ ok a)) ⊎ ((c : ErrorCode) × (o ≡ err c))
Outcome-cases (ok a) = inl (a, refl)
Outcome-cases (err c) = inr (c, refl)

-- `if (!holds) throw code;`
abbrev pub require : Bool → ErrorCode → Outcome (Unit {0})
require false code = err code
require true code = ok tt

-- The statements after one that may throw, and those that do not need its value.
infixl 5 ◌>>=◌ ◌>>◌
abbrev pub ◌>>=◌ {ℓ κ} : {A : Type ℓ} {B : Type κ} → Outcome A → (A → Outcome B) → Outcome B
err code >>= next = err code
ok value >>= next = next value

abbrev pub ◌>>◌ {κ} : {B : Type κ} → Outcome (Unit {0}) → Outcome B → Outcome B
first >> next = first >>= λ _. next

-- If both together return, the first has returned a value from which the second goes on.
module _ {ℓ κ} {A : Type ℓ} {B : Type κ} where
  pub >>=-eq-ok :
      (first : Outcome A) (next : A → Outcome B) {result : B}
      → (first >>= next) ≡ ok result
      → (value : A) × (first ≡ ok value) × (next value ≡ ok result)
  >>=-eq-ok (err code) next h = cc
  >>=-eq-ok (ok value) next h = (value, refl, h)

-- A statement `if (!holds) throw code;` that has been passed.
pub after_require {κ} :
    {B : Type κ} (holds : Bool) (code : ErrorCode) (next : Outcome B) {result : B}
    → (require holds code >> next) ≡ ok result
    → (holds ≡ true) × (next ≡ ok result)
after_require true code next h = (refl, h)
after_require false code next h = cc
