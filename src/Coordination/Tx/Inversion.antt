-- ===== src/Coordination/Tx/Inversion.antt =====
-- What a block that returned has passed: one lemma for each statement that may stand first.
use my_pi.Prelude.{◌≡◌, refl, ap, ◌∙◌, Bool, true, false, Option, none, some, arith}
use my_pi.Prelude.Outcome.{Outcome, ok, err, ErrorCode, ok-injective}
use my_pi.Coordination.Store.{CoordinationDb}
use my_pi.Coordination.Tx.{Tx, pure, read, or_throw, check, modify, ◌>>=◌, transact}

module _ {ℓ} {B : Type ℓ} (s : CoordinationDb) (r : B × CoordinationDb) where
  pub after_check :
      (b : Bool) (c : ErrorCode) (f : Unit {0} → Tx B)
      → (check b c >>= f) s ≡ ok r
      → (b ≡ true) × (f tt s ≡ ok r)
  unfolding ◌>>=◌ check
  after_check true c f e = (refl, e)
  after_check false c f e = cc

  pub after_or_throw {κ} :
      {A : Type κ} (c : ErrorCode) (o : Option A) (f : A → Tx B)
      → (or_throw c o >>= f) s ≡ ok r
      → (a : A) × (o ≡ some a) × (f a s ≡ ok r)
  unfolding ◌>>=◌ or_throw
  after_or_throw c none f e = cc
  after_or_throw c (some a) f e = (a, refl, e)

  pub after_read {κ} :
      {A : Type κ} (g : CoordinationDb → A) (f : A → Tx B)
      → (read g >>= f) s ≡ ok r
      → f (g s) s ≡ ok r
  unfolding ◌>>=◌ read
  after_read g f e = e

  pub after_modify :
      (g : CoordinationDb → CoordinationDb) (f : Unit {0} → Tx B)
      → (modify g >>= f) s ≡ ok r
      → f tt (g s) ≡ ok r
  unfolding ◌>>=◌ modify
  after_modify g f e = e

  pub after_pure : (b : B) → pure b s ≡ ok r → ◌≡◌ {A = B × CoordinationDb} (b, s) r
  unfolding pure
  after_pure b e = ok-injective _ _ e

transacted {ℓ} :
    {A : Type ℓ} (o : Outcome (A × CoordinationDb)) (s : CoordinationDb) (a : A)
    → (elim o as (λ _. Outcome A × CoordinationDb) [ ok r ↦ (ok r.0, r.1) | err c ↦ (err c, s) ]).0
      ≡ ok a
    → o
      ≡ ok (
        a,
        (elim o as (λ _. Outcome A × CoordinationDb) [
          | ok r ↦ (ok r.0, r.1)
          | err c ↦ (err c, s)
        ]).1,
      )
transacted (ok r) s a h = ground arith
transacted (err c) s a h = cc

-- A transaction that returns has run its callback to the end.
pub transact-eq-ok {ℓ} :
    {A : Type ℓ} (m : Tx A) (s : CoordinationDb) (a : A)
    → (transact m s).0 ≡ ok a
    → m s ≡ ok (a, (transact m s).1)
unfolding transact
transact-eq-ok m s a h = transacted (m s) s a h

pub transact-returns {ℓ} :
    {A : Type ℓ} (m : Tx A) (s : CoordinationDb) (a : A) (t : CoordinationDb)
    → transact m s ≡ (ok a, t)
    → m s ≡ ok (a, t)
transact-returns {A} m s a t h =
    transact-eq-ok m s a (ap (λ (p : Outcome A × CoordinationDb). p.0) h)
    ∙ ap (λ (p : Outcome A × CoordinationDb). ok (a, p.1)) h
