-- ===== src/Coordination/Tx/Moves.antt =====
-- Relations between the database before a callback and after it, when it returns: one rule for each
-- way to build a callback. An invariant `P` is the relation `P s → P t`.
use my_pi.Prelude.{◌≡◌, refl, Bool, true, false, Option, none, some, if◌then◌else◌}
use my_pi.Prelude.Outcome.{Outcome, ok, err, ErrorCode}
use my_pi.Coordination.Store.{CoordinationDb}
use my_pi.Coordination.Tx.{Tx, pure, throw, read, or_throw, check, modify, ◌>>=◌, transact}

abbrev pub After {ℓ κ} :
    {A : Type ℓ} → (CoordinationDb → Type κ) → Outcome (A × CoordinationDb) → Type κ
After P (ok r) = P r.1
After P (err c) = Unit

pub record Moves {ℓ κ} {A : Type ℓ} (R : CoordinationDb → CoordinationDb → Type κ) (m : Tx A)
    : Type κ where
  pub at : (s : CoordinationDb) → After (R s) (m s)

pub Moves-of {ℓ κ} :
    {A : Type ℓ} {R : CoordinationDb → CoordinationDb → Type κ} (m : Tx A)
    → ((s : CoordinationDb) (r : A × CoordinationDb) → m s ≡ ok r → R s r.1)
    → Moves R m
Moves-of {A} {R} m h = record { at = λ s. go s (m s) refl }
  where
    go : (s : CoordinationDb) (o : Outcome (A × CoordinationDb)) → m s ≡ o → After (R s) o
    go s (ok r) e = h s r e
    go s (err c) e = tt

-- A reflexive and transitive relation.
pub record Preorder {κ} (R : CoordinationDb → CoordinationDb → Type κ) : Type κ where
  pub same : (s : CoordinationDb) → R s s
  pub chain : (s t u : CoordinationDb) → R s t → R t u → R s u

module _ {ℓ κ} {A : Type ℓ} {R : CoordinationDb → CoordinationDb → Type κ} (p : Preorder R) where
  pub Moves-pure : (a : A) → Moves R (pure a)
  unfolding pure
  Moves-pure a = record { at = λ s. p.same s }

  pub Moves-read : (f : CoordinationDb → A) → Moves R (read f)
  unfolding read
  Moves-read f = record { at = λ s. p.same s }

  pub Moves-or_throw : (c : ErrorCode) (o : Option A) → Moves R (or_throw c o)
  unfolding or_throw
  Moves-or_throw c none = record { at = λ s. tt }
  Moves-or_throw c (some a) = record { at = λ s. p.same s }

pub Moves-throw {ℓ κ} :
    {A : Type ℓ} {R : CoordinationDb → CoordinationDb → Type κ} (c : ErrorCode)
    → Moves R (throw {A = A} c)
unfolding throw
Moves-throw c = record { at = λ s. tt }

pub Moves-check {κ} :
    {R : CoordinationDb → CoordinationDb → Type κ}
    → Preorder R
    → (b : Bool) (c : ErrorCode) → Moves R (check b c)
unfolding check
Moves-check p true c = record { at = λ s. p.same s }
Moves-check p false c = record { at = λ s. tt }

pub Moves-modify {κ} :
    {R : CoordinationDb → CoordinationDb → Type κ} (f : CoordinationDb → CoordinationDb)
    → ((s : CoordinationDb) → R s (f s))
    → Moves R (modify f)
unfolding modify
Moves-modify f h = record { at = h }

module _ {ℓ κ} {A : Type ℓ} {R : CoordinationDb → CoordinationDb → Type κ} where
  pub Moves-if : (b : Bool) (m n : Tx A) → Moves R m → Moves R n → Moves R (if b then m else n)
  Moves-if true m n hm hn = hm
  Moves-if false m n hm hn = hn

  -- What a transaction leaves, whether it returns or throws.
  pub Moves-transact :
      Preorder R → (m : Tx A) → Moves R m → (s : CoordinationDb) → R s (transact m s).1
  unfolding transact
  Moves-transact p m h s = go (m s) (h.at s)
    where
      go :
          (o : Outcome (A × CoordinationDb))
          → After (R s) o
          → R s
              (elim o as (λ _. Outcome A × CoordinationDb) [
                | ok r ↦ (ok r.0, r.1)
                | err c ↦ (err c, s)
              ]).1
      go (ok r) a = a
      go (err c) a = p.same s

module _ {ℓ ℓ' κ} {A : Type ℓ} {B : Type ℓ'} {R : CoordinationDb → CoordinationDb → Type κ} where
  pub Moves-bind :
      Preorder R
      → (m : Tx A) (f : A → Tx B) → Moves R m
      → ((a : A) → Moves R (f a))
      → Moves R (m >>= f)
  unfolding ◌>>=◌
  Moves-bind p m f hm hf = record { at = λ s. go s (m s) (hm.at s) }
    where
      move :
          (s : CoordinationDb) (a : A) (t : CoordinationDb)
          → R s t
          → (o : Outcome (B × CoordinationDb)) → After (R t) o
          → After (R s) o
      move s a t h (ok r) k = p.chain s t r.1 h k
      move s a t h (err c) k = tt

      go :
          (s : CoordinationDb) (o : Outcome (A × CoordinationDb))
          → After (R s) o
          → After
              (R s)
              (elim o as (λ _. Outcome (B × CoordinationDb)) [ ok r ↦ f r.0 r.1 | err c ↦ err c ])
      go s (ok r) h = move s r.0 r.1 h (f r.0 r.1) ((hf r.0).at r.1)
      go s (err c) h = tt

module _ {ℓ ℓ'} {A : Type ℓ} {B : Type ℓ'} where
  -- The value of a callback that returned, for the rest of the block.
  pub bind-eq-ok :
      (m : Tx A) (f : A → Tx B) (s : CoordinationDb) (r : B × CoordinationDb)
      → (m >>= f) s ≡ ok r
      → (q : A × CoordinationDb) × (m s ≡ ok q) × (f q.0 q.1 ≡ ok r)
  unfolding ◌>>=◌
  bind-eq-ok m f s r e = go (m s) refl e
    where
      go :
          (o : Outcome (A × CoordinationDb))
          → m s ≡ o
          → (elim o as (λ _. Outcome (B × CoordinationDb)) [ ok q ↦ f q.0 q.1 | err c ↦ err c ])
            ≡ ok r
          → (q : A × CoordinationDb) × (m s ≡ ok q) × (f q.0 q.1 ≡ ok r)
      go (ok q) known e' = (q, known, e')
      go (err c) known e' = cc

pub ruleset moves_rules =
    (Moves-pure, Moves-read, Moves-or_throw, Moves-throw, Moves-check, Moves-if, Moves-bind)
