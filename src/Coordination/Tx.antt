-- ===== src/Coordination/Tx.antt =====
-- Transactions (`transact` of packages/coordination-store/src/sqlite-store.ts): the callback runs on
-- the database and returns or throws; a throw rolls everything back.
pub mod Inversion
pub mod Moves
use my_pi.Prelude.{String, Option, none, some, List, [], ◌∷◌, Bool, true, false, ℕ}
use my_pi.Prelude.Outcome.{Outcome, ok, err, ErrorCode}
use my_pi.Coordination.Event.{CoordinationEvent, EventBody, AppendEventInput}
use my_pi.Coordination.Store.{
  CoordinationDb, Projection, append_event, get_projection, list_projections,
}
use my_pi.Coordination.Model.{Actor}

-- The callback of a transaction.
abbrev pub Tx {ℓ} : Type ℓ → Type ℓ
Tx A = CoordinationDb → Outcome (A × CoordinationDb)

module _ {ℓ} {A : Type ℓ} where
  unfoldable pub pure : A → Tx A
  pure a db = ok (a, db)

  unfoldable pub throw : ErrorCode → Tx A
  throw c db = err c

  -- A read of the database.
  unfoldable pub read : (CoordinationDb → A) → Tx A
  read f db = ok (f db, db)

  -- `if (!x) throw c;` for a value that may be absent.
  unfoldable pub or_throw : ErrorCode → Option A → Tx A
  or_throw c none db = err c
  or_throw c (some a) db = ok (a, db)

-- `if (!b) throw c;`
unfoldable pub check : Bool → ErrorCode → Tx (Unit {0})
check true c db = ok (tt, db)
check false c db = err c

-- `tx.putProjection`, for the table of its kind.
unfoldable pub modify : (CoordinationDb → CoordinationDb) → Tx (Unit {0})
modify f db = ok (tt, f db)

infixl 5 ◌>>=◌ ◌>>◌
unfoldable pub ◌>>=◌ {ℓ κ} : {A : Type ℓ} {B : Type κ} → Tx A → (A → Tx B) → Tx B
unfolding pure throw read or_throw check modify
◌>>=◌ m f db = elim (m db) [ ok r ↦ f r.0 r.1 | err c ↦ err c ]

abbrev pub ◌>>◌ {ℓ κ} : {A : Type ℓ} {B : Type κ} → Tx A → Tx B → Tx B
m >> k = m >>= λ _. k

-- `transact`: the outcome that the caller sees, with the database that is left.
unfoldable pub transact {ℓ} : {A : Type ℓ} → Tx A → CoordinationDb → Outcome A × CoordinationDb
transact m db = elim (m db) [ ok r ↦ (ok r.0, r.1) | err c ↦ (err c, db) ]

-- `tx.appendEvent`, with the clock's time.
unfoldable pub append : (ℕ → String) → String → ℕ → Actor → EventBody → Tx CoordinationEvent
append create_event_id project_id now actor body db =
    append_event create_event_id
      (record {
        project_id = project_id;
        event_id = none;
        body = body;
        occurred_at = now;
        actor = actor;
        correlation_id = none;
        causation_id = none;
      })
      db
