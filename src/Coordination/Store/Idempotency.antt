-- ===== src/Coordination/Store/Idempotency.antt =====
-- The records of calls that a client may repeat (`checkIdempotency` and `recordIdempotency` of
-- packages/coordination-store/src/sqlite-store.ts), on the rows of `idempotency_keys`. The time is
-- an argument.
pub mod First
use my_pi.Prelude.{
  ℕ, ◌≡◌, refl, ap, sym, ◌∙◌, String, Option, none, some, List, [], ◌∷◌, ◌++◌, Bool, true, false,
  ◌&&◌, not, arith, leb, str_eq, if◌then◌else◌, filter, inl, inr, Bool-cases, Option-cases, All,
}
use my_pi.Prelude.Dict.{str_eq_refl}
use my_pi.Prelude.Text.{truthy}
use my_pi.Prelude.Outcome.{Outcome, ok, err, invalid_argument, idempotency_conflict}

pub record StoredIdempotency : Type 0 where
  pub client_id : String
  pub key : String
  pub operation_kind : String
  pub request_digest : String
  pub result_ref : Option String
  pub result_digest : Option String
  pub expires_at : Option ℕ

pub record IdempotencyInput : Type 0 where
  pub client_id : String
  pub key : String
  pub operation_kind : String
  pub request_digest : String

-- `!input.clientId || …`, negated.
abbrev pub idempotency_ok : IdempotencyInput → Bool
idempotency_ok input =
    truthy input.client_id
    && truthy input.key
    && truthy input.operation_kind
    && truthy input.request_digest

abbrev pub is_past : ℕ → StoredIdempotency → Bool
is_past now r = elim r.expires_at [ none ↦ false | some t ↦ leb t now ]

-- The rows that `DELETE` leaves.
abbrev pub live : ℕ → List StoredIdempotency → List StoredIdempotency
live now rows = filter (λ r. not (is_past now r)) rows

abbrev pub is_keyed : String → String → StoredIdempotency → Bool
is_keyed client key r = str_eq r.client_id client && str_eq r.key key

unfoldable pub lookup : String → String → List StoredIdempotency → Option StoredIdempotency
lookup client key [] = none
lookup client key (r ∷ rows) =
    let later = lookup client key rows in if is_keyed client key r then some r else later

abbrev pub same_request : StoredIdempotency → IdempotencyInput → Bool
same_request r input =
    str_eq r.request_digest input.request_digest && str_eq r.operation_kind input.operation_kind

abbrev pub or_absent : Option String → Option String
or_absent none = none
or_absent (some s) = if truthy s then some s else none

-- The record that is returned for a row: an empty text is left out.
abbrev pub returned : StoredIdempotency → StoredIdempotency
returned r = record r {
  result_ref = or_absent r.result_ref;
  result_digest = or_absent r.result_digest;
}

-- What a row gives for a request.
abbrev pub answer : StoredIdempotency → IdempotencyInput → Outcome (Option StoredIdempotency)
answer r input = if same_request r input then ok (some (returned r)) else err idempotency_conflict

-- `getIdempotencyInTransaction`, with the rows that it leaves.
unfoldable pub get_idempotency :
    ℕ
    → IdempotencyInput
    → List StoredIdempotency
    → Outcome (Option StoredIdempotency) × List StoredIdempotency
unfolding lookup
get_idempotency now input rows =
    if idempotency_ok input
    then elim (lookup input.client_id input.key (live now rows)) [
      | none ↦ (ok none, live now rows)
      | some r ↦ (answer r input, live now rows)
    ]
    else (err invalid_argument, rows)

-- A throw rolls the rows back.
abbrev pub rolled_back {ℓ} :
    {A : Type ℓ}
    → List StoredIdempotency
    → Outcome A × List StoredIdempotency
    → Outcome A × List StoredIdempotency
rolled_back before (ok a, rows) = (ok a, rows)
rolled_back before (err c, rows) = (err c, before)

-- `checkIdempotency`
unfoldable pub check_idempotency :
    ℕ
    → IdempotencyInput
    → List StoredIdempotency
    → Outcome (Option StoredIdempotency) × List StoredIdempotency
unfolding get_idempotency
check_idempotency now input rows = rolled_back rows (get_idempotency now input rows)

abbrev pub input_of : StoredIdempotency → IdempotencyInput
input_of r = record {
  client_id = r.client_id;
  key = r.key;
  operation_kind = r.operation_kind;
  request_digest = r.request_digest;
}

-- `putIdempotencyInTransaction`, after its look-up.
abbrev pub put_found :
    StoredIdempotency
    → Outcome (Option StoredIdempotency) × List StoredIdempotency
    → Outcome (Unit {0}) × List StoredIdempotency
put_found r (ok none, rows) = (ok tt, rows ++ r ∷ [])
put_found r (ok (some existing), rows) = (ok tt, rows)
put_found r (err c, rows) = (err c, rows)

-- `recordIdempotency`
unfoldable pub record_idempotency :
    ℕ → StoredIdempotency → List StoredIdempotency → Outcome (Unit {0}) × List StoredIdempotency
unfolding get_idempotency
record_idempotency now r rows =
    rolled_back rows (put_found r (get_idempotency now (input_of r) rows))

pub data IdempotencyCall : Type 0 where
  checking : ℕ → IdempotencyInput → IdempotencyCall
  recording : ℕ → StoredIdempotency → IdempotencyCall

abbrev pub call_time : IdempotencyCall → ℕ
call_time (checking now input) = now
call_time (recording now r) = now

abbrev pub call : IdempotencyCall → List StoredIdempotency → List StoredIdempotency
unfolding check_idempotency record_idempotency
call (checking now input) rows = (check_idempotency now input rows).1
call (recording now r) rows = (record_idempotency now r rows).1

unfoldable pub calls : List IdempotencyCall → List StoredIdempotency → List StoredIdempotency
calls [] rows = rows
calls (c ∷ cs) rows = calls cs (call c rows)
