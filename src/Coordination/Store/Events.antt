-- ===== src/Coordination/Store/Events.antt =====
-- `listEvents` (packages/coordination-store/src/sqlite-store.ts): a page of a project's events.
use my_pi.Prelude.{
  ℕ, ◌+◌, ◌*◌, String, Option, none, some, List, [], ◌∷◌, ◌++◌, Bool, true, false, ◌&&◌, leb, ltb,
  str_eq, if◌then◌else◌, any, filter, length, take,
}
use my_pi.Prelude.Outcome.{Outcome, ok, err, require, ◌>>=◌, ◌>>◌, invalid_argument, output_limit}
use my_pi.Coordination.Event.{CoordinationEvent, event_type}
use my_pi.Coordination.Store.{CoordinationDb, max_safe_integer}

pub record EventQuery : Type 0 where
  pub project_id : String
  pub after_sequence : Option ℕ
  pub from_sequence : Option ℕ
  pub to_sequence : Option ℕ
  pub limit : Option ℕ
  pub max_bytes : Option ℕ
  pub event_type_in : Option (List String)

pub record EventPage : Type 0 where
  pub events : List CoordinationEvent
  pub through_sequence : ℕ
  pub has_more : Bool

abbrev pub or_else {ℓ} : {A : Type ℓ} → A → Option A → A
or_else d none = d
or_else d (some a) = a

-- `boundedInteger`
abbrev pub bounded_integer : ℕ → ℕ → ℕ → Outcome (Unit {0})
bounded_integer value low high = require (leb low value && leb value high) invalid_argument

-- `sequenceNumber`, for a sequence that is not negative.
abbrev pub sequence_ok : Option ℕ → Outcome (Unit {0})
sequence_ok none = ok tt
sequence_ok (some n) = require (leb n max_safe_integer) invalid_argument

-- The cursor: `fromSequence` if it is given, or else `afterSequence`, or else 0.
abbrev pub cursor_ok : EventQuery → Outcome (Unit {0})
cursor_ok query = elim query.from_sequence [
  | none ↦ sequence_ok query.after_sequence
  | some n ↦ sequence_ok (some n)
]

abbrev pub types_ok : Option (List String) → Outcome (Unit {0})
types_ok none = ok tt
types_ok (some types) = require (leb 1 (length types)) invalid_argument

abbrev pub is_after : EventQuery → ℕ → Bool
is_after query n = elim query.from_sequence [
  | none ↦ ltb (or_else 0 query.after_sequence) n
  | some from ↦ leb from n
]

abbrev pub is_up_to : Option ℕ → ℕ → Bool
is_up_to none n = true
is_up_to (some to) n = leb n to

abbrev pub is_among : Option (List String) → String → Bool
is_among none t = true
is_among (some types) t = any (λ (u : String). str_eq u t) types

-- The `WHERE` of the query.
unfoldable pub matches_query : EventQuery → CoordinationEvent → Bool
matches_query query e =
    str_eq e.project_id query.project_id
    && is_after query e.sequence
    && is_up_to query.to_sequence e.sequence
    && is_among query.event_type_in (event_type e.body)

unfoldable pub insert_by_sequence :
    CoordinationEvent → List CoordinationEvent → List CoordinationEvent
insert_by_sequence e [] = e ∷ []
insert_by_sequence e (o ∷ rest) =
    let later = insert_by_sequence e rest in
    if ltb o.sequence e.sequence then o ∷ later else e ∷ o ∷ rest

-- `ORDER BY sequence ASC`
unfoldable pub by_sequence : List CoordinationEvent → List CoordinationEvent
unfolding insert_by_sequence
by_sequence [] = []
by_sequence (e ∷ es) = insert_by_sequence e (by_sequence es)

abbrev pub is_empty : List CoordinationEvent → Bool
is_empty [] = true
is_empty (e ∷ es) = false

abbrev pub last_of : ℕ → List CoordinationEvent → ℕ
last_of n [] = n
last_of n (e ∷ es) = last_of e.sequence es

-- The length of an event's JSON text in bytes is an argument.
module _ (event_bytes : CoordinationEvent → ℕ) where
  -- The loop over the rows, with the bytes and the events so far.
  unfoldable pub collect :
      ℕ → List CoordinationEvent → ℕ → List CoordinationEvent → Outcome (List CoordinationEvent)
  collect max_bytes [] bytes events = ok events
  collect max_bytes (e ∷ rest) bytes events =
      let later = collect max_bytes rest (bytes + event_bytes e) (events ++ e ∷ []) in
      if is_empty events && ltb max_bytes (event_bytes e)
      then err output_limit
      else if ltb max_bytes (bytes + event_bytes e)
      then ok events
      else later

  -- `throughSequence` without an event: `afterSequence ?? fromSequence ?? 0n`.
  abbrev pub empty_through : EventQuery → ℕ
  empty_through query = or_else (or_else 0 query.from_sequence) query.after_sequence

  abbrev pub page_of : EventQuery → List CoordinationEvent → List CoordinationEvent → EventPage
  page_of query rows events = record {
    events = events;
    through_sequence = last_of (empty_through query) events;
    has_more = ltb (length events) (length rows);
  }

  -- `listEvents`
  unfoldable pub list_events : EventQuery → CoordinationDb → Outcome EventPage
  unfolding collect by_sequence matches_query
  list_events query db = do
    let limit = or_else 100 query.limit
    let max_bytes = or_else (256 * 1024) query.max_bytes
    bounded_integer limit 1 1000
    bounded_integer max_bytes 1 (4 * 1024 * 1024)
    cursor_ok query
    sequence_ok query.to_sequence
    types_ok query.event_type_in
    let rows = take (limit + 1) (by_sequence (filter (matches_query query) db.event_log))
    events ← collect max_bytes (take limit rows) 0 []
    ok (page_of query rows events)
