-- ===== src/Coordination/Store/Bounds.antt =====
-- A page of `listEvents` keeps to its bounds.
use my_pi.Prelude.{
  ℕ, ◌+◌, ◌*◌, ◌≤◌, ◌≡◌, refl, subst, List, [], ◌∷◌, ◌++◌, ◌&&◌, arith, leb, ltb, inl, inr,
  Bool-cases, length, length-append, sum_of, sum_of-append, filter, take, length-take,
}
use my_pi.Prelude.Outcome.{ok, after_require, >>=-eq-ok, ok-injective, invalid_argument}
use my_pi.Coordination.Event.{CoordinationEvent}
use my_pi.Coordination.Store.{CoordinationDb}
use my_pi.Coordination.Store.Events.{
  EventQuery, EventPage, or_else, matches_query, by_sequence, is_empty, collect, list_events,
  cursor_ok, sequence_ok, types_ok,
}

module _ (event_bytes : CoordinationEvent → ℕ) where
  collect-within :
      (max_bytes : ℕ) (rows : List CoordinationEvent) (bytes : ℕ)
      (events result : List CoordinationEvent)
      → bytes ≡ sum_of event_bytes events
      → bytes ≤ max_bytes
      → collect event_bytes max_bytes rows bytes events ≡ ok result
      → (sum_of event_bytes result ≤ max_bytes) × (length result ≤ length events + length rows)
  unfolding collect
  collect-within max_bytes [] bytes events result counted few h =
      let same = ok-injective _ _ h in
      subst (λ es. (sum_of event_bytes es ≤ max_bytes) × (length es ≤ length events + 0)) same
        (omega (arith, counted, few), omega arith)
  collect-within max_bytes (e ∷ rows) bytes events result counted few h =
      elim (Bool-cases (is_empty events && ltb max_bytes (event_bytes e))) [
        | inl too_large ↦ cc (rw too_large at h)
        | inr small ↦ elim (Bool-cases (ltb max_bytes (bytes + event_bytes e))) [
          | inl over ↦
              let same : events ≡ result = ok-injective _ _ (rw (small, over) at h) in
              subst
                (λ es.
                  (sum_of event_bytes es ≤ max_bytes)
                  × (length es ≤ length events + length (e ∷ rows)))
                same (omega (arith, counted, few), omega arith)
          | inr fits ↦
              let more = sum_of-append event_bytes events (e ∷ []) in
              let later =
                collect-within max_bytes rows (bytes + event_bytes e) (events ++ e ∷ []) result
                  (omega (arith, counted, more)) (ground (arith, fits)) (rw (small, fits) at h) in
              (later.0, omega (arith, later.1, length-append events (e ∷ [])))
        ]
      ]

  -- The events of a page have no more bytes in all than the bound that is given, or 256 KB, and are
  -- no more than the limit that is given, or 100.
  pub list_events-within :
      (query : EventQuery) (db : CoordinationDb) (page : EventPage)
      → list_events event_bytes query db ≡ ok page
      → (sum_of event_bytes page.events ≤ or_else (256 * 1024) query.max_bytes)
        × (length page.events ≤ or_else 100 query.limit)
  unfolding list_events
  list_events-within query db page h =
      let count = or_else 100 query.limit in
      let size = or_else (256 * 1024) query.max_bytes in
      let (count_ok, h₁) = after_require (leb 1 count && leb count 1000) invalid_argument _ h in
      let (size_ok, h₂) =
        after_require (leb 1 size && leb size (4 * 1024 * 1024)) invalid_argument _ h₁ in
      let (_, _, h₃) = >>=-eq-ok (cursor_ok query) _ h₂ in
      let (_, _, h₄) = >>=-eq-ok (sequence_ok query.to_sequence) _ h₃ in
      let (_, _, h₅) = >>=-eq-ok (types_ok query.event_type_in) _ h₄ in
      let rows = take (count + 1) (by_sequence (filter (matches_query query) db.event_log)) in
      let (events, got, same) = >>=-eq-ok (collect event_bytes size (take count rows) 0 []) _ h₅ in
      let within = collect-within size (take count rows) 0 [] events refl (omega arith) got in
      subst (λ (p : EventPage). (sum_of event_bytes p.events ≤ size) × (length p.events ≤ count))
        (ok-injective _ _ same) (within.0, omega (arith, within.1, length-take count rows))
