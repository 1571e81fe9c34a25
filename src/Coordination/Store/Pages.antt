-- ===== src/Coordination/Store/Pages.antt =====
-- What a page of `listEvents` holds, in a log that is numbered as the store numbers it.
use my_pi.Prelude.{
  ℕ, zero, suc, ◌+◌, ◌*◌, ◌≤◌, ◌≡◌, refl, ap, sym, ◌∙◌, subst, String, Option, List, [], ◌∷◌, ◌++◌,
  true, false, ◌&&◌, not, arith, leb, ltb, inl, inr, filter, length, length-append, take, drop,
  take-append-drop, length-take, Bool-cases,
}
use Prim.Native.Nat.{min}
use mathlib.Core.List.{append-nil, append_assoc}
use my_pi.Prelude.Outcome.{ok, after_require, >>=-eq-ok, ok-injective, invalid_argument}
use my_pi.Coordination.Event.{CoordinationEvent}
use my_pi.Coordination.Store.{CoordinationDb}
use my_pi.Coordination.Store.Sequences.{IsLog}
use my_pi.Coordination.Store.Events.{
  EventQuery, EventPage, or_else, matches_query, by_sequence, is_empty, last_of, collect, page_of,
  list_events, cursor_ok,
}
use my_pi.Coordination.Store.Numbering.{
  events_after, query_after, IsRun, filter-query, skipped-IsRun, by_sequence-IsRun, last_of-IsRun,
  IsRun-append,
}

take-take : (n : ℕ) (xs : List CoordinationEvent) → take n (take (suc n) xs) ≡ take n xs
take-take zero xs = refl
take-take (suc n) [] = refl
take-take (suc n) (x ∷ xs) = ap (λ ys. x ∷ ys) (take-take n xs)

-- The loop keeps the first of the rows, and one at least if it has none yet.
record IsCollected (rows events result : List CoordinationEvent) : Type 0 where
  done : List CoordinationEvent
  rest : List CoordinationEvent
  split : rows ≡ done ++ rest
  kept : result ≡ events ++ done
  some_kept : (is_empty result && not (is_empty rows)) ≡ false

is_empty-cons :
    (xs ys : List CoordinationEvent) (e : CoordinationEvent) → is_empty (xs ++ e ∷ ys) ≡ false
is_empty-cons [] ys e = refl
is_empty-cons (x ∷ xs) ys e = refl

module _ (event_bytes : CoordinationEvent → ℕ) (max_bytes : ℕ) where
  collect-IsCollected :
      (rows : List CoordinationEvent) (bytes : ℕ) (events result : List CoordinationEvent)
      → (is_empty events ≡ true → bytes ≡ 0)
      → collect event_bytes max_bytes rows bytes events ≡ ok result
      → IsCollected rows events result
  unfolding collect
  collect-IsCollected [] bytes events result start h = record {
    done = [];
    rest = [];
    split = refl;
    kept = sym (ok-injective _ _ h) ∙ sym (append-nil events);
    some_kept = ground arith;
  }
  collect-IsCollected (e ∷ rows) bytes events result start h =
      elim (Bool-cases (is_empty events && ltb max_bytes (event_bytes e))) [
        | inl too_large ↦ cc (rw too_large at h)
        | inr small ↦ elim (Bool-cases (ltb max_bytes (bytes + event_bytes e))) [
          | inl over ↦
              let same : events ≡ result = ok-injective _ _ (rw (small, over) at h) in
              record {
                done = [];
                rest = e ∷ rows;
                split = refl;
                kept = sym same ∙ sym (append-nil events);
                some_kept =
                    subst (λ es. (is_empty es && true) ≡ false) same
                      (elim (Bool-cases (is_empty events)) [
                        | inl none_yet ↦
                            absurd (ground (arith, small, over, none_yet, start none_yet))
                        | inr some_there ↦ rw some_there refl
                      ]);
              }
          | inr fits ↦
              let h' : collect event_bytes max_bytes rows (bytes + event_bytes e) (events ++ e ∷ [])
                  ≡ ok result =
                rw (small, fits) at h in
              let d =
                collect-IsCollected rows (bytes + event_bytes e) (events ++ e ∷ []) result
                  (λ none_yet. cc (none_yet, is_empty-cons events [] e)) h' in
              record {
                done = e ∷ d.done;
                rest = d.rest;
                split = ap (λ es. e ∷ es) d.split;
                kept = d.kept ∙ append_assoc events (e ∷ []) d.done;
                some_kept =
                    ap (λ b. b && true)
                      (ap is_empty (d.kept ∙ append_assoc events (e ∷ []) d.done)
                        ∙ is_empty-cons events d.done e);
              }
        ]
      ]

-- What a page is of the events that it was asked for: the first of them, the number of the last,
-- and whether there are others.
pub record IsPage (n : ℕ) (all : List CoordinationEvent) (page : EventPage) : Type 0 where
  pub rest : List CoordinationEvent
  pub split : all ≡ page.events ++ rest
  pub numbered : IsRun n page.events
  pub through : page.through_sequence ≡ n + length page.events
  pub more : page.has_more ≡ not (is_empty rest)
  pub progress : is_empty page.events ≡ is_empty all

is_empty-count :
    (done rest : List CoordinationEvent) (all limit : ℕ)
    → all ≡ length (done ++ rest)
    → length done ≤ limit
    → ltb (length done) (min (suc limit) all) ≡ not (is_empty rest)
is_empty-count done [] all limit h k = ground (arith, h, k, length-append done [])
is_empty-count done (r ∷ rest) all limit h k = ground (arith, h, k, length-append done (r ∷ rest))

asked_for :
    (limit : ℕ) (all events rest : List CoordinationEvent)
    → 1 ≤ limit
    → (is_empty events && not (is_empty (take limit all))) ≡ false
    → all ≡ events ++ rest
    → is_empty events ≡ is_empty all
asked_for limit [] [] rest h k e = refl
asked_for limit [] (y ∷ ys) rest h k e = cc
asked_for zero (x ∷ xs) events rest h k e = absurd (omega arith)
asked_for (suc limit) (x ∷ xs) [] rest h k e = cc
asked_for (suc limit) (x ∷ xs) (y ∷ ys) rest h k e = refl

module _ (event_bytes : CoordinationEvent → ℕ) where
  page_of-IsPage :
      (query : EventQuery) (n limit max_bytes : ℕ) (all events : List CoordinationEvent)
      → n ≡ or_else (or_else 0 query.from_sequence) query.after_sequence
      → IsRun n all
      → 1 ≤ limit
      → collect event_bytes max_bytes (take limit all) 0 [] ≡ ok events
      → IsPage n all (page_of event_bytes query (take (suc limit) all) events)
  page_of-IsPage query n limit max_bytes all events start run some_asked h =
      let d =
        collect-IsCollected event_bytes max_bytes (take limit all) 0 [] events (λ e. refl) h in
      let rest = d.rest ++ drop limit all in
      let split : all ≡ events ++ rest =
        sym (take-append-drop limit all)
        ∙ ap (λ es. es ++ drop limit all) d.split
        ∙ append_assoc d.done d.rest (drop limit all)
        ∙ ap (λ es. es ++ rest) (sym d.kept) in
      let run' : IsRun n events = IsRun-append n events rest (subst (IsRun n) split run) in
      record {
        rest = rest;
        split = split;
        numbered = run';
        through = ap (λ m. last_of m events) (sym start) ∙ last_of-IsRun n events run';
        more =
            ap (ltb (length events)) (length-take (suc limit) all)
            ∙ is_empty-count events rest (length all) limit (ap length split) (
                omega (
                  arith,
                  ap length d.split,
                  ap length d.kept,
                  length-append d.done d.rest,
                  length-take limit all,
                ));
        progress = asked_for limit all events rest some_asked d.some_kept split;
      }

  -- A query that returns, for the events of a project after a number, in a log that is numbered:
  -- the page is the first of them in the order of the log, numbered without a gap; the sequence that
  -- it ends with is that of the last one, or the number itself; there are more exactly when the log
  -- has more; and a page is empty only when the log has no such event.
  pub list_events-IsPage :
      (p : String) (after limit max_bytes : Option ℕ) (db : CoordinationDb) (page : EventPage)
      → IsLog db.event_log
      → list_events event_bytes (query_after p after limit max_bytes) db ≡ ok page
      → IsPage (or_else 0 after) (events_after p (or_else 0 after) db.event_log) page
  unfolding list_events
  list_events-IsPage p after limit max_bytes db page log h =
      let query = query_after p after limit max_bytes in
      let n = or_else 0 after in
      let count = or_else 100 limit in
      let size = or_else (256 * 1024) max_bytes in
      let all = events_after p n db.event_log in
      let run : IsRun n all = skipped-IsRun p n 0 db.event_log (omega arith) (log.numbered p) in
      let one_more : count + 1 ≡ suc count = omega arith in
      let (count_ok, h₁) = after_require (leb 1 count && leb count 1000) invalid_argument _ h in
      let (size_ok, h₂) =
        after_require (leb 1 size && leb size (4 * 1024 * 1024)) invalid_argument _ h₁ in
      let (_, _, h₃) = >>=-eq-ok (cursor_ok query) _ h₂ in
      let (events, got, same) = >>=-eq-ok (collect event_bytes size _ 0 []) _ h₃ in
      let rows : take (count + 1) (by_sequence (filter (matches_query query) db.event_log))
          ≡ take (suc count) all =
        ap (λ k. take k (by_sequence (filter (matches_query query) db.event_log))) one_more
        ∙ ap (take (suc count)) (
            ap by_sequence (filter-query p after limit max_bytes db.event_log)
            ∙ by_sequence-IsRun n all run) in
      subst (IsPage n all)
        (sym (ap (λ rs. page_of event_bytes query rs events) rows) ∙ ok-injective _ _ same)
        (page_of-IsPage query n count size all events refl run (ground (arith, count_ok)) (
          sym (
            ap (λ es. collect event_bytes size es 0 [])
              (ap (take count) rows ∙ take-take count all))
          ∙ got))
