-- ===== src/Coordination/Store/Numbering.antt =====
-- The events of a project after a number, in a log that is numbered as the store numbers it.
use my_pi.Prelude.{
  ℕ, suc, ◌+◌, ◌≤◌, ◌≡◌, refl, ap, ◌∙◌, subst, String, Option, none, List, [], ◌∷◌, ◌++◌, true,
  false, ◌&&◌, arith, ltb, str_eq, inl, inr, filter, length, Bool-cases,
}
use my_pi.Coordination.Event.{CoordinationEvent}
use my_pi.Coordination.Store.Sequences.{IsNumbered}
use my_pi.Coordination.Store.Events.{
  EventQuery, or_else, matches_query, insert_by_sequence, by_sequence, last_of,
}

-- The events of a project after a number, in the order of the log.
abbrev pub events_after : String → ℕ → List CoordinationEvent → List CoordinationEvent
events_after p n log = filter (λ e. str_eq e.project_id p && ltb n e.sequence) log

-- A query for the events of a project after a number, and nothing else.
abbrev pub query_after : String → Option ℕ → Option ℕ → Option ℕ → EventQuery
query_after p after limit max_bytes = record {
  project_id = p;
  after_sequence = after;
  from_sequence = none;
  to_sequence = none;
  limit = limit;
  max_bytes = max_bytes;
  event_type_in = none;
}

-- Events numbered n + 1, n + 2, …
abbrev pub IsRun : ℕ → List CoordinationEvent → Type 0
IsRun n [] = Unit
IsRun n (e ∷ es) = (e.sequence ≡ suc n) × IsRun (suc n) es

pub filter-query :
    (p : String) (after limit max_bytes : Option ℕ) (log : List CoordinationEvent)
    → filter (matches_query (query_after p after limit max_bytes)) log
      ≡ events_after p (or_else 0 after) log
unfolding matches_query
filter-query p after limit max_bytes [] = refl
filter-query p after limit max_bytes (e ∷ es) =
    ground (arith, filter-query p after limit max_bytes es)

-- Of the events numbered from n + 1 on, those after m are numbered from the larger of the two on.
events_after-IsRun :
    (p : String) (m n : ℕ) (log : List CoordinationEvent)
    → m ≤ n
    → IsNumbered p n log
    → IsRun n (events_after p m log)
events_after-IsRun p m n [] h numbered = tt
events_after-IsRun p m n (e ∷ es) h numbered = elim (Bool-cases (str_eq e.project_id p)) [
  | inl mine ↦
      let numbered' : (e.sequence ≡ suc n) × IsNumbered p (suc n) es = rw mine at numbered in
      let later : ltb m e.sequence ≡ true = rw numbered'.0 (ground arith) in
      rw (mine, later) (numbered'.0, events_after-IsRun p m (suc n) es (omega arith) numbered'.1)
  | inr other ↦
      let numbered' : IsNumbered p n es = rw other at numbered in
      rw other (events_after-IsRun p m n es h numbered')
]

pub skipped-IsRun :
    (p : String) (m n : ℕ) (log : List CoordinationEvent)
    → n ≤ m
    → IsNumbered p n log
    → IsRun m (events_after p m log)
skipped-IsRun p m n [] h numbered = tt
skipped-IsRun p m n (e ∷ es) h numbered = elim (Bool-cases (str_eq e.project_id p)) [
  | inl mine ↦
      let numbered' : (e.sequence ≡ suc n) × IsNumbered p (suc n) es = rw mine at numbered in
      elim (Bool-cases (ltb m e.sequence)) [
        | inl later ↦
            let same : n ≡ m = ground (arith, h, later, numbered'.0) in
            subst (λ k. IsRun k (events_after p m (e ∷ es))) same
              (events_after-IsRun p m n (e ∷ es) (omega (arith, same)) numbered)
        | inr earlier ↦
            rw (mine, earlier)
              (skipped-IsRun p m (suc n) es (ground (arith, earlier, numbered'.0)) numbered'.1)
      ]
  | inr other ↦
      let numbered' : IsNumbered p n es = rw other at numbered in
      rw other (skipped-IsRun p m n es h numbered')
]

pub by_sequence-IsRun : (n : ℕ) (es : List CoordinationEvent) → IsRun n es → by_sequence es ≡ es
unfolding by_sequence insert_by_sequence
by_sequence-IsRun n [] h = refl
by_sequence-IsRun n (e ∷ es) h =
    ap (insert_by_sequence e) (by_sequence-IsRun (suc n) es h.1) ∙ in_place es h.1
  where
    in_place : (os : List CoordinationEvent) → IsRun (suc n) os → insert_by_sequence e os ≡ e ∷ os
    in_place [] h' = refl
    in_place (o ∷ os) h' =
        let later : ltb o.sequence e.sequence ≡ false = rw (h'.0, h.0) (ground arith) in
        rw later refl

pub last_of-IsRun :
    (n : ℕ) (es : List CoordinationEvent) → IsRun n es → last_of n es ≡ n + length es
last_of-IsRun n [] h = omega arith
last_of-IsRun n (e ∷ es) h = rw h.0 (last_of-IsRun (suc n) es h.1 ∙ omega arith)

pub IsRun-append : (n : ℕ) (xs ys : List CoordinationEvent) → IsRun n (xs ++ ys) → IsRun n xs
IsRun-append n [] ys h = tt
IsRun-append n (x ∷ xs) ys h = (h.0, IsRun-append (suc n) xs ys h.1)
