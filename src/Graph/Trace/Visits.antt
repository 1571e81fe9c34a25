-- ===== src/Graph/Trace/Visits.antt =====
-- A node that has been gone through is settled: each of its edges leads one step deeper at most.
use my_pi.Prelude.{
  ℕ, zero, suc, ◌≤◌, ◌≡◌, refl, subst, ◌⊎◌, inl, inr, String, List, [], ◌∷◌, true, false, arith,
  leb, str_eq, eq_iff, Bool-cases, all, All,
}
use my_pi.Prelude.Dict.{has}
use my_pi.Graph.Model.{GraphEdge}
use my_pi.Graph.Trace.{Search, adjacent, discover, visit, search}
use my_pi.Graph.Trace.Way.{depth_of, has_mono}
use my_pi.Graph.Trace.Levels.{
  IsLevel, IsVisiting, NearFirst, arrives, discover-IsVisiting, new_known,
}

le_leb : (a b : ℕ) → a ≤ b → leb a b ≡ true
le_leb a b h = ground arith

module _ (edges : List GraphEdge) (from to : String) (max_depth : ℕ) where
  pub visit-has :
      (current : String) (d : ℕ) (es : List GraphEdge) (s : Search) (id : String)
      → has id s.depth ≡ true
      → has id (visit to current d es s).depth ≡ true
  unfolding visit discover
  visit-has current d [] s id h = h
  visit-has current d (e ∷ es) s id h = elim (Bool-cases (has e.target s.depth)) [
    | inl old ↦ rw (visit, old) (visit-has current d es s id h)
    | inr new ↦
        let kept = has_mono id e.target (suc d) s.depth h in
        elim (Bool-cases (str_eq e.target to)) [
          | inl end ↦ rw (visit, new, end) kept
          | inr more ↦
              rw (visit, new, more) (visit-has current d es (discover current d e s) id kept)
        ]
  ]

  -- The target is discovered, or this holds.
  abbrev pub Unless : Search → Type 0 → Type 0
  Unless s P = (has to s.depth ≡ true) ⊎ P

  -- All these edges arrive, one step deeper at most.
  abbrev pub IsVisited : String → ℕ → List GraphEdge → Search → Type 0
  IsVisited current d es s =
      IsVisiting edges from to max_depth current d s
      × (all (arrives edges from to max_depth s d) es ≡ true)

  pub IsVisited-one :
      (current : String) (d : ℕ) (e : GraphEdge) (es : List GraphEdge) (s : Search)
      → has e.target s.depth ≡ true
      → Unless (visit to current d es s) (IsVisited current d es (visit to current d es s))
      → Unless (visit to current d es s) (IsVisited current d (e ∷ es) (visit to current d es s))
  IsVisited-one current d e es s known (inl end) = inl end
  IsVisited-one current d e es s known (inr (v, arrived)) =
      let here = visit-has current d es s e.target known in
      inr (
        v,
        rw
            (
              here,
              le_leb (depth_of (visit to current d es s) e.target) (suc d) (v.near e.target here),
              arrived,
            )
            refl,
      )

  pub found_stays :
      (fuel : ℕ) (s : Search)
      → has to s.depth ≡ true
      → has to (search fuel edges to max_depth s).depth ≡ true
  unfolding search
  found_stays zero s end = end
  found_stays (suc fuel) s end = rw (search, end) end

  pub visit_old :
      (current : String) (d : ℕ) (e : GraphEdge) (es : List GraphEdge) (s : Search)
      → has e.target s.depth ≡ true
      → visit to current d es s ≡ visit to current d (e ∷ es) s
  unfolding visit
  visit_old current d e es s old = rw (visit, old) refl

  pub visit_new :
      (current : String) (d : ℕ) (e : GraphEdge) (es : List GraphEdge) (s : Search)
      → has e.target s.depth ≡ false
      → str_eq e.target to ≡ false
      → visit to current d es (discover current d e s) ≡ visit to current d (e ∷ es) s
  unfolding visit
  visit_new current d e es s new more = rw (visit, new, more) refl

  pub visit-IsVisited :
      (current : String) (d : ℕ) (es : List GraphEdge) (s : Search)
      → IsVisiting edges from to max_depth current d s
      → Unless (visit to current d es s) (IsVisited current d es (visit to current d es s))
  unfolding visit
  visit-IsVisited current d [] s v = inr (v, refl)
  visit-IsVisited current d (e ∷ es) s v = elim (Bool-cases (has e.target s.depth)) [
    | inl old ↦
        subst (λ (r : Search). Unless r (IsVisited current d (e ∷ es) r))
          (visit_old current d e es s old)
          (IsVisited-one current d e es s old (visit-IsVisited current d es s v))
    | inr new ↦
        let next = discover current d e s in
        let here = new_known edges from to max_depth current d e s in
        elim (Bool-cases (str_eq e.target to)) [
          | inl end ↦ inl (
              rw (visit, new, end)
                (subst (λ id. has id next.depth ≡ true) ((eq_iff e.target to).0 end) here))
          | inr more ↦
              subst (λ (r : Search). Unless r (IsVisited current d (e ∷ es) r))
                (visit_new current d e es s new more)
                (IsVisited-one current d e es next here (
                  visit-IsVisited current d es next
                    (discover-IsVisiting edges from to max_depth current d e s new v)))
        ]
  ]

  pub visited-IsLevel :
      (current : String) (d : ℕ) (s : Search)
      → IsVisited current d (adjacent edges current) s
      → IsLevel edges from to max_depth s
  visited-IsLevel current d s (v, arrived) = record {
    ordered = v.ordered;
    near = near_first s.queue v.least;
    settled = λ id h. elim (v.settled id h) [
      | inl member ↦ inl member
      | inr (inl same) ↦ inr (inr (rw (same, v.at) arrived))
      | inr (inr done) ↦ inr done
    ];
    first = v.first;
  }
    where
      near_first :
          (q : List String)
          → All (λ (r : String). d ≤ depth_of s r) q
          → NearFirst edges from to max_depth s q
      near_first [] least = tt
      near_first (r ∷ rs) least = λ id h. omega (arith, v.near id h, least.0)
