-- ===== src/Graph/Trace/Complete.antt =====
-- The search discovers each node to which a walk within the bound leads, with a depth no greater
-- than the walk is long.
use mathlib.Core.List.{Memᴰ}
use my_pi.Prelude.{
  ℕ, zero, suc, ◌≤◌, ◌≡◌, refl, sym, subst, ◌∙◌, ◌⊎◌, inl, inr, String, List, [], ◌∷◌, Bool, true,
  ◌||◌, not, arith, leb, str_eq, eq_iff, Bool-cases, both, leb→le, List-cases, filter, all, All,
}
use my_pi.Prelude.Dict.{get, has, str_eq_refl}
use my_pi.Prelude.Sorting.{sort_by, all-sort_by}
use my_pi.Graph.Model.{GraphNode, GraphEdge}
use my_pi.Graph.Normalize.{edge_id, has_node}
use my_pi.Graph.Trace.{Search, adjacent, visit, turn, search, search_fuel, start}
use my_pi.Graph.Trace.Discovery.{Walk}
use my_pi.Graph.Trace.Fuel.{search-Ended}
use my_pi.Graph.Trace.Way.{depth_of}
use my_pi.Graph.Trace.Levels.{IsLevel, IsVisiting, Near, NearFirst, Ordered, Settled, arrives}
use my_pi.Graph.Trace.Visits.{Unless, found_stays, visit-IsVisited, visited-IsLevel}

all-filter :
    (p q : GraphEdge → Bool) (es : List GraphEdge)
    → all p (filter q es) ≡ all (λ (e : GraphEdge). not (q e) || p e) es
all-filter p q [] = refl
all-filter p q (e ∷ es) = ground (arith, all-filter p q es)

all_member :
    (p : GraphEdge → Bool) (e : GraphEdge) (es : List GraphEdge)
    → Memᴰ e es
    → all p es ≡ true
    → p e ≡ true
all_member p e [] member h = elim member [ ]
all_member p e (f ∷ es) (Memᴰ.head same) h = rw same (both (p f) (all p es) h).0
all_member p e (f ∷ es) (Memᴰ.tail member) h = all_member p e es member (both (p f) (all p es) h).1

module _ (edges : List GraphEdge) (from to : String) (max_depth : ℕ) where
  -- The nodes of the queue behind the first one.
  behind :
      (current : String) (rest : List String) (s : Search)
      → s.queue ≡ current ∷ rest
      → IsLevel edges from to max_depth s
      → (id : String) → has id s.depth ≡ true
      → Memᴰ id rest ⊎ ((id ≡ current) ⊎ Settled edges from to max_depth s id)
  behind current rest s queue level id h = elim (level.settled id h) [
    | inl member ↦ split (subst (λ q. Memᴰ id q) queue member)
    | inr done ↦ inr (inr done)
  ]
    where
      split : {P : Type 0} → Memᴰ id (current ∷ rest) → Memᴰ id rest ⊎ ((id ≡ current) ⊎ P)
      split (Memᴰ.head same) = inr (inl same)
      split (Memᴰ.tail member) = inl member

  Near-next :
      (s : Search) (n : ℕ) (qs : List String)
      → Near edges from to max_depth s n
      → All (λ (r : String). n ≤ depth_of s r) qs
      → NearFirst edges from to max_depth s qs
  Near-next s n [] near deep = tt
  Near-next s n (q ∷ qs) near deep = λ id h. omega (arith, near id h, deep.0)

  pop-IsLevel :
      (current : String) (rest : List String) (s : Search)
      → s.queue ≡ current ∷ rest
      → max_depth ≤ depth_of s current
      → IsLevel edges from to max_depth s
      → IsLevel edges from to max_depth (record s { queue = rest })
  pop-IsLevel current rest s queue deep level =
      let ordered = subst (Ordered edges from to max_depth s) queue level.ordered in
      let near = subst (NearFirst edges from to max_depth s) queue level.near in
      record {
        ordered = ordered.2;
        near = Near-next s (depth_of s current) rest near ordered.1;
        settled = λ id h. elim (behind current rest s queue level id h) [
          | inl member ↦ inl member
          | inr (inl same) ↦ inr (inl (rw same deep))
          | inr (inr done) ↦ inr done
        ];
        first = level.first;
      }

  pop-IsVisiting :
      (current : String) (rest : List String) (s : Search)
      → s.queue ≡ current ∷ rest
      → IsLevel edges from to max_depth s
      → IsVisiting edges from to max_depth current (depth_of s current) (record s { queue = rest })
  pop-IsVisiting current rest s queue level =
      let ordered = subst (Ordered edges from to max_depth s) queue level.ordered in
      record {
        known = ordered.0;
        at = refl;
        ordered = ordered.2;
        least = ordered.1;
        near = subst (NearFirst edges from to max_depth s) queue level.near;
        settled = behind current rest s queue level;
        first = level.first;
      }

  turn-IsLevel :
      (current : String) (rest : List String) (s : Search)
      → s.queue ≡ current ∷ rest
      → IsLevel edges from to max_depth s
      → let popped = record s { queue = rest } in
        Unless edges from to max_depth
          (turn edges to max_depth current popped)
          (IsLevel edges from to max_depth (turn edges to max_depth current popped))
  unfolding turn
  turn-IsLevel current rest s queue level =
      let popped = record s { queue = rest } in
      let d = depth_of s current in
      elim (Bool-cases (leb max_depth d)) [
        | inl deep ↦
            rw deep (inr (pop-IsLevel current rest s queue (leb→le max_depth d deep) level))
        | inr few ↦
            rw few
              (elim (visit-IsVisited edges from to max_depth current d (adjacent edges current)
                popped (pop-IsVisiting current rest s queue level)) [
                  | inl end ↦ inl end
                  | inr visited ↦ inr (
                      visited-IsLevel edges from to max_depth current d
                        (visit to current d (adjacent edges current) popped) visited)
                ])
      ]

  search-IsLevel :
      (fuel : ℕ) (s : Search)
      → IsLevel edges from to max_depth s
      → Unless edges from to max_depth
          (search fuel edges to max_depth s)
          (IsLevel edges from to max_depth (search fuel edges to max_depth s))
  unfolding search
  search-IsLevel zero s level = inr level
  search-IsLevel (suc fuel) s level = elim (Bool-cases (has to s.depth)) [
    | inl end ↦ rw (search, end) (inl end)
    | inr more ↦ elim (List-cases s.queue) [
      | inl empty ↦ rw (search, more, empty) (inr level)
      | inr (current, rest, queue) ↦
          let next = turn edges to max_depth current (record s { queue = rest }) in
          rw (search, more, queue)
            (elim (turn-IsLevel current rest s queue level) [
              | inl end ↦ inl (found_stays edges from to max_depth fuel next end)
              | inr kept ↦ search-IsLevel fuel next kept
            ])
    ]
  ]

  start-IsLevel :
      (nodes : List GraphNode)
      → has_node nodes from ≡ true
      → IsLevel edges from to max_depth (start nodes from)
  unfolding get
  start-IsLevel nodes is_node = rw is_node (record {
    ordered = (rw (str_eq_refl from) refl, tt, tt);
    near = λ id h. elim (Bool-cases (str_eq from id)) [
      | inl same ↦ rw same (omega arith)
      | inr other ↦ rw other (omega arith)
    ];
    settled = λ id h. elim (Bool-cases (str_eq from id)) [
      | inl same ↦ inl (Memᴰ.head (sym ((eq_iff from id).0 same)))
      | inr other ↦ let missing = rw other at h in cc
    ];
    first = (rw (str_eq_refl from) refl, rw (str_eq_refl from) refl);
  })

  all-adjacent :
      (p : GraphEdge → Bool) (id : String)
      → all p (adjacent edges id) ≡ true
      → (e : GraphEdge) → Memᴰ e edges
      → e.source ≡ id
      → p e ≡ true
  unfolding adjacent
  all-adjacent p id h e member same =
      let leaving =
        all_member (λ (f : GraphEdge). not (str_eq f.source id) || p f) e edges member
          (sym (all-sort_by edge_id (λ (f : GraphEdge). not (str_eq f.source id) || p f) edges)
            ∙ sym (all-filter p (λ (f : GraphEdge). str_eq f.source id) (sort_by edge_id edges))
            ∙ h) in
      rw ((eq_iff e.source id).1 same) at leaving

  reached :
      (s : Search)
      → IsLevel edges from to max_depth s
      → s.queue ≡ []
      → {id : String} {d : ℕ} → Walk edges from id d
      → d ≤ max_depth
      → (has id s.depth ≡ true) × (depth_of s id ≤ d)
  reached s level empty Walk.here few = (level.first.0, omega (arith, level.first.1))
  reached s level empty (Walk.there e member walk) few =
      let (known, short) = reached s level empty walk (omega (arith, few)) in
      elim (level.settled e.source known) [
        | inl queued ↦ elim (subst (λ q. Memᴰ e.source q) empty queued) [ ]
        | inr (inl deep) ↦ ground (arith, deep, short, few)
        | inr (inr arrived) ↦
            let arrival =
              all-adjacent (arrives edges from to max_depth s (depth_of s e.source)) e.source
                arrived e member refl in
            let (here, near) =
              both (has e.target s.depth) (leb (depth_of s e.target) (suc (depth_of s e.source)))
                arrival in
            (
              here,
              omega (arith, leb→le (depth_of s e.target) (suc (depth_of s e.source)) near, short),
            )
      ]

  -- A search from a node discovers its target if a walk within the bound leads there.
  pub search-finds :
      (nodes : List GraphNode)
      → has_node nodes from ≡ true
      → {d : ℕ} → Walk edges from to d
      → d ≤ max_depth
      → has to (search (search_fuel edges) edges to max_depth (start nodes from)).depth ≡ true
  search-finds nodes is_node walk few =
      let end = search (search_fuel edges) edges to max_depth (start nodes from) in
      elim (search-IsLevel (search_fuel edges) (start nodes from) (start-IsLevel nodes is_node)) [
        | inl found ↦ found
        | inr level ↦ elim (search-Ended edges to nodes from max_depth) [
          | inl found ↦ found
          | inr empty ↦ (reached end level empty walk few).0
        ]
      ]
