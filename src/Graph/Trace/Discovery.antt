-- ===== src/Graph/Trace/Discovery.antt =====
-- Each node that the search has discovered is reached by a walk over edges of the snapshot, as long
-- as its depth says, and no longer than the bound.
use mathlib.Core.List.{Memᴰ}
use my_pi.Prelude.{
  ℕ, zero, suc, ◌≤◌, ◌≡◌, refl, sym, subst, inl, inr, String, List, [], ◌∷◌, ◌++◌, true, arith, leb,
  str_eq, eq_iff, Bool-cases, List-cases, filter, All, All-map,
}
use my_pi.Prelude.Sorting.{sort_by, All-sort_by}
use my_pi.Prelude.Dict.{get, has, str_eq_refl}
use my_pi.Graph.Model.{GraphNode, GraphEdge}
use my_pi.Graph.Normalize.{or_default, edge_id, has_node}
use my_pi.Graph.Trace.{Search, adjacent, discover, visit, turn, search, start}

-- A walk of so many of the edges, to a node.
pub data Walk (edges : List GraphEdge) (from : String) : String → ℕ → Type 0 where
  here : Walk edges from from 0
  there :
      {d : ℕ} (e : GraphEdge)
      → Memᴰ e edges
      → Walk edges from e.source d
      → Walk edges from e.target (suc d)

pub All-members {ℓ} : {A : Type ℓ} (xs : List A) → All (λ (x : A). Memᴰ x xs) xs
All-members [] = tt
All-members (x ∷ xs) = (
  Memᴰ.head refl,
  All-map (λ y. Memᴰ y xs) (λ y. Memᴰ y (x ∷ xs)) xs (λ y h. Memᴰ.tail h) (All-members xs),
)

-- An edge of the list that leaves the node.
abbrev pub Leaves : List GraphEdge → String → GraphEdge → Type 0
Leaves edges id e = Memᴰ e edges × (e.source ≡ id)

keep_leaving :
    (edges : List GraphEdge) (id : String) (es : List GraphEdge)
    → All (λ e. Memᴰ e edges) es
    → All (Leaves edges id) (filter (λ (e : GraphEdge). str_eq e.source id) es)
keep_leaving edges id [] members = tt
keep_leaving edges id (e ∷ es) members = elim (Bool-cases (str_eq e.source id)) [
  | inl same ↦
      rw same ((members.0, (eq_iff e.source id).0 same), keep_leaving edges id es members.1)
  | inr other ↦ rw other (keep_leaving edges id es members.1)
]

pub adjacent-Leaves :
    (edges : List GraphEdge) (id : String) → All (Leaves edges id) (adjacent edges id)
unfolding adjacent
adjacent-Leaves edges id =
    keep_leaving edges id (sort_by edge_id edges)
      (All-sort_by (λ e. Memᴰ e edges) edge_id edges (All-members edges))

-- A map's value under a key that it has satisfies what all its entries do.
pub get_All {ℓ} :
    (P : String → ℕ → Type ℓ) (key : String) (m : List (String × ℕ))
    → All (λ (entry : String × ℕ). P entry.0 entry.1) m
    → has key m ≡ true
    → P key (or_default 0 (get key m))
unfolding get
get_All P key [] all_p h = cc
get_All P key ((k, d) ∷ m) all_p h = elim (Bool-cases (str_eq k key)) [
  | inl same ↦ rw same (subst (λ id. P id d) ((eq_iff k key).0 same) all_p.0)
  | inr other ↦ rw other (get_All P key m all_p.1 (ground (arith, h, other)))
]

module _ (edges : List GraphEdge) (from : String) (max_depth : ℕ) where
  abbrev pub Reached : String → ℕ → Type 0
  Reached id d = Walk edges from id d × (d ≤ max_depth)

  -- What the loops keep: the nodes of `depth` are reached, and those of the queue are among them.
  pub record IsSound (s : Search) : Type 0 where
    pub reached : All (λ (entry : String × ℕ). Reached entry.0 entry.1) s.depth
    pub known : All (λ (id : String). has id s.depth ≡ true) s.queue

  known-discover :
      (key : String) (d : ℕ) (m : List (String × ℕ)) (ids : List String)
      → All (λ (id : String). has id m ≡ true) ids
      → All (λ (id : String). has id ((key, d) ∷ m) ≡ true) (ids ++ key ∷ [])
  unfolding get
  known-discover key d m [] known = (rw (str_eq_refl key) refl, tt)
  known-discover key d m (id ∷ ids) known =
      (ground (arith, known.0), known-discover key d m ids known.1)

  discover-IsSound :
      (current : String) (d : ℕ) (e : GraphEdge) (s : Search)
      → Walk edges from current d
      → suc d ≤ max_depth
      → Leaves edges current e
      → IsSound s
      → IsSound (discover current d e s)
  unfolding discover
  discover-IsSound current d e s walk few leaves sound = record {
    reached = (
      (Walk.there e leaves.0 (subst (λ id. Walk edges from id d) (sym leaves.1) walk), few),
      sound.reached,
    );
    known = known-discover e.target (suc d) s.depth s.queue sound.known;
  }

  visit-IsSound :
      (to current : String) (d : ℕ) (es : List GraphEdge) (s : Search)
      → Walk edges from current d
      → suc d ≤ max_depth
      → All (Leaves edges current) es
      → IsSound s
      → IsSound (visit to current d es s)
  unfolding visit
  visit-IsSound to current d [] s walk few leaves sound = sound
  visit-IsSound to current d (e ∷ es) s walk few leaves sound =
      let next = discover-IsSound current d e s walk few leaves.0 sound in
      elim (Bool-cases (has e.target s.depth)) [
        | inl old ↦ rw (visit, old) (visit-IsSound to current d es s walk few leaves.1 sound)
        | inr new ↦ elim (Bool-cases (str_eq e.target to)) [
          | inl end ↦ rw (visit, new, end) next
          | inr more ↦
              rw (visit, new, more)
                (visit-IsSound to current d es (discover current d e s) walk few leaves.1 next)
        ]
      ]

  -- What the first of the queue, and the search without it, satisfy.
  pub pop-IsSound :
      (s : Search) (current : String) (rest : List String)
      → s.queue ≡ current ∷ rest
      → IsSound s
      → (has current s.depth ≡ true) × IsSound (record s { queue = rest })
  pop-IsSound s current rest queue sound =
      let known = subst (λ q. All (λ (id : String). has id s.depth ≡ true) q) queue sound.known in
      (known.0, record { reached = sound.reached; known = known.1 })

  pub turn-IsSound :
      (to current : String) (s : Search)
      → has current s.depth ≡ true
      → IsSound s
      → IsSound (turn edges to max_depth current s)
  unfolding turn
  turn-IsSound to current s known sound =
      let reached = get_All Reached current s.depth sound.reached known in
      let d = or_default 0 (get current s.depth) in
      elim (Bool-cases (leb max_depth d)) [
        | inl deep ↦ rw deep sound
        | inr few ↦ rw few (
            visit-IsSound to current d (adjacent edges current) s reached.0 (ground arith)
              (adjacent-Leaves edges current) sound)
      ]

  pub search-IsSound :
      (fuel : ℕ) (to : String) (s : Search) → IsSound s → IsSound (search fuel edges to max_depth s)
  unfolding search
  search-IsSound zero to s sound = sound
  search-IsSound (suc fuel) to s sound = elim (Bool-cases (has to s.depth)) [
    | inl end ↦ rw (search, end) sound
    | inr more ↦ elim (List-cases s.queue) [
      | inl empty ↦ rw (search, more, empty) sound
      | inr (current, rest, queue) ↦
          let popped = record s { queue = rest } in
          let (known, popped_sound) = pop-IsSound s current rest queue sound in
          rw (search, more, queue)
            (search-IsSound fuel to (turn edges to max_depth current popped)
              (turn-IsSound to current popped known popped_sound))
    ]
  ]

  pub start-IsSound : (nodes : List GraphNode) → IsSound (start nodes from)
  unfolding get
  start-IsSound nodes = elim (Bool-cases (has_node nodes from)) [
    | inl first ↦ rw first (record {
      reached = ((Walk.here, ground arith), tt);
      known = (rw (str_eq_refl from) refl, tt);
    })
    | inr missing ↦ rw missing (record { reached = tt; known = tt })
  ]
