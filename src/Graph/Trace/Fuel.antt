-- ===== src/Graph/Trace/Fuel.antt =====
-- The fuel of the search is enough: when it stops, the condition of its loop is false.
use mathlib.Core.List.{Memᴰ}
use my_pi.Prelude.{
  ℕ, zero, suc, ◌+◌, ◌≤◌, ◌<◌, ◌≡◌, subst, ◌⊎◌, inl, inr, String, List, [], ◌∷◌, true, false, not,
  arith, leb, str_eq, Bool-cases, List-cases, length, length-append, filter, All,
}
use my_pi.Prelude.Dict.{get, has, str_eq_refl}
use my_pi.Graph.Model.{GraphNode, GraphEdge}
use my_pi.Graph.Normalize.{or_default, has_node}
use my_pi.Graph.Trace.{Search, adjacent, discover, visit, turn, search, search_fuel, start}
use my_pi.Graph.Trace.Discovery.{Leaves, adjacent-Leaves}

-- How many of the edges end at a node not yet discovered.
unfoldable undiscovered : List (String × ℕ) → List GraphEdge → ℕ
unfolding get
undiscovered m es = length (filter (λ (e : GraphEdge). not (has e.target m)) es)

undiscovered_mono :
    (key : String) (d : ℕ) (m : List (String × ℕ)) (es : List GraphEdge)
    → undiscovered ((key, d) ∷ m) es ≤ undiscovered m es
unfolding undiscovered get
undiscovered_mono key d m [] = omega arith
undiscovered_mono key d m (e ∷ es) = ground (arith, undiscovered_mono key d m es)

undiscovered_drop :
    (e : GraphEdge) (d : ℕ) (m : List (String × ℕ)) (es : List GraphEdge)
    → Memᴰ e es
    → has e.target m ≡ false
    → suc (undiscovered ((e.target, d) ∷ m) es) ≤ undiscovered m es
unfolding undiscovered get
undiscovered_drop e d m [] member new = elim member [ ]
undiscovered_drop e d m (f ∷ es) (Memᴰ.head same) new =
    subst
      (λ (g : GraphEdge). suc (undiscovered ((e.target, d) ∷ m) (g ∷ es)) ≤ undiscovered m (g ∷ es))
      same (rw (new, str_eq_refl e.target) (ground (arith, undiscovered_mono e.target d m es)))
undiscovered_drop e d m (f ∷ es) (Memᴰ.tail member) new =
    ground (arith, undiscovered_drop e d m es member new)

undiscovered_few : (m : List (String × ℕ)) (es : List GraphEdge) → undiscovered m es ≤ length es
unfolding undiscovered
undiscovered_few m [] = omega arith
undiscovered_few m (e ∷ es) = ground (arith, undiscovered_few m es)

-- The turns that the loop over the queue can still take.
unfoldable measure : List GraphEdge → Search → ℕ
unfolding undiscovered
measure edges s = length s.queue + undiscovered s.depth edges

module _ (edges : List GraphEdge) (to : String) where
  discover-measure :
      (current : String) (d : ℕ) (e : GraphEdge) (s : Search)
      → Memᴰ e edges
      → has e.target s.depth ≡ false
      → measure edges (discover current d e s) ≤ measure edges s
  unfolding measure discover
  discover-measure current d e s member new = omega (
    arith,
    undiscovered_drop e (suc d) s.depth edges member new,
    length-append s.queue (e.target ∷ []),
  )

  visit-measure :
      (current : String) (d : ℕ) (es : List GraphEdge) (s : Search)
      → All (Leaves edges current) es
      → measure edges (visit to current d es s) ≤ measure edges s
  unfolding visit
  visit-measure current d [] s leaves = omega arith
  visit-measure current d (e ∷ es) s leaves = elim (Bool-cases (has e.target s.depth)) [
    | inl old ↦ rw (visit, old) (visit-measure current d es s leaves.1)
    | inr new ↦
        let less = discover-measure current d e s leaves.0.0 new in
        elim (Bool-cases (str_eq e.target to)) [
          | inl end ↦ rw (visit, new, end) less
          | inr more ↦
              rw (visit, new, more)
                (omega (arith, less, visit-measure current d es (discover current d e s) leaves.1))
        ]
  ]

  turn-measure :
      (max_depth : ℕ) (current : String) (s : Search)
      → measure edges (turn edges to max_depth current s) ≤ measure edges s
  unfolding turn
  turn-measure max_depth current s =
      let d = or_default 0 (get current s.depth) in
      elim (Bool-cases (leb max_depth d)) [
        | inl deep ↦ rw deep (omega arith)
        | inr few ↦
            rw few
              (visit-measure current d (adjacent edges current) s (adjacent-Leaves edges current))
      ]

  -- The condition of the loop over the queue is false.
  abbrev pub Ended : Search → Type 0
  Ended s = (has to s.depth ≡ true) ⊎ (s.queue ≡ [])

  measure_next :
      (s : Search) (current : String) (rest : List String)
      → s.queue ≡ current ∷ rest
      → measure edges s ≡ suc (measure edges (record s { queue = rest }))
  unfolding measure
  measure_next s current rest queue = rw queue (omega arith)

  search-Ended_from :
      (max_depth fuel : ℕ) (s : Search)
      → measure edges s < fuel
      → Ended (search fuel edges to max_depth s)
  unfolding search
  search-Ended_from max_depth zero s less = ground arith
  search-Ended_from max_depth (suc fuel) s less = elim (Bool-cases (has to s.depth)) [
    | inl end ↦ rw (search, end) (inl end)
    | inr more ↦ elim (List-cases s.queue) [
      | inl empty ↦ rw (search, more, empty) (inr empty)
      | inr (current, rest, queue) ↦
          rw (search, more, queue)
            (search-Ended_from max_depth fuel
              (turn edges to max_depth current (record s { queue = rest }))
              (omega (
                arith,
                turn-measure max_depth current (record s { queue = rest }),
                measure_next s current rest queue,
                less,
              )))
    ]
  ]

  start-measure :
      (nodes : List GraphNode) (from : String)
      → measure edges (start nodes from) ≤ suc (length edges)
  unfolding measure
  start-measure nodes from = elim (Bool-cases (has_node nodes from)) [
    | inl first ↦ rw first (omega (arith, undiscovered_few ((from, 0) ∷ []) edges))
    | inr missing ↦ rw missing (omega (arith, undiscovered_few [] edges))
  ]

  -- The search from a node stops with its target discovered or with its queue empty.
  pub search-Ended :
      (nodes : List GraphNode) (from : String) (max_depth : ℕ)
      → Ended (search (search_fuel edges) edges to max_depth (start nodes from))
  search-Ended nodes from max_depth =
      search-Ended_from max_depth (search_fuel edges) (start nodes from)
        (omega (arith, start-measure nodes from))
