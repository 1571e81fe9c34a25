-- ===== src/Graph/Trace/Way.antt =====
-- The walk back over the parents: from the target it comes to the start, over edges that join.
use mathlib.Core.List.{Memᴰ}
use my_pi.Prelude.{
  ℕ, zero, suc, ◌≤◌, ◌<◌, ◌≡◌, refl, ap, sym, subst, ◌∙◌, ◌⊎◌, inl, inr, String, some, List, [],
  ◌∷◌, true, false, arith, leb, str_eq, eq_iff, Bool-cases, List-cases, length, All,
}
use my_pi.Prelude.Dict.{get, has}
use my_pi.Graph.Model.{GraphNode, GraphEdge}
use my_pi.Graph.Normalize.{or_default, has_node}
use my_pi.Graph.Trace.{Step, Search, adjacent, discover, visit, turn, search, start, way_back}
use my_pi.Graph.Trace.Discovery.{
  Leaves, adjacent-Leaves, IsSound, pop-IsSound, turn-IsSound, search-IsSound, start-IsSound,
  Reached, get_All,
}

pub has_mono :
    (id key : String) (d : ℕ) (m : List (String × ℕ))
    → has id m ≡ true
    → has id ((key, d) ∷ m) ≡ true
unfolding get
has_mono id key d m h = ground (arith, h)

pub get_keep :
    (id key : String) (d : ℕ) (m : List (String × ℕ))
    → has id m ≡ true
    → has key m ≡ false
    → get id ((key, d) ∷ m) ≡ get id m
unfolding get
get_keep id key d m h new = elim (Bool-cases (str_eq key id)) [
  | inl same ↦ let missing = subst (λ k. has k m ≡ false) ((eq_iff key id).0 same) new in cc
  | inr other ↦ rw other refl
]

-- The depth of a node, once it is discovered.
abbrev pub depth_of : Search → String → ℕ
depth_of s id = or_default 0 (get id s.depth)

-- Steps from a node back to the start, each over one of the edges.
abbrev pub IsWay : List GraphEdge → String → String → List Step → Type 0
IsWay edges from id [] = id ≡ from
IsWay edges from id (step ∷ rest) =
    Memᴰ step.edge edges
    × (step.edge.target ≡ id)
    × (step.edge.source ≡ step.node_id)
    × IsWay edges from step.node_id rest

module _ (edges : List GraphEdge) (from : String) where
  -- The parent of a discovered node that is not the start.
  pub record HasParent (s : Search) (id : String) : Type 0 where
    pub step : Step
    pub parent : get id s.parent ≡ some step
    pub member : Memᴰ step.edge edges
    pub target : step.edge.target ≡ id
    pub source : step.edge.source ≡ step.node_id
    pub known : has step.node_id s.depth ≡ true
    pub deeper : depth_of s id ≡ suc (depth_of s step.node_id)

  -- What the loops keep.
  abbrev pub IsLinked : Search → Type 0
  IsLinked s = (id : String) → has id s.depth ≡ true → (id ≡ from) ⊎ HasParent s id

  discover-IsLinked :
      (current : String) (d : ℕ) (e : GraphEdge) (s : Search)
      → d ≡ depth_of s current
      → has current s.depth ≡ true
      → has e.target s.depth ≡ false
      → Leaves edges current e
      → IsLinked s
      → IsLinked (discover current d e s)
  unfolding discover get
  discover-IsLinked current d e s at known new leaves linked id h =
      elim (Bool-cases (str_eq e.target id)) [
        | inl same ↦ inr (record {
          step = record { node_id = current; edge = e };
          parent = rw same refl;
          member = leaves.0;
          target = (eq_iff e.target id).0 same;
          source = leaves.1;
          known = has_mono current e.target (suc d) s.depth known;
          deeper =
              rw (same, get_keep current e.target (suc d) s.depth known new) (ap (λ n. suc n) at);
        })
        | inr other ↦ elim (linked id (ground (arith, h, other))) [
          | inl first ↦ inl first
          | inr p ↦ inr (record {
            step = p.step;
            parent = rw other p.parent;
            member = p.member;
            target = p.target;
            source = p.source;
            known = has_mono p.step.node_id e.target (suc d) s.depth p.known;
            deeper =
                rw (other, get_keep p.step.node_id e.target (suc d) s.depth p.known new) p.deeper;
          })
        ]
      ]

  visit-IsLinked :
      (to current : String) (d : ℕ) (es : List GraphEdge) (s : Search)
      → d ≡ depth_of s current
      → has current s.depth ≡ true
      → All (Leaves edges current) es
      → IsLinked s
      → IsLinked (visit to current d es s)
  unfolding visit discover get
  visit-IsLinked to current d [] s at known leaves linked = linked
  visit-IsLinked to current d (e ∷ es) s at known leaves linked =
      elim (Bool-cases (has e.target s.depth)) [
        | inl old ↦ rw (visit, old) (visit-IsLinked to current d es s at known leaves.1 linked)
        | inr new ↦
            let next = discover-IsLinked current d e s at known new leaves.0 linked in
            elim (Bool-cases (str_eq e.target to)) [
              | inl end ↦ rw (visit, new, end) next
              | inr more ↦
                  rw (visit, new, more)
                    (visit-IsLinked to current d es (discover current d e s)
                      (at
                        ∙ ap (or_default 0)
                            (sym (get_keep current e.target (suc d) s.depth known new)))
                      (has_mono current e.target (suc d) s.depth known) leaves.1 next)
            ]
      ]

  turn-IsLinked :
      (to : String) (max_depth : ℕ) (current : String) (s : Search)
      → has current s.depth ≡ true
      → IsLinked s
      → IsLinked (turn edges to max_depth current s)
  unfolding turn
  turn-IsLinked to max_depth current s known linked =
      elim (Bool-cases (leb max_depth (depth_of s current))) [
        | inl deep ↦ rw deep linked
        | inr few ↦ rw few (
            visit-IsLinked to current (depth_of s current) (adjacent edges current) s refl known
              (adjacent-Leaves edges current) linked)
      ]

  pop-IsLinked :
      (s : Search) (rest : List String) → IsLinked s → IsLinked (record s { queue = rest })
  pop-IsLinked s rest linked id h = elim (linked id h) [
    | inl first ↦ inl first
    | inr p ↦ inr (record {
      step = p.step;
      parent = p.parent;
      member = p.member;
      target = p.target;
      source = p.source;
      known = p.known;
      deeper = p.deeper;
    })
  ]

  search-IsLinked :
      (fuel : ℕ) (to : String) (max_depth : ℕ) (s : Search)
      → IsSound edges from max_depth s
      → IsLinked s
      → IsLinked (search fuel edges to max_depth s)
  unfolding search
  search-IsLinked zero to max_depth s sound linked = linked
  search-IsLinked (suc fuel) to max_depth s sound linked = elim (Bool-cases (has to s.depth)) [
    | inl end ↦ rw (search, end) linked
    | inr more ↦ elim (List-cases s.queue) [
      | inl empty ↦ rw (search, more, empty) linked
      | inr (current, rest, queue) ↦
          let popped = record s { queue = rest } in
          let (known, popped_sound) = pop-IsSound edges from max_depth s current rest queue sound in
          rw (search, more, queue)
            (search-IsLinked fuel to max_depth (turn edges to max_depth current popped)
              (turn-IsSound edges from max_depth to current popped known popped_sound)
              (turn-IsLinked to max_depth current popped known (pop-IsLinked s rest linked)))
    ]
  ]

  start-IsLinked : (nodes : List GraphNode) → IsLinked (start nodes from)
  unfolding get
  start-IsLinked nodes = elim (Bool-cases (has_node nodes from)) [
    | inl first ↦ rw first (λ id h. inl (sym ((eq_iff from id).0 (ground (arith, h)))))
    | inr missing ↦ rw missing (λ id h. cc)
  ]

  way_back-IsWay_from :
      (fuel : ℕ) (s : Search) (id : String)
      → IsLinked s
      → has id s.depth ≡ true
      → depth_of s id < fuel
      → IsWay edges from id (way_back fuel s.parent from id)
        × (length (way_back fuel s.parent from id) ≤ depth_of s id)
  unfolding way_back
  way_back-IsWay_from zero s id linked known few = ground arith
  way_back-IsWay_from (suc fuel) s id linked known few = elim (Bool-cases (str_eq id from)) [
    | inl first ↦ rw (way_back, first) ((eq_iff id from).0 first, omega arith)
    | inr other ↦ elim (linked id known) [
      | inl same ↦ let here = (eq_iff id from).1 same in cc
      | inr p ↦
          let (way, short) =
            way_back-IsWay_from fuel s p.step.node_id linked p.known
              (omega (arith, p.deeper, few)) in
          rw (way_back, other, p.parent)
            ((p.member, p.target, p.source, way), omega (arith, short, p.deeper))
    ]
  ]

  -- Where a search from a node has discovered its target within the bound, the walk back is a way
  -- from the start that is no longer than the bound.
  pub way_back-IsWay :
      (nodes : List GraphNode) (to : String) (max_depth fuel : ℕ)
      → let end = search fuel edges to max_depth (start nodes from) in
        has to end.depth ≡ true
        → IsWay edges from to (way_back (suc max_depth) end.parent from to)
          × (length (way_back (suc max_depth) end.parent from to) ≤ max_depth)
  way_back-IsWay nodes to max_depth fuel known =
      let first = start nodes from in
      let sound = start-IsSound edges from max_depth nodes in
      let end = search fuel edges to max_depth first in
      let (walk, few) =
        get_All (Reached edges from max_depth) to end.depth
          (search-IsSound edges from max_depth fuel to first sound).reached known in
      let (way, short) =
        way_back-IsWay_from (suc max_depth) end to
          (search-IsLinked fuel to max_depth first sound (start-IsLinked nodes)) known
          (omega (arith, few)) in
      (way, omega (arith, few, short))
