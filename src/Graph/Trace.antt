-- ===== src/Graph/Trace.antt =====
-- `traceGraphSnapshot` (packages/graph-model/src/model.ts): a breadth-first search from one node
-- to another, and the walk back over the parents it has recorded. Each loop runs on fuel.
pub mod Discovery
pub mod Fuel
pub mod Way
pub mod Levels
pub mod Visits
pub mod Complete
pub mod Results
use my_pi.Prelude.{
  ℕ, zero, suc, ◌+◌, String, Option, none, some, List, [], ◌∷◌, ◌++◌, Bool, true, false, ◌&&◌, ◌||◌,
  not, leb, str_eq, if◌then◌else◌, length, filter, any, map,
}
use my_pi.Prelude.Dict.{Dict, get, has}
use my_pi.Prelude.Outcome.{Outcome, ok, err, require, ◌>>◌, ◌>>=◌, plain_error}
use my_pi.Prelude.Sorting.{sort_by}
use my_pi.Graph.Model.{
  GraphAttributes, GraphNode, GraphEdge, PartialBounds, GraphSnapshot, GraphSnapshotInput,
  GraphTrace, GraphTraceInput,
}
use my_pi.Graph.Normalize.{
  text_ok, bounded_integer, or_default, node_id, edge_id, has_node, own_bounds, normalize_snapshot,
  as_input,
}

-- What `parent` holds for a node: the edge that has discovered it, and where that starts.
pub record Step : Type 0 where
  pub node_id : String
  pub edge : GraphEdge

-- The maps `depth` and `parent`, of which only keys not yet there are set, and the queue.
pub record Search : Type 0 where
  pub depth : Dict ℕ
  pub parent : Dict Step
  pub queue : List String

-- `adjacency.get(current) ?? []`
unfoldable pub adjacent : List GraphEdge → String → List GraphEdge
adjacent edges current = filter (λ (e : GraphEdge). str_eq e.source current) (sort_by edge_id edges)

unfoldable pub discover : String → ℕ → GraphEdge → Search → Search
discover current d e s = record {
  depth = (e.target, suc d) ∷ s.depth;
  parent = (e.target, record { node_id = current; edge = e }) ∷ s.parent;
  queue = s.queue ++ e.target ∷ [];
}

-- The loop over the edges that leave `current`, whose depth is `d`.
unfoldable pub visit : String → String → ℕ → List GraphEdge → Search → Search
unfolding discover
visit to current d [] s = s
visit to current d (e ∷ es) s = elim (has e.target s.depth) [
  | true ↦ visit to current d es s
  | false ↦ elim (str_eq e.target to) [
    | true ↦ discover current d e s
    | false ↦ visit to current d es (discover current d e s)
  ]
]

-- One turn of the loop over the queue, whose first element has been taken away.
unfoldable pub turn : List GraphEdge → String → ℕ → String → Search → Search
unfolding get adjacent visit
turn edges to max_depth current s =
    let d = or_default 0 (get current s.depth) in
    if leb max_depth d then s else visit to current d (adjacent edges current) s

-- `while (queue.length > 0 && !depth.has(toNodeId))`
unfoldable pub search : ℕ → List GraphEdge → String → ℕ → Search → Search
unfolding turn
search zero edges to max_depth s = s
search (suc fuel) edges to max_depth s = elim (has to s.depth) [
  | true ↦ s
  | false ↦ elim s.queue [
    | [] ↦ s
    | current ∷ rest ↦
        search fuel edges to max_depth (turn edges to max_depth current (record s { queue = rest }))
  ]
]

abbrev pub start : List GraphNode → String → Search
start nodes from =
    if has_node nodes from
    then record { depth = (from, 0) ∷ []; parent = []; queue = from ∷ [] }
    else record { depth = []; parent = []; queue = [] }

-- A turn takes a node from the queue, and each edge puts one there at most once.
abbrev pub search_fuel : List GraphEdge → ℕ
search_fuel edges = suc (suc (length edges))

abbrev pub searched : GraphSnapshot → String → String → ℕ → Search
searched s from to max_depth =
    search (search_fuel s.edges) s.edges to max_depth (start s.nodes from)

-- The steps that the loop `while (current !== fromNodeId)` takes back, the last one first.
unfoldable pub way_back : ℕ → Dict Step → String → String → List Step
unfolding get
way_back zero parent from current = []
way_back (suc fuel) parent from current = elim (str_eq current from) [
  | true ↦ []
  | false ↦ elim (get current parent) [
    | none ↦ []
    | some step ↦ step ∷ way_back fuel parent from step.node_id
  ]
]

abbrev pub among : List String → String → Bool
among ids id = any (λ (x : String). str_eq x id) ids

abbrev pub step_node : Step → String
step_node step = step.node_id

abbrev pub step_edge : Step → String
step_edge step = step.edge.id

abbrev pub is_found : GraphSnapshot → String → String → Search → Bool
is_found s from to end = has_node s.nodes from && has to end.depth

-- `selectedNodeIds`; of the two ends those that are no nodes select none.
unfoldable pub selected_nodes : GraphSnapshot → String → String → ℕ → Search → List String
unfolding get way_back
selected_nodes s from to max_depth end =
    if is_found s from to end
    then to ∷ map step_node (way_back (suc max_depth) end.parent from to)
    else filter (has_node s.nodes) (from ∷ to ∷ [])

-- `selectedEdgeIds`
unfoldable pub selected_edges : GraphSnapshot → String → String → ℕ → Search → List String
unfolding get way_back
selected_edges s from to max_depth end =
    if is_found s from to end
    then map step_edge (way_back (suc max_depth) end.parent from to)
    else []

abbrev pub at_bound : GraphSnapshot → ℕ → String × ℕ → Bool
at_bound s max_depth (id, d) =
    leb max_depth d && any (λ (e : GraphEdge). str_eq e.source id) s.edges

abbrev pub bounds_or : Option PartialBounds → Option PartialBounds → Option PartialBounds
bounds_or none given = given
bounds_or (some b) given = some b

-- The input from which the traced part is normalized.
unfoldable pub traced_part :
    GraphSnapshot → Option PartialBounds → String → String → ℕ → Search → GraphSnapshotInput
unfolding selected_nodes selected_edges
traced_part s given from to max_depth end = record {
  graph_version = s.graph_version;
  kind = s.kind;
  nodes = filter (λ (n : GraphNode). among (selected_nodes s from to max_depth end) n.id) s.nodes;
  edges = filter (λ (e : GraphEdge). among (selected_edges s from to max_depth end) e.id) s.edges;
  bounds = bounds_or given (some (own_bounds s));
  truncated = s.truncated;
  cursor = none;
  generated_at = none;
  degraded = s.degraded;
}

module _ (json_bytes : GraphAttributes → ℕ) where
  -- `traceGraphSnapshot`
  unfoldable pub trace_snapshot : GraphTraceInput → Outcome GraphTrace
  unfolding normalize_snapshot text_ok bounded_integer search get traced_part
  trace_snapshot input = do
    s ← normalize_snapshot json_bytes (as_input json_bytes input.snapshot)
    require (text_ok 512 input.from_node_id && text_ok 512 input.to_node_id) plain_error
    max_depth ← bounded_integer 1 8 (or_default 8 input.max_depth)
    let from = input.from_node_id
    let to = input.to_node_id
    let end = searched s from to max_depth
    t ← normalize_snapshot json_bytes (traced_part s input.bounds from to max_depth end)
    ok (record {
      graph_version = t.graph_version;
      kind = t.kind;
      from_node_id = from;
      to_node_id = to;
      max_depth = max_depth;
      nodes = t.nodes;
      edges = t.edges;
      bounds = t.bounds;
      found = is_found s from to end;
      truncated =
          t.truncated || (not (is_found s from to end) && any (at_bound s max_depth) end.depth);
      degraded = t.degraded;
    })
