-- ===== src/Graph/Samples.antt =====
-- A small graph, and the theorems at it.
use mathlib.Core.List.{Memᴰ}
use my_pi.Prelude.{
  arith, ℕ, ◌≡◌, ◌≤◌, refl, String, List, [], ◌∷◌, true, false, none, some, length, all,
}
use my_pi.Prelude.Outcome.{ok}
use my_pi.Prelude.Sorting.{sort_by, text_before}
use my_pi.Graph.Model.{
  GraphKind, GraphScalar, GraphAttributes, GraphNode, GraphEdge, GraphSnapshot, GraphSnapshotInput,
  GraphTrace, GraphTraceInput,
}
use my_pi.Graph.Normalize.{
  no_bounds, default_bounds, has_node, connects, normalize_snapshot, as_input, validate_snapshot,
}
use my_pi.Graph.Normalize.Validated.{normalize_snapshot_idem, normalize_snapshot-validate}
use my_pi.Graph.Trace.{Step, trace_snapshot, searched}
use my_pi.Graph.Trace.Fuel.{Ended}
use my_pi.Graph.Trace.Way.{IsWay}
use my_pi.Graph.Trace.Discovery.{Walk}
use my_pi.Graph.Trace.Results.{
  trace_snapshot-found, trace_snapshot-IsWay, trace_snapshot-IsClosed, trace_snapshot-Ended,
}
use my_pi.Graph.Theater.{TheaterEvent, event_to_motion_cue}
use my_pi.Graph.Theater.Cues.{PointsAt, event_to_motion_cue-PointsAt}
use my_pi.Graph.Theater.Frames.{TheaterFrameInput}

-- A text in JSON takes some bytes; here each attribute takes ten.
abbrev ten_bytes : GraphAttributes → ℕ
ten_bytes [] = 0
ten_bytes (a ∷ rest) = 10

abbrev node : String → String → GraphNode
node id kind = record {
  id = id;
  kind = kind;
  label = id;
  attributes = none;
  evidence = none;
  provenance = none;
}

abbrev edge : String → String → String → GraphEdge
edge id source target = record {
  id = id;
  kind = "calls";
  source = source;
  target = target;
  attributes =
      some (("weight", GraphScalar.number "2") ∷ ("direct", GraphScalar.boolean true) ∷ []);
  evidence = none;
  provenance = none;
}

-- Not in order, and with an edge to a node that is not there.
abbrev loose : GraphSnapshotInput
loose = record {
  graph_version = "7";
  kind = GraphKind.code;
  nodes = node "c" "file" ∷ node "a" "file" ∷ node "b" "agent_session" ∷ [];
  edges = edge "2" "b" "c" ∷ edge "3" "c" "d" ∷ edge "1" "a" "b" ∷ [];
  bounds = some no_bounds;
  truncated = false;
  cursor = none;
  generated_at = none;
  degraded = none;
}

abbrev sorted_edge : String → String → String → GraphEdge
sorted_edge id source target = record (edge id source target) {
  attributes =
      some (("direct", GraphScalar.boolean true) ∷ ("weight", GraphScalar.number "2") ∷ []);
}

abbrev tidy : GraphSnapshot
tidy = record {
  graph_version = "7";
  kind = GraphKind.code;
  nodes = node "a" "file" ∷ node "b" "agent_session" ∷ node "c" "file" ∷ [];
  edges = sorted_edge "1" "a" "b" ∷ sorted_edge "2" "b" "c" ∷ [];
  bounds = default_bounds;
  truncated = true;
  cursor = none;
  generated_at = none;
  degraded = none;
}

loose-tidy : normalize_snapshot ten_bytes loose ≡ ok tidy
unfolding normalize_snapshot sort_by text_before
loose-tidy = refl

normalize_snapshot_idem_example : normalize_snapshot ten_bytes (as_input ten_bytes tidy) ≡ ok tidy
normalize_snapshot_idem_example = normalize_snapshot_idem ten_bytes loose tidy loose-tidy

normalize_snapshot-validate_example : validate_snapshot ten_bytes tidy ≡ true
normalize_snapshot-validate_example = normalize_snapshot-validate ten_bytes loose tidy loose-tidy

abbrev from_a_to_c : GraphTraceInput
from_a_to_c = record {
  snapshot = tidy;
  from_node_id = "a";
  to_node_id = "c";
  max_depth = none;
  bounds = none;
}

abbrev traced : GraphTrace
traced = record {
  graph_version = "7";
  kind = GraphKind.code;
  from_node_id = "a";
  to_node_id = "c";
  max_depth = 8;
  nodes = tidy.nodes;
  edges = tidy.edges;
  bounds = default_bounds;
  found = true;
  truncated = true;
  degraded = none;
}

from_a_to_c-traced : trace_snapshot ten_bytes from_a_to_c ≡ ok traced
unfolding trace_snapshot sort_by text_before
from_a_to_c-traced = refl

trace_snapshot-IsWay_example :
    (s : GraphSnapshot) × (normalize_snapshot ten_bytes (as_input ten_bytes tidy) ≡ ok s)
    × (has_node s.nodes "a" ≡ true)
    × (steps : List Step) × IsWay s.edges "a" "c" steps
    × (length steps ≤ 8)
    × (8 ≤ 8)
trace_snapshot-IsWay_example =
    trace_snapshot-IsWay ten_bytes from_a_to_c traced from_a_to_c-traced refl

tidy-tidy : normalize_snapshot ten_bytes (as_input ten_bytes tidy) ≡ ok tidy
unfolding normalize_snapshot sort_by text_before
tidy-tidy = refl

from_a_to_c-Walk : Walk tidy.edges "a" "c" 2
from_a_to_c-Walk =
    Walk.there (sorted_edge "2" "b" "c") (Memᴰ.tail (Memᴰ.head refl))
      (Walk.there (sorted_edge "1" "a" "b") (Memᴰ.head refl) Walk.here)

trace_snapshot-found_example : traced.found ≡ true
trace_snapshot-found_example =
    trace_snapshot-found ten_bytes from_a_to_c traced tidy 2 from_a_to_c-traced tidy-tidy refl
      from_a_to_c-Walk (omega arith)

trace_snapshot-IsClosed_example :
    (length traced.nodes ≤ 500)
    × (length traced.edges ≤ 2000)
    × (all (connects traced.nodes) traced.edges ≡ true)
trace_snapshot-IsClosed_example =
    trace_snapshot-IsClosed ten_bytes from_a_to_c traced from_a_to_c-traced

trace_snapshot-Ended_example :
    (s : GraphSnapshot) × (normalize_snapshot ten_bytes (as_input ten_bytes tidy) ≡ ok s)
    × Ended s.edges "c" (searched s "a" "c" 8)
trace_snapshot-Ended_example = trace_snapshot-Ended ten_bytes from_a_to_c traced from_a_to_c-traced

abbrev heartbeat : TheaterEvent
heartbeat = record {
  project_id = "p";
  sequence = "4";
  event_id = "e4";
  event_type = "AgentHeartbeat";
  occurred_at = "t4";
  actor = some (record { kind = "agent_session"; id = some "b"; name = none });
  correlation_id = none;
  causation_id = none;
  payload = record { agent_session_id = none; work_item_id = none; intent_id = none };
}

event_to_motion_cue-PointsAt_example : PointsAt tidy.nodes (event_to_motion_cue heartbeat tidy "t9")
event_to_motion_cue-PointsAt_example = event_to_motion_cue-PointsAt heartbeat tidy "t9"

abbrev frame_input : TheaterFrameInput
frame_input = record {
  scope = record { project_id = "p"; worktree_id = none; kind = GraphKind.code; subject_id = none };
  graph = tidy;
  events = heartbeat ∷ [];
  cursor = record { first_sequence = none; last_sequence = none; next_sequence = none };
  quality = record {
    degraded = none;
    truncated = none;
    stale = none;
    empty = none;
    reasons = some ("slow" ∷ "slow" ∷ []);
    generated_at = none;
    as_of = none;
  };
  capabilities = record {
    live = some false;
    replay = none;
    expand = none;
    trace = none;
    renderer_3d = none;
  };
}

abbrev frame_reasons : List String
frame_reasons = "Graph nodes or edges truncated within bounds" ∷ "slow" ∷ []
