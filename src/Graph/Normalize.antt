-- ===== src/Graph/Normalize.antt =====
-- `normalizeGraphSnapshot` and `validateGraphSnapshot` (packages/graph-model/src/model.ts). All
-- errors are plain ones; checks of the JavaScript type of a value hold by its type here.
pub mod Canonical
pub mod Closed
pub mod Validated
use Prim.Native.Char.{nul}
use Prim.Native.String.{◌++◌ as text_append}
use my_pi.Prelude.{
  ℕ, ◌*◌, ◌≡◌, String, Option, none, some, List, [], ◌∷◌, Bool, true, false, ◌&&◌, ◌||◌, not, leb,
  ltb, ◌==◌, str_eq, if◌then◌else◌, length, take, filter, any, all, map,
}
use my_pi.Prelude.Text.{js_length, truthy}
use my_pi.Prelude.Outcome.{Outcome, ok, err, require, ◌>>◌, ◌>>=◌, plain_error}
use my_pi.Prelude.Sorting.{sort_by, distinct_by}
use my_pi.Graph.Model.{
  GraphScalar, GraphAttributes, GraphEvidenceType, GraphEvidenceRef, GraphNode, GraphEdge,
  GraphBounds, PartialBounds, GraphDegradedState, GraphSnapshot, GraphSnapshotInput,
}

abbrev pub default_bounds : GraphBounds
default_bounds = record { max_nodes = 500; max_edges = 2000; max_attribute_bytes = 4096 }

-- `boundedText` does not throw.
unfoldable pub text_ok : ℕ → String → Bool
text_ok max s = truthy s && leb (js_length s) max

-- `boundedInteger`
unfoldable pub bounded_integer : ℕ → ℕ → ℕ → Outcome ℕ
bounded_integer minimum maximum n = if leb minimum n && leb n maximum then ok n else err plain_error

abbrev pub or_default : ℕ → Option ℕ → ℕ
or_default d none = d
or_default d (some n) = n

abbrev pub no_bounds : PartialBounds
no_bounds = record { max_nodes = none; max_edges = none; max_attribute_bytes = none }

abbrev pub given_bounds : Option PartialBounds → PartialBounds
given_bounds none = no_bounds
given_bounds (some b) = b

-- `normalizeBounds`
unfoldable pub normalize_bounds : Option PartialBounds → Outcome GraphBounds
unfolding bounded_integer
normalize_bounds input = do
  nodes ← bounded_integer 1 10000 (or_default 500 (given_bounds input).max_nodes)
  edges ← bounded_integer 1 50000 (or_default 2000 (given_bounds input).max_edges)
  bytes ← bounded_integer 1 (64 * 1024) (or_default 4096 (given_bounds input).max_attribute_bytes)
  ok (record { max_nodes = nodes; max_edges = edges; max_attribute_bytes = bytes })

abbrev pub is_finite : GraphScalar → Bool
is_finite GraphScalar.not_finite = false
is_finite _ = true

abbrev pub is_reserved : String → Bool
is_reserved key = str_eq key "__proto__" || (str_eq key "constructor" || str_eq key "prototype")

-- What the loop over the keys of the attributes checks of one.
unfoldable pub attribute_ok : String × GraphScalar → Bool
unfolding text_ok
attribute_ok (key, value) = text_ok 256 key && (not (is_reserved key) && is_finite value)

abbrev pub attribute_key : String × GraphScalar → String
attribute_key (key, value) = key

unfoldable pub evidence_ok : GraphEvidenceRef → Bool
unfolding text_ok
evidence_ok item =
    text_ok 512 item.id && elim item.locator [ none ↦ true | some l ↦ text_ok 1024 l ]

abbrev pub type_text : GraphEvidenceType → String
type_text GraphEvidenceType.source = "source"
type_text GraphEvidenceType.record_ref = "record"
type_text GraphEvidenceType.derived = "derived"

abbrev pub or_empty : Option String → String
or_empty none = ""
or_empty (some s) = s

abbrev separator : String
separator = String.◌∷◌ nul String.[]

-- The key of a reference: its parts with a NUL between them.
unfoldable pub evidence_key : GraphEvidenceRef → String
evidence_key item =
    text_append (type_text item.type)
      (text_append separator (text_append item.id (text_append separator (or_empty item.locator))))

-- `normalizeEvidence`
unfoldable pub normalize_evidence :
    Option (List GraphEvidenceRef) → Outcome (Option (List GraphEvidenceRef))
unfolding evidence_ok evidence_key
normalize_evidence none = ok none
normalize_evidence (some items) = do
  require (leb (length items) 64) plain_error
  require (all evidence_ok items) plain_error
  require (distinct_by evidence_key items) plain_error
  ok (some (sort_by evidence_key items))

abbrev pub node_id : GraphNode → String
node_id n = n.id

abbrev pub edge_id : GraphEdge → String
edge_id e = e.id

abbrev pub has_node : List GraphNode → String → Bool
has_node nodes id = any (λ (n : GraphNode). str_eq n.id id) nodes

-- Both ends are among the nodes.
abbrev pub connects : List GraphNode → GraphEdge → Bool
connects nodes e = has_node nodes e.source && has_node nodes e.target

abbrev pub optional_text_ok : ℕ → Option String → Bool
optional_text_ok max none = true
optional_text_ok max (some s) = text_ok max s

abbrev pub degraded_ok : Option GraphDegradedState → Bool
degraded_ok none = true
degraded_ok (some d) = text_ok 128 d.provider && text_ok 1024 d.reason

-- `xs.map(f)` for a function that may throw.
unfoldable pub each {ℓ κ} : {A : Type ℓ} {B : Type κ} → (A → Outcome B) → List A → Outcome (List B)
each f [] = ok []
each f (x ∷ xs) = do y ← f x; ys ← each f xs; ok (y ∷ ys)

-- The bounds of a snapshot, as given ones.
abbrev pub own_bounds : GraphSnapshot → PartialBounds
own_bounds s = record {
  max_nodes = some s.bounds.max_nodes;
  max_edges = some s.bounds.max_edges;
  max_attribute_bytes = some s.bounds.max_attribute_bytes;
}

-- The length of the attributes' JSON text in bytes is an argument.
module _ (json_bytes : GraphAttributes → ℕ) where
  -- `normalizeAttributes`
  unfoldable pub normalize_attributes :
      ℕ → Option GraphAttributes → Outcome (Option GraphAttributes)
  unfolding attribute_ok
  normalize_attributes max_bytes none = ok none
  normalize_attributes max_bytes (some attributes) = do
    require (all attribute_ok attributes) plain_error
    require (leb (json_bytes (sort_by attribute_key attributes)) max_bytes) plain_error
    ok (some (sort_by attribute_key attributes))

  -- `normalizeNode`
  unfoldable pub normalize_node : GraphBounds → GraphNode → Outcome GraphNode
  unfolding normalize_attributes normalize_evidence text_ok
  normalize_node bounds node = do
    require (text_ok 512 node.id && (text_ok 128 node.kind && text_ok 4096 node.label)) plain_error
    attributes ← normalize_attributes bounds.max_attribute_bytes node.attributes
    evidence ← normalize_evidence node.evidence
    ok (record node { attributes = attributes; evidence = evidence })

  -- `normalizeEdge`
  unfoldable pub normalize_edge : GraphBounds → GraphEdge → Outcome GraphEdge
  unfolding normalize_attributes normalize_evidence text_ok
  normalize_edge bounds edge = do
    require
        (text_ok 512 edge.id
          && (text_ok 128 edge.kind && (text_ok 512 edge.source && text_ok 512 edge.target)))
        plain_error
    attributes ← normalize_attributes bounds.max_attribute_bytes edge.attributes
    evidence ← normalize_evidence edge.evidence
    ok (record edge { attributes = attributes; evidence = evidence })

  -- `normalizeGraphSnapshot`
  unfoldable pub normalize_snapshot : GraphSnapshotInput → Outcome GraphSnapshot
  unfolding text_ok normalize_bounds each normalize_node normalize_edge
  normalize_snapshot input = do
    require (text_ok 256 input.graph_version) plain_error
    bounds ← normalize_bounds input.bounds
    normal_nodes ← each (normalize_node bounds) input.nodes
    let all_nodes = sort_by node_id normal_nodes
    require (distinct_by node_id all_nodes) plain_error
    let selected_nodes = take bounds.max_nodes all_nodes
    normal_edges ← each (normalize_edge bounds) input.edges
    let all_edges = sort_by edge_id normal_edges
    require (distinct_by edge_id all_edges) plain_error
    let connected_edges = filter (connects selected_nodes) all_edges
    let selected_edges = take bounds.max_edges connected_edges
    require (optional_text_ok 512 input.cursor) plain_error
    require (optional_text_ok 128 input.generated_at) plain_error
    require (degraded_ok input.degraded) plain_error
    ok (record {
      graph_version = input.graph_version;
      kind = input.kind;
      nodes = selected_nodes;
      edges = selected_edges;
      bounds = bounds;
      truncated =
          input.truncated
          || (not (length selected_nodes == length all_nodes)
              || (not (length selected_edges == length connected_edges)
                  || not (length connected_edges == length all_edges)));
      cursor = input.cursor;
      generated_at = input.generated_at;
      degraded = input.degraded;
    })

  -- A snapshot as an input of `normalizeGraphSnapshot`.
  abbrev pub as_input : GraphSnapshot → GraphSnapshotInput
  as_input s = record {
    graph_version = s.graph_version;
    kind = s.kind;
    nodes = s.nodes;
    edges = s.edges;
    bounds = some (own_bounds s);
    truncated = s.truncated;
    cursor = s.cursor;
    generated_at = s.generated_at;
    degraded = s.degraded;
  }

  abbrev pub same_size : GraphSnapshot → Outcome GraphSnapshot → Bool
  same_size s (ok t) = length t.nodes == length s.nodes && length t.edges == length s.edges
  same_size s (err code) = false

  -- The `ok` of `validateGraphSnapshot`.
  unfoldable pub validate_snapshot : GraphSnapshot → Bool
  unfolding normalize_snapshot
  validate_snapshot s =
      (leb (length s.nodes) s.bounds.max_nodes && leb (length s.edges) s.bounds.max_edges)
      && (distinct_by node_id s.nodes
          && (all (connects s.nodes) s.edges && same_size s (normalize_snapshot (as_input s))))
