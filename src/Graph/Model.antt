-- ===== src/Graph/Model.antt =====
-- The records of packages/graph-model/src/model.ts. A number in an attribute is its JSON text, or
-- no finite number.
use my_pi.Prelude.{ℕ, String, Option, List, Bool}

pub data GraphKind : Type 0 where
  code impact work lineage : GraphKind

pub data GraphScalar : Type 0 where
  text : String → GraphScalar
  number : String → GraphScalar
  not_finite : GraphScalar
  boolean : Bool → GraphScalar
  null : GraphScalar

abbrev pub GraphAttributes : Type 0
GraphAttributes = List (String × GraphScalar)

pub data GraphProvenance : Type 0 where
  authoritative derived : GraphProvenance

pub data GraphEvidenceType : Type 0 where
  source record_ref derived : GraphEvidenceType

pub record GraphEvidenceRef : Type 0 where
  pub type : GraphEvidenceType
  pub id : String
  pub locator : Option String

pub record GraphNode : Type 0 where
  pub id : String
  pub kind : String
  pub label : String
  pub attributes : Option GraphAttributes
  pub evidence : Option (List GraphEvidenceRef)
  pub provenance : Option GraphProvenance

pub record GraphEdge : Type 0 where
  pub id : String
  pub kind : String
  pub source : String
  pub target : String
  pub attributes : Option GraphAttributes
  pub evidence : Option (List GraphEvidenceRef)
  pub provenance : Option GraphProvenance

pub record GraphBounds : Type 0 where
  pub max_nodes : ℕ
  pub max_edges : ℕ
  pub max_attribute_bytes : ℕ

-- `Partial<GraphBounds>`
pub record PartialBounds : Type 0 where
  pub max_nodes : Option ℕ
  pub max_edges : Option ℕ
  pub max_attribute_bytes : Option ℕ

pub record GraphDegradedState : Type 0 where
  pub provider : String
  pub reason : String

pub record GraphSnapshot : Type 0 where
  pub graph_version : String
  pub kind : GraphKind
  pub nodes : List GraphNode
  pub edges : List GraphEdge
  pub bounds : GraphBounds
  pub truncated : Bool
  pub cursor : Option String
  pub generated_at : Option String
  pub degraded : Option GraphDegradedState

pub record GraphSnapshotInput : Type 0 where
  pub graph_version : String
  pub kind : GraphKind
  pub nodes : List GraphNode
  pub edges : List GraphEdge
  pub bounds : Option PartialBounds
  pub truncated : Bool
  pub cursor : Option String
  pub generated_at : Option String
  pub degraded : Option GraphDegradedState

pub record GraphTrace : Type 0 where
  pub graph_version : String
  pub kind : GraphKind
  pub from_node_id : String
  pub to_node_id : String
  pub max_depth : ℕ
  pub nodes : List GraphNode
  pub edges : List GraphEdge
  pub bounds : GraphBounds
  pub found : Bool
  pub truncated : Bool
  pub degraded : Option GraphDegradedState

pub record GraphTraceInput : Type 0 where
  pub snapshot : GraphSnapshot
  pub from_node_id : String
  pub to_node_id : String
  pub max_depth : Option ℕ
  pub bounds : Option PartialBounds
