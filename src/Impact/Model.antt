-- ===== src/Impact/Model.antt =====
-- The records of the impact engine (packages/impact-engine/src/model.ts) and of what it reads
-- (packages/contracts/src/code-entity.ts and packages/contracts/src/scope.ts). The ends `from`
-- and `to` of an edge are its source and target.
use my_pi.Prelude.{ℕ, String, Option, List, [], ◌∷◌}

pub data CodeEntityKind : Type 0 where
  repository module_entity file symbol test : CodeEntityKind

pub data CodeEdgeKind : Type 0 where
  contains imports references calls tests : CodeEdgeKind

pub data CodeEdgeConfidence : Type 0 where
  exact strong medium weak : CodeEdgeConfidence

-- The fields that the engine's traversal reads.
pub record CodeEntity : Type 0 where
  pub id : String
  pub kind : CodeEntityKind
  pub stable_key : String
  pub display_name : String
  pub path : Option String

pub record CodeEdge : Type 0 where
  pub source : String
  pub target : String
  pub kind : CodeEdgeKind
  pub confidence : CodeEdgeConfidence

pub data ScopeRef : Type 0 where
  path directory module_scope package_scope symbol_scope : String → ScopeRef

pub record ImpactBounds : Type 0 where
  pub max_depth : ℕ
  pub max_entities : ℕ
  pub allowed_edge_kinds : List CodeEdgeKind
  pub minimum_confidence : CodeEdgeConfidence

abbrev pub default_bounds : ImpactBounds
default_bounds = record {
  max_depth = 3;
  max_entities = 500;
  allowed_edge_kinds =
      CodeEdgeKind.contains ∷ CodeEdgeKind.imports ∷ CodeEdgeKind.references ∷ CodeEdgeKind.calls
      ∷ CodeEdgeKind.tests ∷ [];
  minimum_confidence = CodeEdgeConfidence.medium;
}

pub data ImpactReasonCode : Type 0 where
  explicit_work_dependency same_work_item exact_scope_overlap graph_edge direct_target_agent :
      ImpactReasonCode

pub record ImpactReason : Type 0 where
  pub code : ImpactReasonCode
  pub score : ℕ
  pub explanation : String
  pub entity_path : List String

-- `CONFIDENCE_RANK`
abbrev pub confidence_rank : CodeEdgeConfidence → ℕ
confidence_rank CodeEdgeConfidence.exact = 4
confidence_rank CodeEdgeConfidence.strong = 3
confidence_rank CodeEdgeConfidence.medium = 2
confidence_rank CodeEdgeConfidence.weak = 1

abbrev pub kind_text : CodeEdgeKind → String
kind_text CodeEdgeKind.contains = "contains"
kind_text CodeEdgeKind.imports = "imports"
kind_text CodeEdgeKind.references = "references"
kind_text CodeEdgeKind.calls = "calls"
kind_text CodeEdgeKind.tests = "tests"

abbrev pub confidence_text : CodeEdgeConfidence → String
confidence_text CodeEdgeConfidence.exact = "exact"
confidence_text CodeEdgeConfidence.strong = "strong"
confidence_text CodeEdgeConfidence.medium = "medium"
confidence_text CodeEdgeConfidence.weak = "weak"
