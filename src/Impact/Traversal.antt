-- ===== src/Impact/Traversal.antt =====
-- The scopes of an intent and `graphTraversal`, whose loop over the queue runs on fuel. Scores are
-- numbers that do not fall below one, so the subtraction that stops at zero is the source's.
use Prim.Native.Nat.{max}
use Prim.Native.String.{◌++◌ as text_append}
use text.Mathlib.Text.{starts_with}
use my_pi.Prelude.{
  ℕ, zero, suc, ◌+◌, ◌-◌, ◌*◌, String, Option, none, some, List, [], ◌∷◌, ◌++◌, Bool, true, false,
  ◌&&◌, ◌||◌, not, leb, str_eq, if◌then◌else◌, length, filter, any, map,
}
use my_pi.Impact.Model.{
  CodeEntityKind, CodeEdgeKind, CodeEntity, CodeEdge, ScopeRef, ImpactBounds, ImpactReasonCode,
  ImpactReason, confidence_rank, kind_text, confidence_text,
}
use my_pi.Prelude.Dict.{Dict, get, put}
use my_pi.Prelude.Text.{truthy, includes, without_last_slashes}

unfoldable pub forward_slashes : String → String
forward_slashes String.[] = String.[]
forward_slashes (String.◌∷◌ c s) =
    let rest = forward_slashes s in
    if str_eq (String.◌∷◌ c String.[]) "\\" then text_append "/" rest else String.◌∷◌ c rest

-- `text.replace(/^\.\//, "")`
abbrev pub without_first_dot : String → String
without_first_dot (String.◌∷◌ c (String.◌∷◌ d s)) =
    if starts_with (String.◌∷◌ c (String.◌∷◌ d s)) "./" then s else String.◌∷◌ c (String.◌∷◌ d s)
without_first_dot s = s

-- `normalizePath`
unfoldable pub normalize_path : String → String
unfolding forward_slashes without_last_slashes
normalize_path value = without_last_slashes (without_first_dot (forward_slashes value))

abbrev pub entity_path : CodeEntity → String
unfolding normalize_path
entity_path entity = elim entity.path [
  | none ↦ ""
  | some p ↦ if truthy p then normalize_path p else ""
]

abbrev pub is_module : CodeEntityKind → Bool
is_module CodeEntityKind.module_entity = true
is_module _ = false

-- A path is this one or lies below it.
abbrev pub at_or_below : String → String → Bool
at_or_below path directory = str_eq path directory || starts_with path (text_append directory "/")

-- `scopeMatches`
unfoldable pub scope_matches : CodeEntity → ScopeRef → Bool
unfolding normalize_path includes
scope_matches entity (ScopeRef.path value) = str_eq (entity_path entity) (normalize_path value)
scope_matches entity (ScopeRef.directory value) =
    at_or_below (entity_path entity) (normalize_path value)
scope_matches entity (ScopeRef.module_scope value) =
    is_module entity.kind
    && (str_eq entity.display_name value || includes entity.stable_key (text_append "|" value))
scope_matches entity (ScopeRef.package_scope value) =
    at_or_below (entity_path entity) (normalize_path value)
scope_matches entity (ScopeRef.symbol_scope id) = str_eq entity.id id

-- `targetEntities`, for the targets of the intent, if there is one.
unfoldable pub target_entities : Option (List ScopeRef) → List CodeEntity → List CodeEntity
unfolding scope_matches
target_entities none entities = []
target_entities (some targets) entities =
    filter (λ (entity : CodeEntity). any (scope_matches entity) targets) entities

pub record Found : Type 0 where
  pub entity : CodeEntity
  pub score : ℕ
  pub reasons : List ImpactReason

pub record Visit : Type 0 where
  pub id : String
  pub depth : ℕ
  pub path : List String

-- What `graphTraversal` changes.
pub record Traversal : Type 0 where
  pub found : Dict Found
  pub queue : List Visit
  pub truncated : Bool

abbrev pub same_kind : CodeEdgeKind → CodeEdgeKind → Bool
same_kind a b = str_eq (kind_text a) (kind_text b)

-- The edges that are not left out by the bounds.
abbrev pub is_allowed : ImpactBounds → CodeEdge → Bool
is_allowed bounds edge =
    any (λ (k : CodeEdgeKind). same_kind k edge.kind) bounds.allowed_edge_kinds
    && leb (confidence_rank bounds.minimum_confidence) (confidence_rank edge.confidence)

abbrev pub is_contains : CodeEdge → Bool
is_contains edge = same_kind edge.kind CodeEdgeKind.contains

-- The incoming edges but those of containment, and then the outgoing ones of containment.
unfoldable pub adjacent : ImpactBounds → List CodeEdge → String → List CodeEdge
adjacent bounds edges id =
    filter (λ (e : CodeEdge). is_allowed bounds e && (str_eq e.target id && not (is_contains e)))
      edges
    ++ filter (λ (e : CodeEdge). is_allowed bounds e && (str_eq e.source id && is_contains e)) edges

-- `byId.get(id)`: the last of the entities with this identifier.
unfoldable pub entity_of : List CodeEntity → String → Option CodeEntity
entity_of [] id = none
entity_of (entity ∷ entities) id = elim (entity_of entities id) [
  | some later ↦ some later
  | none ↦ if str_eq entity.id id then some entity else none
]

abbrev pub edge_score : ℕ → CodeEdge → ℕ
edge_score depth edge =
    max 1 (80 - depth * 15 - (if same_kind edge.kind CodeEdgeKind.calls then 10 else 0))

unfoldable pub edge_reason : Visit → CodeEdge → CodeEntity → ImpactReason
edge_reason current edge next = record {
  code = ImpactReasonCode.graph_edge;
  score = edge_score current.depth edge;
  explanation = text_append (kind_text edge.kind) (
      text_append " " (
        text_append (confidence_text edge.confidence)
          (text_append " edge from " (text_append current.id (text_append " to " next.id)))));
  entity_path = current.path ++ next.id ∷ [];
}

abbrev pub other_end : Visit → CodeEdge → String
other_end current edge = if str_eq edge.source current.id then edge.target else edge.source

abbrev pub found_again : Found → ImpactReason → Found
found_again f r = record f { score = max f.score r.score; reasons = f.reasons ++ r ∷ [] }

abbrev pub found_first : CodeEntity → ImpactReason → Found
found_first next r = record { entity = next; score = r.score; reasons = r ∷ [] }

abbrev pub next_visit : Visit → CodeEntity → Visit
next_visit current next = record {
  id = next.id;
  depth = suc current.depth;
  path = current.path ++ next.id ∷ [];
}

-- What the loop over the edges does for the entity at the other end of one.
unfoldable pub reach : ImpactBounds → Visit → CodeEdge → CodeEntity → Traversal → Traversal
unfolding edge_reason get put
reach bounds current edge next t =
    let r = edge_reason current edge next in
    elim (get next.id t.found) [
      | some f ↦ record t { found = put next.id (found_again f r) t.found }
      | none ↦
          if leb bounds.max_entities (length t.found)
          then record t { truncated = true }
          else record t {
            found = put next.id (found_first next r) t.found;
            queue = t.queue ++ next_visit current next ∷ [];
          }
    ]

-- `for (const edge of adjacent)`
unfoldable pub reach_all :
    ImpactBounds → List CodeEntity → Visit → List CodeEdge → Traversal → Traversal
unfolding entity_of reach
reach_all bounds entities current [] t = t
reach_all bounds entities current (edge ∷ edges) t =
    elim (entity_of entities (other_end current edge)) [
      | none ↦ reach_all bounds entities current edges t
      | some next ↦ reach_all bounds entities current edges (reach bounds current edge next t)
    ]

abbrev pub target_found : CodeEntity → Found
target_found target = record {
  entity = target;
  score = 95;
  reasons =
      record {
        code = ImpactReasonCode.exact_scope_overlap;
        score = 95;
        explanation = text_append "intent scope exactly matches " target.display_name;
        entity_path = target.id ∷ [];
      }
      ∷ [];
}

unfoldable pub put_targets : List CodeEntity → Dict Found → Dict Found
unfolding put
put_targets [] found = found
put_targets (target ∷ targets) found =
    put_targets targets (put target.id (target_found target) found)

abbrev pub first_visit : CodeEntity → Visit
first_visit target = record { id = target.id; depth = 0; path = target.id ∷ [] }

abbrev pub start : List CodeEntity → Traversal
start targets = record {
  found = put_targets targets [];
  queue = map first_visit targets;
  truncated = false;
}

-- One turn of the loop over the queue, whose first element has been taken away.
unfoldable pub turn : ImpactBounds → List CodeEntity → List CodeEdge → Visit → Traversal → Traversal
unfolding adjacent reach_all
turn bounds entities edges current t =
    if leb bounds.max_depth current.depth
    then t
    else reach_all bounds entities current (adjacent bounds edges current.id) t

-- `while (queue.length > 0)`
unfoldable pub traverse : ℕ → ImpactBounds → List CodeEntity → List CodeEdge → Traversal → Traversal
unfolding turn
traverse zero bounds entities edges t = t
traverse (suc fuel) bounds entities edges t = elim t.queue [
  | [] ↦ t
  | current ∷ rest ↦
      traverse fuel bounds entities edges
        (turn bounds entities edges current (record t { queue = rest }))
]

-- Each entity found stands in the queue once, and each target.
abbrev pub traversal_fuel : ImpactBounds → List CodeEntity → ℕ
traversal_fuel bounds targets = suc (length targets + bounds.max_entities)

-- `graphTraversal`
unfoldable pub graph_traversal :
    List CodeEntity → List CodeEntity → List CodeEdge → ImpactBounds → Traversal
unfolding traverse put_targets
graph_traversal targets entities edges bounds =
    traverse (traversal_fuel bounds targets) bounds entities edges (start targets)
