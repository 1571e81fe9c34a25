-- ===== src/Impact/Samples.antt =====
-- Three files of which two import the third, and the theorems at them.
use Prim.Native.Nat.{max}
use my_pi.Prelude.{ℕ, refl, none, some, ◌≡◌, ◌≤◌, String, List, [], ◌∷◌, length}
use my_pi.Impact.Model.{
  ScopeRef, CodeEntityKind, CodeEdgeKind, CodeEdgeConfidence, CodeEntity, CodeEdge, default_bounds,
}
use my_pi.Impact.Traversal.{Traversal, graph_traversal}
use my_pi.Prelude.Outcome.{ok}
use my_pi.Prelude.Sorting.{text_before}
use my_pi.Impact.Engine.{ImpactInput, ImpactResult, result_of, compute}
use my_pi.Impact.Bounds.{graph_traversal-IsWithin}

abbrev file : String → CodeEntity
file id = record {
  id = id;
  kind = CodeEntityKind.file;
  stable_key = id;
  display_name = id;
  path = some id;
}

abbrev imports : String → String → CodeEdge
imports source target = record {
  source = source;
  target = target;
  kind = CodeEdgeKind.imports;
  confidence = CodeEdgeConfidence.strong;
}

abbrev three_files : List CodeEntity
three_files = file "a" ∷ file "b" ∷ file "c" ∷ []

abbrev changed : Traversal
changed =
    graph_traversal (file "a" ∷ []) three_files (imports "b" "a" ∷ imports "c" "a" ∷ [])
      (record default_bounds { max_entities = 2 })

graph_traversal-IsWithin_example : (changed.queue ≡ []) × (length changed.found ≤ max 2 1)
graph_traversal-IsWithin_example =
    graph_traversal-IsWithin (file "a" ∷ []) three_files (imports "b" "a" ∷ imports "c" "a" ∷ [])
      (record default_bounds { max_entities = 2 })

abbrev input : ImpactInput
input = record {
  subject = "intent";
  intent = some (record { work_item_id = some "w1"; targets = ScopeRef.path "a" ∷ [] });
  entities = three_files;
  edges = imports "b" "a" ∷ [];
  work_items =
      record { id = "w1"; assignee = some "agent" }
      ∷ record { id = "w2"; assignee = some "other" }
      ∷ [];
  dependencies = [];
  active_intents = [];
  bounds = record {
    max_depth = none;
    max_entities = none;
    allowed_edge_kinds = none;
    minimum_confidence = none;
  };
}

abbrev number : ℕ → String
number n = "n"

abbrev quotient : ℕ → ℕ → String
quotient m n = "0.5"

abbrev hash : List CodeEntity → List CodeEdge → String
hash entities edges = "hash"

abbrev result : ImpactResult
unfolding result_of graph_traversal
result =
    result_of text_before number quotient hash input (file "a" ∷ [])
      (graph_traversal (file "a" ∷ []) three_files (imports "b" "a" ∷ []) default_bounds)

input-result : compute text_before number quotient hash input ≡ ok result
unfolding compute result
input-result = refl
