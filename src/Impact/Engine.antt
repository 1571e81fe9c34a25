-- ===== src/Impact/Engine.antt =====
-- `ImpactEngine.compute` (packages/impact-engine/src/engine.ts). The order of `localeCompare`, the
-- decimal text of a number, the quotient of the targets and the entities found, rounded
-- to three digits, and the hash of the
-- graph are arguments.
pub mod Agents
use Prim.Native.Nat.{max}
use Prim.Native.String.{◌++◌ as text_append}
use my_pi.Prelude.{
  ℕ, ◌+◌, String, Option, none, some, List, [], ◌∷◌, ◌++◌, Bool, true, false, ◌&&◌, ◌||◌, not, leb,
  ltb, ◌==◌, str_eq, if◌then◌else◌, length, filter, any, map,
}
use my_pi.Prelude.Dict.{Dict, get, put, values}
use my_pi.Prelude.Text.{truthy, is_text}
use my_pi.Prelude.Outcome.{Outcome, ok, err, require, ◌>>◌, ◌>>=◌, plain_error}
use my_pi.Impact.Model.{
  CodeEdgeKind, CodeEdgeConfidence, CodeEntity, CodeEdge, ScopeRef, ImpactBounds, ImpactReason,
  ImpactReasonCode, default_bounds,
}
use my_pi.Impact.Traversal.{Found, Traversal, scope_matches, target_entities, graph_traversal}

-- The fields of work items, dependencies and intents that the engine reads.
pub record WorkItem : Type 0 where
  pub id : String
  pub assignee : Option String

pub record WorkDependency : Type 0 where
  pub source : String
  pub target : String
  pub type : String

pub record Intent : Type 0 where
  pub work_item_id : Option String
  pub targets : List ScopeRef

-- The bounds that the input gives; the others are the defaults.
pub record GivenBounds : Type 0 where
  pub max_depth : Option ℕ
  pub max_entities : Option ℕ
  pub allowed_edge_kinds : Option (List CodeEdgeKind)
  pub minimum_confidence : Option CodeEdgeConfidence

pub record ImpactInput : Type 0 where
  pub subject : String
  pub intent : Option Intent
  pub entities : List CodeEntity
  pub edges : List CodeEdge
  pub work_items : List WorkItem
  pub dependencies : List WorkDependency
  pub active_intents : List Intent
  pub bounds : GivenBounds

-- `AffectedWorkItem`, `AffectedAgent` and `AffectedEntity`, which differ in what `id` is of.
pub record Affected : Type 0 where
  pub id : String
  pub score : ℕ
  pub reasons : List ImpactReason

pub record ImpactResult : Type 0 where
  pub subject : String
  pub affected_work_items : List Affected
  pub affected_agents : List Affected
  pub affected_entities : List Affected
  pub confidence : String
  pub reasons : List ImpactReason
  pub graph_version : String
  pub truncated : Bool

abbrev pub or_value {ℓ} : {A : Type ℓ} → A → Option A → A
or_value d none = d
or_value d (some a) = a

-- `{ ...DEFAULT_BOUNDS, ...input.bounds }`
abbrev pub with_defaults : GivenBounds → ImpactBounds
with_defaults given = record {
  max_depth = or_value default_bounds.max_depth given.max_depth;
  max_entities = or_value default_bounds.max_entities given.max_entities;
  allowed_edge_kinds = or_value default_bounds.allowed_edge_kinds given.allowed_edge_kinds;
  minimum_confidence = or_value default_bounds.minimum_confidence given.minimum_confidence;
}

abbrev pub code_text : ImpactReasonCode → String
code_text ImpactReasonCode.explicit_work_dependency = "explicit_work_dependency"
code_text ImpactReasonCode.same_work_item = "same_work_item"
code_text ImpactReasonCode.exact_scope_overlap = "exact_scope_overlap"
code_text ImpactReasonCode.graph_edge = "graph_edge"
code_text ImpactReasonCode.direct_target_agent = "direct_target_agent"

-- `sort`, which is stable, by a test whether one comes before another.
unfoldable pub insert_before {ℓ} : {A : Type ℓ} → (A → A → Bool) → A → List A → List A
insert_before before x [] = x ∷ []
insert_before before x (y ∷ ys) =
    let rest = insert_before before x ys in if before y x then y ∷ rest else x ∷ y ∷ ys

unfoldable pub sort_before {ℓ} : {A : Type ℓ} → (A → A → Bool) → List A → List A
unfolding insert_before
sort_before before [] = []
sort_before before (x ∷ xs) = insert_before before x (sort_before before xs)

-- The loop of `mergeReasons`: of the reasons with one code and explanation the best is kept.
unfoldable pub best_reasons : List ImpactReason → Dict ImpactReason → Dict ImpactReason
unfolding get put
best_reasons [] m = m
best_reasons (r ∷ rs) m =
    let key = text_append (code_text r.code) (text_append "|" r.explanation) in
    elim (get key m) [
      | none ↦ best_reasons rs (put key r m)
      | some previous ↦ best_reasons rs (if ltb previous.score r.score then put key r m else m)
    ]

-- `Math.max(...scores)`
unfoldable pub greatest : List ImpactReason → ℕ
greatest [] = 0
greatest (r ∷ rs) = max r.score (greatest rs)

abbrev pub explained : ImpactReasonCode → ℕ → String → ImpactReason
explained code score explanation = record {
  code = code;
  score = score;
  explanation = explanation;
  entity_path = [];
}

abbrev pub own_work_item : ImpactInput → Option String
own_work_item input = elim input.intent [ none ↦ none | some intent ↦ intent.work_item_id ]

abbrev pub reason_when : Bool → ImpactReason → List ImpactReason
reason_when true r = r ∷ []
reason_when false r = []

unfoldable pub dependency_reasons :
    Option String → WorkItem → List WorkDependency → List ImpactReason
dependency_reasons own item [] = []
dependency_reasons own item (d ∷ ds) =
    reason_when
      ((is_text own d.source || is_text own d.target)
        && (str_eq d.source item.id || str_eq d.target item.id))
      (explained ImpactReasonCode.explicit_work_dependency 100 (
        text_append "explicit "
          (text_append d.type " dependency connects this work item to the intent work item")))
    ++ dependency_reasons own item ds

-- The entities found that a scope of the intent matches.
abbrev pub overlap : List Found → Intent → List Found
overlap found intent =
    filter (λ (f : Found). any (λ (scope : ScopeRef). scope_matches f.entity scope) intent.targets)
      found

unfoldable pub overlap_reasons :
    (ℕ → String) → List Found → WorkItem → List Intent → List ImpactReason
unfolding scope_matches
overlap_reasons decimal found item [] = []
overlap_reasons decimal found item (intent ∷ intents) =
    reason_when (is_text intent.work_item_id item.id && not (length (overlap found intent) == 0)) (
      explained ImpactReasonCode.exact_scope_overlap 95 (
        text_append "active intent for this work item overlaps "
          (text_append (decimal (length (overlap found intent))) " impacted code entities")))
    ++ overlap_reasons decimal found item intents

-- The reasons that `workItemReasons` collects for an item.
unfoldable pub item_reasons : (ℕ → String) → ImpactInput → List Found → WorkItem → List ImpactReason
unfolding dependency_reasons overlap_reasons
item_reasons decimal input found item =
    reason_when
      (elim (own_work_item input) [ none ↦ false | some id ↦ truthy id && str_eq item.id id ])
      (explained ImpactReasonCode.same_work_item 100 "the intent belongs to this work item")
    ++ dependency_reasons (own_work_item input) item input.dependencies
    ++ overlap_reasons decimal found item input.active_intents

-- `workItemReasons`
unfoldable pub work_item_reasons :
    (ℕ → String)
    → ImpactInput
    → List Found
    → List WorkItem
    → Dict (List ImpactReason)
    → Dict (List ImpactReason)
unfolding item_reasons put
work_item_reasons decimal input found [] m = m
work_item_reasons decimal input found (item ∷ items) m =
    let reasons = item_reasons decimal input found item in
    work_item_reasons decimal input found items
      (elim reasons [ [] ↦ m | r ∷ rs ↦ put item.id (r ∷ rs) m ])

module _ (precedes : String → String → Bool) where
  abbrev pub reason_first : ImpactReason → ImpactReason → Bool
  reason_first a b =
      ltb b.score a.score || (b.score == a.score && precedes (code_text a.code) (code_text b.code))

  abbrev pub affected_first : Affected → Affected → Bool
  affected_first a b = ltb b.score a.score || (b.score == a.score && precedes a.id b.id)

  -- `mergeReasons`
  unfoldable pub merge_reasons : List ImpactReason → List ImpactReason
  unfolding best_reasons values sort_before
  merge_reasons reasons = sort_before reason_first (values (best_reasons reasons []))

  unfoldable pub work_items_with : Dict (List ImpactReason) → List WorkItem → List Affected
  unfolding merge_reasons greatest get
  work_items_with m [] = []
  work_items_with m (item ∷ items) =
      let rest = work_items_with m items in
      let reasons = merge_reasons (or_value [] (get item.id m)) in
      elim reasons [
        | [] ↦ rest
        | r ∷ rs ↦ record { id = item.id; score = greatest (r ∷ rs); reasons = r ∷ rs } ∷ rest
      ]

  abbrev pub entity_affected : Found → Affected
  unfolding merge_reasons
  entity_affected f = record {
    id = f.entity.id;
    score = f.score;
    reasons = merge_reasons f.reasons;
  }

  -- `affectedWorkItems.find(...)`
  unfoldable pub find_affected : String → List Affected → Option Affected
  find_affected id [] = none
  find_affected id (a ∷ rest) =
      let later = find_affected id rest in if str_eq a.id id then some a else later

  abbrev pub joined_impact : String → Option Affected → Affected → Affected
  joined_impact agent previous impact = record {
    id = agent;
    score = max (elim previous [ none ↦ 0 | some p ↦ p.score ]) impact.score;
    reasons = elim previous [ none ↦ [] | some p ↦ p.reasons ] ++ impact.reasons;
  }

  -- The loop that fills `agentMap`; the reasons are merged at its end.
  unfoldable pub agent_map : List Affected → List WorkItem → Dict Affected → Dict Affected
  unfolding find_affected get put
  agent_map affected [] m = m
  agent_map affected (item ∷ items) m = elim item.assignee [
    | none ↦ agent_map affected items m
    | some agent ↦ elim (find_affected item.id affected) [
      | none ↦ agent_map affected items m
      | some impact ↦
          agent_map affected items
            (if truthy agent then put agent (joined_impact agent (get agent m) impact) m else m)
    ]
  ]

  abbrev pub merged : Affected → Affected
  unfolding merge_reasons
  merged a = record a { reasons = merge_reasons a.reasons }

  unfoldable pub all_reasons : List Affected → List ImpactReason
  all_reasons [] = []
  all_reasons (a ∷ rest) = a.reasons ++ all_reasons rest

  module _ (decimal : ℕ → String) (confidence : ℕ → ℕ → String)
      (hash_graph : List CodeEntity → List CodeEdge → String) where
    -- The result for the targets and what the traversal has found.
    unfoldable pub result_of : ImpactInput → List CodeEntity → Traversal → ImpactResult
    unfolding work_item_reasons work_items_with agent_map all_reasons sort_before values
        merge_reasons
    result_of input targets t =
        let found = values t.found in
        let items = sort_before affected_first (
          work_items_with (work_item_reasons decimal input found input.work_items [])
            input.work_items) in
        let entities = sort_before affected_first (map entity_affected found) in
        record {
          subject = input.subject;
          affected_work_items = items;
          affected_agents =
              sort_before affected_first
                (map merged (values (agent_map items input.work_items [])));
          affected_entities = entities;
          confidence = confidence (length targets) (length found);
          reasons = merge_reasons (all_reasons entities ++ all_reasons items);
          graph_version = hash_graph input.entities input.edges;
          truncated = t.truncated;
        }

    -- `ImpactEngine.compute`
    unfoldable pub compute : ImpactInput → Outcome ImpactResult
    unfolding target_entities graph_traversal result_of
    compute input = do
      let bounds = with_defaults input.bounds
      require (leb bounds.max_depth 20) plain_error
      require (leb 1 bounds.max_entities && leb bounds.max_entities 100000) plain_error
      let targets =
          target_entities (elim input.intent [ none ↦ none | some intent ↦ some intent.targets ])
            input.entities
      ok (result_of input targets (graph_traversal targets input.entities input.edges bounds))
