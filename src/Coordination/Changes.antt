-- ===== src/Coordination/Changes.antt =====
-- `recordChangeReceipt`, and the impact of intents: `emitImpact` and `refreshImpactsForWorktree`
-- (packages/coordination-runtime/src/runtime.ts).
use my_pi.Prelude.{
  ℕ, String, Option, none, some, List, [], ◌∷◌, Bool, true, ◌&&◌, not, str_eq, if◌then◌else◌, map,
  filter, any,
}
use my_pi.Prelude.Text.{is_given, is_text, truthy}
use my_pi.Prelude.Outcome.{Outcome, ok, err, project_not_found, evaluation_result_conflict}
use my_pi.Coordination.Model.{
  WorkItem, WorkDependency, Intent, ScopeRef, AgentSession, ChangeReceipt, Actor, is_active_intent,
}
use my_pi.Coordination.Event.{ImpactRecord, impact_detected, change_event}
use my_pi.Coordination.Store.{CoordinationDb, put_projection, get_projection, list_projections}
use my_pi.Coordination.Tx.{Tx, pure, modify, ◌>>◌, transact}
use my_pi.Coordination.Work.{Runtime, emit, record_values, all_dependencies, session_expired}
use my_pi.Coordination.Create.{type_text}
use my_pi.Impact.Model.{CodeEntity, CodeEdge}
use my_pi.Impact.Model
use my_pi.Impact.Engine.{ImpactInput, ImpactResult, GivenBounds}
use my_pi.Impact.Engine

module _ (rt : Runtime) where
  -- `completedAt ?? publishedAt`
  abbrev pub recorded_at : ChangeReceipt → ℕ
  recorded_at r = elim r.completed_at [ none ↦ r.published_at | some t ↦ t ]

  abbrev pub with_receipt : ChangeReceipt → CoordinationDb → CoordinationDb
  with_receipt r db = record db {
    change_receipts = put_projection r.id r (some rt.project_id) (recorded_at r) db.change_receipts;
  }

  -- The callback of `recordChangeReceipt`.
  unfoldable pub record_change_receipt_tx : ChangeReceipt → ℕ → Tx ChangeReceipt
  record_change_receipt_tx r now = do
    modify (with_receipt r)
    emit rt now (Actor.system "coordination-runtime") (change_event r.status r)
    pure r

  -- `receipt.projectId !== undefined && receipt.projectId !== this.projectId`, negated.
  abbrev pub is_own : ChangeReceipt → Bool
  is_own r = elim r.project_id [ none ↦ true | some p ↦ str_eq p rt.project_id ]

  -- `recordChangeReceipt`
  unfoldable pub record_change_receipt :
      ChangeReceipt → ℕ → CoordinationDb → Outcome ChangeReceipt × CoordinationDb
  unfolding record_change_receipt_tx
  record_change_receipt r now db =
      if is_own r
      then (if is_given r.receipt_digest
          then transact (record_change_receipt_tx r now) db
          else (err evaluation_result_conflict, db))
      else (err project_not_found, db)

module _ (rt : Runtime) where
  abbrev pub with_impact : ImpactRecord → ℕ → CoordinationDb → CoordinationDb
  with_impact i now db = record db {
    impact_results = put_projection i.intent_id i (some rt.project_id) now db.impact_results;
  }

  -- The transaction of `emitImpact`.
  unfoldable pub impact_tx : ImpactRecord → ℕ → Tx (Unit {0})
  impact_tx i now = do
    modify (with_impact i now)
    emit rt now (Actor.system "impact-engine") (impact_detected i)
    pure tt

-- The records of the coordination store as the impact engine takes them.
abbrev pub scope_for_impact : ScopeRef → Model.ScopeRef
scope_for_impact (ScopeRef.path s) = Model.ScopeRef.path s
scope_for_impact (ScopeRef.directory s) = Model.ScopeRef.directory s
scope_for_impact (ScopeRef.module_name s) = Model.ScopeRef.module_scope s
scope_for_impact (ScopeRef.symbol s) = Model.ScopeRef.symbol_scope s
scope_for_impact (ScopeRef.package_name s) = Model.ScopeRef.package_scope s

abbrev pub intent_for_impact : Intent → Engine.Intent
intent_for_impact i = record {
  work_item_id = i.work_item_id;
  targets = map scope_for_impact i.targets;
}

abbrev pub item_for_impact : WorkItem → Engine.WorkItem
item_for_impact w = record { id = w.id; assignee = w.assignee }

abbrev pub dependency_for_impact : WorkDependency → Engine.WorkDependency
dependency_for_impact d = record { source = d.from; target = d.to; type = type_text d.type }

abbrev pub no_bounds : GivenBounds
no_bounds = record {
  max_depth = none;
  max_entities = none;
  allowed_edge_kinds = none;
  minimum_confidence = none;
}

-- `getCodeState` of a worktree and `ImpactEngine.compute` are arguments.
module _ (rt : Runtime) (code_state : String → List CodeEntity × List CodeEdge)
    (compute : ImpactInput → Outcome ImpactResult) where
  abbrev pub impact_input : Intent → List CodeEntity × List CodeEdge → CoordinationDb → ImpactInput
  impact_input intent (entities, edges) db = record {
    subject = intent.id;
    intent = some (intent_for_impact intent);
    entities = entities;
    edges = edges;
    work_items = map item_for_impact (record_values (list_projections rt.project_id db.work_items));
    dependencies = map dependency_for_impact (all_dependencies rt db);
    active_intents = map intent_for_impact (
        filter (λ (i : Intent). is_active_intent i.state)
          (record_values (list_projections rt.project_id db.intents)));
    bounds = no_bounds;
  }

  -- `emitImpact` for a worktree; whatever is thrown is caught.
  unfoldable pub impact_in : Intent → ℕ → String → CoordinationDb → CoordinationDb
  unfolding impact_tx
  impact_in intent now worktree db = elim ((code_state worktree).0) [
    | [] ↦ db
    | entity ∷ entities ↦ elim (compute (impact_input intent (code_state worktree) db)) [
      | err code ↦ db
      | ok impact ↦
          (transact (impact_tx rt (record { intent_id = intent.id; impact = impact }) now) db).1
    ]
  ]

  -- The worktree of a session, if it is there and not empty.
  abbrev pub worktree_of : Option AgentSession → Option String
  worktree_of none = none
  worktree_of (some session) = session.worktree_id

  -- `emitImpact`
  unfoldable pub emit_impact : Intent → ℕ → CoordinationDb → CoordinationDb
  unfolding impact_in
  emit_impact intent now db =
      if is_given intent.work_item_id
      then elim (worktree_of (get_projection intent.agent_session_id db.agent_sessions)) [
        | none ↦ db
        | some worktree ↦ (if truthy worktree then impact_in intent now worktree db else db)
      ]
      else db

  -- The loop of `refreshImpactsForWorktree`, which reads the clock for each impact.
  unfoldable pub refresh_impacts : List String → List Intent → ℕ → CoordinationDb → CoordinationDb
  unfolding emit_impact
  refresh_impacts active [] now db = db
  refresh_impacts active (i ∷ is) now db = refresh_impacts active is now (
      if is_active_intent i.state && any (λ (s : String). str_eq s i.agent_session_id) active
      then emit_impact i now db
      else db)

  abbrev pub active_sessions : String → ℕ → CoordinationDb → List String
  active_sessions worktree now db =
      map (λ (s : AgentSession). s.id)
        (filter
          (λ (s : AgentSession). is_text s.worktree_id worktree && not (session_expired s now))
          (record_values (list_projections rt.project_id db.agent_sessions)))

  -- `refreshImpactsForWorktree`, at one time, when nothing comes between.
  unfoldable pub refresh_impacts_for_worktree : String → ℕ → CoordinationDb → CoordinationDb
  unfolding refresh_impacts
  refresh_impacts_for_worktree worktree now db =
      refresh_impacts (active_sessions worktree now db)
        (record_values (list_projections rt.project_id db.intents)) now db
