-- ===== src/Coordination/Store.antt =====
-- The coordination store (packages/coordination-store/src/sqlite-store.ts and projections.ts): the
-- event log and the projection tables, as the rows that SQLite holds. `projection_records` is one
-- table for each kind; payloads are the values that their JSON texts stand for.
pub mod Sequences
pub mod Events
pub mod Numbering
pub mod Pages
pub mod Bounds
pub mod Idempotency
use Prim.Native.Nat.{max, Ordering}
use Prim.Native.String.{compare as compare_text}
use my_pi.Prelude.{
  ℕ, ◌+◌, ◌-◌, ◌^◌, String, Option, none, some, List, [], ◌∷◌, ◌++◌, Bool, true, false, ◌&&◌, ◌||◌,
  ltb, leb, str_eq, if◌then◌else◌, any, length,
}
use my_pi.Prelude.Dict.{Dict, get, put}
use my_pi.Prelude.Text.{js_length, truthy, string_field, is_text}
use my_pi.Prelude.Outcome.{
  Outcome, ok, err, ErrorCode, invalid_argument, output_limit, coordination_store_failure,
}
use my_pi.Coordination.Model.{
  WorkItem, WorkDependency, AgentSession, Project, Intent, Scope, EvaluationRun, AcceptanceDecision,
  EvaluationSpec, Actor, ContextArtifact, Repository, Worktree, ChangeReceipt, PublicationStatus,
}
use my_pi.Impact.Engine.{ImpactResult}
use my_pi.Coordination.Event.{
  WorkItemEvent, IntentEvent, ScopeEvent, ImpactRecord, EventBody, project_opened, agent_joined,
  work_item_event, intent_event, scope_event, context_published, impact_detected, change_event,
  other_event, work_item_event_type, event_type, CoordinationEvent, AppendEventInput,
}

-- A row of `projection_records`.
pub record ProjectionRow {ℓ} (V : Type ℓ) : Type ℓ where
  pub project_id : Option String
  pub value : V
  pub updated_at : ℕ

abbrev pub Projection {ℓ} : Type ℓ → Type ℓ
Projection V = Dict (ProjectionRow V)

pub record CoordinationDb : Type 0 where
  pub event_log : List CoordinationEvent
  pub projects : Projection Project
  pub repositories : Projection Repository
  pub worktrees : Projection Worktree
  pub agent_sessions : Projection AgentSession
  pub work_items : Projection WorkItem
  pub work_dependencies : Projection WorkDependency
  pub intents : Projection Intent
  pub scopes : Projection Scope
  pub context_artifacts : Projection ContextArtifact
  pub evaluation_specs : Projection EvaluationSpec
  pub evaluation_runs : Projection EvaluationRun
  pub evaluation_decisions : Projection AcceptanceDecision
  pub impact_results : Projection ImpactRecord
  pub change_receipts : Projection ChangeReceipt

module _ {ℓ} {V : Type ℓ} where
  -- `putProjection`, for the table of its kind: an upsert.
  unfoldable pub put_projection : String → V → Option String → ℕ → Projection V → Projection V
  put_projection id value project_id updated_at table =
      put id (record { project_id = project_id; value = value; updated_at = updated_at }) table

  abbrev pub row_value : Option (ProjectionRow V) → Option V
  row_value none = none
  row_value (some row) = some row.value

  -- `getProjection`
  unfoldable pub get_projection : String → Projection V → Option V
  get_projection id table = row_value (get id table)

  abbrev pub insert_by_id : String × V → List (String × V) → List (String × V)
  insert_by_id (k, v) [] = (k, v) ∷ []
  insert_by_id (k, v) ((j, w) ∷ rest) =
      let later = insert_by_id (k, v) rest in
      elim (compare_text j k) [ Ordering.lt ↦ (j, w) ∷ later | _ ↦ (k, v) ∷ (j, w) ∷ rest ]

  -- The rows of a project, `ORDER BY id`.
  unfoldable pub rows_of : String → Projection V → List (String × V)
  rows_of project_id [] = []
  rows_of project_id ((k, row) ∷ rest) =
      let others = rows_of project_id rest in
      if is_text row.project_id project_id then insert_by_id (k, row.value) others else others

  -- `listProjections`, the identifiers with the values.
  unfoldable pub list_projections : String → Projection V → List (String × V)
  unfolding rows_of
  list_projections project_id table = rows_of project_id table

-- The largest sequence number of a project's events, 0 if it has none.
unfoldable pub max_sequence : String → List CoordinationEvent → ℕ
max_sequence project_id [] = 0
max_sequence project_id (e ∷ es) =
    let rest = max_sequence project_id es in
    if str_eq e.project_id project_id then max e.sequence rest else rest

abbrev pub max_safe_integer : ℕ
max_safe_integer = 2 ^ 53 - 1

-- `nextSequence`
unfoldable pub next_sequence : String → List CoordinationEvent → Outcome ℕ
unfolding max_sequence
next_sequence project_id es =
    let current = max_sequence project_id es in
    if leb max_safe_integer current then err output_limit else ok (current + 1)

-- `stringField(payload, "projectId") ?? event.projectId`
abbrev pub owner_project : String → CoordinationEvent → String
owner_project p e = if truthy p then p else e.project_id

-- The same for a `projectId` that may be missing.
abbrev pub given_project : Option String → CoordinationEvent → String
given_project none e = e.project_id
given_project (some p) e = owner_project p e

-- `applyEventProjection`
unfoldable pub apply_event_projection :
    EventBody → CoordinationEvent → CoordinationDb → CoordinationDb
apply_event_projection (project_opened p) e db = record db {
  projects =
      put_projection (if truthy p.id then p.id else e.project_id) p (some e.project_id)
        e.occurred_at db.projects;
}
apply_event_projection (agent_joined s) e db =
    if truthy s.id
    then record db {
      agent_sessions =
          put_projection s.id s (some (owner_project s.project_id e)) e.occurred_at
            db.agent_sessions;
    }
    else db
apply_event_projection (work_item_event t w) e db =
    if truthy w.id
    then record db {
      work_items =
          put_projection w.id w (some (owner_project w.project_id e)) e.occurred_at db.work_items;
    }
    else db
apply_event_projection (intent_event t i) e db =
    if truthy i.id
    then record db {
      intents =
          put_projection i.id i (some (owner_project i.project_id e)) e.occurred_at db.intents;
    }
    else db
apply_event_projection (scope_event t s) e db =
    if truthy s.id
    then record db {
      scopes = put_projection s.id s (some (owner_project s.project_id e)) e.occurred_at db.scopes;
    }
    else db
apply_event_projection (context_published a) e db =
    if truthy a.id
    then record db {
      context_artifacts =
          put_projection a.id a (some e.project_id) e.occurred_at db.context_artifacts;
    }
    else db
apply_event_projection (impact_detected i) e db =
    if truthy i.intent_id
    then record db {
      impact_results =
          put_projection i.intent_id i (some e.project_id) e.occurred_at db.impact_results;
    }
    else db
apply_event_projection (change_event status r) e db =
    if truthy r.id
    then record db {
      change_receipts =
          put_projection r.id r (some (given_project r.project_id e)) e.occurred_at
            db.change_receipts;
    }
    else db
apply_event_projection (other_event t) e db = db

-- The row that `appendEventInTransaction` inserts.
abbrev pub event_of : AppendEventInput → ℕ → String → CoordinationEvent
event_of input sequence event_id = record {
  project_id = input.project_id;
  sequence = sequence;
  event_id = event_id;
  body = input.body;
  occurred_at = input.occurred_at;
  actor = input.actor;
  correlation_id = none;
  causation_id = none;
}

-- `!input.projectId || !input.eventType || input.eventType.length > 128`, negated.
abbrev pub append_ok : AppendEventInput → Bool
append_ok input =
    truthy input.project_id
    && truthy (event_type input.body)
    && leb (js_length (event_type input.body)) 128

abbrev pub given_or : Option String → String → String
given_or none s = s
given_or (some t) s = t

-- The insertion, where `event_id` is unique, and the projection.
unfoldable pub insert_event :
    CoordinationEvent → CoordinationDb → Outcome (CoordinationEvent × CoordinationDb)
insert_event e db =
    if any (λ o. str_eq o.event_id e.event_id) db.event_log
    then err coordination_store_failure
    else ok (e, apply_event_projection e.body e (record db { event_log = db.event_log ++ e ∷ [] }))

-- `appendEventInTransaction`; `create_event_id n` is what `createEventId()` returns for the event
-- that follows n stored ones.
unfoldable pub append_event :
    (ℕ → String) → AppendEventInput → CoordinationDb → Outcome (CoordinationEvent × CoordinationDb)
unfolding next_sequence
append_event create_event_id input db =
    if append_ok input
    then elim (next_sequence input.project_id db.event_log) [
      | err c ↦ err c
      | ok sequence ↦
          insert_event
            (event_of input sequence
              (given_or input.event_id (create_event_id (length db.event_log))))
            db
    ]
    else err invalid_argument
