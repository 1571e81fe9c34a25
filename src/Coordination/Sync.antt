-- ===== src/Coordination/Sync.antt =====
-- `sync` (packages/coordination-runtime/src/runtime.ts): the heartbeat of a session, and the events
-- since its last one by way of `listEvents` and the context router.
pub mod Delivery
use Prim.Native.Nat.{max}
use my_pi.Prelude.{
  ℕ, ◌*◌, String, Option, none, some, List, [], ◌∷◌, ◌++◌, Bool, ◌&&◌, leb, if◌then◌else◌, map,
  filter, any, str_eq,
}
use my_pi.Prelude.Int.{ℤ, pos}
use my_pi.Prelude.Dict.{Dict}
use my_pi.Prelude.Text.{is_text}
use my_pi.Prelude.Outcome.{Outcome, ok, err, invalid_argument, ◌>>=◌}
use my_pi.Coordination.Model.{WorkItem, WorkDependency, AgentSession, is_depends_on}
use my_pi.Coordination.Event.{
  CoordinationEvent, EventBody, project_opened, agent_joined, work_item_event, intent_event,
  scope_event, context_published, impact_detected, change_event, other_event, event_type,
}
use my_pi.Coordination.Store.{CoordinationDb, put_projection, list_projections, max_safe_integer}
use my_pi.Coordination.Store.Events.{EventQuery, EventPage, or_else, list_events}
use my_pi.Coordination.Tx.{Tx, modify, transact}
use my_pi.Coordination.Tx
use my_pi.Coordination.Work.{
  Runtime, dependency_blockers, record_values, index_items, all_dependencies, live_session,
}
use my_pi.Impact.Engine.{Affected}
use my_pi.Routing.Router.{
  EventPayload, RoutedEvent, ContextRouterInput, ContextRouteResult, route, contains,
}
use my_pi.Routing.Router

-- The fields of payloads that the context router reads.
abbrev pub no_fields : EventPayload
no_fields = record {
  id = none;
  agent_session_id = none;
  author_agent_session_id = none;
  session_id = none;
  assignee = none;
  work_item_id = none;
  supersedes = none;
  affected_work_items = [];
  affected_agents = [];
}

abbrev pub affected_ids : List Affected → List String
affected_ids affected = map (λ (a : Affected). a.id) affected

abbrev pub payload_of : EventBody → EventPayload
payload_of (project_opened p) = record no_fields { id = some p.id }
payload_of (agent_joined s) = record no_fields { id = some s.id }
payload_of (work_item_event t w) = record no_fields { id = some w.id; assignee = w.assignee }
payload_of (intent_event t i) = record no_fields {
  id = some i.id;
  agent_session_id = some i.agent_session_id;
  work_item_id = i.work_item_id;
}
payload_of (scope_event t s) = record no_fields {
  id = some s.id;
  agent_session_id = some s.agent_session_id;
}
payload_of (context_published a) = record no_fields {
  id = some a.id;
  author_agent_session_id = some a.author_agent_session_id;
  work_item_id = a.work_item_id;
  supersedes = a.supersedes;
}
payload_of (impact_detected i) = record no_fields {
  affected_work_items = affected_ids i.impact.affected_work_items;
  affected_agents = affected_ids i.impact.affected_agents;
}
payload_of (change_event status r) = record no_fields {
  id = some r.id;
  agent_session_id = r.agent_session_id;
}
payload_of (other_event t) = no_fields

-- An event as the router reads it.
abbrev pub for_router : CoordinationEvent → Router.CoordinationEvent
for_router e = record {
  event_id = e.event_id;
  event_type = event_type e.body;
  sequence = pos e.sequence;
  payload = payload_of e.body;
}

pub record SyncInput : Type 0 where
  pub agent_session_id : String
  pub since_sequence : Option ℕ
  pub max_events : Option ℕ
  pub max_bytes : Option ℕ

-- `WorkItemRef`
pub record WorkItemRef : Type 0 where
  pub id : String
  pub title : String

pub record SyncResult : Type 0 where
  pub project_id : String
  pub through_sequence : ℤ
  pub high_priority : List RoutedEvent
  pub normal_priority : List RoutedEvent
  pub blocked_by : List WorkItemRef
  pub warnings : List String

-- The tests of the input.
abbrev pub sync_input_ok : SyncInput → Bool
sync_input_ok input =
    leb 1 (or_else 100 input.max_events)
    && leb (or_else 100 input.max_events) 1000
    && leb 1 (or_else 1 input.max_bytes)
    && leb (or_else 1 input.max_bytes) (4 * 1024 * 1024)

module _ (rt : Runtime) (input : SyncInput) where
  -- The session with its new heartbeat; the copy of its identifier that is stored beside it is left
  -- out.
  abbrev pub with_heartbeat : ℕ → AgentSession → CoordinationDb → CoordinationDb
  with_heartbeat now session db = record db {
    agent_sessions =
        put_projection session.id (record session { heartbeat_at = now }) (some rt.project_id) now
          db.agent_sessions;
  }

  -- The transaction of `sync`.
  unfoldable pub heartbeat_tx : ℕ → ℕ → Tx (Unit {0})
  heartbeat_tx checked_at now =
      Tx.◌>>=◌ (live_session rt input.agent_session_id checked_at)
        (λ session. modify (with_heartbeat now session))

  abbrev pub assigned_items : List (String × WorkItem) → List WorkItem
  assigned_items records =
      filter (λ (w : WorkItem). is_text w.assignee input.agent_session_id) (record_values records)

  abbrev pub ids_of : List WorkItem → List String
  ids_of items = map (λ (w : WorkItem). w.id) items

  abbrev pub dependency_ids : List String → List WorkDependency → List String
  dependency_ids ids deps =
      map (λ (d : WorkDependency). d.to)
        (filter (λ (d : WorkDependency). contains ids d.from && is_depends_on d.type) deps)

  unfoldable pub blocked_by_of :
      List WorkDependency → Dict WorkItem → List WorkItem → List WorkItemRef
  blocked_by_of deps items [] = []
  blocked_by_of deps items (w ∷ ws) =
      map (λ (b : WorkItem). record { id = b.id; title = b.title })
        (dependency_blockers w deps items)
      ++ blocked_by_of deps items ws

  abbrev pub event_query : EventQuery
  event_query = record {
    project_id = rt.project_id;
    after_sequence = some (or_else 0 input.since_sequence);
    from_sequence = none;
    to_sequence = none;
    limit = input.max_events;
    max_bytes = input.max_bytes;
    event_type_in = none;
  }

  abbrev pub router_input :
      List WorkItem → List WorkDependency → List CoordinationEvent → ContextRouterInput
  router_input assigned deps events = record {
    agent_session_id = input.agent_session_id;
    current_work_item_ids = ids_of assigned;
    dependency_work_item_ids = dependency_ids (ids_of assigned) deps;
    since_sequence = some (pos (or_else 0 input.since_sequence));
    events = map for_router events;
    impacted_work_item_ids = [];
    max_events = input.max_events;
    max_bytes = input.max_bytes;
  }

  abbrev pub warnings_of : Bool → List String
  warnings_of has_more = if has_more then "sync result is bounded; more events remain" ∷ [] else []

  -- The lengths of an event's JSON texts in bytes, in the store and in the router.
  module _ (event_bytes : CoordinationEvent → ℕ)
      (serialized_bytes : Router.CoordinationEvent → ℕ) where
    abbrev pub result_of :
        List (String × WorkItem) → List WorkDependency → EventPage → ContextRouteResult → SyncResult
    unfolding blocked_by_of
    result_of records deps page routed = record {
      project_id = rt.project_id;
      through_sequence = routed.through_sequence;
      high_priority = routed.high_priority;
      normal_priority = routed.normal_priority;
      blocked_by = blocked_by_of deps (index_items [] records) (assigned_items records);
      warnings = warnings_of page.has_more;
    }

    -- `sync` after the heartbeat: it reads the items, the dependencies and the events one after the
    -- other, and other operations may come between.
    unfoldable pub sync_view : CoordinationDb → CoordinationDb → CoordinationDb → Outcome SyncResult
    unfolding list_events route
    sync_view items_db deps_db log_db = do
      let records = list_projections rt.project_id items_db.work_items
      let deps = all_dependencies rt deps_db
      page ← list_events event_bytes event_query log_db
      routed ← route serialized_bytes (router_input (assigned_items records) deps page.events)
      ok (result_of records deps page routed)

    abbrev after_heartbeat :
        Outcome (Unit {0}) × CoordinationDb → Outcome SyncResult × CoordinationDb
    after_heartbeat (ok done, db) = (sync_view db db db, db)
    after_heartbeat (err code, db) = (err code, db)

    -- `sync`, when nothing comes between.
    unfoldable pub sync : ℕ → ℕ → CoordinationDb → Outcome SyncResult × CoordinationDb
    unfolding heartbeat_tx sync_view
    sync checked_at now db =
        if sync_input_ok input
        then after_heartbeat (transact (heartbeat_tx checked_at now) db)
        else (err invalid_argument, db)
