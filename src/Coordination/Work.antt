-- ===== src/Coordination/Work.antt =====
-- What the operations on work items share (packages/coordination-runtime/src/runtime.ts,
-- work-graph.ts, session-leases.ts). The times that `this.now()` returns are arguments.
pub mod Inversion
pub mod Emission
use my_pi.Prelude.{
  ℕ, ◌+◌, String, none, some, List, [], ◌∷◌, Bool, true, false, ◌&&◌, ◌||◌, not, leb, str_eq,
  if◌then◌else◌, filter,
}
use my_pi.Prelude.Dict.{Dict, get, put}
use my_pi.Prelude.Outcome.{agent_session_not_found, agent_session_expired, work_item_not_found}
use my_pi.Coordination.Model.{
  WorkItem, WorkItemState, WorkDependency, AgentSession, AgentSessionStatus, Actor, is_done,
  is_depends_on,
}
use my_pi.Coordination.Event.{CoordinationEvent, EventBody}
use my_pi.Coordination.Store.{CoordinationDb, get_projection, list_projections}
use my_pi.Coordination.Tx.{Tx, pure, read, or_throw, check, ◌>>=◌, ◌>>◌, append}

-- The project of a runtime, and what `createEventId` returns for each stored event.
pub record Runtime : Type 0 where
  pub project_id : String
  pub create_event_id : ℕ → String

abbrev pub default_lease_ms : ℕ
default_lease_ms = 30000

abbrev pub is_expired_status : AgentSessionStatus → Bool
is_expired_status AgentSessionStatus.expired = true
is_expired_status _ = false

-- `sessionExpired`
unfoldable pub session_expired : AgentSession → ℕ → Bool
session_expired s now = is_expired_status s.status || leb (s.heartbeat_at + default_lease_ms) now

-- `dependenciesOf`
unfoldable pub dependencies_of : WorkItem → List WorkDependency → List WorkDependency
dependencies_of item = filter (λ d. str_eq d.from item.id && is_depends_on d.type)

-- The `map` and `filter` of `dependencyBlockers`.
unfoldable pub unfinished : Dict WorkItem → List WorkDependency → List WorkItem
unfinished items [] = []
unfinished items (d ∷ ds) =
    let rest = unfinished items ds in
    elim (get d.to items) [ none ↦ rest | some w ↦ (if is_done w.state then rest else w ∷ rest) ]

-- `dependencyBlockers`
unfoldable pub dependency_blockers : WorkItem → List WorkDependency → Dict WorkItem → List WorkItem
unfolding dependencies_of unfinished
dependency_blockers item deps items = unfinished items (dependencies_of item deps)

-- `new Map(records.map((record) => [record.value.id, record.value]))`, from a map that is there.
unfoldable pub index_items : Dict WorkItem → List (String × WorkItem) → Dict WorkItem
index_items m [] = m
index_items m ((k, w) ∷ rest) = index_items (put w.id w m) rest

-- `records.map((record) => record.value)`
unfoldable pub record_values {ℓ} : {V : Type ℓ} → List (String × V) → List V
record_values [] = []
record_values ((k, v) ∷ rest) = v ∷ record_values rest

-- Reads of the tables of the runtime's project.
module _ (rt : Runtime) where
  unfoldable pub all_dependencies : CoordinationDb → List WorkDependency
  unfolding record_values
  all_dependencies db = record_values (list_projections rt.project_id db.work_dependencies)

  unfoldable pub all_items : CoordinationDb → Dict WorkItem
  unfolding index_items
  all_items db = index_items [] (list_projections rt.project_id db.work_items)

  unfoldable pub emit : ℕ → Actor → EventBody → Tx CoordinationEvent
  emit now actor body = append rt.create_event_id rt.project_id now actor body

  unfoldable pub find_item : String → Tx WorkItem
  find_item id = do
    found ← read (λ db. get_projection id db.work_items)
    or_throw work_item_not_found found

  -- The first lines of `claim`, `declareIntent`, `publish` and `sync`.
  unfoldable pub live_session : String → ℕ → Tx AgentSession
  live_session id now = do
    found ← read (λ db. get_projection id db.agent_sessions)
    session ← or_throw agent_session_not_found found
    check (not (session_expired session now)) agent_session_expired
    pure session

-- `{ ...item, state, version: item.version + 1, updatedAt: now }`
abbrev pub advanced : WorkItemState → ℕ → WorkItem → WorkItem
advanced state now item = record item {
  state = state;
  version = item.version + 1;
  updated_at = now;
}
