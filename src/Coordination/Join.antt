-- ===== src/Coordination/Join.antt =====
-- `join` (packages/coordination-runtime/src/runtime.ts, join.ts and session-leases.ts). The runtime's
-- `leaseMs` is an argument.
pub mod Leases
use Prim.Native.Nat.{max}
use my_pi.Prelude.{
  ℕ, ◌+◌, ◌*◌, String, Option, none, some, Bool, ◌&&◌, leb, str_eq, if◌then◌else◌, is_some,
}
use my_pi.Prelude.Text.{js_length, truthy}
use my_pi.Prelude.Outcome.{Outcome, err, coordination_store_failure, plain_error}
use my_pi.Coordination.Model.{
  AgentSession, AgentSessionStatus, Project, PolicyRef, Repository, Worktree, Actor,
}
use my_pi.Coordination.Event.{project_opened, agent_joined}
use my_pi.Coordination.Store.{CoordinationDb, put_projection, get_projection}
use my_pi.Coordination.Tx.{Tx, pure, read, check, modify, ◌>>=◌, ◌>>◌, transact}
use my_pi.Coordination.Work.{Runtime, emit}

-- `display_name` and `policy_ref` are the fields of `project`, if it is given.
pub record JoinInput : Type 0 where
  pub display_name : Option String
  pub policy_ref : Option PolicyRef
  pub repository : Repository
  pub worktree : Worktree
  pub host : String
  pub client_instance : Option String
  pub role : Option String

pub record SessionLease : Type 0 where
  pub lease_ms : ℕ
  pub expires_at : ℕ

-- The handle of the project is the runtime's project.
pub record JoinResult : Type 0 where
  pub project_id : String
  pub agent_session_id : String
  pub current_sequence : ℕ
  pub lease : SessionLease

-- `validateJoinInput`
abbrev pub join_input_ok : JoinInput → String → Bool
join_input_ok input project_id =
    truthy input.host
    && leb (js_length input.host) 128
    && str_eq input.repository.project_id project_id
    && str_eq input.worktree.repository_id input.repository.id
    && truthy input.worktree.root
    && leb (js_length input.worktree.root) 4096

abbrev pub lease_ok : ℕ → Bool
lease_ok lease_ms = leb 1000 lease_ms && leb lease_ms (24 * 60 * 60 * 1000)

module _ (rt : Runtime) (lease_ms now : ℕ) where
  -- `leaseFor`; the error that it throws is one of the store to the caller of `transact`.
  unfoldable pub lease_for : Tx SessionLease
  lease_for = do
    check (lease_ok lease_ms) coordination_store_failure
    pure (record { lease_ms = lease_ms; expires_at = now + lease_ms })

  abbrev pub opened_project : JoinInput → Project
  opened_project input = record {
    id = rt.project_id;
    display_name = input.display_name;
    created_at = now;
    policy_ref = input.policy_ref;
  }

  abbrev pub joined_session : JoinInput → String → AgentSession
  joined_session input id = record {
    id = id;
    project_id = rt.project_id;
    worktree_id = some input.worktree.id;
    host = input.host;
    client_instance = input.client_instance;
    role = input.role;
    status = AgentSessionStatus.active;
    joined_at = now;
    heartbeat_at = now;
    identity = none;
  }

  abbrev pub with_repository : Repository → CoordinationDb → CoordinationDb
  with_repository r db = record db {
    repositories = put_projection r.id r (some rt.project_id) now db.repositories;
  }

  abbrev pub with_worktree : Worktree → CoordinationDb → CoordinationDb
  with_worktree t db = record db {
    worktrees = put_projection t.id t (some rt.project_id) now db.worktrees;
  }

  -- The project is opened if it is not there; the number of the event, or 0.
  unfoldable pub open_project : JoinInput → Tx ℕ
  open_project input = do
    found ← read (λ db. get_projection rt.project_id db.projects)
    if is_some found then pure 0 else do
      e ← emit rt now (Actor.system "my-pi-daemon") (project_opened (opened_project input))
      pure e.sequence

  -- The callback of `join`, with the identifier that `createAgentSessionId` returns.
  unfoldable pub join_tx : JoinInput → String → Tx JoinResult
  unfolding open_project lease_for
  join_tx input id = do
    current_sequence ← open_project input
    modify (with_repository input.repository)
    modify (with_worktree input.worktree)
    e ← emit rt now (Actor.agent_session id) (agent_joined (joined_session input id))
    lease ← lease_for
    pure (record {
      project_id = rt.project_id;
      agent_session_id = id;
      current_sequence = max e.sequence current_sequence;
      lease = lease;
    })

-- `join`
unfoldable pub join :
    Runtime → ℕ → JoinInput → String → ℕ → CoordinationDb → Outcome JoinResult × CoordinationDb
unfolding join_tx
join rt lease_ms input id now db =
    if join_input_ok input rt.project_id
    then transact (join_tx rt lease_ms now input id) db
    else (err plain_error, db)
