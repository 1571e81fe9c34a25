-- ===== src/Coordination/Samples.antt =====
-- A small project with two agents and a few work items; its children have the theorems at it.
mod Claims
mod Verdicts
mod Team
mod Repeats
mod Feed
use my_pi.Prelude.{
  ◌==◌, if◌then◌else◌, ◌≡◌, ◌≢◌, refl, String, Option, some, none, List, [], ◌∷◌, Bool-cases, inl,
  inr, true, false, str_eq,
}
use my_pi.Prelude.Dict.{get, put}
use my_pi.Prelude.Text.{is_text}
use my_pi.Prelude.Outcome.{Outcome, ok, err, work_item_blocked, work_item_conflict, plain_error}
use my_pi.Impact.Model.{CodeEntity, CodeEdge}
use my_pi.Impact.Engine.{ImpactInput, ImpactResult}
use my_pi.Coordination.Model.{
  WorkItem, WorkItemState, WorkDependency, WorkDependencyType, AgentSession, AgentSessionStatus,
  Intent, IntentKind, IntentState, Scope, ScopeMode, Actor,
}
use my_pi.Coordination.Event.{CoordinationEvent, WorkItemEvent, work_item_event}
use my_pi.Coordination.Store.{
  list_projections, rows_of, CoordinationDb, ProjectionRow, get_projection, apply_event_projection,
  append_event, next_sequence, max_sequence, insert_event, put_projection,
}
use my_pi.Coordination.Tx.{append, transact, ◌>>=◌}
use my_pi.Coordination.Work.{
  Runtime, advanced, emit, live_session, find_item, session_expired, dependency_blockers,
  dependencies_of, unfinished, all_dependencies, all_items, index_items, record_values,
}
use my_pi.Coordination.Claim.{
  ClaimInput, assigned, claim, claim_tx, claim_unheld, claim_with, claim_free, claim_blocked,
}
use my_pi.Coordination.Claim.Outcomes.{IsClaimed}
use my_pi.Coordination.Claim.Races.{claim-IsClaimed, claim_race}
use my_pi.Coordination.Claim.HeldUp.{claim_held_up}
use my_pi.Coordination.Complete.{
  CompleteInput, CompleteResult, complete, complete_tx, complete_evaluated, finish, release_intents,
  release_scopes, unblock_items, can_unblock,
}
use my_pi.Coordination.Complete.Gate.{IsAccepted, complete-gate}
use my_pi.Coordination.Complete.Finish.{IsFinished, complete-IsFinished}
use my_pi.Coordination.Decision.{
  apply_decision, apply_evaluation_decision_tx, apply_evaluation_decision,
}
use my_pi.Coordination.Decision.Gate.{IsDecided, apply_evaluation_decision-IsDecided}
use my_pi.Coordination.Model.{
  EvaluationRun, EvaluationRunState, EvaluationSpec, AcceptanceDecisionKind,
}
use my_pi.Coordination.Operations.{Operation, claiming, completing, perform_all}
use my_pi.Coordination.Replay.{read_log, read_body, IsSound, perform_all-IsSound}

abbrev pub runtime : Runtime
runtime = record {
  project_id = "p";
  create_event_id =
      λ n. if n == 0 then "e0" else if n == 1 then "e1" else if n == 2 then "e2" else "e3";
}

abbrev pub session : String → AgentSession
session id = record {
  id = id;
  project_id = "p";
  worktree_id = none;
  host = "host";
  client_instance = none;
  role = none;
  status = AgentSessionStatus.active;
  joined_at = 0;
  heartbeat_at = 0;
  identity = none;
}

abbrev pub item : String → WorkItemState → Option String → Option String → Option String → WorkItem
item id state assignee spec run = record {
  id = id;
  project_id = "p";
  parent_id = none;
  title = "work";
  summary = none;
  state = state;
  assignee = assignee;
  evaluation_spec_id = spec;
  accepted_evaluation_run_id = run;
  version = 1;
  created_at = 0;
  updated_at = 0;
}

-- `w1` is free, `w2` is the second agent's and depends on `w1`, `w3` is accepted.
abbrev pub w1 : WorkItem
w1 = item "w1" WorkItemState.ready none none none

abbrev pub w2 : WorkItem
w2 = item "w2" WorkItemState.active (some "b") none none

abbrev pub w3 : WorkItem
w3 = item "w3" WorkItemState.accepted (some "a") (some "s") (some "r")

-- `w4` waits for `w3`, for which the first agent has an intent and a scope.
abbrev pub w4 : WorkItem
w4 = item "w4" WorkItemState.blocked none none none

abbrev pub intent : Intent
intent = record {
  id = "i1";
  project_id = "p";
  agent_session_id = "a";
  work_item_id = some "w3";
  kind = IntentKind.modify;
  summary = "change";
  targets = [];
  state = IntentState.active;
  created_at = 0;
  expires_at = none;
}

abbrev pub scope : Scope
scope = record {
  id = "s1";
  project_id = "p";
  agent_session_id = "a";
  mode = ScopeMode.shared;
  refs = [];
  created_at = 0;
  released_at = none;
}

abbrev waits_for : String → String → WorkDependency
waits_for w v = record { from = w; to = v; type = WorkDependencyType.depends_on }

abbrev pub row {ℓ} : {V : Type ℓ} → V → ProjectionRow V
row v = record { project_id = some "p"; value = v; updated_at = 0 }

abbrev pub empty_db : CoordinationDb
empty_db = record {
  event_log = [];
  projects = [];
  repositories = [];
  worktrees = [];
  agent_sessions = [];
  work_items = [];
  work_dependencies = [];
  intents = [];
  scopes = [];
  context_artifacts = [];
  evaluation_specs = [];
  evaluation_runs = [];
  evaluation_decisions = [];
  impact_results = [];
  change_receipts = [];
}

abbrev pub db : CoordinationDb
db = record empty_db {
  agent_sessions = ("a", row (session "a")) ∷ ("b", row (session "b")) ∷ [];
  work_items = ("w1", row w1) ∷ ("w2", row w2) ∷ ("w3", row w3) ∷ ("w4", row w4) ∷ [];
  intents = ("i1", row intent) ∷ [];
  scopes = ("s1", row scope) ∷ [];
  work_dependencies =
      ("w2:w1:depends_on", row (waits_for "w2" "w1"))
      ∷ ("w4:w3:depends_on", row (waits_for "w4" "w3"))
      ∷ [];
}

abbrev pub claim_of : String → String → ClaimInput
claim_of agent id = record {
  agent_session_id = agent;
  work_item_id = id;
  expected_version = 1;
  allow_shared = true;
}

-- The project after one event, the creation of `w1`.
abbrev pub creation : CoordinationEvent
creation = record {
  project_id = "p";
  sequence = 1;
  event_id = "e0";
  body = work_item_event WorkItemEvent.created w1;
  occurred_at = 5;
  actor = Actor.agent_session "a";
  correlation_id = none;
  causation_id = none;
}

abbrev pub created_w1 : CoordinationDb
created_w1 = record empty_db {
  event_log = creation ∷ [];
  agent_sessions = db.agent_sessions;
  work_items = ("w1", record { project_id = some "p"; value = w1; updated_at = 5 }) ∷ [];
}

pub created_w1-IsSound : IsSound created_w1
unfolding read_log read_body put_projection put
created_w1-IsSound = record {
  log = record {
    numbered = λ p. elim (Bool-cases (str_eq "p" p)) [
      | inl own ↦ rw own (refl, tt)
      | inr other ↦ rw other tt
    ];
    distinct = (refl, tt);
  };
  replayed = refl;
}

-- Two agents after `w1`: the first has it and completes it, the second is refused.
abbrev two_agents : List Operation
two_agents =
    claiming (claim_of "a" "w1") 4 5
    ∷ claiming (claim_of "b" "w1") 6 7
    ∷ completing (record { agent_session_id = "a"; work_item_id = "w1"; evaluation_run_id = none })
        8
    ∷ []

-- A worktree without code, where no impact is found.
abbrev pub no_code : String → List CodeEntity × List CodeEdge
no_code worktree = ([], [])

abbrev pub no_impact : ImpactInput → Outcome ImpactResult
no_impact input = err plain_error

perform_all-IsSound_example : IsSound (perform_all no_code no_impact runtime created_w1 two_agents)
perform_all-IsSound_example =
    perform_all-IsSound no_code no_impact runtime created_w1 two_agents created_w1-IsSound
