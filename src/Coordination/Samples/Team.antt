-- ===== src/Coordination/Samples/Team.antt =====
-- Agents that join a new project and create work items, and the theorems at them.
use my_pi.Prelude.{if◌then◌else◌, ◌≡◌, refl, some, none, List, [], ◌∷◌, str_eq, arith, ◌||◌}
use my_pi.Prelude.Dict.{get, put}
use my_pi.Prelude.Outcome.{ok}
use my_pi.Coordination.Model.{WorkItem}
use my_pi.Coordination.Store.{
  get_projection, put_projection, list_projections, rows_of, apply_event_projection, append_event,
  next_sequence, max_sequence, insert_event,
}
use my_pi.Coordination.Tx.{append, transact, ◌>>=◌}
use my_pi.Coordination.Work.{emit, live_session, session_expired, all_items, index_items}
use my_pi.Coordination.Join.{JoinInput, JoinResult, join, join_tx, open_project, lease_for}
use my_pi.Coordination.Join.Leases.{IsJoined, IsLiveFrom, join-IsJoined, heartbeat-IsLiveFrom}
use my_pi.Coordination.Create.{
  WorkItemInput, create_work_item, create_work_item_tx, link, link_all, check_spec, dependency_type,
}
use my_pi.Coordination.Sync.{SyncInput, heartbeat_tx}
use my_pi.Coordination.Operations.{Operation, joining, creating, perform, perform_all}
use my_pi.Coordination.Links.{IsOrdered}
use my_pi.Coordination.Links.Runs.{perform_all-IsOrdered}
use my_pi.Coordination.Links.Progress.{IsUnblocked, IsOrdered-IsUnblocked}
use my_pi.Coordination.Samples.{runtime, session, empty_db, db, w2, no_code, no_impact}

abbrev join_input : JoinInput
join_input = record {
  display_name = some "project";
  policy_ref = none;
  repository = record { id = "r"; project_id = "p"; canonical_identity = "repository" };
  worktree = record {
    id = "t";
    repository_id = "r";
    root = "/work";
    head = none;
    branch = none;
    observed_at = 0;
  };
  host = "host";
  client_instance = none;
  role = none;
}

-- With a lease of a minute, of which the session gets half.
abbrev joined : JoinResult
joined = record {
  project_id = "p";
  agent_session_id = "a";
  current_sequence = 2;
  lease = record { lease_ms = 60000; expires_at = 60005 };
}

a_joined : (join runtime 60000 join_input "a" 5 empty_db).0 ≡ ok joined
unfolding join join_tx open_project lease_for transact ◌>>=◌ get_projection get put_projection put
    emit append append_event next_sequence max_sequence insert_event apply_event_projection
a_joined = refl

join-IsJoined_example :
    IsJoined runtime 60000 join_input "a" 5 joined (join runtime 60000 join_input "a" 5 empty_db).1
join-IsJoined_example = join-IsJoined runtime 60000 join_input "a" 5 empty_db joined refl a_joined

abbrev sync_input : SyncInput
sync_input = record {
  agent_session_id = "a";
  since_sequence = none;
  max_events = none;
  max_bytes = none;
}

a_renewed : (transact (heartbeat_tx runtime sync_input 20 25) db).0 ≡ ok tt
unfolding transact heartbeat_tx ◌>>=◌ live_session get_projection get session_expired
a_renewed = refl

heartbeat-IsLiveFrom_example :
    IsLiveFrom runtime
      (transact (heartbeat_tx runtime sync_input 20 25) db).1
      "a"
      (record (session "a") { heartbeat_at = 25 })
      25
unfolding get_projection get
heartbeat-IsLiveFrom_example =
    heartbeat-IsLiveFrom runtime sync_input 20 25 db (session "a") refl refl a_renewed

-- Two items, the second of which depends on the first.
abbrev first_item : WorkItemInput
first_item = record {
  title = "first";
  summary = none;
  evaluation_spec_id = none;
  dependencies = [];
}

abbrev second_item : WorkItemInput
second_item = record {
  title = "second";
  summary = none;
  evaluation_spec_id = none;
  dependencies = record { from = none; to = "w1"; type = "depends_on" } ∷ [];
}

abbrev two_items : List Operation
two_items =
    joining 60000 join_input "a" 5 ∷ creating first_item "w1" 6 ∷ creating second_item "w2" 7 ∷ []

empty_db-IsOrdered : IsOrdered empty_db
empty_db-IsOrdered = record { rank = λ id. 0; next = 1; bounded = λ id. omega arith; linked = tt }

perform_all-IsOrdered_example : IsOrdered (perform_all no_code no_impact runtime empty_db two_items)
unfolding perform join join_tx open_project lease_for transact ◌>>=◌ get_projection get
    put_projection put emit append append_event next_sequence max_sequence insert_event
    apply_event_projection create_work_item create_work_item_tx link link_all check_spec
    dependency_type
perform_all-IsOrdered_example =
    perform_all-IsOrdered no_code no_impact runtime empty_db two_items
      (tt, ((refl, refl, refl), ((refl, refl, refl), tt))) empty_db-IsOrdered

-- The items `w2` and `w4` come after the others.
db-IsOrdered : IsOrdered db
unfolding get_projection get
db-IsOrdered = record {
  rank = λ id. if str_eq id "w2" || str_eq id "w4" then 1 else 0;
  next = 2;
  bounded = λ id. ground arith;
  linked = ((refl, refl, omega arith), ((refl, refl, omega arith), tt));
}

IsOrdered-IsUnblocked_example : (v : WorkItem) × IsUnblocked runtime db v
unfolding all_items index_items list_projections rows_of get put
IsOrdered-IsUnblocked_example = IsOrdered-IsUnblocked runtime db w2 db-IsOrdered refl refl
