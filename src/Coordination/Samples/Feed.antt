-- ===== src/Coordination/Samples/Feed.antt =====
-- The feed of an agent in a project with one event, and the theorems at it.
use my_pi.Prelude.{◌≡◌, refl, ℕ, none, [], ◌∷◌, false, arith}
use my_pi.Prelude.Dict.{get, put}
use my_pi.Prelude.Int.{pos, ◌-ℤ◌}
use my_pi.Prelude.Outcome.{ok}
use my_pi.Coordination.Store.{list_projections, rows_of}
use my_pi.Coordination.Store.Events.{
  EventPage, list_events, collect, by_sequence, insert_by_sequence, matches_query,
}
use my_pi.Coordination.Store.Numbering.{query_after, events_after}
use my_pi.Coordination.Store.Pages.{IsPage, list_events-IsPage}
use my_pi.Coordination.Work.{
  all_dependencies, record_values, index_items, dependency_blockers, dependencies_of, unfinished,
}
use my_pi.Coordination.Sync.{
  SyncInput, SyncResult, sync_view, blocked_by_of, assigned_items, router_input,
}
use my_pi.Coordination.Sync.Delivery.{IsSynced, sync_view-IsSynced}
use my_pi.Routing.Router.{route, route_loop, classify, superseded_artifact_ids}
use my_pi.Coordination.Samples.{runtime, created_w1, created_w1-IsSound, creation}

abbrev ten_bytes {ℓ} : {A : Type ℓ} → A → ℕ
ten_bytes e = 10

abbrev page : EventPage
page = record { events = creation ∷ []; through_sequence = 1; has_more = false }

page_listed : list_events ten_bytes (query_after "p" none none none) created_w1 ≡ ok page
unfolding list_events collect by_sequence insert_by_sequence matches_query
page_listed = refl

list_events-IsPage_example : IsPage 0 (events_after "p" 0 created_w1.event_log) page
list_events-IsPage_example =
    list_events-IsPage ten_bytes "p" none none none created_w1 page created_w1-IsSound.log
      page_listed

abbrev sync_input : SyncInput
sync_input = record {
  agent_session_id = "a";
  since_sequence = none;
  max_events = none;
  max_bytes = none;
}

-- The event is of no item of the agent.
abbrev synced : SyncResult
synced = record {
  project_id = "p";
  through_sequence = pos 1;
  high_priority = [];
  normal_priority = [];
  blocked_by = [];
  warnings = [];
}

a_synced :
    sync_view runtime sync_input ten_bytes ten_bytes created_w1 created_w1 created_w1 ≡ ok synced
unfolding sync_view list_events collect by_sequence insert_by_sequence matches_query route
    route_loop classify superseded_artifact_ids list_projections rows_of all_dependencies
    record_values blocked_by_of index_items dependency_blockers dependencies_of unfinished get put
    ◌-ℤ◌
a_synced = refl

sync_view-IsSynced_example :
    IsSynced runtime sync_input ten_bytes ten_bytes 0
      (events_after "p" 0 created_w1.event_log)
      (router_input runtime sync_input
        (assigned_items runtime sync_input (list_projections "p" created_w1.work_items))
        (all_dependencies runtime created_w1))
      synced
sync_view-IsSynced_example =
    sync_view-IsSynced runtime sync_input ten_bytes ten_bytes (λ e. omega arith) created_w1
      created_w1 created_w1 synced created_w1-IsSound.log a_synced
