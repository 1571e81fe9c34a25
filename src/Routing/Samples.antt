-- ===== src/Routing/Samples.antt =====
-- Three events for one agent, and the theorems at them.
use my_pi.Prelude.{ℕ, ◌+◌, ◌≡◌, ◌≤◌, refl, none, some, List, [], ◌∷◌, ◌++◌, true, not, length}
use my_pi.Prelude.Int.{pos, ◌-ℤ◌}
use my_pi.Prelude.Outcome.{ok}
use my_pi.Routing.Router.{
  CoordinationEvent, EventPayload, RoutedEvent, Priority, RouteReason, ContextRouterInput,
  ContextRouteResult, is_high, route, superseded_artifact_ids,
}
use my_pi.Routing.Budget.{sent_bytes, route-IsWithin}
use my_pi.Routing.Delivery.{is_empty, is_normal, last_sequence, to_send, route-IsDelivered}

abbrev no_payload : EventPayload
no_payload = record {
  id = none;
  agent_session_id = none;
  author_agent_session_id = none;
  session_id = none;
  assignee = none;
  work_item_id = none;
  supersedes = none;
  affected_work_items = [];
  affected_agents = [];
}

abbrev claimed : CoordinationEvent
claimed = record {
  event_id = "e1";
  event_type = "WorkItemClaimed";
  sequence = pos 5;
  payload = record no_payload { work_item_id = some "w1" };
}

abbrev joined : CoordinationEvent
joined = record {
  event_id = "e2";
  event_type = "AgentJoined";
  sequence = pos 6;
  payload = no_payload;
}

abbrev created : CoordinationEvent
created = record {
  event_id = "e3";
  event_type = "WorkItemCreated";
  sequence = pos 7;
  payload = record no_payload { id = some "w2" };
}

abbrev input : ContextRouterInput
input = record {
  agent_session_id = "agent";
  current_work_item_ids = "w1" ∷ [];
  dependency_work_item_ids = "w2" ∷ [];
  since_sequence = none;
  events = claimed ∷ joined ∷ created ∷ [];
  impacted_work_item_ids = [];
  max_events = none;
  max_bytes = some 15;
}

-- Each event takes ten bytes, so that the last one does not fit.
abbrev ten_bytes : CoordinationEvent → ℕ
ten_bytes event = 10

abbrev sent : RoutedEvent
sent = record { event = claimed; priority = Priority.high; reason = RouteReason.same_work_item }

abbrev result : ContextRouteResult
result = record {
  high_priority = sent ∷ [];
  normal_priority = [];
  through_sequence = pos 6;
  truncated = true;
}

input-result : route ten_bytes input ≡ ok result
unfolding route
input-result = refl

route-IsWithin_example :
    (sent_bytes ten_bytes (sent ∷ []) + sent_bytes ten_bytes [] ≤ 15)
    × (length (sent ∷ []) + 0 ≤ 100)
route-IsWithin_example = route-IsWithin ten_bytes input result input-result

route-IsDelivered_example :
    (done : List CoordinationEvent) × (rest : List CoordinationEvent) × (claimed ∷ joined ∷ created
        ∷ []
      ≡ done ++ rest)
    × (pos 6 ≡ last_sequence (pos 5 -ℤ pos 1) done)
    × (true ≡ not (is_empty rest))
    × (sent ∷ [] ≡ to_send input (superseded_artifact_ids input.events) is_high done)
    × ([] ≡ to_send input (superseded_artifact_ids input.events) is_normal done)
route-IsDelivered_example = route-IsDelivered ten_bytes input result input-result refl
