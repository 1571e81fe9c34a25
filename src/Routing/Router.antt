-- ===== src/Routing/Router.antt =====
-- `ContextRouter.route`. Of a payload that is an object the fields are kept that the source reads,
-- where they hold texts; of one that is none, nothing.
use text.Mathlib.Text.{starts_with}
use my_pi.Prelude.{
  ℕ, ◌≡◌, ◌+◌, ◌*◌, String, Option, none, some, List, [], ◌∷◌, ◌++◌, Bool, true, false, ◌&&◌, ◌||◌,
  leb, ltb, str_eq, if◌then◌else◌, length, take, any,
}
use my_pi.Prelude.Int.{ℤ, pos, ◌-ℤ◌}
use my_pi.Prelude.Text.{truthy, is_text}
use my_pi.Prelude.Outcome.{Outcome, ok, require, ◌>>◌, after_require, ok-injective, plain_error}

pub record EventPayload : Type 0 where
  pub id : Option String
  pub agent_session_id : Option String
  pub author_agent_session_id : Option String
  pub session_id : Option String
  pub assignee : Option String
  pub work_item_id : Option String
  pub supersedes : Option String
  -- The identifiers in `affectedWorkItems` and in `affectedAgents`.
  pub affected_work_items : List String
  pub affected_agents : List String

pub record CoordinationEvent : Type 0 where
  pub event_id : String
  pub event_type : String
  pub sequence : ℤ
  pub payload : EventPayload

pub data Priority : Type 0 where
  high normal : Priority

pub data RouteReason : Type 0 where
  same_agent same_work_item dependency_work_item impact_result : RouteReason

pub record RoutedEvent : Type 0 where
  pub event : CoordinationEvent
  pub priority : Priority
  pub reason : RouteReason

-- Of `impactResults` the identifiers of the affected work items are kept.
pub record ContextRouterInput : Type 0 where
  pub agent_session_id : String
  pub current_work_item_ids : List String
  pub dependency_work_item_ids : List String
  pub since_sequence : Option ℤ
  pub events : List CoordinationEvent
  pub impacted_work_item_ids : List String
  pub max_events : Option ℕ
  pub max_bytes : Option ℕ

pub record ContextRouteResult : Type 0 where
  pub high_priority : List RoutedEvent
  pub normal_priority : List RoutedEvent
  pub through_sequence : ℤ
  pub truncated : Bool

abbrev pub contains : List String → String → Bool
contains ids id = any (λ (x : String). str_eq x id) ids

-- `ids.has(id)` for an optional identifier that is a non-empty text.
abbrev pub contains_given : List String → Option String → Bool
contains_given ids none = false
contains_given ids (some id) = truthy id && contains ids id

abbrev pub is_impact : CoordinationEvent → Bool
is_impact event = str_eq event.event_type "ImpactDetected"

-- `impactWorkItemIds`
abbrev pub impact_work_item_ids : CoordinationEvent → List String
impact_work_item_ids event = if is_impact event then event.payload.affected_work_items else []

-- `impactAgentMatches`
abbrev pub impact_agent_matches : CoordinationEvent → String → Bool
impact_agent_matches event agent = is_impact event && contains event.payload.affected_agents agent

abbrev pub is_publication : CoordinationEvent → Bool
is_publication event = str_eq event.event_type "ContextPublished"

-- `supersededArtifactIds`
unfoldable pub superseded_artifact_ids : List CoordinationEvent → List String
superseded_artifact_ids [] = []
superseded_artifact_ids (event ∷ events) =
    let rest = superseded_artifact_ids events in
    if is_publication event
    then elim event.payload.supersedes [ none ↦ rest | some id ↦ id ∷ rest ]
    else rest

abbrev pub is_superseded : List String → CoordinationEvent → Bool
is_superseded superseded event = is_publication event && contains_given superseded event.payload.id

abbrev pub direct_agent : CoordinationEvent → String → Bool
direct_agent event agent =
    is_text event.payload.agent_session_id agent
    || (is_text event.payload.author_agent_session_id agent
        || (is_text event.payload.session_id agent || is_text event.payload.assignee agent))

abbrev pub work_item_of : CoordinationEvent → Option String
work_item_of event = elim event.payload.work_item_id [
  | some id ↦ some id
  | none ↦ if starts_with event.event_type "WorkItem" then event.payload.id else none
]

abbrev pub routed : CoordinationEvent → Priority × RouteReason → RoutedEvent
routed event (priority, reason) = record { event = event; priority = priority; reason = reason }

-- The chain of conditions in the loop: how an event is routed, if it is.
unfoldable pub classify : ContextRouterInput → CoordinationEvent → Option (Priority × RouteReason)
classify input event =
    let item = work_item_of event in
    if direct_agent event input.agent_session_id
    then some (Priority.high, RouteReason.same_agent)
    else if contains_given input.current_work_item_ids item
    then some (Priority.high, RouteReason.same_work_item)
    else if contains_given input.dependency_work_item_ids item
    then some (Priority.normal, RouteReason.dependency_work_item)
    else if contains_given input.impacted_work_item_ids item
    then some (Priority.normal, RouteReason.impact_result)
    else if impact_agent_matches event input.agent_session_id
    then some (Priority.high, RouteReason.impact_result)
    else if any (contains input.current_work_item_ids) (impact_work_item_ids event)
    then some (Priority.high, RouteReason.impact_result)
    else if any (contains input.dependency_work_item_ids) (impact_work_item_ids event)
    then some (Priority.normal, RouteReason.impact_result)
    else none

-- What the loop changes.
pub record Progress : Type 0 where
  pub seen : List String
  pub bytes : ℕ
  pub high_priority : List RoutedEvent
  pub normal_priority : List RoutedEvent
  pub through_sequence : ℤ
  pub truncated : Bool

abbrev pub passed : CoordinationEvent → Progress → Progress
passed event p = record p { seen = event.event_id ∷ p.seen; through_sequence = event.sequence }

abbrev pub is_high : Priority → Bool
is_high Priority.high = true
is_high Priority.normal = false

abbrev pub deliver : RoutedEvent → ℕ → Progress → Progress
deliver r size p =
    if is_high r.priority
    then record p { bytes = p.bytes + size; high_priority = p.high_priority ++ r ∷ [] }
    else record p { bytes = p.bytes + size; normal_priority = p.normal_priority ++ r ∷ [] }

-- The length of an event's JSON text in bytes is an argument.
module _ (serialized_bytes : CoordinationEvent → ℕ) (input : ContextRouterInput)
    (superseded : List String) (max_bytes : ℕ) where
  -- The loop over the events.
  unfoldable pub route_loop : List CoordinationEvent → Progress → Progress
  unfolding classify
  route_loop [] p = p
  route_loop (event ∷ events) p = elim (contains p.seen event.event_id) [
    | true ↦ route_loop events (record p { through_sequence = event.sequence })
    | false ↦ elim (is_superseded superseded event) [
      | true ↦ route_loop events (passed event p)
      | false ↦ elim (classify input event) [
        | none ↦ route_loop events (passed event p)
        | some way ↦ elim (ltb max_bytes (p.bytes + serialized_bytes event)) [
          | true ↦ record p { seen = event.event_id ∷ p.seen; truncated = true }
          | false ↦
              route_loop events
                (deliver (routed event way) (serialized_bytes event) (passed event p))
        ]
      ]
    ]
  ]

abbrev pub or_number : ℕ → Option ℕ → ℕ
or_number d none = d
or_number d (some n) = n

abbrev pub first_sequence : ContextRouterInput → ℤ
first_sequence input = elim input.events [
  | [] ↦ elim input.since_sequence [ none ↦ pos 0 | some n ↦ n ]
  | event ∷ events ↦ event.sequence -ℤ pos 1
]

abbrev pub start_progress : ContextRouterInput → ℕ → Progress
start_progress input max_events = record {
  seen = [];
  bytes = 0;
  high_priority = [];
  normal_priority = [];
  through_sequence = first_sequence input;
  truncated = ltb max_events (length input.events);
}

abbrev pub result_of : Progress → ContextRouteResult
result_of p = record {
  high_priority = p.high_priority;
  normal_priority = p.normal_priority;
  through_sequence = p.through_sequence;
  truncated = p.truncated;
}

module _ (serialized_bytes : CoordinationEvent → ℕ) where
  abbrev pub routed_progress : ContextRouterInput → ℕ → ℕ → Progress
  routed_progress input max_events max_bytes =
      route_loop serialized_bytes input (superseded_artifact_ids input.events) max_bytes
        (take max_events input.events) (start_progress input max_events)

  -- `route`
  unfoldable pub route : ContextRouterInput → Outcome ContextRouteResult
  unfolding route_loop superseded_artifact_ids
  route input = do
    let max_events = or_number 100 input.max_events
    let max_bytes = or_number (256 * 1024) input.max_bytes
    require (leb 1 max_events && leb max_events 1000) plain_error
    require (leb 1 max_bytes && leb max_bytes (4 * 1024 * 1024)) plain_error
    ok (result_of (routed_progress input max_events max_bytes))

  -- A call that returns gives the result of the loop.
  pub route-eq-ok :
      (input : ContextRouterInput) (result : ContextRouteResult)
      → route input ≡ ok result
      → result_of (
          routed_progress input
            (or_number 100 input.max_events)
            (or_number (256 * 1024) input.max_bytes))
        ≡ result
  unfolding route
  route-eq-ok input result h =
      let max_events = or_number 100 input.max_events in
      let max_bytes = or_number (256 * 1024) input.max_bytes in
      let (events_ok, h₁) =
        after_require (leb 1 max_events && leb max_events 1000) plain_error _ h in
      let (bytes_ok, h₂) =
        after_require (leb 1 max_bytes && leb max_bytes (4 * 1024 * 1024)) plain_error _ h₁ in
      ok-injective _ result h₂
