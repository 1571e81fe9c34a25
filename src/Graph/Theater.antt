-- ===== src/Graph/Theater.antt =====
-- The theater's frames and motion cues (packages/graph-model/src/model.ts). The current time is an
-- argument, and of a payload the texts of the fields that the source reads are kept.
pub mod Cues
pub mod Frames
use Prim.Native.String.{◌++◌ as text_append}
use my_pi.Prelude.{
  ℕ, ◌==◌, String, Option, none, some, List, [], ◌∷◌, ◌++◌, Bool, true, false, ◌&&◌, ◌||◌, not,
  str_eq, if◌then◌else◌, length, filter, any,
}
use my_pi.Prelude.Text.{truthy, includes}
use my_pi.Graph.Model.{GraphKind, GraphAttributes, GraphNode, GraphSnapshot}
use my_pi.Graph.Normalize.{or_empty, validate_snapshot}

-- `GRAPH_EVENT_TYPES_BY_KIND`
abbrev pub event_types_by_kind : GraphKind → List String
event_types_by_kind GraphKind.work =
    "AgentJoined" ∷ "AgentHeartbeat" ∷ "AgentExpired" ∷ "WorkItemCreated" ∷ "WorkItemClaimed"
    ∷ "WorkItemBlocked" ∷ "WorkItemUnblocked" ∷ "WorkItemImplementationComplete"
    ∷ "WorkItemAwaitingEvaluation" ∷ "WorkItemEvaluationAccepted" ∷ "WorkItemEvaluationRejected"
    ∷ "WorkItemEvaluationReviewRequired" ∷ "WorkItemCompleted" ∷ "IntentDeclared"
    ∷ "IntentSuperseded" ∷ "EvaluationRequested" ∷ "EvaluationStarted" ∷ "EvaluationResultRecorded"
    ∷ "EvaluationCompleted" ∷ "AcceptanceDecided" ∷ "FeedbackIssued" ∷ "RetryRecommended"
    ∷ "RetryScheduled" ∷ "RetryExhausted" ∷ []
event_types_by_kind GraphKind.code = "CodeGraphUpdated" ∷ "ContractChanged" ∷ []
event_types_by_kind GraphKind.impact = "ImpactDetected" ∷ "ScopeDeclared" ∷ "ScopeReleased" ∷ []
event_types_by_kind GraphKind.lineage =
    "ContextPublished" ∷ "ChangeProposed" ∷ "ChangeApplied" ∷ "ChangePartiallyApplied"
    ∷ "ChangeRejected" ∷ "VerificationRecorded" ∷ []

pub record TheaterEventActor : Type 0 where
  pub kind : String
  pub id : Option String
  pub name : Option String

-- `String(payload.key)` of the fields of a payload that are there and not null.
pub record CuePayload : Type 0 where
  pub agent_session_id : Option String
  pub work_item_id : Option String
  pub intent_id : Option String

pub record TheaterEvent : Type 0 where
  pub project_id : String
  pub sequence : String
  pub event_id : String
  pub event_type : String
  pub occurred_at : String
  pub actor : Option TheaterEventActor
  pub correlation_id : Option String
  pub causation_id : Option String
  pub payload : CuePayload

pub data MotionCueType : Type 0 where
  pulse claim blocked intent settle : MotionCueType

pub record SceneCue : Type 0 where
  pub id : String
  pub event_id : String
  pub sequence : String
  pub type : MotionCueType
  pub target_node_id : String
  pub source_node_id : Option String
  pub color : String
  pub duration_ms : ℕ
  pub timestamp : String

-- `nodes.find(p)`
unfoldable pub find_node : (GraphNode → Bool) → List GraphNode → Option GraphNode
find_node p [] = none
find_node p (n ∷ nodes) = let later = find_node p nodes in if p n then some n else later

-- `nodeMap.get(id)`: the last of the nodes with this identifier.
unfoldable pub node_of : List GraphNode → String → Option GraphNode
node_of [] id = none
node_of (n ∷ nodes) id = elim (node_of nodes id) [
  | some later ↦ some later
  | none ↦ if str_eq n.id id then some n else none
]

-- `a || b` for optional nodes.
abbrev pub or_node : Option GraphNode → Option GraphNode → Option GraphNode
or_node none other = other
or_node (some n) other = some n

-- `id ? (nodeMap.get(prefix + id) || nodeMap.get(id)) : undefined`
unfoldable pub direct : List GraphNode → String → String → Option GraphNode
unfolding node_of
direct nodes scheme id =
    if truthy id then or_node (node_of nodes (text_append scheme id)) (node_of nodes id) else none

-- A search that is made when there is an identifier and nothing has been found for it.
unfoldable pub or_search :
    List GraphNode → String → (GraphNode → Bool) → Option GraphNode → Option GraphNode
unfolding find_node
or_search nodes id p found = or_node found (if truthy id then find_node p nodes else none)

abbrev pub is_session : GraphNode → Bool
is_session n = str_eq n.kind "agent_session"

abbrev pub session_includes : String → GraphNode → Bool
session_includes id n = is_session n && (includes n.id id || includes n.label id)

abbrev pub work_target : List GraphNode → String → Option GraphNode
work_target nodes id =
    or_search nodes id (λ (n : GraphNode). includes n.id id) (direct nodes "work:item:" id)

abbrev pub intent_target : List GraphNode → String → Option GraphNode
intent_target nodes id =
    or_search nodes id (λ (n : GraphNode). str_eq n.kind "intent" && includes n.id id)
      (direct nodes "intent:" id)

abbrev pub session_source : List GraphNode → String → Option GraphNode
session_source nodes id =
    or_search nodes id (session_includes id) (direct nodes "agent:session:" id)

-- `a ?? b`
abbrev pub or_text : Option String → Option String → Option String
or_text none other = other
or_text (some s) other = some s

abbrev pub actor_id : TheaterEvent → Option String
actor_id event = elim event.actor [ none ↦ none | some actor ↦ actor.id ]

abbrev pub id_of : Option GraphNode → Option String
id_of none = none
id_of (some n) = some n.id

-- The cue for a target, if there is one.
abbrev pub cue :
    TheaterEvent
    → String
    → String
    → MotionCueType
    → String
    → ℕ
    → Option String
    → Option GraphNode
    → Option SceneCue
cue event now name type color duration source none = none
cue event now name type color duration source (some target) = some (record {
  id = text_append name event.event_id;
  event_id = event.event_id;
  sequence = event.sequence;
  type = type;
  target_node_id = target.id;
  source_node_id = source;
  color = color;
  duration_ms = duration;
  timestamp = if truthy event.occurred_at then event.occurred_at else now;
})

abbrev pub type_in : List String → TheaterEvent → Bool
type_in types event = any (λ (t : String). str_eq event.event_type t) types

-- The branches of `eventToMotionCue`.
unfoldable pub heartbeat_cue : TheaterEvent → List GraphNode → String → Option SceneCue
unfolding direct or_search find_node
heartbeat_cue event nodes now =
    let actor = or_empty (or_text (actor_id event) event.payload.agent_session_id) in
    cue event now "cue:pulse:" MotionCueType.pulse "var(--kpmg-cobalt)" 800 none
      (or_node (session_source nodes actor) (find_node is_session nodes))

unfoldable pub claim_cue : TheaterEvent → List GraphNode → String → Option SceneCue
unfolding direct or_search
claim_cue event nodes now =
    let actor = or_empty (or_text (actor_id event) event.payload.agent_session_id) in
    cue event now "cue:claim:" MotionCueType.claim "var(--kpmg-pacific)" 1200
      (id_of (session_source nodes actor)) (work_target nodes (or_empty event.payload.work_item_id))

unfoldable pub blocked_cue : TheaterEvent → List GraphNode → String → Option SceneCue
unfolding direct or_search
blocked_cue event nodes now =
    cue event now "cue:blocked:" MotionCueType.blocked "var(--status-warning)" 1500 none
      (work_target nodes (or_empty (or_text event.payload.work_item_id (actor_id event))))

unfoldable pub intent_cue : TheaterEvent → List GraphNode → String → Option SceneCue
unfolding direct or_search
intent_cue event nodes now =
    let source =
      direct nodes "agent:session:"
        (or_empty (or_text (actor_id event) event.payload.agent_session_id)) in
    cue event now "cue:intent:" MotionCueType.intent "var(--kpmg-purple)" 1000 (id_of source)
      (or_node (intent_target nodes (or_empty event.payload.intent_id)) source)

unfoldable pub settle_cue : TheaterEvent → List GraphNode → String → Option SceneCue
unfolding direct or_search
settle_cue event nodes now =
    cue event now "cue:settle:" MotionCueType.settle "var(--status-success)" 1500 none
      (work_target nodes (or_empty (or_text event.payload.work_item_id (actor_id event))))

-- `eventToMotionCue`
unfoldable pub event_to_motion_cue : TheaterEvent → GraphSnapshot → String → Option SceneCue
unfolding heartbeat_cue claim_cue blocked_cue intent_cue settle_cue
event_to_motion_cue event graph now =
    if type_in ("AgentHeartbeat" ∷ []) event
    then heartbeat_cue event graph.nodes now
    else if type_in ("WorkItemClaimed" ∷ []) event
    then claim_cue event graph.nodes now
    else if type_in ("WorkItemBlocked" ∷ "Blocked" ∷ []) event
    then blocked_cue event graph.nodes now
    else if type_in ("IntentDeclared" ∷ []) event
    then intent_cue event graph.nodes now
    else if type_in
        ("WorkItemCompleted" ∷ "Completed" ∷ "WorkItemEvaluationAccepted" ∷ "EvaluationAccepted"
          ∷ [])
        event
    then settle_cue event graph.nodes now
    else none
