-- ===== src/Coordination/Event.antt =====
-- The events of the coordination store (packages/contracts/src/coordination-event.ts), with the
-- payloads that their JSON texts stand for.
use my_pi.Prelude.{ℕ, String, Option}
use my_pi.Coordination.Model.{
  WorkItem, AgentSession, Project, Intent, Scope, Actor, ContextArtifact, ChangeReceipt,
  PublicationStatus,
}
use my_pi.Impact.Engine.{ImpactResult}

pub data WorkItemEvent : Type 0 where
  created claimed blocked unblocked implementation_complete awaiting_evaluation : WorkItemEvent
  evaluation_accepted evaluation_rejected evaluation_review_required completed : WorkItemEvent

pub data IntentEvent : Type 0 where
  declared superseded : IntentEvent

pub data ScopeEvent : Type 0 where
  declared released : ScopeEvent

-- An impact with the intent that it is of.
pub record ImpactRecord : Type 0 where
  pub intent_id : String
  pub impact : ImpactResult

-- The type of an event with its payload; the type of a change event is by the receipt's status.
-- `other_event` is an event that no modelled table projects.
pub data EventBody : Type 0 where
  project_opened : Project → EventBody
  agent_joined : AgentSession → EventBody
  work_item_event : WorkItemEvent → WorkItem → EventBody
  intent_event : IntentEvent → Intent → EventBody
  scope_event : ScopeEvent → Scope → EventBody
  context_published : ContextArtifact → EventBody
  impact_detected : ImpactRecord → EventBody
  change_event : PublicationStatus → ChangeReceipt → EventBody
  other_event : String → EventBody

abbrev pub work_item_event_type : WorkItemEvent → String
work_item_event_type WorkItemEvent.created = "WorkItemCreated"
work_item_event_type WorkItemEvent.claimed = "WorkItemClaimed"
work_item_event_type WorkItemEvent.blocked = "WorkItemBlocked"
work_item_event_type WorkItemEvent.unblocked = "WorkItemUnblocked"
work_item_event_type WorkItemEvent.implementation_complete = "WorkItemImplementationComplete"
work_item_event_type WorkItemEvent.awaiting_evaluation = "WorkItemAwaitingEvaluation"
work_item_event_type WorkItemEvent.evaluation_accepted = "WorkItemEvaluationAccepted"
work_item_event_type WorkItemEvent.evaluation_rejected = "WorkItemEvaluationRejected"
work_item_event_type WorkItemEvent.evaluation_review_required = "WorkItemEvaluationReviewRequired"
work_item_event_type WorkItemEvent.completed = "WorkItemCompleted"

abbrev pub event_type : EventBody → String
event_type (project_opened p) = "ProjectOpened"
event_type (agent_joined s) = "AgentJoined"
event_type (work_item_event t w) = work_item_event_type t
event_type (intent_event IntentEvent.declared i) = "IntentDeclared"
event_type (intent_event IntentEvent.superseded i) = "IntentSuperseded"
event_type (scope_event ScopeEvent.declared s) = "ScopeDeclared"
event_type (scope_event ScopeEvent.released s) = "ScopeReleased"
event_type (context_published a) = "ContextPublished"
event_type (impact_detected i) = "ImpactDetected"
event_type (change_event PublicationStatus.applied r) = "ChangeApplied"
event_type (change_event PublicationStatus.partial r) = "ChangePartiallyApplied"
event_type (change_event PublicationStatus.rejected r) = "ChangeRejected"
event_type (other_event t) = t

pub record CoordinationEvent : Type 0 where
  pub project_id : String
  pub sequence : ℕ
  pub event_id : String
  pub body : EventBody
  pub occurred_at : ℕ
  pub actor : Actor
  pub correlation_id : Option String
  pub causation_id : Option String

pub record AppendEventInput : Type 0 where
  pub project_id : String
  pub event_id : Option String
  pub body : EventBody
  pub occurred_at : ℕ
  pub actor : Actor
  pub correlation_id : Option String
  pub causation_id : Option String
