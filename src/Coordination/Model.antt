-- ===== src/Coordination/Model.antt =====
-- The records of packages/contracts/src that the coordination runtime reads and writes. Times are
-- milliseconds; the source keeps them as ISO texts, which `Date.parse` reads back.
use my_pi.Prelude.{ℕ, String, Option, List, Bool, true, false}

pub data WorkItemState : Type 0 where
  ready claimed active implementation_complete awaiting_evaluation : WorkItemState
  accepted needs_retry review_required blocked done cancelled : WorkItemState

pub record WorkItem : Type 0 where
  pub id : String
  pub project_id : String
  pub parent_id : Option String
  pub title : String
  pub summary : Option String
  pub state : WorkItemState
  pub assignee : Option String
  pub evaluation_spec_id : Option String
  pub accepted_evaluation_run_id : Option String
  pub version : ℕ
  pub created_at : ℕ
  pub updated_at : ℕ

pub data WorkDependencyType : Type 0 where
  depends_on blocks implements verifies : WorkDependencyType

pub record WorkDependency : Type 0 where
  pub from : String
  pub to : String
  pub type : WorkDependencyType

pub data AgentSessionStatus : Type 0 where
  active idle blocked completed expired : AgentSessionStatus

pub data PrincipalKind : Type 0 where
  human workload service agent_session_attribution : PrincipalKind

pub data PrincipalSource : Type 0 where
  authenticated_adapter enterprise_control_plane : PrincipalSource

pub record PrincipalRef : Type 0 where
  pub id : String
  pub kind : PrincipalKind
  pub source : PrincipalSource

pub record AgentSession : Type 0 where
  pub id : String
  pub project_id : String
  pub worktree_id : Option String
  pub host : String
  pub client_instance : Option String
  pub role : Option String
  pub status : AgentSessionStatus
  pub joined_at : ℕ
  pub heartbeat_at : ℕ
  pub identity : Option PrincipalRef

pub record PolicyRef : Type 0 where
  pub id : String
  pub version : Option String

pub record Project : Type 0 where
  pub id : String
  pub display_name : Option String
  pub created_at : ℕ
  pub policy_ref : Option PolicyRef

pub data IntentKind : Type 0 where
  modify refactor change_contract add remove verify investigate : IntentKind

pub data IntentState : Type 0 where
  active superseded completed cancelled : IntentState

pub data ScopeRef : Type 0 where
  path directory module_name symbol package_name : String → ScopeRef

pub record Intent : Type 0 where
  pub id : String
  pub project_id : String
  pub agent_session_id : String
  pub work_item_id : Option String
  pub kind : IntentKind
  pub summary : String
  pub targets : List ScopeRef
  pub state : IntentState
  pub created_at : ℕ
  pub expires_at : Option ℕ

pub data ScopeMode : Type 0 where
  observe shared exclusive : ScopeMode

pub record Scope : Type 0 where
  pub id : String
  pub project_id : String
  pub agent_session_id : String
  pub mode : ScopeMode
  pub refs : List ScopeRef
  pub created_at : ℕ
  pub released_at : Option ℕ

pub data EvaluationRunState : Type 0 where
  pending running completed cancelled expired : EvaluationRunState

pub record EvaluationRun : Type 0 where
  pub id : String
  pub spec_id : String
  pub spec_version : ℕ
  pub work_item_id : String
  pub intent_id : Option String
  pub change_receipt_id : Option String
  pub repository_state_ref : String
  pub attempt : ℕ
  pub state : EvaluationRunState
  pub started_at : Option ℕ
  pub completed_at : Option ℕ

pub data AcceptanceDecisionKind : Type 0 where
  accepted rejected inconclusive review_required : AcceptanceDecisionKind

pub record AcceptanceDecision : Type 0 where
  pub run_id : String
  pub decision : AcceptanceDecisionKind
  pub decision_digest : String
  pub reasons : List String

pub data EvaluationCriterionKind : Type 0 where
  test diagnostic policy performance artifact external : EvaluationCriterionKind

pub data EvaluationSeverity : Type 0 where
  info warning error critical : EvaluationSeverity

-- `expected` is the JSON text of the expected value.
pub record EvaluationCriterion : Type 0 where
  pub id : String
  pub kind : EvaluationCriterionKind
  pub required : Bool
  pub severity : EvaluationSeverity
  pub evaluator_ref : String
  pub expected : String

-- `acceptancePolicy.requiredCriteria` is always "all".
pub record EvaluationSpec : Type 0 where
  pub id : String
  pub project_id : String
  pub version : ℕ
  pub name : String
  pub criteria : List EvaluationCriterion
  pub allow_manual_override : Bool
  pub spec_digest : String
  pub created_at : ℕ

-- `ActorRef`: who an event is attributed to.
pub data Actor : Type 0 where
  agent_session : String → Actor
  principal : String → Actor
  system : String → Actor

pub data ContextArtifactKind : Type 0 where
  decision constraint interface_contract finding : ContextArtifactKind
  task_result failure handoff verification : ContextArtifactKind

pub record ContextArtifact : Type 0 where
  pub id : String
  pub kind : ContextArtifactKind
  pub author_agent_session_id : String
  pub work_item_id : Option String
  pub scope_ids : List String
  pub code_entity_ids : List String
  pub content_digest : String
  pub classification : String
  pub retention : String
  pub created_at : ℕ
  pub supersedes : Option String

pub record Repository : Type 0 where
  pub id : String
  pub project_id : String
  pub canonical_identity : String

pub record Worktree : Type 0 where
  pub id : String
  pub repository_id : String
  pub root : String
  pub head : Option String
  pub branch : Option String
  pub observed_at : ℕ

pub data PublicationStatus : Type 0 where
  applied rejected partial : PublicationStatus

-- `details` is the JSON text of what the runtime only stores: versions, resources, results, errors,
-- the verification and the start.
pub record ChangeReceipt : Type 0 where
  pub id : String
  pub proposal_id : String
  pub project_id : Option String
  pub worktree_id : Option String
  pub agent_session_id : Option String
  pub plan_digest : Option String
  pub status : PublicationStatus
  pub details : String
  pub published_at : ℕ
  pub completed_at : Option ℕ
  pub receipt_digest : Option String

-- `state === "done"` and the other comparisons of states.
abbrev pub is_done : WorkItemState → Bool
is_done done = true
is_done _ = false

abbrev pub is_blocked : WorkItemState → Bool
is_blocked blocked = true
is_blocked _ = false

abbrev pub is_depends_on : WorkDependencyType → Bool
is_depends_on depends_on = true
is_depends_on _ = false

-- `state === "claimed" || state === "active"`
abbrev pub is_held : WorkItemState → Bool
is_held claimed = true
is_held active = true
is_held _ = false

abbrev pub is_active_intent : IntentState → Bool
is_active_intent IntentState.active = true
is_active_intent _ = false
