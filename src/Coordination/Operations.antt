-- ===== src/Coordination/Operations.antt =====
-- The operations of the coordination runtime as one, and sequences of them.
pub mod Rules
pub mod Steps
use my_pi.Prelude.{ℕ, String, List, [], ◌∷◌}
use my_pi.Prelude.Outcome.{Outcome}
use my_pi.Coordination.Model.{Intent, ChangeReceipt}
use my_pi.Coordination.Store.{CoordinationDb}
use my_pi.Coordination.Tx.{transact}
use my_pi.Coordination.Work.{Runtime}
use my_pi.Coordination.Join.{JoinInput, join}
use my_pi.Coordination.Create.{WorkItemInput, create_work_item}
use my_pi.Coordination.Claim.{ClaimInput, claim}
use my_pi.Coordination.Declare.{DeclareIntentInput, declare_intent, PublishInput, publish}
use my_pi.Coordination.Sync.{SyncInput, heartbeat_tx}
use my_pi.Coordination.Complete.{CompleteInput, complete}
use my_pi.Coordination.Decision.{apply_evaluation_decision}
use my_pi.Coordination.Changes.{record_change_receipt, emit_impact}
use my_pi.Impact.Model.{CodeEntity, CodeEdge}
use my_pi.Impact.Engine.{ImpactInput, ImpactResult}

-- The operations, with the identifiers that are created and the times that the clock gives.
pub data Operation : Type 0 where
  joining : ℕ → JoinInput → String → ℕ → Operation
  creating : WorkItemInput → String → ℕ → Operation
  claiming : ClaimInput → ℕ → ℕ → Operation
  declaring : DeclareIntentInput → String → ℕ → ℕ → Operation
  publishing : PublishInput → String → ℕ → ℕ → Operation
  beating : SyncInput → ℕ → ℕ → Operation
  completing : CompleteInput → ℕ → Operation
  deciding : String → ℕ → Operation
  recording : ChangeReceipt → ℕ → Operation
  impacting : Intent → ℕ → Operation

-- What finds the impact of an intent in the code of a worktree.
module _ (code_state : String → List CodeEntity × List CodeEdge)
    (compute : ImpactInput → Outcome ImpactResult) where
  -- The database that an operation leaves, whether it returns or throws.
  unfoldable pub perform : Runtime → CoordinationDb → Operation → CoordinationDb
  unfolding join create_work_item claim declare_intent publish heartbeat_tx complete
      apply_evaluation_decision record_change_receipt emit_impact
  perform rt db (joining lease_ms input id now) = (join rt lease_ms input id now db).1
  perform rt db (creating input id now) = (create_work_item rt input id now db).1
  perform rt db (claiming input checked_at now) = (claim rt input checked_at now db).1
  perform rt db (declaring input id checked_at now) =
      (declare_intent rt input id checked_at now db).1
  perform rt db (publishing input id checked_at now) = (publish rt input id checked_at now db).1
  perform rt db (beating input checked_at now) =
      (transact (heartbeat_tx rt input checked_at now) db).1
  perform rt db (completing input now) = (complete rt input now db).1
  perform rt db (deciding run_id now) = (apply_evaluation_decision rt run_id now db).1
  perform rt db (recording receipt now) = (record_change_receipt rt receipt now db).1
  perform rt db (impacting intent now) = emit_impact rt code_state compute intent now db

  unfoldable pub perform_all : Runtime → CoordinationDb → List Operation → CoordinationDb
  unfolding perform
  perform_all rt db [] = db
  perform_all rt db (o ∷ os) = perform_all rt (perform rt db o) os
