-- ===== src/Coordination/Decision.antt =====
-- `applyEvaluationDecision` (packages/coordination-runtime/src/runtime.ts).
pub mod Gate
use my_pi.Prelude.{ℕ, String, some, Bool, true, false, str_eq, if◌then◌else◌, is_some}
use my_pi.Prelude.Text.{is_text}
use my_pi.Prelude.Outcome.{
  Outcome, evaluation_not_accepted, evaluation_inconclusive, evaluation_spec_invalid,
}
use my_pi.Coordination.Model.{
  WorkItem, WorkItemState, EvaluationRun, EvaluationRunState, AcceptanceDecisionKind, Actor,
}
use my_pi.Coordination.Event.{WorkItemEvent, work_item_event}
use my_pi.Coordination.Store.{CoordinationDb, get_projection}
use my_pi.Coordination.Tx.{Tx, pure, read, or_throw, check, ◌>>=◌, ◌>>◌, transact}
use my_pi.Coordination.Work.{Runtime, emit, find_item, advanced}

abbrev pub is_completed_run : EvaluationRunState → Bool
is_completed_run EvaluationRunState.completed = true
is_completed_run _ = false

abbrev pub is_awaiting : WorkItemState → Bool
is_awaiting WorkItemState.awaiting_evaluation = true
is_awaiting _ = false

module _ (rt : Runtime) (now : ℕ) where
  abbrev evaluator : Actor
  evaluator = Actor.system "evaluation-runtime"

  -- The item after a decision, with its event.
  unfoldable pub apply_decision : AcceptanceDecisionKind → EvaluationRun → WorkItem → Tx WorkItem
  apply_decision AcceptanceDecisionKind.accepted run item = do
    let after = record (advanced WorkItemState.accepted now item) {
      accepted_evaluation_run_id = some run.id;
    }
    emit rt now evaluator (work_item_event WorkItemEvent.evaluation_accepted after)
    pure after
  apply_decision AcceptanceDecisionKind.rejected run item = do
    emit rt now evaluator (
        work_item_event WorkItemEvent.evaluation_rejected
          (advanced WorkItemState.needs_retry now item))
    pure (advanced WorkItemState.needs_retry now item)
  apply_decision _ run item = do
    emit rt now evaluator (
        work_item_event WorkItemEvent.evaluation_review_required
          (advanced WorkItemState.review_required now item))
    pure (advanced WorkItemState.review_required now item)

  -- The callback of `applyEvaluationDecision`.
  unfoldable pub apply_evaluation_decision_tx : String → Tx WorkItem
  unfolding apply_decision
  apply_evaluation_decision_tx run_id = do
    found_run ← read (λ db. get_projection run_id db.evaluation_runs)
    run ← or_throw evaluation_not_accepted found_run
    check (is_completed_run run.state) evaluation_not_accepted
    found_decision ← read (λ db. get_projection run_id db.evaluation_decisions)
    decision ← or_throw evaluation_inconclusive found_decision
    found_spec ← read (λ db. get_projection run.spec_id db.evaluation_specs)
    spec ← or_throw evaluation_spec_invalid found_spec
    check (str_eq spec.project_id rt.project_id) evaluation_spec_invalid
    item ← find_item rt run.work_item_id
    if is_some item.evaluation_spec_id
        then (do
          check (is_text item.evaluation_spec_id run.spec_id) evaluation_spec_invalid
          check (is_awaiting item.state) evaluation_not_accepted
          apply_decision decision.decision run item)
        else pure item

-- `applyEvaluationDecision`
unfoldable pub apply_evaluation_decision :
    Runtime → String → ℕ → CoordinationDb → Outcome WorkItem × CoordinationDb
unfolding apply_evaluation_decision_tx
apply_evaluation_decision rt run_id now = transact (apply_evaluation_decision_tx rt now run_id)
