-- ===== src/Coordination/Samples/Verdicts.antt =====
-- Completions and decisions in the small project.
use my_pi.Prelude.{◌≡◌, refl, ap, some, none, [], ◌∷◌, true, false}
use my_pi.Prelude.Dict.{get, put}
use my_pi.Prelude.Text.{is_text}
use my_pi.Prelude.Outcome.{Outcome, ok}
use my_pi.Coordination.Model.{WorkItem, WorkItemState}
use my_pi.Coordination.Store.{
  list_projections, rows_of, CoordinationDb, get_projection, apply_event_projection, append_event,
  next_sequence, max_sequence, insert_event, put_projection,
}
use my_pi.Coordination.Tx.{append, transact, ◌>>=◌}
use my_pi.Coordination.Work.{
  advanced, emit, find_item, dependency_blockers, dependencies_of, unfinished, all_dependencies,
  all_items, index_items, record_values,
}
use my_pi.Coordination.Complete.{
  CompleteInput, CompleteResult, complete, complete_tx, complete_evaluated, finish, release_intents,
  release_scopes, unblock_items, can_unblock,
}
use my_pi.Coordination.Complete.Gate.{IsAccepted, complete-gate}
use my_pi.Coordination.Complete.Finish.{IsFinished, complete-IsFinished}
use my_pi.Coordination.Decision.{
  apply_decision, apply_evaluation_decision_tx, apply_evaluation_decision,
}
use my_pi.Coordination.Decision.Gate.{IsDecided, apply_evaluation_decision-IsDecided}
use my_pi.Coordination.Model.{
  EvaluationRun, EvaluationRunState, EvaluationSpec, AcceptanceDecisionKind,
}
use my_pi.Coordination.Samples.{runtime, item, row, w3, empty_db, db}

abbrev completing_w3 : CompleteInput
completing_w3 = record { agent_session_id = "a"; work_item_id = "w3"; evaluation_run_id = none }

-- One event each for the item, the intent, the scope and the waiting item.
abbrev completed_w3 : CompleteResult
completed_w3 = record {
  work_item = advanced WorkItemState.done 5 w3;
  released_intent_ids = "i1" ∷ [];
  released_scope_ids = "s1" ∷ [];
  unblocked_work_item_ids = "w4" ∷ [];
  current_sequence = 4;
}

w3_completed : (complete runtime completing_w3 5 db).0 ≡ ok completed_w3
unfolding complete complete_tx complete_evaluated finish release_intents release_scopes
    unblock_items can_unblock transact ◌>>=◌ get_projection get find_item dependency_blockers
    dependencies_of unfinished all_dependencies all_items index_items record_values list_projections
    rows_of put put_projection emit append append_event next_sequence max_sequence insert_event
    apply_event_projection
w3_completed = refl

complete-gate_example : IsAccepted runtime completing_w3 5 w3
unfolding get_projection get
complete-gate_example =
    complete-gate runtime completing_w3 5 db w3 completed_w3 refl refl (λ h. cc h) w3_completed refl

abbrev after_w3 : CoordinationDb
after_w3 = (complete runtime completing_w3 5 db).1

complete-IsFinished_example :
    (is_text w3.assignee "a" ≡ true)
    × IsFinished runtime completing_w3 5 w3 completed_w3 db after_w3
unfolding get_projection get
complete-IsFinished_example =
    complete-IsFinished runtime completing_w3 5 db after_w3 w3 completed_w3 refl (λ h. cc h)
      (ap (λ (o : Outcome CompleteResult). (o, after_w3)) w3_completed) refl

-- A run of `s` for an item that waits for it, with the decision to accept.
abbrev waiting : WorkItem
waiting = item "w5" WorkItemState.awaiting_evaluation (some "a") (some "s") none

abbrev passed_run : EvaluationRun
passed_run = record {
  id = "r";
  spec_id = "s";
  spec_version = 1;
  work_item_id = "w5";
  intent_id = none;
  change_receipt_id = none;
  repository_state_ref = "head";
  attempt = 1;
  state = EvaluationRunState.completed;
  started_at = some 0;
  completed_at = some 1;
}

abbrev gate_spec : EvaluationSpec
gate_spec = record {
  id = "s";
  project_id = "p";
  version = 1;
  name = "gate";
  criteria = [];
  allow_manual_override = false;
  spec_digest = "d";
  created_at = 0;
}

abbrev decided_db : CoordinationDb
decided_db = record empty_db {
  work_items = ("w5", row waiting) ∷ [];
  evaluation_specs = ("s", row gate_spec) ∷ [];
  evaluation_runs = ("r", row passed_run) ∷ [];
  evaluation_decisions =
      (
        "r",
        row (record {
          run_id = "r";
          decision = AcceptanceDecisionKind.accepted;
          decision_digest = "d";
          reasons = [];
        }),
      )
      ∷ [];
}

abbrev accepted_w5 : WorkItem
accepted_w5 = record (advanced WorkItemState.accepted 5 waiting) {
  accepted_evaluation_run_id = some "r";
}

w5_accepted : (apply_evaluation_decision runtime "r" 5 decided_db).0 ≡ ok accepted_w5
unfolding apply_evaluation_decision apply_evaluation_decision_tx apply_decision transact ◌>>=◌
    get_projection get find_item emit append append_event next_sequence max_sequence insert_event
    apply_event_projection
w5_accepted = refl

abbrev after_w5 : CoordinationDb
after_w5 = (apply_evaluation_decision runtime "r" 5 decided_db).1

apply_evaluation_decision-IsDecided_example :
    IsDecided runtime 5 waiting accepted_w5 decided_db after_w5 passed_run
unfolding get_projection get
apply_evaluation_decision-IsDecided_example =
    apply_evaluation_decision-IsDecided runtime 5 decided_db after_w5 passed_run waiting accepted_w5
      refl refl refl refl (ap (λ (o : Outcome WorkItem). (o, after_w5)) w5_accepted)
