-- ===== src/Coordination/Decision/Gate.antt =====
-- What `applyEvaluationDecision` has checked and done when it returns.
use my_pi.Prelude.{
  ℕ, ◌+◌, ◌≡◌, ap, sym, subst, ◌∙◌, String, Option, some, true, arith, is_some, str_eq,
  if◌then◌else◌,
}
use mathlib.Core.Option.{some-injective}
use my_pi.Prelude.Text.{is_text, truthy}
use my_pi.Prelude.Outcome.{ok}
use my_pi.Coordination.Model.{
  WorkItem, WorkItemState, EvaluationRun, AcceptanceDecision, AcceptanceDecisionKind, Actor,
}
use my_pi.Coordination.Event.{WorkItemEvent, work_item_event}
use my_pi.Coordination.Store.{CoordinationDb, get_projection}
use my_pi.Coordination.Tx.{pure, ◌>>◌}
use my_pi.Coordination.Tx.Inversion.{after_check, after_or_throw, after_read, transact-returns}
use my_pi.Coordination.Work.{Runtime, emit}
use my_pi.Coordination.Work.Inversion.{after_find_item, after_emit-pure}
use my_pi.Coordination.Work.Emission.{emit-work_items}
use my_pi.Coordination.Decision.{
  is_completed_run, is_awaiting, apply_decision, apply_evaluation_decision_tx,
  apply_evaluation_decision,
}

-- The state that a decision leads to.
abbrev pub decided_state : AcceptanceDecisionKind → WorkItemState
decided_state AcceptanceDecisionKind.accepted = WorkItemState.accepted
decided_state AcceptanceDecisionKind.rejected = WorkItemState.needs_retry
decided_state AcceptanceDecisionKind.inconclusive = WorkItemState.review_required
decided_state AcceptanceDecisionKind.review_required = WorkItemState.review_required

-- The run that authorizes an item after a decision.
abbrev pub decided_run : AcceptanceDecisionKind → EvaluationRun → WorkItem → Option String
decided_run AcceptanceDecisionKind.accepted run item = some run.id
decided_run _ run item = item.accepted_evaluation_run_id

is_awaiting-eq :
    (st : WorkItemState) → is_awaiting st ≡ true → st ≡ WorkItemState.awaiting_evaluation
is_awaiting-eq st h = ground arith

module _ (rt : Runtime) (now : ℕ) where
  -- The item after a decision on the run.
  abbrev pub decided_item : AcceptanceDecisionKind → EvaluationRun → WorkItem → WorkItem
  decided_item d run item = record item {
    state = decided_state d;
    accepted_evaluation_run_id = decided_run d run item;
    version = item.version + 1;
    updated_at = now;
  }

  -- An item that is the result of a callback and what its event stores.
  IsStored : WorkItem → CoordinationDb → WorkItem × CoordinationDb → Type 0
  IsStored w s r =
      (r.0 ≡ w)
      × ((j : String)
          → get_projection j r.1.work_items
            ≡ (if str_eq w.id j then some w else get_projection j s.work_items))

  emit_item-IsStored :
      (t : WorkItemEvent) (w : WorkItem) (s : CoordinationDb) (r : WorkItem × CoordinationDb)
      → truthy w.id ≡ true
      → (emit rt now (Actor.system "evaluation-runtime") (work_item_event t w) >> pure w) s ≡ ok r
      → IsStored w s r
  unfolding IsStored
  emit_item-IsStored t w s r named e =
      let (event, logged, same) = after_emit-pure rt now _ _ _ s r e in
      (same, λ j. emit-work_items rt now _ t w s r.1 event j named logged)

  apply_decision-IsStored :
      (d : AcceptanceDecisionKind) (run : EvaluationRun) (item : WorkItem) (s : CoordinationDb)
      (r : WorkItem × CoordinationDb)
      → truthy item.id ≡ true
      → apply_decision rt now d run item s ≡ ok r
      → IsStored (decided_item d run item) s r
  unfolding apply_decision
  apply_decision-IsStored AcceptanceDecisionKind.accepted run item s r named e =
      emit_item-IsStored _ _ s r named e
  apply_decision-IsStored AcceptanceDecisionKind.rejected run item s r named e =
      emit_item-IsStored _ _ s r named e
  apply_decision-IsStored AcceptanceDecisionKind.inconclusive run item s r named e =
      emit_item-IsStored _ _ s r named e
  apply_decision-IsStored AcceptanceDecisionKind.review_required run item s r named e =
      emit_item-IsStored _ _ s r named e

  -- A decision that was applied, to an item with an evaluation: what was checked, and what the
  -- table of work items then holds under each key.
  pub record IsDecided (item result : WorkItem) (s t : CoordinationDb) (run : EvaluationRun)
      : Type 0 where
    pub decision : AcceptanceDecision
    pub decision_found : get_projection run.id s.evaluation_decisions ≡ some decision
    pub completed : is_completed_run run.state ≡ true
    pub own_spec : is_text item.evaluation_spec_id run.spec_id ≡ true
    pub waited : item.state ≡ WorkItemState.awaiting_evaluation
    pub decided : result ≡ decided_item decision.decision run item
    pub stored :
        (j : String)
        → get_projection j t.work_items
          ≡ (if str_eq item.id j then some result else get_projection j s.work_items)

  -- If `applyEvaluationDecision` returns for a run (stored under its own identifier) of an item
  -- with an evaluation and a non-empty identifier, then the run is completed and of the item's
  -- specification, and the item waited for its evaluation. The item that is returned has the state
  -- that the stored decision for the run leads to, the next version, the time of the call and, if
  -- the decision is "accepted", the run as its accepted run, and is otherwise as it was. The
  -- database that the call leaves has it under its identifier, and the other items as before.
  pub apply_evaluation_decision-IsDecided :
      (s t : CoordinationDb) (run : EvaluationRun) (item result : WorkItem)
      → get_projection run.id s.evaluation_runs ≡ some run
      → get_projection run.work_item_id s.work_items ≡ some item
      → is_some item.evaluation_spec_id ≡ true
      → truthy item.id ≡ true
      → apply_evaluation_decision rt run.id now s ≡ (ok result, t)
      → IsDecided item result s t run
  unfolding apply_evaluation_decision apply_evaluation_decision_tx IsStored
  apply_evaluation_decision-IsDecided s t run item result run_there item_there evaluated named h =
      let r : WorkItem × CoordinationDb = (result, t) in
      let e = transact-returns (apply_evaluation_decision_tx rt now run.id) s result t h in
      let (q, run_found, e₁) = after_or_throw s r _ _ _ (after_read s r _ _ e) in
      let (completed, e₂) = after_check s r _ _ _ e₁ in
      let (d, d_found, e₃) = after_or_throw s r _ _ _ (after_read s r _ _ e₂) in
      let (spec, spec_found, e₄) = after_or_throw s r _ _ _ (after_read s r _ _ e₃) in
      let (own, e₅) = after_check s r _ _ _ e₄ in
      let (w, w_found, e₆) = after_find_item rt s r _ _ e₅ in
      let same_run : q ≡ run = some-injective _ _ (sym run_found ∙ run_there) in
      let same_item : w ≡ item = some-injective _ _ (
        sym w_found
        ∙ ap (λ (x : EvaluationRun). get_projection x.work_item_id s.work_items) same_run
        ∙ item_there) in
      let has_spec : is_some w.evaluation_spec_id ≡ true =
        ap (λ (x : WorkItem). is_some x.evaluation_spec_id) same_item ∙ evaluated in
      let (own_spec, e₇) = after_check s r _ _ _ (rw has_spec at e₆) in
      let (waits, e₈) = after_check s r _ _ _ e₇ in
      let w_named : truthy w.id ≡ true = ap (λ (x : WorkItem). truthy x.id) same_item ∙ named in
      let done : IsStored (decided_item d.decision run item) s r =
        subst (λ (x : WorkItem). IsStored (decided_item d.decision run x) s r) same_item
          (subst (λ (x : EvaluationRun). IsStored (decided_item d.decision x w) s r) same_run
            (apply_decision-IsStored d.decision q w s r w_named e₈)) in
      record {
        decision = d;
        decision_found = d_found;
        completed =
            subst (λ (x : EvaluationRun). is_completed_run x.state ≡ true) same_run completed;
        own_spec =
            subst (λ (x : WorkItem). is_text x.evaluation_spec_id run.spec_id ≡ true) same_item
              (subst (λ (x : EvaluationRun). is_text w.evaluation_spec_id x.spec_id ≡ true) same_run
                own_spec);
        waited =
            subst (λ (x : WorkItem). x.state ≡ WorkItemState.awaiting_evaluation) same_item
              (is_awaiting-eq w.state waits);
        decided = done.0;
        stored = λ j.
            subst
              (λ (x : WorkItem).
                get_projection j t.work_items
                ≡ (if str_eq item.id j then some x else get_projection j s.work_items))
              (sym done.0) (done.1 j);
      }
