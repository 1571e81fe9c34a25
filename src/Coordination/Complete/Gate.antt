-- ===== src/Coordination/Complete/Gate.antt =====
-- The evaluation gate of `complete`: an item that has an evaluation is done only by way of an
-- accepted run.
use my_pi.Prelude.{
  ℕ, ◌≡◌, ◌≢◌, refl, subst, ap, sym, ◌∙◌, some, true, false, ◌||◌, not, arith, is_some, inl, inr,
  Bool-cases,
}
use mathlib.Core.Option.{some-injective}
use my_pi.Prelude.Text.{is_given, is_text}
use my_pi.Prelude.Outcome.{ok}
use my_pi.Coordination.Model.{WorkItem, WorkItemState, is_done}
use my_pi.Coordination.Store.{CoordinationDb, get_projection}
use my_pi.Coordination.Tx.{throw}
use my_pi.Coordination.Tx.Moves.{bind-eq-ok}
use my_pi.Coordination.Tx.Inversion.{after_check, after_pure, transact-eq-ok}
use my_pi.Coordination.Work.{Runtime, advanced}
use my_pi.Coordination.Work.Inversion.{after_find_item}
use my_pi.Coordination.Complete.{
  CompleteInput, CompleteResult, same_text, await_evaluation, implement, finish, complete_evaluated,
  complete_tx, complete,
}

is_done-false : (st : WorkItemState) → st ≢ WorkItemState.done → is_done st ≡ false
is_done-false st h = ground arith

module _ (rt : Runtime) (input : CompleteInput) (now : ℕ) where
  -- The acceptance that lets an item be done.
  pub record IsAccepted (item : WorkItem) : Type 0 where
    pub state : item.state ≡ WorkItemState.accepted
    pub run_known : is_given item.accepted_evaluation_run_id ≡ true
    pub run_meant :
        (not (is_some input.evaluation_run_id)
          || same_text input.evaluation_run_id item.accepted_evaluation_run_id)
        ≡ true

  await_evaluation-state :
      (item : WorkItem) (s : CoordinationDb) (r : CompleteResult × CoordinationDb)
      → await_evaluation rt input now item s ≡ ok r
      → r.0.work_item.state ≡ WorkItemState.awaiting_evaluation
  unfolding await_evaluation
  await_evaluation-state item s r e =
      let (q, em, rest) = bind-eq-ok _ _ s r e in
      sym (
        ap (λ (p : CompleteResult × CoordinationDb). p.0.work_item.state) (after_pure q.1 r _ rest))

  implement-state :
      (item : WorkItem) (s : CoordinationDb) (r : CompleteResult × CoordinationDb)
      → implement rt input now item s ≡ ok r
      → r.0.work_item.state ≡ WorkItemState.awaiting_evaluation
  unfolding implement
  implement-state item s r e =
      let (q, em, rest) = bind-eq-ok _ _ s r e in
      await_evaluation-state (advanced WorkItemState.implementation_complete now item) q.1 r rest

  complete_evaluated-gate :
      (st : WorkItemState) (item : WorkItem) (s : CoordinationDb)
      (r : CompleteResult × CoordinationDb)
      → item.state ≡ st
      → item.state ≢ WorkItemState.done
      → complete_evaluated rt input now st item s ≡ ok r
      → r.0.work_item.state ≡ WorkItemState.done
      → IsAccepted item × (finish rt input now item s ≡ ok r)
  unfolding complete_evaluated throw
  complete_evaluated-gate WorkItemState.accepted item s r is ne e d =
      let (known, e₁) = after_check s r _ _ _ e in
      let (meant, e₂) = after_check s r _ _ _ e₁ in
      (record { state = is; run_known = known; run_meant = meant }, e₂)
  complete_evaluated-gate WorkItemState.review_required item s r is ne e d = cc
  complete_evaluated-gate WorkItemState.awaiting_evaluation item s r is ne e d = absurd (
      ne (
        ap (λ (p : CompleteResult × CoordinationDb). p.0.work_item.state) (after_pure s r _ e) ∙ d))
  complete_evaluated-gate WorkItemState.implementation_complete item s r is ne e d =
      cc (await_evaluation-state item s r e)
  complete_evaluated-gate _ item s r is ne e d = cc (implement-state item s r e)

  -- What a `complete` that makes an item done has checked, and that it went on to `finish`.
  pub record IsCompleted (item : WorkItem) (s : CoordinationDb)
      (r : CompleteResult × CoordinationDb) : Type 0 where
    pub owned : is_text item.assignee input.agent_session_id ≡ true
    pub gate : is_some item.evaluation_spec_id ≡ true → IsAccepted item
    pub finished : finish rt input now item s ≡ ok r

  pub complete_tx-IsCompleted :
      (s : CoordinationDb) (item : WorkItem) (r : CompleteResult × CoordinationDb)
      → get_projection input.work_item_id s.work_items ≡ some item
      → item.state ≢ WorkItemState.done
      → complete_tx rt input now s ≡ ok r
      → r.0.work_item.state ≡ WorkItemState.done
      → IsCompleted item s r
  unfolding complete_tx
  complete_tx-IsCompleted s item r found ne e d =
      let (w, there, e₁) = after_find_item rt s r _ _ e in
      let (mine, e₂) = after_check s r _ _ _ e₁ in
      let same : w ≡ item = some-injective _ _ (sym there ∙ found) in
      let w_ne : w.state ≢ WorkItemState.done =
        λ x. ne (sym (ap (λ (v : WorkItem). v.state) same) ∙ x) in
      let e₃ = rw (is_done-false w.state w_ne) at e₂ in
      subst (λ (i : WorkItem). IsCompleted i s r) same
        (elim (Bool-cases (is_some w.evaluation_spec_id)) [
          | inl has ↦
              let (accepted, finished) =
                complete_evaluated-gate w.state w s r refl w_ne (rw has at e₃) d in
              record { owned = mine; gate = λ _. accepted; finished = finished }
          | inr has_none ↦ record { owned = mine; gate = cc; finished = rw has_none at e₃ }
        ])

  -- An item with an evaluation that was not done and that `complete` returns as done was accepted,
  -- names the accepted run, and the run that the caller named, if any, is that run.
  pub complete-gate :
      (s : CoordinationDb) (item : WorkItem) (result : CompleteResult)
      → get_projection input.work_item_id s.work_items ≡ some item
      → is_some item.evaluation_spec_id ≡ true
      → item.state ≢ WorkItemState.done
      → (complete rt input now s).0 ≡ ok result
      → result.work_item.state ≡ WorkItemState.done
      → IsAccepted item
  unfolding complete
  complete-gate s item result found evaluated ne h d =
      (complete_tx-IsCompleted s item (result, (complete rt input now s).1) found ne
          (transact-eq-ok (complete_tx rt input now) s result h) d).gate
        evaluated
