-- ===== src/Coordination/Complete.antt =====
-- `complete` (packages/coordination-runtime/src/runtime.ts and complete.ts).
pub mod Gate
pub mod Releases
pub mod Writes
pub mod Finish
use my_pi.Prelude.{
  ℕ, String, Option, none, some, List, [], ◌∷◌, ◌++◌, Bool, true, false, ◌&&◌, ◌||◌, not, str_eq,
  if◌then◌else◌, is_some,
}
use my_pi.Prelude.Dict.{Dict, put}
use my_pi.Prelude.Text.{is_given, is_text}
use my_pi.Prelude.Outcome.{Outcome, work_item_conflict, evaluation_not_accepted}
use my_pi.Coordination.Model.{
  WorkItem, WorkItemState, WorkDependency, Intent, IntentState, Scope, Actor, is_done, is_blocked,
  is_active_intent,
}
use my_pi.Coordination.Event.{
  WorkItemEvent, IntentEvent, ScopeEvent, work_item_event, intent_event, scope_event,
}
use my_pi.Coordination.Store.{CoordinationDb, list_projections}
use my_pi.Coordination.Tx.{Tx, pure, throw, read, check, ◌>>=◌, ◌>>◌, transact}
use my_pi.Coordination.Work.{
  Runtime, dependency_blockers, record_values, all_dependencies, all_items, emit, find_item,
  advanced,
}

pub record CompleteInput : Type 0 where
  pub agent_session_id : String
  pub work_item_id : String
  pub evaluation_run_id : Option String

pub record CompleteResult : Type 0 where
  pub work_item : WorkItem
  pub released_intent_ids : List String
  pub released_scope_ids : List String
  pub unblocked_work_item_ids : List String
  pub current_sequence : ℕ

abbrev pub nothing_released : WorkItem → ℕ → CompleteResult
nothing_released item sequence = record {
  work_item = item;
  released_intent_ids = [];
  released_scope_ids = [];
  unblocked_work_item_ids = [];
  current_sequence = sequence;
}

-- `a === b` for optional texts.
abbrev pub same_text : Option String → Option String → Bool
same_text none none = true
same_text (some s) (some t) = str_eq s t
same_text _ _ = false

module _ (rt : Runtime) (input : CompleteInput) (now : ℕ) where
  abbrev actor : Actor
  actor = Actor.agent_session input.agent_session_id

  -- The loops of `complete`, each with the identifiers so far and the last sequence number.
  unfoldable pub release_intents : List Intent → List String → ℕ → Tx (List String × ℕ)
  release_intents [] ids sequence = pure (ids, sequence)
  release_intents (i ∷ rest) ids sequence =
      if str_eq i.agent_session_id input.agent_session_id
        && (is_text i.work_item_id input.work_item_id && is_active_intent i.state)
      then (do
        e ←
            emit rt now actor
              (intent_event IntentEvent.superseded (record i { state = IntentState.completed }))
        release_intents rest (ids ++ i.id ∷ []) e.sequence)
      else release_intents rest ids sequence

  unfoldable pub release_scopes : List Scope → List String → ℕ → Tx (List String × ℕ)
  release_scopes [] ids sequence = pure (ids, sequence)
  release_scopes (s ∷ rest) ids sequence =
      if str_eq s.agent_session_id input.agent_session_id && not (is_some s.released_at)
      then (do
        e ←
            emit rt now actor
              (scope_event ScopeEvent.released (record s { released_at = some now }))
        release_scopes rest (ids ++ s.id ∷ []) e.sequence)
      else release_scopes rest ids sequence

  -- `blockers.length > 0`, negated.
  abbrev pub none_left : List WorkItem → Bool
  none_left [] = true
  none_left (b ∷ bs) = false

  -- What `continue`s in the last loop, negated.
  unfoldable pub can_unblock : List WorkDependency → Dict WorkItem → WorkItem → Bool
  can_unblock deps items w = is_blocked w.state && none_left (dependency_blockers w deps items)

  unfoldable pub unblock_items :
      List WorkDependency → Dict WorkItem → List WorkItem → List String → ℕ → Tx (List String × ℕ)
  unfolding can_unblock
  unblock_items deps items [] ids sequence = pure (ids, sequence)
  unblock_items deps items (w ∷ rest) ids sequence =
      if can_unblock deps items w
      then (do
        e ←
            emit rt now (Actor.system "coordination-runtime")
              (work_item_event WorkItemEvent.unblocked (advanced WorkItemState.ready now w))
        unblock_items deps items rest (ids ++ w.id ∷ []) e.sequence)
      else unblock_items deps items rest ids sequence

  -- The last part of `complete`: the item is done, and what it held is let go.
  unfoldable pub finish : WorkItem → Tx CompleteResult
  unfolding release_intents release_scopes unblock_items
  finish item = do
    e ←
        emit rt now actor
          (work_item_event WorkItemEvent.completed (advanced WorkItemState.done now item))
    intents ← read (λ db. record_values (list_projections rt.project_id db.intents))
    i ← release_intents intents [] e.sequence
    scopes ← read (λ db. record_values (list_projections rt.project_id db.scopes))
    s ← release_scopes scopes [] i.1
    deps ← read (λ db. all_dependencies rt db)
    items ← read (λ db. put item.id (advanced WorkItemState.done now item) (all_items rt db))
    candidates ← read (λ db. record_values (list_projections rt.project_id db.work_items))
    u ← unblock_items deps items candidates [] s.1
    pure (record {
      work_item = advanced WorkItemState.done now item;
      released_intent_ids = i.0;
      released_scope_ids = s.0;
      unblocked_work_item_ids = u.0;
      current_sequence = u.1;
    })

  -- `complete` of an item whose evaluation has not been asked for.
  unfoldable pub await_evaluation : WorkItem → Tx CompleteResult
  await_evaluation item = do
    e ← emit rt now actor (
        work_item_event WorkItemEvent.awaiting_evaluation
          (advanced WorkItemState.awaiting_evaluation now item))
    pure (nothing_released (advanced WorkItemState.awaiting_evaluation now item) e.sequence)

  unfoldable pub implement : WorkItem → Tx CompleteResult
  unfolding await_evaluation
  implement item = do
    emit rt now actor (
        work_item_event WorkItemEvent.implementation_complete
          (advanced WorkItemState.implementation_complete now item))
    await_evaluation (advanced WorkItemState.implementation_complete now item)

  -- The item's evaluation in `complete`, by the state of the item.
  unfoldable pub complete_evaluated : WorkItemState → WorkItem → Tx CompleteResult
  unfolding finish implement
  complete_evaluated WorkItemState.accepted item = do
    check (is_given item.accepted_evaluation_run_id) evaluation_not_accepted
    check
        (not (is_some input.evaluation_run_id)
          || same_text input.evaluation_run_id item.accepted_evaluation_run_id)
        evaluation_not_accepted
    finish item
  complete_evaluated WorkItemState.review_required item = throw evaluation_not_accepted
  complete_evaluated WorkItemState.awaiting_evaluation item = pure (nothing_released item 0)
  complete_evaluated WorkItemState.implementation_complete item = await_evaluation item
  complete_evaluated _ item = implement item

  -- The callback of `complete`.
  unfoldable pub complete_tx : Tx CompleteResult
  unfolding complete_evaluated
  complete_tx = do
    item ← find_item rt input.work_item_id
    check (is_text item.assignee input.agent_session_id) work_item_conflict
    if is_done item.state
        then pure (nothing_released item 0)
        else if is_some item.evaluation_spec_id
        then complete_evaluated item.state item
        else finish item

-- `complete`
unfoldable pub complete :
    Runtime → CompleteInput → ℕ → CoordinationDb → Outcome CompleteResult × CoordinationDb
unfolding complete_tx
complete rt input now = transact (complete_tx rt input now)
