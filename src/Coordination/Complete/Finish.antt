-- ===== src/Coordination/Complete/Finish.antt =====
-- The whole of what `complete` does to an item that becomes done.
use my_pi.Prelude.{ℕ, ◌≡◌, ◌≢◌, refl, ap, sym, ◌∙◌, some, List, [], ◌++◌, true, filter, map}
use my_pi.Prelude.Dict.{put}
use my_pi.Prelude.Text.{is_text}
use my_pi.Prelude.Outcome.{ok}
use my_pi.Coordination.Model.{WorkItem, WorkItemState, Intent, Scope, Actor}
use my_pi.Coordination.Event.{CoordinationEvent, WorkItemEvent, work_item_event}
use my_pi.Coordination.Store.{CoordinationDb, Projection, get_projection, list_projections}
use my_pi.Coordination.Tx.Moves.{bind-eq-ok}
use my_pi.Coordination.Tx.Inversion.{after_pure, after_read, transact-returns}
use my_pi.Coordination.Work.{Runtime, advanced, all_dependencies, all_items, record_values, emit}
use my_pi.Coordination.Complete.{
  CompleteInput, CompleteResult, can_unblock, unblock_items, finish, complete_tx, complete,
}
use my_pi.Coordination.Complete.Gate.{complete_tx-IsCompleted}
use my_pi.Coordination.Complete.Releases.{
  is_released_intent, is_released_scope, release_intents-eq, release_scopes-eq, unblock_items-eq,
}
use my_pi.Coordination.Complete.Writes.{
  emit_all, emit_all-append, completion, release, unblocking, release_intents-emit_all,
  release_scopes-emit_all, unblock_items-emit_all,
}

module _ (rt : Runtime) (input : CompleteInput) (now : ℕ) where
  -- The item is stored as done by an event, which leads to the database `logged`. What is let go
  -- is read off that database: the agent's active intents for the item, its scopes that are not
  -- released, and the blocked items of the project whose dependencies are all done or gone. One
  -- event for each of them, in this order, leads from `logged` to the database `t`: the intents
  -- completed, the scopes released and the items ready. The number of the last event is returned.
  pub record IsFinished (item : WorkItem) (result : CompleteResult) (s t : CoordinationDb)
      : Type 0 where
    pub event : CoordinationEvent
    pub logged : CoordinationDb
    pub intents : List Intent
    pub scopes : List Scope
    pub work_items : List WorkItem
    pub done :
        emit rt now
          (Actor.agent_session input.agent_session_id)
          (work_item_event WorkItemEvent.completed (advanced WorkItemState.done now item))
          s
        ≡ ok (event, logged)
    pub intents_of :
        intents
        ≡ filter
            (is_released_intent rt input now)
            (record_values (list_projections rt.project_id logged.intents))
    pub scopes_of :
        scopes
        ≡ filter
            (is_released_scope rt input now)
            (record_values (list_projections rt.project_id logged.scopes))
    pub work_items_of :
        work_items
        ≡ filter
            (can_unblock rt input now
              (all_dependencies rt logged)
              (put item.id (advanced WorkItemState.done now item) (all_items rt logged)))
            (record_values (list_projections rt.project_id logged.work_items))
    pub work_item : result.work_item ≡ advanced WorkItemState.done now item
    pub released_intents : result.released_intent_ids ≡ map (λ (i : Intent). i.id) intents
    pub released_scopes : result.released_scope_ids ≡ map (λ (c : Scope). c.id) scopes
    pub unblocked : result.unblocked_work_item_ids ≡ map (λ (w : WorkItem). w.id) work_items
    pub written :
        emit_all rt now
          (map (completion rt now input) intents
            ++ (map (release rt now input) scopes ++ map (unblocking rt now input) work_items))
          event.sequence
          logged
        ≡ ok (result.current_sequence, t)

  -- The reads after the loops see the tables as they were when the item was stored.
  record LeftAlone (t u : CoordinationDb) : Type 0 where
    work_items : u.work_items ≡ t.work_items
    work_dependencies : u.work_dependencies ≡ t.work_dependencies

  -- The blocked items of the project that nothing blocks once an item is done.
  abbrev free_items : WorkItem → CoordinationDb → List WorkItem
  free_items item t =
      filter (can_unblock rt input now (all_dependencies rt t) (put item.id item (all_items rt t)))
        (record_values (list_projections rt.project_id t.work_items))

  free_items-LeftAlone :
      (item : WorkItem) (t u : CoordinationDb)
      → LeftAlone t u
      → free_items item u ≡ free_items item t
  unfolding all_dependencies all_items
  free_items-LeftAlone item t u h = rw (h.work_items, h.work_dependencies) refl

  finish-eq-ok :
      (item : WorkItem) (s : CoordinationDb) (r : CompleteResult × CoordinationDb)
      → finish rt input now item s ≡ ok r
      → IsFinished item r.0 s r.1
  unfolding finish
  finish-eq-ok item s r e =
      let after : WorkItem = advanced WorkItemState.done now item in
      let (q, em, e₁) = bind-eq-ok _ _ s r e in
      let (i, ei, e₂) = bind-eq-ok _ _ q.1 r (after_read q.1 r _ _ e₁) in
      let (i_ids, i_same, i_scopes) = release_intents-eq rt input now _ [] q.0.sequence q.1 i ei in
      let (c, ec, e₃) = bind-eq-ok _ _ i.1 r (after_read i.1 r _ _ e₂) in
      let (c_ids, c_same) = release_scopes-eq rt input now _ [] i.0.1 i.1 c ec in
      let e₄ = after_read c.1 r _ _ (after_read c.1 r _ _ (after_read c.1 r _ _ e₃)) in
      let deps = all_dependencies rt c.1 in
      let items = put item.id after (all_items rt c.1) in
      let candidates = record_values (list_projections rt.project_id c.1.work_items) in
      let (u, eu, e₅) =
        bind-eq-ok (unblock_items rt input now deps items candidates [] c.0.1) _ c.1 r e₄ in
      let last = after_pure u.1 r _ e₅ in
      let scopes_same =
        ap
          (λ (t : Projection Scope).
            filter (is_released_scope rt input now)
              (record_values (list_projections rt.project_id t)))
          i_scopes in
      let items_same =
        free_items-LeftAlone after q.1 c.1
          (record { work_items = c_same.0 ∙ i_same.0; work_dependencies = c_same.1 ∙ i_same.1 }) in
      record {
        event = q.0;
        logged = q.1;
        intents = filter (is_released_intent rt input now) _;
        scopes = filter (is_released_scope rt input now) _;
        work_items = free_items after c.1;
        done = em;
        intents_of = refl;
        scopes_of = scopes_same;
        work_items_of = items_same;
        work_item = sym (ap (λ (p : CompleteResult × CoordinationDb). p.0.work_item) last);
        released_intents =
            sym (ap (λ (p : CompleteResult × CoordinationDb). p.0.released_intent_ids) last)
            ∙ i_ids;
        released_scopes =
            sym (ap (λ (p : CompleteResult × CoordinationDb). p.0.released_scope_ids) last) ∙ c_ids;
        unblocked =
            sym (ap (λ (p : CompleteResult × CoordinationDb). p.0.unblocked_work_item_ids) last)
            ∙ unblock_items-eq rt input now deps items candidates [] c.0.1 c.1 u eu;
        written =
            emit_all-append rt now _ _ q.0.sequence q.1 (i.0.1, i.1) _
              (release_intents-emit_all rt now input _ [] q.0.sequence q.1 i ei)
              (emit_all-append rt now _ _ i.0.1 i.1 (c.0.1, c.1) (u.0.1, u.1)
                (release_scopes-emit_all rt now input _ [] i.0.1 i.1 c ec)
                (unblock_items-emit_all rt now input deps items candidates [] c.0.1 c.1 u eu))
            ∙ ap (λ (p : CompleteResult × CoordinationDb). ok (p.0.current_sequence, p.1)) last;
      }

  -- Who makes an item done is its assignee. An event stores the item as done, and the rest of what
  -- the call leaves in the database is one event each, in this order, for the agent's active
  -- intents for the item, which it completes, for its unreleased scopes, which it releases, and for
  -- the blocked items of the project that no dependency blocks once the item is done, which it
  -- makes ready, all as the tables were when the item had been stored. The returned lists are the
  -- identifiers of these, and the returned number is that of the last event.
  pub complete-IsFinished :
      (s t : CoordinationDb) (item : WorkItem) (result : CompleteResult)
      → get_projection input.work_item_id s.work_items ≡ some item
      → item.state ≢ WorkItemState.done
      → complete rt input now s ≡ (ok result, t)
      → result.work_item.state ≡ WorkItemState.done
      → (is_text item.assignee input.agent_session_id ≡ true) × IsFinished item result s t
  unfolding complete
  complete-IsFinished s t item result found ne h d =
      let done =
        complete_tx-IsCompleted rt input now s item (result, t) found ne
          (transact-returns (complete_tx rt input now) s result t h) d in
      (done.owned, finish-eq-ok item s (result, t) done.finished)
