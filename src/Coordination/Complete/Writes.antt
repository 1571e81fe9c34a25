-- ===== src/Coordination/Complete/Writes.antt =====
-- What the loops of `complete` write: one event for each record that meets the test of its loop, in
-- their order.
use my_pi.Prelude.{
  ℕ, ◌≡◌, subst, ap, sym, ◌∙◌, String, List, [], ◌∷◌, ◌++◌, some, inl, inr, Bool-cases, filter, map,
}
use my_pi.Prelude.Dict.{Dict}
use my_pi.Prelude.Outcome.{Outcome, ok, err}
use my_pi.Coordination.Model.{
  WorkItem, WorkItemState, WorkDependency, Intent, IntentState, Scope, Actor,
}
use my_pi.Coordination.Event.{
  CoordinationEvent, EventBody, WorkItemEvent, IntentEvent, ScopeEvent, work_item_event,
  intent_event, scope_event,
}
use my_pi.Coordination.Store.{CoordinationDb}
use my_pi.Coordination.Tx.{Tx, pure, ◌>>=◌}
use my_pi.Coordination.Tx.Moves.{bind-eq-ok}
use my_pi.Coordination.Tx.Inversion.{after_pure}
use my_pi.Coordination.Work.{Runtime, emit, advanced}
use my_pi.Coordination.Complete.{
  CompleteInput, release_intents, release_scopes, unblock_items, can_unblock,
}
use my_pi.Coordination.Complete.Releases.{is_released_intent, is_released_scope}

module _ (rt : Runtime) (now : ℕ) where
  -- Events with their actors, appended one after the other; the result is the last number.
  unfoldable pub emit_all : List (Actor × EventBody) → ℕ → Tx ℕ
  emit_all [] n = pure n
  emit_all ((actor, body) ∷ rest) n = do e ← emit rt now actor body; emit_all rest e.sequence

  emit_all-next :
      (actor : Actor) (body : EventBody) (rest : List (Actor × EventBody)) (n : ℕ)
      (s : CoordinationDb) (q : CoordinationEvent × CoordinationDb) (r : ℕ × CoordinationDb)
      → emit rt now actor body s ≡ ok q
      → emit_all rest q.0.sequence q.1 ≡ ok r
      → emit_all ((actor, body) ∷ rest) n s ≡ ok r
  unfolding emit_all ◌>>=◌
  emit_all-next actor body rest n s q r h k =
      ap
        (λ (o : Outcome (CoordinationEvent × CoordinationDb)).
          elim o as (λ _. Outcome (ℕ × CoordinationDb)) [
            | ok p ↦ emit_all rest p.0.sequence p.1
            | err c ↦ err c
          ])
        h
      ∙ k

  pub emit_all-append :
      (xs ys : List (Actor × EventBody)) (n : ℕ) (s : CoordinationDb) (q r : ℕ × CoordinationDb)
      → emit_all xs n s ≡ ok q
      → emit_all ys q.0 q.1 ≡ ok r
      → emit_all (xs ++ ys) n s ≡ ok r
  unfolding emit_all
  emit_all-append [] ys n s q r h k =
      subst (λ (p : ℕ × CoordinationDb). emit_all ys p.0 p.1 ≡ ok r) (sym (after_pure s q n h)) k
  emit_all-append ((actor, body) ∷ xs) ys n s q r h k =
      let (p, em, rest) = bind-eq-ok _ _ s q h in
      emit_all-next actor body (xs ++ ys) n s p r em
        (emit_all-append xs ys p.0.sequence p.1 q r rest k)

  module _ (input : CompleteInput) where
    abbrev pub completion : Intent → Actor × EventBody
    completion i = (
      Actor.agent_session input.agent_session_id,
      intent_event IntentEvent.superseded (record i { state = IntentState.completed }),
    )

    abbrev pub release : Scope → Actor × EventBody
    release c = (
      Actor.agent_session input.agent_session_id,
      scope_event ScopeEvent.released (record c { released_at = some now }),
    )

    abbrev pub unblocking : WorkItem → Actor × EventBody
    unblocking w = (
      Actor.system "coordination-runtime",
      work_item_event WorkItemEvent.unblocked (advanced WorkItemState.ready now w),
    )

    pub release_intents-emit_all :
        (is : List Intent) (ids : List String) (n : ℕ) (s : CoordinationDb)
        (r : (List String × ℕ) × CoordinationDb)
        → release_intents rt input now is ids n s ≡ ok r
        → emit_all (map completion (filter (is_released_intent rt input now) is)) n s
          ≡ ok (r.0.1, r.1)
    unfolding release_intents emit_all pure
    release_intents-emit_all [] ids n s r e =
        ap (λ (p : (List String × ℕ) × CoordinationDb). ok (p.0.1, p.1)) (after_pure s r (ids, n) e)
    release_intents-emit_all (i ∷ is) ids n s r e =
        elim (Bool-cases (is_released_intent rt input now i)) [
          | inl mine ↦
              let (q, em, rest) = bind-eq-ok _ _ s r (rw mine at e) in
              rw mine (
                emit_all-next _ _ _ n s q (r.0.1, r.1) em
                  (release_intents-emit_all is (ids ++ i.id ∷ []) q.0.sequence q.1 r rest))
          | inr other ↦ rw other (release_intents-emit_all is ids n s r (rw other at e))
        ]

    pub release_scopes-emit_all :
        (cs : List Scope) (ids : List String) (n : ℕ) (s : CoordinationDb)
        (r : (List String × ℕ) × CoordinationDb)
        → release_scopes rt input now cs ids n s ≡ ok r
        → emit_all (map release (filter (is_released_scope rt input now) cs)) n s ≡ ok (r.0.1, r.1)
    unfolding release_scopes emit_all pure
    release_scopes-emit_all [] ids n s r e =
        ap (λ (p : (List String × ℕ) × CoordinationDb). ok (p.0.1, p.1)) (after_pure s r (ids, n) e)
    release_scopes-emit_all (c ∷ cs) ids n s r e =
        elim (Bool-cases (is_released_scope rt input now c)) [
          | inl mine ↦
              let (q, em, rest) = bind-eq-ok _ _ s r (rw mine at e) in
              rw mine (
                emit_all-next _ _ _ n s q (r.0.1, r.1) em
                  (release_scopes-emit_all cs (ids ++ c.id ∷ []) q.0.sequence q.1 r rest))
          | inr other ↦ rw other (release_scopes-emit_all cs ids n s r (rw other at e))
        ]

    pub unblock_items-emit_all :
        (deps : List WorkDependency) (items : Dict WorkItem) (ws : List WorkItem)
        (ids : List String) (n : ℕ) (s : CoordinationDb) (r : (List String × ℕ) × CoordinationDb)
        → unblock_items rt input now deps items ws ids n s ≡ ok r
        → emit_all (map unblocking (filter (can_unblock rt input now deps items) ws)) n s
          ≡ ok (r.0.1, r.1)
    unfolding unblock_items emit_all pure
    unblock_items-emit_all deps items [] ids n s r e =
        ap (λ (p : (List String × ℕ) × CoordinationDb). ok (p.0.1, p.1)) (after_pure s r (ids, n) e)
    unblock_items-emit_all deps items (w ∷ ws) ids n s r e =
        elim (Bool-cases (can_unblock rt input now deps items w)) [
          | inl free ↦
              let (q, em, rest) = bind-eq-ok _ _ s r (rw free at e) in
              rw free (
                emit_all-next _ _ _ n s q (r.0.1, r.1) em
                  (unblock_items-emit_all deps items ws (ids ++ w.id ∷ []) q.0.sequence q.1 r rest))
          | inr blocked ↦
              rw blocked (unblock_items-emit_all deps items ws ids n s r (rw blocked at e))
        ]
