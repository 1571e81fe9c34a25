-- ===== src/Coordination/Complete/Releases.antt =====
-- What `complete` lets go: the lists that it returns are those of the records that meet the tests of
-- its loops, in their order.
use my_pi.Prelude.{
  ℕ, ◌≡◌, ap, sym, ◌∙◌, String, List, [], ◌∷◌, ◌++◌, Bool, ◌&&◌, not, arith, str_eq, is_some, inl,
  inr, Bool-cases, filter, map,
}
use mathlib.Core.List.{append-nil, append_assoc}
use my_pi.Prelude.Dict.{Dict}
use my_pi.Prelude.Text.{is_text}
use my_pi.Prelude.Outcome.{ok}
use my_pi.Coordination.Model.{WorkItem, WorkDependency, Intent, Scope, Actor, is_active_intent}
use my_pi.Coordination.Event.{CoordinationEvent, IntentEvent, ScopeEvent, intent_event, scope_event}
use my_pi.Coordination.Store.{CoordinationDb, apply_event_projection}
use my_pi.Coordination.Tx.Moves.{bind-eq-ok}
use my_pi.Coordination.Tx.Inversion.{after_pure}
use my_pi.Coordination.Work.{Runtime, emit}
use my_pi.Coordination.Work.Emission.{emit-eq-apply}
use my_pi.Coordination.Complete.{
  CompleteInput, release_intents, release_scopes, unblock_items, can_unblock,
}

-- An event of an intent or a scope leaves the work items and their dependencies alone.
abbrev SameWork : CoordinationDb → CoordinationDb → Type 0
SameWork s t = (t.work_items ≡ s.work_items) × (t.work_dependencies ≡ s.work_dependencies)

module _ (rt : Runtime) (now : ℕ) (actor : Actor) (s : CoordinationDb)
    (r : CoordinationEvent × CoordinationDb) where
  emit_intent-SameWork :
      (t : IntentEvent) (i : Intent)
      → emit rt now actor (intent_event t i) s ≡ ok r
      → SameWork s r.1 × (r.1.scopes ≡ s.scopes)
  unfolding apply_event_projection
  emit_intent-SameWork t i e =
      rw (emit-eq-apply rt now actor (intent_event t i) s r e) (ground arith)

  emit_scope-SameWork :
      (t : ScopeEvent) (c : Scope) → emit rt now actor (scope_event t c) s ≡ ok r → SameWork s r.1
  unfolding apply_event_projection
  emit_scope-SameWork t c e = rw (emit-eq-apply rt now actor (scope_event t c) s r e) (ground arith)

module _ (rt : Runtime) (input : CompleteInput) (now : ℕ) where
  -- An active intent of the agent for the item.
  abbrev pub is_released_intent : Intent → Bool
  is_released_intent i =
      str_eq i.agent_session_id input.agent_session_id
      && (is_text i.work_item_id input.work_item_id && is_active_intent i.state)

  pub release_intents-eq :
      (is : List Intent) (ids : List String) (n : ℕ) (s : CoordinationDb)
      (r : (List String × ℕ) × CoordinationDb)
      → release_intents rt input now is ids n s ≡ ok r
      → (r.0.0 ≡ ids ++ map (λ (i : Intent). i.id) (filter is_released_intent is))
        × SameWork s r.1
        × (r.1.scopes ≡ s.scopes)
  unfolding release_intents
  release_intents-eq [] ids n s r e =
      let same = sym (after_pure s r (ids, n) e) in
      (
        ap (λ (p : (List String × ℕ) × CoordinationDb). p.0.0) same ∙ sym (append-nil ids),
        (
          ap (λ (p : (List String × ℕ) × CoordinationDb). p.1.work_items) same,
          ap (λ (p : (List String × ℕ) × CoordinationDb). p.1.work_dependencies) same,
        ),
        ap (λ (p : (List String × ℕ) × CoordinationDb). p.1.scopes) same,
      )
  release_intents-eq (i ∷ is) ids n s r e = elim (Bool-cases (is_released_intent i)) [
    | inl mine ↦
        let (q, em, rest) = bind-eq-ok _ _ s r (rw mine at e) in
        let (list, work, scopes) =
          release_intents-eq is (ids ++ i.id ∷ []) q.0.sequence q.1 r rest in
        let (work', scopes') = emit_intent-SameWork rt now _ s q _ _ em in
        rw mine (
          list ∙ append_assoc ids (i.id ∷ []) _,
          (work.0 ∙ work'.0, work.1 ∙ work'.1),
          scopes ∙ scopes',
        )
    | inr other ↦ rw other (release_intents-eq is ids n s r (rw other at e))
  ]

  -- A scope of the agent that it has not released.
  abbrev pub is_released_scope : Scope → Bool
  is_released_scope c =
      str_eq c.agent_session_id input.agent_session_id && not (is_some c.released_at)

  pub release_scopes-eq :
      (cs : List Scope) (ids : List String) (n : ℕ) (s : CoordinationDb)
      (r : (List String × ℕ) × CoordinationDb)
      → release_scopes rt input now cs ids n s ≡ ok r
      → (r.0.0 ≡ ids ++ map (λ (c : Scope). c.id) (filter is_released_scope cs)) × SameWork s r.1
  unfolding release_scopes
  release_scopes-eq [] ids n s r e =
      let same = sym (after_pure s r (ids, n) e) in
      (
        ap (λ (p : (List String × ℕ) × CoordinationDb). p.0.0) same ∙ sym (append-nil ids),
        (
          ap (λ (p : (List String × ℕ) × CoordinationDb). p.1.work_items) same,
          ap (λ (p : (List String × ℕ) × CoordinationDb). p.1.work_dependencies) same,
        ),
      )
  release_scopes-eq (c ∷ cs) ids n s r e = elim (Bool-cases (is_released_scope c)) [
    | inl mine ↦
        let (q, em, rest) = bind-eq-ok _ _ s r (rw mine at e) in
        let (list, work) = release_scopes-eq cs (ids ++ c.id ∷ []) q.0.sequence q.1 r rest in
        let work' = emit_scope-SameWork rt now _ s q _ _ em in
        rw mine (list ∙ append_assoc ids (c.id ∷ []) _, (work.0 ∙ work'.0, work.1 ∙ work'.1))
    | inr other ↦ rw other (release_scopes-eq cs ids n s r (rw other at e))
  ]

  pub unblock_items-eq :
      (deps : List WorkDependency) (items : Dict WorkItem) (ws : List WorkItem) (ids : List String)
      (n : ℕ) (s : CoordinationDb) (r : (List String × ℕ) × CoordinationDb)
      → unblock_items rt input now deps items ws ids n s ≡ ok r
      → r.0.0
        ≡ ids ++ map (λ (w : WorkItem). w.id) (filter (can_unblock rt input now deps items) ws)
  unfolding unblock_items
  unblock_items-eq deps items [] ids n s r e =
      ap (λ (p : (List String × ℕ) × CoordinationDb). p.0.0) (sym (after_pure s r (ids, n) e))
      ∙ sym (append-nil ids)
  unblock_items-eq deps items (w ∷ ws) ids n s r e =
      elim (Bool-cases (can_unblock rt input now deps items w)) [
        | inl free ↦
            let (q, em, rest) = bind-eq-ok _ _ s r (rw free at e) in
            rw free (
              unblock_items-eq deps items ws (ids ++ w.id ∷ []) q.0.sequence q.1 r rest
              ∙ append_assoc ids (w.id ∷ []) _)
        | inr blocked ↦ rw blocked (unblock_items-eq deps items ws ids n s r (rw blocked at e))
      ]
