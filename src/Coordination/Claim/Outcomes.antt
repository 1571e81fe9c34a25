-- ===== src/Coordination/Claim/Outcomes.antt =====
-- What `claim` has checked and done, by the way that it ends.
use my_pi.Prelude.{
  ℕ, ◌≡◌, ◌≢◌, refl, subst, ap, sym, String, some, List, [], ◌∷◌, true, false, ◌&&◌, arith, ==_iff,
  is_some, ◌⊎◌, inl, inr, Bool-cases, map,
}
use my_pi.Prelude.Text.{is_text}
use my_pi.Prelude.Outcome.{ok}
use my_pi.Coordination.Model.{WorkItem, WorkItemState, AgentSession, Actor, is_held, is_blocked}
use my_pi.Coordination.Event.{CoordinationEvent, WorkItemEvent, work_item_event}
use my_pi.Coordination.Store.{CoordinationDb, get_projection}
use my_pi.Coordination.Tx.Inversion.{after_check, after_read, after_pure}
use my_pi.Coordination.Work.{
  Runtime, session_expired, dependency_blockers, all_dependencies, all_items, emit,
}
use my_pi.Coordination.Work.Inversion.{after_find_item, after_live_session, after_emit-pure}
use my_pi.Coordination.Claim.{
  ClaimInput, ClaimResult, held, held_up, is_past_claim, is_taken, assigned, claim_blocked,
  claim_free, claim_with, claim_unheld, claim_tx,
}

abbrev item_or : WorkItem → ClaimResult → WorkItem
item_or d (held w) = w
item_or d (held_up ids w) = d

module _ (rt : Runtime) (input : ClaimInput) (now : ℕ) where
  abbrev pub blockers_of : WorkItem → CoordinationDb → List WorkItem
  blockers_of w db = dependency_blockers w (all_dependencies rt db) (all_items rt db)

  -- The event of a claim went into the log, and the database is otherwise as the event makes it.
  abbrev pub IsLogged : WorkItemEvent → WorkItem → CoordinationDb → CoordinationDb → Type 0
  IsLogged t w s u =
      (e : CoordinationEvent) × (emit rt now (Actor.agent_session input.agent_session_id)
          (work_item_event t w) s
        ≡ ok (e, u))

  -- The item becomes the agent's: it was free to be, and nothing blocks it.
  pub record IsTakenOver (item w : WorkItem) (s t : CoordinationDb) : Type 0 where
    pub expected : item.version ≡ input.expected_version
    pub before_evaluation : (is_some item.evaluation_spec_id && is_past_claim item.state) ≡ false
    pub unblocked : blockers_of item s ≡ []
    pub free : is_taken item input ≡ false
    pub result : w ≡ assigned WorkItemState.active input.agent_session_id now item
    pub logged : IsLogged WorkItemEvent.claimed w s t

  claim_free-eq-ok :
      (item : WorkItem) (s : CoordinationDb) (r : ClaimResult × CoordinationDb)
      → claim_free rt input now item s ≡ ok r
      → (is_taken item input ≡ false)
        × (r.0 ≡ held (assigned WorkItemState.active input.agent_session_id now item))
        × IsLogged WorkItemEvent.claimed
            (assigned WorkItemState.active input.agent_session_id now item)
            s
            r.1
  unfolding claim_free
  claim_free-eq-ok item s r e =
      let (free, e₁) = after_check s r _ _ _ e in
      let (event, logged, result) = after_emit-pure rt now _ _ _ s r e₁ in
      (ground arith, result, (event, logged))

  claim_blocked-eq-ok :
      (b : WorkItem) (bs : List WorkItem) (item : WorkItem) (s : CoordinationDb)
      (r : ClaimResult × CoordinationDb)
      → claim_blocked rt input now (b ∷ bs) item s ≡ ok r
      → (ids : List String) × (w : WorkItem) × (r.0 ≡ held_up (b.id ∷ ids) w)
  unfolding claim_blocked
  claim_blocked-eq-ok b bs item s r e = elim (Bool-cases (is_blocked item.state)) [
    | inl already ↦ (
      map (λ (q : WorkItem). q.id) bs,
      item,
      sym (ap (λ (p : ClaimResult × CoordinationDb). p.0) (after_pure s r _ (rw already at e))),
    )
    | inr not_yet ↦
        let (event, logged, result) = after_emit-pure rt now _ _ _ s r (rw not_yet at e) in
        (map (λ (q : WorkItem). q.id) bs, _, result)
  ]

  claim_with-eq-ok :
      (bs : List WorkItem) (item w : WorkItem) (s t : CoordinationDb)
      → claim_with rt input now bs item s ≡ ok (held w, t)
      → (bs ≡ []) × (claim_free rt input now item s ≡ ok (held w, t))
  unfolding claim_with
  claim_with-eq-ok [] item w s t e = (refl, e)
  claim_with-eq-ok (b ∷ bs) item w s t e =
      let (ids, v, h) = claim_blocked-eq-ok b bs item s (held w, t) e in cc

  claim_unheld-eq-ok :
      (item w : WorkItem) (s t : CoordinationDb)
      → claim_unheld rt input now item s ≡ ok (held w, t)
      → IsTakenOver item w s t
  unfolding claim_unheld
  claim_unheld-eq-ok item w s t e =
      let (version, e₁) = after_check s (held w, t) _ _ _ e in
      let (early, e₂) = after_check s (held w, t) _ _ _ e₁ in
      let e₃ =
        after_read s (held w, t) (λ db. blockers_of item db) (λ bs. claim_with rt input now bs item)
          e₂ in
      let (none_block, e₄) = claim_with-eq-ok (blockers_of item s) item w s t e₃ in
      let (free, result, logged) = claim_free-eq-ok item s (held w, t) e₄ in
      let same : w ≡ assigned WorkItemState.active input.agent_session_id now item =
        ap (item_or item) result in
      record {
        expected = (==_iff _ _).0 version;
        before_evaluation = ground arith;
        unblocked = none_block;
        free = free;
        result = same;
        logged = subst (λ (x : WorkItem). IsLogged WorkItemEvent.claimed x s t) (sym same) logged;
      }

  -- A claim that is held up names a blocker.
  claim_with-ne-held_up :
      (bs : List WorkItem) (item w : WorkItem) (s t : CoordinationDb)
      → claim_with rt input now bs item s ≢ ok (held_up [] w, t)
  unfolding claim_with
  claim_with-ne-held_up [] item w s t e =
      let (free, result, logged) = claim_free-eq-ok item s (held_up [] w, t) e in cc
  claim_with-ne-held_up (b ∷ bs) item w s t e =
      let (ids, v, h) = claim_blocked-eq-ok b bs item s (held_up [] w, t) e in cc

  claim_unheld-ne-held_up :
      (item w : WorkItem) (s t : CoordinationDb)
      → claim_unheld rt input now item s ≢ ok (held_up [] w, t)
  unfolding claim_unheld
  claim_unheld-ne-held_up item w s t e =
      let r : ClaimResult × CoordinationDb = (held_up [] w, t) in
      let (version, e₁) = after_check s r _ _ _ e in
      let (early, e₂) = after_check s r _ _ _ e₁ in
      claim_with-ne-held_up (blockers_of item s) item w s t
        (after_read s r (λ db. blockers_of item db) (λ bs. claim_with rt input now bs item) e₂)

  -- What a claim that returns `w` has found and done: a session that is there and has not expired,
  -- and an item that the agent holds already, which is left as it is, or that it takes over.
  pub record IsClaimed (checked_at : ℕ) (w : WorkItem) (s t : CoordinationDb) : Type 0 where
    pub session : AgentSession
    pub item : WorkItem
    pub session_found : get_projection input.agent_session_id s.agent_sessions ≡ some session
    pub session_live : session_expired session checked_at ≡ false
    pub item_found : get_projection input.work_item_id s.work_items ≡ some item
    pub outcome :
        ((is_text item.assignee input.agent_session_id ≡ true)
          × (is_held item.state ≡ true)
          × (w ≡ item)
          × (t ≡ s))
        ⊎ IsTakenOver item w s t

  pub claim_tx-eq-ok :
      (checked_at : ℕ) (w : WorkItem) (s t : CoordinationDb)
      → claim_tx rt input now checked_at s ≡ ok (held w, t)
      → IsClaimed checked_at w s t
  unfolding claim_tx
  claim_tx-eq-ok checked_at w s t e =
      let r : ClaimResult × CoordinationDb = (held w, t) in
      let (session, found, live, e₁) = after_live_session rt s r _ _ _ e in
      let (item, there, e₂) = after_find_item rt s r _ _ e₁ in
      record {
        session = session;
        item = item;
        session_found = found;
        session_live = live;
        item_found = there;
        outcome =
            elim (Bool-cases (is_text item.assignee input.agent_session_id && is_held item.state)) [
              | inl already ↦
                  let same = after_pure s r (held item) (rw already at e₂) in
                  inl (
                    ground arith,
                    ground arith,
                    sym (ap (λ (p : ClaimResult × CoordinationDb). item_or w p.0) same),
                    sym (ap (λ (p : ClaimResult × CoordinationDb). p.1) same),
                  )
              | inr not_yet ↦ inr (claim_unheld-eq-ok item w s t (rw not_yet at e₂))
            ];
      }

  pub claim_tx-ne-held_up :
      (checked_at : ℕ) (s : CoordinationDb) (w : WorkItem) (t : CoordinationDb)
      → claim_tx rt input now checked_at s ≢ ok (held_up [] w, t)
  unfolding claim_tx
  claim_tx-ne-held_up checked_at s w t e =
      let r : ClaimResult × CoordinationDb = (held_up [] w, t) in
      let (session, found, live, e₁) = after_live_session rt s r _ _ _ e in
      let (item, there, e₂) = after_find_item rt s r _ _ e₁ in
      elim (Bool-cases (is_text item.assignee input.agent_session_id && is_held item.state)) [
        | inl already ↦ cc (
            ap (λ (p : ClaimResult × CoordinationDb). p.0)
              (after_pure s r (held item) (rw already at e₂)))
        | inr not_yet ↦ claim_unheld-ne-held_up item w s t (rw not_yet at e₂)
      ]
