-- ===== src/Coordination/Claim/HeldUp.antt =====
-- `claim` of an item that a dependency blocks.
use my_pi.Prelude.{
  ℕ, ◌≡◌, refl, subst, sym, ◌∙◌, String, some, none, List, ◌∷◌, Bool, true, false, arith, ◌==◌,
  ==_iff, leb, is_some, if◌then◌else◌, ◌&&◌, not, map, eq_iff,
}
use my_pi.Prelude.Text.{is_text, truthy}
use my_pi.Prelude.Outcome.{ErrorCode, ok, err, work_item_blocked}
use my_pi.Coordination.Model.{WorkItem, WorkItemState, AgentSession, Actor, is_held, is_blocked}
use my_pi.Coordination.Event.{CoordinationEvent, WorkItemEvent, work_item_event}
use my_pi.Coordination.Store.{CoordinationDb, get_projection, max_safe_integer}
use my_pi.Coordination.Tx.{Tx, read, check, pure, transact, ◌>>=◌}
use my_pi.Coordination.Work.{Runtime, session_expired, emit, find_item, live_session}
use my_pi.Coordination.Work.Emission.{emit-work_items}
use my_pi.Coordination.Claim.{
  ClaimInput, ClaimResult, held, held_up, assigned, is_past_claim, claim_blocked, claim_with,
  claim_unheld, claim_tx, claim,
}
use my_pi.Coordination.Claim.Outcomes.{blockers_of}

-- A block whose first statement is known to return.
bind-ok {ℓ κ} :
    {A : Type ℓ} {B : Type κ} (m : Tx A) (f : A → Tx B) (a : A) (s t : CoordinationDb)
    → m s ≡ ok (a, t)
    → (m >>= f) s ≡ f a t
unfolding ◌>>=◌
bind-ok m f a s t h = rw (h, ◌>>=◌) refl

check-ok {ℓ} :
    {B : Type ℓ} (b : Bool) (c : ErrorCode) (f : Unit {0} → Tx B) (s : CoordinationDb)
    → b ≡ true
    → (check b c >>= f) s ≡ f tt s
unfolding check ◌>>=◌
check-ok b c f s h = rw h refl

read-ok {ℓ κ} :
    {A : Type ℓ} {B : Type κ} (g : CoordinationDb → A) (f : A → Tx B) (s : CoordinationDb)
    → (read g >>= f) s ≡ f (g s) s
unfolding read ◌>>=◌
read-ok g f s = refl

find_item-ok :
    (rt : Runtime) (id : String) (item : WorkItem) (s : CoordinationDb)
    → get_projection id s.work_items ≡ some item
    → find_item rt id s ≡ ok (item, s)
unfolding find_item ◌>>=◌
find_item-ok rt id item s h = ground arith

live_session-ok :
    (rt : Runtime) (id : String) (now : ℕ) (session : AgentSession) (s : CoordinationDb)
    → get_projection id s.agent_sessions ≡ some session
    → session_expired session now ≡ false
    → live_session rt id now s ≡ ok (session, s)
unfolding live_session ◌>>=◌
live_session-ok rt id now session s h live = ground arith

module _ (rt : Runtime) (input : ClaimInput) (checked_at now : ℕ) (s t : CoordinationDb)
    (session : AgentSession) (item b : WorkItem) (bs : List WorkItem) (e : CoordinationEvent) where
  abbrev taken : WorkItem
  taken = assigned WorkItemState.blocked input.agent_session_id now item

  abbrev answer : ClaimResult × CoordinationDb
  answer = (held_up (map (λ (i : WorkItem). i.id) (b ∷ bs)) taken, t)

  module _ (found : get_projection input.agent_session_id s.agent_sessions ≡ some session)
      (live : session_expired session checked_at ≡ false)
      (there : get_projection input.work_item_id s.work_items ≡ some item)
      (version : item.version ≡ input.expected_version)
      (other : is_text item.assignee input.agent_session_id ≡ false)
      (no_spec : item.evaluation_spec_id ≡ none) (state : is_blocked item.state ≡ false)
      (blocks : blockers_of rt input now item s ≡ b ∷ bs)
      (em : emit rt now
          (Actor.agent_session input.agent_session_id)
          (work_item_event WorkItemEvent.blocked taken)
          s
        ≡ ok (e, t)) where
    claim_blocked-eq : claim_blocked rt input now (b ∷ bs) item s ≡ ok answer
    unfolding claim_blocked pure
    claim_blocked-eq = rw state (bind-ok _ _ e s t em)

    claim_with-eq : claim_with rt input now (blockers_of rt input now item s) item s ≡ ok answer
    unfolding claim_with
    claim_with-eq = rw blocks claim_blocked-eq

    claim_unheld-eq : claim_unheld rt input now item s ≡ ok answer
    unfolding claim_unheld
    claim_unheld-eq =
        check-ok (item.version == input.expected_version) _ _ s ((==_iff _ _).1 version)
        ∙ check-ok (not (is_some item.evaluation_spec_id && is_past_claim item.state)) _ _ s
            (rw no_spec refl)
        ∙ read-ok (blockers_of rt input now item) _ s
        ∙ claim_with-eq

    claim_tx-eq : claim_tx rt input now checked_at s ≡ ok answer
    unfolding claim_tx
    claim_tx-eq =
        bind-ok _ _ session s s (live_session-ok rt _ checked_at session s found live)
        ∙ bind-ok _ _ item s s (find_item-ok rt _ item s there)
        ∙ (let at_item = (λ (o : Bool).
              (if o && is_held item.state then pure (held item) else claim_unheld rt input now item)
                s
              ≡ ok answer) in
            subst at_item (sym other) claim_unheld-eq)

    -- An agent with a live session claims, at its version, an item that it does not have, that has
    -- no evaluation and is not yet blocked, while a dependency is not done; the item is stored
    -- under its own identifier, which is not empty, and an event can be appended. The claim throws,
    -- and the item is stored as blocked and as the caller's, whoever had it and shared or not.
    pub claim_held_up :
        leb input.expected_version max_safe_integer ≡ true
        → item.id ≡ input.work_item_id
        → truthy item.id ≡ true
        → ((claim rt input checked_at now s).0 ≡ err work_item_blocked)
          × (get_projection input.work_item_id (claim rt input checked_at now s).1.work_items
              ≡ some taken)
    unfolding claim transact
    claim_held_up fits keyed named =
        let stored = emit-work_items rt now _ _ taken s t e input.work_item_id named em in
        rw (fits, transact, claim_tx-eq)
          (refl, stored ∙ rw ((eq_iff item.id input.work_item_id).1 keyed) refl)
