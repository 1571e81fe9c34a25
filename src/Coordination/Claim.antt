-- ===== src/Coordination/Claim.antt =====
-- `claim` (packages/coordination-runtime/src/runtime.ts and claim.ts). The times of its two readings
-- of the clock are arguments.
pub mod Outcomes
pub mod Races
pub mod HeldUp
use my_pi.Prelude.{
  ℕ, ◌+◌, String, some, List, [], ◌∷◌, Bool, true, false, ◌&&◌, not, leb, ◌==◌, if◌then◌else◌,
  is_some, map,
}
use my_pi.Prelude.Text.{is_given, is_text}
use my_pi.Prelude.Outcome.{Outcome, ok, err, work_item_conflict, work_item_blocked, plain_error}
use my_pi.Coordination.Model.{WorkItem, WorkItemState, Actor, is_blocked, is_held}
use my_pi.Coordination.Event.{WorkItemEvent, work_item_event}
use my_pi.Coordination.Store.{CoordinationDb, max_safe_integer}
use my_pi.Coordination.Tx.{Tx, pure, read, check, ◌>>=◌, ◌>>◌, transact}
use my_pi.Coordination.Work.{
  Runtime, dependency_blockers, all_dependencies, all_items, emit, find_item, live_session,
}

pub record ClaimInput : Type 0 where
  pub agent_session_id : String
  pub work_item_id : String
  pub expected_version : ℕ
  pub allow_shared : Bool

-- What the transaction of `claim` returns: the item, or the blockers with the item.
pub data ClaimResult : Type 0 where
  held : WorkItem → ClaimResult
  held_up : List String → WorkItem → ClaimResult

-- The states from which an item with an evaluation cannot be claimed.
abbrev pub is_past_claim : WorkItemState → Bool
is_past_claim WorkItemState.implementation_complete = true
is_past_claim WorkItemState.awaiting_evaluation = true
is_past_claim WorkItemState.accepted = true
is_past_claim WorkItemState.review_required = true
is_past_claim WorkItemState.done = true
is_past_claim _ = false

-- `item.assignee && item.assignee !== agent && !allowShared`
abbrev pub is_taken : WorkItem → ClaimInput → Bool
is_taken item input =
    is_given item.assignee
    && (not (is_text item.assignee input.agent_session_id) && not input.allow_shared)

abbrev pub assigned : WorkItemState → String → ℕ → WorkItem → WorkItem
assigned state agent now item = record item {
  state = state;
  assignee = some agent;
  version = item.version + 1;
  updated_at = now;
}

module _ (rt : Runtime) (input : ClaimInput) (now : ℕ) where
  -- The branch of `claim` with blockers.
  unfoldable pub claim_blocked : List WorkItem → WorkItem → Tx ClaimResult
  claim_blocked blockers item =
      if is_blocked item.state
      then pure (held_up (map (λ (b : WorkItem). b.id) blockers) item)
      else do
        emit rt now (Actor.agent_session input.agent_session_id) (
            work_item_event WorkItemEvent.blocked
              (assigned WorkItemState.blocked input.agent_session_id now item))
        pure (
            held_up (map (λ (b : WorkItem). b.id) blockers)
              (assigned WorkItemState.blocked input.agent_session_id now item))

  -- The branch of `claim` with none.
  unfoldable pub claim_free : WorkItem → Tx ClaimResult
  claim_free item = do
    check (not (is_taken item input)) work_item_conflict
    emit rt now (Actor.agent_session input.agent_session_id) (
        work_item_event WorkItemEvent.claimed
          (assigned WorkItemState.active input.agent_session_id now item))
    pure (held (assigned WorkItemState.active input.agent_session_id now item))

  -- By the blockers, in `claim`.
  unfoldable pub claim_with : List WorkItem → WorkItem → Tx ClaimResult
  unfolding claim_blocked claim_free
  claim_with [] item = claim_free item
  claim_with (b ∷ bs) item = claim_blocked (b ∷ bs) item

  unfoldable pub claim_unheld : WorkItem → Tx ClaimResult
  unfolding claim_with
  claim_unheld item = do
    check (item.version == input.expected_version) work_item_conflict
    check (not (is_some item.evaluation_spec_id && is_past_claim item.state)) work_item_conflict
    blockers ← read (λ db. dependency_blockers item (all_dependencies rt db) (all_items rt db))
    claim_with blockers item

  -- The callback of `claim`.
  unfoldable pub claim_tx : ℕ → Tx ClaimResult
  unfolding claim_unheld
  claim_tx checked_at = do
    live_session rt input.agent_session_id checked_at
    item ← find_item rt input.work_item_id
    if is_text item.assignee input.agent_session_id && is_held item.state
        then pure (held item)
        else claim_unheld item

-- What the caller of `claim` sees.
abbrev pub settle_claim : Outcome ClaimResult → Outcome WorkItem
settle_claim (ok (held item)) = ok item
settle_claim (ok (held_up [] item)) = ok item
settle_claim (ok (held_up (b ∷ bs) item)) = err work_item_blocked
settle_claim (err c) = err c

-- `claim`, with the times of its two readings of the clock.
unfoldable pub claim :
    Runtime → ClaimInput → ℕ → ℕ → CoordinationDb → Outcome WorkItem × CoordinationDb
unfolding claim_tx
claim rt input checked_at now db =
    if leb input.expected_version max_safe_integer
    then (let (seen, db') = transact (claim_tx rt input now checked_at) db in
        (settle_claim seen, db'))
    else (err plain_error, db)
