-- ===== src/Coordination/Operations/Rules.antt =====
-- The callbacks of the operations that only append events: they keep what every appended event keeps.
use my_pi.Prelude.{ℕ, String, Option, none, some, List, [], ◌∷◌, ◌++◌}
use my_pi.Prelude.Dict.{Dict}
use my_pi.Coordination.Model.{
  WorkItem, WorkItemState, WorkDependency, Intent, Scope, Actor, AcceptanceDecisionKind,
  EvaluationRun, ContextArtifactKind,
}
use my_pi.Coordination.Event.{EventBody}
use my_pi.Coordination.Store.{CoordinationDb}
use my_pi.Coordination.Tx.Moves.{
  Moves, Preorder, Moves-pure, Moves-throw, Moves-if, Moves-bind, moves_rules,
}
use my_pi.Coordination.Work.{Runtime, emit, find_item, live_session}
use my_pi.Coordination.Claim.{
  ClaimInput, claim_blocked, claim_free, claim_with, claim_unheld, claim_tx,
}
use my_pi.Coordination.Complete.{
  CompleteInput, release_intents, release_scopes, unblock_items, finish, await_evaluation,
  implement, complete_evaluated, complete_tx,
}
use my_pi.Coordination.Decision.{apply_decision, apply_evaluation_decision_tx}
use my_pi.Coordination.Create.{check_spec}
use my_pi.Coordination.Join.{JoinInput, open_project, lease_for}
use my_pi.Coordination.Declare.{
  DeclareIntentInput, declare_intent_tx, PublishInput, publish_tx, check_item,
}

module _ {κ} {R : CoordinationDb → CoordinationDb → Type κ} (p : Preorder R) (rt : Runtime)
    (emits : (now : ℕ) (actor : Actor) (body : EventBody) → Moves R (emit rt now actor body)) where
  Moves-find_item : (id : String) → Moves R (find_item rt id)
  unfolding find_item
  Moves-find_item id = search (moves_rules, p)

  pub Moves-live_session : (id : String) (now : ℕ) → Moves R (live_session rt id now)
  unfolding live_session
  Moves-live_session id now = search (moves_rules, p)

  module _ (input : ClaimInput) (now : ℕ) where
    Moves-claim_blocked :
        (bs : List WorkItem) (w : WorkItem) → Moves R (claim_blocked rt input now bs w)
    unfolding claim_blocked
    Moves-claim_blocked bs w = search (moves_rules, p, emits)

    Moves-claim_free : (w : WorkItem) → Moves R (claim_free rt input now w)
    unfolding claim_free
    Moves-claim_free w = search (moves_rules, p, emits)

    Moves-claim_with : (bs : List WorkItem) (w : WorkItem) → Moves R (claim_with rt input now bs w)
    unfolding claim_with
    Moves-claim_with [] w = Moves-claim_free w
    Moves-claim_with (b ∷ bs) w = Moves-claim_blocked (b ∷ bs) w

    Moves-claim_unheld : (w : WorkItem) → Moves R (claim_unheld rt input now w)
    unfolding claim_unheld
    Moves-claim_unheld w = search (moves_rules, p, Moves-claim_with)

    pub Moves-claim_tx : (checked_at : ℕ) → Moves R (claim_tx rt input now checked_at)
    unfolding claim_tx
    Moves-claim_tx checked_at =
        search (moves_rules, p, Moves-find_item, Moves-live_session, Moves-claim_unheld)

  module _ (input : CompleteInput) (now : ℕ) where
    Moves-release_intents :
        (is : List Intent) (ids : List String) (n : ℕ)
        → Moves R (release_intents rt input now is ids n)
    unfolding release_intents
    Moves-release_intents [] ids n = Moves-pure p (ids, n)
    Moves-release_intents (i ∷ is) ids n =
        Moves-if _ _ _
          (Moves-bind p _ _ (emits _ _ _)
            (λ e. Moves-release_intents is (ids ++ i.id ∷ []) e.sequence))
          (Moves-release_intents is ids n)

    Moves-release_scopes :
        (ss : List Scope) (ids : List String) (n : ℕ)
        → Moves R (release_scopes rt input now ss ids n)
    unfolding release_scopes
    Moves-release_scopes [] ids n = Moves-pure p (ids, n)
    Moves-release_scopes (s ∷ ss) ids n =
        Moves-if _ _ _
          (Moves-bind p _ _ (emits _ _ _)
            (λ e. Moves-release_scopes ss (ids ++ s.id ∷ []) e.sequence))
          (Moves-release_scopes ss ids n)

    Moves-unblock_items :
        (deps : List WorkDependency) (items : Dict WorkItem) (ws : List WorkItem)
        (ids : List String) (n : ℕ)
        → Moves R (unblock_items rt input now deps items ws ids n)
    unfolding unblock_items
    Moves-unblock_items deps items [] ids n = Moves-pure p (ids, n)
    Moves-unblock_items deps items (w ∷ ws) ids n =
        Moves-if _ _ _
          (Moves-bind p _ _ (emits _ _ _)
            (λ e. Moves-unblock_items deps items ws (ids ++ w.id ∷ []) e.sequence))
          (Moves-unblock_items deps items ws ids n)

    Moves-finish : (w : WorkItem) → Moves R (finish rt input now w)
    unfolding finish
    Moves-finish w =
        search
          (moves_rules, p, emits, Moves-release_intents, Moves-release_scopes, Moves-unblock_items)
          depth 12

    Moves-await_evaluation : (w : WorkItem) → Moves R (await_evaluation rt input now w)
    unfolding await_evaluation
    Moves-await_evaluation w = search (moves_rules, p, emits)

    Moves-implement : (w : WorkItem) → Moves R (implement rt input now w)
    unfolding implement
    Moves-implement w = search (moves_rules, p, emits, Moves-await_evaluation)

    Moves-complete_evaluated :
        (st : WorkItemState) (w : WorkItem) → Moves R (complete_evaluated rt input now st w)
    unfolding complete_evaluated
    Moves-complete_evaluated WorkItemState.accepted w = search (moves_rules, p, Moves-finish)
    Moves-complete_evaluated WorkItemState.review_required w = Moves-throw _
    Moves-complete_evaluated WorkItemState.awaiting_evaluation w = Moves-pure p _
    Moves-complete_evaluated WorkItemState.implementation_complete w = Moves-await_evaluation w
    Moves-complete_evaluated _ w = Moves-implement w

    pub Moves-complete_tx : Moves R (complete_tx rt input now)
    unfolding complete_tx
    Moves-complete_tx =
        search (moves_rules, p, Moves-find_item, Moves-complete_evaluated, Moves-finish) depth 8

  module _ (now : ℕ) where
    Moves-apply_decision :
        (d : AcceptanceDecisionKind) (run : EvaluationRun) (w : WorkItem)
        → Moves R (apply_decision rt now d run w)
    unfolding apply_decision
    Moves-apply_decision AcceptanceDecisionKind.accepted run w = search (moves_rules, p, emits)
    Moves-apply_decision AcceptanceDecisionKind.rejected run w = search (moves_rules, p, emits)
    Moves-apply_decision _ run w = search (moves_rules, p, emits)

    pub Moves-apply_evaluation_decision_tx :
        (id : String) → Moves R (apply_evaluation_decision_tx rt now id)
    unfolding apply_evaluation_decision_tx
    Moves-apply_evaluation_decision_tx id =
        search (moves_rules, p, Moves-find_item, Moves-apply_decision) depth 14

  Moves-check_item : (agent : String) (id : Option String) → Moves R (check_item rt agent id)
  unfolding check_item
  Moves-check_item agent none = Moves-pure p tt
  Moves-check_item agent (some id) = search (moves_rules, p)

  pub Moves-declare_intent_tx :
      (input : DeclareIntentInput) (checked_at now : ℕ) (id : String)
      → Moves R (declare_intent_tx rt checked_at now input id)
  unfolding declare_intent_tx
  Moves-declare_intent_tx input checked_at now id =
      search (moves_rules, p, emits, Moves-live_session, Moves-check_item)

  pub Moves-publish_tx :
      (input : PublishInput) (checked_at now : ℕ) (kind : ContextArtifactKind) (id : String)
      → Moves R (publish_tx rt checked_at now input kind id)
  unfolding publish_tx
  Moves-publish_tx input checked_at now kind id =
      search (moves_rules, p, emits, Moves-live_session, Moves-check_item)

  pub Moves-open_project :
      (lease_ms now : ℕ) (input : JoinInput) → Moves R (open_project rt lease_ms now input)
  unfolding open_project
  Moves-open_project lease_ms now input = search (moves_rules, p, emits)

  pub Moves-lease_for : (lease_ms now : ℕ) → Moves R (lease_for rt lease_ms now)
  unfolding lease_for
  Moves-lease_for lease_ms now = search (moves_rules, p)

  pub Moves-check_spec : (now : ℕ) (id : Option String) → Moves R (check_spec rt now id)
  unfolding check_spec
  Moves-check_spec now none = Moves-pure p tt
  Moves-check_spec now (some id) = search (moves_rules, p)
