-- ===== src/Coordination/Operations/Steps.antt =====
-- The rule by which a relation that the writes of the operations keep holds across any sequence of
-- them.
use my_pi.Prelude.{
  ℕ, String, Option, none, some, List, [], ◌∷◌, Bool, Bool-cases, inl, inr, leb, true, false,
  if◌then◌else◌, List-cases, Option-cases,
}
use my_pi.Prelude.Text.{is_given, truthy}
use my_pi.Prelude.Outcome.{Outcome, err, ErrorCode, Outcome-cases}
use my_pi.Coordination.Model.{
  AgentSession, Repository, Worktree, Intent, ChangeReceipt, Actor, ContextArtifactKind,
}
use my_pi.Coordination.Event.{CoordinationEvent, EventBody, ImpactRecord}
use my_pi.Coordination.Store.{CoordinationDb, max_safe_integer, get_projection}
use my_pi.Coordination.Tx.{Tx, modify, ◌>>=◌, transact}
use my_pi.Coordination.Tx.Moves.{
  Moves, Preorder, Moves-pure, Moves-modify, Moves-transact, Moves-bind,
}
use my_pi.Coordination.Work.{Runtime, emit}
use my_pi.Coordination.Join.{
  JoinInput, with_repository, with_worktree, join_tx, join, join_input_ok,
}
use my_pi.Coordination.Create.{WorkItemInput, create_work_item_tx, create_work_item, title_ok}
use my_pi.Coordination.Claim.{ClaimInput, claim_tx, claim}
use my_pi.Coordination.Declare.{
  declare_intent, intent_input_ok, PublishInput, publish_kind, publish, publish_input_ok,
}
use my_pi.Coordination.Sync.{SyncInput, with_heartbeat, heartbeat_tx}
use my_pi.Coordination.Complete.{complete_tx, complete}
use my_pi.Coordination.Decision.{apply_evaluation_decision_tx, apply_evaluation_decision}
use my_pi.Coordination.Changes.{
  with_receipt, record_change_receipt_tx, record_change_receipt, is_own, with_impact, impact_tx,
  impact_in, worktree_of, impact_input, emit_impact,
}
use my_pi.Coordination.Operations.{
  Operation, joining, creating, claiming, declaring, publishing, beating, completing, deciding,
  recording, impacting, perform, perform_all,
}
use my_pi.Coordination.Operations.Rules.{
  Moves-live_session, Moves-claim_tx, Moves-complete_tx, Moves-apply_evaluation_decision_tx,
  Moves-declare_intent_tx, Moves-publish_tx, Moves-open_project, Moves-lease_for,
}
use my_pi.Impact.Model.{CodeEntity, CodeEdge}
use my_pi.Impact.Engine.{ImpactInput, ImpactResult}

-- What the writes of the operations keep, those of `createWorkItem` apart: the events, and the
-- records that are put without one.
pub record Kept {κ} (R : CoordinationDb → CoordinationDb → Type κ) (rt : Runtime) : Type κ where
  pub preorder : Preorder R
  pub emits : (now : ℕ) (actor : Actor) (body : EventBody) → Moves R (emit rt now actor body)
  pub repository :
      (lease_ms now : ℕ) (r : Repository) (db : CoordinationDb)
      → R db (with_repository rt lease_ms now r db)
  pub worktree :
      (lease_ms now : ℕ) (t : Worktree) (db : CoordinationDb)
      → R db (with_worktree rt lease_ms now t db)
  pub heartbeat :
      (input : SyncInput) (now : ℕ) (s : AgentSession) (db : CoordinationDb)
      → R db (with_heartbeat rt input now s db)
  pub impact : (i : ImpactRecord) (now : ℕ) (db : CoordinationDb) → R db (with_impact rt i now db)
  pub receipt : (r : ChangeReceipt) (db : CoordinationDb) → R db (with_receipt rt r db)

module _ {κ} {R : CoordinationDb → CoordinationDb → Type κ} {rt : Runtime} (k : Kept R rt) where
  -- A record is put, and an event with its result ends the block.
  Moves-put-emit {ℓ} :
      {A : Type ℓ} (put : CoordinationDb → CoordinationDb) (now : ℕ) (actor : Actor)
      (body : EventBody) (f : CoordinationEvent → Tx A)
      → ((s : CoordinationDb) → R s (put s))
      → ((e : CoordinationEvent) → Moves R (f e))
      → Moves R (modify put >>= λ _. emit rt now actor body >>= f)
  Moves-put-emit put now actor body f keeps later =
      Moves-bind k.preorder _ _ (Moves-modify put keeps)
        (λ _. Moves-bind k.preorder _ _ (k.emits now actor body) later)

  Moves-join_tx :
      (lease_ms now : ℕ) (input : JoinInput) (id : String)
      → Moves R (join_tx rt lease_ms now input id)
  unfolding join_tx
  Moves-join_tx lease_ms now input id =
      Moves-bind k.preorder _ _ (Moves-open_project k.preorder rt k.emits lease_ms now input) (λ n.
        Moves-bind k.preorder _ _ (Moves-modify _ (k.repository lease_ms now input.repository))
          (λ _. Moves-put-emit _ now _ _ _ (k.worktree lease_ms now input.worktree) (λ e.
            Moves-bind k.preorder _ _ (Moves-lease_for k.preorder rt k.emits lease_ms now)
              (λ lease. Moves-pure k.preorder _))))

  Moves-heartbeat_tx :
      (input : SyncInput) (checked_at now : ℕ) → Moves R (heartbeat_tx rt input checked_at now)
  unfolding heartbeat_tx
  Moves-heartbeat_tx input checked_at now =
      Moves-bind k.preorder _ _
        (Moves-live_session k.preorder rt k.emits input.agent_session_id checked_at)
        (λ session. Moves-modify _ (k.heartbeat input now session))

  Moves-record_change_receipt_tx :
      (r : ChangeReceipt) (now : ℕ) → Moves R (record_change_receipt_tx rt r now)
  unfolding record_change_receipt_tx
  Moves-record_change_receipt_tx r now =
      Moves-put-emit _ now _ _ _ (k.receipt r) (λ e. Moves-pure k.preorder r)

  Moves-impact_tx : (i : ImpactRecord) (now : ℕ) → Moves R (impact_tx rt i now)
  unfolding impact_tx
  Moves-impact_tx i now =
      Moves-put-emit _ now _ _ _ (k.impact i now) (λ e. Moves-pure k.preorder tt)

  -- An operation that tests its input first.
  guarded {ℓ} :
      {A : Type ℓ} (b : Bool) (c : ErrorCode) (m : Tx A) (db : CoordinationDb)
      → Moves R m
      → R db (if b then transact m db else (err c, db)).1
  guarded true c m db h = Moves-transact k.preorder m h db
  guarded false c m db h = k.preorder.same db

  -- What is asked of an operation: of `createWorkItem` that the relation holds for it.
  abbrev pub Admits : CoordinationDb → Operation → Type κ
  Admits db (creating input id now) = R db (create_work_item rt input id now db).1
  Admits db o = Unit

  claim_rule :
      (input : ClaimInput) (checked_at now : ℕ) (db : CoordinationDb)
      → R db (claim rt input checked_at now db).1
  unfolding claim
  claim_rule input checked_at now db =
      elim (Bool-cases (leb input.expected_version max_safe_integer)) [
        | inl fits ↦
            rw (fits, claim)
              (Moves-transact k.preorder (claim_tx rt input now checked_at)
                (Moves-claim_tx k.preorder rt k.emits input now checked_at) db)
        | inr not_safe ↦ rw (not_safe, claim) (k.preorder.same db)
      ]

  publish_rule :
      (input : PublishInput) (kind : Option ContextArtifactKind) (id : String) (checked_at now : ℕ)
      (db : CoordinationDb)
      → R db (publish_kind rt checked_at now input kind id db).1
  unfolding publish_kind
  publish_rule input none id checked_at now db = k.preorder.same db
  publish_rule input (some kind) id checked_at now db =
      guarded (publish_input_ok input) _ _ db
        (Moves-publish_tx k.preorder rt k.emits input checked_at now kind id)

  receipt_rule :
      (r : ChangeReceipt) (now : ℕ) (db : CoordinationDb)
      → R db (record_change_receipt rt r now db).1
  unfolding record_change_receipt
  receipt_rule r now db = elim (Bool-cases (is_own rt r)) [
    | inl own ↦
        rw (own, record_change_receipt)
          (guarded (is_given r.receipt_digest) _ _ db (Moves-record_change_receipt_tx r now))
    | inr foreign ↦ rw (foreign, record_change_receipt) (k.preorder.same db)
  ]

  module _ (code_state : String → List CodeEntity × List CodeEdge)
      (compute : ImpactInput → Outcome ImpactResult) where
    impact_rule :
        (i : Intent) (now : ℕ) (worktree : String) (db : CoordinationDb)
        → R db (impact_in rt code_state compute i now worktree db)
    unfolding impact_in
    impact_rule i now worktree db = elim (List-cases (code_state worktree).0) [
      | inl no_code ↦ rw (no_code, impact_in) (k.preorder.same db)
      | inr (e, es, code) ↦
          elim (Outcome-cases
            (compute (impact_input rt code_state compute i (code_state worktree) db))) [
              | inl (impact, found) ↦
                  rw (impact_in, code, found)
                    (Moves-transact k.preorder _ (Moves-impact_tx _ now) db)
              | inr (c, failed) ↦ rw (impact_in, code, failed) (k.preorder.same db)
            ]
    ]

    emit_rule :
        (i : Intent) (now : ℕ) (db : CoordinationDb)
        → R db (emit_impact rt code_state compute i now db)
    unfolding emit_impact
    emit_rule i now db = elim (Bool-cases (is_given i.work_item_id)) [
      | inl given ↦
          elim (Option-cases (
            worktree_of rt code_state compute
              (get_projection i.agent_session_id db.agent_sessions))) [
                | inl nowhere ↦ rw (given, emit_impact, nowhere) (k.preorder.same db)
                | inr (worktree, there) ↦ elim (Bool-cases (truthy worktree)) [
                  | inl named ↦
                      rw (given, emit_impact, there, named) (impact_rule i now worktree db)
                  | inr unnamed ↦ rw (given, emit_impact, there, unnamed) (k.preorder.same db)
                ]
              ]
      | inr free ↦ rw (free, emit_impact) (k.preorder.same db)
    ]

    pub perform_rule :
        (db : CoordinationDb) (o : Operation)
        → Admits db o
        → R db (perform code_state compute rt db o)
    unfolding perform join declare_intent publish complete apply_evaluation_decision
    perform_rule db (joining lease_ms input id now) h =
        guarded (join_input_ok input rt.project_id) _ _ db (Moves-join_tx lease_ms now input id)
    perform_rule db (creating input id now) h = h
    perform_rule db (claiming input checked_at now) h = claim_rule input checked_at now db
    perform_rule db (declaring input id checked_at now) h =
        guarded (intent_input_ok input) _ _ db
          (Moves-declare_intent_tx k.preorder rt k.emits input checked_at now id)
    perform_rule db (publishing input id checked_at now) h =
        publish_rule input input.kind id checked_at now db
    perform_rule db (beating input checked_at now) h =
        Moves-transact k.preorder _ (Moves-heartbeat_tx input checked_at now) db
    perform_rule db (completing input now) h =
        Moves-transact k.preorder (complete_tx rt input now)
          (Moves-complete_tx k.preorder rt k.emits input now) db
    perform_rule db (deciding run_id now) h =
        Moves-transact k.preorder (apply_evaluation_decision_tx rt now run_id)
          (Moves-apply_evaluation_decision_tx k.preorder rt k.emits now run_id) db
    perform_rule db (recording r now) h = receipt_rule r now db
    perform_rule db (impacting i now) h = emit_rule i now db

    -- For a relation that `createWorkItem` keeps too.
    pub perform_all_rule :
        ((input : WorkItemInput) (id : String) (now : ℕ)
          → Moves R (create_work_item_tx rt now input id))
        → (db : CoordinationDb) (os : List Operation)
        → R db (perform_all code_state compute rt db os)
    unfolding perform_all
    perform_all_rule creates db [] = k.preorder.same db
    perform_all_rule creates db (o ∷ os) =
        let next = perform code_state compute rt db o in
        k.preorder.chain db next (perform_all code_state compute rt next os)
          (perform_rule db o (admitted db o)) (perform_all_rule creates next os)
      where
        admitted : (db' : CoordinationDb) (o' : Operation) → Admits db' o'
        admitted db' (creating input id now) =
            guarded (title_ok input.title) _ _ db' (creates input id now)
        admitted db' _ = tt
