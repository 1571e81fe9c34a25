-- ===== src/Coordination/Replay.antt =====
-- The event log as the truth behind the tables of projects, work items, intents, scopes and context
-- artifacts: what a reader of the log alone rebuilds, and that the operations keep the tables equal
-- to it.
use my_pi.Prelude.{ℕ, ◌≡◌, refl, ap, sym, ◌∙◌, some, List, [], ◌∷◌, ◌++◌, arith, if◌then◌else◌}
use my_pi.Prelude.Text.{truthy}
use my_pi.Coordination.Model.{
  WorkItem, WorkDependency, Intent, Scope, Actor, Project, ContextArtifact,
}
use my_pi.Coordination.Event.{CoordinationEvent, EventBody, AppendEventInput}
use my_pi.Coordination.Store.{
  CoordinationDb, Projection, put_projection, owner_project, apply_event_projection,
}
use my_pi.Coordination.Store.Sequences.{
  IsLog, Appended, append_event-Appended, Appended-IsLog, event_log-apply,
}
use my_pi.Prelude.{String}
use my_pi.Prelude.Outcome.{Outcome}
use my_pi.Coordination.Tx.{append, modify}
use my_pi.Coordination.Tx.Moves.{
  Moves, Moves-of, Preorder, Moves-modify, Moves-pure, Moves-bind, moves_rules,
}
use my_pi.Coordination.Work.{Runtime, emit}
use my_pi.Coordination.Create.{
  DependencyInput, WorkItemInput, with_dependency, link, link_all, create_work_item_tx,
}
use my_pi.Coordination.Operations.{Operation, perform_all}
use my_pi.Coordination.Operations.Rules.{Moves-check_spec}
use my_pi.Coordination.Operations.Steps.{Kept, perform_all_rule}
use my_pi.Impact.Model.{CodeEntity, CodeEdge}
use my_pi.Impact.Engine.{ImpactInput, ImpactResult}

-- The tables that a reader of the log keeps.
pub record View : Type 0 where
  pub projects : Projection Project
  pub work_items : Projection WorkItem
  pub intents : Projection Intent
  pub scopes : Projection Scope
  pub context_artifacts : Projection ContextArtifact

abbrev pub empty_view : View
empty_view = record {
  projects = [];
  work_items = [];
  intents = [];
  scopes = [];
  context_artifacts = [];
}

-- The reader stores the record that an event carries under its identifier, if it has one, for the
-- project that the record names, or else the event's.
unfoldable pub read_body : EventBody → CoordinationEvent → View → View
read_body (EventBody.project_opened p) e v = record v {
  projects =
      put_projection (if truthy p.id then p.id else e.project_id) p (some e.project_id)
        e.occurred_at v.projects;
}
read_body (EventBody.work_item_event t w) e v =
    if truthy w.id
    then record v {
      work_items =
          put_projection w.id w (some (owner_project w.project_id e)) e.occurred_at v.work_items;
    }
    else v
read_body (EventBody.intent_event t i) e v =
    if truthy i.id
    then record v {
      intents = put_projection i.id i (some (owner_project i.project_id e)) e.occurred_at v.intents;
    }
    else v
read_body (EventBody.scope_event t s) e v =
    if truthy s.id
    then record v {
      scopes = put_projection s.id s (some (owner_project s.project_id e)) e.occurred_at v.scopes;
    }
    else v
read_body (EventBody.context_published a) e v =
    if truthy a.id
    then record v {
      context_artifacts =
          put_projection a.id a (some e.project_id) e.occurred_at v.context_artifacts;
    }
    else v
read_body _ e v = v

unfoldable pub read_log : List CoordinationEvent → View → View
unfolding read_body
read_log [] v = v
read_log (e ∷ es) v = read_log es (read_body e.body e v)

abbrev pub view_of : CoordinationDb → View
view_of db = record {
  projects = db.projects;
  work_items = db.work_items;
  intents = db.intents;
  scopes = db.scopes;
  context_artifacts = db.context_artifacts;
}

-- The tables are what the log says.
abbrev pub IsReplayed : CoordinationDb → Type 0
IsReplayed db = view_of db ≡ read_log db.event_log empty_view

read_log-append :
    (es : List CoordinationEvent) (e : CoordinationEvent) (v : View)
    → read_log (es ++ e ∷ []) v ≡ read_body e.body e (read_log es v)
unfolding read_log
read_log-append [] e v = refl
read_log-append (o ∷ es) e v = read_log-append es e (read_body o.body o v)

view_of-apply :
    (body : EventBody) (e : CoordinationEvent) (db : CoordinationDb)
    → view_of (apply_event_projection body e db) ≡ read_body body e (view_of db)
unfolding apply_event_projection read_body
view_of-apply (EventBody.project_opened p) e db = refl
view_of-apply _ e db = ground arith

-- The database of a coordination store.
pub record IsSound (db : CoordinationDb) : Type 0 where
  pub log : IsLog db.event_log
  pub replayed : IsReplayed db

abbrev KeepsSound : CoordinationDb → CoordinationDb → Type 0
KeepsSound s t = IsSound s → IsSound t

KeepsSound-preorder : Preorder KeepsSound
KeepsSound-preorder = record { same = λ s h. h; chain = λ s t u f g h. g (f h) }

Appended-IsSound :
    (input : AppendEventInput) (e : CoordinationEvent) (s t : CoordinationDb)
    → Appended input e s t
    → IsSound s
    → IsSound t
Appended-IsSound input e s t a h = record {
  log = Appended-IsLog input e s t a h.log;
  replayed =
      let logged : CoordinationDb = record s { event_log = s.event_log ++ e ∷ [] } in
      ap (λ (db : CoordinationDb). view_of db) a.stored
      ∙ view_of-apply e.body e logged
      ∙ ap (read_body e.body e) h.replayed
      ∙ sym (read_log-append s.event_log e empty_view)
      ∙ ap (λ (l : List CoordinationEvent). read_log l empty_view)
          (sym (
            ap (λ (db : CoordinationDb). db.event_log) a.stored ∙ event_log-apply e.body e logged));
}

emit-IsSound :
    (rt : Runtime) (now : ℕ) (actor : Actor) (body : EventBody)
    → Moves KeepsSound (emit rt now actor body)
unfolding emit append
emit-IsSound rt now actor body =
    Moves-of _ (λ s r e. Appended-IsSound _ r.0 s r.1 (append_event-Appended _ _ s r e))

-- The records that are put without an event are in other tables.
IsSound-Kept : (rt : Runtime) → Kept KeepsSound rt
IsSound-Kept rt = record {
  preorder = KeepsSound-preorder;
  emits = emit-IsSound rt;
  repository = λ lease_ms now r db h. record { log = h.log; replayed = h.replayed };
  worktree = λ lease_ms now t db h. record { log = h.log; replayed = h.replayed };
  heartbeat = λ input now s db h. record { log = h.log; replayed = h.replayed };
  impact = λ i now db h. record { log = h.log; replayed = h.replayed };
  receipt = λ r db h. record { log = h.log; replayed = h.replayed };
}

module _ (rt : Runtime) (now : ℕ) where
  link-IsSound : (id : String) (d : DependencyInput) → Moves KeepsSound (link rt now id d)
  unfolding link
  link-IsSound id d =
      let put : (w : WorkDependency) → Moves KeepsSound (modify (with_dependency rt now w)) =
        λ w. Moves-modify _ (λ s h. record { log = h.log; replayed = h.replayed }) in
      search (moves_rules, KeepsSound-preorder, put) depth 10

  link_all-IsSound :
      (id : String) (ds : List DependencyInput) → Moves KeepsSound (link_all rt now id ds)
  unfolding link_all
  link_all-IsSound id [] = Moves-pure KeepsSound-preorder tt
  link_all-IsSound id (d ∷ ds) =
      Moves-bind KeepsSound-preorder _ _ (link-IsSound id d) (λ u. link_all-IsSound id ds)

  create_work_item_tx-IsSound :
      (input : WorkItemInput) (id : String) → Moves KeepsSound (create_work_item_tx rt now input id)
  unfolding create_work_item_tx
  create_work_item_tx-IsSound input id =
      search
        (
          moves_rules,
          KeepsSound-preorder,
          emit-IsSound rt,
          Moves-check_spec KeepsSound-preorder rt (emit-IsSound rt),
          link_all-IsSound,
        )
        depth 8

-- Any sequence of the operations of the coordination runtime (`join`, `createWorkItem`, `claim`,
-- `declareIntent`, `publish`, the heartbeat of `sync`, `complete`, `applyEvaluationDecision`,
-- `recordChangeReceipt` and `emitImpact`), with any arguments, whether they return or throw, keeps
-- this: the events of each project are numbered 1, 2, 3, … in the order of the log, no two events
-- have one identifier, and the tables of projects, work items, intents, scopes and context artifacts
-- are those that a reader of the log rebuilds.
pub perform_all-IsSound :
    (code_state : String → List CodeEntity × List CodeEdge)
    (compute : ImpactInput → Outcome ImpactResult) (rt : Runtime) (db : CoordinationDb)
    (os : List Operation)
    → IsSound db
    → IsSound (perform_all code_state compute rt db os)
perform_all-IsSound code_state compute rt db os =
    perform_all_rule (IsSound-Kept rt) code_state compute
      (λ input id now. create_work_item_tx-IsSound rt now input id) db os
