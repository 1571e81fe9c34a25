-- ===== src/Coordination/Create.antt =====
-- `createWorkItem` (packages/coordination-runtime/src/runtime.ts).
use Prim.Native.String.{◌++◌ as ◌+++◌}
use my_pi.Prelude.{
  ℕ, String, Option, none, some, List, [], ◌∷◌, Bool, true, ◌&&◌, leb, str_eq, if◌then◌else◌,
}
use my_pi.Prelude.Text.{js_length, truthy}
use my_pi.Prelude.Outcome.{
  Outcome, err, invalid_argument, project_not_found, work_item_not_found, evaluation_spec_invalid,
}
use my_pi.Coordination.Model.{WorkItem, WorkItemState, WorkDependency, WorkDependencyType, Actor}
use my_pi.Coordination.Event.{WorkItemEvent, work_item_event}
use my_pi.Coordination.Store.{CoordinationDb, put_projection, get_projection}
use my_pi.Coordination.Tx.{Tx, pure, read, or_throw, check, modify, ◌>>=◌, ◌>>◌, transact}
use my_pi.Coordination.Work.{Runtime, emit}

-- A dependency of the item to be, whose type the caller gives as a text.
pub record DependencyInput : Type 0 where
  pub from : Option String
  pub to : String
  pub type : String

pub record WorkItemInput : Type 0 where
  pub title : String
  pub summary : Option String
  pub evaluation_spec_id : Option String
  pub dependencies : List DependencyInput

-- `["depends_on", "blocks", "implements", "verifies"].includes(type)`, with the type that it names.
unfoldable pub dependency_type : String → Option WorkDependencyType
dependency_type t =
    if str_eq t "depends_on"
    then some WorkDependencyType.depends_on
    else if str_eq t "blocks"
    then some WorkDependencyType.blocks
    else if str_eq t "implements"
    then some WorkDependencyType.implements
    else if str_eq t "verifies"
    then some WorkDependencyType.verifies
    else none

abbrev pub type_text : WorkDependencyType → String
type_text WorkDependencyType.depends_on = "depends_on"
type_text WorkDependencyType.blocks = "blocks"
type_text WorkDependencyType.implements = "implements"
type_text WorkDependencyType.verifies = "verifies"

-- `${from}:${to}:${type}`
abbrev pub dependency_key : WorkDependency → String
dependency_key d = d.from +++ ":" +++ d.to +++ ":" +++ type_text d.type

-- `dependency.from !== undefined && dependency.from !== item.id`, negated.
abbrev pub is_from : String → Option String → Bool
is_from id none = true
is_from id (some from) = str_eq from id

module _ (rt : Runtime) (now : ℕ) where
  abbrev pub created_item : WorkItemInput → String → WorkItem
  created_item input id = record {
    id = id;
    project_id = rt.project_id;
    parent_id = none;
    title = input.title;
    summary = input.summary;
    state = WorkItemState.ready;
    assignee = none;
    evaluation_spec_id = input.evaluation_spec_id;
    accepted_evaluation_run_id = none;
    version = 0;
    created_at = now;
    updated_at = now;
  }

  abbrev pub with_dependency : WorkDependency → CoordinationDb → CoordinationDb
  with_dependency d db = record db {
    work_dependencies =
        put_projection (dependency_key d) d (some rt.project_id) now db.work_dependencies;
  }

  -- One turn of the loop over the dependencies.
  unfoldable pub link : String → DependencyInput → Tx (Unit {0})
  unfolding dependency_type
  link id d = do
    check (is_from id d.from) invalid_argument
    check (truthy d.to) invalid_argument
    type ← or_throw invalid_argument (dependency_type d.type)
    found ← read (λ db. get_projection d.to db.work_items)
    target ← or_throw work_item_not_found found
    check (str_eq target.project_id rt.project_id) work_item_not_found
    modify (with_dependency (record { from = id; to = d.to; type = type }))

  unfoldable pub link_all : String → List DependencyInput → Tx (Unit {0})
  unfolding link
  link_all id [] = pure tt
  link_all id (d ∷ ds) = link id d >> link_all id ds

  unfoldable pub check_spec : Option String → Tx (Unit {0})
  check_spec none = pure tt
  check_spec (some spec_id) = do
    found ← read (λ db. get_projection spec_id db.evaluation_specs)
    spec ← or_throw evaluation_spec_invalid found
    check (str_eq spec.project_id rt.project_id) evaluation_spec_invalid

  -- The callback of `createWorkItem`, with the identifier that `createWorkItemId` returns.
  unfoldable pub create_work_item_tx : WorkItemInput → String → Tx WorkItem
  unfolding check_spec link_all
  create_work_item_tx input id = do
    found ← read (λ db. get_projection rt.project_id db.projects)
    or_throw project_not_found found
    check_spec input.evaluation_spec_id
    emit rt now (Actor.system "coordination-runtime")
        (work_item_event WorkItemEvent.created (created_item input id))
    link_all id input.dependencies
    pure (created_item input id)

-- `!input.title || input.title.length > 500`, negated.
abbrev pub title_ok : String → Bool
title_ok title = truthy title && leb (js_length title) 500

-- `createWorkItem`
unfoldable pub create_work_item :
    Runtime → WorkItemInput → String → ℕ → CoordinationDb → Outcome WorkItem × CoordinationDb
unfolding create_work_item_tx
create_work_item rt input id now db =
    if title_ok input.title
    then transact (create_work_item_tx rt now input id) db
    else (err invalid_argument, db)
