-- ===== src/Coordination/Declare.antt =====
-- `declareIntent` and `publish` (packages/coordination-runtime/src/runtime.ts, intent.ts and
-- publish.ts), with the times of their two readings of the clock.
use Prim.Native.Char.{code}
use my_pi.Prelude.{
  ℕ, String, Option, none, some, List, [], Bool, true, false, ◌&&◌, ◌||◌, leb, ◌==◌, str_eq,
  if◌then◌else◌, length,
}
use my_pi.Prelude.Text.{js_length, truthy}
use my_pi.Prelude.Outcome.{Outcome, err, work_item_not_found, work_item_conflict, plain_error}
use my_pi.Coordination.Model.{
  Intent, IntentKind, IntentState, ScopeRef, ContextArtifact, ContextArtifactKind, Actor,
}
use my_pi.Coordination.Event.{IntentEvent, intent_event, context_published}
use my_pi.Coordination.Store.{CoordinationDb, get_projection}
use my_pi.Coordination.Tx.{Tx, pure, read, or_throw, check, ◌>>=◌, ◌>>◌, transact}
use my_pi.Coordination.Work.{Runtime, emit, live_session}

pub record DeclareIntentInput : Type 0 where
  pub agent_session_id : String
  pub work_item_id : Option String
  pub kind : IntentKind
  pub summary : String
  pub targets : List ScopeRef
  pub expires_at : Option ℕ

abbrev pub is_investigate : IntentKind → Bool
is_investigate IntentKind.investigate = true
is_investigate _ = false

-- `validateIntentInput`
abbrev pub intent_input_ok : DeclareIntentInput → Bool
intent_input_ok input =
    truthy input.summary
    && leb (js_length input.summary) 2000
    && (leb 1 (length input.targets) || is_investigate input.kind)
    && leb (length input.targets) 100

-- `item.assignee !== undefined && item.assignee !== agentSessionId`, negated.
abbrev pub is_open_to : Option String → String → Bool
is_open_to none agent = true
is_open_to (some assignee) agent = str_eq assignee agent

module _ (rt : Runtime) (agent : String) where
  -- The test of the work item, if one is given, that `declareIntent` and `publish` share.
  unfoldable pub check_item : Option String → Tx (Unit {0})
  check_item none = pure tt
  check_item (some id) = do
    found ← read (λ db. get_projection id db.work_items)
    item ← or_throw work_item_not_found found
    check (str_eq item.project_id rt.project_id) work_item_not_found
    check (is_open_to item.assignee agent) work_item_conflict

module _ (rt : Runtime) (checked_at now : ℕ) where
  abbrev pub declared_intent : DeclareIntentInput → String → Intent
  declared_intent input id = record {
    id = id;
    project_id = rt.project_id;
    agent_session_id = input.agent_session_id;
    work_item_id = input.work_item_id;
    kind = input.kind;
    summary = input.summary;
    targets = input.targets;
    state = IntentState.active;
    created_at = now;
    expires_at = input.expires_at;
  }

  -- The callback of `declareIntent`, with the identifier that `createIntentId` returns.
  unfoldable pub declare_intent_tx : DeclareIntentInput → String → Tx Intent
  unfolding check_item
  declare_intent_tx input id = do
    live_session rt input.agent_session_id checked_at
    check_item rt input.agent_session_id input.work_item_id
    emit rt now (Actor.agent_session input.agent_session_id)
        (intent_event IntentEvent.declared (declared_intent input id))
    pure (declared_intent input id)

-- `declareIntent`, before the impact of the intent is looked for.
unfoldable pub declare_intent :
    Runtime → DeclareIntentInput → String → ℕ → ℕ → CoordinationDb → Outcome Intent × CoordinationDb
unfolding declare_intent_tx
declare_intent rt input id checked_at now db =
    if intent_input_ok input
    then transact (declare_intent_tx rt checked_at now input id) db
    else (err plain_error, db)

pub record PublishInput : Type 0 where
  pub agent_session_id : String
  pub work_item_id : Option String
  -- none for a text that is no kind of artifact.
  pub kind : Option ContextArtifactKind
  pub content_digest : String
  pub scope_ids : Option (List String)
  pub code_entity_ids : Option (List String)
  pub classification : String
  pub retention : String
  pub supersedes : Option String

abbrev is_between : ℕ → ℕ → ℕ → Bool
is_between low high n = leb low n && leb n high

-- `[a-zA-Z0-9:_-]`
abbrev pub is_digest_char : ℕ → Bool
is_digest_char c =
    is_between 97 122 c || is_between 65 90 c || is_between 48 57 c || c == 58 || c == 95 || c == 45

abbrev all_digest_chars : String → Bool
all_digest_chars String.[] = true
all_digest_chars (String.◌∷◌ c s) = is_digest_char (code c) && all_digest_chars s

-- `/^[a-zA-Z0-9:_-]{8,256}$/.test(digest)`
abbrev pub is_digest : String → Bool
is_digest s = all_digest_chars s && is_between 8 256 (js_length s)

abbrev pub or_empty : Option (List String) → List String
or_empty none = []
or_empty (some ids) = ids

-- `validatePublishInput`, after the kind.
abbrev pub publish_input_ok : PublishInput → Bool
publish_input_ok input =
    is_digest input.content_digest
    && truthy input.classification
    && leb (js_length input.classification) 64
    && truthy input.retention
    && leb (js_length input.retention) 128
    && leb (length (or_empty input.scope_ids)) 100
    && leb (length (or_empty input.code_entity_ids)) 100

-- `artifactFromInput`
unfoldable pub artifact_from_input :
    PublishInput → ContextArtifactKind → String → ℕ → ContextArtifact
artifact_from_input input kind id now = record {
  id = id;
  kind = kind;
  author_agent_session_id = input.agent_session_id;
  work_item_id = input.work_item_id;
  scope_ids = or_empty input.scope_ids;
  code_entity_ids = or_empty input.code_entity_ids;
  content_digest = input.content_digest;
  classification = input.classification;
  retention = input.retention;
  created_at = now;
  supersedes = input.supersedes;
}

module _ (rt : Runtime) (checked_at now : ℕ) where
  -- The callback of `publish`, with the identifier that `createContextArtifactId` returns.
  unfoldable pub publish_tx : PublishInput → ContextArtifactKind → String → Tx ContextArtifact
  unfolding check_item artifact_from_input
  publish_tx input kind id = do
    live_session rt input.agent_session_id checked_at
    check_item rt input.agent_session_id input.work_item_id
    emit rt now (Actor.agent_session input.agent_session_id)
        (context_published (artifact_from_input input kind id now))
    pure (artifact_from_input input kind id now)

  -- `publish`, for the kind that is given.
  unfoldable pub publish_kind :
      PublishInput
      → Option ContextArtifactKind
      → String
      → CoordinationDb
      → Outcome ContextArtifact × CoordinationDb
  unfolding publish_tx
  publish_kind input none id db = (err plain_error, db)
  publish_kind input (some kind) id db =
      if publish_input_ok input
      then transact (publish_tx input kind id) db
      else (err plain_error, db)

-- `publish`
unfoldable pub publish :
    Runtime
    → PublishInput
    → String
    → ℕ
    → ℕ
    → CoordinationDb
    → Outcome ContextArtifact × CoordinationDb
unfolding publish_kind
publish rt input id checked_at now = publish_kind rt checked_at now input input.kind id
