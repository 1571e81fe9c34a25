-- ===== src/Lib.antt =====
-- my-pi: coordination of coding agents, evaluation of their work, and the workspace under it.
--
-- The parts and how they interact. Agents share a coordination database
-- (packages/coordination-store): an append-only log of events, numbered for each project, and
-- tables of records that each event projects its payload to. The coordination runtime
-- (packages/coordination-runtime) works on it in transactions: an agent joins a project, creates
-- work items, claims one, declares what it intends to change, reads the events since it last did,
-- and completes the item, which releases its intents and scopes and unblocks other items, and a
-- decision of the evaluation runtime (packages/evaluation-runtime) moves an item that waits for
-- its evaluation. The workspace runtime (packages/workspace-runtime) keeps snapshots of files in
-- a bounded cache, and the LSP client (packages/lsp) cuts a byte stream into frames. Beside them,
-- the policy package (packages/policy) decides which operations on which paths are allowed, the
-- impact engine (packages/impact-engine) finds the code that a change affects, the context router
-- (packages/context-router) picks the events that an agent is sent, and the graph model
-- (packages/graph-model) puts graphs for display into a normal form, traces ways through them and
-- makes the frames that the user interface shows. Patches (packages/hashline) replace unique
-- anchors in a text.
--
-- Which file models which part:
--   Prelude             shared names; tests and case lemmas, lists, integers, `Map`s, texts, and
--                       calls that return or throw (packages/contracts/src/errors.ts).
--   Snapshots           SnapshotStore, packages/workspace-runtime/src/snapshot-store.ts: `record`,
--                       `cacheContent`, `evictIfNeeded`, `resolve`, `resolveAnchor`, `latestFor`,
--                       `invalidate`, `pin`, `unpin`, `prune`. Keys, Bytes and Soundness have the
--                       invariant, Pruning and Retention `prune`, Resolution the look-ups, Runs
--                       sequences of calls.
--   Coordination.Model  the records of packages/contracts/src.
--   Coordination.Event  packages/contracts/src/coordination-event.ts.
--   Coordination.Store  packages/coordination-store/src/sqlite-store.ts (`appendEventInTransaction`,
--                       `nextSequence`; `listEvents` in Store.Events; `checkIdempotency` and
--                       `recordIdempotency` in Store.Idempotency) and projections.ts
--                       (`putProjection`, `getProjection`, `listProjections`,
--                       `applyEventProjection`).
--   Coordination.Tx     `transact`: a callback on the database that returns or throws, and is rolled
--                       back if it throws.
--   Coordination.Work, Join, Create, Claim, Declare, Sync, Complete, Decision, Changes
--                       packages/coordination-runtime/src/runtime.ts (`join`, `createWorkItem`,
--                       `claim`, `declareIntent`, `publish`, `sync`, `complete`,
--                       `applyEvaluationDecision`, `emitImpact`, `refreshImpactsForWorktree`,
--                       `recordChangeReceipt`), join.ts, claim.ts, intent.ts, publish.ts, sync.ts,
--                       complete.ts, work-graph.ts and session-leases.ts.
--   Coordination.Operations, Replay, Links
--                       sequences of these operations, the log as the source of the tables, and the
--                       dependencies between work items.
--   Evaluation          packages/evaluation-runtime/src: acceptance.ts, retry.ts, criterion.ts,
--                       evidence.ts, result.ts and run.ts.
--   LspFrames           packages/lsp/src/frame-decoder.ts.
--   Graph               packages/graph-model/src/model.ts: Model has the records, Normalize
--                       `normalizeGraphSnapshot` and `validateGraphSnapshot`, Trace
--                       `traceGraphSnapshot`, Theater `eventToMotionCue`, and Theater.Frames
--                       `computeQualityState` and `createTheaterFrame`.
--   Policy              packages/policy/src: Paths sensitive-paths.ts, Engine policy-engine.ts and
--                       capability-class.ts, Audit audit.ts, Decision decision-point.ts and
--                       principal.ts, Approval approval.ts.
--   Routing             packages/context-router/src/router.ts: the router, its budget, what it
--                       delivers.
--   Hashline            packages/hashline/src/patch.ts: `parsePatch` and `applyHunks`.
--   Impact              packages/impact-engine/src/engine.ts: Traversal has `scopeMatches`,
--                       `targetEntities` and `graphTraversal`, Engine the rest.
-- Modules named Samples hold concrete runs.
--
-- How code corresponds to definitions. A method is a function from the state to the state, in a
-- pair with its result; a `throw` is an error code without its message; a `for` loop with pushes is
-- a recursion with the lists so far. Names are the source's in snake case. Identifiers, sizes and
-- times that the code takes from outside (`createEventId`, the clock, digests, JSON lengths) are
-- arguments. Times are milliseconds, where the source keeps ISO texts. An optional field is an
-- `Option`. Numbers are natural numbers where the source checks or implies that they are not
-- negative; the snapshot store's `bytesHeld`, which can fall below zero, is an integer. SQLite is
-- its rows: one table for each kind of projection, with rows in a project ordered by identifier.
--
-- Fuel. The loop of LspFrames.push has one more than the buffer's bytes; each turn that goes on
-- takes at least four. The search of a trace has two more than the graph's edges: a turn takes a
-- node from the queue, and an edge puts its target there once at most; the walk back over the
-- parents has one more than the greatest depth. The traversal of the impact engine has one more than
-- its targets and its greatest number of entities together, since each entity is queued once.
--
-- Not modelled: rows that `putProjection` writes to specialised tables, events of heartbeats
-- (which nothing appends), audit records, code graphs, other operations between the two readings
-- of a database that one call makes outside a transaction (but for those of `sync`), the
-- evaluation runtime's own transactions and feedback, and the other packages (search, version
-- control, the change runtime, the daemon and the user interface), which are input and output
-- around other programs or are not yet translated.
pub mod Prelude
pub mod Snapshots
pub mod Coordination
pub mod Evaluation
pub mod LspFrames
pub mod Graph
pub mod Policy
pub mod Routing
pub mod Impact
pub mod Hashline
