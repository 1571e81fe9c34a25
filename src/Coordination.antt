-- ===== src/Coordination.antt =====
-- The coordination plane: the records that agents share (packages/contracts/src), the event log
-- with its projections (packages/coordination-store/src) and the operations of the coordination
-- runtime (packages/coordination-runtime/src).
pub mod Model
pub mod Event
pub mod Store
pub mod Tx
pub mod Work
pub mod Claim
pub mod Complete
pub mod Decision
pub mod Create
pub mod Join
pub mod Declare
pub mod Sync
pub mod Changes
pub mod Operations
pub mod Replay
pub mod Links
pub mod Samples
