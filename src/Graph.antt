-- ===== src/Graph.antt =====
-- Graphs for display and their bounds (packages/graph-model/src/model.ts).
pub mod Model
pub mod Normalize
pub mod Trace
pub mod Theater
mod Samples
