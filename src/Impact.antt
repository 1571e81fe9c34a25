-- ===== src/Impact.antt =====
-- Which code entities a change affects (packages/impact-engine/src/engine.ts and model.ts).
pub mod Model
pub mod Traversal
pub mod Bounds
pub mod Engine
mod Samples
