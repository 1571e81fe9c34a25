-- ===== src/Evaluation.antt =====
-- Evaluation runs and their acceptance (packages/evaluation-runtime/src).
pub mod Model
pub mod Acceptance
pub mod Retry
pub mod Validation
mod Samples
