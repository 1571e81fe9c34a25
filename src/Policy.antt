-- ===== src/Policy.antt =====
-- Which operations on which paths are allowed, the decision point, approvals and the audit log
-- (packages/policy/src).
pub mod Paths
pub mod Engine
pub mod Audit
pub mod Decision
pub mod Approval
mod Samples
