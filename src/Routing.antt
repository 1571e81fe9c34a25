-- ===== src/Routing.antt =====
-- Which events an agent is sent (packages/context-router/src/router.ts and model.ts).
pub mod Router
pub mod Budget
pub mod Delivery
pub mod Whole
mod Samples
