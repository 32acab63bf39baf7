-- ===== src/Agreement.antt =====
-- The dependency checks of a plan (validate/graph.rs in the domain crate) and of a run
-- (scheduler/order.rs in the engine crate) beside each other.
pub mod Rows
pub mod Laws
pub mod Plan
