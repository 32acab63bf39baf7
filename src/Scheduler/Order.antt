-- ===== src/Scheduler/Order.antt =====
-- rust/crates/baselineops-engine/src/scheduler/order.rs: `topological_order`.
pub mod Total
pub mod Laws
pub use Total.{ordered_run}
unfoldable pub use Total.{topological_order}
