-- ===== src/Scheduler.antt =====
-- rust/crates/baselineops-engine/src/scheduler.rs
pub mod Index
pub mod Loop
pub mod Network
pub mod Order
pub mod State
pub mod Run
