-- ===== src/Journal.antt =====
-- rust/crates/baselineops-engine/src/journal.rs and the files under journal/.
pub mod Event
pub mod Lifecycle
pub mod Frame
pub mod Writer
pub mod Reader
pub mod Reopen
pub mod Session
