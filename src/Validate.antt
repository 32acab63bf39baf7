-- ===== src/Validate.antt =====
-- rust/crates/baselineops-domain/src/validate.rs and the files under validate/.
pub mod Text
pub mod Json
pub mod Graph
pub mod Identity
pub mod Plan
pub mod Evidence
pub mod Worker
