-- ===== src/Validate/Graph.antt =====
-- rust/crates/baselineops-domain/src/validate/graph.rs: the dependency checks of the documents.
pub mod Index
pub mod Sort
pub mod Network
pub mod Total
pub mod Laws
pub mod Counts
