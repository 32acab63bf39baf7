-- ===== src/Domain.antt =====
-- The contracts of rust/crates/baselineops-domain: documents as records, enums as data types.
pub mod Json
pub mod Ids
pub mod Primitives
pub mod Bindings
pub mod Action
pub mod Results
