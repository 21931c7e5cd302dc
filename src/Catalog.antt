-- ===== src/Catalog.antt =====
-- The action catalog: crates/frametime-domain/src/catalog.rs.
pub mod Ids
pub mod Kinds
pub mod Steps
pub mod Schedule
