-- ===== src/Engine.antt =====
-- The execution engine of crates/frametime-domain/src/engine.rs.
pub mod Defs
pub mod Exec
pub mod Operations
pub mod Run
pub mod Log
pub mod Triple
pub mod Guarded
pub mod Kept
pub mod Safety
pub mod Trace
pub mod Guarantees
pub mod DryRun
pub mod Completeness
