-- ===== src/Audit.antt =====
-- Recovery audits: crates/frametime-domain/src/audit.rs.
pub mod Rebuildable
pub mod Manual
pub mod Subjects
pub mod Targets
pub mod Lifecycle
