-- ===== src/Handoff.antt =====
-- The records of a reboot handoff: crates/frametime-domain/src/handoff.rs.
pub mod Format
pub mod Walk
pub mod Stage
pub mod Transaction
pub mod Progression
