-- ===== src/Orchestration.antt =====
-- Guards of the reboot-spanning workflow: crates/frametime-domain/src/orchestration.rs.
pub mod Facts
pub mod Guards
pub mod Authorize
pub mod Recovery
pub mod Permits
pub mod Readings
pub mod Soundness
pub mod Compensations
