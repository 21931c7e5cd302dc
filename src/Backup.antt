-- ===== src/Backup.antt =====
-- Backups: crates/frametime-domain/src/backup.rs.
pub mod Devices
pub mod Entry
pub mod Identity
pub mod FirstValue
