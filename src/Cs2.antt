-- ===== src/Cs2.antt =====
-- The game's configuration files: crates/frametime-domain/src/cs2.rs, cs2_config.rs and the modules
-- below it.
pub mod Autoexec
pub mod Bootstrap
pub mod Targets
pub mod Names
pub mod Files
pub mod Controller
pub mod Apply
pub mod Contract
pub mod Spares
pub mod Apart
pub mod Backups
pub mod Safety
pub mod Restore
pub mod Assets
pub mod Holds
pub mod Restored
pub mod Written
pub mod Request
