-- ===== src/Witnesses.antt =====
-- Concrete inputs of crates/frametime-domain and what the library's theorems say of them.
mod Audits
mod Captures
mod Data
mod Workflow
mod Engine
mod Rules
mod Store
mod Evidence
mod Files
mod Histories
mod Restores
mod SteamFiles
