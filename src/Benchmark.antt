-- ===== src/Benchmark.antt =====
-- Benchmark evidence: crates/frametime-domain/src/benchmark.rs.
pub mod Receipt
pub mod Capture
pub mod History
pub mod Retention
pub mod Baseline
pub mod Final
pub mod FinalRecord
pub mod FinalReadback
pub mod BaselineRecord
pub mod BaselineReadback
pub mod BaselineCases
pub mod BaselineRetry
