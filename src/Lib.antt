-- ===== src/Lib.antt =====
-- frametime.cfg: the domain crate, crates/frametime-domain.
--
-- The program tunes a Windows machine for one game in three phases that a reboot into Safe Mode
-- separates. The domain crate holds its decisions: which actions there are, which of them a profile
-- may run, what has been done, what may happen next around a reboot, and how one action is carried
-- out with its recovery in hand. It calls no operating system: the platform is a trait that the
-- engine is given.
--
-- Parts and files (source paths are below crates/frametime-domain/src):
--   * Catalog: catalog.rs, catalog/definitions.rs, operations.rs. Ids has `StepId` and its keys, Kinds
--     the enumerations, Steps the table `STEPS` in six runs of rows with its lookups, Schedule what the
--     table guarantees.
--   * Policy: policy.rs, `Profile::decision`; Policy/Consent has its rules.
--   * Handoff: handoff.rs. Format has the text formats, Walk where Windows
--     gets to with a path, Stage `RebootStage`, Transaction
--     `RebootTransaction` with `is_authorized_at` and `transition_to`, Progression histories of
--     transitions.
--   * Progress: `Progress` of state.rs and state/progress.rs; Resolution sees it as a map.
--   * State: `State::validate` of state.rs; Validation says when it passes.
--   * Fps and Config: `measured_fps_cap` of fps.rs; config.rs, whose Rules say what a valid
--     configuration is.
--   * Benchmark: benchmark.rs. Receipt and History have the records and the bounded history, Baseline
--     and Final the two commits with their readback. Capture, FinalRecord, FinalReadback,
--     BaselineRecord, BaselineReadback, BaselineCases, BaselineRetry and Retention reason about
--     them.
--   * Backup: backup.rs. Devices has the captured state of backup/interrupt.rs and
--     backup/network_stack.rs, Entry the other kinds, Identity the two operations of a file;
--     FirstValue reasons about a run of captures.
--   * Cs2: cs2.rs, cs2_config.rs and its modules. Targets has the closed sets of files, Autoexec the
--     generated file and the bootstrap line, Files the port `Cs2ConfigFs` and the writes that are
--     read back, Controller, Apply, Assets and Restore the methods of `Cs2ConfigController`. Contract
--     says what is asked of a port and has conditions before and after an action; Spares, Backups,
--     Holds, Apart and Names carry the proofs of Safety, Written, Restored, Request and Bootstrap.
--   * Steam: steam.rs. Lexer and Parser have the reader of Steam's text files, Totality its fuel,
--     Printing and RoundTrip an independent printer.
--   * Orchestration: orchestration.rs. Facts has the data, Guards the `require_*` functions, Authorize
--     `authorize` with a function for each request, Recovery `recovery_for`. Permits says what each
--     request needs without the order of the guards; Readings and Soundness connect the two.
--   * Migration: migration.rs, `assess` and `assess_inventory`.
--   * Audit: audit.rs. Rebuildable and Manual are the two families of audits; Subjects,
--     Targets and Lifecycle reason about them.
--   * Engine: engine.rs. Defs has the trait `Backend` as a record of functions, Exec the methods as
--     functions of a world that comes back beside an error too, Operations and Run the methods of
--     `Engine`. Log wraps a backend so that it keeps every call but those of the clock with
--     its answer; Triple has conditions before and after a method; Guarded, Guarantees, DryRun and Completeness state what a run
--     keeps to, and Kept, Safety and Trace carry every invariant that the calls keep through a run.
--   * Prelude has what the parts share, Witnesses the concrete inputs.
--
-- How they interact: a run of the engine takes rows of the catalog, asks the policy, reads and
-- records progress and takes audits from the backend; orchestration and migration read the state, the
-- progress and the catalog; the state's validation reads the transaction and the receipt.
--
-- Conventions. Texts are lists of bytes, in Cs2/Autoexec of code points; a path is the list of its
-- components. Numbers are natural numbers; a `u8` step number is bounded where a statement needs
-- it, and no modelled operation adds to a machine integer other than counters of a run. `f64` is an
-- interface (Prelude/Float) of which the whole numbers are an instance. Kept JSON values, the
-- engine's backup entries and receipts and the state outside it are type parameters. Sets and maps are lists
-- with the laws of Prelude/Keys. Loops are over lists, but for the reader of Steam, whose fuel is
-- one more than the length of what it reads: each round takes a token, or a byte.
--
-- Not modelled: JSON and TOML reading and writing (serde), evidence.rs and binding.rs but for the
-- engine's requirement and the records of devices and adapters, VProf parsing, the validation of
-- captured state, the video settings, drivers, and the crates for the platform, the application
-- services, the command line and the graphical interface.
pub mod Prelude
pub mod Catalog
pub mod Policy
pub mod Handoff
pub mod Progress
pub mod Fps
pub mod Config
pub mod Cs2
pub mod Steam
pub mod Backup
pub mod Benchmark
pub mod State
pub mod Audit
pub mod Engine
pub mod Orchestration
pub mod Migration
pub mod Witnesses
