-- ===== src/Engine/Defs.antt =====
-- Data of crates/frametime-domain/src/engine.rs: inspections, events, errors, and the backend that
-- the engine drives. `S` is the state of everything outside the engine, `V` the kept JSON values,
-- `B` the backup entries and `R` the observation receipts.
use cs2_opt.Prelude.{ℕ, Bool, true, false, List, [], Result, String}
use cs2_opt.Prelude.Text.{Text}
use cs2_opt.Catalog.Steps.{Step}
use cs2_opt.Progress.{Progress}
use cs2_opt.Audit.Rebuildable.{RecoveryRequirement, RebuildableAudit}
use cs2_opt.Audit.Manual.{IrreversibleAudit}

pub data Inspection : Type 0 where
  satisfied needs_apply inapplicable : Inspection
  advisory : Text → Inspection
  unsupported : Inspection

abbrev pub is_satisfied : Inspection → Bool
is_satisfied satisfied = true
is_satisfied _ = false

pub data EvidenceRequirement : Type 0 where
  none_required durable_receipt : EvidenceRequirement

pub data Event : Type 0 where
  inspect capture_backup persist_backup capture_audit persist_audit : Text → Event
  capture_evidence persist_evidence verify_evidence apply verify : Text → Event
  finalize_audit fail_audit complete skip : Text → Event
  advisory : Text → Text → Event
  plan : String → Event

pub record Operation : Type 0 where
  pub step : Step

pub record RunReport : Type 0 where
  pub events : List Event
  pub completed : ℕ
  pub skipped : ℕ
  pub advisories : ℕ
  pub failed : ℕ

abbrev pub default_report : RunReport
default_report = record { events = []; completed = 0; skipped = 0; advisories = 0; failed = 0 }

-- Each error carries the key of its step and mostly a message.
pub data EngineError : Type 0 where
  inspect backup persist audit_capture audit_persist : Text → String → EngineError
  evidence_capture evidence_persist evidence_verify apply verify : Text → String → EngineError
  audit_finalize audit_failure_persist progress : Text → String → EngineError
  unsupported cancelled : Text → EngineError

-- A call that may fail, and may change the world outside the engine either way.
abbrev pub Call : Type 0 → Type 0 → Type 0
Call S A = S → Result String A × S

-- The trait `Backend`. Its queries by `&self` answer by the operation alone, as in both of its
-- implementations; `timestamp` reads a clock.
pub record Backend (S V B R : Type 0) : Type 0 where
  pub is_dry_run : Bool
  pub recovery_requirement : Operation → RecoveryRequirement
  pub evidence_requirement : Operation → EvidenceRequirement
  pub inspect : Operation → Call S Inspection
  pub plan : Operation → Call S (List String)
  pub capture_backups : Operation → Call S (List B)
  pub persist_backups : List B → Call S (Unit {0})
  pub capture_pending_audit : Operation → Call S (RebuildableAudit V)
  pub persist_pending_audit : RebuildableAudit V → Call S (Unit {0})
  pub finalize_audit : RebuildableAudit V → Call S (Unit {0})
  pub capture_pending_irreversible_audit : Operation → Call S (IrreversibleAudit V)
  pub persist_pending_irreversible_audit : IrreversibleAudit V → Call S (Unit {0})
  pub finalize_irreversible_audit : IrreversibleAudit V → Call S (Unit {0})
  pub fail_irreversible_audit : IrreversibleAudit V → Call S (Unit {0})
  pub capture_evidence : Operation → Call S R
  pub persist_evidence : R → Call S (Unit {0})
  pub verify_evidence : Operation → R → Call S (Unit {0})
  pub apply : Operation → Call S (Unit {0})
  pub verify : Operation → Call S (Unit {0})
  pub persist_progress : Progress V → Call S (Unit {0})
  pub timestamp : S → Text × S

-- The two callbacks of `run_with_control`, and `ObservationReceipt::validate_for`.
pub record Control (S R : Type 0) : Type 0 where
  pub consent : Step → S → Bool × S
  pub cancelled : S → Bool × S
  pub validate_for : R → Text → Result String (Unit {0})

pub record World (S V : Type 0) : Type 0 where
  pub outside : S
  pub progress : Progress V
  pub report : RunReport
