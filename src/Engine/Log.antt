-- ===== src/Engine/Log.antt =====
-- The conversation of an engine with its backend (crates/frametime-domain/src/engine.rs): a backend
-- that answers like another and keeps every call but those of the clock with its answer, the latest
-- first.
use cs2_opt.Prelude.{List, ◌∷◌, Result, String}
use cs2_opt.Progress.{Progress}
use cs2_opt.Audit.Rebuildable.{RebuildableAudit}
use cs2_opt.Audit.Manual.{IrreversibleAudit}
use cs2_opt.Engine.Defs.{Inspection, Operation, Call, Backend, Control}

abbrev pub Answer : Type 0
Answer = Result String (Unit {0})

pub data Entry (V B R : Type 0) : Type 0 where
  inspected : Operation → Result String Inspection → Entry V B R
  planned : Operation → Result String (List String) → Entry V B R
  backups_captured : Operation → Result String (List B) → Entry V B R
  backups_saved : List B → Answer → Entry V B R
  audit_captured : Operation → Result String (RebuildableAudit V) → Entry V B R
  audit_saved audit_finalized : RebuildableAudit V → Answer → Entry V B R
  manual_captured : Operation → Result String (IrreversibleAudit V) → Entry V B R
  manual_saved manual_finalized manual_failed : IrreversibleAudit V → Answer → Entry V B R
  evidence_captured : Operation → Result String R → Entry V B R
  evidence_saved : R → Answer → Entry V B R
  evidence_verified : Operation → R → Answer → Entry V B R
  applied verified : Operation → Answer → Entry V B R
  progress_saved : Progress V → Answer → Entry V B R

module _ {S T A : Type 0} where
  abbrev pub noted : Call S A → (Result String A → T) → Call (S × List T) A
  noted f entry o = let (r, s) = f o.0 in (r, (s, entry r ∷ o.1))

  abbrev pub quiet : (S → A × S) → S × List T → A × (S × List T)
  quiet f o = let (a, s) = f o.0 in (a, (s, o.1))

module _ {S V B R : Type 0} where
  abbrev pub recording : Backend S V B R → Backend (S × List (Entry V B R)) V B R
  recording b = record {
    is_dry_run = b.is_dry_run;
    recovery_requirement = b.recovery_requirement;
    evidence_requirement = b.evidence_requirement;
    inspect = λ op. noted (b.inspect op) (inspected op);
    plan = λ op. noted (b.plan op) (planned op);
    capture_backups = λ op. noted (b.capture_backups op) (backups_captured op);
    persist_backups = λ bs. noted (b.persist_backups bs) (backups_saved bs);
    capture_pending_audit = λ op. noted (b.capture_pending_audit op) (audit_captured op);
    persist_pending_audit = λ a. noted (b.persist_pending_audit a) (audit_saved a);
    finalize_audit = λ a. noted (b.finalize_audit a) (audit_finalized a);
    capture_pending_irreversible_audit =
        λ op. noted (b.capture_pending_irreversible_audit op) (manual_captured op);
    persist_pending_irreversible_audit =
        λ a. noted (b.persist_pending_irreversible_audit a) (manual_saved a);
    finalize_irreversible_audit = λ a. noted (b.finalize_irreversible_audit a) (manual_finalized a);
    fail_irreversible_audit = λ a. noted (b.fail_irreversible_audit a) (manual_failed a);
    capture_evidence = λ op. noted (b.capture_evidence op) (evidence_captured op);
    persist_evidence = λ r. noted (b.persist_evidence r) (evidence_saved r);
    verify_evidence = λ op r. noted (b.verify_evidence op r) (evidence_verified op r);
    apply = λ op. noted (b.apply op) (applied op);
    verify = λ op. noted (b.verify op) (verified op);
    persist_progress = λ p. noted (b.persist_progress p) (progress_saved p);
    timestamp = quiet b.timestamp;
  }

module _ {S T R : Type 0} where
  abbrev pub quiet_control : Control S R → Control (S × List T) R
  quiet_control c = record {
    consent = λ step. quiet (c.consent step);
    cancelled = quiet c.cancelled;
    validate_for = c.validate_for;
  }
