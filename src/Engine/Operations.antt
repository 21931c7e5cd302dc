-- ===== src/Engine/Operations.antt =====
-- The operations of one live step: crates/frametime-domain/src/engine.rs.
use cs2_opt.Prelude.{not, ok, err, is_empty, if◌then◌else◌}
use cs2_opt.Prelude.Text.{Text}
use cs2_opt.Progress.{Progress}
use cs2_opt.Audit.Rebuildable.{
  RecoveryRequirement, lossless_backup, rebuildable_audit, manual_recovery_audit, mixed,
  requirement_eq, rebuildable_is_valid_pending_for, rebuildable_finalized,
}
use cs2_opt.Audit.Manual.{IrreversibleAudit, is_valid_pending_for, finalized, failed_audit}
use cs2_opt.Engine.Defs.{
  none_required, durable_receipt, Event, EngineError, Operation, Backend, Control,
}
use cs2_opt.Engine.Exec.{Exec, ◌>>=◌, ◌>>◌, pure, raise, call, ask, event, set_progress, check}

module _ {S V B R : Type 0} (b : Backend S V B R) where
  unfoldable pub apply_and_verify : Operation → Text → Exec S V (Unit {0})
  apply_and_verify op key = do
    call (b.apply op) (EngineError.apply key)
    event (Event.apply key)
    call (b.verify op) (EngineError.verify key)
    event (Event.verify key)

  unfoldable pub capture_lossless_backups : Operation → Text → Exec S V (Unit {0})
  capture_lossless_backups op key = do
    event (Event.capture_backup key)
    backups ← call (b.capture_backups op) (EngineError.backup key)
    check (not (is_empty backups))
        (EngineError.backup key "mutating operation captured no recovery entries")
    call (b.persist_backups backups) (EngineError.persist key)
    event (Event.persist_backup key)

  unfoldable pub run_lossless_operation : Operation → Text → Exec S V (Unit {0})
  unfolding capture_lossless_backups apply_and_verify
  run_lossless_operation op key = do capture_lossless_backups op key; apply_and_verify op key

  unfoldable pub run_rebuildable_operation : Operation → Text → Exec S V (Unit {0})
  unfolding apply_and_verify
  run_rebuildable_operation op key = do
    event (Event.capture_audit key)
    audit ← call (b.capture_pending_audit op) (EngineError.audit_capture key)
    check (rebuildable_is_valid_pending_for audit key) (
        EngineError.audit_capture key
          "rebuildable mutation must capture a complete pending audit record bound to the current step")
    call (b.persist_pending_audit audit) (EngineError.audit_persist key)
    event (Event.persist_audit key)
    apply_and_verify op key
    now ← ask b.timestamp
    call (b.finalize_audit (rebuildable_finalized audit now)) (EngineError.audit_finalize key)
    event (Event.finalize_audit key)

  -- The error path: the audit is recorded as failed before the error goes on.
  unfoldable pub fail_audit_and_raise :
      IrreversibleAudit V → Text → EngineError → Exec S V (Unit {0})
  fail_audit_and_raise audit key error = do
    now ← ask b.timestamp
    call (b.fail_irreversible_audit (failed_audit audit now))
        (EngineError.audit_failure_persist key)
    event (Event.fail_audit key)
    raise error

  -- `if let Err(error) = self.apply_and_verify(…)`
  unfoldable pub apply_or_fail_audit : Operation → Text → IrreversibleAudit V → Exec S V (Unit {0})
  unfolding apply_and_verify fail_audit_and_raise
  apply_or_fail_audit op key audit w =
      let (r, w') = apply_and_verify op key w in
      elim r [ ok u ↦ (ok tt, w') | err error ↦ fail_audit_and_raise audit key error w' ]

  unfoldable pub run_pending_irreversible_audit :
      Operation → Text → RecoveryRequirement → Exec S V (Unit {0})
  unfolding apply_or_fail_audit
  run_pending_irreversible_audit op key requirement = do
    event (Event.capture_audit key)
    audit ← call (b.capture_pending_irreversible_audit op) (EngineError.audit_capture key)
    check (is_valid_pending_for audit requirement key) (
        EngineError.audit_capture key
          "irreversible mutation must capture a pending fixed-subject audit for the current recovery requirement")
    call (b.persist_pending_irreversible_audit audit) (EngineError.audit_persist key)
    event (Event.persist_audit key)
    apply_or_fail_audit op key audit
    now ← ask b.timestamp
    call (b.finalize_irreversible_audit (finalized audit now)) (EngineError.audit_finalize key)
    event (Event.finalize_audit key)

  unfoldable pub run_irreversible_operation : Operation → Text → Exec S V (Unit {0})
  unfolding capture_lossless_backups run_pending_irreversible_audit
  run_irreversible_operation op key =
      let requirement = b.recovery_requirement op in
      do
        if requirement_eq requirement mixed then capture_lossless_backups op key else pure tt
        run_pending_irreversible_audit op key requirement

  unfoldable pub run_evidence_operation : Control S R → Operation → Text → Exec S V (Unit {0})
  run_evidence_operation c op key = do
    event (Event.capture_evidence key)
    receipt ← call (b.capture_evidence op) (EngineError.evidence_capture key)
    call (λ s. (c.validate_for receipt key, s)) (EngineError.evidence_capture key)
    call (b.persist_evidence receipt) (EngineError.evidence_persist key)
    event (Event.persist_evidence key)
    call (b.verify_evidence op receipt) (EngineError.evidence_verify key)
    event (Event.verify_evidence key)
    call (b.verify op) (EngineError.verify key)
    event (Event.verify key)

  unfoldable pub run_observation : Control S R → Operation → Text → Exec S V (Unit {0})
  unfolding run_evidence_operation
  run_observation c op key = elim (b.evidence_requirement op) [
    | durable_receipt ↦ run_evidence_operation c op key
    | none_required ↦ do call (b.verify op) (EngineError.verify key); event (Event.verify key)
  ]

  unfoldable pub run_mutation : Operation → Text → Exec S V (Unit {0})
  unfolding run_lossless_operation run_rebuildable_operation run_irreversible_operation
  run_mutation op key = elim (b.recovery_requirement op) [
    | rebuildable_audit ↦ run_rebuildable_operation op key
    | manual_recovery_audit ↦ run_irreversible_operation op key
    | mixed ↦ run_irreversible_operation op key
    | lossless_backup ↦ run_lossless_operation op key
  ]

  -- Progress is written outside first and kept in memory only then.
  unfoldable pub commit_progress : Progress V → Text → Exec S V (Unit {0})
  commit_progress p key = do call (b.persist_progress p) (EngineError.progress key); set_progress p
