-- ===== src/Engine/Guarded.antt =====
-- What the engine of crates/frametime-domain/src/engine.rs has in hand when it mutates.
use cs2_opt.Prelude.{true, ◌≡◌, List, [], ◌∷◌, ok, is_empty, not}
use cs2_opt.Prelude.Text.{Text}
use cs2_opt.Catalog.Ids.{progress_key}
use cs2_opt.Audit.Rebuildable.{
  RecoveryRequirement, lossless_backup, rebuildable_audit, manual_recovery_audit, mixed,
  rebuildable_is_valid_pending_for, RebuildableAudit,
}
use cs2_opt.Audit.Manual.{IrreversibleAudit, is_valid_pending_for}
use cs2_opt.Engine.Defs.{Operation}
use cs2_opt.Engine.Log.{
  Entry, backups_captured, backups_saved, audit_captured, audit_saved, manual_captured,
  manual_saved, applied,
}

abbrev pub op_key : Operation → Text
op_key op = progress_key op.step.id

module _ {V B R : Type 0} where
  -- The log ends with a capture of backups for `op` and the writing of exactly these, both
  -- successful, and there is at least one.
  abbrev pub HasBackups : Operation → List (Entry V B R) → Type 0
  HasBackups op log =
      (bs : List B) × (rest : List (Entry V B R)) × (log
        ≡ backups_saved bs (ok tt) ∷ backups_captured op (ok bs) ∷ rest)
      × (not (is_empty bs) ≡ true)

  -- The same of an audit that is pending and bound to the step of `op`.
  abbrev pub HasRebuildable : Operation → List (Entry V B R) → Type 0
  HasRebuildable op log =
      (a : RebuildableAudit V) × (rest : List (Entry V B R)) × (log
        ≡ audit_saved a (ok tt) ∷ audit_captured op (ok a) ∷ rest)
      × (rebuildable_is_valid_pending_for a (op_key op) ≡ true)

  -- The same of an audit for manual recovery, after a part of the log with `Before`.
  abbrev pub HasManual :
      Operation → RecoveryRequirement → (List (Entry V B R) → Type 0) → List (Entry V B R) → Type 0
  HasManual op requirement Before log =
      (a : IrreversibleAudit V) × (rest : List (Entry V B R)) × (log
        ≡ manual_saved a (ok tt) ∷ manual_captured op (ok a) ∷ rest)
      × (is_valid_pending_for a requirement (op_key op) ≡ true)
      × Before rest

  -- What each recovery requirement asks of the log before `op` is applied.
  unfoldable pub Secured : RecoveryRequirement → Operation → List (Entry V B R) → Type 0
  Secured lossless_backup op log = HasBackups op log
  Secured rebuildable_audit op log = HasRebuildable op log
  Secured manual_recovery_audit op log = HasManual op manual_recovery_audit (λ _. Unit {0}) log
  Secured mixed op log = HasManual op mixed (HasBackups op) log

  -- Every attempt to apply in the log was secured when it was made.
  unfoldable pub Guarded : (Operation → RecoveryRequirement) → List (Entry V B R) → Type 0
  unfolding Secured
  Guarded needs [] = Unit {0}
  Guarded needs (applied op r ∷ log) = Secured (needs op) op log × Guarded needs log
  Guarded needs (_ ∷ log) = Guarded needs log
