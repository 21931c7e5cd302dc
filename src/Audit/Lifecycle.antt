-- ===== src/Audit/Lifecycle.antt =====
-- The life of an irreversible audit of crates/frametime-domain/src/audit.rs.
use cs2_opt.Prelude.{ap, sym, ◌∙◌, inl, inr, ◌≡◌, ◌⊎◌, true, false, arith}
use cs2_opt.Prelude.Text.{Text, text_eq_iff}
use cs2_opt.Audit.Rebuildable.{RecoveryRequirement, manual_recovery_audit, mixed}
use cs2_opt.Audit.Manual.{
  IrreversibleAudit, manual, mixed_audit, pending, with_outcome, finalized, failed_audit,
  is_valid_pending_for, ManualRecoveryAudit, MixedRecoveryAudit,
}

module _ {V : Type 0} where
  -- Once finalized or failed, an audit is valid as pending for no requirement and no step.
  pub closed-is_valid_pending_for :
      (a : IrreversibleAudit V) (requirement : RecoveryRequirement) (step at : Text)
      → (is_valid_pending_for (finalized a at) requirement step ≡ false)
        × (is_valid_pending_for (failed_audit a at) requirement step ≡ false)
  unfolding is_valid_pending_for finalized failed_audit
  closed-is_valid_pending_for (manual a) requirement step at = (ground arith, ground arith)
  closed-is_valid_pending_for (mixed_audit a) requirement step at = (ground arith, ground arith)

  valid_manual :
      (a : ManualRecoveryAudit V) (r : RecoveryRequirement) (step : Text)
      → is_valid_pending_for (manual a) r step ≡ true
      → (r ≡ manual_recovery_audit) × (a.step ≡ step) × (a.outcome ≡ pending)
  unfolding is_valid_pending_for
  valid_manual a r step h = ground (arith, (text_eq_iff a.step step).0)

  valid_mixed :
      (a : MixedRecoveryAudit V) (r : RecoveryRequirement) (step : Text)
      → is_valid_pending_for (mixed_audit a) r step ≡ true
      → (r ≡ mixed) × (a.step ≡ step) × (a.outcome ≡ pending)
  unfolding is_valid_pending_for
  valid_mixed a r step h = ground (arith, (text_eq_iff a.step step).0)

  -- An audit that is valid as pending is so for one requirement and one step only, never for a lossless
  -- backup or a rebuildable audit, and closing it changes nothing but its outcome.
  pub is_valid_pending_for-binds :
      (a : IrreversibleAudit V) (r r' : RecoveryRequirement) (step step' at : Text)
      → is_valid_pending_for a r step ≡ true
      → is_valid_pending_for a r' step' ≡ true
      → (r ≡ r')
        × (step ≡ step')
        × ((r ≡ manual_recovery_audit) ⊎ (r ≡ mixed))
        × (with_outcome (finalized a at) pending ≡ a)
        × (with_outcome (failed_audit a at) pending ≡ a)
  unfolding is_valid_pending_for finalized failed_audit
  is_valid_pending_for-binds (manual a) r r' step step' at h h' =
      let v : (r ≡ manual_recovery_audit) × (a.step ≡ step) × (a.outcome ≡ pending) =
        valid_manual a r step h in
      let v' : (r' ≡ manual_recovery_audit) × (a.step ≡ step') × (a.outcome ≡ pending) =
        valid_manual a r' step' h' in
      let back : manual (record a { outcome = pending }) ≡ manual a =
        ap (λ o. manual (record a { outcome = o })) (sym v.2) in
      (v.0 ∙ sym v'.0, sym v.1 ∙ v'.1, inl v.0, back, back)
  is_valid_pending_for-binds (mixed_audit a) r r' step step' at h h' =
      let v : (r ≡ mixed) × (a.step ≡ step) × (a.outcome ≡ pending) = valid_mixed a r step h in
      let v' : (r' ≡ mixed) × (a.step ≡ step') × (a.outcome ≡ pending) =
        valid_mixed a r' step' h' in
      let back : mixed_audit (record a { outcome = pending }) ≡ mixed_audit a =
        ap (λ o. mixed_audit (record a { outcome = o })) (sym v.2) in
      (v.0 ∙ sym v'.0, sym v.1 ∙ v'.1, inr v.0, back, back)
