-- ===== src/Orchestration/Compensations.antt =====
-- What a recovery plan of crates/frametime-domain/src/orchestration.rs claims.
use cs2_opt.Prelude.{◌≡◌, ◌↔◌, ◌⊎◌, true, false, [], ◌∷◌, any, arith}
use cs2_opt.Orchestration.Facts.{
  PhaseRequest, arm_safe_mode, phase_two, phase_three, final_benchmark,
}
use cs2_opt.Orchestration.Recovery.{
  RecoveryPlan, FailurePoint, before_mutation, safe_mode_handoff_armed, phase_two_safe_boot_clear,
  phase_two_driver_work, phase_three_driver_work, final_benchmark_persistence, Compensation,
  none_claimed, restore_safe_boot_from_captured_backup, restore_captured_phase_backups,
  retain_phase_two_handoff_for_recovery, retain_phase_three_handoff_until_completion, recovery_for,
  compensations_for,
}

-- A failure point lies in the work of some requests.
abbrev pub IsReached : PhaseRequest → FailurePoint → Type 0
IsReached request before_mutation = ⊥
IsReached request safe_mode_handoff_armed = request ≡ arm_safe_mode
IsReached request phase_two_safe_boot_clear = request ≡ phase_two
IsReached request phase_two_driver_work = request ≡ phase_two
IsReached request phase_three_driver_work = request ≡ phase_three
IsReached request final_benchmark_persistence =
    (request ≡ phase_three) ⊎ (request ≡ final_benchmark)

-- The backup that undoes what was changed before each point: the boot option where it is what
-- changes there, or all that the phase captured.
abbrev pub backup_at : FailurePoint → Compensation
backup_at safe_mode_handoff_armed = restore_safe_boot_from_captured_backup
backup_at phase_two_safe_boot_clear = restore_safe_boot_from_captured_backup
backup_at _ = restore_captured_phase_backups

-- The handoff that each request holds on to.
abbrev pub handoff_of : PhaseRequest → Compensation
handoff_of phase_three = retain_phase_three_handoff_until_completion
handoff_of final_benchmark = retain_phase_three_handoff_until_completion
handoff_of _ = retain_phase_two_handoff_for_recovery

-- A plan that claims nothing and keeps nothing.
abbrev pub ClaimsNothing : RecoveryPlan → Type 0
ClaimsNothing plan = (plan.retain_handoff ≡ false) × (plan.compensations ≡ none_claimed ∷ [])

-- A plan that restores the backup of the point first and then keeps the handoff of the request.
abbrev pub Restores : PhaseRequest → FailurePoint → RecoveryPlan → Type 0
Restores request failure plan =
    (plan.retain_handoff ≡ true)
    × (plan.compensations ≡ backup_at failure ∷ handoff_of request ∷ [])

-- A plan restores the backup of the failure point and then keeps the handoff of the request exactly
-- if the point lies in the work of the request; it claims nothing and keeps no handoff exactly if it
-- does not, as before the first mutation.
pub recovery_for-IsReached_iff :
    (request : PhaseRequest) (failure : FailurePoint)
    → (Restores request failure (recovery_for request failure) ↔ IsReached request failure)
      × (ClaimsNothing (recovery_for request failure) ↔ ¬ IsReached request failure)
unfolding recovery_for compensations_for any
recovery_for-IsReached_iff request failure = ground arith
