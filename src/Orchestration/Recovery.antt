-- ===== src/Orchestration/Recovery.antt =====
-- Recovery plans of crates/frametime-domain/src/orchestration.rs.
use cs2_opt.Prelude.{Bool, true, false, List, [], ◌∷◌, any}
use cs2_opt.Orchestration.Facts.{
  PhaseRequest, arm_safe_mode, phase_two, phase_three, final_benchmark,
}

pub data FailurePoint : Type 0 where
  before_mutation safe_mode_handoff_armed phase_two_safe_boot_clear : FailurePoint
  phase_two_driver_work phase_three_driver_work final_benchmark_persistence : FailurePoint

pub data Compensation : Type 0 where
  none_claimed restore_safe_boot_from_captured_backup : Compensation
  restore_captured_phase_backups retain_phase_two_handoff_for_recovery : Compensation
  retain_phase_three_handoff_until_completion : Compensation

pub record RecoveryPlan : Type 0 where
  pub retain_handoff : Bool
  pub compensations : List Compensation

unfoldable pub compensations_for : PhaseRequest → FailurePoint → List Compensation
compensations_for _ before_mutation = none_claimed ∷ []
compensations_for arm_safe_mode safe_mode_handoff_armed =
    restore_safe_boot_from_captured_backup ∷ retain_phase_two_handoff_for_recovery ∷ []
compensations_for phase_two phase_two_safe_boot_clear =
    restore_safe_boot_from_captured_backup ∷ retain_phase_two_handoff_for_recovery ∷ []
compensations_for phase_two phase_two_driver_work =
    restore_captured_phase_backups ∷ retain_phase_two_handoff_for_recovery ∷ []
compensations_for phase_three phase_three_driver_work =
    restore_captured_phase_backups ∷ retain_phase_three_handoff_until_completion ∷ []
compensations_for phase_three final_benchmark_persistence =
    restore_captured_phase_backups ∷ retain_phase_three_handoff_until_completion ∷ []
compensations_for final_benchmark final_benchmark_persistence =
    restore_captured_phase_backups ∷ retain_phase_three_handoff_until_completion ∷ []
compensations_for _ _ = none_claimed ∷ []

abbrev pub retains : Compensation → Bool
retains retain_phase_two_handoff_for_recovery = true
retains retain_phase_three_handoff_until_completion = true
retains _ = false

unfoldable pub recovery_for : PhaseRequest → FailurePoint → RecoveryPlan
unfolding compensations_for any
recovery_for request failure = record {
  retain_handoff = any retains (compensations_for request failure);
  compensations = compensations_for request failure;
}
