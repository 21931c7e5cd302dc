-- ===== src/Orchestration/Facts.antt =====
-- Requests, observed facts and refusals of crates/frametime-domain/src/orchestration.rs.
use cs2_opt.Prelude.{ℕ, Bool, true, false}

pub data BootEnvironment : Type 0 where
  normal safe_mode : BootEnvironment

abbrev pub boot_eq : BootEnvironment → BootEnvironment → Bool
boot_eq normal normal = true
boot_eq safe_mode safe_mode = true
boot_eq _ _ = false

pub data Evidence : Type 0 where
  verified absent unavailable : Evidence

pub data RuntimeBinding : Type 0 where
  verified_selected_executable unavailable : RuntimeBinding

pub record HandoffEvidence : Type 0 where
  pub phase_two_run_once : Evidence
  pub phase_three_run : Evidence
  pub safe_boot : Evidence
  pub phase_three_same_user : Evidence

abbrev pub default_handoff_evidence : HandoffEvidence
default_handoff_evidence = record {
  phase_two_run_once = Evidence.unavailable;
  phase_three_run = Evidence.unavailable;
  safe_boot = Evidence.unavailable;
  phase_three_same_user = Evidence.unavailable;
}

pub record PhaseFacts : Type 0 where
  pub boot : BootEnvironment
  pub runtime : RuntimeBinding
  pub handoff : HandoffEvidence
  pub phase_one_safe_mode_ready : Bool
  pub final_benchmark_persisted : Evidence

pub data PhaseRequest : Type 0 where
  optimize arm_safe_mode phase_two phase_three final_benchmark : PhaseRequest
  clear_phase_three_handoff : PhaseRequest

pub data Transition : Type 0 where
  run_phase_one : Transition
  arm_safe_mode : Bool → Transition  -- requires_readiness_transition
  run_phase_two_step_one run_remaining_phase_two run_phase_three : Transition
  persist_final_benchmark clear_phase_three_handoff : Transition

pub data GuardError : Type 0 where
  wrong_boot : PhaseRequest → BootEnvironment → BootEnvironment → GuardError
  phase_one_cannot_resume_later_phase : GuardError
  missing_resolved_phase_one_step : ℕ → GuardError
  selected_runtime_not_verified safe_mode_readiness_not_persisted : GuardError
  safe_mode_handoff_inspection_unavailable safe_mode_handoff_not_armed : GuardError
  safe_boot_inspection_unavailable safe_boot_not_configured : GuardError
  safe_boot_still_configured missing_phase_one_handoff_completion : GuardError
  phase_two_safe_boot_clear_not_completed phase_two_safe_boot_clear_was_skipped : GuardError
  missing_completed_phase_two_step : ℕ → GuardError
  phase_three_handoff_inspection_unavailable phase_three_handoff_not_armed : GuardError
  same_user_handoff_inspection_unavailable same_user_handoff_not_verified : GuardError
  phase_three_handoff_must_remain legacy_reboot_state_inspection_unavailable : GuardError
  legacy_reboot_transaction_armed active_reboot_transaction_present : GuardError
  reboot_transaction_missing reboot_transaction_stage_invalid : GuardError
  final_benchmark_persistence_unavailable final_benchmark_not_persisted : GuardError
