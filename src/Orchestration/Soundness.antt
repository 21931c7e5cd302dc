-- ===== src/Orchestration/Soundness.antt =====
-- Authorization of crates/frametime-domain/src/orchestration.rs beside the conditions of each request.
use cs2_opt.Prelude.{◌≡◌, ◌↔◌, ok, arith}
use cs2_opt.State.{State}
use cs2_opt.Progress.{Progress}
use cs2_opt.Orchestration.Facts.{
  PhaseFacts, Transition, PhaseRequest, final_benchmark, optimize, phase_three, phase_two,
}
use cs2_opt.Orchestration.Authorize.{
  authorize, authorize_phase_three, authorize_phase_two, authorize_clear_handoff,
  authorize_arm_safe_mode, authorize_final_benchmark, authorize_optimize,
  require_persisted_benchmark,
}
use cs2_opt.Orchestration.Guards.{
  require_boot, require_phase_three_handoff, require_clean_reboot_state, require_runtime,
  require_same_user, require_completed, require_phase_two_handoff, require_safe_boot_absent,
  require_safe_boot_present,
}
use cs2_opt.Orchestration.Permits.{Permits}
use cs2_opt.Orchestration.Readings.{
  require_resolved_phase_one_iff, require_transaction_stage_iff,
  require_final_benchmark_transaction_iff, has_phase_iff, require_completed_phase_two_iff,
  has_phase_two_later_step_iff,
}
use cs2_opt.Handoff.Stage.{
  phase_three_complete, phase_three_armed, phase_one_safe_mode_armed, phase_two_safe_mode,
}
use cs2_opt.Catalog.Ids.{two, three}

module _ {V F : Type 0} (s : State V F) (p : Progress V) (facts : PhaseFacts) (t : Transition) where
  optimize_iff : (authorize_optimize s p facts ≡ ok t) ↔ Permits optimize s p facts t
  unfolding authorize_optimize require_boot require_clean_reboot_state
  optimize_iff = ground (arith, has_phase_iff p two, has_phase_iff p three)

  arm_safe_mode_iff :
      (authorize_arm_safe_mode s p facts ≡ ok t) ↔ Permits PhaseRequest.arm_safe_mode s p facts t
  unfolding authorize_arm_safe_mode require_boot require_runtime
  arm_safe_mode_iff = ground (arith, require_resolved_phase_one_iff p)

  phase_two_iff : (authorize_phase_two s p facts ≡ ok t) ↔ Permits phase_two s p facts t
  unfolding authorize_phase_two require_boot require_runtime require_phase_two_handoff
      require_completed require_safe_boot_absent require_safe_boot_present
  phase_two_iff = ground (
    arith,
    has_phase_two_later_step_iff p,
    require_transaction_stage_iff s phase_one_safe_mode_armed,
    require_transaction_stage_iff s phase_two_safe_mode,
  )

  phase_three_iff : (authorize_phase_three s p facts ≡ ok t) ↔ Permits phase_three s p facts t
  unfolding authorize_phase_three require_boot require_runtime require_phase_three_handoff
      require_same_user
  phase_three_iff =
      ground (
        arith,
        require_transaction_stage_iff s phase_three_armed,
        require_completed_phase_two_iff p,
      )

  final_benchmark_iff :
      (authorize_final_benchmark s p facts ≡ ok t) ↔ Permits final_benchmark s p facts t
  unfolding authorize_final_benchmark require_boot require_runtime require_phase_three_handoff
      require_same_user
  final_benchmark_iff =
      ground (arith, require_final_benchmark_transaction_iff s, require_completed_phase_two_iff p)

  clear_handoff_iff :
      (authorize_clear_handoff s p facts ≡ ok t)
      ↔ Permits PhaseRequest.clear_phase_three_handoff s p facts t
  unfolding authorize_clear_handoff require_phase_three_handoff require_same_user require_completed
      require_persisted_benchmark
  clear_handoff_iff = ground (arith, require_transaction_stage_iff s phase_three_complete)

  -- A request is granted with a transition exactly if the conditions of the request and the transition
  -- hold of the state, the progress and the facts.
  pub authorize_iff : (r : PhaseRequest) → (authorize r s p facts ≡ ok t) ↔ Permits r s p facts t
  unfolding authorize
  authorize_iff optimize = optimize_iff
  authorize_iff PhaseRequest.arm_safe_mode = arm_safe_mode_iff
  authorize_iff phase_two = phase_two_iff
  authorize_iff phase_three = phase_three_iff
  authorize_iff final_benchmark = final_benchmark_iff
  authorize_iff PhaseRequest.clear_phase_three_handoff = clear_handoff_iff
