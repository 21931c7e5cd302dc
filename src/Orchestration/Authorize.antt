-- ===== src/Orchestration/Authorize.antt =====
-- `authorize` of crates/frametime-domain/src/orchestration.rs, one function for each request.
use cs2_opt.Prelude.{true, not, ◌&&◌, ◌||◌, is_some, Result, ok, err, ◌>>◌, ensure, if◌then◌else◌}
use cs2_opt.Catalog.Ids.{two, three}
use cs2_opt.Catalog.Steps.{
  phase_one_safe_mode_handoff, phase_two_safe_boot_clear, phase_three_driver_install,
  phase_three_final_benchmark,
}
use cs2_opt.Handoff.Stage.{
  phase_one_safe_mode_armed, phase_two_safe_mode, phase_three_armed, phase_three_complete,
}
use cs2_opt.Progress.{Progress, is_completed, is_skipped}
use cs2_opt.State.{State}
use cs2_opt.Orchestration.Facts.{
  normal, safe_mode, Evidence, verified, absent, PhaseFacts, PhaseRequest, optimize, phase_two,
  phase_three, final_benchmark, Transition, run_phase_one, run_phase_two_step_one,
  run_remaining_phase_two, run_phase_three, persist_final_benchmark, GuardError,
  phase_one_cannot_resume_later_phase, active_reboot_transaction_present,
  safe_mode_readiness_not_persisted, missing_phase_one_handoff_completion,
  phase_two_safe_boot_clear_was_skipped, phase_two_safe_boot_clear_not_completed,
  phase_three_handoff_must_remain, final_benchmark_not_persisted,
  final_benchmark_persistence_unavailable,
}
use cs2_opt.Orchestration.Guards.{
  require_boot, require_runtime, require_clean_reboot_state, require_phase_two_handoff,
  require_safe_boot_present, require_safe_boot_absent, require_phase_three_handoff,
  require_same_user, require_transaction_stage, require_final_benchmark_transaction,
  require_resolved_phase_one, require_completed, require_completed_phase_two, has_phase,
  has_phase_two_later_step,
}

abbrev pub Authorization : Type 0
Authorization = Result GuardError Transition

-- The last test of `ClearPhaseThreeHandoff`.
unfoldable pub require_persisted_benchmark : Evidence → Authorization
require_persisted_benchmark verified = ok Transition.clear_phase_three_handoff
require_persisted_benchmark absent = err final_benchmark_not_persisted
require_persisted_benchmark Evidence.unavailable = err final_benchmark_persistence_unavailable

module _ {V F : Type 0} where
  unfoldable pub authorize_optimize : State V F → Progress V → PhaseFacts → Authorization
  authorize_optimize s p facts = do
    require_boot optimize normal facts.boot
    require_clean_reboot_state facts.handoff
    ensure (not (has_phase p two || has_phase p three)) phase_one_cannot_resume_later_phase
    ok run_phase_one

  unfoldable pub authorize_arm_safe_mode : State V F → Progress V → PhaseFacts → Authorization
  authorize_arm_safe_mode s p facts = do
    require_boot PhaseRequest.arm_safe_mode normal facts.boot
    require_resolved_phase_one p
    require_runtime facts.runtime
    ensure (not (is_some s.active_reboot_transaction)) active_reboot_transaction_present
    ok (Transition.arm_safe_mode true)

  -- The last `if` of `PhaseTwo`.
  unfoldable pub authorize_phase_two_step : State V F → Progress V → PhaseFacts → Authorization
  authorize_phase_two_step s p facts =
      let remaining : Authorization = do
        require_transaction_stage s phase_two_safe_mode
        require_safe_boot_absent facts.handoff.safe_boot
        ok run_remaining_phase_two
      in let first : Authorization = do
        require_transaction_stage s phase_one_safe_mode_armed
        require_safe_boot_present facts.handoff.safe_boot
        ok run_phase_two_step_one
        in if is_completed p phase_two_safe_boot_clear
          then remaining
          else if has_phase_two_later_step p
          then err phase_two_safe_boot_clear_not_completed
          else first

  unfoldable pub authorize_phase_two : State V F → Progress V → PhaseFacts → Authorization
  unfolding authorize_phase_two_step
  authorize_phase_two s p facts = do
    require_boot phase_two safe_mode facts.boot
    require_runtime facts.runtime
    ensure (s.phase1_safe_mode_ready && facts.phase_one_safe_mode_ready)
        safe_mode_readiness_not_persisted
    require_phase_two_handoff facts.handoff.phase_two_run_once
    require_completed p phase_one_safe_mode_handoff missing_phase_one_handoff_completion
    ensure (not (is_skipped p phase_two_safe_boot_clear)) phase_two_safe_boot_clear_was_skipped
    authorize_phase_two_step s p facts

  unfoldable pub authorize_phase_three : State V F → Progress V → PhaseFacts → Authorization
  authorize_phase_three s p facts = do
    require_boot phase_three normal facts.boot
    require_runtime facts.runtime
    require_transaction_stage s phase_three_armed
    require_phase_three_handoff facts.handoff.phase_three_run
    require_same_user facts.handoff.phase_three_same_user
    require_completed_phase_two p
    ok run_phase_three

  unfoldable pub authorize_final_benchmark : State V F → Progress V → PhaseFacts → Authorization
  authorize_final_benchmark s p facts = do
    require_boot final_benchmark normal facts.boot
    require_runtime facts.runtime
    require_final_benchmark_transaction s
    require_phase_three_handoff facts.handoff.phase_three_run
    require_same_user facts.handoff.phase_three_same_user
    require_completed_phase_two p
    ok persist_final_benchmark

  unfoldable pub authorize_clear_handoff : State V F → Progress V → PhaseFacts → Authorization
  authorize_clear_handoff s p facts = do
    require_transaction_stage s phase_three_complete
    require_phase_three_handoff facts.handoff.phase_three_run
    require_same_user facts.handoff.phase_three_same_user
    require_completed p phase_three_driver_install phase_three_handoff_must_remain
    require_completed p phase_three_final_benchmark phase_three_handoff_must_remain
    require_persisted_benchmark facts.final_benchmark_persisted

  unfoldable pub authorize : PhaseRequest → State V F → Progress V → PhaseFacts → Authorization
  authorize optimize = authorize_optimize
  authorize PhaseRequest.arm_safe_mode = authorize_arm_safe_mode
  authorize phase_two = authorize_phase_two
  authorize phase_three = authorize_phase_three
  authorize final_benchmark = authorize_final_benchmark
  authorize PhaseRequest.clear_phase_three_handoff = authorize_clear_handoff
