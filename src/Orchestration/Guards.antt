-- ===== src/Orchestration/Guards.antt =====
-- The single guards of crates/frametime-domain/src/orchestration.rs, each with the refusals of the
-- source.
use cs2_opt.Prelude.{
  Bool, not, ◌&&◌, ◌||◌, List, [], ◌∷◌, Option, none, some, any, filter, Result, ok, err, ◌>>◌,
  ensure,
}
use cs2_opt.Catalog.Ids.{Phase, one, two, phase_eq, StepId, step_id_eq}
use cs2_opt.Catalog.Kinds.{engine, role_eq}
use cs2_opt.Catalog.Steps.{
  Step, step_catalog, phase_one_xmp_expo_check, phase_one_resizable_bar_check,
  phase_two_safe_boot_clear,
}
use cs2_opt.Handoff.Stage.{RebootStage, phase_three_armed, phase_three_complete}
use cs2_opt.Handoff.Transaction.{RebootTransaction, is_authorized_at}
use cs2_opt.Progress.{Progress, is_completed, is_skipped, has_advisory}
use cs2_opt.State.{State}
use cs2_opt.Orchestration.Facts.{
  BootEnvironment, boot_eq, Evidence, verified, absent, RuntimeBinding,
  verified_selected_executable, HandoffEvidence, PhaseRequest, GuardError, wrong_boot,
  missing_resolved_phase_one_step, selected_runtime_not_verified,
  safe_mode_handoff_inspection_unavailable, safe_mode_handoff_not_armed,
  safe_boot_inspection_unavailable, safe_boot_not_configured, safe_boot_still_configured,
  missing_completed_phase_two_step, phase_three_handoff_inspection_unavailable,
  phase_three_handoff_not_armed, same_user_handoff_inspection_unavailable,
  same_user_handoff_not_verified, legacy_reboot_state_inspection_unavailable,
  legacy_reboot_transaction_armed, reboot_transaction_missing, reboot_transaction_stage_invalid,
}

abbrev pub Guard : Type 0
Guard = Result GuardError (Unit {0})

unfoldable pub require_boot : PhaseRequest → BootEnvironment → BootEnvironment → Guard
require_boot request expected actual =
    ensure (boot_eq actual expected) (wrong_boot request expected actual)

unfoldable pub require_runtime : RuntimeBinding → Guard
require_runtime verified_selected_executable = ok tt
require_runtime _ = err selected_runtime_not_verified

-- One round of the loop in `require_clean_reboot_state`.
unfoldable pub require_clean : Evidence → Guard
require_clean absent = ok tt
require_clean verified = err legacy_reboot_transaction_armed
require_clean Evidence.unavailable = err legacy_reboot_state_inspection_unavailable

unfoldable pub require_clean_reboot_state : HandoffEvidence → Guard
unfolding require_clean
require_clean_reboot_state handoff = do
  require_clean handoff.phase_two_run_once
  require_clean handoff.phase_three_run
  require_clean handoff.safe_boot

unfoldable pub require_phase_two_handoff : Evidence → Guard
require_phase_two_handoff verified = ok tt
require_phase_two_handoff absent = err safe_mode_handoff_not_armed
require_phase_two_handoff Evidence.unavailable = err safe_mode_handoff_inspection_unavailable

unfoldable pub require_safe_boot_present : Evidence → Guard
require_safe_boot_present verified = ok tt
require_safe_boot_present absent = err safe_boot_not_configured
require_safe_boot_present Evidence.unavailable = err safe_boot_inspection_unavailable

unfoldable pub require_safe_boot_absent : Evidence → Guard
require_safe_boot_absent absent = ok tt
require_safe_boot_absent verified = err safe_boot_still_configured
require_safe_boot_absent Evidence.unavailable = err safe_boot_inspection_unavailable

unfoldable pub require_phase_three_handoff : Evidence → Guard
require_phase_three_handoff verified = ok tt
require_phase_three_handoff absent = err phase_three_handoff_not_armed
require_phase_three_handoff Evidence.unavailable = err phase_three_handoff_inspection_unavailable

unfoldable pub require_same_user : Evidence → Guard
require_same_user verified = ok tt
require_same_user absent = err same_user_handoff_not_verified
require_same_user Evidence.unavailable = err same_user_handoff_inspection_unavailable

unfoldable pub require_stage : {V : Type 0} → Option (RebootTransaction V) → RebootStage → Guard
require_stage none expected = err reboot_transaction_missing
require_stage (some t) expected =
    ensure (is_authorized_at t expected) reboot_transaction_stage_invalid

require_final_stage : {V : Type 0} → Option (RebootTransaction V) → Guard
require_final_stage none = err reboot_transaction_missing
require_final_stage (some t) =
    ensure (is_authorized_at t phase_three_armed || is_authorized_at t phase_three_complete)
      reboot_transaction_stage_invalid

module _ {V F : Type 0} where
  unfoldable pub require_transaction_stage : State V F → RebootStage → Guard
  unfolding require_stage
  require_transaction_stage s expected = require_stage s.active_reboot_transaction expected

  unfoldable pub require_final_benchmark_transaction : State V F → Guard
  unfolding require_final_stage
  require_final_benchmark_transaction s = require_final_stage s.active_reboot_transaction

-- A loop that stops at the first row that does not pass.
unfoldable pub require_each : (Step → Bool) → (Step → GuardError) → List Step → Guard
require_each test refusal [] = ok tt
require_each test refusal (step ∷ rest) = do
  ensure (test step) (refusal step)
  require_each test refusal rest

unfoldable pub phase_one_advisory_is_authorized : StepId → Bool
phase_one_advisory_is_authorized id =
    step_id_eq id phase_one_xmp_expo_check || step_id_eq id phase_one_resizable_bar_check

abbrev pub is_phase_one_engine : Step → Bool
is_phase_one_engine s = phase_eq s.id.phase one && role_eq s.orchestration_role engine

abbrev pub is_phase_two : Step → Bool
is_phase_two s = phase_eq s.id.phase two

module _ {V : Type 0} where
  unfoldable pub is_resolved_phase_one : Progress V → Step → Bool
  is_resolved_phase_one p s =
      is_completed p s.id
      || (is_skipped p s.id || phase_one_advisory_is_authorized s.id && has_advisory p s.id)

  unfoldable pub require_resolved_phase_one : Progress V → Guard
  require_resolved_phase_one p =
      require_each (is_resolved_phase_one p)
        (λ (s : Step). missing_resolved_phase_one_step s.id.number)
        (filter is_phase_one_engine step_catalog)

  unfoldable pub require_phase_one_handoff_ready : Progress V → Guard
  unfolding require_resolved_phase_one
  require_phase_one_handoff_ready p = require_resolved_phase_one p

  unfoldable pub require_completed : Progress V → StepId → GuardError → Guard
  require_completed p id refusal = ensure (is_completed p id) refusal

  -- The loop that `PhaseThree` and `FinalBenchmark` share.
  unfoldable pub require_completed_phase_two : Progress V → Guard
  require_completed_phase_two p =
      require_each (λ (s : Step). is_completed p s.id)
        (λ (s : Step). missing_completed_phase_two_step s.id.number)
        (filter is_phase_two step_catalog)

  unfoldable pub has_phase : Progress V → Phase → Bool
  has_phase p phase =
      any (λ (s : Step). is_completed p s.id || is_skipped p s.id)
        (filter (λ (s : Step). phase_eq s.id.phase phase) step_catalog)

  unfoldable pub has_phase_two_later_step : Progress V → Bool
  has_phase_two_later_step p =
      any
        (λ (s : Step).
          phase_eq s.id.phase two
          && (not (step_id_eq s.id phase_two_safe_boot_clear)
              && (is_completed p s.id || is_skipped p s.id)))
        step_catalog
