-- ===== src/Orchestration/Permits.antt =====
-- What each request of crates/frametime-domain/src/orchestration.rs needs, said without the order
-- of the guards.
use cs2_opt.Prelude.{◌≡◌, ◌⊎◌, true, false, none, some}
use cs2_opt.Prelude.Members.{In}
use cs2_opt.Catalog.Ids.{Phase, one, two, three}
use cs2_opt.Catalog.Kinds.{engine}
use cs2_opt.Catalog.Steps.{
  Step, step_catalog, phase_one_xmp_expo_check, phase_one_resizable_bar_check,
  phase_one_safe_mode_handoff, phase_two_safe_boot_clear, phase_three_driver_install,
  phase_three_final_benchmark,
}
use cs2_opt.Handoff.Stage.{
  RebootStage, phase_one_safe_mode_armed, phase_two_safe_mode, phase_three_armed,
  phase_three_complete,
}
use cs2_opt.Handoff.Transaction.{RebootTransaction, is_authorized_at}
use cs2_opt.Progress.{Progress, is_completed, is_skipped, has_advisory}
use cs2_opt.State.{State}
use cs2_opt.Orchestration.Facts.{
  normal, safe_mode, verified, absent, verified_selected_executable, PhaseFacts, PhaseRequest,
  optimize, phase_two, phase_three, final_benchmark, Transition, run_phase_one,
  run_phase_two_step_one, run_remaining_phase_two, run_phase_three, persist_final_benchmark,
}

module _ {V : Type 0} where
  -- Every action of phase 2 has been completed.
  abbrev pub AllPhaseTwoCompleted : Progress V → Type 0
  AllPhaseTwoCompleted p =
      (s : Step) → In s step_catalog → s.id.phase ≡ two → is_completed p s.id ≡ true

  -- Nothing of a phase has been completed or skipped.
  abbrev pub IsUntouched : Progress V → Phase → Type 0
  IsUntouched p phase =
      (s : Step)
      → In s step_catalog
      → s.id.phase ≡ phase
      → (is_completed p s.id ≡ false) × (is_skipped p s.id ≡ false)

  -- Every engine action of phase 1 is completed or skipped, or is one of the two firmware checks and
  -- has an acknowledged advisory.
  abbrev pub IsPhaseOneResolved : Progress V → Type 0
  IsPhaseOneResolved p =
      (s : Step)
      → In s step_catalog
      → s.id.phase ≡ one
      → s.orchestration_role ≡ engine
      → (is_completed p s.id ≡ true)
        ⊎ (is_skipped p s.id ≡ true)
        ⊎ ((s.id ≡ phase_one_xmp_expo_check) ⊎ (s.id ≡ phase_one_resizable_bar_check))
          × (has_advisory p s.id ≡ true)

  -- No action of phase 2 after the first has been completed or skipped.
  abbrev pub IsPhaseTwoUnstarted : Progress V → Type 0
  IsPhaseTwoUnstarted p =
      (s : Step)
      → In s step_catalog
      → s.id.phase ≡ two
      → (s.id ≡ phase_two_safe_boot_clear)
        ⊎ (is_completed p s.id ≡ false) × (is_skipped p s.id ≡ false)

module _ {V F : Type 0} where
  -- The state holds a transaction that authorizes a stage.
  abbrev pub IsAt : State V F → RebootStage → Type 0
  IsAt s stage =
      (t : RebootTransaction V) × (s.active_reboot_transaction ≡ some t)
      × (is_authorized_at t stage ≡ true)

  abbrev pub Permits : PhaseRequest → State V F → Progress V → PhaseFacts → Transition → Type 0
  Permits optimize s p facts t =
      (t ≡ run_phase_one)
      × (facts.boot ≡ normal)
      × (facts.handoff.phase_two_run_once ≡ absent)
      × (facts.handoff.phase_three_run ≡ absent)
      × (facts.handoff.safe_boot ≡ absent)
      × IsUntouched p two
      × IsUntouched p three
  Permits PhaseRequest.arm_safe_mode s p facts t =
      (t ≡ Transition.arm_safe_mode true)
      × (facts.boot ≡ normal)
      × IsPhaseOneResolved p
      × (facts.runtime ≡ verified_selected_executable)
      × (s.active_reboot_transaction ≡ none)
  Permits phase_two s p facts t =
      (facts.boot ≡ safe_mode)
      × (facts.runtime ≡ verified_selected_executable)
      × (s.phase1_safe_mode_ready ≡ true)
      × (facts.phase_one_safe_mode_ready ≡ true)
      × (facts.handoff.phase_two_run_once ≡ verified)
      × (is_completed p phase_one_safe_mode_handoff ≡ true)
      × (is_skipped p phase_two_safe_boot_clear ≡ false)
      × ((t ≡ run_remaining_phase_two)
            × (is_completed p phase_two_safe_boot_clear ≡ true)
            × IsAt s phase_two_safe_mode
            × (facts.handoff.safe_boot ≡ absent)
          ⊎ (t ≡ run_phase_two_step_one)
            × (is_completed p phase_two_safe_boot_clear ≡ false)
            × IsPhaseTwoUnstarted p
            × IsAt s phase_one_safe_mode_armed
            × (facts.handoff.safe_boot ≡ verified))
  Permits phase_three s p facts t =
      (t ≡ run_phase_three)
      × (facts.boot ≡ normal)
      × (facts.runtime ≡ verified_selected_executable)
      × IsAt s phase_three_armed
      × (facts.handoff.phase_three_run ≡ verified)
      × (facts.handoff.phase_three_same_user ≡ verified)
      × AllPhaseTwoCompleted p
  Permits final_benchmark s p facts t =
      (t ≡ persist_final_benchmark)
      × (facts.boot ≡ normal)
      × (facts.runtime ≡ verified_selected_executable)
      × (IsAt s phase_three_armed ⊎ IsAt s phase_three_complete)
      × (facts.handoff.phase_three_run ≡ verified)
      × (facts.handoff.phase_three_same_user ≡ verified)
      × AllPhaseTwoCompleted p
  Permits PhaseRequest.clear_phase_three_handoff s p facts t =
      (t ≡ Transition.clear_phase_three_handoff)
      × IsAt s phase_three_complete
      × (facts.handoff.phase_three_run ≡ verified)
      × (facts.handoff.phase_three_same_user ≡ verified)
      × (is_completed p phase_three_driver_install ≡ true)
      × (is_completed p phase_three_final_benchmark ≡ true)
      × (facts.final_benchmark_persisted ≡ verified)
