-- ===== src/Orchestration/Readings.antt =====
-- Each loop and test of the guards, read as a condition on the actions of the catalog.
use cs2_opt.Prelude.{
  any, ◌≡◌, ◌↔◌, Bool, true, ◌||◌, not, List, [], ◌∷◌, arith, ok, filter, all, false, ◌⊎◌, ◌&&◌,
}
use cs2_opt.Prelude.Members.{In, all_iff, all-filter, iff_trans, pointwise_iff, not-any, any-filter}
use cs2_opt.Catalog.Steps.{
  Step, step_catalog, phase_one_xmp_expo_check, phase_two_safe_boot_clear,
  phase_one_resizable_bar_check,
}
use cs2_opt.Progress.{Progress, is_completed, is_skipped, has_advisory}
use cs2_opt.Orchestration.Facts.{
  GuardError, missing_completed_phase_two_step, missing_resolved_phase_one_step,
}
use cs2_opt.Orchestration.Guards.{
  require_each, is_phase_two, require_completed_phase_two, is_resolved_phase_one,
  require_resolved_phase_one, require_transaction_stage, has_phase,
  require_final_benchmark_transaction, has_phase_two_later_step, phase_one_advisory_is_authorized,
  is_phase_one_engine,
}
use cs2_opt.Orchestration.Permits.{
  AllPhaseTwoCompleted, IsPhaseOneResolved, IsPhaseTwoUnstarted, IsAt, IsUntouched,
}
use cs2_opt.Catalog.Ids.{phase_eq, two, Phase, one, phase_eq_iff, step_id_eq, step_id_eq_iff}
use cs2_opt.Catalog.Kinds.{engine}
use cs2_opt.State.{State}
use cs2_opt.Handoff.Stage.{RebootStage, phase_three_armed, phase_three_complete}

false_iff : (b : Bool) → (b ≡ false) ↔ (not b ≡ true)
false_iff b = ground arith

require_each-all :
    (test : Step → Bool) (refusal : Step → GuardError) (xs : List Step)
    → (require_each test refusal xs ≡ ok tt) ↔ (all test xs ≡ true)
unfolding require_each all
require_each-all test refusal [] = ground arith
require_each-all test refusal (x ∷ xs) = ground (arith, require_each-all test refusal xs)

-- A loop over the selected rows passes exactly if each selected row of the table passes.
require_selected_iff :
    (select test : Step → Bool) (refusal : Step → GuardError)
    → (require_each test refusal (filter select step_catalog) ≡ ok tt)
      ↔ ((s : Step) → In s step_catalog → (not (select s) || test s) ≡ true)
require_selected_iff select test refusal =
    iff_trans (require_each-all test refusal (filter select step_catalog))
      (rw (all-filter select test step_catalog) (all_iff _ step_catalog))

-- No selected row passes a test exactly if every row fails one of the two.
none_selected_iff :
    (select test : Step → Bool)
    → (any test (filter select step_catalog) ≡ false)
      ↔ ((s : Step) → In s step_catalog → not (select s && test s) ≡ true)
none_selected_iff select test = iff_trans (false_iff (any test (filter select step_catalog))) (
    rw (any-filter select test step_catalog, not-any (λ s. select s && test s) step_catalog)
      (all_iff _ step_catalog))

module _ {V : Type 0} where
  -- The loop over phase 2 passes exactly if all its actions are completed.
  pub require_completed_phase_two_iff :
      (p : Progress V) → (require_completed_phase_two p ≡ ok tt) ↔ AllPhaseTwoCompleted p
  unfolding require_completed_phase_two
  require_completed_phase_two_iff p =
      iff_trans
        (require_selected_iff is_phase_two (λ (s : Step). is_completed p s.id)
          (λ (s : Step). missing_completed_phase_two_step s.id.number))
        (pointwise_iff _ _ step_catalog (λ s. ground arith))

  resolved_row_iff :
      (p : Progress V) (s : Step)
      → ((not (is_phase_one_engine s) || is_resolved_phase_one p s) ≡ true) ↔ (
          s.id.phase ≡ one
          → s.orchestration_role ≡ engine
          → (is_completed p s.id ≡ true)
            ⊎ (is_skipped p s.id ≡ true)
            ⊎ ((s.id ≡ phase_one_xmp_expo_check) ⊎ (s.id ≡ phase_one_resizable_bar_check))
              × (has_advisory p s.id ≡ true))
  unfolding is_resolved_phase_one phase_one_advisory_is_authorized
  resolved_row_iff p s = ground (
    arith,
    step_id_eq_iff s.id phase_one_xmp_expo_check,
    step_id_eq_iff s.id phase_one_resizable_bar_check,
  )

  -- The loop over phase 1 passes exactly if its engine actions are resolved.
  pub require_resolved_phase_one_iff :
      (p : Progress V) → (require_resolved_phase_one p ≡ ok tt) ↔ IsPhaseOneResolved p
  unfolding require_resolved_phase_one
  require_resolved_phase_one_iff p =
      iff_trans
        (require_selected_iff is_phase_one_engine (is_resolved_phase_one p)
          (λ (s : Step). missing_resolved_phase_one_step s.id.number))
        (pointwise_iff _ _ step_catalog (resolved_row_iff p))

  -- A phase counts as entered exactly if one of its actions is completed or skipped.
  pub has_phase_iff :
      (p : Progress V) (phase : Phase) → (has_phase p phase ≡ false) ↔ IsUntouched p phase
  unfolding has_phase
  has_phase_iff p phase =
      iff_trans
        (none_selected_iff (λ (s : Step). phase_eq s.id.phase phase)
          (λ (s : Step). is_completed p s.id || is_skipped p s.id))
        (pointwise_iff _ _ step_catalog (λ s. ground (arith, phase_eq_iff s.id.phase phase)))

  later_row_iff :
      (p : Progress V) (s : Step)
      → (not (
            phase_eq s.id.phase two
            && (not (step_id_eq s.id phase_two_safe_boot_clear)
                && (is_completed p s.id || is_skipped p s.id)))
          ≡ true)
        ↔ (s.id.phase ≡ two
            → (s.id ≡ phase_two_safe_boot_clear)
              ⊎ (is_completed p s.id ≡ false) × (is_skipped p s.id ≡ false))
  later_row_iff p s = ground (arith, step_id_eq_iff s.id phase_two_safe_boot_clear)

  pub has_phase_two_later_step_iff :
      (p : Progress V) → (has_phase_two_later_step p ≡ false) ↔ IsPhaseTwoUnstarted p
  unfolding has_phase_two_later_step
  has_phase_two_later_step_iff p = iff_trans (false_iff (has_phase_two_later_step p)) (
      rw (not-any _ step_catalog)
        (iff_trans (all_iff _ step_catalog) (pointwise_iff _ _ step_catalog (later_row_iff p))))

module _ {V F : Type 0} where
  pub require_transaction_stage_iff :
      (s : State V F) (stage : RebootStage)
      → (require_transaction_stage s stage ≡ ok tt) ↔ IsAt s stage
  unfolding require_transaction_stage
  require_transaction_stage_iff s stage = ground arith

  pub require_final_benchmark_transaction_iff :
      (s : State V F)
      → (require_final_benchmark_transaction s ≡ ok tt)
        ↔ (IsAt s phase_three_armed ⊎ IsAt s phase_three_complete)
  unfolding require_final_benchmark_transaction
  require_final_benchmark_transaction_iff s = ground arith
