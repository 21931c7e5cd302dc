-- ===== src/Migration/Refusals.antt =====
-- The refusals of crates/frametime-domain/src/migration.rs.
use cs2_opt.Prelude.{
  ◌≡◌, ◌↔◌, ◌⊎◌, true, ◌&&◌, Bool, is_some, filter, Option, none, some, arith, refl,
}
use cs2_opt.Prelude.Text.{codes}
use cs2_opt.Prelude.Keys.{contains, contains_key_iff}
use cs2_opt.Prelude.Members.{In, any_iff, any-filter, filter_nonempty, iff_trans}
use cs2_opt.Catalog.Ids.{Phase, two, three, phase_eq, phase_eq_iff, progress_key}
use cs2_opt.Catalog.Steps.{Step, step_catalog}
use cs2_opt.Handoff.Transaction.{RebootTransaction}
use cs2_opt.Migration.{
  assess_inventory, MigrationInventory, refuse, confirm, later_phase_resolved, phase_one_armed,
  MigrationDecision,
}
use cs2_opt.State.{State}
use cs2_opt.Progress.{
  Progress, has_resolved_in_phase, resolved_count_in_phase, is_completed, is_skipped, is_resolved,
}

module _ {V : Type 0} where
  -- The key of an action of the catalog in this phase is among the completed or the skipped ones.
  abbrev pub IsResolvedIn : Phase → Progress V → Type 0
  IsResolvedIn phase p =
      (step : Step) × In step step_catalog
      × (step.id.phase ≡ phase)
      × ((contains (progress_key step.id) p.completed_steps ≡ true)
          ⊎ (contains (progress_key step.id) p.skipped_steps ≡ true))

  abbrev pub IsLater : Option (Progress V) → Type 0
  IsLater none = ⊥
  IsLater (some p) = IsResolvedIn two p ⊎ IsResolvedIn three p

module _ {V F : Type 0} where
  -- A state that is ready for Safe Mode, or has a reboot transaction that could be read, or one that
  -- could not and was kept.
  abbrev pub IsReady : Option (State V F) → Type 0
  IsReady none = ⊥
  IsReady (some s) =
      (s.phase1_safe_mode_ready ≡ true)
      ⊎ ((t : RebootTransaction V) × (s.active_reboot_transaction ≡ some t))
      ⊎ ((v : V) × In (codes "activeRebootTransaction", v) s.unknown_fields)

-- What a migration would discard.
abbrev pub IsArmed :
    {V F : Type 0} → Option (State V F) → Option (Progress V) → MigrationInventory → Type 0
IsArmed state progress inventory =
    (inventory.phase_two_run_once_armed ≡ true)
    ⊎ (inventory.phase_three_run_armed ≡ true)
    ⊎ (inventory.safe_boot_armed ≡ true)
    ⊎ (inventory.incomplete_runtime ≡ true)
    ⊎ IsLater progress
    ⊎ IsReady state

abbrev pub IsRefusal : MigrationDecision → Type 0
IsRefusal (refuse _) = Unit {0}
IsRefusal _ = ⊥

module _ {V : Type 0} where
  recorded_iff :
      (p : Progress V) (phase : Phase) (step : Step)
      → (phase_eq step.id.phase phase && is_resolved p step.id ≡ true) ↔ (
          (step.id.phase ≡ phase)
          × ((contains (progress_key step.id) p.completed_steps ≡ true)
              ⊎ (contains (progress_key step.id) p.skipped_steps ≡ true)))
  unfolding is_completed is_skipped
  recorded_iff p phase step = ground (arith, phase_eq_iff step.id.phase phase)

  named_iff :
      (p : Progress V) (phase : Phase)
      → ((step : Step) × In step step_catalog
          × (phase_eq step.id.phase phase && is_resolved p step.id ≡ true))
        ↔ IsResolvedIn phase p
  named_iff p phase = (
    λ (step, m, h). let (e, r) = (recorded_iff p phase step).0 h in (step, m, e, r),
    λ (step, m, e, r). (step, m, (recorded_iff p phase step).1 (e, r)),
  )

  has_resolved_in_phase_iff :
      (p : Progress V) (phase : Phase)
      → (has_resolved_in_phase p phase ≡ true) ↔ IsResolvedIn phase p
  unfolding has_resolved_in_phase resolved_count_in_phase
  has_resolved_in_phase_iff p phase =
      let g : Step → Bool = λ s. phase_eq s.id.phase phase in
      let f : Step → Bool = λ s. is_resolved p s.id in
      rw (filter_nonempty f (filter g step_catalog), any-filter g f step_catalog)
        (iff_trans (any_iff (λ s. g s && f s) step_catalog) (named_iff p phase))

  later_phase_resolved_iff :
      (progress : Option (Progress V)) → (later_phase_resolved progress ≡ true) ↔ IsLater progress
  later_phase_resolved_iff none = ground arith
  later_phase_resolved_iff (some p) =
      ground (arith, has_resolved_in_phase_iff p two, has_resolved_in_phase_iff p three)

option_iff : {A : Type 0} (o : Option A) → (is_some o ≡ true) ↔ ((a : A) × (o ≡ some a))
option_iff none = ground arith
option_iff (some a) = (λ h. (a, refl), λ h. refl)

module _ {V F : Type 0} where
  phase_one_armed_iff :
      (state : Option (State V F)) → (phase_one_armed state ≡ true) ↔ IsReady state
  phase_one_armed_iff none = ground arith
  phase_one_armed_iff (some s) = ground (
    arith,
    contains_key_iff (codes "activeRebootTransaction") s.unknown_fields,
    option_iff s.active_reboot_transaction,
  )

  assess_branches :
      (state : Option (State V F)) (progress : Option (Progress V)) (inventory : MigrationInventory)
      → IsRefusal (assess_inventory state progress inventory) ↔ (
          (inventory.phase_two_run_once_armed ≡ true)
          ⊎ (inventory.phase_three_run_armed ≡ true)
          ⊎ (inventory.safe_boot_armed ≡ true)
          ⊎ (inventory.incomplete_runtime ≡ true)
          ⊎ (later_phase_resolved progress ≡ true)
          ⊎ (phase_one_armed state ≡ true))
  unfolding assess_inventory confirm
  assess_branches none none inventory = ground arith
  assess_branches none (some p) inventory = ground arith
  assess_branches (some s) none inventory = ground arith
  assess_branches (some s) (some p) inventory = ground arith

  -- A migration is refused exactly if something is armed: one of the four facts of the inventory, an
  -- action of the catalog in phase 2 or 3 whose key is completed or skipped, or a state that is ready
  -- for Safe Mode or has a reboot transaction, readable or kept unread.
  pub assess-Refusal_iff :
      (state : Option (State V F)) (progress : Option (Progress V)) (inventory : MigrationInventory)
      → IsRefusal (assess_inventory state progress inventory) ↔ IsArmed state progress inventory
  assess-Refusal_iff state progress inventory = ground (
    arith,
    assess_branches state progress inventory,
    later_phase_resolved_iff progress,
    phase_one_armed_iff state,
  )
