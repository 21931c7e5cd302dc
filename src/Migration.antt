-- ===== src/Migration.antt =====
-- Whether an older runtime may be migrated: crates/frametime-domain/src/migration.rs.
pub mod Refusals
use cs2_opt.Prelude.{
  ℕ, ◌+◌, Bool, true, false, ◌&&◌, ◌||◌, Option, none, some, ◌==◌, is_some, not, length, filter,
  if◌then◌else◌,
}
use cs2_opt.Prelude.Text.{codes}
use cs2_opt.Prelude.Keys.{contains_key}
use cs2_opt.Handoff.Transaction.{is_some_and}
use cs2_opt.Catalog.Ids.{Phase, one, two, three, phase_eq}
use cs2_opt.Catalog.Steps.{Step, step_catalog}
use cs2_opt.Progress.{Progress, is_completed, is_skipped, has_resolved_in_phase}
use cs2_opt.State.{State}

pub data LegacyHandoff : Type 0 where
  none_armed phase_two_armed phase_three_armed safe_boot_armed incomplete_runtime : LegacyHandoff

pub record MigrationInventory : Type 0 where
  pub phase_two_run_once_armed : Bool
  pub phase_three_run_armed : Bool
  pub safe_boot_armed : Bool
  pub incomplete_runtime : Bool

pub data MigrationDecision : Type 0 where
  not_needed confirm_idle : MigrationDecision
  confirm_partial_phase_one : ℕ → ℕ → MigrationDecision
  refuse : LegacyHandoff → MigrationDecision

abbrev pub default_inventory : MigrationInventory
default_inventory = record {
  phase_two_run_once_armed = false;
  phase_three_run_armed = false;
  safe_boot_armed = false;
  incomplete_runtime = false;
}

unfoldable pub inventory_of : LegacyHandoff → MigrationInventory
inventory_of none_armed = default_inventory
inventory_of phase_two_armed = record default_inventory { phase_two_run_once_armed = true }
inventory_of phase_three_armed = record default_inventory { phase_three_run_armed = true }
inventory_of safe_boot_armed = record default_inventory { safe_boot_armed = true }
inventory_of incomplete_runtime = record default_inventory { incomplete_runtime = true }

module _ {V : Type 0} where
  abbrev pub later_phase_resolved : Option (Progress V) → Bool
  later_phase_resolved progress =
      is_some_and (λ (p : Progress V). has_resolved_in_phase p two || has_resolved_in_phase p three)
        progress

module _ {V F : Type 0} where
  abbrev pub phase_one_armed : Option (State V F) → Bool
  phase_one_armed state =
      is_some_and
        (λ (s : State V F).
          s.phase1_safe_mode_ready
          || (is_some s.active_reboot_transaction
              || contains_key (codes "activeRebootTransaction") s.unknown_fields))
        state

module _ {V : Type 0} where
  abbrev pub completed_in_phase_one : Progress V → ℕ
  completed_in_phase_one p =
      length (filter (λ (s : Step). phase_eq s.id.phase one && is_completed p s.id) step_catalog)

  abbrev pub skipped_in_phase_one : Progress V → ℕ
  skipped_in_phase_one p =
      length (filter (λ (s : Step). phase_eq s.id.phase one && is_skipped p s.id) step_catalog)

  -- The end of `assess_inventory`, with what the progress says of phase 1.
  unfoldable pub confirm : Option (Progress V) → MigrationDecision
  confirm none = confirm_idle
  confirm (some p) =
      if completed_in_phase_one p + skipped_in_phase_one p == 0
      then confirm_idle
      else confirm_partial_phase_one (completed_in_phase_one p) (skipped_in_phase_one p)

module _ {V F : Type 0} where
  unfoldable pub assess_inventory :
      Option (State V F) → Option (Progress V) → MigrationInventory → MigrationDecision
  unfolding confirm
  assess_inventory state progress inventory =
      if inventory.phase_two_run_once_armed
      then refuse phase_two_armed
      else if inventory.phase_three_run_armed
      then refuse phase_three_armed
      else if inventory.safe_boot_armed
      then refuse safe_boot_armed
      else if inventory.incomplete_runtime
      then refuse incomplete_runtime
      else if not (is_some state) && not (is_some progress)
      then not_needed
      else if later_phase_resolved progress || phase_one_armed state
      then refuse incomplete_runtime
      else confirm progress

  unfoldable pub assess :
      Option (State V F) → Option (Progress V) → LegacyHandoff → MigrationDecision
  unfolding inventory_of assess_inventory
  assess state progress handoff = assess_inventory state progress (inventory_of handoff)
