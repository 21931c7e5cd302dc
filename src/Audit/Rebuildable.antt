-- ===== src/Audit/Rebuildable.antt =====
-- Audits of mutations that are rebuilt by their owner: crates/frametime-domain/src/audit.rs. `V`
-- stands for kept JSON values.
use cs2_opt.Prelude.{
  ℕ, Bool, true, false, not, ◌&&◌, ◌||◌, List, [], ◌∷◌, ltb, ◌==◌, is_empty, Result, ok, err,
  String, if◌then◌else◌,
}
use cs2_opt.Prelude.Text.{Text, codes, text_eq}

pub data RecoveryRequirement : Type 0 where
  lossless_backup rebuildable_audit manual_recovery_audit mixed : RecoveryRequirement

abbrev pub requirement_eq : RecoveryRequirement → RecoveryRequirement → Bool
requirement_eq lossless_backup lossless_backup = true
requirement_eq rebuildable_audit rebuildable_audit = true
requirement_eq manual_recovery_audit manual_recovery_audit = true
requirement_eq mixed mixed = true
requirement_eq _ _ = false

pub data RebuildableTarget : Type 0 where
  cs2_shader_cache nvidia_dx_cache nvidia_gl_cache directx_d3d_cache : RebuildableTarget

-- The derived order of the enum.
abbrev pub target_rank : RebuildableTarget → ℕ
target_rank cs2_shader_cache = 0
target_rank nvidia_dx_cache = 1
target_rank nvidia_gl_cache = 2
target_rank directx_d3d_cache = 3

abbrev pub p1_3_rebuildable_targets : List RebuildableTarget
p1_3_rebuildable_targets =
    cs2_shader_cache ∷ nvidia_dx_cache ∷ nvidia_gl_cache ∷ directx_d3d_cache ∷ []

-- `Vec` equality.
unfoldable pub targets_eq : List RebuildableTarget → List RebuildableTarget → Bool
targets_eq [] [] = true
targets_eq (a ∷ s) (b ∷ t) = let rest = targets_eq s t in target_rank a == target_rank b && rest
targets_eq _ _ = false

pub data RebuildableAuditOutcome : Type 0 where
  pending : RebuildableAuditOutcome
  verified : Text → RebuildableAuditOutcome

-- The field `record_type` has one value only, and is left out.
pub record RebuildableAudit (V : Type 0) : Type 0 where
  pub step : Text
  pub captured_at : Text
  pub targets : List RebuildableTarget
  pub outcome : RebuildableAuditOutcome
  pub unknown_fields : List (Text × V)

-- Insertion into the `BTreeMap` whose keys are the targets.
unfoldable pub insert_target : RebuildableTarget → List RebuildableTarget → List RebuildableTarget
insert_target t [] = t ∷ []
insert_target t (u ∷ us) =
    let rest = insert_target t us in
    if ltb (target_rank t) (target_rank u)
    then t ∷ u ∷ us
    else if target_rank t == target_rank u
    then u ∷ us
    else u ∷ rest

-- The loop of `deduplicated_targets`, from the targets known so far.
unfoldable pub deduplicate_from :
    List RebuildableTarget → List RebuildableTarget → List RebuildableTarget
unfolding insert_target
deduplicate_from known [] = known
deduplicate_from known (t ∷ ts) = deduplicate_from (insert_target t known) ts

unfoldable pub deduplicated_targets : List RebuildableTarget → List RebuildableTarget
unfolding deduplicate_from
deduplicated_targets targets = deduplicate_from [] targets

unfoldable pub rebuildable_pending :
    (V : Type 0) → Text → Text → List RebuildableTarget → Result String (RebuildableAudit V)
unfolding deduplicated_targets
rebuildable_pending V step captured_at given =
    let targets = deduplicated_targets given in
    if is_empty targets
    then err "rebuildable audit requires at least one fixed target"
    else ok (record {
      step = step;
      captured_at = captured_at;
      targets = targets;
      outcome = pending;
      unknown_fields = [];
    })

abbrev pub is_pending : RebuildableAuditOutcome → Bool
is_pending pending = true
is_pending (verified finalized_at) = false

unfoldable pub targets_are_unique_and_nonempty : List RebuildableTarget → Bool
targets_are_unique_and_nonempty targets =
    not (is_empty targets) && targets_eq targets (deduplicated_targets targets)

module _ {V : Type 0} where
  unfoldable pub rebuildable_is_valid_pending_for : RebuildableAudit V → Text → Bool
  unfolding targets_are_unique_and_nonempty
  rebuildable_is_valid_pending_for a step =
      is_pending a.outcome
      && (text_eq a.step step
          && (not (is_empty a.captured_at)
              && (targets_are_unique_and_nonempty a.targets
                  && (not (text_eq step (codes "P1:3"))
                      || targets_eq a.targets p1_3_rebuildable_targets))))

  unfoldable pub rebuildable_finalized : RebuildableAudit V → Text → RebuildableAudit V
  rebuildable_finalized a finalized_at = record a { outcome = verified finalized_at }
