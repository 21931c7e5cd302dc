-- ===== src/Audit/Manual.antt =====
-- Audits of mutations that a person has to undo: crates/frametime-domain/src/audit.rs. `V` stands for
-- kept JSON values.
use cs2_opt.Prelude.{
  Bool, true, false, not, ◌&&◌, ◌||◌, List, [], ◌∷◌, Option, none, some, ltb, is_empty, length,
  if◌then◌else◌, Result, ok, ensure, ◌>>◌, any, ◌==◌, String,
}
use cs2_opt.Prelude.Text.{Text, codes, text_eq, text_lt}
use cs2_opt.Audit.Rebuildable.{RecoveryRequirement, manual_recovery_audit, mixed, requirement_eq}

pub data ManualRecoveryTarget : Type 0 where
  appx_removals exact_driver_package_removal driver_installation : ManualRecoveryTarget

abbrev pub manual_target_eq : ManualRecoveryTarget → ManualRecoveryTarget → Bool
manual_target_eq appx_removals appx_removals = true
manual_target_eq exact_driver_package_removal exact_driver_package_removal = true
manual_target_eq driver_installation driver_installation = true
manual_target_eq _ _ = false

pub data ManualRecoveryAuditOutcome : Type 0 where
  pending : ManualRecoveryAuditOutcome
  verified failed : Text → ManualRecoveryAuditOutcome

pub data AppxRemovalSubject : Type 0 where
  installed provisioned : Text → AppxRemovalSubject

pub record ManualRecoveryAudit (V : Type 0) : Type 0 where
  pub step : Text
  pub captured_at : Text
  pub target : ManualRecoveryTarget
  pub outcome : ManualRecoveryAuditOutcome
  pub unknown_fields : List (Text × V)

pub record MixedRecoveryAudit (V : Type 0) : Type 0 where
  pub step : Text
  pub captured_at : Text
  pub target : ManualRecoveryTarget
  pub manual_recovery_subjects : List AppxRemovalSubject
  pub outcome : ManualRecoveryAuditOutcome
  pub unknown_fields : List (Text × V)

pub data IrreversibleAudit (V : Type 0) : Type 0 where
  manual : ManualRecoveryAudit V → IrreversibleAudit V
  mixed_audit : MixedRecoveryAudit V → IrreversibleAudit V

-- The derived order: by constructor, then by text.
unfoldable pub subject_lt : AppxRemovalSubject → AppxRemovalSubject → Bool
subject_lt (installed a) (installed b) = text_lt a b
subject_lt (installed a) (provisioned b) = true
subject_lt (provisioned a) (installed b) = false
subject_lt (provisioned a) (provisioned b) = text_lt a b

abbrev subject_identity : AppxRemovalSubject → Text
subject_identity (installed full_name) = full_name
subject_identity (provisioned package_name) = package_name

unfoldable pub appx_subject_is_invalid : AppxRemovalSubject → Bool
appx_subject_is_invalid subject =
    is_empty (subject_identity subject) || ltb 1024 (length (subject_identity subject))

-- The loop of `appx_subjects_are_valid`, after the subject before.
unfoldable pub appx_subjects_after : Option AppxRemovalSubject → List AppxRemovalSubject → Bool
appx_subjects_after previous [] = true
appx_subjects_after previous (subject ∷ rest) =
    let later = appx_subjects_after (some subject) rest in
    let repeats : Bool = elim previous [
      | none ↦ false
      | some item ↦ not (subject_lt item subject)
    ] in
    if appx_subject_is_invalid subject || repeats then false else later

unfoldable pub appx_subjects_are_valid : List AppxRemovalSubject → Bool
unfolding appx_subjects_after
appx_subjects_are_valid subjects = appx_subjects_after none subjects

-- The steps that have an irreversible subject.
unfoldable pub expected_manual_target : Text → Option ManualRecoveryTarget
expected_manual_target step =
    if text_eq step (codes "P1:13")
    then some appx_removals
    else if text_eq step (codes "P2:2")
    then some exact_driver_package_removal
    else if text_eq step (codes "P3:1")
    then some driver_installation
    else none

abbrev is_pending : ManualRecoveryAuditOutcome → Bool
is_pending pending = true
is_pending _ = false

abbrev is_expected : ManualRecoveryTarget → Option ManualRecoveryTarget → Bool
is_expected target none = false
is_expected target (some expected) = manual_target_eq target expected

-- What both kinds of audit are held to.
pending_subject : Text → Text → ManualRecoveryTarget → ManualRecoveryAuditOutcome → Bool
pending_subject step captured_at target outcome =
    not (is_empty captured_at)
    && (is_pending outcome && is_expected target (expected_manual_target step))

abbrev pub manual_pending :
    (V : Type 0) → Text → Text → ManualRecoveryTarget → ManualRecoveryAudit V
manual_pending V step captured_at target = record {
  step = step;
  captured_at = captured_at;
  target = target;
  outcome = pending;
  unknown_fields = [];
}

unfoldable pub mixed_pending :
    (V : Type 0) → Text → Text → ManualRecoveryTarget → MixedRecoveryAudit V
mixed_pending V step captured_at target = record {
  step = step;
  captured_at = captured_at;
  target = target;
  manual_recovery_subjects = [];
  outcome = pending;
  unknown_fields = [];
}

-- `sort` of the derived order, by insertion: equal subjects keep their places.
unfoldable pub insert_subject :
    AppxRemovalSubject → List AppxRemovalSubject → List AppxRemovalSubject
insert_subject x [] = x ∷ []
insert_subject x (y ∷ ys) =
    let later = insert_subject x ys in if subject_lt y x then y ∷ later else x ∷ y ∷ ys

unfoldable pub sort_subjects : List AppxRemovalSubject → List AppxRemovalSubject
unfolding insert_subject
sort_subjects [] = []
sort_subjects (x ∷ xs) = insert_subject x (sort_subjects xs)

unfoldable pub subject_eq : AppxRemovalSubject → AppxRemovalSubject → Bool
subject_eq (installed a) (installed b) = text_eq a b
subject_eq (provisioned a) (provisioned b) = text_eq a b
subject_eq _ _ = false

-- `dedup`: a subject that equals the one kept before it goes.
unfoldable pub dedup_after : AppxRemovalSubject → List AppxRemovalSubject → List AppxRemovalSubject
dedup_after previous [] = []
dedup_after previous (x ∷ xs) =
    let same = dedup_after previous xs in
    let other = dedup_after x xs in if subject_eq previous x then same else x ∷ other

unfoldable pub dedup_subjects : List AppxRemovalSubject → List AppxRemovalSubject
unfolding dedup_after
dedup_subjects [] = []
dedup_subjects (x ∷ xs) = x ∷ dedup_after x xs

unfoldable pub pending_with_appx_subjects :
    (V : Type 0) → Text → Text → List AppxRemovalSubject → Result String (MixedRecoveryAudit V)
unfolding mixed_pending dedup_subjects sort_subjects
pending_with_appx_subjects V step captured_at subjects = do
  ensure (text_eq step (codes "P1:13")) "AppX removal audit is bound only to P1:13"
  ensure (not (any appx_subject_is_invalid subjects))
      "P1:13 AppX audit subjects are invalid or duplicated"
  ensure (length (dedup_subjects (sort_subjects subjects)) == length subjects)
      "P1:13 AppX audit subjects are invalid or duplicated"
  ok (record (mixed_pending V step captured_at appx_removals) {
    manual_recovery_subjects = dedup_subjects (sort_subjects subjects);
  })

module _ {V : Type 0} where
  unfoldable pub is_valid_pending_for : IrreversibleAudit V → RecoveryRequirement → Text → Bool
  unfolding pending_subject
  is_valid_pending_for (manual a) requirement step =
      (requirement_eq requirement manual_recovery_audit && text_eq a.step step)
      && pending_subject step a.captured_at a.target a.outcome
  is_valid_pending_for (mixed_audit a) requirement step =
      (requirement_eq requirement mixed && text_eq a.step step)
      && (pending_subject step a.captured_at a.target a.outcome
          && (if text_eq step (codes "P1:13")
              then appx_subjects_are_valid a.manual_recovery_subjects
              else true))

  unfoldable pub with_outcome :
      IrreversibleAudit V → ManualRecoveryAuditOutcome → IrreversibleAudit V
  with_outcome (manual a) outcome = manual (record a { outcome = outcome })
  with_outcome (mixed_audit a) outcome = mixed_audit (record a { outcome = outcome })

  unfoldable pub finalized : IrreversibleAudit V → Text → IrreversibleAudit V
  unfolding with_outcome
  finalized a finalized_at = with_outcome a (verified finalized_at)

  unfoldable pub failed_audit : IrreversibleAudit V → Text → IrreversibleAudit V
  unfolding with_outcome
  failed_audit a failed_at = with_outcome a (failed failed_at)
