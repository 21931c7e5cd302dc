-- ===== src/Witnesses/Audits.antt =====
-- An audit of application removals.
use mathlib.Core.List.{Perm}
use cs2_opt.Prelude.{◌≡◌, ℕ, refl, ok, List, [], ◌∷◌, true, any}
use cs2_opt.Prelude.Text.{codes, text_eq, text_lt}
use cs2_opt.Audit.Rebuildable.{mixed}
use cs2_opt.Audit.Manual.{
  AppxRemovalSubject, installed, provisioned, MixedRecoveryAudit, mixed_pending, appx_removals,
  pending_with_appx_subjects, is_valid_pending_for, mixed_audit, appx_subject_is_invalid,
  subject_lt, subject_eq,
}
use cs2_opt.Audit.Subjects.{pending_with_appx_subjects-is_valid_pending_for}

abbrev removals : List AppxRemovalSubject
removals = provisioned (codes "maps") ∷ installed (codes "notes") ∷ installed (codes "clock") ∷ []

abbrev removal_audit : MixedRecoveryAudit ℕ
removal_audit = record (mixed_pending ℕ (codes "P1:13") (codes "now") appx_removals) {
  manual_recovery_subjects =
      installed (codes "clock") ∷ installed (codes "notes") ∷ provisioned (codes "maps") ∷ [];
}

removals_are_accepted :
    pending_with_appx_subjects ℕ (codes "P1:13") (codes "now") removals ≡ ok removal_audit
unfolding pending_with_appx_subjects text_eq any appx_subject_is_invalid subject_lt text_lt
    subject_eq
removals_are_accepted = refl

pending_with_appx_subjects_example :
    (is_valid_pending_for (mixed_audit removal_audit) mixed (codes "P1:13") ≡ true)
    × Perm removals removal_audit.manual_recovery_subjects
pending_with_appx_subjects_example =
    pending_with_appx_subjects-is_valid_pending_for (codes "P1:13") (codes "now") removals
      removal_audit refl removals_are_accepted
