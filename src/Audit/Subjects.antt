-- ===== src/Audit/Subjects.antt =====
-- The subjects of an audit of application removals: crates/frametime-domain/src/audit.rs.
use mathlib.Core.List.{Perm}
use mathlib.Core.Path.{subst}
use mathlib.Core.List.Perm
use cs2_opt.Prelude.{
  ◌≡◌, List, [], ◌∷◌, true, false, not, ◌&&◌, ◌≤◌, Bool, Bool-cases, any, length, arith, refl, ok,
  suc, ◌==◌, some, is_empty, inl, inr, ensure-ok, ok-injective, sym,
}
use cs2_opt.Prelude.Text.{Text, text_eq, text_lt, text_eq_refl, codes}
use cs2_opt.Audit.Rebuildable.{mixed}
use cs2_opt.Audit.Manual.{
  AppxRemovalSubject, installed, provisioned, subject_lt, subject_eq, insert_subject, sort_subjects,
  dedup_after, dedup_subjects, appx_subject_is_invalid, appx_subjects_after,
  appx_subjects_are_valid, pending_with_appx_subjects, MixedRecoveryAudit, mixed_pending,
  appx_removals, mixed_audit, is_valid_pending_for, expected_manual_target,
}

text_lt-asym : (s t : Text) → text_lt s t ≡ true → text_lt t s ≡ false
unfolding text_lt
text_lt-asym [] [] h = ground arith
text_lt-asym [] (b ∷ t) h = refl
text_lt-asym (a ∷ s) [] h = ground arith
text_lt-asym (a ∷ s) (b ∷ t) h = ground (arith, text_lt-asym s t)

text_lt-total : (s t : Text) → text_lt s t ≡ false → text_eq t s ≡ false → text_lt t s ≡ true
unfolding text_lt text_eq
text_lt-total [] [] h e = ground arith
text_lt-total [] (b ∷ t) h e = ground arith
text_lt-total (a ∷ s) [] h e = refl
text_lt-total (a ∷ s) (b ∷ t) h e = ground (arith, text_lt-total s t)

subject_lt-asym : (x y : AppxRemovalSubject) → subject_lt x y ≡ true → subject_lt y x ≡ false
unfolding subject_lt
subject_lt-asym (installed a) (installed b) h = text_lt-asym a b h
subject_lt-asym (installed a) (provisioned b) h = refl
subject_lt-asym (provisioned a) (installed b) h = ground arith
subject_lt-asym (provisioned a) (provisioned b) h = text_lt-asym a b h

subject_lt-total :
    (x y : AppxRemovalSubject)
    → subject_lt x y ≡ false
    → subject_eq y x ≡ false
    → subject_lt y x ≡ true
unfolding subject_lt subject_eq
subject_lt-total (installed a) (installed b) h e = text_lt-total a b h e
subject_lt-total (installed a) (provisioned b) h e = ground arith
subject_lt-total (provisioned a) (installed b) h e = refl
subject_lt-total (provisioned a) (provisioned b) h e = text_lt-total a b h e

-- Every subject is at least the one before it.
abbrev sorted_after : AppxRemovalSubject → List AppxRemovalSubject → Bool
sorted_after p [] = true
sorted_after p (x ∷ xs) = not (subject_lt x p) && sorted_after x xs

abbrev is_sorted : List AppxRemovalSubject → Bool
is_sorted [] = true
is_sorted (x ∷ xs) = sorted_after x xs

insert-sorted_after :
    (p x : AppxRemovalSubject) (ys : List AppxRemovalSubject)
    → subject_lt x p ≡ false
    → sorted_after p ys ≡ true
    → sorted_after p (insert_subject x ys) ≡ true
unfolding insert_subject
insert-sorted_after p x [] h r = ground arith
insert-sorted_after p x (y ∷ ys) h r =
    ground (arith, insert-sorted_after y x ys, subject_lt-asym y x)

insert-is_sorted :
    (x : AppxRemovalSubject) (ys : List AppxRemovalSubject)
    → is_sorted ys ≡ true
    → is_sorted (insert_subject x ys) ≡ true
unfolding insert_subject
insert-is_sorted x [] r = refl
insert-is_sorted x (y ∷ ys) r = ground (arith, insert-sorted_after y x ys, subject_lt-asym y x)

sort_subjects-is_sorted : (xs : List AppxRemovalSubject) → is_sorted (sort_subjects xs) ≡ true
unfolding sort_subjects
sort_subjects-is_sorted [] = refl
sort_subjects-is_sorted (x ∷ xs) =
    insert-is_sorted x (sort_subjects xs) (sort_subjects-is_sorted xs)

insert_subject-Perm :
    (x : AppxRemovalSubject) (ys : List AppxRemovalSubject) → Perm (x ∷ ys) (insert_subject x ys)
unfolding insert_subject
insert_subject-Perm x [] = Perm.refl (x ∷ [])
insert_subject-Perm x (y ∷ ys) = elim (Bool-cases (subject_lt y x)) [
  | inl below ↦ rw below (Perm.trans (Perm.swap y x ys) (Perm.cons y (insert_subject-Perm x ys)))
  | inr above ↦ rw above (Perm.refl (x ∷ y ∷ ys))
]

sort_subjects-Perm : (xs : List AppxRemovalSubject) → Perm xs (sort_subjects xs)
unfolding sort_subjects
sort_subjects-Perm [] = Perm.refl []
sort_subjects-Perm (x ∷ xs) =
    Perm.trans (Perm.cons x (sort_subjects-Perm xs)) (insert_subject-Perm x (sort_subjects xs))

any-insert_subject :
    (q : AppxRemovalSubject → Bool) (x : AppxRemovalSubject) (ys : List AppxRemovalSubject)
    → any q (insert_subject x ys) ≡ any q (x ∷ ys)
unfolding any insert_subject
any-insert_subject q x [] = refl
any-insert_subject q x (y ∷ ys) = ground (arith, any-insert_subject q x ys)

any-sort_subjects :
    (q : AppxRemovalSubject → Bool) (xs : List AppxRemovalSubject)
    → any q (sort_subjects xs) ≡ any q xs
unfolding any sort_subjects
any-sort_subjects q [] = refl
any-sort_subjects q (x ∷ xs) =
    ground (arith, any-insert_subject q x (sort_subjects xs), any-sort_subjects q xs)

length-insert_subject :
    (x : AppxRemovalSubject) (ys : List AppxRemovalSubject)
    → length (insert_subject x ys) ≡ suc (length ys)
unfolding insert_subject
length-insert_subject x [] = refl
length-insert_subject x (y ∷ ys) = ground (arith, length-insert_subject x ys)

length-sort_subjects : (xs : List AppxRemovalSubject) → length (sort_subjects xs) ≡ length xs
unfolding sort_subjects
length-sort_subjects [] = refl
length-sort_subjects (x ∷ xs) =
    ground (arith, length-insert_subject x (sort_subjects xs), length-sort_subjects xs)

length-dedup_after :
    (p : AppxRemovalSubject) (ys : List AppxRemovalSubject) → length (dedup_after p ys) ≤ length ys
unfolding dedup_after
length-dedup_after p [] = ground arith
length-dedup_after p (y ∷ ys) = ground (arith, length-dedup_after p ys, length-dedup_after y ys)

-- A sorted list that loses nothing by `dedup` has no subject twice: it is not changed, and rises.
dedup_after_lem :
    (p : AppxRemovalSubject) (ys : List AppxRemovalSubject)
    → sorted_after p ys ≡ true
    → any appx_subject_is_invalid ys ≡ false
    → length (dedup_after p ys) ≡ length ys
    → (dedup_after p ys ≡ ys) × (appx_subjects_after (some p) ys ≡ true)
unfolding any dedup_after appx_subjects_after
dedup_after_lem p [] r v e = (refl, refl)
dedup_after_lem p (y ∷ ys) r v e =
    let short = length-dedup_after p ys in
    let other : subject_eq p y ≡ false = ground (arith, short) in
    let (same, rises) = dedup_after_lem y ys (ground arith) (ground arith) (ground arith) in
    let up : subject_lt p y ≡ true = subject_lt-total y p (ground arith) other in
    (ground (arith, same), ground arith)

dedup_subjects_lem :
    (xs : List AppxRemovalSubject)
    → is_sorted xs ≡ true
    → any appx_subject_is_invalid xs ≡ false
    → length (dedup_subjects xs) ≡ length xs
    → (dedup_subjects xs ≡ xs) × (appx_subjects_are_valid xs ≡ true)
unfolding any dedup_subjects appx_subjects_after appx_subjects_are_valid
dedup_subjects_lem [] r v e = (refl, refl)
dedup_subjects_lem (x ∷ xs) r v e =
    let (same, rises) = dedup_after_lem x xs r (ground arith) (ground arith) in
    (ground (arith, same), ground arith)

module _ {V : Type 0} where
  -- An audit that is made from a list of application subjects is valid as pending for the mixed
  -- requirement and its step, if its time is not empty; what it names is a permutation of the given
  -- subjects.
  pub pending_with_appx_subjects-is_valid_pending_for :
      (step captured_at : Text) (subjects : List AppxRemovalSubject) (a : MixedRecoveryAudit V)
      → is_empty captured_at ≡ false
      → pending_with_appx_subjects V step captured_at subjects ≡ ok a
      → (is_valid_pending_for (mixed_audit a) mixed step ≡ true)
        × Perm subjects a.manual_recovery_subjects
  unfolding pending_with_appx_subjects is_valid_pending_for expected_manual_target mixed_pending
  pending_with_appx_subjects-is_valid_pending_for step captured_at subjects a timed h =
      let found = dedup_subjects (sort_subjects subjects) in
      let audit : MixedRecoveryAudit V = record (mixed_pending V step captured_at appx_removals) {
        manual_recovery_subjects = found;
      } in
      let (bound, h) =
        ensure-ok (text_eq step (codes "P1:13")) "AppX removal audit is bound only to P1:13" _ a
          h in
      let (named, h) =
        ensure-ok (not (any appx_subject_is_invalid subjects))
          "P1:13 AppX audit subjects are invalid or duplicated" _ a h in
      let (unique, h) =
        ensure-ok (length found == length subjects)
          "P1:13 AppX audit subjects are invalid or duplicated" _ a h in
      let e : audit ≡ a = ok-injective audit a h in
      let (same, valid) =
        dedup_subjects_lem (sort_subjects subjects) (sort_subjects-is_sorted subjects)
          (ground (arith, any-sort_subjects appx_subject_is_invalid subjects))
          (ground (arith, length-sort_subjects subjects)) in
      (
        subst (λ x. is_valid_pending_for (mixed_audit x) mixed step ≡ true) e
            (simp (same, valid, bound, timed, text_eq_refl step) (ground arith)),
        subst (λ x. Perm subjects x.manual_recovery_subjects) e
            (subst (λ xs. Perm subjects xs) (sym same) (sort_subjects-Perm subjects)),
      )
