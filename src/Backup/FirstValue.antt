-- ===== src/Backup/FirstValue.antt =====
-- What repeated captures leave in a backup file: crates/frametime-domain/src/backup.rs.
use mathlib.Core.List.{reverse_aux}
use mathlib.Core.Path.{subst}
use cs2_opt.Prelude.{
  ℕ, ◌+◌, ◌≤◌, suc, ◌≡◌, refl, arith, Bool, Bool-cases, true, false, List, [], ◌∷◌, ◌++◌, Option,
  none, some, any, if◌then◌else◌, inl, inr, sym, ap, ◌∙◌,
}
use cs2_opt.Prelude.Text.{Text, text_eq, text_eq_iff}
use cs2_opt.Backup.Entry.{BackupEntry, BackupFile}
use cs2_opt.Backup.Identity.{
  dedupe_identity, is_text, push_first_value, entries_after, restore_order,
}

module _ {V : Type 0} where
  abbrev is_at : Text → BackupEntry V → Bool
  is_at i e = is_text (dedupe_identity e) i

  -- The first captured value of an identity.
  unfoldable pub first_value : Text → List (BackupEntry V) → Option (BackupEntry V)
  first_value i [] = none
  first_value i (e ∷ es) = let later = first_value i es in if is_at i e then some e else later

  -- How many values an identity has.
  unfoldable pub count_of : Text → List (BackupEntry V) → ℕ
  count_of i [] = 0
  count_of i (e ∷ es) = let later = count_of i es in if is_at i e then suc later else later

  abbrev pub or_entry : Option (BackupEntry V) → Option (BackupEntry V) → Option (BackupEntry V)
  or_entry none other = other
  or_entry (some e) other = some e

  or_entry-none : (o : Option (BackupEntry V)) → or_entry o none ≡ o
  or_entry-none none = refl
  or_entry-none (some e) = refl

  or_entry_assoc :
      (a b c : Option (BackupEntry V)) → or_entry (or_entry a b) c ≡ or_entry a (or_entry b c)
  or_entry_assoc none b c = refl
  or_entry_assoc (some e) b c = refl

  -- A file that gets a run of captures.
  unfoldable pub push_all : BackupFile V → List (BackupEntry V) → BackupFile V
  push_all file [] = file
  push_all file (e ∷ es) = push_all (push_first_value file e) es

  first_value-append :
      (i : Text) (xs ys : List (BackupEntry V))
      → first_value i (xs ++ ys) ≡ or_entry (first_value i xs) (first_value i ys)
  unfolding first_value
  first_value-append i [] ys = refl
  first_value-append i (x ∷ xs) ys = ground (arith, first_value-append i xs ys)

  first_value-any :
      (i : Text) (xs : List (BackupEntry V))
      → any (is_at i) xs ≡ true
      → (e : BackupEntry V) × (first_value i xs ≡ some e)
  unfolding first_value any
  first_value-any i [] h = ground arith
  first_value-any i (x ∷ xs) h = elim (Bool-cases (is_at i x)) [
    | inl at ↦ (x, ground arith)
    | inr away ↦ let (e, found) = first_value-any i xs (ground arith) in (e, ground (arith, found))
  ]

  count_of-append :
      (i : Text) (xs ys : List (BackupEntry V))
      → count_of i (xs ++ ys) ≡ count_of i xs + count_of i ys
  unfolding count_of
  count_of-append i [] ys = ground arith
  count_of-append i (x ∷ xs) ys = ground (arith, count_of-append i xs ys)

  count_of-none :
      (i : Text) (xs : List (BackupEntry V)) → any (is_at i) xs ≡ false → count_of i xs ≡ 0
  unfolding count_of any
  count_of-none i [] h = refl
  count_of-none i (x ∷ xs) h = ground (arith, count_of-none i xs)

  count_of-reverse_aux :
      (i : Text) (xs ys : List (BackupEntry V))
      → count_of i (reverse_aux xs ys) ≡ count_of i xs + count_of i ys
  unfolding count_of
  count_of-reverse_aux i [] ys = ground arith
  count_of-reverse_aux i (x ∷ xs) ys = ground (arith, count_of-reverse_aux i xs (x ∷ ys))

  first_value-entries_after :
      (i : Text) (id : Option Text) (es : List (BackupEntry V)) (e : BackupEntry V)
      → dedupe_identity e ≡ id
      → first_value i (entries_after id es e) ≡ or_entry (first_value i es) (first_value i (e ∷ []))
  unfolding entries_after first_value is_text
  first_value-entries_after i none es e at = first_value-append i es (e ∷ [])
  first_value-entries_after i (some j) es e at = elim (Bool-cases (any (is_at j) es)) [
    | inl known ↦
        let (x, found) = first_value-any j es known in
        elim (Bool-cases (text_eq j i)) [
          | inl same ↦
              let found : first_value i es ≡ some x =
                subst (λ k. first_value k es ≡ some x) ((text_eq_iff j i).0 same) found in
              rw known (rw found refl)
          | inr other ↦ rw known (rw at (rw other (sym (or_entry-none (first_value i es)))))
        ]
    | inr fresh ↦ rw fresh (first_value-append i es (e ∷ []))
  ]

  count_of-entries_after :
      (i : Text) (id : Option Text) (es : List (BackupEntry V)) (e : BackupEntry V)
      → dedupe_identity e ≡ id
      → count_of i es ≤ 1
      → count_of i (entries_after id es e) ≤ 1
  unfolding entries_after count_of is_text
  count_of-entries_after i none es e at few =
      rw (count_of-append i es (e ∷ [])) (rw at (omega (arith, few)))
  count_of-entries_after i (some j) es e at few = elim (Bool-cases (any (is_at j) es)) [
    | inl known ↦ rw known few
    | inr fresh ↦
        rw (fresh, count_of-append i es (e ∷ []), at)
          (elim (Bool-cases (text_eq j i)) [
            | inl same ↦
                let gone : count_of i es ≡ 0 =
                  subst (λ k. count_of k es ≡ 0) ((text_eq_iff j i).0 same)
                    (count_of-none j es fresh) in
                rw (same, gone) (omega arith)
            | inr other ↦ rw other (omega (arith, few))
          ])
  ]

  first_value-push_first_value :
      (i : Text) (file : BackupFile V) (e : BackupEntry V)
      → first_value i (push_first_value file e).entries
        ≡ or_entry (first_value i file.entries) (first_value i (e ∷ []))
  unfolding push_first_value
  first_value-push_first_value i file e =
      first_value-entries_after i (dedupe_identity e) file.entries e refl

  count_of-push_all :
      (i : Text) (file : BackupFile V) (es : List (BackupEntry V))
      → count_of i file.entries ≤ 1
      → count_of i (push_all file es).entries ≤ 1
  unfolding push_all push_first_value
  count_of-push_all i file [] few = few
  count_of-push_all i file (e ∷ es) few =
      count_of-push_all i (push_first_value file e) es
        (count_of-entries_after i (dedupe_identity e) file.entries e refl few)

  -- After a run of captures an identity has the value that the file had first, and, where the file
  -- had none, the first of the run.
  pub first_value-push_all :
      (i : Text) (file : BackupFile V) (es : List (BackupEntry V))
      → first_value i (push_all file es).entries
        ≡ or_entry (first_value i file.entries) (first_value i es)
  unfolding push_all first_value
  first_value-push_all i file [] = sym (or_entry-none (first_value i file.entries))
  first_value-push_all i file (e ∷ es) =
      first_value-push_all i (push_first_value file e) es
      ∙ ap (λ o. or_entry o (first_value i es)) (first_value-push_first_value i file e)
      ∙ or_entry_assoc (first_value i file.entries) (first_value i (e ∷ [])) (first_value i es)
      ∙ ap (or_entry (first_value i file.entries)) (sym (first_value-append i (e ∷ []) es))

  -- A file that has an identity at most once has it at most once in the order of the recovery after
  -- any run of captures.
  pub restore_order-push_all :
      (i : Text) (file : BackupFile V) (es : List (BackupEntry V))
      → count_of i file.entries ≤ 1
      → count_of i (restore_order (push_all file es)) ≤ 1
  unfolding restore_order count_of
  restore_order-push_all i file es few =
      omega (
        arith,
        count_of-reverse_aux i (push_all file es).entries [],
        count_of-push_all i file es few,
      )
