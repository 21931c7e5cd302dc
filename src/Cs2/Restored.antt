-- ===== src/Cs2/Restored.antt =====
-- What a restore of crates/frametime-domain/src/cs2_config.rs that ended well leaves.
use cs2_opt.Prelude.{
  ◌≡◌, ◌≢◌, ◌∙◌, not, Bool, true, false, arith, List, [], ◌∷◌, Option, none, some, Result, ok, err,
  refl, All, is_some, map,
}
use cs2_opt.Prelude.Text.{Text, text_eq_iff}
use cs2_opt.Cs2.Restore.{parent_or_untrusted}
use cs2_opt.Cs2.Files.{
  ◌>>◌, not_found, already_exists, other, FilePath, Cs2ConfigFs, read_optional, IoError, after,
  present, ensured, readback_mismatch, Action, Cs2ConfigError, answered, lift, invalid_binding,
}
use cs2_opt.Cs2.Contract.{
  Disk, Contract, Post, bind-Contract, then-Contract, on_success, weaken-Contract,
}
use cs2_opt.Cs2.Restore.{
  restore_one, restore_all, restore_targets, Snapshot, zipped, removed, same_targets,
}
use cs2_opt.Cs2.Holds.{Any, write_and_verify-Holds, whatever, both-Contract}
use cs2_opt.Cs2.Spares.{
  Spares, write_and_verify-Spares, pure-Spares, bind-Spares, lift-Spares, answered-Spares,
  read_optional-Spares, ensured-Spares,
}
use cs2_opt.Cs2.Targets.{Cs2ConfigTarget, target_file_name}
use cs2_opt.Cs2.Names.{target_file_name-injective}
use cs2_opt.Cs2.Controller.{ensure_safe_target}

-- The paths of a list all differ.
abbrev pub AreApart : List (FilePath × Option Text) → Type 0
AreApart [] = Unit {0}
AreApart ((path, original) ∷ rest) =
    All (λ (t : FilePath × Option Text). t.0 ≢ path) rest × AreApart rest

module _ {S : Type 0} {files : Cs2ConfigFs S} (disk : Disk files) where
  abbrev pub IsRestored : S → FilePath × Option Text → Type 0
  IsRestored s t = disk.content s t.0 ≡ t.1

  restore_one-Restored :
      (path : FilePath) (original : Option Text)
      → Contract
          (Any disk)
          (Any disk)
          (restore_one files path original)
          (λ _ s. disk.content s path ≡ original)
  unfolding restore_one read_optional
  restore_one-Restored path (some bytes) =
      write_and_verify-Holds disk path bytes "CS2 CFG restore replacement" none
  restore_one-Restored path none =
      bind-Contract (whatever disk (answered (files.remove_file path))) (λ answer.
        then-Contract (whatever disk (lift (removed answer)))
          (record { run = λ s _. go s (files.read_file path s).0 refl }))
    where
      go :
          (s : S) (r : Result IoError Text)
          → (files.read_file path s).0 ≡ r
          → Post
              (Any disk)
              (λ _ s'. disk.content s' path ≡ none)
              (after
                (present r, (files.read_file path s).1)
                (λ left. ensured (not (is_some left)) (readback_mismatch path none)))
      go s (ok bytes) e = tt
      go s (err not_found) e = disk.read_file-keeps path path s ∙ disk.read_file-not_found path s e
      go s (err already_exists) e = tt
      go s (err (other message)) e = tt

  restore_one-Spares :
      (path : FilePath) (original : Option Text) {q : FilePath}
      → path ≢ q
      → Spares disk (restore_one files path original) q
  unfolding restore_one
  restore_one-Spares path (some bytes) apart =
      write_and_verify-Spares disk path bytes "CS2 CFG restore replacement" none apart
  restore_one-Spares path none {q} apart =
      bind-Spares
        (answered-Spares (files.remove_file path) (λ s. disk.remove_file-keeps path q s apart))
        (λ answer. bind-Spares (lift-Spares (removed answer)) (λ _.
          bind-Spares (read_optional-Spares disk path)
            (λ left. ensured-Spares disk (not (is_some left)) (readback_mismatch path none))))

  restore_all-Spares :
      (q : FilePath) (targets : List (FilePath × Option Text))
      → All (λ (t : FilePath × Option Text). t.0 ≢ q) targets
      → Spares disk (restore_all files targets) q
  unfolding restore_all
  restore_all-Spares q [] h = pure-Spares tt
  restore_all-Spares q ((path, original) ∷ rest) (apart, h) =
      bind-Spares (lift-Spares (parent_or_untrusted path)) (λ root.
        bind-Spares (lift-Spares (ensure_safe_target root path)) (λ _.
          bind-Spares (restore_one-Spares path original apart) (λ _. restore_all-Spares q rest h)))

  -- A property of a file that is or is not there.
  keep_file :
      {A : Type 0} {m : Action S A} (t : FilePath × Option Text)
      → Spares disk m t.0
      → Contract (Any disk) (λ s. IsRestored s t) m (λ _ s. IsRestored s t)
  keep_file {A} {m} t there = record { run = λ s h. go (m s) (there.same s ∙ h) }
    where
      go :
          (o : Result Cs2ConfigError A × S)
          → IsRestored o.1 t
          → Post (Any disk) (λ _ s. IsRestored s t) o
      go (ok a, s') h = h
      go (err x, s') h = tt

  restore_all-Restored :
      (targets : List (FilePath × Option Text))
      → AreApart targets
      → Contract
          (Any disk)
          (Any disk)
          (restore_all files targets)
          (λ _ s. All (IsRestored s) targets)
  unfolding restore_all
  restore_all-Restored [] apart = record { run = λ s _. tt }
  restore_all-Restored ((path, original) ∷ rest) (here, apart) =
      bind-Contract (whatever disk (lift (parent_or_untrusted path))) (λ root.
        then-Contract (whatever disk (lift (ensure_safe_target root path))) (
          then-Contract (restore_one-Restored path original) (
            weaken-Contract (λ s h. (h, tt)) (λ a s q. q)
              (both-Contract disk (keep_file (path, original) (restore_all-Spares path rest here))
                (restore_all-Restored rest apart)))))

-- The paths of the targets all differ.
abbrev pub AreDistinct : List (Cs2ConfigTarget × FilePath) → Type 0
AreDistinct [] = Unit {0}
AreDistinct ((t, path) ∷ rest) =
    All (λ (u : Cs2ConfigTarget × FilePath). u.1 ≢ path) rest × AreDistinct rest

-- The targets and the snapshots are the same files in the same order, as many of the ones as of the
-- others, and the file of each target is as its snapshot has it.
abbrev pub AreRestored :
    {S : Type 0} {files : Cs2ConfigFs S}
    → Disk files
    → S
    → List (Cs2ConfigTarget × FilePath)
    → List Snapshot
    → Type 0
AreRestored disk s [] [] = Unit {0}
AreRestored disk s ((t, path) ∷ targets) ((t', original) ∷ snapshots) =
    (t ≡ t') × (disk.content s path ≡ original) × AreRestored disk s targets snapshots
AreRestored disk s _ _ = ⊥

apart_from :
    (path : FilePath) (targets : List (Cs2ConfigTarget × FilePath)) (snapshots : List Snapshot)
    → All (λ (u : Cs2ConfigTarget × FilePath). u.1 ≢ path) targets
    → All (λ (t : FilePath × Option Text). t.0 ≢ path) (zipped targets snapshots)
unfolding zipped
apart_from path [] snapshots h = tt
apart_from path (t ∷ targets) [] h = tt
apart_from path ((t, p) ∷ targets) ((t', o) ∷ snapshots) (here, h) =
    (here, apart_from path targets snapshots h)

zipped-AreApart :
    (targets : List (Cs2ConfigTarget × FilePath)) (snapshots : List Snapshot)
    → AreDistinct targets
    → AreApart (zipped targets snapshots)
unfolding zipped
zipped-AreApart [] snapshots h = tt
zipped-AreApart (t ∷ targets) [] h = tt
zipped-AreApart ((t, p) ∷ targets) ((t', o) ∷ snapshots) (here, h) =
    (apart_from p targets snapshots here, zipped-AreApart targets snapshots h)

zipped-AreRestored :
    {S : Type 0} {files : Cs2ConfigFs S} (disk : Disk files) (s : S)
    (targets : List (Cs2ConfigTarget × FilePath)) (snapshots : List Snapshot)
    → same_targets (map (λ t. t.0) targets) (map (λ t. t.0) snapshots) ≡ true
    → All (IsRestored disk s) (zipped targets snapshots)
    → AreRestored disk s targets snapshots
unfolding zipped same_targets
zipped-AreRestored disk s [] [] e h = tt
zipped-AreRestored disk s [] (t ∷ snapshots) e h = ground arith
zipped-AreRestored disk s (t ∷ targets) [] e h = ground arith
zipped-AreRestored disk s ((t, p) ∷ targets) ((t', o) ∷ snapshots) e (here, h) = (
  target_file_name-injective t t'
      ((text_eq_iff (target_file_name t) (target_file_name t')).0 (ground arith)),
  here,
  zipped-AreRestored disk s targets snapshots (ground arith) h,
)

-- An action that ends well after a test found the test to hold.
ensured-ok :
    {S : Type 0} (test : Bool) (e : Cs2ConfigError) (m : Action S (Unit {0})) (s : S)
    → ((do ensured test e; m) s).0 ≡ ok tt
    → test ≡ true
ensured-ok true e m s h = refl
ensured-ok false e m s h = ground arith

-- When a restore of targets with different paths ends well, the snapshots are of exactly the
-- targets, in their order, and the file of every target is as its snapshot has it: its bytes are
-- back, or it is gone if it was absent.
pub restore_targets-restores :
    {S : Type 0} {files : Cs2ConfigFs S} (disk : Disk files)
    (targets : List (Cs2ConfigTarget × FilePath)) (snapshots : List Snapshot) (s : S)
    → AreDistinct targets
    → (restore_targets files targets snapshots s).0 ≡ ok tt
    → AreRestored disk (restore_targets files targets snapshots s).1 targets snapshots
unfolding restore_targets
restore_targets-restores {files = files} disk targets snapshots s apart h =
    let same : Bool = same_targets (map (λ t. t.0) targets) (map (λ t. t.0) snapshots) in
    zipped-AreRestored disk (restore_targets files targets snapshots s).1 targets snapshots
      (ensured-ok same invalid_binding (restore_all files (zipped targets snapshots)) s h)
      (on_success {P = Any disk}
        (then-Contract (whatever disk (ensured same invalid_binding)) (
          restore_all-Restored disk (zipped targets snapshots)
            (zipped-AreApart targets snapshots apart)))
        s tt tt h)
