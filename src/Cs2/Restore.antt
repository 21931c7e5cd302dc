-- ===== src/Cs2/Restore.antt =====
-- The operations of `Cs2ConfigController` of crates/frametime-domain/src/cs2_config.rs on a closed
-- set of targets: what a request names, and the restore of captured bytes.
use cs2_opt.Prelude.{
  Bool, true, false, not, ◌&&◌, ◌||◌, List, [], ◌∷◌, ◌++◌, Option, none, some, Result, ok, err, map,
  is_some, is_empty, if◌then◌else◌, ◌==◌, length, ℕ, suc, last,
}
use cs2_opt.Prelude.Text.{Text, text_eq, is_ascii_digit}
use cs2_opt.Cs2.Files.{
  ◌>>=◌, ◌>>◌, prefix, root_dir, not_found, Cs2ConfigFs, Component, FilePath, Action,
  Cs2ConfigError, joined, IoError, invalid_timestamp, untrusted_path, mutation, pure, ensured,
  write_and_verify, answered, invalid_binding, lift, empty_optional_selection, read_optional,
  readback_mismatch,
}
use cs2_opt.Cs2.Controller.{
  Cs2ConfigRequest, Cs2Install, paths, ensure_safe_targets, ensure_safe_target,
}
use cs2_opt.Cs2.Targets.{
  OptionalCfgAsset, Cs2ConfigTarget, optimization, target_file_name, autoexec, from_optional_asset,
  collected_assets,
}

-- The byte that a request's timestamp has at each index.
stamp_byte : ℕ → ℕ → Bool
stamp_byte index byte =
    (index == 4 || index == 7) && byte == b'-'
    || (index == 10 && byte == b' '
        || (index == 13 && byte == b':'
            || is_ascii_digit byte
              && not (index == 4 || (index == 7 || (index == 10 || index == 13)))))

stamp_bytes : ℕ → Text → Bool
stamp_bytes index [] = true
stamp_bytes index (byte ∷ rest) = stamp_byte index byte && stamp_bytes (suc index) rest

unfoldable pub valid_timestamp : Text → Bool
unfolding stamp_byte stamp_bytes
valid_timestamp value = length value == 16 && stamp_bytes 0 value

-- `Cs2ConfigRequest::new`, and `at`, which is the same.
unfoldable pub request_new : Text → List OptionalCfgAsset → Result Cs2ConfigError Cs2ConfigRequest
unfolding collected_assets
request_new generated_at assets =
    if valid_timestamp generated_at
    then ok (record {
      generated_at = generated_at;
      optional_assets = collected_assets assets;
      bootstrap_autoexec = false;
    })
    else err invalid_timestamp

abbrev pub with_autoexec_bootstrap : Cs2ConfigRequest → Cs2ConfigRequest
with_autoexec_bootstrap request = record request { bootstrap_autoexec = true }

unfoldable pub for_request : Cs2ConfigRequest → List Cs2ConfigTarget
for_request request =
    (optimization ∷ (if request.bootstrap_autoexec then autoexec ∷ [] else []))
    ++ map from_optional_asset request.optional_assets

abbrev pub Snapshot : Type 0
Snapshot = Cs2ConfigTarget × Option Text

-- Targets are told apart by their file names, which all differ.
abbrev target_eq : Cs2ConfigTarget → Cs2ConfigTarget → Bool
target_eq a b = text_eq (target_file_name a) (target_file_name b)

-- `a.len() != b.len() || a.ne(b)`, negated.
unfoldable pub same_targets : List Cs2ConfigTarget → List Cs2ConfigTarget → Bool
same_targets [] [] = true
same_targets (a ∷ as_) (b ∷ bs) = target_eq a b && same_targets as_ bs
same_targets _ _ = false

init : FilePath → FilePath
init [] = []
init (c ∷ []) = []
init (c ∷ c' ∷ p) = c ∷ init (c' ∷ p)

parent_of : Option Component → FilePath → Option FilePath
parent_of none p = none
parent_of (some (prefix name)) p = none
parent_of (some root_dir) p = none
parent_of (some _) p = some (init p)

-- `Path::parent`
unfoldable pub parent : FilePath → Option FilePath
unfolding parent_of init
parent p = parent_of (last p) p

abbrev pub removed : Result IoError (Unit {0}) → Result Cs2ConfigError (Unit {0})
removed (ok u) = ok tt
removed (err not_found) = ok tt
removed (err source) = err (mutation "CS2 CFG restore deletion" none source)

abbrev pub parent_or_untrusted : FilePath → Result Cs2ConfigError FilePath
parent_or_untrusted path = elim (parent path) [
  | none ↦ err (untrusted_path path)
  | some root ↦ ok root
]

-- The paths beside what was captured; what is longer is left out, as `zip` does.
unfoldable pub zipped :
    List (Cs2ConfigTarget × FilePath) → List Snapshot → List (FilePath × Option Text)
zipped ((t, path) ∷ targets) ((t', original) ∷ snapshots) =
    (path, original) ∷ zipped targets snapshots
zipped _ _ = []

abbrev pub bound_targets : FilePath → List Cs2ConfigTarget → List (Cs2ConfigTarget × FilePath)
bound_targets directory targets = map (λ t. (t, joined directory (target_file_name t))) targets

module _ {S : Type 0} where
  unfoldable pub backup_targets :
      Cs2Install → Cs2ConfigRequest → Action S (List (Cs2ConfigTarget × FilePath))
  backup_targets install request = do
    p ← paths install
    ensure_safe_targets p.cfg_directory
        (map (λ t. t.1) (bound_targets p.cfg_directory (for_request request)))
    pure (bound_targets p.cfg_directory (for_request request))

  unfoldable pub backup_optional_targets :
      Cs2Install → List OptionalCfgAsset → Action S (List (Cs2ConfigTarget × FilePath))
  backup_optional_targets install assets = do
    ensured (not (is_empty assets)) empty_optional_selection
    p ← paths install
    ensure_safe_targets p.cfg_directory
        (map (λ t. t.1) (bound_targets p.cfg_directory (map from_optional_asset assets)))
    pure (bound_targets p.cfg_directory (map from_optional_asset assets))

module _ {S : Type 0} (files : Cs2ConfigFs S) where
  -- One file gets its bytes again, or is gone again.
  unfoldable pub restore_one : FilePath → Option Text → Action S (Unit {0})
  restore_one path (some bytes) =
      write_and_verify files path bytes "CS2 CFG restore replacement" none
  restore_one path none = do
    answer ← answered (files.remove_file path)
    lift (removed answer)
    left ← read_optional files path
    ensured (not (is_some left)) (readback_mismatch path none)

  -- The loop over the targets, each with what was captured of it.
  unfoldable pub restore_all : List (FilePath × Option Text) → Action S (Unit {0})
  restore_all [] = pure tt
  restore_all ((path, original) ∷ rest) = do
    root ← lift (parent_or_untrusted path)
    lift (ensure_safe_target root path)
    restore_one path original
    restore_all rest

  unfoldable pub restore_targets :
      List (Cs2ConfigTarget × FilePath) → List Snapshot → Action S (Unit {0})
  restore_targets targets snapshots = do
    ensured (same_targets (map (λ t. t.0) targets) (map (λ t. t.0) snapshots)) invalid_binding
    restore_all (zipped targets snapshots)

  unfoldable pub restore : Cs2Install → Cs2ConfigRequest → List Snapshot → Action S (Unit {0})
  restore install request snapshots =
      backup_targets install request >>= λ targets. restore_targets targets snapshots

  unfoldable pub restore_optional_assets :
      Cs2Install → List OptionalCfgAsset → List Snapshot → Action S (Unit {0})
  restore_optional_assets install assets snapshots =
      backup_optional_targets install assets >>= λ targets. restore_targets targets snapshots
