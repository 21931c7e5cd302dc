-- ===== src/Cs2/Controller.antt =====
-- `Cs2ConfigController` of crates/frametime-domain/src/cs2_config.rs. The bytes of the compiled
-- files and the UTF-8 coding are parameters; texts that were decoded are lists of code points.
use cs2_opt.Prelude.{
  Bool, true, false, not, ◌&&◌, List, [], ◌∷◌, Option, none, some, Result, ok, err, is_empty,
  if◌then◌else◌,
}
use cs2_opt.Prelude.Text.{Text, codes, text_eq}
use cs2_opt.Cs2.Targets.{OptionalCfgAsset}
use cs2_opt.Cs2.Files.{
  Component, FilePath, normal, prefix, root_dir, cur_dir, parent_dir, joined, IoError,
  already_exists, Cs2ConfigError, Cs2ConfigFs, Action, ◌>>=◌, ◌>>◌, pure, lift, answered, calling,
  ensured, invalid_binding, untrusted_path, io, mutation, readback_mismatch,
}

pub record Cs2Install : Type 0 where
  pub steam_root : FilePath
  pub library_root : FilePath
  pub install_root : FilePath

pub record Cs2ConfigRequest : Type 0 where
  pub generated_at : Text
  pub optional_assets : List OptionalCfgAsset
  pub bootstrap_autoexec : Bool

pub record Cs2Paths : Type 0 where
  pub cfg_directory : FilePath
  pub optimization_path : FilePath
  pub optimization_backup_path : FilePath
  pub autoexec_path : FilePath
  pub autoexec_backup_path : FilePath

pub record CfgAssetDeployment : Type 0 where
  pub asset : OptionalCfgAsset
  pub source_name : Text
  pub target : FilePath
  pub bytes : Text

pub data OptimizationBackup : Type 0 where
  created retained : FilePath → OptimizationBackup
  not_needed : OptimizationBackup

pub data AutoexecBackup : Type 0 where
  autoexec_created autoexec_retained : FilePath → AutoexecBackup
  autoexec_not_needed : AutoexecBackup

pub record Cs2ConfigWriteReport : Type 0 where
  pub optimization_path : FilePath
  pub autoexec_path : Option FilePath
  pub optimization_backup : OptimizationBackup
  pub autoexec_backup : AutoexecBackup
  pub autoexec_updated : Bool
  pub optional_assets_written : List FilePath

unfoldable pub component_eq : Component → Component → Bool
component_eq (normal a) (normal b) = text_eq a b
component_eq (prefix a) (prefix b) = text_eq a b
component_eq root_dir root_dir = true
component_eq cur_dir cur_dir = true
component_eq parent_dir parent_dir = true
component_eq _ _ = false

unfoldable pub path_eq : FilePath → FilePath → Bool
path_eq [] [] = true
path_eq (a ∷ p) (b ∷ q) = component_eq a b && path_eq p q
path_eq _ _ = false

-- `strip_prefix`
unfoldable pub strip_prefix : FilePath → FilePath → Option FilePath
strip_prefix [] p = some p
strip_prefix (a ∷ root) [] = none
strip_prefix (a ∷ root) (b ∷ p) =
    let rest = strip_prefix root p in if component_eq a b then rest else none

all_normal : FilePath → Bool
all_normal [] = true
all_normal (normal name ∷ p) = all_normal p
all_normal (_ ∷ p) = false

below : Option FilePath → Bool
below none = false
below (some relative) = not (is_empty relative) && all_normal relative

-- `assert_existing_path_safe` and `ensure_safe_target`
unfoldable pub ensure_safe_target : FilePath → FilePath → Result Cs2ConfigError (Unit {0})
unfolding below all_normal
ensure_safe_target root target =
    if below (strip_prefix root target) then ok tt else err (untrusted_path target)

abbrev pub cs2_directory : Text
cs2_directory = codes "Counter-Strike Global Offensive"

unfoldable pub validate_install : Cs2Install → Result Cs2ConfigError (Unit {0})
validate_install install =
    if path_eq install.install_root (
      joined (joined (joined install.library_root (codes "steamapps")) (codes "common"))
        cs2_directory)
    then ok tt
    else err invalid_binding

abbrev pub cs2_paths : FilePath → Cs2Paths
cs2_paths directory = record {
  cfg_directory = directory;
  optimization_path = joined directory (codes "optimization.cfg");
  optimization_backup_path = joined directory (codes "optimization.cfg.bak");
  autoexec_path = joined directory (codes "autoexec.cfg");
  autoexec_backup_path = joined directory (codes "autoexec.cfg.bak");
}

module _ {S : Type 0} where
  unfoldable pub paths : Cs2Install → Action S Cs2Paths
  paths install =
      let parent = joined (joined install.install_root (codes "game")) (codes "csgo") in
      do
        lift (validate_install install)
        lift (ensure_safe_target install.install_root parent)
        lift (ensure_safe_target install.install_root (joined parent (codes "cfg")))
        pure (cs2_paths (joined parent (codes "cfg")))

  -- `ensure_safe_target` for each of some targets.
  unfoldable pub ensure_safe_targets : FilePath → List FilePath → Action S (Unit {0})
  ensure_safe_targets root [] = pure tt
  ensure_safe_targets root (target ∷ rest) =
      lift (ensure_safe_target root target) >> ensure_safe_targets root rest

module _ {S : Type 0} (files : Cs2ConfigFs S) where
  unfoldable pub ensure_cfg_directory : FilePath → FilePath → Action S (Unit {0})
  ensure_cfg_directory root path = do
    calling (files.create_directory path) io
    lift (ensure_safe_target root path)

  -- A backup that was created is read back.
  abbrev pub optimization_backup_of :
      FilePath → Text → Result IoError (Unit {0}) → Action S OptimizationBackup
  optimization_backup_of path original (ok u) = do
    readback ← calling (files.read_file path) (mutation "optimization.cfg backup readback" none)
    ensured (text_eq readback original) (readback_mismatch path none)
    pure (created path)
  optimization_backup_of path original (err already_exists) = pure (retained path)
  optimization_backup_of path original (err e) =
      lift (err (mutation "optimization.cfg backup" none e))

  unfoldable pub create_optimization_backup : FilePath → Option Text → Action S OptimizationBackup
  create_optimization_backup path none = pure not_needed
  create_optimization_backup path (some original) =
      answered (files.create_file_new path original) >>= optimization_backup_of path original

  abbrev pub autoexec_backup_of :
      FilePath → Text → Result IoError (Unit {0}) → Action S AutoexecBackup
  autoexec_backup_of path original (ok u) = do
    readback ← calling (files.read_file path) (mutation "autoexec.cfg backup readback" none)
    ensured (text_eq readback original) (readback_mismatch path none)
    pure (autoexec_created path)
  autoexec_backup_of path original (err already_exists) = pure (autoexec_retained path)
  autoexec_backup_of path original (err e) = lift (err (mutation "autoexec.cfg backup" none e))

  unfoldable pub create_autoexec_backup : FilePath → Option Text → Bool → Action S AutoexecBackup
  create_autoexec_backup path original false = pure autoexec_not_needed
  create_autoexec_backup path none true = pure autoexec_not_needed
  create_autoexec_backup path (some original) true =
      answered (files.create_file_new path original) >>= autoexec_backup_of path original

abbrev pub backup_path : OptimizationBackup → Option FilePath
backup_path (created path) = some path
backup_path (retained path) = some path
backup_path not_needed = none
