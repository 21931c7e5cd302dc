-- ===== src/Cs2/Assets.antt =====
-- The operations of `Cs2ConfigController` of crates/frametime-domain/src/cs2_config.rs on the optional
-- files alone, and `preview`.
use cs2_opt.Prelude.{Bool, true, false, not, ◌&&◌, List, [], ◌∷◌, Option, none, some, map, is_empty}
use cs2_opt.Prelude.Text.{Text, text_eq}
use cs2_opt.Cs2.Files.{
  ◌>>=◌, ◌>>◌, FilePath, Cs2ConfigFs, Action, pure, lift, ensured, read_optional,
  empty_optional_selection, verify_bytes, write_and_verify, precondition_mismatch, invalid_binding,
}
use cs2_opt.Cs2.Apply.{
  Coding, deployments_for_assets, checked_targets, read_if, decoded, if_some, expected_optimization,
  text_or_empty,
}
use cs2_opt.Cs2.Controller.{
  CfgAssetDeployment, Cs2Install, Cs2ConfigRequest, ensure_safe_target, paths, ensure_safe_targets,
  ensure_cfg_directory,
}
use cs2_opt.Cs2.Restore.{Snapshot, same_targets}
use cs2_opt.Cs2.Targets.{OptionalCfgAsset, from_optional_asset}
use cs2_opt.Cs2.Autoexec.{ensure_autoexec_line}

bytes_eq : Option Text → Option Text → Bool
bytes_eq none none = true
bytes_eq (some a) (some b) = text_eq a b
bytes_eq _ _ = false

pub record Cs2ConfigPreview : Type 0 where
  pub cfg_directory : FilePath
  pub optimization_path : FilePath
  pub autoexec_path : Option FilePath
  pub autoexec_backup_path : Option FilePath
  pub optimization_bytes : Text
  pub autoexec_would_change : Bool
  pub optional_assets : List CfgAssetDeployment

module _ {S : Type 0} (files : Cs2ConfigFs S) (coding : Coding) where
  unfoldable pub preview : Cs2Install → Cs2ConfigRequest → Action S Cs2ConfigPreview
  preview install request =
      let bootstrap = request.bootstrap_autoexec in
      do
        p ← paths install
        ensure_safe_targets p.cfg_directory (checked_targets coding p request)
        existing ← read_if files bootstrap p.autoexec_path
        before ← lift (decoded coding existing)
        pure (record {
          cfg_directory = p.cfg_directory;
          optimization_path = p.optimization_path;
          autoexec_path = if_some bootstrap p.autoexec_path;
          autoexec_backup_path = if_some bootstrap p.autoexec_backup_path;
          optimization_bytes = expected_optimization coding request;
          autoexec_would_change =
              bootstrap
              && not (text_eq (ensure_autoexec_line (text_or_empty before)) (text_or_empty before));
          optional_assets = deployments_for_assets coding p request.optional_assets;
        })

  write_checked : FilePath → List CfgAssetDeployment → Action S (List FilePath)
  write_checked root [] = pure []
  write_checked root (d ∷ rest) = do
    lift (ensure_safe_target root d.target)
    write_and_verify files d.target d.bytes "optional CFG replacement" none
    written ← write_checked root rest
    pure (d.target ∷ written)

  unfoldable pub apply_optional_assets :
      Cs2Install → List OptionalCfgAsset → Action S (List FilePath)
  unfolding write_checked
  apply_optional_assets install assets = do
    ensured (not (is_empty assets)) empty_optional_selection
    p ← paths install
    ensure_cfg_directory files install.install_root p.cfg_directory
    write_checked p.cfg_directory (deployments_for_assets coding p assets)

  verify_checked : FilePath → List CfgAssetDeployment → Action S (Unit {0})
  verify_checked root [] = pure tt
  verify_checked root (d ∷ rest) = do
    lift (ensure_safe_target root d.target)
    verify_bytes files d.target d.bytes
    verify_checked root rest

  unfoldable pub verify_optional_assets : Cs2Install → List OptionalCfgAsset → Action S (Unit {0})
  unfolding verify_checked
  verify_optional_assets install assets = do
    ensured (not (is_empty assets)) empty_optional_selection
    p ← paths install
    verify_checked p.cfg_directory (deployments_for_assets coding p assets)

  -- The deployments beside what was captured of their targets.
  write_unchanged : FilePath → List CfgAssetDeployment → List Snapshot → Action S (List FilePath)
  unfolding bytes_eq
  write_unchanged root (d ∷ rest) ((t, original) ∷ snapshots) = do
    lift (ensure_safe_target root d.target)
    now ← read_optional files d.target
    ensured (bytes_eq now original) (precondition_mismatch d.target)
    write_and_verify files d.target d.bytes "optional CFG replacement" none
    written ← write_unchanged root rest snapshots
    pure (d.target ∷ written)
  write_unchanged root _ _ = pure []

  unfoldable pub apply_optional_assets_if_unchanged :
      Cs2Install → List OptionalCfgAsset → List Snapshot → Action S (List FilePath)
  unfolding write_unchanged
  apply_optional_assets_if_unchanged install assets snapshots = do
    ensured (not (is_empty assets)) empty_optional_selection
    p ← paths install
    ensure_cfg_directory files install.install_root p.cfg_directory
    ensured (same_targets (map from_optional_asset assets) (map (λ (t : Snapshot). t.0) snapshots))
        invalid_binding
    write_unchanged p.cfg_directory (deployments_for_assets coding p assets) snapshots
