-- ===== src/Cs2/Apply.antt =====
-- The operations of `Cs2ConfigController` of crates/frametime-domain/src/cs2_config.rs that write
-- and verify.
use cs2_opt.Prelude.{
  Bool, true, false, not, ◌&&◌, List, [], ◌∷◌, Option, none, some, Result, ok, err, map,
  if◌then◌else◌, ◌++◌,
}
use cs2_opt.Cs2.Files.{◌>>=◌, ◌>>◌, lift, calling, io, verify_bytes, readback_mismatch, ensured}
use cs2_opt.Prelude.Text.{Text, text_eq}
use cs2_opt.Cs2.Targets.{OptionalCfgAsset, file_name}
use cs2_opt.Cs2.Autoexec.{ensure_autoexec_line, render_optimization_cfg_at}
use cs2_opt.Cs2.Controller.{
  Cs2ConfigRequest, Cs2Paths, CfgAssetDeployment, Cs2Install, Cs2ConfigWriteReport, paths,
  ensure_cfg_directory, ensure_safe_target, create_optimization_backup, backup_path,
  ensure_safe_targets, create_autoexec_backup,
}
use cs2_opt.Cs2.Files.{
  Cs2ConfigFs, Cs2ConfigError, FilePath, autoexec_not_utf8, Action, pure, joined, read_optional,
  write_and_verify,
}

-- `bool::then_some`
abbrev pub if_some : Bool → FilePath → Option FilePath
if_some true path = some path
if_some false path = none

-- What the operations take from outside: `str::from_utf8`, `String::into_bytes` and the bytes of the
-- compiled files.
pub record Coding : Type 0 where
  pub from_utf8 : Text → Option Text
  pub into_bytes : Text → Text
  pub asset_bytes : OptionalCfgAsset → Text

-- `Option::unwrap_or_default`
abbrev pub text_or_empty : Option Text → Text
text_or_empty none = []
text_or_empty (some text) = text

module _ (coding : Coding) where
  unfoldable pub bytes_as_autoexec : Text → Result Cs2ConfigError Text
  bytes_as_autoexec bytes = elim (coding.from_utf8 bytes) [
    | none ↦ err autoexec_not_utf8
    | some text ↦ ok text
  ]

  -- `.as_deref().map(bytes_as_autoexec).transpose()?`
  abbrev pub decoded : Option Text → Result Cs2ConfigError (Option Text)
  decoded none = ok none
  decoded (some bytes) = elim (bytes_as_autoexec bytes) [ ok text ↦ ok (some text) | err e ↦ err e ]

  abbrev pub deployment : FilePath → OptionalCfgAsset → CfgAssetDeployment
  deployment directory asset = record {
    asset = asset;
    source_name = file_name asset;
    target = joined directory (file_name asset);
    bytes = coding.asset_bytes asset;
  }

  abbrev pub deployments_for_assets : Cs2Paths → List OptionalCfgAsset → List CfgAssetDeployment
  deployments_for_assets p assets = map (deployment p.cfg_directory) assets

  abbrev pub expected_optimization : Cs2ConfigRequest → Text
  expected_optimization request =
      coding.into_bytes (render_optimization_cfg_at request.generated_at)

  -- The bytes that `autoexec.cfg` must get, from its text before.
  abbrev pub expected_autoexec : Option Text → Text
  expected_autoexec before = coding.into_bytes (ensure_autoexec_line (text_or_empty before))

  -- `autoexec_before.is_none_or(|value| value.as_bytes() != expected)`
  abbrev pub differs : Option Text → Text → Bool
  differs none expected = true
  differs (some before) expected = not (text_eq (coding.into_bytes before) expected)

module _ (coding : Coding) where
  -- The targets that `apply` and `preview` check.
  abbrev pub checked_targets : Cs2Paths → Cs2ConfigRequest → List FilePath
  checked_targets p request =
      p.optimization_path
      ∷ p.optimization_backup_path
      ∷ ((if request.bootstrap_autoexec then p.autoexec_path ∷ p.autoexec_backup_path ∷ [] else [])
          ++ map (λ d. d.target) (deployments_for_assets coding p request.optional_assets))

module _ {S : Type 0} (files : Cs2ConfigFs S) where
  unfoldable pub write_deployments :
      Option FilePath → List CfgAssetDeployment → Action S (List FilePath)
  write_deployments recovery [] = pure []
  write_deployments recovery (d ∷ rest) = do
    write_and_verify files d.target d.bytes "optional CFG replacement" recovery
    written ← write_deployments recovery rest
    pure (d.target ∷ written)

  -- `if let Some(expected_autoexec) = expected_autoexec.filter(|_| autoexec_updated)`
  unfoldable pub replace_autoexec : Bool → FilePath → Text → Option FilePath → Action S (Unit {0})
  replace_autoexec true path expected recovery =
      write_and_verify files path expected "autoexec.cfg replacement" recovery
  replace_autoexec false path expected recovery = pure tt

  abbrev pub read_if : Bool → FilePath → Action S (Option Text)
  read_if true path = read_optional files path
  read_if false path = pure none

module _ {S : Type 0} (files : Cs2ConfigFs S) (coding : Coding) where
  -- What `apply` writes, once the targets are known to be safe.
  unfoldable pub apply_to : Cs2Paths → Cs2ConfigRequest → Action S Cs2ConfigWriteReport
  apply_to p request =
      let optional = deployments_for_assets coding p request.optional_assets in
      let bootstrap = request.bootstrap_autoexec in
      do
        original_optimization ← read_optional files p.optimization_path
        autoexec_original ← read_if files bootstrap p.autoexec_path
        autoexec_before ← lift (decoded coding autoexec_original)
        backup ← create_optimization_backup files p.optimization_backup_path original_optimization
        write_and_verify files p.optimization_path (expected_optimization coding request)
            "optimization.cfg replacement" (backup_path backup)
        autoexec_backup ←
            create_autoexec_backup files p.autoexec_backup_path autoexec_original (
              bootstrap
              && differs coding autoexec_before (expected_autoexec coding autoexec_before))
        replace_autoexec files
            (bootstrap && differs coding autoexec_before (expected_autoexec coding autoexec_before))
            p.autoexec_path (expected_autoexec coding autoexec_before) (backup_path backup)
        written ← write_deployments files (backup_path backup) optional
        pure (record {
          optimization_path = p.optimization_path;
          autoexec_path = if_some bootstrap p.autoexec_path;
          optimization_backup = backup;
          autoexec_backup = autoexec_backup;
          autoexec_updated =
              bootstrap
              && differs coding autoexec_before (expected_autoexec coding autoexec_before);
          optional_assets_written = written;
        })

  unfoldable pub apply : Cs2Install → Cs2ConfigRequest → Action S Cs2ConfigWriteReport
  unfolding apply_to
  apply install request = do
    p ← paths install
    ensure_cfg_directory files install.install_root p.cfg_directory
    ensure_safe_targets p.cfg_directory (checked_targets coding p request)
    apply_to p request

  verify_deployments : FilePath → List CfgAssetDeployment → Action S (Unit {0})
  verify_deployments root [] = pure tt
  verify_deployments root (d ∷ rest) = do
    lift (ensure_safe_target root d.target)
    verify_bytes files d.target d.bytes
    verify_deployments root rest

  verify_autoexec : Bool → FilePath → Action S (Unit {0})
  verify_autoexec false path = pure tt
  verify_autoexec true path = do
    bytes ← calling (files.read_file path) io
    autoexec ← lift (bytes_as_autoexec coding bytes)
    ensured (text_eq (ensure_autoexec_line autoexec) autoexec) (readback_mismatch path none)

  unfoldable pub verify : Cs2Install → Cs2ConfigRequest → Action S (Unit {0})
  unfolding verify_deployments verify_autoexec
  verify install request = do
    p ← paths install
    lift (ensure_safe_target p.cfg_directory p.optimization_path)
    ensure_safe_targets p.cfg_directory
        (if request.bootstrap_autoexec then p.autoexec_path ∷ p.autoexec_backup_path ∷ [] else [])
    verify_bytes files p.optimization_path (expected_optimization coding request)
    verify_autoexec request.bootstrap_autoexec p.autoexec_path
    verify_deployments p.cfg_directory (deployments_for_assets coding p request.optional_assets)
