-- ===== src/Witnesses/Files.antt =====
-- The game's configuration files, each property at one input.
use cs2_opt.Prelude.{◌≡◌, ◌⊎◌, refl, ok, some, none, [], ◌∷◌, ◌++◌, true, any, last}
use cs2_opt.Prelude.Text.{Text, codes, split_on, text_eq, to_ascii_lowercase, lower}
use cs2_opt.Cs2.Files.{FilePath, normal, prefix, joined, read_optional, write_and_verify}
use cs2_opt.Cs2.Apply.{
  Coding, apply, bytes_as_autoexec, apply_to, replace_autoexec, write_deployments,
}
use cs2_opt.Witnesses.Store.{Store, store, store_disk, find_file}
use cs2_opt.Cs2.Controller.{
  Cs2Install, Cs2ConfigWriteReport, Cs2ConfigRequest, path_eq, cs2_directory, component_eq,
  OptimizationBackup, ensure_safe_target, strip_prefix, autoexec_created, paths, validate_install,
  ensure_cfg_directory, ensure_safe_targets, create_optimization_backup, create_autoexec_backup,
}
use cs2_opt.Cs2.Written.{IsWritten, apply-writes}
use cs2_opt.Cs2.Targets.{
  file_name, autoexec, net_stable, from_cli_token, cli_token, debug_hud, target_file_name,
  target_file_name, from_optional_asset, optional_asset,
}
use cs2_opt.Cs2.Autoexec.{
  ensure_autoexec_line, lines, is_optimization_exec, trim_end_matches, is_whitespace,
  has_blank_final_line, ends_with_line_feed, is_optimization_exec, render_optimization_cfg_at,
  before_comment, new_autoexec, terminated, trim, trim_start,
}
use cs2_opt.Cs2.Safety.{autoexec_path, cfg_directory, autoexec_backup_path, apply-keeps_autoexec}
use cs2_opt.Cs2.Bootstrap.{ensure_autoexec_line_lem}
use cs2_opt.Cs2.Names.{targets_are_closed}

abbrev library : FilePath
library = prefix (codes "D:") ∷ normal (codes "Steam") ∷ []

abbrev pub install : Cs2Install
install = record {
  steam_root = library;
  library_root = library;
  install_root =
      joined (joined (joined library (codes "steamapps")) (codes "common")) cs2_directory;
}

-- Texts of ASCII characters, which are coded as they are.
abbrev coding : Coding
coding = record {
  from_utf8 = λ bytes. some bytes;
  into_bytes = λ text. text;
  asset_bytes = λ asset. file_name asset;
}

abbrev request : Cs2ConfigRequest
request = record {
  generated_at = codes "2026-08-23 12:34";
  optional_assets = net_stable ∷ debug_hud ∷ [];
  bootstrap_autoexec = true;
}

abbrev user_bytes : Text
user_bytes = codes "bind x y"

abbrev pub before : Store
before = (autoexec_path install, user_bytes) ∷ []

autoexec_is_there : find_file (autoexec_path install) before ≡ some user_bytes
unfolding find_file path_eq component_eq text_eq
autoexec_is_there = refl

no_backup_yet : find_file (autoexec_backup_path install) before ≡ none
unfolding find_file path_eq component_eq text_eq
no_backup_yet = refl

apply-keeps_autoexec_example :
    (store_disk.content (apply store coding install request before).1 (autoexec_path install)
      ≡ some user_bytes)
    ⊎ (store_disk.content
          (apply store coding install request before).1
          (autoexec_backup_path install)
        ≡ some user_bytes)
apply-keeps_autoexec_example =
    apply-keeps_autoexec store_disk coding install request user_bytes before autoexec_is_there
      no_backup_yet

abbrev report : Cs2ConfigWriteReport
report = record {
  optimization_path = joined (cfg_directory install) (codes "optimization.cfg");
  autoexec_path = some (autoexec_path install);
  optimization_backup = OptimizationBackup.not_needed;
  autoexec_backup = autoexec_created (autoexec_backup_path install);
  autoexec_updated = true;
  optional_assets_written =
      joined (cfg_directory install) (file_name net_stable)
      ∷ joined (cfg_directory install) (file_name debug_hud)
      ∷ [];
}

apply_ends_well : (apply store coding install request before).0 ≡ ok report
unfolding apply paths validate_install path_eq component_eq text_eq ensure_safe_target strip_prefix
    ensure_cfg_directory ensure_safe_targets read_optional find_file bytes_as_autoexec
    create_optimization_backup write_and_verify render_optimization_cfg_at create_autoexec_backup
    ensure_autoexec_line apply_to replace_autoexec write_deployments before_comment
    ends_with_line_feed has_blank_final_line is_optimization_exec is_whitespace lines new_autoexec
    terminated trim trim_end_matches trim_start file_name any last lower split_on to_ascii_lowercase
apply_ends_well = refl

apply-writes_example :
    IsWritten store_disk coding
      (cfg_directory install)
      request
      (apply store coding install request before).1
apply-writes_example = apply-writes store_disk coding install request report before apply_ends_well

ensure_autoexec_line_lem_example :
    ((t : Text) × (ensure_autoexec_line user_bytes ≡ user_bytes ++ t))
    × (any is_optimization_exec (lines (ensure_autoexec_line user_bytes)) ≡ true)
    × (ensure_autoexec_line (ensure_autoexec_line user_bytes) ≡ ensure_autoexec_line user_bytes)
ensure_autoexec_line_lem_example = ensure_autoexec_line_lem user_bytes

-- The source's own test.
ensure_adds_line :
    ensure_autoexec_line user_bytes
    ≡ user_bytes ++ (10 ∷ (10 ∷ (codes "exec optimization.cfg" ++ (10 ∷ []))))
unfolding ensure_autoexec_line any lines split_on is_optimization_exec text_eq to_ascii_lowercase
    trim_end_matches is_whitespace has_blank_final_line ends_with_line_feed last
ensure_adds_line = refl

targets_are_closed_example :
    (autoexec ≡ autoexec)
    × (from_cli_token (cli_token net_stable) ≡ some net_stable)
    × (target_file_name (from_optional_asset net_stable) ≡ file_name net_stable)
    × (optional_asset (from_optional_asset net_stable) ≡ some net_stable)
targets_are_closed_example = targets_are_closed net_stable autoexec autoexec refl
