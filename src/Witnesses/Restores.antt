-- ===== src/Witnesses/Restores.antt =====
-- The restore of captured game configuration files.
use cs2_opt.Prelude.{◌≡◌, refl, ok, some, none, List, [], ◌∷◌, true, false, last}
use cs2_opt.Prelude.Text.{codes, text_eq}
use cs2_opt.Cs2.Files.{FilePath, read_optional, write_and_verify}
use cs2_opt.Cs2.Controller.{
  Cs2ConfigRequest, path_eq, component_eq, ensure_safe_target, strip_prefix, paths,
  validate_install, ensure_safe_targets,
}
use cs2_opt.Cs2.Restore.{
  Snapshot, restore_targets, same_targets, restore_all, parent, restore_one, zipped, bound_targets,
  for_request, restore, request_new, valid_timestamp, backup_targets,
}
use cs2_opt.Cs2.Targets.{
  Cs2ConfigTarget, optimization, autoexec, net_stable, debug_hud, on_net_stable, on_debug_hud,
  target_file_name, from_optional_asset, collected_assets, insert_asset,
}
use cs2_opt.Cs2.Restored.{AreRestored, AreDistinct, restore_targets-restores}
use cs2_opt.Cs2.Request.{restore-request_new}
use cs2_opt.Cs2.Safety.{cfg_directory}
use cs2_opt.Cs2.Apart.{joined-apart}
use cs2_opt.Witnesses.Store.{store, store_disk, find_file, delete_file}
use cs2_opt.Witnesses.Files.{install, before}

abbrev targets : List (Cs2ConfigTarget × FilePath)
targets = bound_targets (cfg_directory install) (optimization ∷ autoexec ∷ [])

abbrev snapshots : List Snapshot
snapshots = (optimization, some (codes "old")) ∷ (autoexec, none) ∷ []

restore_ends_well : (restore_targets store targets snapshots before).0 ≡ ok tt
unfolding restore_targets same_targets text_eq target_file_name restore_all zipped parent last
    ensure_safe_target strip_prefix component_eq restore_one read_optional find_file delete_file
    path_eq write_and_verify
restore_ends_well = refl

distinct : AreDistinct targets
unfolding target_file_name text_eq
distinct = (
  (joined-apart (cfg_directory install) (codes "autoexec.cfg") (codes "optimization.cfg") refl, tt),
  (tt, tt),
)

restore_targets-restores_example :
    AreRestored store_disk (restore_targets store targets snapshots before).1 targets snapshots
restore_targets-restores_example =
    restore_targets-restores store_disk targets snapshots before distinct restore_ends_well

abbrev made : Cs2ConfigRequest
made = record {
  generated_at = codes "2026-08-23 12:34";
  optional_assets = net_stable ∷ debug_hud ∷ [];
  bootstrap_autoexec = false;
}

abbrev with_autoexec : Cs2ConfigRequest
with_autoexec = record made { bootstrap_autoexec = true }

-- Each asset is named once, in order.
request_is_made :
    request_new (codes "2026-08-23 12:34") (debug_hud ∷ net_stable ∷ debug_hud ∷ []) ≡ ok made
unfolding request_new valid_timestamp collected_assets insert_asset
request_is_made = refl

abbrev captured : List Snapshot
captured =
    (optimization, some (codes "old"))
    ∷ (autoexec, none)
    ∷ (on_net_stable, none)
    ∷ (on_debug_hud, some (codes "hud"))
    ∷ []

restore_of_request_ends_well : (restore store install with_autoexec captured before).0 ≡ ok tt
unfolding restore backup_targets for_request from_optional_asset paths validate_install
    ensure_safe_targets restore_targets same_targets text_eq target_file_name restore_all zipped
    parent last ensure_safe_target strip_prefix component_eq restore_one read_optional find_file
    delete_file path_eq write_and_verify
restore_of_request_ends_well = refl

restore-request_new_example :
    AreRestored store_disk
      (restore store install with_autoexec captured before).1
      (bound_targets (cfg_directory install) (for_request with_autoexec))
      captured
restore-request_new_example =
    restore-request_new store_disk install (codes "2026-08-23 12:34")
      (debug_hud ∷ net_stable ∷ debug_hud ∷ []) true made with_autoexec captured before
      request_is_made refl restore_of_request_ends_well
