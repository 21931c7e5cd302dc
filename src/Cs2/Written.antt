-- ===== src/Cs2/Written.antt =====
-- What the files hold after `apply` of crates/frametime-domain/src/cs2_config.rs ended well.
use mathlib.Core.Path.{subst}
use cs2_opt.Prelude.{[], ◌∷◌, ◌≡◌, Bool, true, false, Option, some, ok, refl, List, All, sym, ◌&&◌}
use cs2_opt.Prelude.Text.{Text, text_eq, text_eq_iff, codes}
use cs2_opt.Cs2.Files.{
  ◌>>◌, Cs2ConfigFs, write_and_verify, Action, FilePath, joined, read_optional, lift,
}
use cs2_opt.Cs2.Contract.{
  Disk, Contract, then-Contract, bind-Contract, weaken-Contract, assume-Contract, on_success,
}
use cs2_opt.Cs2.Spares.{
  write_and_verify-Spares, create_autoexec_backup-Spares, replace_autoexec-Spares,
  write_deployments-Spares,
}
use cs2_opt.Cs2.Apply.{
  Coding, write_deployments, deployments_for_assets, expected_optimization, apply_to, apply,
  read_if, decoded, expected_autoexec, differs, checked_targets,
}
use cs2_opt.Cs2.Targets.{OptionalCfgAsset, file_name}
use cs2_opt.Cs2.Controller.{
  Cs2ConfigRequest, cs2_paths, Cs2Install, create_autoexec_backup, Cs2ConfigWriteReport, Cs2Paths,
  create_optimization_backup, backup_path, paths, ensure_cfg_directory, validate_install,
  ensure_safe_targets, ensure_safe_target,
}
use cs2_opt.Cs2.Names.{file_name-injective}
use cs2_opt.Cs2.Apart.{joined-apart, deployments-apart, optimization_unused}
use cs2_opt.Cs2.Safety.{cfg_directory}
use cs2_opt.Cs2.Holds.{Any, write_and_verify-Holds, whatever, both-Contract, keep_bytes}

module _ {S : Type 0} {files : Cs2ConfigFs S} (disk : Disk files) (coding : Coding)
    (d : FilePath) where
  -- The file of an asset holds the asset's bytes.
  abbrev pub IsDeployed : S → OptionalCfgAsset → Type 0
  IsDeployed s asset = disk.content s (joined d (file_name asset)) ≡ some (coding.asset_bytes asset)

  abbrev write_asset : Option FilePath → OptionalCfgAsset → Action S (Unit {0})
  write_asset recovery asset =
      write_and_verify files (joined d (file_name asset)) (coding.asset_bytes asset)
        "optional CFG replacement" recovery

  write_asset-keeps :
      (recovery : Option FilePath) (asset next : OptionalCfgAsset)
      → Contract
          (Any disk)
          (λ s. IsDeployed s asset)
          (write_asset recovery next)
          (λ _ s. IsDeployed s asset)
  write_asset-keeps recovery asset next = go (text_eq (file_name next) (file_name asset)) refl
    where
      go :
          (same : Bool)
          → text_eq (file_name next) (file_name asset) ≡ same
          → Contract
              (Any disk)
              (λ s. IsDeployed s asset)
              (write_asset recovery next)
              (λ _ s. IsDeployed s asset)
      go true e =
          subst
            (λ a.
              Contract (Any disk) (λ s. IsDeployed s asset) (write_asset recovery a)
                (λ _ s. IsDeployed s asset))
            (sym (
              file_name-injective next asset
                ((text_eq_iff (file_name next) (file_name asset)).0 e)))
            (write_and_verify-Holds disk (joined d (file_name asset)) (coding.asset_bytes asset)
              "optional CFG replacement" recovery)
      go false e = keep_bytes disk (joined d (file_name asset)) (coding.asset_bytes asset) (
          write_and_verify-Spares disk (joined d (file_name next)) (coding.asset_bytes next)
            "optional CFG replacement" recovery
            (joined-apart d (file_name next) (file_name asset) e))

  write_deployments-keeps :
      (recovery : Option FilePath) (asset : OptionalCfgAsset) (assets : List OptionalCfgAsset)
      → Contract
          (Any disk)
          (λ s. IsDeployed s asset)
          (write_deployments files recovery (deployments_for_assets coding (cs2_paths d) assets))
          (λ _ s. IsDeployed s asset)
  unfolding write_deployments
  write_deployments-keeps recovery asset [] = record { run = λ s h. h }
  write_deployments-keeps recovery asset (next ∷ assets) =
      then-Contract (write_asset-keeps recovery asset next) (
        bind-Contract (write_deployments-keeps recovery asset assets)
          (λ written. record { run = λ s h. h }))

  write_deployments-Holds :
      (recovery : Option FilePath) (assets : List OptionalCfgAsset)
      → Contract
          (Any disk)
          (Any disk)
          (write_deployments files recovery (deployments_for_assets coding (cs2_paths d) assets))
          (λ _ s. All (IsDeployed s) assets)
  unfolding write_deployments
  write_deployments-Holds recovery [] = record { run = λ s h. tt }
  write_deployments-Holds recovery (asset ∷ assets) =
      then-Contract
        (write_and_verify-Holds disk (joined d (file_name asset)) (coding.asset_bytes asset)
          "optional CFG replacement" recovery)
        (bind-Contract
          (weaken-Contract (λ s h. (h, tt)) (λ a s q. q)
            (both-Contract disk (write_deployments-keeps recovery asset assets)
              (write_deployments-Holds recovery assets)))
          (λ written. record { run = λ s h. h }))

  -- What the files hold at the end.
  abbrev pub IsWritten : Cs2ConfigRequest → S → Type 0
  IsWritten request s =
      (disk.content s (joined d (codes "optimization.cfg"))
        ≡ some (expected_optimization coding request))
      × All (IsDeployed s) request.optional_assets

  apply_to-Written :
      (request : Cs2ConfigRequest)
      → Contract
          (Any disk)
          (Any disk)
          (apply_to files coding (cs2_paths d) request)
          (λ _. IsWritten request)
  unfolding apply_to create_autoexec_backup text_eq
  apply_to-Written request =
      let p : Cs2Paths = cs2_paths d in
      let bootstrap : Bool = request.bootstrap_autoexec in
      let generated : Text = expected_optimization coding request in
      bind-Contract (whatever disk (read_optional files p.optimization_path)) (λ optimization.
        bind-Contract (whatever disk (read_if files bootstrap p.autoexec_path)) (λ original.
          bind-Contract (whatever disk (lift (decoded coding original))) (λ before.
            let expected : Text = expected_autoexec coding before in
            let updated : Bool = bootstrap && differs coding before expected in
            bind-Contract
              (whatever disk
                (create_optimization_backup files p.optimization_backup_path optimization))
              (λ backup.
                let recovery : Option FilePath = backup_path backup in
                then-Contract
                  (write_and_verify-Holds disk p.optimization_path generated
                    "optimization.cfg replacement" recovery)
                  (bind-Contract
                    (keep_bytes disk p.optimization_path generated (
                      create_autoexec_backup-Spares disk p.autoexec_backup_path original updated (
                        joined-apart d (codes "autoexec.cfg.bak") (codes "optimization.cfg") refl)))
                    (λ autoexec_backup.
                      then-Contract
                        (keep_bytes disk p.optimization_path generated (
                          replace_autoexec-Spares disk updated p.autoexec_path expected recovery (
                            joined-apart d (codes "autoexec.cfg") (codes "optimization.cfg") refl)))
                        (bind-Contract
                          (weaken-Contract (λ s h. (h, tt)) (λ a s q. q)
                            (both-Contract disk
                              (keep_bytes disk p.optimization_path generated (
                                write_deployments-Spares disk recovery
                                  (deployments_for_assets coding p request.optional_assets)
                                  (deployments-apart coding p request.optional_assets
                                    (codes "optimization.cfg") optimization_unused)))
                              (write_deployments-Holds recovery request.optional_assets)))
                          (λ written. record { run = λ s h. h }))))))))

module _ {S : Type 0} {files : Cs2ConfigFs S} (disk : Disk files) (install : Cs2Install) where
  pub paths-Any :
      Contract
        (Any disk)
        (Any disk)
        (paths install)
        (λ p s. Any disk s × (p ≡ cs2_paths (cfg_directory install)))
  unfolding paths
  paths-Any =
      let game : FilePath = joined (joined install.install_root (codes "game")) (codes "csgo") in
      then-Contract (whatever disk (lift (validate_install install))) (
        then-Contract (whatever disk (lift (ensure_safe_target install.install_root game))) (
          then-Contract
            (whatever disk (lift (ensure_safe_target install.install_root (cfg_directory install))))
            (record { run = λ s q. (tt, refl) })))

module _ {S : Type 0} {files : Cs2ConfigFs S} (disk : Disk files) (coding : Coding)
    (install : Cs2Install) where
  apply-Written :
      (request : Cs2ConfigRequest)
      → Contract
          (Any disk)
          (Any disk)
          (apply files coding install request)
          (λ _. IsWritten disk coding (cfg_directory install) request)
  unfolding apply
  apply-Written request =
      let d : FilePath = cfg_directory install in
      bind-Contract (paths-Any disk install) (λ p. assume-Contract (λ known.
        subst
          (λ q.
            Contract (Any disk) (Any disk)
              (ensure_cfg_directory files install.install_root q.cfg_directory
                >> (ensure_safe_targets q.cfg_directory (checked_targets coding q request)
                    >> apply_to files coding q request))
              (λ _. IsWritten disk coding d request))
          (sym known)
          (then-Contract (whatever disk (ensure_cfg_directory files install.install_root d)) (
            then-Contract
              (whatever disk (ensure_safe_targets d (checked_targets coding (cs2_paths d) request)))
              (apply_to-Written disk coding d request)))))

-- When `apply` ends well, `optimization.cfg` holds the generated bytes and the file of each selected
-- asset holds the asset's bytes.
pub apply-writes :
    {S : Type 0} {files : Cs2ConfigFs S} (disk : Disk files) (coding : Coding)
    (install : Cs2Install) (request : Cs2ConfigRequest) (report : Cs2ConfigWriteReport) (s : S)
    → (apply files coding install request s).0 ≡ ok report
    → IsWritten disk coding (cfg_directory install) request (apply files coding install request s).1
apply-writes disk coding install request report s h =
    on_success (apply-Written disk coding install request) s report tt h
