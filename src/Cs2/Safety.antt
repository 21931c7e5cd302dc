-- ===== src/Cs2/Safety.antt =====
-- The user's `autoexec.cfg` under `apply` of crates/frametime-domain/src/cs2_config.rs.
use mathlib.Core.Path.{subst}
use cs2_opt.Prelude.{
  ◌≡◌, ◌⊎◌, inl, inr, Bool, true, false, some, refl, Option, arith, sym, ◌&&◌, none, Result,
}
use cs2_opt.Prelude.Text.{Text, codes, text_eq, text_eq}
use cs2_opt.Cs2.Files.{◌>>◌, Cs2ConfigFs, FilePath, joined, Cs2ConfigError, lift}
use cs2_opt.Cs2.Controller.{
  Cs2Install, create_autoexec_backup, Cs2ConfigRequest, cs2_paths, Cs2Paths, backup_path, paths,
  ensure_cfg_directory, validate_install, ensure_safe_target, ensure_safe_targets,
}
use cs2_opt.Cs2.Contract.{
  Disk, Contract, weaken-Contract, bind-Contract, assume-Contract, then-Contract, either_way,
}
use cs2_opt.Cs2.Backups.{
  Safe, Start, read_optional-known, Saved, keep_backup, keep_pair, create_autoexec_backup-Saved,
  keep_either,
}
use cs2_opt.Cs2.Apply.{
  read_if, Coding, replace_autoexec, apply_to, decoded, expected_autoexec, differs,
  expected_optimization, deployments_for_assets, apply, checked_targets,
}
use cs2_opt.Cs2.Spares.{
  write_and_verify-Spares, read_optional-Spares, lift-Spares, create_optimization_backup-Spares,
  write_deployments-Spares, ensure_cfg_directory-Spares, ensure_safe_targets-Spares,
}
use cs2_opt.Cs2.Apart.{joined-apart, deployments-apart, autoexec_unused, autoexec_backup_unused}

-- Where `apply` keeps the files of an install.
abbrev pub cfg_directory : Cs2Install → FilePath
cfg_directory install =
    joined (joined (joined install.install_root (codes "game")) (codes "csgo")) (codes "cfg")

abbrev pub autoexec_path : Cs2Install → FilePath
autoexec_path install = joined (cfg_directory install) (codes "autoexec.cfg")

abbrev pub autoexec_backup_path : Cs2Install → FilePath
autoexec_backup_path install = joined (cfg_directory install) (codes "autoexec.cfg.bak")

module _ {S : Type 0} {files : Cs2ConfigFs S} (disk : Disk files) (d : FilePath) (b : Text) where
  abbrev f : FilePath
  f = joined d (codes "autoexec.cfg")

  abbrev g : FilePath
  g = joined d (codes "autoexec.cfg.bak")

  -- The file is known unless it is not read.
  read_if-known :
      (bootstrap : Bool)
      → Contract
          (Safe disk f g b)
          (Start disk f g b)
          (read_if files bootstrap f)
          (λ o s. Start disk f g b s × ((bootstrap ≡ false) ⊎ (o ≡ some b)))
  read_if-known true =
      weaken-Contract (λ s p. p) (λ a s q. (q.0, inr q.1)) (read_optional-known disk f g b)
  read_if-known false = record { run = λ s p. (p, inl refl) }

  abbrev Between : Bool → S → Type 0
  Between updated s = ((updated ≡ false) × Start disk f g b s) ⊎ Saved disk f g b s

  backup_step :
      (updated : Bool) (original : Option Text)
      → (updated ≡ false) ⊎ (original ≡ some b)
      → Contract
          (Safe disk f g b)
          (Start disk f g b)
          (create_autoexec_backup files g original updated)
          (λ _. Between updated)
  unfolding create_autoexec_backup text_eq
  backup_step false original known = record { run = λ s p. inl (refl, p) }
  backup_step true original (inl never) = ground arith
  backup_step true original (inr known) =
      subst
        (λ o.
          Contract (Safe disk f g b) (Start disk f g b) (create_autoexec_backup files g o true)
            (λ _. Between true))
        (sym known)
        (weaken-Contract (λ s p. p) (λ a s q. inr q)
          (create_autoexec_backup-Saved disk f g b
            (joined-apart d (codes "autoexec.cfg.bak") (codes "autoexec.cfg") refl)))

  replace_step :
      (updated : Bool) (expected : Text) (recovery : Option FilePath)
      → Contract
          (Safe disk f g b)
          (Between updated)
          (replace_autoexec files updated f expected recovery)
          (λ _. Safe disk f g b)
  unfolding replace_autoexec text_eq
  replace_step true expected recovery =
      weaken-Contract (λ s p. elim p [ inl q ↦ absurd (ground (arith, q.0)) | inr q ↦ q ])
        (λ a s q. inr q)
        (keep_backup disk f g b (
          write_and_verify-Spares disk f expected "autoexec.cfg replacement" recovery
            (joined-apart d (codes "autoexec.cfg") (codes "autoexec.cfg.bak") refl)))
  replace_step false expected recovery = record {
    run = λ s p. elim p [ inl q ↦ inl q.1.0 | inr q ↦ inr q ];
  }

module _ {S : Type 0} {files : Cs2ConfigFs S} (disk : Disk files) (coding : Coding) (d : FilePath)
    (b : Text) where
  abbrev f' : FilePath
  f' = joined d (codes "autoexec.cfg")

  abbrev g' : FilePath
  g' = joined d (codes "autoexec.cfg.bak")

  apply_to-Safe :
      (request : Cs2ConfigRequest)
      → Contract
          (Safe disk f' g' b)
          (Start disk f' g' b)
          (apply_to files coding (cs2_paths d) request)
          (λ _. Safe disk f' g' b)
  unfolding apply_to text_eq
  apply_to-Safe request =
      let p : Cs2Paths = cs2_paths d in
      let bootstrap : Bool = request.bootstrap_autoexec in
      bind-Contract
        (keep_pair disk f' g' b (read_optional-Spares disk p.optimization_path)
          (read_optional-Spares disk p.optimization_path))
        (λ optimization. bind-Contract (read_if-known disk d b bootstrap) (λ original.
          assume-Contract (λ known.
            bind-Contract
              (keep_pair disk f' g' b (lift-Spares (decoded coding original))
                (lift-Spares (decoded coding original)))
              (λ before.
                let expected : Text = expected_autoexec coding before in
                let updated : Bool = bootstrap && differs coding before expected in
                bind-Contract
                  (keep_pair disk f' g' b
                    (create_optimization_backup-Spares disk p.optimization_backup_path optimization
                      (joined-apart d (codes "optimization.cfg.bak") (codes "autoexec.cfg") refl))
                    (create_optimization_backup-Spares disk p.optimization_backup_path optimization
                      (joined-apart d (codes "optimization.cfg.bak") (codes "autoexec.cfg.bak")
                        refl)))
                  (λ backup.
                    let recovery : Option FilePath = backup_path backup in
                    let generated : Text = expected_optimization coding request in
                    then-Contract
                      (keep_pair disk f' g' b
                        (write_and_verify-Spares disk p.optimization_path generated
                          "optimization.cfg replacement" recovery
                          (joined-apart d (codes "optimization.cfg") (codes "autoexec.cfg") refl))
                        (write_and_verify-Spares disk p.optimization_path generated
                          "optimization.cfg replacement" recovery
                          (joined-apart d (codes "optimization.cfg") (codes "autoexec.cfg.bak")
                            refl)))
                      (bind-Contract (backup_step disk d b updated original (ground arith))
                        (λ autoexec_backup.
                          then-Contract (replace_step disk d b updated expected recovery) (
                            bind-Contract
                              (keep_either disk f' g' b
                                (write_deployments-Spares disk recovery
                                  (deployments_for_assets coding p request.optional_assets)
                                  (deployments-apart coding p request.optional_assets
                                    (codes "autoexec.cfg") autoexec_unused))
                                (write_deployments-Spares disk recovery
                                  (deployments_for_assets coding p request.optional_assets)
                                  (deployments-apart coding p request.optional_assets
                                    (codes "autoexec.cfg.bak") autoexec_backup_unused)))
                              (λ written. record { run = λ s q. q })))))))))

  paths-Start :
      (install : Cs2Install)
      → Contract
          (Safe disk f' g' b)
          (Start disk f' g' b)
          (paths install)
          (λ p s. Start disk f' g' b s × (p ≡ cs2_paths (cfg_directory install)))
  unfolding paths
  paths-Start install =
      let game : FilePath = joined (joined install.install_root (codes "game")) (codes "csgo") in
      then-Contract (lifted (validate_install install)) (
        then-Contract (lifted (ensure_safe_target install.install_root game)) (
          then-Contract (lifted (ensure_safe_target install.install_root (cfg_directory install)))
            (record { run = λ s q. (q, refl) })))
    where
      lifted :
          (r : Result Cs2ConfigError (Unit {0}))
          → Contract (Safe disk f' g' b) (Start disk f' g' b) (lift r) (λ _. Start disk f' g' b)
      lifted r = keep_pair disk f' g' b (lift-Spares r) (lift-Spares r)

module _ {S : Type 0} {files : Cs2ConfigFs S} (disk : Disk files) (coding : Coding)
    (install : Cs2Install) (b : Text) where
  abbrev file : FilePath
  file = autoexec_path install

  abbrev saved : FilePath
  saved = autoexec_backup_path install

  apply-Safe :
      (request : Cs2ConfigRequest)
      → Contract
          (Safe disk file saved b)
          (Start disk file saved b)
          (apply files coding install request)
          (λ _. Safe disk file saved b)
  unfolding apply
  apply-Safe request =
      let d : FilePath = cfg_directory install in
      bind-Contract (paths-Start disk coding d b install) (λ p. assume-Contract (λ known.
        subst
          (λ q.
            Contract (Safe disk file saved b) (Start disk file saved b)
              (ensure_cfg_directory files install.install_root q.cfg_directory
                >> (ensure_safe_targets q.cfg_directory (checked_targets coding q request)
                    >> apply_to files coding q request))
              (λ _. Safe disk file saved b))
          (sym known)
          (then-Contract
            (keep_pair disk file saved b (ensure_cfg_directory-Spares disk install.install_root d)
              (ensure_cfg_directory-Spares disk install.install_root d))
            (then-Contract
              (keep_pair disk file saved b
                (ensure_safe_targets-Spares disk d (checked_targets coding (cs2_paths d) request))
                (ensure_safe_targets-Spares disk d (checked_targets coding (cs2_paths d) request)))
              (apply_to-Safe disk coding d b request)))))

-- If `autoexec.cfg` holds some bytes and has no backup, then after `apply`, whether it ends well or
-- with an error, the bytes are in `autoexec.cfg` or in its backup.
pub apply-keeps_autoexec :
    {S : Type 0} {files : Cs2ConfigFs S} (disk : Disk files) (coding : Coding)
    (install : Cs2Install) (request : Cs2ConfigRequest) (b : Text) (s : S)
    → disk.content s (autoexec_path install) ≡ some b
    → disk.content s (autoexec_backup_path install) ≡ none
    → (disk.content (apply files coding install request s).1 (autoexec_path install) ≡ some b)
      ⊎ (disk.content (apply files coding install request s).1 (autoexec_backup_path install)
          ≡ some b)
apply-keeps_autoexec disk coding install request b s here none_yet =
    either_way (apply-Safe disk coding install b request) s (here, none_yet)
