-- ===== src/Cs2/Spares.antt =====
-- Which files the actions of crates/frametime-domain/src/cs2_config.rs leave as they are.
use cs2_opt.Prelude.{
  ◌≡◌, ◌≢◌, ◌∙◌, Bool, true, false, List, [], ◌∷◌, Option, none, some, Result, ok, err, refl,
  String, All,
}
use cs2_opt.Prelude.Text.{Text, text_eq}
use cs2_opt.Cs2.Files.{
  other, not_found, already_exists, ◌>>=◌, Cs2ConfigFs, FilePath, read_optional, Action,
  write_and_verify, IoError, Cs2ConfigError, pure, after, lift, calling, ensured, io, answered,
  mutation, readback_mismatch,
}
use cs2_opt.Cs2.Contract.{Disk}
use cs2_opt.Cs2.Controller.{
  not_needed, ensure_safe_targets, create_optimization_backup, ensure_cfg_directory,
  CfgAssetDeployment, optimization_backup_of, created, retained, ensure_safe_target,
  create_autoexec_backup, autoexec_backup_of, autoexec_created, autoexec_not_needed,
  autoexec_retained,
}
use cs2_opt.Cs2.Apply.{write_deployments, read_if, replace_autoexec}

module _ {S : Type 0} {files : Cs2ConfigFs S} (disk : Disk files) where
  -- An action leaves a file as it is, however it ends.
  pub record Spares {A : Type 0} (m : Action S A) (q : FilePath) : Type 0 where
    pub same : (s : S) → disk.content (m s).1 q ≡ disk.content s q

module _ {S A : Type 0} {files : Cs2ConfigFs S} {disk : Disk files} where
  pub pure-Spares : {q : FilePath} (a : A) → Spares disk (pure a) q
  pure-Spares a = record { same = λ s. refl }

  pub lift-Spares : {q : FilePath} (r : Result Cs2ConfigError A) → Spares disk (lift r) q
  lift-Spares r = record { same = λ s. refl }

  pub calling-Spares :
      {q : FilePath} (f : S → Result IoError A × S) (wrap : IoError → Cs2ConfigError)
      → ((s : S) → disk.content (f s).1 q ≡ disk.content s q)
      → Spares disk (calling f wrap) q
  calling-Spares f wrap h = record { same = h }

  pub answered-Spares :
      {q : FilePath} (f : S → Result IoError A × S)
      → ((s : S) → disk.content (f s).1 q ≡ disk.content s q)
      → Spares disk (answered f) q
  answered-Spares f h = record { same = h }

module _ {S A B : Type 0} {files : Cs2ConfigFs S} {disk : Disk files} where
  pub bind-Spares :
      {q : FilePath} {m : Action S A} {f : A → Action S B}
      → Spares disk m q
      → ((a : A) → Spares disk (f a) q)
      → Spares disk (m >>= f) q
  bind-Spares {q} {m} {f} first next = record { same = λ s. go (m s) s (first.same s) }
    where
      go :
          (o : Result Cs2ConfigError A × S) (s : S)
          → disk.content o.1 q ≡ disk.content s q
          → disk.content (after o f).1 q ≡ disk.content s q
      go (ok a, s') s e = (next a).same s' ∙ e
      go (err x, s') s e = e

module _ {S : Type 0} {files : Cs2ConfigFs S} (disk : Disk files) where
  pub ensured-Spares : {q : FilePath} (b : Bool) (e : Cs2ConfigError) → Spares disk (ensured b e) q
  ensured-Spares true e = record { same = λ s. refl }
  ensured-Spares false e = record { same = λ s. refl }

  pub write_and_verify-Spares :
      {q : FilePath} (p : FilePath) (expected : Text) (stage : String) (recovery : Option FilePath)
      → p ≢ q
      → Spares disk (write_and_verify files p expected stage recovery) q
  unfolding write_and_verify
  write_and_verify-Spares {q} p expected stage recovery apart =
      bind-Spares
        (calling-Spares (files.atomic_replace p expected) (mutation stage recovery)
          (λ s. disk.atomic_replace-keeps p q expected s apart))
        (λ _.
          bind-Spares
            (calling-Spares (files.read_file p) (mutation "written CFG readback" recovery)
              (λ s. disk.read_file-keeps p q s))
            (λ actual. ensured-Spares (text_eq actual expected) (readback_mismatch p recovery)))

  pub read_optional-Spares : {q : FilePath} (p : FilePath) → Spares disk (read_optional files p) q
  unfolding read_optional
  read_optional-Spares {q} p = record { same = λ s. disk.read_file-keeps p q s }

  pub read_if-Spares : {q : FilePath} (b : Bool) (p : FilePath) → Spares disk (read_if files b p) q
  read_if-Spares true p = read_optional-Spares p
  read_if-Spares false p = pure-Spares none

  pub write_deployments-Spares :
      {q : FilePath} (recovery : Option FilePath) (ds : List CfgAssetDeployment)
      → All (λ (d : CfgAssetDeployment). d.target ≢ q) ds
      → Spares disk (write_deployments files recovery ds) q
  unfolding write_deployments
  write_deployments-Spares recovery [] h = pure-Spares []
  write_deployments-Spares recovery (d ∷ ds) (apart, h) =
      bind-Spares
        (write_and_verify-Spares d.target d.bytes "optional CFG replacement" recovery apart)
        (λ _.
          bind-Spares (write_deployments-Spares recovery ds h)
            (λ written. pure-Spares (d.target ∷ written)))

  optimization_backup_of-Spares :
      {q : FilePath} (p : FilePath) (original : Text) (r : Result IoError (Unit {0}))
      → Spares disk (optimization_backup_of files p original r) q
  optimization_backup_of-Spares {q} p original (ok u) =
      bind-Spares
        (calling-Spares (files.read_file p) (mutation "optimization.cfg backup readback" none)
          (λ s. disk.read_file-keeps p q s))
        (λ readback.
          bind-Spares (ensured-Spares (text_eq readback original) (readback_mismatch p none))
            (λ _. pure-Spares (created p)))
  optimization_backup_of-Spares p original (err already_exists) = pure-Spares (retained p)
  optimization_backup_of-Spares p original (err not_found) =
      lift-Spares (err (mutation "optimization.cfg backup" none not_found))
  optimization_backup_of-Spares p original (err (other message)) =
      lift-Spares (err (mutation "optimization.cfg backup" none (other message)))

  pub create_optimization_backup-Spares :
      {q : FilePath} (p : FilePath) (original : Option Text)
      → p ≢ q
      → Spares disk (create_optimization_backup files p original) q
  unfolding create_optimization_backup
  create_optimization_backup-Spares p none apart = pure-Spares not_needed
  create_optimization_backup-Spares {q} p (some original) apart =
      bind-Spares
        (answered-Spares (files.create_file_new p original)
          (λ s. disk.create_file_new-keeps p q original s apart))
        (optimization_backup_of-Spares p original)

  pub ensure_cfg_directory-Spares :
      {q : FilePath} (root p : FilePath) → Spares disk (ensure_cfg_directory files root p) q
  unfolding ensure_cfg_directory
  ensure_cfg_directory-Spares {q} root p =
      bind-Spares
        (calling-Spares (files.create_directory p) io (λ s. disk.create_directory-keeps p q s))
        (λ _. lift-Spares (ensure_safe_target root p))

  pub ensure_safe_targets-Spares :
      {q : FilePath} (root : FilePath) (targets : List FilePath)
      → Spares disk (ensure_safe_targets root targets) q
  unfolding ensure_safe_targets
  ensure_safe_targets-Spares root [] = pure-Spares tt
  ensure_safe_targets-Spares root (t ∷ targets) =
      bind-Spares (lift-Spares (ensure_safe_target root t))
        (λ _. ensure_safe_targets-Spares root targets)

  autoexec_backup_of-Spares :
      {q : FilePath} (p : FilePath) (original : Text) (r : Result IoError (Unit {0}))
      → Spares disk (autoexec_backup_of files p original r) q
  autoexec_backup_of-Spares {q} p original (ok u) =
      bind-Spares
        (calling-Spares (files.read_file p) (mutation "autoexec.cfg backup readback" none)
          (λ s. disk.read_file-keeps p q s))
        (λ readback.
          bind-Spares (ensured-Spares (text_eq readback original) (readback_mismatch p none))
            (λ _. pure-Spares (autoexec_created p)))
  autoexec_backup_of-Spares p original (err already_exists) = pure-Spares (autoexec_retained p)
  autoexec_backup_of-Spares p original (err not_found) =
      lift-Spares (err (mutation "autoexec.cfg backup" none not_found))
  autoexec_backup_of-Spares p original (err (other message)) =
      lift-Spares (err (mutation "autoexec.cfg backup" none (other message)))

  pub create_autoexec_backup-Spares :
      {q : FilePath} (p : FilePath) (original : Option Text) (updated : Bool)
      → p ≢ q
      → Spares disk (create_autoexec_backup files p original updated) q
  unfolding create_autoexec_backup
  create_autoexec_backup-Spares p original false apart = pure-Spares autoexec_not_needed
  create_autoexec_backup-Spares p none true apart = pure-Spares autoexec_not_needed
  create_autoexec_backup-Spares {q} p (some original) true apart =
      bind-Spares
        (answered-Spares (files.create_file_new p original)
          (λ s. disk.create_file_new-keeps p q original s apart))
        (autoexec_backup_of-Spares p original)

  pub replace_autoexec-Spares :
      {q : FilePath} (updated : Bool) (p : FilePath) (expected : Text) (recovery : Option FilePath)
      → p ≢ q
      → Spares disk (replace_autoexec files updated p expected recovery) q
  unfolding replace_autoexec
  replace_autoexec-Spares true p expected recovery apart =
      write_and_verify-Spares p expected "autoexec.cfg replacement" recovery apart
  replace_autoexec-Spares false p expected recovery apart = pure-Spares tt
