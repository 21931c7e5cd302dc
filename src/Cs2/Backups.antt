-- ===== src/Cs2/Backups.antt =====
-- A file of crates/frametime-domain/src/cs2_config.rs and its backup, while actions run.
use cs2_opt.Prelude.{
  ◌≡◌, ◌∙◌, ◌⊎◌, inl, inr, Bool, true, false, none, some, Result, ok, err, refl, sym, ap, arith,
  ◌≢◌,
}
use cs2_opt.Prelude.Text.{Text, text_eq, text_eq_iff}
use cs2_opt.Cs2.Files.{
  ◌>>◌, ◌>>=◌, not_found, already_exists, other, Cs2ConfigFs, FilePath, Action, read_optional,
  IoError, Cs2ConfigError, calling, ensured, present, after, wrapped, answered, mutation,
  readback_mismatch, pure,
}
use cs2_opt.Cs2.Contract.{Disk, Contract, Post, pure-Contract}
use cs2_opt.Cs2.Spares.{Spares}
use cs2_opt.Cs2.Controller.{
  create_autoexec_backup, create_optimization_backup, autoexec_backup_of, optimization_backup_of,
  autoexec_created, created,
}

module _ {S : Type 0} {files : Cs2ConfigFs S} (disk : Disk files) (f g : FilePath) (b : Text) where
  -- The file holds the user's bytes and there is no backup yet.
  abbrev pub Start : S → Type 0
  Start s = (disk.content s f ≡ some b) × (disk.content s g ≡ none)

  abbrev pub Saved : S → Type 0
  Saved s = disk.content s g ≡ some b

  -- The user's bytes are in the file or in its backup.
  abbrev pub Safe : S → Type 0
  Safe s = (disk.content s f ≡ some b) ⊎ (disk.content s g ≡ some b)

  pub keep_pair :
      {A : Type 0} {m : Action S A}
      → Spares disk m f
      → Spares disk m g
      → Contract Safe Start m (λ _. Start)
  keep_pair {A} {m} here there = record { run = λ s p. go (m s) s (here.same s) (there.same s) p }
    where
      go :
          (o : Result Cs2ConfigError A × S) (s : S)
          → disk.content o.1 f ≡ disk.content s f
          → disk.content o.1 g ≡ disk.content s g
          → Start s
          → Post Safe (λ _. Start) o
      go (ok a, s') s e e' (p, q) = (e ∙ p, e' ∙ q)
      go (err x, s') s e e' (p, q) = inl (e ∙ p)

  pub keep_backup :
      {A : Type 0} {m : Action S A} → Spares disk m g → Contract Safe Saved m (λ _. Saved)
  keep_backup {A} {m} there = record { run = λ s p. go (m s) s (there.same s) p }
    where
      go :
          (o : Result Cs2ConfigError A × S) (s : S)
          → disk.content o.1 g ≡ disk.content s g
          → Saved s
          → Post Safe (λ _. Saved) o
      go (ok a, s') s e p = e ∙ p
      go (err x, s') s e p = inr (e ∙ p)

  pub keep_either :
      {A : Type 0} {m : Action S A}
      → Spares disk m f
      → Spares disk m g
      → Contract Safe Safe m (λ _. Safe)
  keep_either {A} {m} here there = record { run = λ s p. go (m s) s (here.same s) (there.same s) p }
    where
      go :
          (o : Result Cs2ConfigError A × S) (s : S)
          → disk.content o.1 f ≡ disk.content s f
          → disk.content o.1 g ≡ disk.content s g
          → Safe s
          → Post Safe (λ _. Safe) o
      go (ok a, s') s e e' (inl p) = inl (e ∙ p)
      go (ok a, s') s e e' (inr p) = inr (e' ∙ p)
      go (err x, s') s e e' (inl p) = inl (e ∙ p)
      go (err x, s') s e e' (inr p) = inr (e' ∙ p)

  -- Reading the file finds the user's bytes.
  pub read_optional-known :
      Contract Safe Start (read_optional files f) (λ o s. Start s × (o ≡ some b))
  unfolding read_optional
  read_optional-known = record { run = λ s p. go s p ((files.read_file f s).0) refl }
    where
      kept : (s : S) → Start s → Start (files.read_file f s).1
      kept s (p, q) = (disk.read_file-keeps f f s ∙ p, disk.read_file-keeps f g s ∙ q)

      go :
          (s : S)
          → Start s
          → (r : Result IoError Text) → (files.read_file f s).0 ≡ r
          → Post Safe (λ o s. Start s × (o ≡ some b)) (present r, (files.read_file f s).1)
      go s p (ok bytes) e = (kept s p, sym (disk.read_file-ok f s bytes e) ∙ p.0)
      go s p (err not_found) e = absurd (ground (arith, disk.read_file-not_found f s e, p.0))
      go s p (err already_exists) e = inl (kept s p).0
      go s p (err (other message)) e = inl (kept s p).0

  -- A created backup is read back before anything else is done.
  pub readback-Saved :
      {A : Type 0} {Q : A → S → Type 0} (k : Action S A) (wrap : IoError → Cs2ConfigError)
      (mismatch : Cs2ConfigError)
      → Contract Safe Saved k Q
      → Contract Safe
          (λ s. disk.content s f ≡ some b)
          (calling (files.read_file g) wrap >>= λ readback.
            ensured (text_eq readback b) mismatch >> k)
          Q
  readback-Saved {A} {Q} k wrap mismatch rest = record {
    run = λ s p. go s p ((files.read_file g s).0) refl;
  }
    where
      go :
          (s : S)
          → disk.content s f ≡ some b
          → (r : Result IoError Text) → (files.read_file g s).0 ≡ r
          → Post Safe Q (
              after
                (wrapped wrap r, (files.read_file g s).1)
                (λ readback. ensured (text_eq readback b) mismatch >> k))
      go s p (ok bytes) e = compared (text_eq bytes b) refl
        where
          compared :
              (t : Bool)
              → text_eq bytes b ≡ t
              → Post Safe Q ((ensured t mismatch >> k) (files.read_file g s).1)
          compared true same = rest.run _ (
              disk.read_file-keeps g g s
              ∙ (disk.read_file-ok g s bytes e ∙ ap some ((text_eq_iff bytes b).0 same)))
          compared false same = inl (disk.read_file-keeps g f s ∙ p)
      go s p (err x) e = inl (disk.read_file-keeps g f s ∙ p)

  -- Creating the backup ends with the bytes in it, since there was none.
  pub create_file_new-Saved :
      {A : Type 0} {Q : A → S → Type 0} (k : Result IoError (Unit {0}) → Action S A)
      → g ≢ f
      → Contract Safe (λ s. disk.content s f ≡ some b) (k (ok tt)) Q
      → ((e : IoError) → e ≢ already_exists → Contract Safe Safe (k (err e)) Q)
      → Contract Safe Start (answered (files.create_file_new g b) >>= k) Q
  create_file_new-Saved {A} {Q} k apart good bad = record {
    run = λ s p. go s p ((files.create_file_new g b s).0) refl;
  }
    where
      kept : (s : S) → Start s → disk.content (files.create_file_new g b s).1 f ≡ some b
      kept s p = disk.create_file_new-keeps g f b s apart ∙ p.0

      go :
          (s : S)
          → Start s
          → (r : Result IoError (Unit {0})) → (files.create_file_new g b s).0 ≡ r
          → Post Safe Q (k r (files.create_file_new g b s).1)
      go s p (ok u) e = good.run _ (kept s p)
      go s p (err x) e = (bad x not_there).run _ (inl (kept s p))
        where
          not_there : x ≢ already_exists
          not_there same = disk.create_file_new-already_exists g b s (e ∙ ap err same) p.1

module _ {S : Type 0} {files : Cs2ConfigFs S} (disk : Disk files) (f g : FilePath) (b : Text) where
  pub create_optimization_backup-Saved :
      g ≢ f
      → Contract
          (Safe disk f g b)
          (Start disk f g b)
          (create_optimization_backup files g (some b))
          (λ _. Saved disk f g b)
  unfolding create_optimization_backup
  create_optimization_backup-Saved apart =
      create_file_new-Saved disk f g b (optimization_backup_of files g b) apart
        (readback-Saved disk f g b (pure (created g))
          (mutation "optimization.cfg backup readback" none) (readback_mismatch g none)
          (pure-Contract (created g)))
        refused
    where
      refused :
          (e : IoError)
          → e ≢ already_exists
          → Contract
              (Safe disk f g b)
              (Safe disk f g b)
              (optimization_backup_of files g b (err e))
              (λ _. Saved disk f g b)
      refused not_found h = record { run = λ s p. p }
      refused (other message) h = record { run = λ s p. p }
      refused already_exists h = absurd (h refl)

  pub create_autoexec_backup-Saved :
      g ≢ f
      → Contract
          (Safe disk f g b)
          (Start disk f g b)
          (create_autoexec_backup files g (some b) true)
          (λ _. Saved disk f g b)
  unfolding create_autoexec_backup
  create_autoexec_backup-Saved apart =
      create_file_new-Saved disk f g b (autoexec_backup_of files g b) apart
        (readback-Saved disk f g b (pure (autoexec_created g))
          (mutation "autoexec.cfg backup readback" none) (readback_mismatch g none)
          (pure-Contract (autoexec_created g)))
        refused
    where
      refused :
          (e : IoError)
          → e ≢ already_exists
          → Contract
              (Safe disk f g b)
              (Safe disk f g b)
              (autoexec_backup_of files g b (err e))
              (λ _. Saved disk f g b)
      refused not_found h = record { run = λ s p. p }
      refused (other message) h = record { run = λ s p. p }
      refused already_exists h = absurd (h refl)
