-- ===== src/Cs2/Holds.antt =====
-- What a file holds while the actions of crates/frametime-domain/src/cs2_config.rs run; an error
-- ends what is said of it.
use cs2_opt.Prelude.{◌≡◌, ◌∙◌, Bool, true, false, Option, some, Result, ok, err, refl, String, ap}
use cs2_opt.Prelude.Text.{Text, text_eq, text_eq_iff}
use cs2_opt.Cs2.Files.{
  ◌>>=◌, Cs2ConfigFs, write_and_verify, Action, FilePath, Cs2ConfigError, ensured,
  readback_mismatch, IoError, after, wrapped, mutation, calling,
}
use cs2_opt.Cs2.Contract.{Disk, Contract, Post}
use cs2_opt.Cs2.Spares.{Spares}

module _ {S : Type 0} {files : Cs2ConfigFs S} (disk : Disk files) where
  abbrev pub Any : S → Type 0
  Any s = Unit {0}

  abbrev pub Holds : FilePath → Text → S → Type 0
  Holds p b s = disk.content s p ≡ some b

  -- An action that leaves a file as it is, whatever becomes of the others.
  pub keep_bytes :
      {A : Type 0} {m : Action S A} (p : FilePath) (b : Text)
      → Spares disk m p
      → Contract Any (Holds p b) m (λ _. Holds p b)
  keep_bytes {A} {m} p b there = record { run = λ s h. go (m s) (there.same s ∙ h) }
    where
      go :
          (o : Result Cs2ConfigError A × S)
          → disk.content o.1 p ≡ some b
          → Post Any (λ _. Holds p b) o
      go (ok a, s') h = h
      go (err x, s') h = tt

  -- A write that ended well was read back.
  pub write_and_verify-Holds :
      {P : S → Type 0} (p : FilePath) (b : Text) (stage : String) (recovery : Option FilePath)
      → Contract Any P (write_and_verify files p b stage recovery) (λ _. Holds p b)
  unfolding write_and_verify
  write_and_verify-Holds p b stage recovery = record {
    run = λ s _. replaced s ((files.atomic_replace p b s).0);
  }
    where
      compared :
          (s : S) (actual : Text) (t : Bool)
          → (files.read_file p s).0 ≡ ok actual
          → text_eq actual b ≡ t
          → Post Any
              (λ _. Holds p b)
              (ensured t (readback_mismatch p recovery) (files.read_file p s).1)
      compared s actual true e same =
          disk.read_file-keeps p p s
          ∙ (disk.read_file-ok p s actual e ∙ ap some ((text_eq_iff actual b).0 same))
      compared s actual false e same = tt

      read :
          (s : S) (r : Result IoError Text)
          → (files.read_file p s).0 ≡ r
          → Post Any
              (λ _. Holds p b)
              (after
                (wrapped (mutation "written CFG readback" recovery) r, (files.read_file p s).1)
                (λ actual. ensured (text_eq actual b) (readback_mismatch p recovery)))
      read s (ok actual) e = compared s actual (text_eq actual b) e refl
      read s (err x) e = tt

      replaced :
          (s : S) (r : Result IoError (Unit {0}))
          → Post Any
              (λ _. Holds p b)
              (after
                (wrapped (mutation stage recovery) r, (files.atomic_replace p b s).1)
                (λ _.
                  calling (files.read_file p) (mutation "written CFG readback" recovery)
                  >>= λ actual. ensured (text_eq actual b) (readback_mismatch p recovery)))
      replaced s (ok u) = read (files.atomic_replace p b s).1 _ refl
      replaced s (err x) = tt

  pub whatever : {A : Type 0} {P : S → Type 0} (m : Action S A) → Contract Any P m (λ _. Any)
  whatever {A} m = record { run = λ s p. go (m s) }
    where
      go : (o : Result Cs2ConfigError A × S) → Post Any (λ _. Any) o
      go (ok a, s') = tt
      go (err x, s') = tt

  pub both-Contract :
      {A : Type 0} {P P' : S → Type 0} {Q Q' : A → S → Type 0} {m : Action S A}
      → Contract Any P m Q
      → Contract Any P' m Q'
      → Contract Any (λ s. P s × P' s) m (λ a s. Q a s × Q' a s)
  both-Contract {A} {P} {P'} {Q} {Q'} {m} t t' = record {
    run = λ s p. go (m s) (t.run s p.0) (t'.run s p.1);
  }
    where
      go :
          (o : Result Cs2ConfigError A × S)
          → Post Any Q o
          → Post Any Q' o
          → Post Any (λ a s. Q a s × Q' a s) o
      go (ok a, s') q q' = (q, q')
      go (err x, s') q q' = tt
