-- ===== src/Cs2/Files.antt =====
-- The file port `Cs2ConfigFs` of crates/frametime-domain/src/cs2_config.rs and the writes that are
-- read back, of cs2_config/transaction.rs. `S` is the state behind the port.
use cs2_opt.Prelude.{
  Bool, true, false, List, [], ◌∷◌, ◌++◌, Option, none, some, Result, ok, err, String,
}
use cs2_opt.Prelude.Text.{Text, text_eq}

-- `std::path::Component`
pub data Component : Type 0 where
  prefix normal : Text → Component
  root_dir cur_dir parent_dir : Component

abbrev pub FilePath : Type 0
FilePath = List Component

abbrev pub joined : FilePath → Text → FilePath
joined p name = p ++ (normal name ∷ [])

-- `io::Error`, by its kind.
pub data IoError : Type 0 where
  not_found already_exists : IoError
  other : String → IoError

pub data Cs2ConfigError : Type 0 where
  invalid_binding invalid_timestamp empty_optional_selection autoexec_not_utf8 : Cs2ConfigError
  precondition_mismatch untrusted_path : FilePath → Cs2ConfigError
  io : IoError → Cs2ConfigError
  mutation : String → Option FilePath → IoError → Cs2ConfigError  -- stage, recovery, source
  readback_mismatch : FilePath → Option FilePath → Cs2ConfigError  -- target, recovery

pub record Cs2ConfigFs (S : Type 0) : Type 0 where
  pub create_directory : FilePath → S → Result IoError (Unit {0}) × S
  pub read_file : FilePath → S → Result IoError Text × S
  pub create_file_new : FilePath → Text → S → Result IoError (Unit {0}) × S
  pub atomic_replace : FilePath → Text → S → Result IoError (Unit {0}) × S
  pub remove_file : FilePath → S → Result IoError (Unit {0}) × S

-- A method that uses the port: what it wrote before a failure stays written.
abbrev pub Action : Type 0 → Type 0 → Type 0
Action S A = S → Result Cs2ConfigError A × S

module _ {S A B : Type 0} where
  abbrev pub after : Result Cs2ConfigError A × S → (A → Action S B) → Result Cs2ConfigError B × S
  after (ok a, s) f = f a s
  after (err e, s) f = (err e, s)

  infixl 5 ◌>>=◌
  abbrev pub ◌>>=◌ : Action S A → (A → Action S B) → Action S B
  ◌>>=◌ m f s = after (m s) f

module _ {S B : Type 0} where
  infixl 5 ◌>>◌
  abbrev pub ◌>>◌ : Action S (Unit {0}) → Action S B → Action S B
  m >> k = m >>= λ _. k

module _ {A : Type 0} where
  abbrev pub wrapped : (IoError → Cs2ConfigError) → Result IoError A → Result Cs2ConfigError A
  wrapped wrap (ok a) = ok a
  wrapped wrap (err e) = err (wrap e)

module _ {S A : Type 0} where
  abbrev pub pure : A → Action S A
  pure a s = (ok a, s)

  -- A computation that does not use the port.
  abbrev pub lift : Result Cs2ConfigError A → Action S A
  lift r s = (r, s)

  -- A call of the port whose error is looked at.
  abbrev pub answered : (S → Result IoError A × S) → Action S (Result IoError A)
  answered f s = let (r, s') = f s in (ok r, s')

  -- A call of the port, `.map_err(wrap)?`.
  abbrev pub calling : (S → Result IoError A × S) → (IoError → Cs2ConfigError) → Action S A
  calling f wrap = answered f >>= λ r. lift (wrapped wrap r)

abbrev pub ensured : {S : Type 0} → Bool → Cs2ConfigError → Action S (Unit {0})
ensured true e = pure tt
ensured false e = lift (err e)

-- A file that is not there counts as absent.
abbrev pub present : Result IoError Text → Result Cs2ConfigError (Option Text)
present (ok bytes) = ok (some bytes)
present (err not_found) = ok none
present (err e) = err (io e)

module _ {S : Type 0} (files : Cs2ConfigFs S) where
  unfoldable pub write_and_verify : FilePath → Text → String → Option FilePath → Action S (Unit {0})
  write_and_verify path expected stage recovery = do
    calling (files.atomic_replace path expected) (mutation stage recovery)
    actual ← calling (files.read_file path) (mutation "written CFG readback" recovery)
    ensured (text_eq actual expected) (readback_mismatch path recovery)

  unfoldable pub verify_bytes : FilePath → Text → Action S (Unit {0})
  verify_bytes path expected = do
    actual ← calling (files.read_file path) io
    ensured (text_eq actual expected) (readback_mismatch path none)

  unfoldable pub read_optional : FilePath → Action S (Option Text)
  read_optional path = answered (files.read_file path) >>= λ r. lift (present r)
