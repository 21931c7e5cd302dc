-- ===== src/Cs2/Contract.antt =====
-- What is asked of a file port, and conditions before and after an action on it:
-- crates/frametime-domain/src/cs2_config.rs. One condition stands for every error.
use mathlib.Core.Path.{subst}
use cs2_opt.Prelude.{arith, ok-injective, ◌≡◌, ◌≢◌, Option, none, some, Result, ok, err, refl}
use cs2_opt.Prelude.Text.{Text}
use cs2_opt.Cs2.Files.{◌>>=◌, ◌>>◌, after}
use cs2_opt.Cs2.Files.{
  Cs2ConfigError, pure, Action, Cs2ConfigFs, FilePath, lift, not_found, already_exists,
}

-- A view of the files behind a port, and what each call does to it. A failed call may do anything
-- to the file that it names, but to no other.
pub record Disk {S : Type 0} (files : Cs2ConfigFs S) : Type 0 where
  pub content : S → FilePath → Option Text
  pub create_directory-keeps :
      (p q : FilePath) (s : S) → content (files.create_directory p s).1 q ≡ content s q
  pub read_file-keeps : (p q : FilePath) (s : S) → content (files.read_file p s).1 q ≡ content s q
  pub read_file-ok :
      (p : FilePath) (s : S) (b : Text) → (files.read_file p s).0 ≡ ok b → content s p ≡ some b
  pub read_file-not_found :
      (p : FilePath) (s : S) → (files.read_file p s).0 ≡ err not_found → content s p ≡ none
  pub create_file_new-keeps :
      (p q : FilePath) (b : Text) (s : S)
      → p ≢ q
      → content (files.create_file_new p b s).1 q ≡ content s q
  pub create_file_new-already_exists :
      (p : FilePath) (b : Text) (s : S)
      → (files.create_file_new p b s).0 ≡ err already_exists
      → content s p ≢ none
  pub atomic_replace-keeps :
      (p q : FilePath) (b : Text) (s : S)
      → p ≢ q
      → content (files.atomic_replace p b s).1 q ≡ content s q
  pub remove_file-keeps :
      (p q : FilePath) (s : S) → p ≢ q → content (files.remove_file p s).1 q ≡ content s q

module _ {S A : Type 0} where
  abbrev pub Post : (S → Type 0) → (A → S → Type 0) → Result Cs2ConfigError A × S → Type 0
  Post E Q (ok a, s) = Q a s
  Post E Q (err e, s) = E s

  pub record Contract (E P : S → Type 0) (m : Action S A) (Q : A → S → Type 0) : Type 0 where
    pub run : (s : S) → P s → Post E Q (m s)

  pub either_way :
      {E P : S → Type 0} {m : Action S A} → Contract E P m (λ _. E) → (s : S) → P s → E (m s).1
  either_way {E} {P} {m} t s p = go (m s) (t.run s p)
    where
      go : (o : Result Cs2ConfigError A × S) → Post E (λ _. E) o → E o.1
      go (ok a, s') q = q
      go (err e, s') q = q

  pub on_success :
      {E P : S → Type 0} {m : Action S A} {Q : A → S → Type 0}
      → Contract E P m Q
      → (s : S) (a : A) → P s
      → (m s).0 ≡ ok a
      → Q a (m s).1
  on_success {E} {P} {m} {Q} t s a p e = go (m s) e (t.run s p)
    where
      go : (o : Result Cs2ConfigError A × S) → o.0 ≡ ok a → Post E Q o → Q a o.1
      go (ok x, s') h q = subst (λ y. Q y s') (ok-injective x a h) q
      go (err x, s') h q = ground arith

  pub pure-Contract : {E P : S → Type 0} (a : A) → Contract E P (pure a) (λ _. P)
  pure-Contract a = record { run = λ s p. p }

  -- The answer of a computation that does not use the port is remembered.
  pub lift-Contract :
      {E P : S → Type 0} (r : Result Cs2ConfigError A)
      → ((s : S) → P s → E s)
      → Contract E P (lift r) (λ a s. P s × (r ≡ ok a))
  lift-Contract (ok a) f = record { run = λ s p. (p, refl) }
  lift-Contract (err e) f = record { run = λ s p. f s p }

  pub weaken-Contract :
      {E P P' : S → Type 0} {Q Q' : A → S → Type 0} {m : Action S A}
      → ((s : S) → P' s → P s)
      → ((a : A) (s : S) → Q a s → Q' a s)
      → Contract E P m Q
      → Contract E P' m Q'
  weaken-Contract {E} {P} {P'} {Q} {Q'} {m} f g t = record {
    run = λ s p. go (m s) (t.run s (f s p));
  }
    where
      go : (o : Result Cs2ConfigError A × S) → Post E Q o → Post E Q' o
      go (ok a, s') q = g a s' q
      go (err e, s') q = q

  -- What is known without the state.
  pub assume-Contract :
      {E P : S → Type 0} {F : Type 0} {Q : A → S → Type 0} {m : Action S A}
      → (F → Contract E P m Q)
      → Contract E (λ s. P s × F) m Q
  assume-Contract t = record { run = λ s p. (t p.1).run s p.0 }

module _ {S A B : Type 0} where
  pub bind-Contract :
      {E P : S → Type 0} {Q : A → S → Type 0} {U : B → S → Type 0} {m : Action S A}
      {f : A → Action S B}
      → Contract E P m Q
      → ((a : A) → Contract E (Q a) (f a) U)
      → Contract E P (m >>= f) U
  bind-Contract {E} {P} {Q} {U} {m} {f} first next = record {
    run = λ s p. go (m s) (first.run s p);
  }
    where
      go : (o : Result Cs2ConfigError A × S) → Post E Q o → Post E U (after o f)
      go (ok a, s') q = (next a).run s' q
      go (err e, s') q = q

module _ {S B : Type 0} where
  pub then-Contract :
      {E P Q : S → Type 0} {U : B → S → Type 0} {m : Action S (Unit {0})} {k : Action S B}
      → Contract E P m (λ _. Q)
      → Contract E Q k U
      → Contract E P (m >> k) U
  then-Contract first next = bind-Contract first (λ _. next)
