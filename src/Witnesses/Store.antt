-- ===== src/Witnesses/Store.antt =====
-- A file port over a list of files, like the one that the tests of
-- crates/frametime-domain/src/cs2_config.rs use.
use cs2_opt.Prelude.{
  ◌≡◌, ◌≢◌, ◌↔◌, ◌∙◌, sym, true, List, [], ◌∷◌, Option, none, some, Result, ok, err, refl, arith,
  if◌then◌else◌,
}
use cs2_opt.Prelude.Text.{Text, text_eq_iff}
use cs2_opt.Cs2.Files.{
  normal, prefix, root_dir, cur_dir, parent_dir, not_found, already_exists, IoError, Cs2ConfigFs,
  FilePath, Component,
}
use cs2_opt.Cs2.Controller.{path_eq, component_eq}
use cs2_opt.Cs2.Contract.{Disk}

component_eq_iff : (a b : Component) → (component_eq a b ≡ true) ↔ (a ≡ b)
unfolding component_eq
component_eq_iff (normal a) (normal b) = ground (arith, text_eq_iff a b)
component_eq_iff (prefix a) (prefix b) = ground (arith, text_eq_iff a b)
component_eq_iff root_dir root_dir = ground arith
component_eq_iff cur_dir cur_dir = ground arith
component_eq_iff parent_dir parent_dir = ground arith
component_eq_iff (normal a) (prefix b) = ground arith
component_eq_iff (normal a) root_dir = ground arith
component_eq_iff (normal a) cur_dir = ground arith
component_eq_iff (normal a) parent_dir = ground arith
component_eq_iff (prefix a) (normal b) = ground arith
component_eq_iff (prefix a) root_dir = ground arith
component_eq_iff (prefix a) cur_dir = ground arith
component_eq_iff (prefix a) parent_dir = ground arith
component_eq_iff root_dir (normal b) = ground arith
component_eq_iff root_dir (prefix b) = ground arith
component_eq_iff root_dir cur_dir = ground arith
component_eq_iff root_dir parent_dir = ground arith
component_eq_iff cur_dir (normal b) = ground arith
component_eq_iff cur_dir (prefix b) = ground arith
component_eq_iff cur_dir root_dir = ground arith
component_eq_iff cur_dir parent_dir = ground arith
component_eq_iff parent_dir (normal b) = ground arith
component_eq_iff parent_dir (prefix b) = ground arith
component_eq_iff parent_dir root_dir = ground arith
component_eq_iff parent_dir cur_dir = ground arith

path_eq_iff : (p q : FilePath) → (path_eq p q ≡ true) ↔ (p ≡ q)
unfolding path_eq
path_eq_iff [] [] = ground arith
path_eq_iff [] (b ∷ q) = ground arith
path_eq_iff (a ∷ p) [] = ground arith
path_eq_iff (a ∷ p) (b ∷ q) = ground (
  arith,
  (component_eq_iff a b).0,
  (component_eq_iff a b).1,
  (path_eq_iff p q).0,
  (path_eq_iff p q).1,
)

abbrev pub Store : Type 0
Store = List (FilePath × Text)

unfoldable pub find_file : FilePath → Store → Option Text
find_file p [] = none
find_file p ((q, b) ∷ s) = let rest = find_file p s in if path_eq q p then some b else rest

unfoldable pub delete_file : FilePath → Store → Store
delete_file p [] = []
delete_file p ((q, b) ∷ s) =
    let rest = delete_file p s in if path_eq q p then rest else (q, b) ∷ rest

abbrev pub or_not_found : Option Text → Result IoError Text
or_not_found none = err not_found
or_not_found (some b) = ok b

abbrev pub created_in : Option Text → FilePath → Text → Store → Result IoError (Unit {0}) × Store
created_in none p b s = (ok tt, (p, b) ∷ s)
created_in (some _) p b s = (err already_exists, s)

abbrev pub store : Cs2ConfigFs Store
store = record {
  create_directory = λ p s. (ok tt, s);
  read_file = λ p s. (or_not_found (find_file p s), s);
  create_file_new = λ p b s. created_in (find_file p s) p b s;
  atomic_replace = λ p b s. (ok tt, (p, b) ∷ s);
  remove_file = λ p s. (ok tt, delete_file p s);
}

pub find_file-skip :
    (p q : FilePath) (b : Text) (s : Store) → p ≢ q → find_file q ((p, b) ∷ s) ≡ find_file q s
unfolding find_file
find_file-skip p q b s apart = ground (arith, (path_eq_iff p q).0)

pub find_file-delete_file :
    (p q : FilePath) (s : Store) → p ≢ q → find_file q (delete_file p s) ≡ find_file q s
unfolding find_file delete_file
find_file-delete_file p q [] apart = refl
find_file-delete_file p q ((r, b) ∷ s) apart = ground (
  arith,
  find_file-delete_file p q s,
  (path_eq_iff r p).0,
  (path_eq_iff r q).0,
  λ (e : r ≡ p) (e' : r ≡ q). apart (sym e ∙ e'),
)

pub created-keeps :
    (o : Option Text) (p q : FilePath) (b : Text) (s : Store)
    → p ≢ q
    → find_file q (created_in o p b s).1 ≡ find_file q s
created-keeps none p q b s apart = find_file-skip p q b s apart
created-keeps (some x) p q b s apart = refl

pub created-exists :
    (o : Option Text) (p : FilePath) (b : Text) (s : Store)
    → (created_in o p b s).0 ≡ err already_exists
    → o ≢ none
created-exists none p b s h = ground arith
created-exists (some x) p b s h = ground arith

pub found : (o : Option Text) (b : Text) → or_not_found o ≡ ok b → o ≡ some b
found none b h = ground arith
found (some x) b h = ground arith

pub absent : (o : Option Text) → or_not_found o ≡ err not_found → o ≡ none
absent none h = refl
absent (some x) h = ground arith

abbrev pub store_disk : Disk store
store_disk = record {
  content = λ s p. find_file p s;
  create_directory-keeps = λ p q s. refl;
  read_file-keeps = λ p q s. refl;
  read_file-ok = λ p s b h. found (find_file p s) b h;
  read_file-not_found = λ p s h. absent (find_file p s) h;
  create_file_new-keeps = λ p q b s apart. created-keeps (find_file p s) p q b s apart;
  create_file_new-already_exists = λ p b s h. created-exists (find_file p s) p b s h;
  atomic_replace-keeps = λ p q b s apart. find_file-skip p q b s apart;
  remove_file-keeps = λ p q s apart. find_file-delete_file p q s apart;
}
