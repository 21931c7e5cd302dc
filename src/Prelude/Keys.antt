-- ===== src/Prelude/Keys.antt =====
-- `BTreeSet<String>` and `BTreeMap<String, _>` of the source. The code never iterates over them
-- where the order would show, so a set is a list and a map an association list.
use mathlib.Core.Path.{◌≡◌}
use mathlib.Core.Bool.{Bool, true, false, ◌||◌}
use mathlib.Core.List.{List, [], ◌∷◌}
use mathlib.Core.Option.{Option, none, some}
use native.Mathlib.Omega.{arith}
use mathlib.Core.Path.{ap}
use mathlib.Core.Logic.{◌↔◌, inl, inr}
use cs2_opt.Prelude.Tests.{if◌then◌else◌, is_some, Bool-cases}
use cs2_opt.Prelude.Members.{In}
use cs2_opt.Prelude.Text.{Text, text_eq, text_eq_iff}

unfoldable pub contains : Text → List Text → Bool
contains k [] = false
contains k (j ∷ s) = text_eq j k || contains k s

unfoldable pub insert : Text → List Text → List Text
insert k s = if contains k s then s else k ∷ s

unfoldable pub remove : Text → List Text → List Text
remove k [] = []
remove k (j ∷ s) = let rest = remove k s in if text_eq j k then rest else j ∷ rest

pub contains-insert :
    (k j : Text) (s : List Text)
    → contains j (insert k s) ≡ (if text_eq k j then true else contains j s)
unfolding contains insert
contains-insert k j s = ground (arith, text_eq_iff k j)

pub contains-remove :
    (k j : Text) (s : List Text)
    → contains j (remove k s) ≡ (if text_eq k j then false else contains j s)
unfolding contains remove
contains-remove k j [] = ground arith
contains-remove k j (i ∷ s) =
    ground (arith, contains-remove k j s, text_eq_iff i k, text_eq_iff i j, text_eq_iff k j)

-- An association list stands for a map: the first entry of a key counts.
module _ {ℓ} {V : Type ℓ} where
  unfoldable pub lookup : Text → List (Text × V) → Option V
  lookup k [] = none
  lookup k ((j, v) ∷ m) = if text_eq j k then some v else lookup k m

  abbrev pub contains_key : Text → List (Text × V) → Bool
  contains_key k m = is_some (lookup k m)

  unfoldable pub delete : Text → List (Text × V) → List (Text × V)
  delete k [] = []
  delete k ((j, v) ∷ m) = let rest = delete k m in if text_eq j k then rest else (j, v) ∷ rest

  unfoldable pub put : Text → V → List (Text × V) → List (Text × V)
  put k v m = (k, v) ∷ delete k m

  pub lookup-delete :
      (k j : Text) (m : List (Text × V))
      → lookup j (delete k m) ≡ (if text_eq k j then none else lookup j m)
  unfolding lookup delete
  lookup-delete k j [] = ground arith
  lookup-delete k j ((i, v) ∷ m) =
      ground (arith, lookup-delete k j m, text_eq_iff i k, text_eq_iff i j, text_eq_iff k j)

  pub lookup-put :
      (k j : Text) (v : V) (m : List (Text × V))
      → lookup j (put k v m) ≡ (if text_eq k j then some v else lookup j m)
  unfolding lookup put
  lookup-put k j v m = ground (arith, lookup-delete k j m)

module _ {V : Type 0} where
  contains_key-In :
      (k : Text) (m : List (Text × V)) → contains_key k m ≡ true → (v : V) × In (k, v) m
  unfolding lookup
  contains_key-In k [] h = ground arith
  contains_key-In k ((j, w) ∷ m) h = elim (Bool-cases (text_eq j k)) [
    | inl here ↦ (w, inl (ap (λ i. (i, w)) ((text_eq_iff j k).0 here)))
    | inr later ↦ let (v, e) = contains_key-In k m (ground arith) in (v, inr e)
  ]

  In-contains_key : (k : Text) (v : V) (m : List (Text × V)) → In (k, v) m → contains_key k m ≡ true
  unfolding lookup
  In-contains_key k v [] e = absurd e
  In-contains_key k v ((j, w) ∷ m) (inl e) = ground (arith, (text_eq_iff j k).1 (ap (λ x. x.0) e))
  In-contains_key k v ((j, w) ∷ m) (inr e) = ground (arith, In-contains_key k v m e)

  -- A key has a value exactly if there is an entry of it.
  pub contains_key_iff :
      (k : Text) (m : List (Text × V)) → (contains_key k m ≡ true) ↔ ((v : V) × In (k, v) m)
  contains_key_iff k m = (contains_key-In k m, λ (v, e). In-contains_key k v m e)
