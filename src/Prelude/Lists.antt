-- ===== src/Prelude/Lists.antt =====
-- Lists measured by native numbers, and Boolean searches, under the library's names.
use Prim.Native.Nat.{◌-◌, ◌≤◌, ℕ, zero, suc, ◌+◌, ◌<◌}
use mathlib.Core.Path.{refl, ap, ◌≡◌}
use mathlib.Core.Logic.{inl, inr}
use mathlib.Core.Bool.{Bool, true, false, ◌&&◌, ◌||◌}
use mathlib.Core.List.{List, [], ◌∷◌, ◌++◌}
use mathlib.Core.Option.{Option, none, some}
use native.Mathlib.Omega.{arith}
use cs2_opt.Prelude.Tests.{==_iff, Bool-cases, ◌==◌, if◌then◌else◌}

module _ {ℓ} {A : Type ℓ} where
  abbrev pub length : List A → ℕ
  length [] = 0
  length (x ∷ xs) = suc (length xs)

  abbrev pub is_empty : List A → Bool
  is_empty [] = true
  is_empty (x ∷ xs) = false

  unfoldable pub any : (A → Bool) → List A → Bool
  any p [] = false
  any p (x ∷ xs) = p x || any p xs

  unfoldable pub all : (A → Bool) → List A → Bool
  all p [] = true
  all p (x ∷ xs) = p x && all p xs

  unfoldable pub filter : (A → Bool) → List A → List A
  filter p [] = []
  filter p (x ∷ xs) = let rest = filter p xs in if p x then x ∷ rest else rest

  unfoldable pub find : (A → Bool) → List A → Option A
  find p [] = none
  find p (x ∷ xs) = let rest = find p xs in if p x then some x else rest

  pub length-append : (xs ys : List A) → length (xs ++ ys) ≡ length xs + length ys
  length-append [] ys = omega arith
  length-append (x ∷ xs) ys = omega (arith, length-append xs ys)

  unfoldable pub drop : ℕ → List A → List A
  drop zero xs = xs
  drop (suc n) [] = []
  drop (suc n) (x ∷ xs) = drop n xs

  unfoldable pub last : List A → Option A
  last [] = none
  last (x ∷ []) = some x
  last (x ∷ y ∷ xs) = last (y ∷ xs)

  abbrev pub head : List A → Option A
  head [] = none
  head (x ∷ xs) = some x

  pub drop-append : (n : ℕ) (xs ys : List A) → n ≤ length xs → drop n (xs ++ ys) ≡ drop n xs ++ ys
  unfolding drop
  drop-append zero xs ys h = refl
  drop-append (suc n) [] ys h = absurd (omega arith)
  drop-append (suc n) (x ∷ xs) ys h = drop-append n xs ys (omega arith)

  pub length-drop : (n : ℕ) (xs : List A) → length (drop n xs) ≡ length xs - n
  unfolding drop
  length-drop zero xs = omega arith
  length-drop (suc n) [] = omega arith
  length-drop (suc n) (x ∷ xs) = omega (arith, length-drop n xs)

  pub last-append : (xs : List A) (x : A) → last (xs ++ x ∷ []) ≡ some x
  unfolding last
  last-append [] x = refl
  last-append (y ∷ []) x = refl
  last-append (y ∷ z ∷ xs) x = last-append (z ∷ xs) x

  pub filter-append :
      (p : A → Bool) (xs ys : List A) → filter p (xs ++ ys) ≡ filter p xs ++ filter p ys
  unfolding filter
  filter-append p [] ys = refl
  filter-append p (x ∷ xs) ys = ground (arith, filter-append p xs ys)

  -- Nothing that a test refuses to find is found further on.
  pub any-drop : (p : A → Bool) (n : ℕ) (xs : List A) → any p xs ≡ false → any p (drop n xs) ≡ false
  unfolding any drop
  any-drop p zero xs h = h
  any-drop p (suc n) [] h = refl
  any-drop p (suc n) (x ∷ xs) h = ground (arith, any-drop p n xs)

  pub filter-none : (p : A → Bool) (xs : List A) → any p xs ≡ false → filter p xs ≡ []
  unfolding any filter
  filter-none p [] h = refl
  filter-none p (x ∷ xs) h = ground (arith, filter-none p xs)

  pub any-append : (p : A → Bool) (xs ys : List A) → any p (xs ++ ys) ≡ (any p xs || any p ys)
  unfolding any
  any-append p [] ys = refl
  any-append p (x ∷ xs) ys = ground (arith, any-append p xs ys)

  abbrev pub All {κ} : (A → Type κ) → List A → Type κ
  All P [] = Unit
  All P (x ∷ xs) = P x × All P xs

-- A test holds for `count` numbers in a row.
unfoldable pub holds_for : (ℕ → Bool) → (count start : ℕ) → Bool
holds_for test zero start = true
holds_for test (suc count) start = test start && holds_for test count (suc start)

pub holds_for_lem :
    (test : ℕ → Bool) (count start k : ℕ)
    → start ≤ k
    → k < start + count
    → holds_for test count start ≡ true
    → test k ≡ true
unfolding holds_for
holds_for_lem test zero start k above below h = absurd (omega arith)
holds_for_lem test (suc count) start k above below h = elim (Bool-cases (k == start)) [
  | inl e ↦ ground (arith, ap test ((==_iff k start).0 e))
  | inr e ↦ ground (arith, holds_for_lem test count (suc start) k)
]
