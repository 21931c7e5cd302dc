-- ===== src/Prelude/Members.antt =====
-- Membership by recursion, which the tactics read, and what a Boolean test over a list says of it.
use mathlib.Core.Path.{◌≡◌, refl, ap}
use mathlib.Core.Logic.{◌⊎◌, ◌↔◌, inl, inr}
use mathlib.Core.Bool.{Bool, true, not, ◌&&◌, ◌||◌}
use mathlib.Core.List.{List, [], ◌∷◌}
use mathlib.Core.Option.{some}
use native.Mathlib.Omega.{arith}
use cs2_opt.Prelude.Tests.{Bool-cases}
use cs2_opt.Prelude.Lists.{all, any, find, filter}
use cs2_opt.Prelude.{ltb, length}

module _ {A : Type 0} where
  abbrev pub In : A → List A → Type 0
  In a [] = ⊥
  In a (x ∷ xs) = (x ≡ a) ⊎ In a xs

  pub all-In : (p : A → Bool) (xs : List A) {a : A} → all p xs ≡ true → In a xs → p a ≡ true
  unfolding all
  all-In p [] h m = absurd m
  all-In p (x ∷ xs) h (inl e) = ground (arith, ap p e)
  all-In p (x ∷ xs) h (inr m) = all-In p xs (ground arith) m

  pub all_of : (p : A → Bool) (xs : List A) → ((a : A) → In a xs → p a ≡ true) → all p xs ≡ true
  unfolding all
  all_of p [] h = refl
  all_of p (x ∷ xs) h = ground (arith, h x (inl refl), all_of p xs (λ a m. h a (inr m)))

  pub find-In : (p : A → Bool) (xs : List A) (a : A) → find p xs ≡ some a → In a xs × (p a ≡ true)
  unfolding find
  find-In p [] a h = cc
  find-In p (x ∷ xs) a h = elim (Bool-cases (p x)) [
    | inl e ↦ (inl (ground arith), ground arith)
    | inr e ↦ (inr (find-In p xs a (ground arith)).0, (find-In p xs a (ground arith)).1)
  ]

  -- No entry has the same identity as a later one.
  unfoldable pub distinct_by : (A → A → Bool) → List A → Bool
  unfolding all
  distinct_by same [] = true
  distinct_by same (x ∷ xs) = all (λ y. not (same x y)) xs && distinct_by same xs

  pub find-distinct :
      (same : A → A → Bool) (xs : List A) (a : A)
      → same a a ≡ true
      → distinct_by same xs ≡ true
      → In a xs
      → find (λ x. same x a) xs ≡ some a
  unfolding find distinct_by
  find-distinct same [] a r d m = absurd m
  find-distinct same (x ∷ xs) a r d (inl e) = ground (arith, ap (λ y. same y a) e)
  find-distinct same (x ∷ xs) a r d (inr m) =
      ground (arith, all-In (λ y. not (same x y)) xs {a = a}, find-distinct same xs a r)

  pub all_iff : (p : A → Bool) (xs : List A) → (all p xs ≡ true) ↔ ((a : A) → In a xs → p a ≡ true)
  all_iff p xs = (λ h a m. all-In p xs h m, all_of p xs)

  pub all-filter :
      (p t : A → Bool) (xs : List A) → all t (filter p xs) ≡ all (λ x. not (p x) || t x) xs
  unfolding all filter
  all-filter p t [] = refl
  all-filter p t (x ∷ xs) = ground (arith, all-filter p t xs)

  pub any-filter : (p t : A → Bool) (xs : List A) → any t (filter p xs) ≡ any (λ x. p x && t x) xs
  unfolding any filter
  any-filter p t [] = refl
  any-filter p t (x ∷ xs) = ground (arith, any-filter p t xs)

  pub not-any : (p : A → Bool) (xs : List A) → not (any p xs) ≡ all (λ x. not (p x)) xs
  unfolding any all
  not-any p [] = refl
  not-any p (x ∷ xs) = ground (arith, not-any p xs)

  any-In : (p : A → Bool) (xs : List A) → any p xs ≡ true → (a : A) × In a xs × (p a ≡ true)
  unfolding any
  any-In p [] h = ground arith
  any-In p (x ∷ xs) h = elim (Bool-cases (p x)) [
    | inl here ↦ (x, inl refl, here)
    | inr later ↦ let (a, m, e) = any-In p xs (ground arith) in (a, inr m, e)
  ]

  In-any : (p : A → Bool) (xs : List A) (a : A) → In a xs → p a ≡ true → any p xs ≡ true
  unfolding any
  In-any p [] a m h = absurd m
  In-any p (x ∷ xs) a (inl e) h = ground (arith, ap p e)
  In-any p (x ∷ xs) a (inr m) h = ground (arith, In-any p xs a m h)

  pub any_iff :
      (p : A → Bool) (xs : List A) → (any p xs ≡ true) ↔ ((a : A) × In a xs × (p a ≡ true))
  any_iff p xs = (any-In p xs, λ (a, m, h). In-any p xs a m h)

  pub filter_nonempty : (p : A → Bool) (xs : List A) → ltb 0 (length (filter p xs)) ≡ any p xs
  unfolding any filter
  filter_nonempty p [] = ground arith
  filter_nonempty p (x ∷ xs) = ground (arith, filter_nonempty p xs)

  -- Conditions on the entries of a list are equivalent if they are so entry by entry.
  pub pointwise_iff :
      (P Q : A → Type 0) (xs : List A)
      → ((a : A) → P a ↔ Q a)
      → ((a : A) → In a xs → P a) ↔ ((a : A) → In a xs → Q a)
  pointwise_iff P Q xs e = (λ h a m. (e a).0 (h a m), λ h a m. (e a).1 (h a m))

pub iff_trans : {A B C : Type 0} → A ↔ B → B ↔ C → A ↔ C
iff_trans e d = (λ a. d.0 (e.0 a), λ c. e.1 (d.1 c))
