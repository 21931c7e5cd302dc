-- ===== src/Prelude/Outcome.antt =====
-- `Result<T, E>` of the source, with the `?` operator as bind.
use mathlib.Core.Bool.{Bool, true, false}
use mathlib.Core.Option.{Option, none, some}
use mathlib.Core.Path.{◌≡◌, refl}
use native.Mathlib.Omega.{arith}

pub data Result {ℓ κ} (E : Type κ) (A : Type ℓ) : Type (ℓ ⊔ κ) where
  ok : A → Result E A
  err : E → Result E A

module _ {ℓ κ μ} {E : Type κ} {A : Type ℓ} {B : Type μ} where
  infixl 5 ◌>>=◌
  abbrev pub ◌>>=◌ : Result E A → (A → Result E B) → Result E B
  ok a >>= f = f a
  err e >>= f = err e

module _ {μ κ} {E : Type κ} {B : Type μ} where
  infixl 5 ◌>>◌
  abbrev pub ◌>>◌ : Result E (Unit {0}) → Result E B → Result E B
  m >> k = m >>= λ _. k

-- `if !test { return Err(e) }`
abbrev pub ensure {κ} : {E : Type κ} → Bool → E → Result E (Unit {0})
ensure true e = ok tt
ensure false e = err e

-- `option.ok_or(e)?`
abbrev pub required {ℓ κ} : {E : Type κ} {A : Type ℓ} → Option A → E → Result E A
required (some a) e = ok a
required none e = err e

-- `Result::map_err`
abbrev pub map_err {ℓ κ μ} :
    {E : Type κ} {D : Type μ} {A : Type ℓ} → (E → D) → Result E A → Result D A
map_err f (ok a) = ok a
map_err f (err e) = err (f e)

-- How a chain of steps that ends well went.
module _ {ℓ κ μ} {E : Type κ} {A : Type ℓ} {B : Type μ} where
  pub bind-ok :
      (m : Result E A) (k : A → Result E B) (b : B)
      → (m >>= k) ≡ ok b
      → (a : A) × (m ≡ ok a) × (k a ≡ ok b)
  bind-ok (ok a) k b h = (a, refl, h)
  bind-ok (err e) k b h = ground arith

  pub required-ok :
      (o : Option A) (e : E) (k : A → Result E B) (b : B)
      → (required o e >>= k) ≡ ok b
      → (a : A) × (o ≡ some a) × (k a ≡ ok b)
  required-ok (some a) e k b h = (a, refl, h)
  required-ok none e k b h = ground arith

module _ {κ μ} {E : Type κ} {B : Type μ} where
  pub then-ok :
      (m : Result E (Unit {0})) (k : Result E B) (b : B)
      → (m >> k) ≡ ok b
      → (m ≡ ok tt) × (k ≡ ok b)
  then-ok (ok u) k b h = (refl, h)
  then-ok (err e) k b h = ground arith

  pub ensure-ok :
      (t : Bool) (e : E) (k : Result E B) (b : B)
      → (ensure t e >> k) ≡ ok b
      → (t ≡ true) × (k ≡ ok b)
  ensure-ok true e k b h = (refl, h)
  ensure-ok false e k b h = ground arith

pub map_err-ok {ℓ κ μ} :
    {E : Type κ} {D : Type μ} {A : Type ℓ} (f : E → D) (m : Result E A) (a : A)
    → map_err f m ≡ ok a
    → m ≡ ok a
map_err-ok f (ok x) a h = ground arith
map_err-ok f (err e) a h = ground arith

pub ok-injective {ℓ κ} :
    {E : Type κ} {A : Type ℓ} (a b : A) → Path (Result E A) (ok a) (ok b) → a ≡ b
ok-injective a b h = ground arith
