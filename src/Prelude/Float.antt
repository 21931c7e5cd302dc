-- ===== src/Prelude/Float.antt =====
-- `f64` as the source uses it: a type with comparisons and a conversion, whose values the model
-- does not look into. Comparisons are Boolean, so that a NaN may fail all of them.
use cs2_opt.Prelude.Tests.{ltb, leb, ◌==◌}
use Prim.Native.Nat.{ℕ}
use mathlib.Core.Path.{◌≡◌, refl}
use native.Mathlib.Omega.{arith}
use mathlib.Core.Bool.{not, Bool, true, ◌&&◌}

pub record F64 (F : Type 0) : Type 0 where
  pub zero_f64 : F
  pub is_finite : F → Bool
  pub lt : F → F → Bool
  pub le : F → F → Bool
  pub eq : F → F → Bool
  pub from_u32 : ℕ → F

-- The numbers that are whole and not negative, for running the model.
instance abbrev pub whole : F64 ℕ
whole = record {
  zero_f64 = 0;
  is_finite = λ x. true;
  lt = ltb;
  le = leb;
  eq = ◌==◌;
  from_u32 = λ n. n;
}

module _ {F : Type 0} ⦃f : F64 F⦄ where
  -- `x.is_finite() && x > 0.0`
  abbrev pub is_finite_positive : F → Bool
  is_finite_positive x = f.is_finite x && f.lt f.zero_f64 x

-- What IEEE 754 says of comparisons between finite numbers, for the statements that need it.
pub record F64Laws {F : Type 0} (f : F64 F) : Type 0 where
  pub eq_refl : (x : F) → f.is_finite x ≡ true → f.eq x x ≡ true
  pub lt-not-le :
      (x y : F) → f.is_finite x ≡ true → f.is_finite y ≡ true → f.lt x y ≡ not (f.le y x)
  pub zero_is_finite : f.is_finite f.zero_f64 ≡ true
  pub lt-le : (x y : F) → f.lt x y ≡ true → f.le x y ≡ true

pub whole_laws : F64Laws whole
whole_laws = record {
  eq_refl = λ x _. ground arith;
  lt-not-le = λ x y _ _. ground arith;
  zero_is_finite = refl;
  lt-le = λ x y h. ground arith;
}
