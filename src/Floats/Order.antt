-- ===== src/Floats/Order.antt =====
-- What the code relies on of the order and the addition of Python's floats that are not NaN, and the
-- fixed-point instance of it.
use pump_research.Prelude.{refl, ◌≡◌, true, false, arith}
use pump_research.Floats.{Floats}
use pump_research.Floats.Fixed.{fixed}

pub record IsOrderedFloats (F : Floats) : Type 0 where
  pub at_most_refl : (a : F.Float) → F.at_most a a ≡ true
  pub at_most_trans :
      (a b c : F.Float) → F.at_most a b ≡ true → F.at_most b c ≡ true → F.at_most a c ≡ true
  pub less-at_most : (a b : F.Float) → F.less a b ≡ true → F.at_most a b ≡ true
  pub less-false : (a b : F.Float) → F.less a b ≡ false → F.at_most b a ≡ true
  -- Rounding keeps the order of two sums with one summand.
  pub add-at_most :
      (a b c : F.Float) → F.at_most a b ≡ true → F.at_most (F.add a c) (F.add b c) ≡ true

-- A difference is positive exactly where its operands are in that order: Python's floats have
-- subnormal numbers.
pub record IsSignedDifference (F : Floats) : Type 0 where
  pub zero_not-less : F.less (F.of_ℕ 0) (F.of_ℕ 0) ≡ false
  pub sub-positive : (a b : F.Float) → F.less (F.of_ℕ 0) (F.sub a b) ≡ F.less b a

pub fixed-IsSignedDifference : IsSignedDifference fixed
fixed-IsSignedDifference = record { zero_not-less = refl; sub-positive = λ a b. ground arith }

pub fixed-IsOrderedFloats : IsOrderedFloats fixed
fixed-IsOrderedFloats = record {
  at_most_refl = λ a. ground arith;
  at_most_trans = λ a b c h k. ground arith;
  less-at_most = λ a b h. ground arith;
  less-false = λ a b h. ground arith;
  add-at_most = λ a b c h. ground arith;
}
