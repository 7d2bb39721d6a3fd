-- ===== src/Floats/Fixed.antt =====
-- A concrete instance of the float interface, for tests: fixed-point numbers in millionths.
-- `sub` stops at zero: the code takes the maximum with zero of a difference that may be negative.
use pump_research.Prelude.{ℕ, ◌+◌, ◌-◌, ◌*◌, ◌/◌, ltb, leb}
use pump_research.Floats.{Floats}

abbrev pub fixed : Floats
fixed = record {
  Float = ℕ;
  of_ℕ = λ n. n * 1_000_000;
  add = λ a b. a + b;
  sub = λ a b. a - b;
  mul = λ a b. a * b / 1_000_000;
  div = λ a b. a * 1_000_000 / b;
  less = ltb;
  at_most = leb;
  floor = λ a. a / 1_000_000;
  ceil = λ a. (a + 999_999) / 1_000_000;
}
