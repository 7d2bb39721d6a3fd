-- ===== src/Floats.antt =====
-- Python's floats, as the code uses them: an interface of operations, which the policies
-- take as a parameter.
pub mod Fixed
pub mod Order
use pump_research.Prelude.{ℕ, Bool}

pub record Floats : Type 1 where
  pub Float : Type 0
  pub of_ℕ : ℕ → Float
  pub add : Float → Float → Float
  pub sub : Float → Float → Float
  pub mul : Float → Float → Float
  pub div : Float → Float → Float
  pub less : Float → Float → Bool
  pub at_most : Float → Float → Bool
  -- `math.floor` and `math.ceil` of a value that is not negative.
  pub floor : Float → ℕ
  pub ceil : Float → ℕ
