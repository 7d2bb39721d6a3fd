-- ===== src/Capacity.antt =====
-- src/pump_research/scheduling/capacity.py: the allocation of rates to coverage classes and the
-- intervals that serve them. A float constant of the code is the quotient of two integers that are
-- floats, which rounds to it; `sum` is Python's sum of a sequence of floats, a parameter.
pub mod Plan
pub mod Inversion
pub mod Modes
pub mod Bisection
pub mod Samples
pub mod Starvation
use pump_research.Prelude.{
  ℕ, zero, suc, max, Bool, true, false, not, ◌&&◌, ◌||◌, Option, none, some, List, [], ◌∷◌, Result,
  ok, err, ◌>>=◌, map, leb, if◌then◌else◌, select as where_,
}
use pump_research.Floats.{Floats}
use pump_research.Scheduler.Rows.{
  CoverageClass, protected_active, protected_resurrected, protected_watch, initial, early, mature,
  fading_tail, fading_cool, cooled, long_tail_day, long_tail_week, retired_control, same_class,
}

pub data CapacityMode : Type 0 where
  normal degraded critical : CapacityMode

pub data CapacityError : Type 0 where
  negative_count no_scheduled_capacity no_positive_budget no_positive_rate : CapacityError
  exceeds_budget zero_division : CapacityError

-- The enumeration, in its order.
abbrev pub capacity_tiers : List CoverageClass
capacity_tiers =
    protected_active ∷ protected_resurrected ∷ protected_watch ∷ initial ∷ early ∷ mature
    ∷ fading_tail ∷ fading_cool ∷ cooled ∷ long_tail_day ∷ long_tail_week ∷ retired_control ∷ []

module _ (F : Floats) where
  -- The literals of the code: n.0 and n / d.
  abbrev pub float : ℕ → F.Float
  float n = F.of_ℕ n

  abbrev pub quotient : ℕ → ℕ → F.Float
  quotient n d = F.div (F.of_ℕ n) (F.of_ℕ d)

  -- `min(a, b)` is `a` unless `b` is less; `max(a, b)` is `a` unless `b` is greater.
  unfoldable pub float_min : F.Float → F.Float → F.Float
  float_min a b = if F.less b a then b else a

  unfoldable pub greater : F.Float → F.Float → F.Float
  greater a b = if F.less a b then b else a

  -- `_PROTECTED_TIERS` and `_LOWER_TIERS`, each tier with its weight.
  abbrev pub protected_tiers : List (CoverageClass × F.Float)
  protected_tiers = (protected_active, float 1) ∷ (protected_resurrected, float 1) ∷ []

  abbrev pub lower_tiers : List (CoverageClass × F.Float)
  lower_tiers =
      (protected_watch, float 64)
      ∷ (initial, float 32)
      ∷ (early, float 16)
      ∷ (mature, float 8)
      ∷ (fading_tail, float 4)
      ∷ (fading_cool, float 2)
      ∷ (cooled, float 2)
      ∷ (long_tail_day, float 1)
      ∷ (long_tail_week, quotient 1 2)
      ∷ []

  unfoldable pub weight_of : CoverageClass → List (CoverageClass × F.Float) → Option F.Float
  weight_of tier [] = none
  weight_of tier ((t, w) ∷ ts) = if same_class tier t then some w else weight_of tier ts

  -- `dict.update` with the rates of the given tiers.
  unfoldable pub updated :
      List (CoverageClass × F.Float)
      → (CoverageClass → F.Float)
      → (CoverageClass → F.Float)
      → CoverageClass
      → F.Float
  updated tiers rates before tier = elim (weight_of tier tiers) [
    | none ↦ before tier
    | some w ↦ rates tier
  ]

  module _ (sum : List F.Float → F.Float) (counts : CoverageClass → ℕ)
      (requested_rates : CoverageClass → F.Float) where
    unfoldable pub populated : List (CoverageClass × F.Float) → List (CoverageClass × F.Float)
    populated tiers = where_ (λ (t, w). leb 1 (counts t)) tiers

    unfoldable pub requested_by : List (CoverageClass × F.Float) → F.Float
    requested_by ts = sum (map (λ (t, w). F.mul (F.of_ℕ (counts t)) (requested_rates t)) ts)

    -- The demand of the populated tiers at a level of the water.
    unfoldable pub demand : List (CoverageClass × F.Float) → (level : F.Float) → F.Float
    demand ts level = sum (
        map (λ (t, w). F.mul (F.of_ℕ (counts t)) (float_min (requested_rates t) (F.mul level w)))
          ts)

    unfoldable pub highest : List (CoverageClass × F.Float) → F.Float → F.Float
    highest [] best = best
    highest ((t, w) ∷ ts) best = highest ts (greater best (F.div (requested_rates t) w))

    -- One round of the bisection, which keeps `low` or `high`.
    unfoldable pub halved :
        List (CoverageClass × F.Float) → (budget : F.Float) → F.Float × F.Float → F.Float × F.Float
    halved ts budget (low, high) =
        let level = F.div (F.add low high) (float 2) in
        if F.at_most (demand ts level) budget then (level, high) else (low, level)

    unfoldable pub bisect :
        (rounds : ℕ)
        → List (CoverageClass × F.Float)
        → (budget : F.Float) → F.Float × F.Float
        → F.Float × F.Float
    bisect zero ts budget bounds = bounds
    bisect (suc n) ts budget bounds = bisect n ts budget (halved ts budget bounds)

    -- The rates that the level gives to the populated tiers.
    unfoldable pub allocated :
        List (CoverageClass × F.Float) → (low : F.Float) → CoverageClass → F.Float
    allocated tiers low tier = elim (weight_of tier tiers) [
      | none ↦ requested_rates tier
      | some w ↦
          if leb 1 (counts tier)
          then float_min (requested_rates tier) (F.mul low w)
          else requested_rates tier
    ]

    -- The level of the water, by 80 rounds of bisection.
    unfoldable pub level_for :
        List (CoverageClass × F.Float) → (budget : F.Float) → F.Float → F.Float
    level_for ts budget top = (bisect 80 ts budget (float 0, top)).0

    unfoldable pub share :
        (tiers present : List (CoverageClass × F.Float))
        → (budget : F.Float) → Result CapacityError (CoverageClass → F.Float)
    share tiers [] budget = ok requested_rates
    share tiers ((t, w) ∷ ts) budget =
        if F.at_most budget (float 0)
        then err no_positive_budget
        else if F.at_most (requested_by ((t, w) ∷ ts)) budget
        then ok requested_rates
        else ok (
            allocated tiers
              (level_for ((t, w) ∷ ts) budget (highest ts (F.div (requested_rates t) w))))

    -- `_weighted_rates`; what it returns is read at the given tiers.
    unfoldable pub weighted_rates :
        List (CoverageClass × F.Float)
        → (budget : F.Float) → Result CapacityError (CoverageClass → F.Float)
    weighted_rates tiers budget = share tiers (populated tiers) budget

  -- `_interval_for_rate`
  unfoldable pub interval_for_rate :
      (requested_interval : ℕ)
      → (effective_rate : F.Float) → (is_populated : Bool) → Result CapacityError ℕ
  interval_for_rate requested_interval effective_rate is_populated =
      if not is_populated || F.at_most (F.div (float 60) (F.of_ℕ requested_interval)) effective_rate
      then ok requested_interval
      else if F.at_most effective_rate (float 0)
      then err no_positive_rate
      else ok (
          max requested_interval
            (F.ceil (F.sub (F.div (float 60) effective_rate) (quotient 1 1_000_000_000_000))))
