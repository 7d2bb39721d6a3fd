-- ===== src/Coverage.antt =====
-- src/pump_research/scheduling/policy.py: the coverage policy. A `datetime` is the number of
-- microseconds since the epoch in UTC, a `timedelta` a number of microseconds. The order of two
-- times is tested before they are subtracted, as the code does it.
pub mod Classes
pub mod Boundaries
pub mod Path
pub mod Validation
pub mod Settings
pub mod Samples
use pump_research.Prelude.{
  ℕ, ◌+◌, ◌-◌, ◌*◌, ◌/◌, max, Bool, false, ◌||◌, Option, none, some, List, [], ◌∷◌, Result, ok, err,
  ◌>>=◌, ltb, leb, ◌==◌, if◌then◌else◌,
}
use pump_research.Floats.{Floats}
pub use Classes.*

-- The policy of one process; `Float` is the type of the headroom ratio.
pub record AdaptivePollingPolicy (Float : Type 0) : Type 0 where
  pub intervals : CoverageClass → ℕ
  pub new_initial_duration : ℕ
  pub early_until : ℕ
  pub mature_until : ℕ
  pub cooled_until : ℕ
  pub long_tail_day_until : ℕ
  pub retire_after : ℕ
  pub fading_fast_duration : ℕ
  pub fading_total_duration : ℕ
  pub batch_size : ℕ
  pub lease_duration : ℕ
  pub max_in_flight_batches : ℕ
  pub request_budget_per_minute : ℕ
  pub request_attempts_per_batch : ℕ
  pub reserved_requests_per_minute : ℕ
  pub control_scan_tokens_per_minute : ℕ
  pub capacity_headroom_ratio : Float
  pub capacity_refresh : ℕ

pub data PolicyError : Type 0 where
  time_predates_admission time_predates_decision : PolicyError
  boundaries_not_increasing fading_not_increasing reserve_too_large : PolicyError

module _ {Float : Type 0} (p : AdaptivePollingPolicy Float) where
  -- The age path of a token that has no protected or fading state.
  age_class : ℕ → CoverageClass
  age_class age =
      if ltb age p.new_initial_duration
      then initial
      else if ltb age p.early_until
      then early
      else if ltb age p.mature_until
      then mature
      else if ltb age p.cooled_until
      then cooled
      else if ltb age p.long_tail_day_until
      then long_tail_day
      else if ltb age p.retire_after
      then long_tail_week
      else retired_control

  fading_class : ℕ → CoverageClass
  fading_class fading_age =
      if ltb fading_age p.fading_fast_duration
      then fading_tail
      else if ltb fading_age p.fading_total_duration
      then fading_cool
      else retired_control

  state_class :
      LifecycleState → (admitted_at state_decided_at at : ℕ) → Result PolicyError CoverageClass
  state_class active admitted_at state_decided_at at = ok protected_active
  state_class resurrected admitted_at state_decided_at at = ok protected_resurrected
  state_class watch admitted_at state_decided_at at = ok protected_watch
  state_class dormant admitted_at state_decided_at at = ok retired_control
  state_class fading admitted_at state_decided_at at =
      if ltb at state_decided_at
      then err time_predates_decision
      else ok (fading_class (at - state_decided_at))
  state_class new admitted_at state_decided_at at = ok (age_class (at - admitted_at))

  unfoldable pub coverage_class_for :
      LifecycleState → (admitted_at state_decided_at at : ℕ) → Result PolicyError CoverageClass
  unfolding age_class fading_class state_class
  coverage_class_for state admitted_at state_decided_at at =
      if ltb at admitted_at
      then err time_predates_admission
      else state_class state admitted_at state_decided_at at

  -- The wall time at which a class ends; `none` for a class that time alone does not end.
  boundary_of : CoverageClass → (admitted_at state_decided_at : ℕ) → Option ℕ
  boundary_of fading_tail admitted_at state_decided_at =
      some (state_decided_at + p.fading_fast_duration)
  boundary_of fading_cool admitted_at state_decided_at =
      some (state_decided_at + p.fading_total_duration)
  boundary_of initial admitted_at state_decided_at = some (admitted_at + p.new_initial_duration)
  boundary_of early admitted_at state_decided_at = some (admitted_at + p.early_until)
  boundary_of mature admitted_at state_decided_at = some (admitted_at + p.mature_until)
  boundary_of cooled admitted_at state_decided_at = some (admitted_at + p.cooled_until)
  boundary_of long_tail_day admitted_at state_decided_at =
      some (admitted_at + p.long_tail_day_until)
  boundary_of long_tail_week admitted_at state_decided_at = some (admitted_at + p.retire_after)
  boundary_of _ admitted_at state_decided_at = none

  unfoldable pub next_transition_at :
      LifecycleState → (admitted_at state_decided_at at : ℕ) → Result PolicyError (Option ℕ)
  unfolding coverage_class_for boundary_of
  next_transition_at state admitted_at state_decided_at at = do
    coverage ← coverage_class_for state admitted_at state_decided_at at
    ok (boundary_of coverage admitted_at state_decided_at)

  unfoldable pub interval_for_coverage : CoverageClass → Option ℕ
  interval_for_coverage retired_control = none
  interval_for_coverage coverage = some (p.intervals coverage)

  -- `math.ceil(60 * population / tokens)` on positive integers is the rounded-up quotient, for the
  -- populations that a table can hold.
  unfoldable pub capacity_target_interval_seconds : CoverageClass → (population : ℕ) → ℕ
  capacity_target_interval_seconds retired_control population =
      if population == 0
      then 60
      else max 60 (
          (60 * population + p.control_scan_tokens_per_minute - 1)
          / p.control_scan_tokens_per_minute)
  capacity_target_interval_seconds coverage population = p.intervals coverage / 1_000_000

  unfoldable pub interval_for : LifecycleState → ℕ
  interval_for new = p.intervals initial
  interval_for active = p.intervals protected_active
  interval_for watch = p.intervals protected_watch
  interval_for fading = p.intervals fading_tail
  interval_for dormant = p.intervals retired_control
  interval_for resurrected = p.intervals protected_resurrected

-- `any(left >= right for left, right in zip(boundaries, boundaries[1:]))`
any_not_below : List ℕ → Bool
any_not_below [] = false
any_not_below (left ∷ []) = false
any_not_below (left ∷ right ∷ rest) = leb right left || any_not_below (right ∷ rest)

module _ (floats : Floats) (p : AdaptivePollingPolicy (floats.Float)) where
  open floats use {of_ℕ, sub, mul, floor}

  unfoldable pub safe_request_floor : ℕ
  safe_request_floor =
      floor (mul (of_ℕ p.request_budget_per_minute) (sub (of_ℕ 1) p.capacity_headroom_ratio))

  unfoldable pub validate : Result PolicyError (Unit {0})
  unfolding any_not_below
  validate =
      if any_not_below (
        p.new_initial_duration ∷ p.early_until ∷ p.mature_until ∷ p.cooled_until
        ∷ p.long_tail_day_until ∷ p.retire_after ∷ [])
      then err boundaries_not_increasing
      else if leb p.fading_total_duration p.fading_fast_duration
      then err fading_not_increasing
      else if leb safe_request_floor p.reserved_requests_per_minute
      then err reserve_too_large
      else ok tt
