-- ===== src/Coverage/Path.antt =====
-- The age path and the FADING tail of src/pump_research/scheduling/policy.py, as windows of ages.
use pump_research.Prelude.{ℕ, ◌+◌, ◌-◌, ◌*◌, ◌/◌, ◌≤◌, ◌<◌, ◌≡◌, ◌↔◌, ok, arith}
use pump_research.Coverage.{
  AdaptivePollingPolicy, new, fading, CoverageClass, coverage_class_for,
  capacity_target_interval_seconds, initial, early, mature, fading_tail, fading_cool, cooled,
  long_tail_day, long_tail_week, retired_control,
}

-- The order of the boundaries that a validated policy has.
pub record IsIncreasing {Float : Type 0} (p : AdaptivePollingPolicy Float) : Type 0 where
  pub early_after : p.new_initial_duration < p.early_until
  pub mature_after : p.early_until < p.mature_until
  pub cooled_after : p.mature_until < p.cooled_until
  pub day_after : p.cooled_until < p.long_tail_day_until
  pub retired_after : p.long_tail_day_until < p.retire_after
  pub fading_after : p.fading_fast_duration < p.fading_total_duration

module _ {Float : Type 0} (p : AdaptivePollingPolicy Float) where
  -- The ages at which a NEW token has each class; the other classes have none.
  abbrev pub InAgeWindow : CoverageClass → ℕ → Type 0
  InAgeWindow initial age = age < p.new_initial_duration
  InAgeWindow early age = (p.new_initial_duration ≤ age) × (age < p.early_until)
  InAgeWindow mature age = (p.early_until ≤ age) × (age < p.mature_until)
  InAgeWindow cooled age = (p.mature_until ≤ age) × (age < p.cooled_until)
  InAgeWindow long_tail_day age = (p.cooled_until ≤ age) × (age < p.long_tail_day_until)
  InAgeWindow long_tail_week age = (p.long_tail_day_until ≤ age) × (age < p.retire_after)
  InAgeWindow retired_control age = p.retire_after ≤ age
  InAgeWindow _ age = ⊥

  -- The time since the FADING decision at which a token has each class.
  abbrev pub InFadingWindow : CoverageClass → ℕ → Type 0
  InFadingWindow fading_tail age = age < p.fading_fast_duration
  InFadingWindow fading_cool age = (p.fading_fast_duration ≤ age) × (age < p.fading_total_duration)
  InFadingWindow retired_control age = p.fading_total_duration ≤ age
  InFadingWindow _ age = ⊥

  -- Under increasing boundaries a NEW token has a class at exactly the ages of its window.
  pub coverage_class_for-new_iff :
      (admitted_at state_decided_at at : ℕ) (c : CoverageClass)
      → IsIncreasing p
      → admitted_at ≤ at
      → (coverage_class_for p new admitted_at state_decided_at at ≡ ok c)
        ↔ InAgeWindow c (at - admitted_at)
  unfolding coverage_class_for
  coverage_class_for-new_iff a d t initial v h = ground arith
  coverage_class_for-new_iff a d t _ v h = ground arith

  -- Under increasing boundaries a FADING token has a class at exactly the ages of its window.
  pub coverage_class_for-fading_iff :
      (admitted_at state_decided_at at : ℕ) (c : CoverageClass)
      → IsIncreasing p
      → admitted_at ≤ at
      → state_decided_at ≤ at
      → (coverage_class_for p fading admitted_at state_decided_at at ≡ ok c)
        ↔ InFadingWindow c (at - state_decided_at)
  unfolding coverage_class_for
  coverage_class_for-fading_iff a d t fading_tail v h k = ground arith
  coverage_class_for-fading_iff a d t _ v h k = ground arith

  rounded_up : (x k : ℕ) → 0 < k → x ≤ (x + k - 1) / k * k
  rounded_up x k h = grind arith

  -- The rotation of the retired population keeps to the scan budget: scanning every one of
  -- `population` tokens once per target interval needs at most
  -- `control_scan_tokens_per_minute` tokens a minute, and the interval is at least a minute.
  pub capacity_target_interval_seconds-control :
      (population : ℕ)
      → 0 < p.control_scan_tokens_per_minute
      → (60 * population
          ≤ capacity_target_interval_seconds p retired_control population
            * p.control_scan_tokens_per_minute)
        × (60 ≤ capacity_target_interval_seconds p retired_control population)
  unfolding capacity_target_interval_seconds
  capacity_target_interval_seconds-control n h =
      (grind (arith, rounded_up (60 * n) p.control_scan_tokens_per_minute h), ground arith)
