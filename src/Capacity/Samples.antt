-- ===== src/Capacity/Samples.antt =====
-- src/pump_research/scheduling/capacity.py: plans of small populations, in fixed-point arithmetic.
use pump_research.Prelude.{
  ℕ, ◌+◌, ◌*◌, ◌≡◌, ◌≤◌, refl, true, false, some, List, [], ◌∷◌, ok, err, All, arith, leb, ◌==◌,
  select as where_,
}
use pump_research.Prelude.Int.{ℤ, pos, negsuc, pos_part}
use pump_research.Floats.Fixed.{fixed}
use pump_research.Floats.Order.{fixed-IsOrderedFloats}
use pump_research.Coverage.{AdaptivePollingPolicy, capacity_target_interval_seconds}
use pump_research.Coverage.Settings.{seconds}
use pump_research.Coverage.Samples.{default_policy}
use pump_research.Scheduler.Rows.{
  CoverageClass, protected_active, initial, retired_control, same_class,
}
use pump_research.Capacity.{
  capacity_tiers, normal, degraded, negative_count, no_positive_budget, quotient, float_min,
  greater, protected_tiers, lower_tiers, weight_of, populated, requested_by, demand, highest,
  halved, bisect, allocated, level_for, share, weighted_rates, interval_for_rate,
}
use pump_research.Capacity.Plan.{
  CapacityPlan, any_tier, is_negative, count_sum, targets_of, requested_rate, requested_load,
  safe_requests, scheduled_requests, available_tokens, control_requested, mode_for, rates_in,
  intervals_for, plan_of, effective_load, fitted, plan_counts, plan_capacity,
}
use pump_research.Capacity.Inversion.{targets_for, rates_for}
use pump_research.Capacity.Modes.{in_normal, observations, plan_capacity-bounds, plan_capacity-full}
use pump_research.Capacity.Bisection.{HasZero, IsWeighted, weighted_rates-within}
use pump_research.Capacity.Starvation.{plan_capacity-starved}

abbrev total : List ℕ → ℕ
total [] = 0
total (x ∷ xs) = x + total xs

total-zeros : (xs : List ℕ) → All (λ x. x ≡ 0) xs → total xs ≡ 0
total-zeros [] h = refl
total-zeros (x ∷ xs) (e, h) = omega (arith, e, total-zeros xs h)

zeros : HasZero fixed total
zeros = record {
  zero_mul = λ w. omega arith;
  mul_zero = λ n. omega arith;
  sub_self = λ a. omega arith;
  sum_zeros = total-zeros;
}

abbrev few_tokens : CoverageClass → ℤ
few_tokens initial = pos 10
few_tokens _ = pos 0

abbrev few : CoverageClass → ℕ
few t = pos_part (few_tokens t)

abbrev owing : CoverageClass → ℤ
owing initial = negsuc 0
owing _ = pos 0

refused : plan_capacity fixed total default_policy owing ≡ err negative_count
unfolding plan_capacity any_tier is_negative
refused = refl

abbrev slow_policy : AdaptivePollingPolicy ℕ
slow_policy = record default_policy { intervals = λ c. seconds 60 }

-- 5,340 observations a minute are available: one is left for the two that the control tier wants.
abbrev crowded : CoverageClass → ℕ
crowded protected_active = 5339
crowded initial = 1
crowded retired_control = 120
crowded _ = 0

available : available_tokens fixed total slow_policy ≡ 5340
unfolding available_tokens scheduled_requests safe_requests
available = refl

abbrev planned : (p : CapacityPlan ℕ) × (plan_capacity fixed total default_policy few_tokens ≡ ok p)
unfolding plan_capacity plan_counts fitted any_tier is_negative targets_of requested_rate
    requested_load safe_requests scheduled_requests available_tokens mode_for rates_in intervals_for
    interval_for_rate effective_load plan_of same_class capacity_target_interval_seconds
    requested_by count_sum
planned = (_, refl)

planned_normal : planned.0.mode ≡ normal
unfolding planned
planned_normal = refl

plan_capacity-bounds_example :
    ((tier : CoverageClass) → planned.0.token_counts tier ≡ pos_part (few_tokens tier))
    × (fixed.less
          (fixed.add
            (fixed.of_ℕ planned.0.available_token_observations_per_minute)
            (quotient fixed 1 1_000_000_000))
          (observations fixed total default_policy planned.0)
        ≡ false)
    × (planned.0.effective_token_observations_per_minute
        ≡ observations fixed total default_policy planned.0)
    × (planned.0.available_requests_per_minute + planned.0.reserved_requests_per_minute
        ≡ planned.0.safe_requests_per_minute)
    × (1 ≤ planned.0.available_requests_per_minute)
    × (planned.0.available_token_observations_per_minute
        ≡ planned.0.available_requests_per_minute * default_policy.batch_size)
    × ((tier : CoverageClass)
        → planned.0.target_interval_seconds tier ≤ planned.0.effective_interval_seconds tier)
plan_capacity-bounds_example = plan_capacity-bounds fixed total default_policy few_tokens planned.1

plan_capacity-full_example :
    planned.0.effective_interval_seconds initial ≡ planned.0.target_interval_seconds initial
plan_capacity-full_example =
    plan_capacity-full fixed total default_policy fixed-IsOrderedFloats few_tokens planned.1 initial
      (in_normal planned_normal)

-- Ten INITIAL tokens that ask for 60 observations a minute share 40.
abbrev rate_of : CoverageClass → ℕ
rate_of t = 6_000_000

abbrev shared :
    (r : CoverageClass → ℕ) × (weighted_rates fixed total few rate_of (lower_tiers fixed) 40_000_000
      ≡ ok r)
unfolding weighted_rates share populated where_ requested_by level_for bisect halved demand highest
    allocated float_min greater
shared = (_, refl)

shared_rate : shared.0 initial ≡ 4_000_000
unfolding shared allocated weight_of same_class level_for bisect halved demand float_min highest
    greater
shared_rate = refl

lower-IsWeighted :
    All
      (IsWeighted fixed total fixed-IsOrderedFloats zeros few rate_of (lower_tiers fixed))
      (lower_tiers fixed)
unfolding weight_of same_class
lower-IsWeighted = (refl, (refl, (refl, (refl, (refl, (refl, (refl, (refl, (refl, tt)))))))))

weighted_rates-within_example :
    fixed.at_most
      (requested_by fixed total few shared.0
        (populated fixed total few rate_of (lower_tiers fixed)))
      40_000_000
    ≡ true
weighted_rates-within_example =
    weighted_rates-within fixed total fixed-IsOrderedFloats zeros few rate_of (lower_tiers fixed)
      40_000_000 lower-IsWeighted
      (refl, (refl, (refl, (refl, (refl, (refl, (refl, (refl, (refl, tt))))))))) refl shared.1

crowded_targets :
    any_tier (λ t. targets_for fixed total slow_policy crowded t == 0) capacity_tiers ≡ false
unfolding any_tier targets_of capacity_target_interval_seconds
crowded_targets = refl

crowded_reserve :
    leb (safe_requests fixed total slow_policy) slow_policy.reserved_requests_per_minute ≡ false
unfolding safe_requests
crowded_reserve = refl

crowded_mode :
    mode_for fixed total slow_policy crowded (rates_for fixed total slow_policy crowded) ≡ degraded
unfolding mode_for requested_load requested_by requested_rate targets_of
    capacity_target_interval_seconds available_tokens scheduled_requests safe_requests
crowded_mode = refl

initial_weight : weight_of fixed initial (lower_tiers fixed) ≡ some 32_000_000
unfolding weight_of same_class
initial_weight = refl

crowded_starves :
    fixed.less
      (fixed.sub (fixed.of_ℕ (available_tokens fixed total slow_policy)) (
        requested_by fixed total crowded
          (rates_for fixed total slow_policy crowded)
          (protected_tiers fixed)))
      (control_requested fixed total slow_policy crowded
        (rates_for fixed total slow_policy crowded))
    ≡ true
unfolding requested_by requested_rate targets_of capacity_target_interval_seconds available_tokens
    scheduled_requests safe_requests control_requested
crowded_starves = refl

plan_capacity-starved_example :
    plan_capacity fixed total slow_policy (λ t. pos (crowded t)) ≡ err no_positive_budget
plan_capacity-starved_example =
    plan_capacity-starved fixed total fixed-IsOrderedFloats zeros slow_policy crowded initial
      32_000_000 crowded_targets crowded_reserve crowded_mode initial_weight refl crowded_starves
