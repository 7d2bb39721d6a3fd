-- ===== src/Capacity/Plan.antt =====
-- src/pump_research/scheduling/capacity.py: `plan_capacity`.
use pump_research.Prelude.{
  ℕ, ◌+◌, ◌-◌, ◌*◌, max, Bool, true, false, not, ◌&&◌, ◌||◌, List, [], ◌∷◌, Result, ok, err, ◌>>=◌,
  map, ltb, leb, ◌==◌, if◌then◌else◌,
}
use pump_research.Prelude.Int.{ℤ, pos, negsuc, pos_part}
use pump_research.Floats.{Floats}
use pump_research.Coverage.{AdaptivePollingPolicy, capacity_target_interval_seconds}
use pump_research.Scheduler.Rows.{
  CoverageClass, protected_active, protected_resurrected, retired_control, same_class,
}
use pump_research.Capacity.{
  CapacityMode, normal, degraded, critical, CapacityError, negative_count, no_scheduled_capacity,
  exceeds_budget, zero_division, capacity_tiers, float, quotient, float_min, protected_tiers,
  lower_tiers, updated, requested_by, weighted_rates, interval_for_rate,
}

-- `CapacityPlan`, but for the snapshot of it.
pub record CapacityPlan (Float : Type 0) : Type 0 where
  pub mode : CapacityMode
  pub token_counts : CoverageClass → ℕ
  pub target_interval_seconds : CoverageClass → ℕ
  pub effective_interval_seconds : CoverageClass → ℕ
  pub requested_token_observations_per_minute : Float
  pub available_token_observations_per_minute : ℕ
  pub effective_token_observations_per_minute : Float
  pub requested_requests_per_minute : Float
  pub safe_requests_per_minute : ℕ
  pub reserved_requests_per_minute : ℕ
  pub available_requests_per_minute : ℕ
  pub effective_requests_per_minute : Float
  pub capacity_utilization_pct : Float
  pub effective_capacity_utilization_pct : Float
  pub degraded_schedule_count : ℕ
  pub degraded_schedule_pct : Float

unfoldable pub any_tier : (CoverageClass → Bool) → List CoverageClass → Bool
any_tier test [] = false
any_tier test (t ∷ ts) = test t || any_tier test ts

unfoldable pub is_negative : ℤ → Bool
is_negative (pos n) = false
is_negative (negsuc n) = true

unfoldable pub count_sum : (CoverageClass → ℕ) → List CoverageClass → ℕ
count_sum counts [] = 0
count_sum counts (t ∷ ts) = counts t + count_sum counts ts

module _ (F : Floats) (sum : List F.Float → F.Float) (policy : AdaptivePollingPolicy F.Float) where
  unfoldable pub targets_of : (counts : CoverageClass → ℕ) → CoverageClass → ℕ
  targets_of counts tier = capacity_target_interval_seconds policy tier (counts tier)

  unfoldable pub requested_rate : (targets : CoverageClass → ℕ) → CoverageClass → F.Float
  requested_rate targets tier = F.div (float F 60) (F.of_ℕ (targets tier))

  unfoldable pub requested_load :
      (counts : CoverageClass → ℕ)
      → (rates : CoverageClass → F.Float) → List CoverageClass
      → F.Float
  requested_load counts rates tiers = sum (map (λ t. F.mul (F.of_ℕ (counts t)) (rates t)) tiers)

  unfoldable pub safe_requests : ℕ
  safe_requests = max 1 (
      F.floor (
        F.mul (F.of_ℕ policy.request_budget_per_minute)
          (F.sub (float F 1) policy.capacity_headroom_ratio)))

  unfoldable pub scheduled_requests : ℕ
  scheduled_requests = safe_requests - policy.reserved_requests_per_minute

  unfoldable pub available_tokens : ℕ
  available_tokens = scheduled_requests * policy.batch_size

  module _ (counts : CoverageClass → ℕ) (rates : CoverageClass → F.Float) where
    unfoldable pub control_requested : F.Float
    control_requested = F.mul (F.of_ℕ (counts retired_control)) (rates retired_control)

    unfoldable pub with_control : (control_budget : F.Float) → CoverageClass → F.Float
    with_control control_budget tier =
        if same_class tier retired_control && not (counts retired_control == 0)
        then F.div control_budget (F.of_ℕ (counts retired_control))
        else rates tier

    -- What the lower tiers get of their budget, after the control tier.
    unfoldable pub lower_rates :
        (lower_budget : F.Float) → Result CapacityError (CoverageClass → F.Float)
    lower_rates lower_budget =
        let control_budget = float_min F control_requested lower_budget in
        do
          lower ←
              weighted_rates F sum counts rates (lower_tiers F) (F.sub lower_budget control_budget)
          ok (updated F (lower_tiers F) lower (with_control control_budget))

    unfoldable pub lower_populated : Bool
    lower_populated =
        any_tier
          (λ t.
            not (same_class t protected_active || same_class t protected_resurrected)
            && not (counts t == 0))
          capacity_tiers

    unfoldable pub critical_budget : F.Float
    critical_budget =
        F.mul (F.of_ℕ available_tokens)
          (if lower_populated then F.sub (float F 1) (quotient F 5 100) else float F 1)

    unfoldable pub critical_rates : Result CapacityError (CoverageClass → F.Float)
    critical_rates = do
      protected ← weighted_rates F sum counts rates (protected_tiers F) critical_budget
      lower ← lower_rates (F.sub (F.of_ℕ available_tokens) critical_budget)
      ok (updated F (protected_tiers F) protected lower)

    unfoldable pub mode_for : CapacityMode
    mode_for =
        if F.at_most (requested_load counts rates capacity_tiers) (F.of_ℕ available_tokens)
        then normal
        else if F.at_most (F.of_ℕ available_tokens)
            (requested_by F sum counts rates (protected_tiers F))
        then critical
        else degraded

    unfoldable pub rates_in : CapacityMode → Result CapacityError (CoverageClass → F.Float)
    rates_in normal = ok rates
    rates_in critical = critical_rates
    rates_in degraded =
        lower_rates
          (F.sub (F.of_ℕ available_tokens) (requested_by F sum counts rates (protected_tiers F)))

    unfoldable pub intervals_for :
        (targets : CoverageClass → ℕ)
        → (effective : CoverageClass → F.Float) → List CoverageClass
        → Result CapacityError (CoverageClass → ℕ)
    intervals_for targets effective [] = ok targets
    intervals_for targets effective (t ∷ ts) = do
      interval ← interval_for_rate F (targets t) (effective t) (leb 1 (counts t))
      rest ← intervals_for targets effective ts
      ok (λ tier. if same_class tier t then interval else rest tier)

    unfoldable pub plan_of :
        CapacityMode
        → (targets intervals : CoverageClass → ℕ) → (effective : F.Float) → CapacityPlan F.Float
    plan_of mode targets intervals effective =
        let requested = requested_load counts rates capacity_tiers in
        let degraded_count =
          count_sum (λ t. if ltb (targets t) (intervals t) then counts t else 0) capacity_tiers in
        let total_count = count_sum counts capacity_tiers in
        record {
          mode = mode;
          token_counts = counts;
          target_interval_seconds = targets;
          effective_interval_seconds = intervals;
          requested_token_observations_per_minute = requested;
          available_token_observations_per_minute = available_tokens;
          effective_token_observations_per_minute = effective;
          requested_requests_per_minute = F.div requested (F.of_ℕ policy.batch_size);
          safe_requests_per_minute = safe_requests;
          reserved_requests_per_minute = policy.reserved_requests_per_minute;
          available_requests_per_minute = scheduled_requests;
          effective_requests_per_minute = F.div effective (F.of_ℕ policy.batch_size);
          capacity_utilization_pct =
              F.div (F.mul (float F 100) requested) (F.of_ℕ available_tokens);
          effective_capacity_utilization_pct =
              F.div (F.mul (float F 100) effective) (F.of_ℕ available_tokens);
          degraded_schedule_count = degraded_count;
          degraded_schedule_pct =
              if total_count == 0
              then float F 0
              else F.div (F.mul (float F 100) (F.of_ℕ degraded_count)) (F.of_ℕ total_count);
        }

    -- The observations a minute that the intervals make.
    unfoldable pub effective_load : (intervals : CoverageClass → ℕ) → F.Float
    effective_load intervals = sum (
        map (λ t. F.div (F.mul (F.of_ℕ (counts t)) (float F 60)) (F.of_ℕ (intervals t)))
          capacity_tiers)

    unfoldable pub fitted :
        (targets : CoverageClass → ℕ) → CapacityMode → Result CapacityError (CapacityPlan F.Float)
    fitted targets mode = do
      effective_rates ← rates_in mode
      intervals ← intervals_for targets effective_rates capacity_tiers
      if F.less (F.add (F.of_ℕ available_tokens) (quotient F 1 1_000_000_000))
            (effective_load intervals)
          then err exceeds_budget
          else if policy.batch_size == 0
          then err zero_division
          else ok (plan_of mode targets intervals (effective_load intervals))

  unfoldable pub plan_counts :
      (counts : CoverageClass → ℕ) → Result CapacityError (CapacityPlan F.Float)
  plan_counts counts =
      let targets = targets_of counts in
      let rates = requested_rate targets in
      if any_tier (λ t. targets t == 0) capacity_tiers
      then err zero_division
      else if leb safe_requests policy.reserved_requests_per_minute
      then err no_scheduled_capacity
      else fitted counts rates targets (mode_for counts rates)

  -- A tier without an entry counts 0.
  unfoldable pub plan_capacity :
      (token_counts : CoverageClass → ℤ) → Result CapacityError (CapacityPlan F.Float)
  plan_capacity token_counts =
      if any_tier (λ t. is_negative (token_counts t)) capacity_tiers
      then err negative_count
      else plan_counts (λ t. pos_part (token_counts t))
