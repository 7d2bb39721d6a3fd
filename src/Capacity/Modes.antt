-- ===== src/Capacity/Modes.antt =====
-- What a plan of src/pump_research/scheduling/capacity.py promises to each tier.
use pump_research.Prelude.{
  ℕ, ◌+◌, ◌*◌, ◌≤◌, ◌≡◌, ◌⊎◌, inl, inr, refl, sym, ap, ◌∙◌, subst, Bool, true, false, List, [], ◌∷◌,
  ok, >>=-eq-ok, arith, ltb, leb, if◌then◌else◌,
}
use pump_research.Prelude.Int.{ℤ, pos_part}
use pump_research.Floats.{Floats}
use pump_research.Floats.Order.{IsOrderedFloats}
use pump_research.Coverage.{AdaptivePollingPolicy}
use pump_research.Scheduler.Rows.{
  CoverageClass, protected_active, protected_resurrected, protected_watch, initial, early, mature,
  fading_tail, fading_cool, cooled, long_tail_day, long_tail_week, retired_control, same_class,
}
use pump_research.Capacity.{
  CapacityMode, normal, degraded, capacity_tiers, quotient, float, lower_tiers, weight_of, updated,
  weighted_rates, interval_for_rate, float_min,
}
use pump_research.Capacity.Plan.{
  CapacityPlan, count_sum, requested_rate, scheduled_requests, available_tokens, control_requested,
  with_control, lower_rates, mode_for, rates_in, plan_of, effective_load, plan_capacity,
}
use pump_research.Capacity.Inversion.{
  every_tier, targets_for, rates_for, count_of, plan_capacity-IsPlanned, intervals_for-at,
  interval_for_rate_le,
}

-- The tiers that a plan serves in full: one without tokens, each in NORMAL, and the protected ones
-- in DEGRADED.
pub data IsFull {Float : Type 0} (p : CapacityPlan Float) (tier : CoverageClass) : Type 0 where
  without_tokens : p.token_counts tier ≡ 0 → IsFull p tier
  in_normal : p.mode ≡ normal → IsFull p tier
  active_in_degraded : p.mode ≡ degraded → tier ≡ protected_active → IsFull p tier
  resurrected_in_degraded : p.mode ≡ degraded → tier ≡ protected_resurrected → IsFull p tier

module _ (F : Floats) (sum : List F.Float → F.Float) (policy : AdaptivePollingPolicy F.Float) where
  -- The observations a minute of polling each token of each of the twelve tiers once in the tier's
  -- effective interval.
  abbrev pub observations : CapacityPlan F.Float → F.Float
  observations p =
      let polled : CoverageClass → F.Float = λ t.
        F.div (F.mul (F.of_ℕ (p.token_counts t)) (F.of_ℕ 60))
          (F.of_ℕ (p.effective_interval_seconds t)) in
      sum (
        polled protected_active
        ∷ polled protected_resurrected
        ∷ polled protected_watch
        ∷ polled initial
        ∷ polled early
        ∷ polled mature
        ∷ polled fading_tail
        ∷ polled fading_cool
        ∷ polled cooled
        ∷ polled long_tail_day
        ∷ polled long_tail_week
        ∷ polled retired_control
        ∷ [])

  -- A plan is of the given counts and keeps within the safe budget, whatever the population: polling
  -- each token once in the effective interval of its tier makes no more observations a minute than
  -- are available plus 1e-9, and this is the load that the plan reports. The requests that it
  -- schedules and those that are reserved are together the safe requests, at least one is scheduled,
  -- each observes `batch_size` tokens, and no tier is observed more often than its target.
  pub plan_capacity-bounds :
      (token_counts : CoverageClass → ℤ) {p : CapacityPlan F.Float}
      → plan_capacity F sum policy token_counts ≡ ok p
      → ((tier : CoverageClass) → p.token_counts tier ≡ pos_part (token_counts tier))
        × (F.less
              (F.add
                (F.of_ℕ p.available_token_observations_per_minute)
                (quotient F 1 1_000_000_000))
              (observations p)
            ≡ false)
        × (p.effective_token_observations_per_minute ≡ observations p)
        × (p.available_requests_per_minute + p.reserved_requests_per_minute
            ≡ p.safe_requests_per_minute)
        × (1 ≤ p.available_requests_per_minute)
        × (p.available_token_observations_per_minute
            ≡ p.available_requests_per_minute * policy.batch_size)
        × ((tier : CoverageClass)
            → p.target_interval_seconds tier ≤ p.effective_interval_seconds tier)
  unfolding plan_of scheduled_requests available_tokens effective_load
  plan_capacity-bounds token_counts {p} h =
      let counts = count_of F sum policy token_counts in
      let i = plan_capacity-IsPlanned F sum policy token_counts h in
      let unreserved = i.unreserved in
      subst
        (λ (q : CapacityPlan F.Float).
          ((tier : CoverageClass) → q.token_counts tier ≡ pos_part (token_counts tier))
          × (F.less
                (F.add (F.of_ℕ q.available_token_observations_per_minute)
                  (quotient F 1 1_000_000_000))
                (observations q)
              ≡ false)
          × (q.effective_token_observations_per_minute ≡ observations q)
          × (q.available_requests_per_minute + q.reserved_requests_per_minute
              ≡ q.safe_requests_per_minute)
          × (1 ≤ q.available_requests_per_minute)
          × (q.available_token_observations_per_minute
              ≡ q.available_requests_per_minute * policy.batch_size)
          × ((tier : CoverageClass)
              → q.target_interval_seconds tier ≤ q.effective_interval_seconds tier))
        (sym i.returned)
        (
          λ tier. refl,
          i.bounded,
          refl,
          ground arith,
          ground arith,
          refl,
          λ tier.
              interval_for_rate_le F sum policy (targets_for F sum policy counts tier)
                (i.effective_rates tier) (leb 1 (counts tier))
                (intervals_for-at F sum policy counts (rates_for F sum policy counts)
                  i.effective_rates (targets_for F sum policy counts) capacity_tiers i.found tier
                  (every_tier tier)),
        )

  interval_for_rate-kept :
      (requested : ℕ) (rate : F.Float) (is_populated : Bool) {interval : ℕ}
      → interval_for_rate F requested rate is_populated ≡ ok interval
      → (is_populated ≡ false) ⊎ (F.at_most (F.div (float F 60) (F.of_ℕ requested)) rate ≡ true)
      → interval ≡ requested
  unfolding interval_for_rate
  interval_for_rate-kept requested rate is_populated h served = ground arith

  -- The allocation to the lower tiers leaves the protected rates.
  lower_rates-protected :
      (counts : CoverageClass → ℕ) (rates : CoverageClass → F.Float) (budget : F.Float)
      (tier : CoverageClass) {effective : CoverageClass → F.Float}
      → tier ≡ protected_active ⊎ (tier ≡ protected_resurrected)
      → lower_rates F sum policy counts rates budget ≡ ok effective
      → effective tier ≡ rates tier
  unfolding lower_rates with_control updated weight_of same_class
  lower_rates-protected counts rates budget tier {effective} is_protected h =
      let control = float_min F (control_requested F sum policy counts rates) budget in
      let (lower, _, k) =
        >>=-eq-ok (weighted_rates F sum counts rates (lower_tiers F) (F.sub budget control)) _ h in
      let same = with_control F sum policy counts rates control in
      let whole : updated F (lower_tiers F) lower same ≡ effective = ground arith in
      let result : updated F (lower_tiers F) lower same tier ≡ effective tier =
        ap (λ (f : CoverageClass → F.Float). f tier) whole in
      elim is_protected [
        | inl e ↦
            sym result ∙ subst (λ t. updated F (lower_tiers F) lower same t ≡ rates t) (sym e) refl
        | inr e ↦
            sym result ∙ subst (λ t. updated F (lower_tiers F) lower same t ≡ rates t) (sym e) refl
      ]

  normal_rates :
      (counts : CoverageClass → ℕ) (rates : CoverageClass → F.Float)
      {effective : CoverageClass → F.Float}
      → rates_in F sum policy counts rates normal ≡ ok effective
      → rates ≡ effective
  unfolding rates_in
  normal_rates counts rates h = ground arith

  module _ (order : IsOrderedFloats F) where
    -- The tiers of `IsFull` keep their targets: a tier without tokens, every tier in NORMAL mode, and
    -- the two protected tiers in DEGRADED mode have their target interval as effective interval.
    -- The order of floats is reflexive.
    pub plan_capacity-full :
        (token_counts : CoverageClass → ℤ) {p : CapacityPlan F.Float}
        → plan_capacity F sum policy token_counts ≡ ok p
        → (tier : CoverageClass) → IsFull p tier
        → p.effective_interval_seconds tier ≡ p.target_interval_seconds tier
    unfolding plan_of requested_rate rates_in
    plan_capacity-full token_counts {p} h tier full =
        let counts = count_of F sum policy token_counts in
        let rates = rates_for F sum policy counts in
        let targets = targets_for F sum policy counts in
        let i = plan_capacity-IsPlanned F sum policy token_counts h in
        let mode : p.mode ≡ mode_for F sum policy counts rates =
          ap (λ (q : CapacityPlan F.Float). q.mode) i.returned in
        let rated : (m : CapacityMode)
            → p.mode ≡ m
            → rates_in F sum policy counts rates m ≡ ok i.effective_rates =
          λ m e.
            subst (λ x. rates_in F sum policy counts rates x ≡ ok i.effective_rates) (sym mode ∙ e)
              i.rated in
        let full_rate : i.effective_rates tier ≡ rates tier
            → F.at_most (F.div (float F 60) (F.of_ℕ (targets tier))) (i.effective_rates tier)
              ≡ true =
          λ e.
            subst (λ r. F.at_most (rates tier) r ≡ true) (sym e)
              (order.at_most_refl (rates tier)) in
        let served : (leb 1 (counts tier) ≡ false)
            ⊎ (F.at_most (F.div (float F 60) (F.of_ℕ (targets tier))) (i.effective_rates tier)
                ≡ true) =
          elim full [
            | without_tokens e ↦
                let none_of : counts tier ≡ 0 =
                  sym (ap (λ (q : CapacityPlan F.Float). q.token_counts tier) i.returned) ∙ e in
                inl (rw none_of refl)
            | in_normal e ↦
                let same : rates ≡ i.effective_rates = normal_rates counts rates (rated normal e) in
                inr (full_rate (sym (ap (λ (f : CoverageClass → F.Float). f tier) same)))
            | active_in_degraded e t ↦
                inr
                  (full_rate (lower_rates-protected counts rates _ tier (inl t) (rated degraded e)))
            | resurrected_in_degraded e t ↦
                inr
                  (full_rate (lower_rates-protected counts rates _ tier (inr t) (rated degraded e)))
          ] in
        ap (λ (q : CapacityPlan F.Float). q.effective_interval_seconds tier) i.returned
        ∙ interval_for_rate-kept (targets tier) (i.effective_rates tier) (leb 1 (counts tier))
            (intervals_for-at F sum policy counts rates i.effective_rates targets capacity_tiers
              i.found tier (every_tier tier))
            served
        ∙ sym (ap (λ (q : CapacityPlan F.Float). q.target_interval_seconds tier) i.returned)

    count_sum-zero :
        (counts : CoverageClass → ℕ) (ts : List CoverageClass)
        → ((t : CoverageClass) → counts t ≡ 0)
        → count_sum counts ts ≡ 0
    unfolding count_sum
    count_sum-zero counts [] h = refl
    count_sum-zero counts (t ∷ ts) h = omega (arith, h t, count_sum-zero counts ts h)

    -- In NORMAL mode no schedule is degraded.
    pub plan_capacity-none_degraded :
        (token_counts : CoverageClass → ℤ) {p : CapacityPlan F.Float}
        → plan_capacity F sum policy token_counts ≡ ok p
        → p.mode ≡ normal
        → p.degraded_schedule_count ≡ 0
    unfolding plan_of
    plan_capacity-none_degraded token_counts {p} h is_normal =
        let counts = count_of F sum policy token_counts in
        let targets = targets_for F sum policy counts in
        let i = plan_capacity-IsPlanned F sum policy token_counts h in
        let kept : (t : CoverageClass) → i.intervals t ≡ targets t = λ t.
          sym (ap (λ (q : CapacityPlan F.Float). q.effective_interval_seconds t) i.returned)
          ∙ plan_capacity-full token_counts h t (in_normal is_normal)
          ∙ ap (λ (q : CapacityPlan F.Float). q.target_interval_seconds t) i.returned in
        ap (λ (q : CapacityPlan F.Float). q.degraded_schedule_count) i.returned
        ∙ count_sum-zero (λ t. if ltb (targets t) (i.intervals t) then counts t else 0)
            capacity_tiers (λ t. let e = kept t in ground arith)
