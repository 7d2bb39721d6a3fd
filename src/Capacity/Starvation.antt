-- ===== src/Capacity/Starvation.antt =====
-- src/pump_research/scheduling/capacity.py: a DEGRADED plan whose remainder goes to the control tier.
use pump_research.Prelude.{
  ℕ, ◌≡◌, inl, inr, refl, ap, Bool, true, false, some, List, [], ◌∷◌, err, ◌>>=◌, arith, leb, ◌==◌,
  if◌then◌else◌, if-eq-cases, select as where_,
}
use pump_research.Prelude.Int.{pos}
use pump_research.Floats.{Floats}
use pump_research.Floats.Order.{IsOrderedFloats}
use pump_research.Coverage.{AdaptivePollingPolicy}
use pump_research.Scheduler.Rows.{CoverageClass, same_class, same_class→eq}
use pump_research.Capacity.{
  degraded, no_positive_budget, float, float_min, lower_tiers, weight_of, populated, requested_by,
  share, weighted_rates, protected_tiers, capacity_tiers,
}
use pump_research.Capacity.Plan.{
  any_tier, is_negative, safe_requests, available_tokens, control_requested, lower_rates, mode_for,
  rates_in, fitted, plan_counts, plan_capacity,
}
use pump_research.Capacity.Inversion.{targets_for, rates_for}
use pump_research.Capacity.Bisection.{HasZero}

module _ (F : Floats) (sum : List F.Float → F.Float) (order : IsOrderedFloats F)
    (zeros : HasZero F sum) (policy : AdaptivePollingPolicy F.Float) where
  -- A budget of nothing is refused as soon as a tier has tokens.
  share-refused :
      (counts : CoverageClass → ℕ) (rates : CoverageClass → F.Float)
      (tiers ts : List (CoverageClass × F.Float)) (budget w : F.Float) (tier : CoverageClass)
      → weight_of F tier ts ≡ some w
      → leb 1 (counts tier) ≡ true
      → F.at_most budget (float F 0) ≡ true
      → share F sum counts rates tiers (populated F sum counts rates ts) budget
        ≡ err no_positive_budget
  unfolding share populated where_ weight_of
  share-refused counts rates tiers [] budget w tier h present nothing = cc
  share-refused counts rates tiers ((t, v) ∷ ts) budget w tier h present nothing =
      go (leb 1 (counts t)) refl
        (λ k. share-refused counts rates tiers ts budget w tier k present nothing)
    where
      go :
          (test : Bool)
          → leb 1 (counts t) ≡ test
          → (weight_of F tier ts ≡ some w
              → share F sum counts rates tiers (populated F sum counts rates ts) budget
                ≡ err no_positive_budget)
          → share F sum counts rates tiers
              (if test
                then (t, v) ∷ populated F sum counts rates ts
                else populated F sum counts rates ts)
              budget
            ≡ err no_positive_budget
      go true e rest = rw nothing refl
      go false e rest = elim (if-eq-cases (same_class tier t) h) [
        | inl (here, _) ↦
            let same : leb 1 (counts tier) ≡ leb 1 (counts t) =
              ap (λ x. leb 1 (counts x)) (same_class→eq tier t here) in
            absurd (ground arith)
        | inr (_, k) ↦ rest k
      ]

  lower_rates-refused :
      (counts : CoverageClass → ℕ) (rates : CoverageClass → F.Float) (budget w : F.Float)
      (tier : CoverageClass)
      → weight_of F tier (lower_tiers F) ≡ some w
      → leb 1 (counts tier) ≡ true
      → F.less budget (control_requested F sum policy counts rates) ≡ true
      → lower_rates F sum policy counts rates budget ≡ err no_positive_budget
  unfolding lower_rates weighted_rates float_min
  lower_rates-refused counts rates budget w tier weighted present starves =
      let nothing : F.at_most (F.sub budget budget) (float F 0) ≡ true =
        rw (zeros.sub_self budget) (order.at_most_refl (float F 0)) in
      rw
        (
          starves,
          ◌>>=◌,
          share-refused counts rates (lower_tiers F) (lower_tiers F) (F.sub budget budget) w tier
              weighted present nothing,
        )
        refl

  -- A DEGRADED plan fails where the control tier takes the whole remainder: with a lower tier that
  -- has tokens, and a remainder after the protected tiers that is less than the control tier
  -- requests, `plan_capacity` raises that a populated tier requires a positive budget. The counts
  -- are not negative, the targets positive, and the reserve is below the safe requests. Floats are
  -- ordered, and zero behaves as zero in their products and sums.
  pub plan_capacity-starved :
      (counts : CoverageClass → ℕ) (tier : CoverageClass) (w : F.Float)
      → any_tier (λ t. targets_for F sum policy counts t == 0) capacity_tiers ≡ false
      → leb (safe_requests F sum policy) policy.reserved_requests_per_minute ≡ false
      → mode_for F sum policy counts (rates_for F sum policy counts) ≡ degraded
      → weight_of F tier (lower_tiers F) ≡ some w
      → leb 1 (counts tier) ≡ true
      → F.less
          (F.sub
            (F.of_ℕ (available_tokens F sum policy))
            (requested_by F sum counts (rates_for F sum policy counts) (protected_tiers F)))
          (control_requested F sum policy counts (rates_for F sum policy counts))
        ≡ true
      → plan_capacity F sum policy (λ t. pos (counts t)) ≡ err no_positive_budget
  unfolding plan_capacity plan_counts fitted rates_in any_tier is_negative
  plan_capacity-starved counts tier w targets unreserved mode weighted present starves =
      rw
        (
          targets,
          unreserved,
          mode,
          ◌>>=◌,
          lower_rates-refused counts (rates_for F sum policy counts) _ w tier weighted present
              starves,
        )
        refl
