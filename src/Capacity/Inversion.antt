-- ===== src/Capacity/Inversion.antt =====
-- src/pump_research/scheduling/capacity.py: what a call of `plan_capacity` that returned went through.
use pump_research.Prelude.{
  ℕ, ◌≤◌, ◌≡◌, inl, inr, refl, sym, ap, ◌∙◌, subst, Bool, true, false, ◌||◌, List, [], ◌∷◌, ok,
  >>=-eq-ok, arith, leb, ◌==◌, if◌then◌else◌, if-eq-cases,
}
use pump_research.Prelude.Int.{ℤ, pos_part}
use pump_research.Floats.{Floats}
use pump_research.Coverage.{AdaptivePollingPolicy}
use pump_research.Scheduler.Rows.{CoverageClass, protected_active, same_class, same_class→eq}
use pump_research.Capacity.{capacity_tiers, quotient, interval_for_rate}
use pump_research.Capacity.Plan.{
  CapacityPlan, any_tier, is_negative, targets_of, requested_rate, safe_requests, available_tokens,
  mode_for, rates_in, intervals_for, plan_of, effective_load, fitted, plan_counts, plan_capacity,
}

abbrev pub is_tier : CoverageClass → List CoverageClass → Bool
is_tier tier [] = false
is_tier tier (t ∷ ts) = same_class tier t || is_tier tier ts

pub every_tier : (tier : CoverageClass) → is_tier tier capacity_tiers ≡ true
unfolding same_class
every_tier protected_active = refl
every_tier _ = refl

module _ (F : Floats) (sum : List F.Float → F.Float) (policy : AdaptivePollingPolicy F.Float) where
  abbrev pub targets_for : (CoverageClass → ℕ) → CoverageClass → ℕ
  targets_for counts = targets_of F sum policy counts

  abbrev pub rates_for : (CoverageClass → ℕ) → CoverageClass → F.Float
  rates_for counts = requested_rate F sum policy (targets_for counts)

  -- What a call that returned a plan went through.
  pub record IsPlanned (counts : CoverageClass → ℕ) (p : CapacityPlan F.Float) : Type 0 where
    pub effective_rates : CoverageClass → F.Float
    pub rated :
        rates_in F sum policy counts
          (rates_for counts)
          (mode_for F sum policy counts (rates_for counts))
        ≡ ok effective_rates
    pub intervals : CoverageClass → ℕ
    pub found :
        intervals_for F sum policy counts
          (rates_for counts)
          (targets_for counts)
          effective_rates
          capacity_tiers
        ≡ ok intervals
    pub bounded :
        F.less
          (F.add (F.of_ℕ (available_tokens F sum policy)) (quotient F 1 1_000_000_000))
          (effective_load F sum policy counts (rates_for counts) intervals)
        ≡ false
    pub unreserved : leb (safe_requests F sum policy) policy.reserved_requests_per_minute ≡ false
    pub returned :
        p
        ≡ plan_of F sum policy counts
            (rates_for counts)
            (mode_for F sum policy counts (rates_for counts))
            (targets_for counts)
            intervals
            (effective_load F sum policy counts (rates_for counts) intervals)

  abbrev pub count_of : (CoverageClass → ℤ) → CoverageClass → ℕ
  count_of token_counts t = pos_part (token_counts t)

  plan_counts-IsPlanned :
      (counts : CoverageClass → ℕ) {p : CapacityPlan F.Float}
      → plan_counts F sum policy counts ≡ ok p
      → IsPlanned counts p
  unfolding plan_counts fitted
  plan_counts-IsPlanned counts {p} h =
      elim (if-eq-cases (any_tier (λ t. targets_for counts t == 0) capacity_tiers) h) [
        | inl (_, k) ↦ cc
        | inr (_, k) ↦
            elim (if-eq-cases (leb (safe_requests F sum policy) policy.reserved_requests_per_minute)
              k) [
                | inl (_, l) ↦ cc
                | inr (unreserved, l) ↦
                    let mode = mode_for F sum policy counts (rates_for counts) in
                    let (effective_rates, rated, m) =
                      >>=-eq-ok (rates_in F sum policy counts (rates_for counts) mode) _ l in
                    let (intervals, found, o) =
                      >>=-eq-ok
                        (intervals_for F sum policy counts (rates_for counts) (targets_for counts)
                          effective_rates capacity_tiers)
                        _ m in
                    let effective =
                      effective_load F sum policy counts (rates_for counts) intervals in
                    elim (if-eq-cases
                      (F.less
                        (F.add (F.of_ℕ (available_tokens F sum policy))
                          (quotient F 1 1_000_000_000))
                        effective)
                      o) [
                        | inl (_, q) ↦ cc
                        | inr (bounded, q) ↦ elim (if-eq-cases (policy.batch_size == 0) q) [
                          | inl (_, r) ↦ cc
                          | inr (_, r) ↦ record {
                            effective_rates = effective_rates;
                            rated = rated;
                            intervals = intervals;
                            found = found;
                            bounded = bounded;
                            unreserved = unreserved;
                            returned = ground arith;
                          }
                        ]
                      ]
              ]
      ]

  pub plan_capacity-IsPlanned :
      (token_counts : CoverageClass → ℤ) {p : CapacityPlan F.Float}
      → plan_capacity F sum policy token_counts ≡ ok p
      → IsPlanned (count_of token_counts) p
  unfolding plan_capacity
  plan_capacity-IsPlanned token_counts h =
      elim (if-eq-cases (any_tier (λ t. is_negative (token_counts t)) capacity_tiers) h) [
        | inl (_, k) ↦ cc
        | inr (_, k) ↦ plan_counts-IsPlanned (count_of token_counts) k
      ]

  -- The interval of a tier is what `_interval_for_rate` returned for it.
  pub intervals_for-at :
      (counts : CoverageClass → ℕ) (rates effective : CoverageClass → F.Float)
      (targets : CoverageClass → ℕ) (ts : List CoverageClass) {intervals : CoverageClass → ℕ}
      → intervals_for F sum policy counts rates targets effective ts ≡ ok intervals
      → (tier : CoverageClass) → is_tier tier ts ≡ true
      → interval_for_rate F (targets tier) (effective tier) (leb 1 (counts tier))
        ≡ ok (intervals tier)
  unfolding intervals_for
  intervals_for-at counts rates effective targets [] h tier e = cc
  intervals_for-at counts rates effective targets (t ∷ ts) {intervals} h tier e =
      let (interval, a, k) =
        >>=-eq-ok (interval_for_rate F (targets t) (effective t) (leb 1 (counts t))) _ h in
      let (rest, b, l) =
        >>=-eq-ok (intervals_for F sum policy counts rates targets effective ts) _ k in
      let same : (λ x. if same_class x t then interval else rest x) ≡ intervals = ground arith in
      let at : (if same_class tier t then interval else rest tier) ≡ intervals tier =
        ap (λ (f : CoverageClass → ℕ). f tier) same in
      let later : is_tier tier ts ≡ true
          → interval_for_rate F (targets tier) (effective tier) (leb 1 (counts tier))
            ≡ ok (rest tier) =
        intervals_for-at counts rates effective targets ts b tier in
      elim (if-eq-cases (same_class tier t) at) [
        | inl (here, m) ↦
            subst
              (λ x. interval_for_rate F (targets x) (effective x) (leb 1 (counts x)) ≡ ok interval)
              (sym (same_class→eq tier t here)) a
            ∙ ap ok m
        | inr (there, m) ↦ later (ground arith) ∙ ap ok m
      ]

  pub interval_for_rate_le :
      (requested : ℕ) (rate : F.Float) (is_populated : Bool) {interval : ℕ}
      → interval_for_rate F requested rate is_populated ≡ ok interval
      → requested ≤ interval
  unfolding interval_for_rate
  interval_for_rate_le requested rate is_populated h = ground arith
