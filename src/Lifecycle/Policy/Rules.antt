-- ===== src/Lifecycle/Policy/Rules.antt =====
-- Which rule of src/pump_research/lifecycle/policy.py fires, and what the evaluation records.
use pump_research.Prelude.{◌≡◌, ◌↔◌, refl, Option, none, some, arith}
use pump_research.Prelude.Int.{ℤ, ◌≤ℤ◌}
use pump_research.Lifecycle.Policy.{
  LifecycleState, new, active, watch, fading, dormant, resurrected, LifecycleTransitionRule,
  new_to_active, new_to_watch, active_to_fading, watch_to_fading, fading_to_dormant,
  dormant_to_resurrected, TransitionEvaluation, RawObservationEvidence, LifecyclePolicy, evaluate,
  evaluate_new, evaluate_cooling, evaluate_fading, evaluate_dormant,
}

-- The edge of the lifecycle that each rule stands for.
abbrev pub source : LifecycleTransitionRule → LifecycleState
source new_to_active = new
source new_to_watch = new
source active_to_fading = active
source watch_to_fading = watch
source fading_to_dormant = fading
source dormant_to_resurrected = dormant

abbrev pub target : LifecycleTransitionRule → LifecycleState
target new_to_active = active
target new_to_watch = watch
target active_to_fading = fading
target watch_to_fading = fading
target fading_to_dormant = dormant
target dormant_to_resurrected = resurrected

-- A value that the provider reported and that meets a condition.
abbrev pub Reports : Option ℤ → (ℤ → Type 0) → Type 0
Reports o P = (v : ℤ) × (o ≡ some v) × P v

-- What a rule asks of the observation.
abbrev pub Satisfies : LifecyclePolicy → LifecycleTransitionRule → RawObservationEvidence → Type 0
Satisfies p new_to_active o = Reports o.volume_m5_usd (λ v. p.new_to_active_min_volume_m5_usd ≤ℤ v)
Satisfies p new_to_watch o =
    Reports o.volume_m5_usd (λ v. ¬ (p.new_to_active_min_volume_m5_usd ≤ℤ v))
    × Reports o.liquidity_usd (λ v. p.new_to_watch_min_liquidity_usd ≤ℤ v)
Satisfies p active_to_fading o =
    Reports o.volume_m5_usd (λ v. v ≤ℤ p.active_to_fading_max_volume_m5_usd)
Satisfies p watch_to_fading o =
    Reports o.volume_m5_usd (λ v. v ≤ℤ p.watch_to_fading_max_volume_m5_usd)
Satisfies p fading_to_dormant o =
    Reports o.volume_h1_usd (λ v. v ≤ℤ p.fading_to_dormant_max_volume_h1_usd)
    × Reports o.liquidity_usd (λ v. v ≤ℤ p.fading_to_dormant_max_liquidity_usd)
Satisfies p dormant_to_resurrected o =
    Reports o.volume_m5_usd (λ v. p.dormant_to_resurrected_min_volume_m5_usd ≤ℤ v)
    × Reports o.liquidity_usd (λ v. p.dormant_to_resurrected_min_liquidity_usd ≤ℤ v)

abbrev pub rule_of : Option TransitionEvaluation → Option LifecycleTransitionRule
rule_of none = none
rule_of (some e) = some e.rule

module _ (p : LifecyclePolicy) where
  -- An evaluation records the edge of its rule and starts in the token's state.
  pub evaluate_edge :
      (state : LifecycleState) (o : RawObservationEvidence) {e : TransitionEvaluation}
      → evaluate p state o ≡ some e
      → (source e.rule ≡ state) × (e.previous_state ≡ state) × (e.new_state ≡ target e.rule)
  unfolding evaluate
  evaluate_edge new o h = ground arith
  evaluate_edge _ o h = ground arith

  new_to_active_iff :
      (m5 liq : Option ℤ)
      → (rule_of (evaluate_new p m5 liq) ≡ some new_to_active)
        ↔ Reports m5 (λ v. p.new_to_active_min_volume_m5_usd ≤ℤ v)
  unfolding evaluate_new
  new_to_active_iff none liq = (λ h. ground arith, λ (v, e, k). ground arith)
  new_to_active_iff (some m5) none = (λ h. (m5, refl, ground arith), λ (v, e, k). ground arith)
  new_to_active_iff (some m5) (some liq) =
      (λ h. (m5, refl, ground arith), λ (v, e, k). ground arith)

  new_to_watch_iff :
      (m5 liq : Option ℤ)
      → (rule_of (evaluate_new p m5 liq) ≡ some new_to_watch) ↔ (
          Reports m5 (λ v. ¬ (p.new_to_active_min_volume_m5_usd ≤ℤ v))
          × Reports liq (λ v. p.new_to_watch_min_liquidity_usd ≤ℤ v))
  unfolding evaluate_new
  new_to_watch_iff none liq = (λ h. ground arith, λ ((v, e, k), r). ground arith)
  new_to_watch_iff (some m5) none = (λ h. ground arith, λ (r, (v, e, k)). ground arith)
  new_to_watch_iff (some m5) (some liq) = (
    λ h. ((m5, refl, λ k. ground arith), (liq, refl, ground arith)),
    λ ((v, e, k), (w, f, l)). ground arith,
  )

  cooling_iff :
      (rule : LifecycleTransitionRule) (state : LifecycleState) (threshold : ℤ) (m5 : Option ℤ)
      → (rule_of (evaluate_cooling p rule state threshold m5) ≡ some rule)
        ↔ Reports m5 (λ v. v ≤ℤ threshold)
  unfolding evaluate_cooling
  cooling_iff rule state threshold none = (λ h. ground arith, λ (v, e, k). ground arith)
  cooling_iff rule state threshold (some m5) =
      (λ h. (m5, refl, ground arith), λ (v, e, k). ground arith)

  fading_to_dormant_iff :
      (h1 liq : Option ℤ)
      → (rule_of (evaluate_fading p h1 liq) ≡ some fading_to_dormant) ↔ (
          Reports h1 (λ v. v ≤ℤ p.fading_to_dormant_max_volume_h1_usd)
          × Reports liq (λ v. v ≤ℤ p.fading_to_dormant_max_liquidity_usd))
  unfolding evaluate_fading
  fading_to_dormant_iff none liq = (λ h. ground arith, λ ((v, e, k), r). ground arith)
  fading_to_dormant_iff (some h1) none = (λ h. ground arith, λ (r, (v, e, k)). ground arith)
  fading_to_dormant_iff (some h1) (some liq) = (
    λ h. ((h1, refl, ground arith), (liq, refl, ground arith)),
    λ ((v, e, k), (w, f, l)). ground arith,
  )

  dormant_to_resurrected_iff :
      (m5 liq : Option ℤ)
      → (rule_of (evaluate_dormant p m5 liq) ≡ some dormant_to_resurrected) ↔ (
          Reports m5 (λ v. p.dormant_to_resurrected_min_volume_m5_usd ≤ℤ v)
          × Reports liq (λ v. p.dormant_to_resurrected_min_liquidity_usd ≤ℤ v))
  unfolding evaluate_dormant
  dormant_to_resurrected_iff none liq = (λ h. ground arith, λ ((v, e, k), r). ground arith)
  dormant_to_resurrected_iff (some m5) none = (λ h. ground arith, λ (r, (v, e, k)). ground arith)
  dormant_to_resurrected_iff (some m5) (some liq) = (
    λ h. ((m5, refl, ground arith), (liq, refl, ground arith)),
    λ ((v, e, k), (w, f, l)). ground arith,
  )

  -- A rule fires in the state where it starts exactly when the provider reported the values that
  -- it reads and they meet its thresholds; NEW_TO_WATCH also needs NEW_TO_ACTIVE to have failed.
  pub evaluate_iff :
      (rule : LifecycleTransitionRule) (o : RawObservationEvidence)
      → (rule_of (evaluate p (source rule) o) ≡ some rule) ↔ Satisfies p rule o
  unfolding evaluate
  evaluate_iff new_to_active o = new_to_active_iff o.volume_m5_usd o.liquidity_usd
  evaluate_iff new_to_watch o = new_to_watch_iff o.volume_m5_usd o.liquidity_usd
  evaluate_iff active_to_fading o = cooling_iff active_to_fading active _ o.volume_m5_usd
  evaluate_iff watch_to_fading o = cooling_iff watch_to_fading watch _ o.volume_m5_usd
  evaluate_iff fading_to_dormant o = fading_to_dormant_iff o.volume_h1_usd o.liquidity_usd
  evaluate_iff dormant_to_resurrected o = dormant_to_resurrected_iff o.volume_m5_usd o.liquidity_usd
