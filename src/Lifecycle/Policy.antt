-- ===== src/Lifecycle/Policy.antt =====
-- src/pump_research/lifecycle/policy.py: the rules by which an observation moves a token from one
-- lifecycle state to the next. A decimal is an integer number of 10^-18 units; the dictionaries of
-- an evaluation hold the decimals that `_decimal_text` prints.
pub mod Rules
pub mod Traces
pub mod Samples
use pump_research.Prelude.{ℕ, Option, none, some, List, [], ◌∷◌, ◌&&◌, if◌then◌else◌}
use pump_research.Prelude.Int.{ℤ, leb_ℤ}
pub use pump_research.Coverage.{LifecycleState, new, active, watch, fading, dormant, resurrected}

pub data LifecycleTransitionRule : Type 0 where
  new_to_active new_to_watch active_to_fading watch_to_fading : LifecycleTransitionRule
  fading_to_dormant dormant_to_resurrected : LifecycleTransitionRule

-- The keys of `input_values` and of `thresholds`.
pub data InputKey : Type 0 where
  volume_m5 volume_h1 liquidity : InputKey

pub data ThresholdKey : Type 0 where
  min_volume_m5 max_volume_m5_exclusive min_liquidity : ThresholdKey
  max_volume_m5 max_volume_h1 max_liquidity : ThresholdKey

pub record TransitionEvaluation : Type 0 where
  pub rule : LifecycleTransitionRule
  pub previous_state : LifecycleState
  pub new_state : LifecycleState
  pub input_values : List (InputKey × ℤ)
  pub thresholds : List (ThresholdKey × ℤ)

-- src/pump_research/lifecycle/evidence.py
pub record RawObservationEvidence : Type 0 where
  pub observation_id : ℕ
  pub received_at : ℕ
  pub pair_id : ℕ
  pub api_request_log_id : ℕ
  pub volume_m5_usd : Option ℤ
  pub volume_h1_usd : Option ℤ
  pub liquidity_usd : Option ℤ

pub record LifecyclePolicy : Type 0 where
  pub new_to_active_min_volume_m5_usd : ℤ
  pub new_to_watch_min_liquidity_usd : ℤ
  pub active_to_fading_max_volume_m5_usd : ℤ
  pub watch_to_fading_max_volume_m5_usd : ℤ
  pub fading_to_dormant_max_volume_h1_usd : ℤ
  pub fading_to_dormant_max_liquidity_usd : ℤ
  pub dormant_to_resurrected_min_volume_m5_usd : ℤ
  pub dormant_to_resurrected_min_liquidity_usd : ℤ

module _ (p : LifecyclePolicy) where
  evaluate_watch : ℤ → Option ℤ → Option TransitionEvaluation
  evaluate_watch m5 none = none
  evaluate_watch m5 (some liq) =
      if leb_ℤ p.new_to_watch_min_liquidity_usd liq
      then some (record {
        rule = new_to_watch;
        previous_state = new;
        new_state = watch;
        input_values = (volume_m5, m5) ∷ (liquidity, liq) ∷ [];
        thresholds =
            (max_volume_m5_exclusive, p.new_to_active_min_volume_m5_usd)
            ∷ (min_liquidity, p.new_to_watch_min_liquidity_usd)
            ∷ [];
      })
      else none

  evaluate_new : Option ℤ → Option ℤ → Option TransitionEvaluation
  unfolding evaluate_watch
  evaluate_new none liq = none
  evaluate_new (some m5) liq =
      if leb_ℤ p.new_to_active_min_volume_m5_usd m5
      then some (record {
        rule = new_to_active;
        previous_state = new;
        new_state = active;
        input_values = (volume_m5, m5) ∷ [];
        thresholds = (min_volume_m5, p.new_to_active_min_volume_m5_usd) ∷ [];
      })
      else evaluate_watch m5 liq

  -- The two rules that end in FADING differ in the rule, the state and the threshold.
  evaluate_cooling :
      LifecycleTransitionRule → LifecycleState → ℤ → Option ℤ → Option TransitionEvaluation
  evaluate_cooling rule state threshold none = none
  evaluate_cooling rule state threshold (some m5) =
      if leb_ℤ m5 threshold
      then some (record {
        rule = rule;
        previous_state = state;
        new_state = fading;
        input_values = (volume_m5, m5) ∷ [];
        thresholds = (max_volume_m5, threshold) ∷ [];
      })
      else none

  evaluate_fading : Option ℤ → Option ℤ → Option TransitionEvaluation
  evaluate_fading none liq = none
  evaluate_fading (some h1) none = none
  evaluate_fading (some h1) (some liq) =
      if leb_ℤ h1 p.fading_to_dormant_max_volume_h1_usd
        && leb_ℤ liq p.fading_to_dormant_max_liquidity_usd
      then some (record {
        rule = fading_to_dormant;
        previous_state = fading;
        new_state = dormant;
        input_values = (volume_h1, h1) ∷ (liquidity, liq) ∷ [];
        thresholds =
            (max_volume_h1, p.fading_to_dormant_max_volume_h1_usd)
            ∷ (max_liquidity, p.fading_to_dormant_max_liquidity_usd)
            ∷ [];
      })
      else none

  evaluate_dormant : Option ℤ → Option ℤ → Option TransitionEvaluation
  evaluate_dormant none liq = none
  evaluate_dormant (some m5) none = none
  evaluate_dormant (some m5) (some liq) =
      if leb_ℤ p.dormant_to_resurrected_min_volume_m5_usd m5
        && leb_ℤ p.dormant_to_resurrected_min_liquidity_usd liq
      then some (record {
        rule = dormant_to_resurrected;
        previous_state = dormant;
        new_state = resurrected;
        input_values = (volume_m5, m5) ∷ (liquidity, liq) ∷ [];
        thresholds =
            (min_volume_m5, p.dormant_to_resurrected_min_volume_m5_usd)
            ∷ (min_liquidity, p.dormant_to_resurrected_min_liquidity_usd)
            ∷ [];
      })
      else none

  unfoldable pub evaluate : LifecycleState → RawObservationEvidence → Option TransitionEvaluation
  unfolding evaluate_new evaluate_cooling evaluate_fading evaluate_dormant
  evaluate new o = evaluate_new o.volume_m5_usd o.liquidity_usd
  evaluate active o =
      evaluate_cooling active_to_fading active p.active_to_fading_max_volume_m5_usd o.volume_m5_usd
  evaluate watch o =
      evaluate_cooling watch_to_fading watch p.watch_to_fading_max_volume_m5_usd o.volume_m5_usd
  evaluate fading o = evaluate_fading o.volume_h1_usd o.liquidity_usd
  evaluate dormant o = evaluate_dormant o.volume_m5_usd o.liquidity_usd
  evaluate resurrected o = none
