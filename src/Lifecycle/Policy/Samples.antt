-- ===== src/Lifecycle/Policy/Samples.antt =====
-- A policy in whole dollars, and the theorems on the lifecycle rules at concrete observations.
use pump_research.Prelude.{◌+◌, ◌≤◌, ◌≡◌, ◌↔◌, refl, none, some, Option, [], ◌∷◌, length}
use pump_research.Prelude.Int.{ℤ, pos}
use pump_research.Lifecycle.Policy.{
  LifecyclePolicy, RawObservationEvidence, TransitionEvaluation, new, active, new_to_active,
  new_to_watch, volume_m5, min_volume_m5, evaluate,
}
use pump_research.Lifecycle.Policy.Rules.{rule_of, Satisfies, evaluate_iff}
use pump_research.Lifecycle.Policy.Traces.{transitions, length-transitions_le}

abbrev dollars : LifecyclePolicy
dollars = record {
  new_to_active_min_volume_m5_usd = pos 100;
  new_to_watch_min_liquidity_usd = pos 1000;
  active_to_fading_max_volume_m5_usd = pos 25;
  watch_to_fading_max_volume_m5_usd = pos 10;
  fading_to_dormant_max_volume_h1_usd = pos 10;
  fading_to_dormant_max_liquidity_usd = pos 100;
  dormant_to_resurrected_min_volume_m5_usd = pos 100;
  dormant_to_resurrected_min_liquidity_usd = pos 500;
}

abbrev seen : Option ℤ → Option ℤ → Option ℤ → RawObservationEvidence
seen m5 h1 liq = record {
  observation_id = 1;
  received_at = 500;
  pair_id = 11;
  api_request_log_id = 7;
  volume_m5_usd = m5;
  volume_h1_usd = h1;
  liquidity_usd = liq;
}

abbrev busy : RawObservationEvidence
busy = seen (some (pos 150)) none none

abbrev quiet : RawObservationEvidence
quiet = seen (some (pos 3)) (some (pos 4)) (some (pos 50))

abbrev activation : TransitionEvaluation
activation = record {
  rule = new_to_active;
  previous_state = new;
  new_state = active;
  input_values = (volume_m5, pos 150) ∷ [];
  thresholds = (min_volume_m5, pos 100) ∷ [];
}

busy_activates : evaluate dollars new busy ≡ some activation
unfolding evaluate
busy_activates = refl

missing_volume : evaluate dollars new (seen none (some (pos 9)) (some (pos 5000))) ≡ none
unfolding evaluate
missing_volume = refl

evaluate_iff_example :
    (rule_of (evaluate dollars new busy) ≡ some new_to_watch) ↔ Satisfies dollars new_to_watch busy
evaluate_iff_example = evaluate_iff dollars new_to_watch busy

length-transitions_le_example :
    length (transitions dollars new (busy ∷ quiet ∷ quiet ∷ busy ∷ [])) + 0 ≤ 4
length-transitions_le_example = length-transitions_le dollars new (busy ∷ quiet ∷ quiet ∷ busy ∷ [])
