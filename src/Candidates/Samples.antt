-- ===== src/Candidates/Samples.antt =====
-- A busy token with a boost, and the theorems on candidates at it.
use pump_research.Prelude.{
  ◌/◌, ◌≡◌, ◌↔◌, refl, false, ◌&&◌, none, some, [], ◌∷◌, ok, select as where_,
}
use pump_research.Prelude.Int.{ℤ, pos}
use pump_research.Prelude.Sorting.{sort_by}
use pump_research.Coverage.{new}
use pump_research.Candidates.{
  universal, CandidateEvidence, CandidatePolicy, in_review, market_ok, tier3_matched, evaluate,
}
use pump_research.Candidates.Tiers.{evaluate-eligible_iff}
use pump_research.Candidates.Wakeups.{select_boost_wakeups}

abbrev policy : CandidatePolicy
policy = record {
  minimum_liquidity_usd = pos 5_000;
  minimum_transactions_m5 = 10;
  minimum_volume_liquidity_ratio = pos 0;
  tier2_minimum_liquidity_usd = pos 20_000;
  tier2_minimum_transactions_m5 = 50;
  tier2_minimum_volume_liquidity_ratio = pos 1;
  tier1_ttl = 900;
  tier2_ttl = 1_800;
  coverage_interval = 30;
  security_freshness = 3_600;
  tasks_per_minute = 6;
  expensive_slots_per_minute = 1;
  boost_wakeups_per_minute = 2;
  max_active_coverage = 20;
  tier3_ttl = 600;
  max_tier3_candidates = 5;
  tier3_holder_top10_pct = pos 80;
  tier3_max_unique_traders = 5;
  tier3_min_total_trades = 50;
  tier3_common_funder_share_pct = pos 50;
  tier3_liquidity_removal_pct = pos 40;
}

-- A division for the tests: positive amounts, rounded down.
abbrev quotient : ℤ → ℤ → ℤ
quotient (pos a) (pos b) = pos (a / b)
quotient a b = pos 0

abbrev busy : CandidateEvidence
busy = record {
  token_id = b't' ∷ [];
  evaluated_at = 10_000;
  watermark = 9_900;
  lifecycle_state = new;
  observation_received_at = some 9_900;
  liquidity_usd = some (pos 30_000);
  volume_m5_usd = some (pos 60_000);
  buys_m5 = some 40;
  sells_m5 = some 30;
  boost_event_id = none;
  boost_received_at = none;
  security_received_at = some 9_000;
  coverage_resurrection = false;
  holder_received_at = some 9_000;
  holder_top10_pct = some (pos 91);
  trader_received_at = none;
  unique_traders = none;
  total_trades = none;
  wallet_evidence_received_at = none;
  common_funder_share_pct = none;
  liquidity_evidence_received_at = none;
  liquidity_removal_pct = none;
}

abbrev boosted : CandidateEvidence
boosted = record busy { boost_event_id = some (b'e' ∷ []); boost_received_at = some 9_800 }

evaluate-eligible_iff_example : ((evaluate quotient policy busy universal).eligible ≡ false) ↔ (
    ((in_review universal && tier3_matched quotient policy busy) ≡ false)
    × (busy.boost_event_id ≡ none)
    × (busy.coverage_resurrection ≡ false)
    × (market_ok quotient policy busy ≡ false))
evaluate-eligible_iff_example = evaluate-eligible_iff quotient policy busy universal

wakeups : select_boost_wakeups (busy ∷ boosted ∷ []) (pos 2) ≡ ok (boosted ∷ [])
unfolding select_boost_wakeups sort_by where_
wakeups = refl
