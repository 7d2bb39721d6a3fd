-- ===== src/Candidates.antt =====
-- src/pump_research/candidates/policy.py: the evidence of a candidate and the tier policy. A
-- `datetime` is a number of microseconds, an amount an integer in units of the last decimal place;
-- the digests of the evidence are left out.
pub mod Tiers
pub mod Wakeups
pub mod Samples
use pump_research.Prelude.{
  ℕ, zero, ◌+◌, ◌-◌, min, Bool, true, false, not, ◌&&◌, ◌||◌, Option, none, some, List, [], ◌∷◌,
  Result, ok, err, ltb, leb, if◌then◌else◌, take, select as where_, is_some,
}
use pump_research.Prelude.Int.{ℤ, pos, negsuc, leb_ℤ}
use pump_research.Prelude.Sorting.{sort_by}
use pump_research.Prelude.Text.{Text, text_leb}
use pump_research.Coverage.{LifecycleState, new, active, watch, fading, dormant, resurrected}

pub data CandidateTier : Type 0 where
  universal interesting investigate deep_review pretrade : CandidateTier

pub data TransitionReason : Type 0 where
  market_activity watch_state boost_activity security_change : TransitionReason
  coverage_resurrection_reason evidence_stale activity_cooling : TransitionReason

-- The fields that the policy reads, and the times of receipt.
pub record CandidateEvidence : Type 0 where
  pub token_id : Text
  pub evaluated_at : ℕ
  pub watermark : ℕ
  pub lifecycle_state : LifecycleState
  pub observation_received_at : Option ℕ
  pub liquidity_usd : Option ℤ
  pub volume_m5_usd : Option ℤ
  pub buys_m5 : Option ℕ
  pub sells_m5 : Option ℕ
  pub boost_event_id : Option Text
  pub boost_received_at : Option ℕ
  pub security_received_at : Option ℕ
  pub coverage_resurrection : Bool
  pub holder_received_at : Option ℕ
  pub holder_top10_pct : Option ℤ
  pub trader_received_at : Option ℕ
  pub unique_traders : Option ℕ
  pub total_trades : Option ℕ
  pub wallet_evidence_received_at : Option ℕ
  pub common_funder_share_pct : Option ℤ
  pub liquidity_evidence_received_at : Option ℕ
  pub liquidity_removal_pct : Option ℤ

pub data EvidenceError : Type 0 where
  watermark_after_evaluation received_after_watermark negative_budget : EvidenceError

abbrev pub receipts : CandidateEvidence → List (Option ℕ)
receipts e =
    e.observation_received_at ∷ e.boost_received_at ∷ e.security_received_at ∷ e.holder_received_at
    ∷ e.trader_received_at ∷ e.wallet_evidence_received_at ∷ e.liquidity_evidence_received_at ∷ []

any_after : ℕ → List (Option ℕ) → Bool
any_after watermark [] = false
any_after watermark (none ∷ rest) = any_after watermark rest
any_after watermark (some at ∷ rest) = ltb watermark at || any_after watermark rest

-- `__post_init__`, whose `datetime`s all have a time zone here.
unfoldable pub post_init : CandidateEvidence → Result EvidenceError CandidateEvidence
unfolding any_after
post_init e =
    if ltb e.evaluated_at e.watermark
    then err watermark_after_evaluation
    else if any_after e.watermark (receipts e)
    then err received_after_watermark
    else ok e

pub transaction_count_m5 : CandidateEvidence → Option ℕ
transaction_count_m5 e = elim (e.buys_m5) [
  | none ↦ none
  | some buys ↦ elim (e.sells_m5) [ none ↦ none | some sells ↦ some (buys + sells) ]
]

pub record CandidatePolicy : Type 0 where
  pub minimum_liquidity_usd : ℤ
  pub minimum_transactions_m5 : ℕ
  pub minimum_volume_liquidity_ratio : ℤ
  pub tier2_minimum_liquidity_usd : ℤ
  pub tier2_minimum_transactions_m5 : ℕ
  pub tier2_minimum_volume_liquidity_ratio : ℤ
  pub tier1_ttl : ℕ
  pub tier2_ttl : ℕ
  pub coverage_interval : ℕ
  pub security_freshness : ℕ
  pub tasks_per_minute : ℕ
  pub expensive_slots_per_minute : ℕ
  pub boost_wakeups_per_minute : ℕ
  pub max_active_coverage : ℕ
  pub tier3_ttl : ℕ
  pub max_tier3_candidates : ℕ
  pub tier3_holder_top10_pct : ℤ
  pub tier3_max_unique_traders : ℕ
  pub tier3_min_total_trades : ℕ
  pub tier3_common_funder_share_pct : ℤ
  pub tier3_liquidity_removal_pct : ℤ

pub record EvaluationDecision : Type 0 where
  pub eligible : Bool
  pub target_tier : CandidateTier
  pub reason : TransitionReason
  pub coverage_until : Option ℕ

abbrev is_zero : ℤ → Bool
is_zero (pos zero) = true
is_zero _ = false

abbrev at_least : ℤ → Option ℤ → Bool
at_least bound none = false
at_least bound (some v) = leb_ℤ bound v

abbrev at_least_count : ℕ → Option ℕ → Bool
at_least_count bound none = false
at_least_count bound (some n) = leb bound n

abbrev at_most_count : ℕ → Option ℕ → Bool
at_most_count bound none = false
at_most_count bound (some n) = leb n bound

abbrev pub in_review : CandidateTier → Bool
in_review investigate = true
in_review deep_review = true
in_review _ = false

abbrev pub below_review : CandidateTier → Bool
below_review interesting = true
below_review investigate = true
below_review _ = false

abbrev is_watch : LifecycleState → Bool
is_watch watch = true
is_watch _ = false

-- `divide` is the division of Decimal, which rounds as its context says.
module _ (divide : ℤ → ℤ → ℤ) (p : CandidatePolicy) where
  pub volume_liquidity_ratio : CandidateEvidence → Option ℤ
  volume_liquidity_ratio e = elim (e.volume_m5_usd) [
    | none ↦ none
    | some volume ↦ elim (e.liquidity_usd) [
      | none ↦ none
      | some liquidity ↦ if is_zero liquidity then none else some (divide volume liquidity)
    ]
  ]

  pub market_ok : CandidateEvidence → Bool
  unfolding volume_liquidity_ratio
  market_ok e =
      at_least p.minimum_liquidity_usd e.liquidity_usd
      && at_least_count p.minimum_transactions_m5 (transaction_count_m5 e)
      && at_least p.minimum_volume_liquidity_ratio (volume_liquidity_ratio e)

  pub tier2_market : CandidateEvidence → Bool
  unfolding volume_liquidity_ratio
  tier2_market e =
      at_least p.tier2_minimum_liquidity_usd e.liquidity_usd
      && at_least_count p.tier2_minimum_transactions_m5 (transaction_count_m5 e)
      && at_least p.tier2_minimum_volume_liquidity_ratio (volume_liquidity_ratio e)

  -- `evaluated_at - received_at <= freshness`; a receipt does not lie after the evaluation.
  pub security_fresh : CandidateEvidence → Bool
  security_fresh e = elim (e.security_received_at) [
    | none ↦ false
    | some received ↦ leb e.evaluated_at (received + p.security_freshness)
  ]

  pub tier3_matched : CandidateEvidence → Bool
  tier3_matched e =
      at_least p.tier3_holder_top10_pct e.holder_top10_pct
      || (is_some e.unique_traders
          && at_least_count p.tier3_min_total_trades e.total_trades
          && at_most_count p.tier3_max_unique_traders e.unique_traders)
      || at_least p.tier3_common_funder_share_pct e.common_funder_share_pct
      || at_least p.tier3_liquidity_removal_pct e.liquidity_removal_pct

  -- The reason that makes a token interesting, if there is one.
  pub interest : CandidateEvidence → Option TransitionReason
  unfolding market_ok
  interest e =
      if is_some e.boost_event_id
      then some boost_activity
      else if e.coverage_resurrection
      then some coverage_resurrection_reason
      else if is_watch e.lifecycle_state && market_ok e
      then some watch_state
      else if market_ok e
      then some market_activity
      else none

  abbrev cooled_reason : CandidateTier → TransitionReason
  cooled_reason universal = activity_cooling
  cooled_reason _ = evidence_stale

  pub decide_interest :
      CandidateEvidence → CandidateTier → Option TransitionReason → EvaluationDecision
  unfolding tier2_market security_fresh
  decide_interest e current none = record {
    eligible = false;
    target_tier = universal;
    reason = cooled_reason current;
    coverage_until = none;
  }
  decide_interest e current (some reason) =
      if below_review current && tier2_market e && security_fresh e
      then record {
        eligible = true;
        target_tier = investigate;
        reason = reason;
        coverage_until = some (e.evaluated_at + p.tier2_ttl);
      }
      else record {
        eligible = true;
        target_tier = interesting;
        reason = reason;
        coverage_until = some (e.evaluated_at + p.tier1_ttl);
      }

  unfoldable pub evaluate : CandidateEvidence → (current_tier : CandidateTier) → EvaluationDecision
  unfolding tier3_matched interest decide_interest
  evaluate e current =
      if in_review current && tier3_matched e
      then record {
        eligible = true;
        target_tier = deep_review;
        reason = security_change;
        coverage_until = some (e.evaluated_at + p.tier3_ttl);
      }
      else decide_interest e current (interest e)
