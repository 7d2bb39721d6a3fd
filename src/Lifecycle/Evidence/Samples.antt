-- ===== src/Lifecycle/Evidence/Samples.antt =====
-- Two pairs of one token, and the theorems on the choice of evidence at them.
use pump_research.Prelude.{◌≡◌, refl, none, some, List, [], ◌∷◌, ok, All, arith}
use pump_research.Prelude.Int.{pos}
use pump_research.Prelude.Sorting.{sort_by}
use pump_research.Prelude.Text.{text_leb}
use pump_research.Lifecycle.Evidence.{
  LifecycleEvidenceCandidate, EvidenceSelectionResult, canonical_pair_key_leb, select,
  selected_outcome, highest_reported_liquidity_usd, greatest_liquidity,
}
use pump_research.Lifecycle.Evidence.Order.{HasDistinctPairs, select-perm}
use pump_research.Lifecycle.Evidence.Choice.{IsOutrankedBy, select-outranks}
use mathlib.Core.List.{Permᴰ, Pairwise-pair}

abbrev shallow : LifecycleEvidenceCandidate
shallow = record {
  observation_id = 1;
  observation_received_at = 500;
  pair_id = 11;
  chain = b's' ∷ [];
  pair_address = b'A' ∷ b'x' ∷ [];
  dex_identifier = none;
  liquidity_usd = some (pos 100);
  volume_m5_usd = some (pos 5);
  volume_h1_usd = none;
}

abbrev deep : LifecycleEvidenceCandidate
deep = record {
  observation_id = 2;
  observation_received_at = 500;
  pair_id = 12;
  chain = b's' ∷ [];
  pair_address = b'B' ∷ [];
  dex_identifier = none;
  liquidity_usd = some (pos 900);
  volume_m5_usd = some (pos 7);
  volume_h1_usd = some (pos 70);
}

abbrev chosen : EvidenceSelectionResult
chosen = record {
  outcome = selected_outcome;
  selected = some deep;
  reason_code = highest_reported_liquidity_usd;
  reason_detail = record {
    candidates = shallow ∷ deep ∷ [];
    incomplete_pair_addresses = none;
    selected_pair_address = some (b'B' ∷ []);
    selected_liquidity_usd = some (pos 900);
    liquidity_tie_count = some 1;
  };
}

select-two : select (deep ∷ shallow ∷ []) ≡ ok chosen
unfolding select canonical_pair_key_leb sort_by text_leb greatest_liquidity
    pump_research.Prelude.select
select-two = refl

distinct : HasDistinctPairs (deep ∷ shallow ∷ [])
unfolding canonical_pair_key_leb text_leb
distinct = (Pairwise-pair (λ a b. hlevel)).1 refl

select-perm_example : select (deep ∷ shallow ∷ []) ≡ select (shallow ∷ deep ∷ [])
select-perm_example = select-perm (Permᴰ.swap refl refl) distinct

select-outranks_example : All (IsOutrankedBy deep) (deep ∷ shallow ∷ [])
select-outranks_example = select-outranks (deep ∷ shallow ∷ []) (omega arith) select-two refl
