-- ===== src/Lifecycle/Evidence.antt =====
-- src/pump_research/lifecycle/evidence_selection.py: the choice of one pair observation among
-- those of one token in one response. A decimal is an integer number of 10^-18 units; the
-- texts that `_decimal_text` prints of the decimals stand as the decimals themselves.
pub mod Order
pub mod Choice
pub mod Outcome
pub mod Samples
use pump_research.Prelude.{
  ℕ, suc, ◌≡◌, Bool, true, false, ◌&&◌, Option, none, some, List, [], ◌∷◌, map, Result, ok, err,
  if◌then◌else◌, length, select as where_, ◌==◌,
}
use pump_research.Prelude.Int.{ℤ, pos_part, neg_part, leb_ℤ}
use pump_research.Prelude.Sorting.{sort_by}
use pump_research.Prelude.Text.{Text, text_leb}

pub record LifecycleEvidenceCandidate : Type 0 where
  pub observation_id : ℕ
  pub observation_received_at : ℕ
  pub pair_id : ℕ
  pub chain : Text
  pub pair_address : Text
  pub dex_identifier : Option Text
  pub liquidity_usd : Option ℤ
  pub volume_m5_usd : Option ℤ
  pub volume_h1_usd : Option ℤ

pub data EvidenceSelectionOutcome : Type 0 where
  selected_outcome failed_outcome : EvidenceSelectionOutcome

pub data ReasonCode : Type 0 where
  no_candidate_pair_observations only_candidate_pair : ReasonCode
  candidate_missing_required_liquidity_usd highest_reported_liquidity_usd : ReasonCode
  highest_reported_liquidity_usd_canonical_address_tiebreak : ReasonCode

-- The dictionary `reason_detail`; `none` is a key that the branch does not write.
pub record ReasonDetail : Type 0 where
  pub candidates : List LifecycleEvidenceCandidate
  pub incomplete_pair_addresses : Option (List Text)
  pub selected_pair_address : Option Text
  pub selected_liquidity_usd : Option ℤ
  pub liquidity_tie_count : Option ℕ

pub record EvidenceSelectionResult : Type 0 where
  pub outcome : EvidenceSelectionOutcome
  pub selected : Option LifecycleEvidenceCandidate
  pub reason_code : ReasonCode
  pub reason_detail : ReasonDetail

-- What Python raises for `max` of nothing and for `tied[0]` of an empty tuple.
pub data SelectionError : Type 0 where
  empty_max index_error : SelectionError

-- `_canonical_pair_key`, and the order of such tuples.
unfoldable pub canonical_pair_key_leb :
    LifecycleEvidenceCandidate → LifecycleEvidenceCandidate → Bool
canonical_pair_key_leb a b =
    if text_leb a.chain b.chain
    then if text_leb b.chain a.chain then text_leb a.pair_address b.pair_address else true
    else false

abbrev lacks_liquidity : LifecycleEvidenceCandidate → Bool
lacks_liquidity c = elim (c.liquidity_usd) [ none ↦ true | some l ↦ false ]

abbrev pub max_ℤ : ℤ → ℤ → ℤ
max_ℤ a b = if leb_ℤ a b then b else a

abbrev pub eq_ℤ : ℤ → ℤ → Bool
eq_ℤ a b = leb_ℤ a b && leb_ℤ b a

-- `max(candidate.liquidity_usd for candidate in ordered if candidate.liquidity_usd is not None)`
pub greatest_liquidity : List LifecycleEvidenceCandidate → Option ℤ
greatest_liquidity [] = none
greatest_liquidity (c ∷ cs) = elim (c.liquidity_usd) [
  | none ↦ greatest_liquidity cs
  | some l ↦ elim (greatest_liquidity cs) [ none ↦ some l | some m ↦ some (max_ℤ l m) ]
]

abbrev has_liquidity : ℤ → LifecycleEvidenceCandidate → Bool
has_liquidity greatest c = elim (c.liquidity_usd) [ none ↦ false | some l ↦ eq_ℤ l greatest ]

-- The last part of `select`: the first of the tied candidates.
choose_tied :
    List LifecycleEvidenceCandidate
    → List LifecycleEvidenceCandidate
    → Result SelectionError EvidenceSelectionResult
choose_tied ordered [] = err index_error
choose_tied ordered (c ∷ others) = ok (record {
  outcome = selected_outcome;
  selected = some c;
  reason_code = elim others [
    | [] ↦ highest_reported_liquidity_usd
    | _ ∷ _ ↦ highest_reported_liquidity_usd_canonical_address_tiebreak
  ];
  reason_detail = record {
    candidates = ordered;
    incomplete_pair_addresses = none;
    selected_pair_address = some (c.pair_address);
    selected_liquidity_usd = c.liquidity_usd;
    liquidity_tie_count = some (length (c ∷ others));
  };
})

choose_greatest :
    List LifecycleEvidenceCandidate → Option ℤ → Result SelectionError EvidenceSelectionResult
unfolding choose_tied
choose_greatest ordered none = err empty_max
choose_greatest ordered (some greatest) =
    choose_tied ordered (where_ (has_liquidity greatest) ordered)

choose_complete :
    List LifecycleEvidenceCandidate → List Text → Result SelectionError EvidenceSelectionResult
unfolding choose_greatest
choose_complete ordered [] = choose_greatest ordered (greatest_liquidity ordered)
choose_complete ordered (address ∷ addresses) = ok (record {
  outcome = failed_outcome;
  selected = none;
  reason_code = candidate_missing_required_liquidity_usd;
  reason_detail = record {
    candidates = ordered;
    incomplete_pair_addresses = some (address ∷ addresses);
    selected_pair_address = none;
    selected_liquidity_usd = none;
    liquidity_tie_count = none;
  };
})

select_ordered : List LifecycleEvidenceCandidate → Result SelectionError EvidenceSelectionResult
unfolding choose_complete
select_ordered [] = ok (record {
  outcome = failed_outcome;
  selected = none;
  reason_code = no_candidate_pair_observations;
  reason_detail = record {
    candidates = [];
    incomplete_pair_addresses = none;
    selected_pair_address = none;
    selected_liquidity_usd = none;
    liquidity_tie_count = none;
  };
})
select_ordered (c ∷ []) = ok (record {
  outcome = selected_outcome;
  selected = some c;
  reason_code = only_candidate_pair;
  reason_detail = record {
    candidates = c ∷ [];
    incomplete_pair_addresses = none;
    selected_pair_address = some (c.pair_address);
    selected_liquidity_usd = c.liquidity_usd;
    liquidity_tie_count = some 1;
  };
})
select_ordered (c ∷ d ∷ cs) =
    choose_complete (c ∷ d ∷ cs) (map (λ e. e.pair_address) (where_ lacks_liquidity (c ∷ d ∷ cs)))

unfoldable pub select :
    List LifecycleEvidenceCandidate → Result SelectionError EvidenceSelectionResult
unfolding select_ordered
select candidates = select_ordered (sort_by canonical_pair_key_leb candidates)
