-- ===== src/Candidates/Tiers.antt =====
-- What the tier policy of src/pump_research/candidates/policy.py decides.
use pump_research.Prelude.{
  ℕ, ◌+◌, ◌≤◌, ◌≡◌, ◌↔◌, ◌⊎◌, inl, inr, refl, true, false, ◌&&◌, Option, none, some, List, [], ◌∷◌,
  ok, arith, Bool-cases, All,
}
use pump_research.Prelude.Int.{ℤ}
use pump_research.Candidates.{
  CandidateTier, universal, interesting, investigate, deep_review, pretrade, TransitionReason,
  CandidateEvidence, CandidatePolicy, receipts, any_after, post_init, in_review, below_review,
  tier2_market, security_fresh, market_ok, tier3_matched, interest, decide_interest, evaluate,
}

abbrev pub level : CandidateTier → ℕ
level universal = 0
level interesting = 1
level investigate = 2
level deep_review = 3
level pretrade = 4

abbrev pub IsReceivedBy : ℕ → Option ℕ → Type 0
IsReceivedBy watermark none = Unit {0}
IsReceivedBy watermark (some at) = at ≤ watermark

any_after-false :
    (watermark : ℕ) (rs : List (Option ℕ))
    → any_after watermark rs ≡ false
    → All (IsReceivedBy watermark) rs
unfolding any_after
any_after-false watermark [] h = tt
any_after-false watermark (none ∷ rs) h = (tt, any_after-false watermark rs h)
any_after-false watermark (some at ∷ rs) h =
    (ground arith, any_after-false watermark rs (ground arith))

any_after-received :
    (watermark : ℕ) (rs : List (Option ℕ))
    → All (IsReceivedBy watermark) rs
    → any_after watermark rs ≡ false
unfolding any_after
any_after-received watermark [] h = refl
any_after-received watermark (none ∷ rs) h = any_after-received watermark rs h.1
any_after-received watermark (some at ∷ rs) h =
    let rest = any_after-received watermark rs h.1 in
    let known : at ≤ watermark = h.0 in ground arith

-- Evidence is accepted exactly when its watermark does not lie after the evaluation and every fact
-- in it was received by the watermark: nothing is known before its time.
pub post_init_iff :
    (e : CandidateEvidence)
    → (post_init e ≡ ok e)
      ↔ ((e.watermark ≤ e.evaluated_at) × All (IsReceivedBy e.watermark) (receipts e))
unfolding post_init
post_init_iff e = (
  λ h. (ground arith, any_after-false e.watermark (receipts e) (ground arith)),
  λ h.
      let known = any_after-received e.watermark (receipts e) h.1 in
      let before : e.watermark ≤ e.evaluated_at = h.0 in ground arith,
)

module _ (divide : ℤ → ℤ → ℤ) (p : CandidatePolicy) where
  -- The time for which a tier keeps its candidate coverage.
  abbrev pub ttl_of : CandidateTier → ℕ
  ttl_of deep_review = p.tier3_ttl
  ttl_of investigate = p.tier2_ttl
  ttl_of _ = p.tier1_ttl

  -- No tier is skipped: a decision lifts a token by one level at most.
  pub evaluate-level :
      (e : CandidateEvidence) (current : CandidateTier)
      → level (evaluate divide p e current).target_tier ≤ level current + 1
  unfolding evaluate decide_interest
  evaluate-level e universal = ground arith
  evaluate-level e interesting = ground arith
  evaluate-level e investigate = ground arith
  evaluate-level e deep_review = ground arith
  evaluate-level e pretrade = ground arith

  -- A token is put under deep review exactly when it is being investigated or reviewed and one of
  -- the four reasons for a deep review matches.
  pub evaluate-deep_review_iff :
      (e : CandidateEvidence) (current : CandidateTier)
      → ((evaluate divide p e current).target_tier ≡ deep_review)
        ↔ ((in_review current && tier3_matched divide p e) ≡ true)
  unfolding evaluate decide_interest
  evaluate-deep_review_iff e current = (λ h. ground arith, λ h. ground arith)

  decide_interest-coverage :
      (e : CandidateEvidence) (current : CandidateTier) (o : Option TransitionReason)
      → (((decide_interest divide p e current o).eligible ≡ true)
          × ((decide_interest divide p e current o).coverage_until
              ≡ some (e.evaluated_at + ttl_of (decide_interest divide p e current o).target_tier)))
        ⊎ (((decide_interest divide p e current o).eligible ≡ false)
            × ((decide_interest divide p e current o).coverage_until ≡ none)
            × ((decide_interest divide p e current o).target_tier ≡ universal))
  unfolding decide_interest
  decide_interest-coverage e current none = inr (refl, refl, refl)
  decide_interest-coverage e current (some reason) =
      elim (Bool-cases
        (below_review current && tier2_market divide p e && security_fresh divide p e)) [
          | inl b ↦ rw b (inl (refl, refl))
          | inr b ↦ rw b (inl (refl, refl))
        ]

  -- An eligible token has candidate coverage for the time of its tier from the evaluation on; a
  -- token that is not eligible falls to the universal tier and has none.
  pub evaluate-coverage :
      (e : CandidateEvidence) (current : CandidateTier)
      → (((evaluate divide p e current).eligible ≡ true)
          × ((evaluate divide p e current).coverage_until
              ≡ some (e.evaluated_at + ttl_of (evaluate divide p e current).target_tier)))
        ⊎ (((evaluate divide p e current).eligible ≡ false)
            × ((evaluate divide p e current).coverage_until ≡ none)
            × ((evaluate divide p e current).target_tier ≡ universal))
  unfolding evaluate decide_interest
  evaluate-coverage e current = elim (Bool-cases (in_review current && tier3_matched divide p e)) [
    | inl b ↦ rw b (inl (refl, refl))
    | inr b ↦ rw b (decide_interest-coverage e current (interest divide p e))
  ]

  -- A token is not eligible exactly when nothing speaks for it: no deep review, no boost, no
  -- resurrection of its coverage, and no market activity.
  pub evaluate-eligible_iff :
      (e : CandidateEvidence) (current : CandidateTier)
      → ((evaluate divide p e current).eligible ≡ false) ↔ (
          ((in_review current && tier3_matched divide p e) ≡ false)
          × (e.boost_event_id ≡ none)
          × (e.coverage_resurrection ≡ false)
          × (market_ok divide p e ≡ false))
  unfolding evaluate decide_interest interest
  evaluate-eligible_iff e current = (λ h. ground arith, λ h. ground arith)
