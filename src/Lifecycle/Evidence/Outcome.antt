-- ===== src/Lifecycle/Evidence/Outcome.antt =====
-- The outcome of the choice of src/pump_research/lifecycle/evidence_selection.py.
use pump_research.Prelude.{
  All-Mem, ◌≡◌, ◌≢◌, inl, inr, refl, Bool, true, false, ◌||◌, subst, Option, none, some, List, [],
  ◌∷◌, map, ok, length, All, All-select_keep, select as where_, arith, Bool-cases, ap, ◌∙◌,
  if◌then◌else◌,
}
use pump_research.Prelude.Int.{ℤ}
use pump_research.Prelude.Sorting.{insert_by, sort_by, All-sort_by, length-sort_by}
use pump_research.Lifecycle.Evidence.{
  LifecycleEvidenceCandidate, EvidenceSelectionResult, EvidenceSelectionOutcome,
  canonical_pair_key_leb, select, select_ordered, choose_greatest, choose_complete, choose_tied,
  greatest_liquidity, lacks_liquidity, has_liquidity, selected_outcome, failed_outcome,
}
use pump_research.Lifecycle.Evidence.Choice.{
  IsKnown, greatest_liquidity-none, tied-ne-nil, nothing_missing,
}
use mathlib.Core.List.{Mem}

choose_tied-All :
    (P : LifecycleEvidenceCandidate → Type 0) (xs ts : List LifecycleEvidenceCandidate)
    {r : EvidenceSelectionResult} {c : LifecycleEvidenceCandidate}
    → choose_tied xs ts ≡ ok r
    → r.selected ≡ some c
    → All P ts
    → P c
unfolding choose_tied
choose_tied-All P xs [] h s p = cc
choose_tied-All P xs (t ∷ ts) {r} {c} h s p = let same : t ≡ c = ground arith in subst P same p.0

choose_greatest-All :
    (P : LifecycleEvidenceCandidate → Type 0) (xs : List LifecycleEvidenceCandidate) (g : Option ℤ)
    {r : EvidenceSelectionResult} {c : LifecycleEvidenceCandidate}
    → choose_greatest xs g ≡ ok r
    → r.selected ≡ some c
    → All P xs
    → P c
unfolding choose_greatest
choose_greatest-All P xs none h s p = cc
choose_greatest-All P xs (some g) h s p =
    choose_tied-All P xs (where_ (has_liquidity g) xs) h s
      (All-select_keep P (has_liquidity g) xs p)

select_ordered-All :
    (P : LifecycleEvidenceCandidate → Type 0) (xs : List LifecycleEvidenceCandidate)
    {r : EvidenceSelectionResult} {c : LifecycleEvidenceCandidate}
    → select_ordered xs ≡ ok r
    → r.selected ≡ some c
    → All P xs
    → P c
unfolding select_ordered
select_ordered-All P [] h s p = absurd (ground arith)
select_ordered-All P (x ∷ []) {r} {c} h s p = let same : x ≡ c = ground arith in subst P same p.0
select_ordered-All P (x ∷ y ∷ xs) {r} {c} h s p = go (where_ lacks_liquidity (x ∷ y ∷ xs)) h
  where
    go :
        (ms : List LifecycleEvidenceCandidate)
        → choose_complete (x ∷ y ∷ xs) (map (λ e. e.pair_address) ms) ≡ ok r
        → P c
    go [] h = choose_greatest-All P (x ∷ y ∷ xs) (greatest_liquidity (x ∷ y ∷ xs)) h s p
    go (m ∷ ms) h = absurd (ground arith)

-- The selected candidate is one of those that were given.
pub select-mem :
    (candidates : List LifecycleEvidenceCandidate) {r : EvidenceSelectionResult}
    {c : LifecycleEvidenceCandidate}
    → select candidates ≡ ok r
    → r.selected ≡ some c
    → Mem c candidates
unfolding select
select-mem candidates h s =
    select_ordered-All (λ d. Mem d candidates) (sort_by canonical_pair_key_leb candidates) h s
      (All-sort_by canonical_pair_key_leb (λ d. Mem d candidates) candidates (All-Mem candidates))

choose_complete-total :
    (x : LifecycleEvidenceCandidate) (xs : List LifecycleEvidenceCandidate)
    → All IsKnown (x ∷ xs)
    → (r : EvidenceSelectionResult) × (choose_complete (x ∷ xs) [] ≡ ok r)
      × (r.outcome ≡ selected_outcome)
unfolding choose_complete choose_greatest choose_tied
choose_complete-total x xs k = go (greatest_liquidity (x ∷ xs)) refl
  where
    tied :
        (g : ℤ) (ts : List LifecycleEvidenceCandidate)
        → greatest_liquidity (x ∷ xs) ≡ some g
        → where_ (has_liquidity g) (x ∷ xs) ≡ ts
        → (r : EvidenceSelectionResult) × (choose_tied (x ∷ xs) ts ≡ ok r)
          × (r.outcome ≡ selected_outcome)
    tied g [] e w = absurd (tied-ne-nil (x ∷ xs) e w)
    tied g (t ∷ ts) e w = (_, refl, refl)

    go :
        (m : Option ℤ)
        → greatest_liquidity (x ∷ xs) ≡ m
        → (r : EvidenceSelectionResult) × (choose_greatest (x ∷ xs) m ≡ ok r)
          × (r.outcome ≡ selected_outcome)
    go none e =
        let (l, known) = k.0 in
        let missing = (greatest_liquidity-none (x ∷ xs) e).0 in absurd (ground arith)
    go (some g) e = tied g (where_ (has_liquidity g) (x ∷ xs)) e refl

-- Some candidate does not report its liquidity.
abbrev pub lacks_any : List LifecycleEvidenceCandidate → Bool
lacks_any [] = false
lacks_any (c ∷ cs) = lacks_liquidity c || lacks_any cs

-- No candidate is a failure, one candidate is selected as it is, and of several all have to
-- report their liquidity.
abbrev pub expected_outcome : List LifecycleEvidenceCandidate → EvidenceSelectionOutcome
expected_outcome [] = failed_outcome
expected_outcome (c ∷ []) = selected_outcome
expected_outcome (c ∷ d ∷ cs) = if lacks_any (c ∷ d ∷ cs) then failed_outcome else selected_outcome

lacks_any-where :
    (xs : List LifecycleEvidenceCandidate) → lacks_any xs ≡ true → where_ lacks_liquidity xs ≢ []
unfolding where_
lacks_any-where [] h = cc
lacks_any-where (c ∷ cs) h = ground (arith, lacks_any-where cs)

lacks_any-where_false :
    (xs : List LifecycleEvidenceCandidate) → lacks_any xs ≡ false → where_ lacks_liquidity xs ≡ []
unfolding where_
lacks_any-where_false [] h = refl
lacks_any-where_false (c ∷ cs) h = ground (arith, lacks_any-where_false cs)

select_ordered-total :
    (xs : List LifecycleEvidenceCandidate)
    → (r : EvidenceSelectionResult) × (select_ordered xs ≡ ok r) × (r.outcome ≡ expected_outcome xs)
unfolding select_ordered
select_ordered-total [] = (_, refl, refl)
select_ordered-total (x ∷ []) = (_, refl, refl)
select_ordered-total (x ∷ y ∷ xs) =
    let all = x ∷ y ∷ xs in
    elim (Bool-cases (lacks_any (x ∷ y ∷ xs))) [
      | inl e ↦
          rw e (missing (where_ lacks_liquidity (x ∷ y ∷ xs)) (lacks_any-where (x ∷ y ∷ xs) e))
      | inr e ↦
          let nothing = lacks_any-where_false (x ∷ y ∷ xs) e in
          rw (e, nothing) (choose_complete-total x (y ∷ xs) (nothing_missing (x ∷ y ∷ xs) nothing))
    ]
  where
    missing :
        (ms : List LifecycleEvidenceCandidate)
        → ms ≢ []
        → (r : EvidenceSelectionResult) × (choose_complete
              (x ∷ y ∷ xs)
              (map (λ e. e.pair_address) ms)
            ≡ ok r)
          × (r.outcome ≡ failed_outcome)
    missing [] h = absurd (h refl)
    missing (m ∷ ms) h = (_, refl, refl)

lacks_any-insert_by :
    (c : LifecycleEvidenceCandidate) (xs : List LifecycleEvidenceCandidate)
    → lacks_any (insert_by canonical_pair_key_leb c xs) ≡ (lacks_liquidity c || lacks_any xs)
unfolding insert_by
lacks_any-insert_by c [] = refl
lacks_any-insert_by c (x ∷ xs) = ground (arith, lacks_any-insert_by c xs)

lacks_any-sort_by :
    (xs : List LifecycleEvidenceCandidate)
    → lacks_any (sort_by canonical_pair_key_leb xs) ≡ lacks_any xs
unfolding sort_by
lacks_any-sort_by [] = refl
lacks_any-sort_by (x ∷ xs) =
    lacks_any-insert_by x (sort_by canonical_pair_key_leb xs)
    ∙ ap (λ b. lacks_liquidity x || b) (lacks_any-sort_by xs)

expected_outcome-eq :
    (xs ys : List LifecycleEvidenceCandidate)
    → length xs ≡ length ys
    → lacks_any xs ≡ lacks_any ys
    → expected_outcome xs ≡ expected_outcome ys
expected_outcome-eq [] [] n h = refl
expected_outcome-eq [] (y ∷ ys) n h = absurd (omega arith)
expected_outcome-eq (x ∷ xs) [] n h = absurd (omega arith)
expected_outcome-eq (x ∷ []) (y ∷ []) n h = refl
expected_outcome-eq (x ∷ []) (y ∷ z ∷ ys) n h = absurd (omega arith)
expected_outcome-eq (x ∷ w ∷ xs) (y ∷ []) n h = absurd (omega arith)
expected_outcome-eq (x ∷ w ∷ xs) (y ∷ z ∷ ys) n h =
    ap (λ (b : Bool). if b then failed_outcome else selected_outcome) h

-- The choice never raises: it returns a result for every tuple of candidates, and fails exactly
-- when there is no candidate or when one of several does not report its liquidity.
pub select-total :
    (candidates : List LifecycleEvidenceCandidate)
    → (r : EvidenceSelectionResult) × (select candidates ≡ ok r)
      × (r.outcome ≡ expected_outcome candidates)
unfolding select
select-total candidates =
    let (r, e, o) = select_ordered-total (sort_by canonical_pair_key_leb candidates) in
    (
      r,
      e,
      o
          ∙ expected_outcome-eq (sort_by canonical_pair_key_leb candidates) candidates
              (length-sort_by canonical_pair_key_leb candidates) (lacks_any-sort_by candidates),
    )
