-- ===== src/Lifecycle/Evidence/Choice.antt =====
-- Which candidate src/pump_research/lifecycle/evidence_selection.py chooses, and when it fails.
use pump_research.Prelude.{
  ◌≤◌, ◌≡◌, ◌≢◌, inl, inr, refl, true, Option, none, some, List, [], ◌∷◌, map, ok, length, All,
  All-select, All-map_imp, select as where_, arith, Option-cases,
}
use pump_research.Prelude.Int.{ℤ, ◌≤ℤ◌}
use pump_research.Prelude.Sorting.{
  IsOrdered, first-select, sort_by, sort_by-IsOrdered, All-of_sort_by, length-sort_by,
}
use pump_research.Lifecycle.Evidence.{
  LifecycleEvidenceCandidate, EvidenceSelectionResult, canonical_pair_key_leb, select,
  select_ordered, choose_greatest, choose_complete, choose_tied, greatest_liquidity,
  lacks_liquidity, has_liquidity,
}
use pump_research.Lifecycle.Evidence.Order.{canonical_pair_key_leb-IsTotalOrder}

-- The liquidity of `d` is known and is at most that of `c`; where they are equal, the canonical
-- key of `c` is at most that of `d`.
pub record IsOutrankedBy (c d : LifecycleEvidenceCandidate) : Type 0 where
  pub own : ℤ
  pub other : ℤ
  pub own_known : c.liquidity_usd ≡ some own
  pub other_known : d.liquidity_usd ≡ some other
  pub not_more : other ≤ℤ own
  pub tie_broken : own ≤ℤ other → canonical_pair_key_leb c d ≡ true

AtMost : ℤ → LifecycleEvidenceCandidate → Type 0
AtMost g d = (m : ℤ) → d.liquidity_usd ≡ some m → m ≤ℤ g

pub greatest_liquidity-none :
    (xs : List LifecycleEvidenceCandidate)
    → greatest_liquidity xs ≡ none
    → All (λ d. d.liquidity_usd ≡ none) xs
unfolding greatest_liquidity
greatest_liquidity-none [] h = tt
greatest_liquidity-none (c ∷ cs) h = (ground arith, greatest_liquidity-none cs (ground arith))

greatest_liquidity-AtMost :
    (xs : List LifecycleEvidenceCandidate) {g : ℤ}
    → greatest_liquidity xs ≡ some g
    → All (AtMost g) xs
unfolding greatest_liquidity AtMost
greatest_liquidity-AtMost [] h = tt
greatest_liquidity-AtMost (c ∷ cs) {g} h = elim (Option-cases (greatest_liquidity cs)) [
  | inl e ↦ (
    λ l k. ground arith,
    All-map_imp cs (λ d f l k. ground (arith, f)) (greatest_liquidity-none cs e),
  )
  | inr (m, e) ↦ (
    λ l k. ground arith,
    All-map_imp cs (λ d f l k. ground (arith, f l k)) (greatest_liquidity-AtMost cs e),
  )
]

-- Some candidate has the greatest liquidity.
pub tied-ne-nil :
    (xs : List LifecycleEvidenceCandidate) {g : ℤ}
    → greatest_liquidity xs ≡ some g
    → where_ (has_liquidity g) xs ≢ []
unfolding greatest_liquidity where_
tied-ne-nil [] h = ground arith
tied-ne-nil (c ∷ cs) {g} h = elim (Option-cases (greatest_liquidity cs)) [
  | inl e ↦ ground arith
  | inr (m, e) ↦ ground (arith, tied-ne-nil cs e)
]

abbrev pub IsKnown : LifecycleEvidenceCandidate → Type 0
IsKnown d = (m : ℤ) × (d.liquidity_usd ≡ some m)

pub nothing_missing :
    (xs : List LifecycleEvidenceCandidate) → where_ lacks_liquidity xs ≡ [] → All IsKnown xs
unfolding where_
nothing_missing [] h = tt
nothing_missing (c ∷ cs) h = (known (c.liquidity_usd) refl, nothing_missing cs (ground arith))
  where
    known : (o : Option ℤ) → c.liquidity_usd ≡ o → (m : ℤ) × (c.liquidity_usd ≡ some m)
    known none e = absurd (ground arith)
    known (some m) e = (m, e)

-- The chosen candidate against one other, from what is known of both.
outranks :
    (g : ℤ) (c d : LifecycleEvidenceCandidate)
    → has_liquidity g c ≡ true
    → IsKnown d
    → AtMost g d
    → (has_liquidity g d ≡ true → canonical_pair_key_leb c d ≡ true)
    → IsOutrankedBy c d
unfolding AtMost
outranks g c d t (m, e) a f = go (c.liquidity_usd) refl
  where
    go : (o : Option ℤ) → c.liquidity_usd ≡ o → IsOutrankedBy c d
    go none k = absurd (ground arith)
    go (some l) k = record {
      own = l;
      other = m;
      own_known = k;
      other_known = e;
      not_more = ground (arith, a m e);
      tie_broken = λ h. f (ground (arith, a m e));
    }

All-zip {ℓ} :
    {A : Type ℓ} {P Q R S : A → Type 0} (xs : List A)
    → ((x : A) → P x → Q x → R x → S x)
    → All P xs
    → All Q xs
    → All R xs
    → All S xs
All-zip [] f p q r = tt
All-zip (x ∷ xs) f p q r = (f x p.0 q.0 r.0, All-zip xs f p.1 q.1 r.1)

choose_greatest-outranks :
    (xs : List LifecycleEvidenceCandidate) {r : EvidenceSelectionResult}
    {c : LifecycleEvidenceCandidate}
    → IsOrdered canonical_pair_key_leb xs
    → All IsKnown xs
    → choose_greatest xs (greatest_liquidity xs) ≡ ok r
    → r.selected ≡ some c
    → All (IsOutrankedBy c) xs
unfolding choose_greatest choose_tied
choose_greatest-outranks xs {r} {c} o k h s = go (greatest_liquidity xs) refl h
  where
    tied :
        (g : ℤ) (ts : List LifecycleEvidenceCandidate)
        → greatest_liquidity xs ≡ some g
        → where_ (has_liquidity g) xs ≡ ts
        → choose_tied xs ts ≡ ok r
        → All (IsOutrankedBy c) xs
    tied g [] e w h = cc
    tied g (t ∷ ts) e w h =
        let same : t ≡ c = ground arith in
        let own : has_liquidity g t ≡ true = (rw w at (All-select (has_liquidity g) xs)).0 in
        All-zip xs (λ d. outranks g c d (rw same at own)) k (greatest_liquidity-AtMost xs e)
          (first-select canonical_pair_key_leb canonical_pair_key_leb-IsTotalOrder (has_liquidity g)
            xs o (rw same at w))

    go :
        (m : Option ℤ)
        → greatest_liquidity xs ≡ m
        → choose_greatest xs m ≡ ok r
        → All (IsOutrankedBy c) xs
    go none e h = cc
    go (some g) e h = tied g (where_ (has_liquidity g) xs) e refl h

select_ordered-outranks :
    (xs : List LifecycleEvidenceCandidate) {r : EvidenceSelectionResult}
    {c : LifecycleEvidenceCandidate}
    → 2 ≤ length xs
    → IsOrdered canonical_pair_key_leb xs
    → select_ordered xs ≡ ok r
    → r.selected ≡ some c
    → All (IsOutrankedBy c) xs
unfolding select_ordered
select_ordered-outranks [] n o h s = absurd (omega arith)
select_ordered-outranks (x ∷ []) n o h s = absurd (omega arith)
select_ordered-outranks (x ∷ y ∷ xs) {r} {c} n o h s =
    go (where_ lacks_liquidity (x ∷ y ∷ xs)) refl h
  where
    go :
        (ms : List LifecycleEvidenceCandidate)
        → where_ lacks_liquidity (x ∷ y ∷ xs) ≡ ms
        → choose_complete (x ∷ y ∷ xs) (map (λ e. e.pair_address) ms) ≡ ok r
        → All (IsOutrankedBy c) (x ∷ y ∷ xs)
    go [] e h = choose_greatest-outranks (x ∷ y ∷ xs) o (nothing_missing (x ∷ y ∷ xs) e) h s
    go (m ∷ ms) e h = absurd (ground arith)

-- Of two or more candidates the selected one has the greatest liquidity, which all of them report,
-- and its canonical key is the least among those of equal liquidity.
pub select-outranks :
    (candidates : List LifecycleEvidenceCandidate) {r : EvidenceSelectionResult}
    {c : LifecycleEvidenceCandidate}
    → 2 ≤ length candidates
    → select candidates ≡ ok r
    → r.selected ≡ some c
    → All (IsOutrankedBy c) candidates
unfolding select
select-outranks candidates n h s =
    All-of_sort_by canonical_pair_key_leb (IsOutrankedBy _) candidates (
      select_ordered-outranks (sort_by canonical_pair_key_leb candidates)
        (rw (length-sort_by canonical_pair_key_leb candidates) n)
        (sort_by-IsOrdered canonical_pair_key_leb canonical_pair_key_leb-IsTotalOrder candidates) h
        s)
