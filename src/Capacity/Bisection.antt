-- ===== src/Capacity/Bisection.antt =====
-- The water level of src/pump_research/scheduling/capacity.py: what it demands, and a budget that
-- leaves nothing to share.
use pump_research.Prelude.{
  ℕ, zero, suc, ◌≡◌, inl, inr, refl, sym, subst, Bool, true, false, some, List, [], ◌∷◌, ok, arith,
  map, All, leb, if◌then◌else◌, if-eq-cases, select as where_, All-select_keep,
}
use pump_research.Floats.{Floats}
use pump_research.Floats.Order.{IsOrderedFloats}
use pump_research.Scheduler.Rows.{CoverageClass}
use pump_research.Capacity.{
  float, float_min, weight_of, populated, requested_by, demand, highest, halved, bisect, allocated,
  level_for, share, weighted_rates,
}

-- What the planner relies on of zero, in products, differences and Python's sum.
pub record HasZero (F : Floats) (sum : List F.Float → F.Float) : Type 0 where
  pub zero_mul : (w : F.Float) → F.mul (float F 0) w ≡ float F 0
  pub mul_zero : (n : ℕ) → F.mul (F.of_ℕ n) (float F 0) ≡ float F 0
  pub sub_self : (a : F.Float) → F.sub a a ≡ float F 0
  pub sum_zeros : (xs : List F.Float) → All (λ x. x ≡ float F 0) xs → sum xs ≡ float F 0

module _ (F : Floats) (sum : List F.Float → F.Float) (order : IsOrderedFloats F)
    (zeros : HasZero F sum) (counts : CoverageClass → ℕ) (rates : CoverageClass → F.Float) where
  abbrev pub IsPositive : CoverageClass × F.Float → Type 0
  IsPositive (t, w) = F.less (float F 0) (rates t) ≡ true

  demand-terms :
      (ts : List (CoverageClass × F.Float))
      → All IsPositive ts
      → All
          (λ x. x ≡ float F 0)
          (map
            (λ (t, w). F.mul (F.of_ℕ (counts t)) (float_min F (rates t) (F.mul (float F 0) w)))
            ts)
  unfolding float_min
  demand-terms [] h = tt
  demand-terms ((t, w) ∷ ts) (positive, h) =
      (rw (zeros.zero_mul w, positive) (zeros.mul_zero (counts t)), demand-terms ts h)

  -- Nothing is demanded at level 0.
  demand-zero :
      (ts : List (CoverageClass × F.Float))
      → All IsPositive ts
      → demand F sum counts rates ts (float F 0) ≡ float F 0
  unfolding demand
  demand-zero ts h = zeros.sum_zeros _ (demand-terms ts h)

  abbrev IsWithin : List (CoverageClass × F.Float) → F.Float → F.Float → Type 0
  IsWithin ts budget level = F.at_most (demand F sum counts rates ts level) budget ≡ true

  halved-low :
      (ts : List (CoverageClass × F.Float)) (budget : F.Float) (bounds : F.Float × F.Float)
      → IsWithin ts budget bounds.0
      → IsWithin ts budget (halved F sum counts rates ts budget bounds).0
  unfolding halved
  halved-low ts budget (low, high) h =
      go (F.div (F.add low high) (float F 2))
        (F.at_most (demand F sum counts rates ts (F.div (F.add low high) (float F 2))) budget) refl
    where
      go :
          (level : F.Float) (test : Bool)
          → F.at_most (demand F sum counts rates ts level) budget ≡ test
          → IsWithin ts budget
              (if◌then◌else◌ {A = F.Float × F.Float} test (level, high) (low, level)).0
      go level true e = e
      go level false e = h

  bisect-low :
      (n : ℕ) (ts : List (CoverageClass × F.Float)) (budget : F.Float) (bounds : F.Float × F.Float)
      → IsWithin ts budget bounds.0
      → IsWithin ts budget (bisect F sum counts rates n ts budget bounds).0
  unfolding bisect
  bisect-low zero ts budget bounds h = h
  bisect-low (suc n) ts budget bounds h =
      bisect-low n ts budget (halved F sum counts rates ts budget bounds)
        (halved-low ts budget bounds h)

  -- The level that 80 rounds of bisection find, from any highest level, demands no more than a
  -- budget that is not negative.
  level_for-IsWithin :
      (ts : List (CoverageClass × F.Float)) (budget top : F.Float)
      → All IsPositive ts
      → F.at_most (float F 0) budget ≡ true
      → IsWithin ts budget (level_for F sum counts rates ts budget top)
  unfolding level_for
  level_for-IsWithin ts budget top positive h =
      bisect-low 80 ts budget (float F 0, top)
        (subst (λ x. F.at_most x budget ≡ true) (sym (demand-zero ts positive)) h)

  -- The tier has its weight in the table, and tokens.
  abbrev pub IsSharing : List (CoverageClass × F.Float) → CoverageClass × F.Float → Type 0
  IsSharing tiers (t, w) = (weight_of F t tiers ≡ some w) × (leb 1 (counts t) ≡ true)

  abbrev pub IsWeighted : List (CoverageClass × F.Float) → CoverageClass × F.Float → Type 0
  IsWeighted tiers (t, w) = weight_of F t tiers ≡ some w

  allocated-weighted :
      (tiers : List (CoverageClass × F.Float)) (t : CoverageClass) (w low : F.Float)
      → weight_of F t tiers ≡ some w
      → leb 1 (counts t) ≡ true
      → allocated F sum counts rates tiers low t ≡ float_min F (rates t) (F.mul low w)
  unfolding allocated
  allocated-weighted tiers t w low weighted present = rw (allocated, weighted, present) refl

  allocated-terms :
      (tiers ts : List (CoverageClass × F.Float)) (low : F.Float)
      → All (IsSharing tiers) ts
      → map (λ (t, w). F.mul (F.of_ℕ (counts t)) (allocated F sum counts rates tiers low t)) ts
        ≡ map (λ (t, w). F.mul (F.of_ℕ (counts t)) (float_min F (rates t) (F.mul low w))) ts
  allocated-terms tiers [] low h = refl
  allocated-terms tiers ((t, w) ∷ ts) low ((weighted, present), h) =
      rw (map, allocated-weighted tiers t w low weighted present, allocated-terms tiers ts low h)
        refl

  sharing :
      (tiers ts : List (CoverageClass × F.Float))
      → All (IsWeighted tiers) ts
      → All (IsSharing tiers) (populated F sum counts rates ts)
  unfolding populated where_
  sharing tiers [] h = tt
  sharing tiers ((t, w) ∷ ts) (weighted, h) = go (leb 1 (counts t)) refl (sharing tiers ts h)
    where
      go :
          (test : Bool)
          → leb 1 (counts t) ≡ test
          → All (IsSharing tiers) (populated F sum counts rates ts)
          → All (IsSharing tiers) (
              if test
              then (t, w) ∷ populated F sum counts rates ts
              else populated F sum counts rates ts)
      go true e rest = ((weighted, e), rest)
      go false e rest = rest

  share-within :
      (tiers present : List (CoverageClass × F.Float)) (budget : F.Float)
      {shared : CoverageClass → F.Float}
      → All (IsSharing tiers) present
      → All IsPositive present
      → F.at_most (float F 0) budget ≡ true
      → share F sum counts rates tiers present budget ≡ ok shared
      → F.at_most (requested_by F sum counts shared present) budget ≡ true
  unfolding share requested_by demand
  share-within tiers [] budget all positive room h =
      subst (λ x. F.at_most x budget ≡ true) (sym (zeros.sum_zeros [] tt)) room
  share-within tiers ((t, w) ∷ ts) budget {shared} all positive room h =
      elim (if-eq-cases (F.at_most budget (float F 0)) h) [
        | inl (_, k) ↦ cc
        | inr (_, k) ↦
            elim (if-eq-cases (F.at_most (requested_by F sum counts rates ((t, w) ∷ ts)) budget)
              k) [
                | inl (fits, l) ↦
                    let same : rates ≡ shared = ground arith in
                    subst
                      (λ (r : CoverageClass → F.Float).
                        F.at_most (requested_by F sum counts r ((t, w) ∷ ts)) budget ≡ true)
                      same fits
                | inr (_, l) ↦
                    let low =
                      level_for F sum counts rates ((t, w) ∷ ts) budget
                        (highest F sum counts rates ts (F.div (rates t) w)) in
                    let same : allocated F sum counts rates tiers low ≡ shared = ground arith in
                    let fits : F.at_most
                          (requested_by F sum counts (allocated F sum counts rates tiers low)
                            ((t, w) ∷ ts))
                          budget
                        ≡ true =
                      subst (λ xs. F.at_most (sum xs) budget ≡ true)
                        (sym (allocated-terms tiers ((t, w) ∷ ts) low all))
                        (level_for-IsWithin ((t, w) ∷ ts) budget _ positive room) in
                    subst
                      (λ (r : CoverageClass → F.Float).
                        F.at_most (requested_by F sum counts r ((t, w) ∷ ts)) budget ≡ true)
                      same fits
              ]
      ]

  IsPositive-populated :
      (ts : List (CoverageClass × F.Float))
      → All IsPositive ts
      → All IsPositive (populated F sum counts rates ts)
  unfolding populated
  IsPositive-populated ts h = All-select_keep IsPositive (λ (t, w). leb 1 (counts t)) ts h

  -- The rates that are shared out fit the budget: where every tier has its weight and a positive
  -- requested rate, and the budget is not negative, what the populated tiers make of observations at
  -- the rates that `_weighted_rates` returns is at most the budget. Floats are ordered, and zero
  -- behaves as zero in their products and sums.
  pub weighted_rates-within :
      (tiers : List (CoverageClass × F.Float)) (budget : F.Float) {shared : CoverageClass → F.Float}
      → All (IsWeighted tiers) tiers
      → All IsPositive tiers
      → F.at_most (float F 0) budget ≡ true
      → weighted_rates F sum counts rates tiers budget ≡ ok shared
      → F.at_most (requested_by F sum counts shared (populated F sum counts rates tiers)) budget
        ≡ true
  unfolding weighted_rates
  weighted_rates-within tiers budget weighted positive room h =
      share-within tiers (populated F sum counts rates tiers) budget (sharing tiers tiers weighted)
        (IsPositive-populated tiers positive) room h
