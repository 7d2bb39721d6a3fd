-- ===== src/Prelude/Sorting.antt =====
-- Python's stable `sorted` and a query's ORDER BY, as insertion sort by a Boolean order.
use Prim.Native.Nat.{ℕ, suc}
use mathlib.Core.Path.{◌≡◌, refl, ap, ap₂, subst, ◌∙◌}
use mathlib.Core.Logic.{inl, inr}
use mathlib.Core.Bool.{Bool, true, false, ◌&&◌}
use mathlib.Core.List.{List, [], ◌∷◌, Pairwise, Pairwise-cons, rel_of_Pairwise-cons, mem-cons_self}
use mathlib.Core.List.{Permᴰ, head-eq_of_cons-eq}
use mathlib.Core.List.Permᴰ
use native.Mathlib.Omega.{arith}
use pump_research.Prelude.Tests.{if◌then◌else◌, Bool-cases}
use pump_research.Prelude.Lists.{
  length, All, All-map_imp, All-select_keep, select, take, All-take, All-select_imp,
}

module _ {ℓ} {A : Type ℓ} (before : A → A → Bool) where
  unfoldable pub insert_by : A → List A → List A
  insert_by a [] = a ∷ []
  insert_by a (x ∷ xs) = if before a x then a ∷ x ∷ xs else x ∷ insert_by a xs

  unfoldable pub sort_by : List A → List A
  unfolding insert_by
  sort_by [] = []
  sort_by (x ∷ xs) = insert_by x (sort_by xs)

  pub length-insert_by : (a : A) (xs : List A) → length (insert_by a xs) ≡ suc (length xs)
  unfolding insert_by
  length-insert_by a [] = refl
  length-insert_by a (x ∷ xs) = ground (arith, length-insert_by a xs)

  pub length-sort_by : (xs : List A) → length (sort_by xs) ≡ length xs
  unfolding sort_by
  length-sort_by [] = refl
  length-sort_by (x ∷ xs) = length-insert_by x (sort_by xs) ∙ ap suc (length-sort_by xs)

  pub All-insert_by {κ} :
      (P : A → Type κ) (a : A) (xs : List A) → P a → All P xs → All P (insert_by a xs)
  unfolding insert_by
  All-insert_by P a [] p h = (p, tt)
  All-insert_by P a (x ∷ xs) p h =
      elim (before a x) as (λ b. All P (if b then a ∷ x ∷ xs else x ∷ insert_by a xs)) [
        | true ↦ (p, h)
        | false ↦ (h.0, All-insert_by P a xs p h.1)
      ]

  pub All-sort_by {κ} : (P : A → Type κ) (xs : List A) → All P xs → All P (sort_by xs)
  unfolding sort_by
  All-sort_by P [] h = tt
  All-sort_by P (x ∷ xs) h = All-insert_by P x (sort_by xs) h.0 (All-sort_by P xs h.1)

  -- What a query returns with WHERE, ORDER BY and LIMIT.
  pub All-query {κ} :
      (P : A → Type κ) (n : ℕ) (test : A → Bool) (xs : List A)
      → All (λ x. test x ≡ true → P x) xs
      → All P (take n (sort_by (select test xs)))
  All-query P n test xs h =
      All-take P n _ (All-sort_by P (select test xs) (All-select_imp P test xs h))

-- What makes a Boolean order a total preorder.
pub record IsTotalOrder {ℓ} {A : Type ℓ} (before : A → A → Bool) : Type ℓ where
  pub total : (a b : A) → before a b ≡ false → before b a ≡ true
  pub before_trans : (a b c : A) → before a b ≡ true → before b c ≡ true → before a c ≡ true

module _ {ℓ} {A : Type ℓ} (before : A → A → Bool) (order : IsTotalOrder before) where
  open order use {total, before_trans}

  -- Neither of the two could stand in the other's place.
  abbrev pub Untied : A → A → Type 0
  Untied a b = (before a b && before b a) ≡ false

  insert_by_comm :
      (a b : A) (xs : List A)
      → Untied a b
      → insert_by before a (insert_by before b xs) ≡ insert_by before b (insert_by before a xs)
  unfolding insert_by
  insert_by_comm a b [] u = ground (arith, total a b)
  insert_by_comm a b (x ∷ xs) u =
      ground (arith, total a b, before_trans a b x, before_trans b a x, insert_by_comm a b xs)

  Untied-prop : (a b : A) → IsProp (Untied a b)
  Untied-prop a b = hlevel

  Untied-symm : (a b : A) → Untied a b → Untied b a
  Untied-symm a b u = ground arith

  -- Where no two elements tie, sorting forgets the order in which they were given.
  pub sort_by-perm :
      {xs ys : List A} → Permᴰ xs ys → Pairwise Untied xs → sort_by before xs ≡ sort_by before ys
  unfolding sort_by
  sort_by-perm Permᴰ.nil h = refl
  sort_by-perm (Permᴰ.cons {a} {b} e d) h =
      ap₂ (insert_by before) e (sort_by-perm d (Pairwise-cons.0 h).1)
  sort_by-perm (Permᴰ.swap {a} {b} {a'} {b'} {l} e f) h =
      insert_by_comm a b (sort_by before l) (rel_of_Pairwise-cons h mem-cons_self)
      ∙ ap₂ (insert_by before) f (ap (λ c. insert_by before c (sort_by before l)) e)
  sort_by-perm (Permᴰ.trans d d') h =
      sort_by-perm d h ∙ sort_by-perm d' (Permᴰ.pairwise Untied-prop Untied-symm d h)

module _ {ℓ} {A : Type ℓ} (before : A → A → Bool) where
  -- Each element may stand before all that follow it.
  abbrev pub IsOrdered : List A → Type ℓ
  IsOrdered [] = Unit
  IsOrdered (x ∷ xs) = All (λ y. before x y ≡ true) xs × IsOrdered xs

  pub All-of_sort_by {κ} : (P : A → Type κ) (xs : List A) → All P (sort_by before xs) → All P xs
  unfolding sort_by
  All-of_sort_by P [] h = tt
  All-of_sort_by P (x ∷ xs) h =
      let (p, rest) = All-of_insert_by P x (sort_by before xs) h in (p, All-of_sort_by P xs rest)
    where
      All-of_insert_by :
          (P : A → Type κ) (a : A) (ys : List A) → All P (insert_by before a ys) → P a × All P ys
      All-of_insert_by P a [] h = h
      All-of_insert_by P a (y ∷ ys) h =
          elim (before a y)
              as (λ b.
                All P (if b then a ∷ y ∷ ys else y ∷ insert_by before a ys)
                → P a × All P (y ∷ ys)) [
                  | true ↦ λ k. (k.0, k.1)
                  | false ↦ λ k. let (p, rest) = All-of_insert_by P a ys k.1 in (p, (k.0, rest))
                ]
            h

  pub IsOrdered-select : (test : A → Bool) (xs : List A) → IsOrdered xs → IsOrdered (select test xs)
  unfolding select
  IsOrdered-select test [] h = tt
  IsOrdered-select test (x ∷ xs) h =
      elim (test x) as (λ b. IsOrdered (if b then x ∷ select test xs else select test xs)) [
        | true ↦
            (All-select_keep (λ y. before x y ≡ true) test xs h.0, IsOrdered-select test xs h.1)
        | false ↦ IsOrdered-select test xs h.1
      ]

module _ {ℓ} {A : Type ℓ} (before : A → A → Bool) (order : IsTotalOrder before) where
  insert_by-IsOrdered :
      (a : A) (xs : List A) → IsOrdered before xs → IsOrdered before (insert_by before a xs)
  unfolding insert_by
  insert_by-IsOrdered a [] h = (tt, tt)
  insert_by-IsOrdered a (x ∷ xs) h = elim (Bool-cases (before a x)) [
    | inl e ↦ rw e ((e, All-map_imp xs (λ y k. order.before_trans a x y e k) h.0), h)
    | inr e ↦ rw e (
      All-insert_by before (λ y. before x y ≡ true) a xs (order.total a x e) h.0,
      insert_by-IsOrdered a xs h.1,
    )
  ]

  pub sort_by-IsOrdered : (xs : List A) → IsOrdered before (sort_by before xs)
  unfolding sort_by
  sort_by-IsOrdered [] = tt
  sort_by-IsOrdered (x ∷ xs) = insert_by-IsOrdered x (sort_by before xs) (sort_by-IsOrdered xs)

  before_refl : (a : A) → before a a ≡ true
  before_refl a = ground (arith, order.total a a)

  -- The first element of an ordered list that passes a test may stand before all that pass it.
  pub first-select :
      (test : A → Bool) (xs : List A) {c : A} {others : List A}
      → IsOrdered before xs
      → select test xs ≡ c ∷ others
      → All (λ d. test d ≡ true → before c d ≡ true) xs
  unfolding select
  first-select test [] h e = tt
  first-select test (x ∷ xs) {c} {others} h e = elim (Bool-cases (test x)) [
    | inl t ↦
        let same : x ≡ c = head-eq_of_cons-eq (rw t at e) in
        (
          λ _. subst (λ a. before a x ≡ true) same (before_refl x),
          All-map_imp xs (λ d k _. subst (λ a. before a d ≡ true) same k) h.0,
        )
    | inr t ↦ (λ k. ground arith, first-select test xs h.1 (rw t at e))
  ]
