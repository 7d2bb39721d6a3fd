-- ===== src/Prelude/Lists.antt =====
-- Lists measured by native numbers, Boolean filters, and predicates by recursion.
use Prim.Native.Nat.{ℕ, zero, suc, ◌≤◌, ◌+◌}
use mathlib.Core.Path.{◌≡◌, refl}
use mathlib.Core.Bool.{Bool, true, false}
use mathlib.Core.List.{List, [], ◌∷◌, ◌++◌, map, Mem, mem-cons_self, mem-cons_of_mem}
use native.Mathlib.Omega.{arith}
use pump_research.Prelude.Tests.{if◌then◌else◌}

module _ {ℓ} {A : Type ℓ} where
  abbrev pub length : List A → ℕ
  length [] = 0
  length (x ∷ xs) = suc (length xs)

  abbrev pub take : ℕ → List A → List A
  take zero xs = []
  take (suc n) [] = []
  take (suc n) (x ∷ xs) = x ∷ take n xs

  -- The elements that pass a Boolean test: a WHERE clause.
  unfoldable pub select : (A → Bool) → List A → List A
  select test [] = []
  select test (x ∷ xs) = if test x then x ∷ select test xs else select test xs

  abbrev pub All {κ} : (A → Type κ) → List A → Type κ
  All P [] = Unit
  All P (x ∷ xs) = P x × All P xs

  pub length-take-le : (n : ℕ) (xs : List A) → length (take n xs) ≤ n
  length-take-le zero xs = omega arith
  length-take-le (suc n) [] = omega arith
  length-take-le (suc n) (x ∷ xs) = omega (arith, length-take-le n xs)

  pub length-select-le : (test : A → Bool) (xs : List A) → length (select test xs) ≤ length xs
  unfolding select
  length-select-le test [] = omega arith
  length-select-le test (x ∷ xs) = ground (arith, length-select-le test xs)

  pub All-take {κ} : (P : A → Type κ) (n : ℕ) (xs : List A) → All P xs → All P (take n xs)
  All-take P zero xs h = tt
  All-take P (suc n) [] h = tt
  All-take P (suc n) (x ∷ xs) h = (h.0, All-take P n xs h.1)

  -- What a WHERE clause returns passes its test.
  pub All-select : (test : A → Bool) (xs : List A) → All (λ x. test x ≡ true) (select test xs)
  unfolding select
  All-select test [] = tt
  All-select test (x ∷ xs) =
      let rest = All-select test xs in
      let step : (b : Bool)
          → test x ≡ b
          → All (λ y. test y ≡ true) (if b then x ∷ select test xs else select test xs) =
        elim [ true ↦ λ e. (e, rest) | false ↦ λ e. rest ] in
      step (test x) refl

  pub All-map_imp {κ μ} :
      {P : A → Type κ} {Q : A → Type μ} (xs : List A) → ((x : A) → P x → Q x) → All P xs → All Q xs
  All-map_imp [] f h = tt
  All-map_imp (x ∷ xs) f h = (f x h.0, All-map_imp xs f h.1)

  pub All-select_keep {κ} :
      (P : A → Type κ) (test : A → Bool) (xs : List A) → All P xs → All P (select test xs)
  unfolding select
  All-select_keep P test [] h = tt
  All-select_keep P test (x ∷ xs) h =
      elim (test x) as (λ b. All P (if b then x ∷ select test xs else select test xs)) [
        | true ↦ (h.0, All-select_keep P test xs h.1)
        | false ↦ All-select_keep P test xs h.1
      ]

  pub All-select_imp {κ} :
      (P : A → Type κ) (test : A → Bool) (xs : List A)
      → All (λ x. test x ≡ true → P x) xs
      → All P (select test xs)
  unfolding select
  All-select_imp P test [] h = tt
  All-select_imp P test (x ∷ xs) h =
      let rest = All-select_imp P test xs h.1 in
      let step : (b : Bool)
          → test x ≡ b
          → All P (if b then x ∷ select test xs else select test xs) =
        elim [ true ↦ λ e. (h.0 e, rest) | false ↦ λ e. rest ] in
      step (test x) refl

  pub All-Mem : (xs : List A) → All (λ d. Mem d xs) xs
  All-Mem [] = tt
  All-Mem (x ∷ xs) = (mem-cons_self, All-map_imp xs (λ d m. mem-cons_of_mem x m) (All-Mem xs))

  pub length-select-append :
      (test : A → Bool) (xs : List A) (x : A)
      → length (select test (xs ++ x ∷ [])) ≡ length (select test xs) + (if test x then 1 else 0)
  unfolding select
  length-select-append test [] x = ground arith
  length-select-append test (y ∷ ys) x = ground (arith, length-select-append test ys x)

  pub All-append {κ} :
      (P : A → Type κ) (xs : List A) {x : A} → All P xs → P x → All P (xs ++ x ∷ [])
  All-append P [] h p = (p, tt)
  All-append P (y ∷ ys) h p = (h.0, All-append P ys h.1 p)

  pub All-both {κ μ ν} :
      (P : A → Type κ) (Q : A → Type μ) (R : A → Type ν)
      → ((x : A) → P x → Q x → R x)
      → (xs : List A) → All P xs
      → All Q xs
      → All R xs
  All-both P Q R f [] h k = tt
  All-both P Q R f (x ∷ xs) h k = (f x h.0 k.0, All-both P Q R f xs h.1 k.1)

pub All-map {ℓ μ κ} :
    {A : Type ℓ} {B : Type μ} (P : B → Type κ) (f : A → B) (xs : List A)
    → All (λ x. P (f x)) xs
    → All P (map f xs)
All-map P f [] h = tt
All-map P f (x ∷ xs) (p, h) = (p, All-map P f xs h)
