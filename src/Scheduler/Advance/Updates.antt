-- ===== src/Scheduler/Advance/Updates.antt =====
-- What a sequence of row updates of `_advance_coverage_transitions` in
-- src/pump_research/scheduling/scheduler.py does to the rows that are due.
use pump_research.Prelude.{
  ℕ, suc, ◌≤◌, ◌<◌, ◌≡◌, true, false, ◌||◌, List, [], ◌∷◌, All, All-map_imp, select as where_,
  arith, if◌then◌else◌, ◌==◌, refl, Bool-cases, inl, inr, ap, ◌&&◌, All-select_imp,
}
use pump_research.Scheduler.Rows.{PollSchedule}
use pump_research.Scheduler.Refresh.Progress.{transition_due}
use pump_research.Scheduler.Advance.{update_schedule, token_in}

-- How many rows are due.
unfoldable pub due_count : ℕ → List PollSchedule → ℕ
due_count now [] = 0
due_count now (x ∷ xs) =
    let rest = due_count now xs in if transition_due now x then suc rest else rest

-- Each row of the batch in turn was replaced by a row that is not due and satisfies `P`.
abbrev pub Refreshes :
    (now : ℕ) → (PollSchedule → Type 0) → (batch before after : List PollSchedule) → Type 0
Refreshes now P [] xs ys = ys ≡ xs
Refreshes now P (s ∷ ss) xs ys =
    (t : PollSchedule) × (t.token_id ≡ s.token_id)
    × (transition_due now t ≡ false)
    × P t
    × Refreshes now P ss (update_schedule t xs) ys

module _ (now : ℕ) where
  due_count-update_le :
      (t : PollSchedule) (xs : List PollSchedule)
      → transition_due now t ≡ false
      → due_count now (update_schedule t xs) ≤ due_count now xs
  unfolding update_schedule due_count
  due_count-update_le t [] h = omega arith
  due_count-update_le t (x ∷ xs) h = ground (arith, due_count-update_le t xs)

  -- Replacing a due row by a row that is not due leaves fewer rows due.
  abbrev pub Lowers : List PollSchedule → PollSchedule → Type 0
  Lowers xs s =
      (t : PollSchedule)
      → t.token_id ≡ s.token_id
      → transition_due now t ≡ false
      → due_count now (update_schedule t xs) < due_count now xs

  Lowers-head :
      (x : PollSchedule) (xs : List PollSchedule) → transition_due now x ≡ true → Lowers (x ∷ xs) x
  unfolding update_schedule due_count
  Lowers-head x xs d t e h = ground (arith, due_count-update_le t xs)

  Lowers-tail : (x s : PollSchedule) (xs : List PollSchedule) → Lowers xs s → Lowers (x ∷ xs) s
  unfolding update_schedule due_count
  Lowers-tail x s xs f t e h = ground (arith, f t e h)

  due-Lowers : (xs : List PollSchedule) → All (λ s. transition_due now s ≡ true → Lowers xs s) xs
  due-Lowers [] = tt
  due-Lowers (x ∷ xs) =
      (Lowers-head x xs, All-map_imp xs (λ s f d. Lowers-tail x s xs (f d)) (due-Lowers xs))

  -- What holds of the passing rows only holds of the rows that a WHERE clause returns.
  pub where-Lowers : (xs : List PollSchedule) → All (Lowers xs) (where_ (transition_due now) xs)
  where-Lowers xs = All-select_imp (Lowers xs) (transition_due now) xs (due-Lowers xs)

  -- A batch of updates leaves at most as many rows due.
  Refreshes-due_count_le :
      (P : PollSchedule → Type 0) (batch xs ys : List PollSchedule)
      → Refreshes now P batch xs ys
      → due_count now ys ≤ due_count now xs
  Refreshes-due_count_le P [] xs ys h = omega (arith, ap (due_count now) h)
  Refreshes-due_count_le P (s ∷ ss) xs ys (t, e, d, p, r) =
      omega
        (arith, due_count-update_le t xs d, Refreshes-due_count_le P ss (update_schedule t xs) ys r)

  -- Where the first row of the batch is due, fewer rows are due after it.
  pub Refreshes-due_count_lt :
      (P : PollSchedule → Type 0) (s : PollSchedule) (ss xs ys : List PollSchedule)
      → Lowers xs s
      → Refreshes now P (s ∷ ss) xs ys
      → due_count now ys < due_count now xs
  Refreshes-due_count_lt P s ss xs ys l (t, e, d, p, r) =
      omega (arith, l t e d, Refreshes-due_count_le P ss (update_schedule t xs) ys r)

  All-update_schedule :
      (Q : PollSchedule → Type 0) (t : PollSchedule) (xs : List PollSchedule)
      → Q t
      → All Q xs
      → All Q (update_schedule t xs)
  unfolding update_schedule
  All-update_schedule Q t [] q h = tt
  All-update_schedule Q t (x ∷ xs) q h = (
    elim (x.token_id == t.token_id) as (λ b. Q (if b then t else x)) [ true ↦ q | false ↦ h.0 ],
    All-update_schedule Q t xs q h.1,
  )

  -- What the new rows satisfy and the old rows satisfied, all rows satisfy.
  pub Refreshes-All :
      (P : PollSchedule → Type 0) (batch xs ys : List PollSchedule)
      → Refreshes now P batch xs ys
      → All P xs
      → All P ys
  Refreshes-All P [] xs ys h a = rw h a
  Refreshes-All P (s ∷ ss) xs ys (t, e, d, p, r) a =
      Refreshes-All P ss (update_schedule t xs) ys r (All-update_schedule P t xs p a)

  -- A row whose token is in the list is not due.
  abbrev Settled : List PollSchedule → PollSchedule → Type 0
  Settled done r = token_in done r ≡ true → transition_due now r ≡ false

  Settled-update :
      (done : List PollSchedule) (s t : PollSchedule) (xs : List PollSchedule)
      → t.token_id ≡ s.token_id
      → transition_due now t ≡ false
      → All (Settled done) xs
      → All (Settled (s ∷ done)) (update_schedule t xs)
  unfolding update_schedule token_in
  Settled-update done s t [] e d h = tt
  Settled-update done s t (x ∷ xs) e d h = (
    elim (Bool-cases (x.token_id == t.token_id)) [
      | inl k ↦ rw k (λ m. d)
      | inr k ↦ rw k (λ m. h.0 (ground arith))
    ],
    Settled-update done s t xs e d h.1,
  )

  -- After the batch no row of a token of the batch is due.
  Refreshes-Settled :
      (P : PollSchedule → Type 0) (batch done xs ys : List PollSchedule)
      → Refreshes now P batch xs ys
      → All (Settled done) xs
      → All (λ r. (token_in batch r || token_in done r) ≡ true → transition_due now r ≡ false) ys
  unfolding token_in
  Refreshes-Settled P [] done xs ys h a = rw h a
  Refreshes-Settled P (s ∷ ss) done xs ys (t, e, d, p, r) a =
      All-map_imp ys (λ q f m. f (ground arith))
        (Refreshes-Settled P ss (s ∷ done) (update_schedule t xs) ys r
          (Settled-update done s t xs e d a))

  none_stalled :
      (batch ys : List PollSchedule)
      → All (λ r. (token_in batch r || token_in [] r) ≡ true → transition_due now r ≡ false) ys
      → where_ (λ s. token_in batch s && transition_due now s) ys ≡ []
  unfolding where_ token_in
  none_stalled batch [] h = refl
  none_stalled batch (y ∷ ys) h = ground (arith, h.0, none_stalled batch ys h.1)

  -- The check for stalled rows finds none.
  pub Refreshes-none_stalled :
      (P : PollSchedule → Type 0) (batch xs ys : List PollSchedule)
      → Refreshes now P batch xs ys
      → where_ (λ s. token_in batch s && transition_due now s) ys ≡ []
  Refreshes-none_stalled P batch xs ys r =
      none_stalled batch ys (Refreshes-Settled P batch [] xs ys r (nothing xs))
    where
      nothing : (xs : List PollSchedule) → All (Settled []) xs
      nothing [] = tt
      nothing (x ∷ xs) = ((λ m. absurd (unfold token_in in cc)), nothing xs)
