-- ===== src/Scheduler/Advance/Outcome.antt =====
-- What may come of `_advance_coverage_transitions` in src/pump_research/scheduling/scheduler.py.
use pump_research.Prelude.{
  ℕ, zero, suc, ◌+◌, ◌<◌, ◌≡◌, inl, inr, refl, ◌&&◌, List, [], ◌∷◌, Option, Result, ok, err, ◌>>=◌,
  All, All-take, All-select_keep, arith, length, take, select as where_, sym, ◌∙◌, subst,
}
use pump_research.Prelude.Sorting.{All-sort_by, length-sort_by}
use pump_research.Scheduler.Rows.{
  PollSchedule, Database, SchedulerError, AdaptiveScheduler, IsMappedAt,
}
use pump_research.Scheduler.Refresh.Progress.{transition_due}
use pump_research.Scheduler.Decisions.Errors.{IsRecordingError}
use pump_research.Scheduler.Advance.{
  due_batch, refresh_rows, check_stalled, advance_coverage_transitions, token_in,
}
use pump_research.Scheduler.Advance.Updates.{
  due_count, Lowers, where-Lowers, Refreshes-due_count_lt, Refreshes-All, Refreshes-none_stalled,
}
use pump_research.Scheduler.Advance.Steps.{refresh_rows_cases}

-- What may come of the loop: no schedule is due any more and all are still mapped, or the
-- recording of the evidence failed.
abbrev pub IsSettled : ℕ → Result SchedulerError (ℕ × Database) → Type 0
IsSettled now (ok (advanced, db)) =
    (where_ (transition_due now) db.schedules ≡ []) × All (IsMappedAt now) db.schedules
IsSettled now (err e) = IsRecordingError e

-- A property of the rows of a query holds of its ordered and limited part.
due_batch-All :
    (P : PollSchedule → Type 0) (now : ℕ) (xs : List PollSchedule)
    → All P (where_ (transition_due now) xs)
    → All P (due_batch now xs)
unfolding due_batch
due_batch-All P now xs h = All-take P 1_000 _ (All-sort_by _ P (where_ (transition_due now) xs) h)

take-nil : {A : Type 0} (n : ℕ) (xs : List A) → take (suc n) xs ≡ [] → length xs ≡ 0
take-nil n [] h = refl
take-nil n (x ∷ xs) h = cc

length-nil : {A : Type 0} (xs : List A) → length xs ≡ 0 → xs ≡ []
length-nil [] h = refl
length-nil (x ∷ xs) h = absurd (omega arith)

due_batch-nil :
    (now : ℕ) (xs : List PollSchedule) → due_batch now xs ≡ [] → where_ (transition_due now) xs ≡ []
unfolding due_batch
due_batch-nil now xs h =
    length-nil _ (sym (length-sort_by _ (where_ (transition_due now) xs)) ∙ take-nil 999 _ h)

module _ {Float : Type 0} (scheduler : AdaptiveScheduler Float) (now : ℕ) (run : Option ℕ) where
  -- The rest of an iteration, once the batch is known.
  check_stalled_ok :
      (batch : List PollSchedule) (db : Database)
      → where_ (λ s. token_in batch s && transition_due now s) db.schedules ≡ []
      → check_stalled scheduler now run batch db ≡ ok db
  unfolding check_stalled
  check_stalled_ok batch db h = rw (h, check_stalled)

  after_rest :
      (n : ℕ) (r : Result SchedulerError (ℕ × Database))
      → IsSettled now r
      → IsSettled now (r >>= λ rest. ok (n + rest.0, rest.1))
  after_rest n (ok (m, db)) h = h
  after_rest n (err e) h = h

  -- Where every schedule is mapped, admitted and decided by `now`, fuel above the number of due
  -- rows is enough: the loop returns with no schedule due, or the recording of the evidence fails.
  -- It runs out of no fuel and raises no CoverageTransitionProgressError.
  pub advance_coverage_transitions-IsSettled :
      (fuel : ℕ) (db : Database)
      → due_count now db.schedules < fuel
      → All (IsMappedAt now) db.schedules
      → IsSettled now (advance_coverage_transitions scheduler now run fuel db)
  unfolding advance_coverage_transitions
  advance_coverage_transitions-IsSettled zero db n m = absurd (omega arith)
  advance_coverage_transitions-IsSettled (suc fuel) db n m =
      go (due_batch now db.schedules) refl (advance_coverage_transitions-IsSettled fuel)
    where
      go :
          (batch : List PollSchedule)
          → due_batch now db.schedules ≡ batch
          → ((db' : Database)
              → due_count now db'.schedules < fuel
              → All (IsMappedAt now) db'.schedules
              → IsSettled now (advance_coverage_transitions scheduler now run fuel db'))
          → IsSettled now (elim batch as (λ _. Result SchedulerError (ℕ × Database)) [
            | [] ↦ ok (0, db)
            | s ∷ ss ↦ do
              db' ← refresh_rows scheduler now run (s ∷ ss) db
              db'' ← check_stalled scheduler now run (s ∷ ss) db'
              rest ← advance_coverage_transitions scheduler now run fuel db''
              ok (length (s ∷ ss) + rest.0, rest.1)
          ])
      go [] e ih = (due_batch-nil now db.schedules e, m)
      go (s ∷ ss) e ih =
          let xs = db.schedules in
          let mapped : All (IsMappedAt now) (s ∷ ss) = subst (All (IsMappedAt now)) e (
            due_batch-All (IsMappedAt now) now xs
              (All-select_keep (IsMappedAt now) (transition_due now) xs m)) in
          let lowers : All (Lowers now xs) (s ∷ ss) =
            subst (All (Lowers now xs)) e
              (due_batch-All (Lowers now xs) now xs (where-Lowers now xs)) in
          elim (refresh_rows_cases scheduler now run (s ∷ ss) db mapped) [
            | inl (db', k, r) ↦
                let stalled =
                  Refreshes-none_stalled now (IsMappedAt now) (s ∷ ss) xs db'.schedules r in
                let fewer : due_count now db'.schedules < due_count now xs =
                  Refreshes-due_count_lt now (IsMappedAt now) s ss xs db'.schedules lowers.0 r in
                rw (k, ◌>>=◌, check_stalled_ok (s ∷ ss) db' stalled)
                  (after_rest (length (s ∷ ss)) _ (
                    ih db' (omega arith)
                      (Refreshes-All now (IsMappedAt now) (s ∷ ss) xs db'.schedules r m)))
            | inr (x, k, r) ↦ rw (k, ◌>>=◌) r
          ]
