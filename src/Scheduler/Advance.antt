-- ===== src/Scheduler/Advance.antt =====
-- src/pump_research/scheduling/scheduler.py: `_advance_coverage_transitions`, which refreshes every
-- schedule whose coverage transition has come due. The claim lock excludes other writers, so no
-- row is skipped. The `while True` loop recurs on fuel.
pub mod Updates
pub mod Steps
pub mod Outcome
pub mod Preservation
use pump_research.Prelude.{
  ℕ, zero, suc, ◌+◌, Bool, true, false, ◌&&◌, ◌||◌, Option, none, some, List, [], ◌∷◌, Result, ok,
  err, ◌>>=◌, ltb, leb, ◌==◌, if◌then◌else◌, length, take, select as where_,
}
use pump_research.Prelude.Sorting.{sort_by}
use pump_research.Scheduler.Rows.{
  PollSchedule, CoverageDecision, coverage_boundary_elapsed, Database, SchedulerError,
  AdaptiveScheduler, coverage_transition_progress, out_of_fuel,
}
use pump_research.Scheduler.Refresh.{refresh_one_coverage}
use pump_research.Scheduler.Refresh.Progress.{transition_due}
use pump_research.Scheduler.Decisions.{record_coverage_decision}

-- An UPDATE of the row with the token's key.
unfoldable pub update_schedule : PollSchedule → List PollSchedule → List PollSchedule
update_schedule t [] = []
update_schedule t (s ∷ ss) = (if s.token_id == t.token_id then t else s) ∷ update_schedule t ss

-- ORDER BY coverage_next_transition_at, token_id, of rows that have a transition.
transition_before : PollSchedule → PollSchedule → Bool
transition_before a b = elim (a.coverage_next_transition_at) [
  | none ↦ true
  | some at ↦ elim (b.coverage_next_transition_at) [
    | none ↦ false
    | some bt ↦ if ltb at bt then true else if ltb bt at then false else leb a.token_id b.token_id
  ]
]

pub due_batch : ℕ → List PollSchedule → List PollSchedule
unfolding transition_before
due_batch now schedules =
    take 1_000 (sort_by transition_before (where_ (transition_due now) schedules))

-- `PollSchedule.token_id.in_(…)`
pub token_in : List PollSchedule → PollSchedule → Bool
token_in [] s = false
token_in (b ∷ bs) s = b.token_id == s.token_id || token_in bs s

unfoldable pub record_if : Option CoverageDecision → Database → Result SchedulerError Database
record_if none db = ok db
record_if (some d) db = record_coverage_decision d db

module _ {Float : Type 0} (scheduler : AdaptiveScheduler Float) (now : ℕ)
    (collector_run_id : Option ℕ) where
  -- One iteration of the `for` loop.
  refresh_row : PollSchedule → Database → Result SchedulerError Database
  unfolding record_if
  refresh_row s db = do
    changed ← refresh_one_coverage scheduler s now coverage_boundary_elapsed collector_run_id
    record_if changed.1 (record db { schedules = update_schedule changed.0 db.schedules })

  pub refresh_rows : List PollSchedule → Database → Result SchedulerError Database
  unfolding refresh_row
  refresh_rows [] db = ok db
  refresh_rows (s ∷ ss) db = do db' ← refresh_row s db; refresh_rows ss db'

  -- The check after the flush.
  pub check_stalled : List PollSchedule → Database → Result SchedulerError Database
  check_stalled batch db =
      elim (where_ (λ s. token_in batch s && transition_due now s) db.schedules) [
        | [] ↦ ok db
        | s ∷ ss ↦ err coverage_transition_progress
      ]

  -- The number of refreshed rows, and the tables.
  unfoldable pub advance_coverage_transitions :
      (fuel : ℕ) → Database → Result SchedulerError (ℕ × Database)
  unfolding due_batch refresh_rows check_stalled
  advance_coverage_transitions zero db = err out_of_fuel
  advance_coverage_transitions (suc fuel) db = elim (due_batch now db.schedules) [
    | [] ↦ ok (0, db)
    | s ∷ ss ↦ do
      db' ← refresh_rows (s ∷ ss) db
      db'' ← check_stalled (s ∷ ss) db'
      rest ← advance_coverage_transitions fuel db''
      ok (length (s ∷ ss) + rest.0, rest.1)
  ]
