-- ===== src/Scheduler/Advance/Steps.antt =====
-- What one pass of `_advance_coverage_transitions` in src/pump_research/scheduling/scheduler.py
-- does.
use pump_research.Prelude.{
  ℕ, ◌≡◌, ◌⊎◌, inl, inr, refl, false, Option, none, some, List, [], ◌∷◌, ok, err, ◌>>=◌, All,
}
use pump_research.Scheduler.Rows.{
  PollSchedule, CoverageDecision, coverage_boundary_elapsed, Database, SchedulerError,
  AdaptiveScheduler, IsMappedAt,
}
use pump_research.Scheduler.Refresh.Progress.{transition_due, refresh_one_coverage-not_due}
use pump_research.Scheduler.Refresh.Constraints.{
  refresh_one_coverage-total, refresh_one_coverage-IsMappedAt,
}
use pump_research.Scheduler.Decisions.Errors.{IsRecordingError, record_coverage_decision_cases}
use pump_research.Scheduler.Advance.{update_schedule, record_if, refresh_row, refresh_rows}
use pump_research.Scheduler.Advance.Updates.{Refreshes}

-- A recording keeps the schedules, or fails with an error of its own.
record_if_cases :
    (d : Option CoverageDecision) (db : Database)
    → ((db' : Database) × (record_if d db ≡ ok db') × (db'.schedules ≡ db.schedules))
      ⊎ ((e : SchedulerError) × (record_if d db ≡ err e) × IsRecordingError e)
unfolding record_if
record_if_cases none db = inl (db, refl, refl)
record_if_cases (some d) db = record_coverage_decision_cases d db

module _ {Float : Type 0} (scheduler : AdaptiveScheduler Float) (now : ℕ) (run : Option ℕ) where
  refresh_row_cases :
      (s : PollSchedule) (db : Database)
      → IsMappedAt now s
      → ((db' : Database) × (t : PollSchedule) × (refresh_row scheduler now run s db ≡ ok db')
          × (db'.schedules ≡ update_schedule t db.schedules)
          × (t.token_id ≡ s.token_id)
          × (transition_due now t ≡ false)
          × IsMappedAt now t)
        ⊎ ((e : SchedulerError) × (refresh_row scheduler now run s db ≡ err e) × IsRecordingError e)
  unfolding refresh_row
  refresh_row_cases s db m =
      let (t, d, h) = refresh_one_coverage-total scheduler s now coverage_boundary_elapsed run m in
      let (same, mapped) =
        refresh_one_coverage-IsMappedAt scheduler s now coverage_boundary_elapsed run m h in
      let settled = refresh_one_coverage-not_due scheduler s now coverage_boundary_elapsed run h in
      elim (record_if_cases d (record db { schedules = update_schedule t db.schedules })) [
        | inl (db', e, k) ↦ inl (db', t, rw (h, ◌>>=◌) e, k, same, settled, mapped)
        | inr (x, e, k) ↦ inr (x, rw (h, ◌>>=◌) e, k)
      ]

  -- A pass over mapped rows updates them one after the other, or ends with an error of the
  -- recording.
  pub refresh_rows_cases :
      (batch : List PollSchedule) (db : Database)
      → All (IsMappedAt now) batch
      → ((db' : Database) × (refresh_rows scheduler now run batch db ≡ ok db')
          × Refreshes now (IsMappedAt now) batch db.schedules db'.schedules)
        ⊎ ((e : SchedulerError) × (refresh_rows scheduler now run batch db ≡ err e)
            × IsRecordingError e)
  unfolding refresh_rows
  refresh_rows_cases [] db h = inl (db, refl, refl)
  refresh_rows_cases (s ∷ ss) db h = elim (refresh_row_cases s db h.0) [
    | inl (db', t, e, k, same, settled, mapped) ↦ elim (refresh_rows_cases ss db' h.1) [
      | inl (db'', e', r) ↦ inl (db'', rw (e, ◌>>=◌) e', (t, same, settled, mapped, rw k at r))
      | inr (x, e', r) ↦ inr (x, rw (e, ◌>>=◌) e', r)
    ]
    | inr (x, e, r) ↦ inr (x, rw (e, ◌>>=◌), r)
  ]
