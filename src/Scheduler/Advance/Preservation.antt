-- ===== src/Scheduler/Advance/Preservation.antt =====
-- What `_advance_coverage_transitions` of src/pump_research/scheduling/scheduler.py keeps of every
-- row, as it follows from what one refresh keeps.
use pump_research.Prelude.{
  ℕ, zero, suc, ◌+◌, ◌≡◌, inl, inr, Option, none, some, List, [], ◌∷◌, Result, ok, err, ◌>>=◌,
  >>=-eq-ok, All, All-take, All-select_keep, arith, length, subst, sym, ap, ◌==◌, if◌then◌else◌,
  true, false, ◌&&◌, select as where_,
}
use pump_research.Prelude.Sorting.{All-sort_by}
use pump_research.Scheduler.Rows.{
  PollSchedule, CoverageDecision, coverage_boundary_elapsed, Database, SchedulerError,
  AdaptiveScheduler, IsStored, coverage_transition_progress,
}
use pump_research.Scheduler.Refresh.{refresh_one_coverage}
use pump_research.Scheduler.Refresh.Progress.{transition_due}
use pump_research.Scheduler.Refresh.Constraints.{refresh_one_coverage-IsStored}
use pump_research.Scheduler.Decisions.Recording.{record_coverage_decision_appends}
use pump_research.Scheduler.Decisions.Errors.{record_coverage_decision_cases}
use pump_research.Scheduler.Advance.{
  update_schedule, record_if, refresh_row, refresh_rows, check_stalled, due_batch, token_in,
  transition_before, advance_coverage_transitions,
}

pub update_schedule-All :
    (P : PollSchedule → Type 0) (t : PollSchedule) (ss : List PollSchedule)
    → P t
    → All P ss
    → All P (update_schedule t ss)
unfolding update_schedule
update_schedule-All P t [] p h = tt
update_schedule-All P t (s ∷ ss) p h = (
  elim (s.token_id == t.token_id) as (λ b. P (if b then t else s)) [ true ↦ p | false ↦ h.0 ],
  update_schedule-All P t ss p h.1,
)

pub record_if-schedules :
    (d : Option CoverageDecision) (db : Database) {db' : Database}
    → record_if d db ≡ ok db'
    → db'.schedules ≡ db.schedules
unfolding record_if
record_if-schedules none db h = ground arith
record_if-schedules (some d) db h = elim (record_coverage_decision_cases d db) [
  | inl (db'', e, k) ↦ ground arith
  | inr (x, e, k) ↦ ground arith
]

pub record_if-tables :
    (d : Option CoverageDecision) (db : Database) {db' : Database}
    → record_if d db ≡ ok db'
    → (db'.batches ≡ db.batches) × (db'.outcomes ≡ db.outcomes)
unfolding record_if
record_if-tables none db {db'} h =
    let same : db ≡ db' = ground arith in
    (ap (λ (x : Database). x.batches) (sym same), ap (λ (x : Database). x.outcomes) (sym same))
record_if-tables (some d) db h =
    let (added, same, _) = record_coverage_decision_appends d db h in
    (ap (λ (x : Database). x.batches) same, ap (λ (x : Database). x.outcomes) same)

module _ {Float : Type 0} (scheduler : AdaptiveScheduler Float) (now : ℕ) (run : Option ℕ)
    (P : PollSchedule → Type 0)
    (kept : (s t : PollSchedule) (d : Option CoverageDecision)
      → P s
      → refresh_one_coverage scheduler s now coverage_boundary_elapsed run ≡ ok (t, d)
      → P t) where
  refresh_row-All :
      (s : PollSchedule) (db : Database) {db' : Database}
      → P s
      → All P db.schedules
      → refresh_row scheduler now run s db ≡ ok db'
      → All P db'.schedules
  unfolding refresh_row
  refresh_row-All s db p h e =
      let ((t, d), r, k) = >>=-eq-ok _ _ e in
      subst (All P)
        (sym (record_if-schedules d (record db { schedules = update_schedule t db.schedules }) k))
        (update_schedule-All P t db.schedules (kept s t d p r) h)

  refresh_rows-All :
      (batch : List PollSchedule) (db : Database) {db' : Database}
      → All P batch
      → All P db.schedules
      → refresh_rows scheduler now run batch db ≡ ok db'
      → All P db'.schedules
  unfolding refresh_rows
  refresh_rows-All [] db {db'} p h e =
      let same : db ≡ db' = ground arith in subst (λ (x : Database). All P x.schedules) same h
  refresh_rows-All (s ∷ ss) db p h e =
      let (db'', r, k) = >>=-eq-ok _ _ e in
      refresh_rows-All ss db'' p.1 (refresh_row-All s db p.0 h r) k

  check_stalled-same :
      (batch : List PollSchedule) (db : Database) {db' : Database}
      → check_stalled scheduler now run batch db ≡ ok db'
      → db ≡ db'
  unfolding check_stalled
  check_stalled-same batch db {db'} e =
      go (where_ (λ s. token_in batch s && transition_due now s) db.schedules) e
    where
      go :
          (xs : List PollSchedule)
          → elim xs as (λ _. Result SchedulerError Database) [
            | [] ↦ ok db
            | s ∷ ss ↦ err coverage_transition_progress
          ]
            ≡ ok db'
          → db ≡ db'
      go [] e = ground arith
      go (s ∷ ss) e = cc

  pub advance_coverage_transitions-All :
      (fuel : ℕ) (db : Database) {n : ℕ} {db' : Database}
      → All P db.schedules
      → advance_coverage_transitions scheduler now run fuel db ≡ ok (n, db')
      → All P db'.schedules
  unfolding advance_coverage_transitions due_batch
  advance_coverage_transitions-All zero db h e = cc
  advance_coverage_transitions-All (suc fuel) db {n} {db'} h e =
      go (due_batch now db.schedules)
        (All-take P 1_000 _ (
          All-sort_by transition_before P (where_ (transition_due now) db.schedules)
            (All-select_keep P (transition_due now) db.schedules h)))
        (λ x m x'. advance_coverage_transitions-All fuel x) e
    where
      go :
          (batch : List PollSchedule)
          → All P batch
          → ((x : Database) (m : ℕ) (x' : Database)
              → All P x.schedules
              → advance_coverage_transitions scheduler now run fuel x ≡ ok (m, x')
              → All P x'.schedules)
          → elim batch as (λ _. Result SchedulerError (ℕ × Database)) [
            | [] ↦ ok (0, db)
            | s ∷ ss ↦ do
              db' ← refresh_rows scheduler now run (s ∷ ss) db
              db'' ← check_stalled scheduler now run (s ∷ ss) db'
              rest ← advance_coverage_transitions scheduler now run fuel db''
              ok (length (s ∷ ss) + rest.0, rest.1)
          ]
            ≡ ok (n, db')
          → All P db'.schedules
      go [] p ih e =
          let same : db ≡ db' = ground arith in subst (λ (x : Database). All P x.schedules) same h
      go (s ∷ ss) p ih e =
          let (x, r, e') = >>=-eq-ok (refresh_rows scheduler now run (s ∷ ss) db) _ e in
          let (y, c, e'') = >>=-eq-ok (check_stalled scheduler now run (s ∷ ss) x) _ e' in
          let ((m, z), a, k) =
            >>=-eq-ok (advance_coverage_transitions scheduler now run fuel y) _ e'' in
          let held : All P y.schedules =
            subst (λ (w : Database). All P w.schedules) (check_stalled-same (s ∷ ss) x c)
              (refresh_rows-All (s ∷ ss) db p h r) in
          let same : z ≡ db' = ground arith in
          subst (λ (w : Database). All P w.schedules) same (ih y m z held a)

-- The loop keeps the constraints that `IsStored` states on every row of the table.
pub advance_coverage_transitions-IsStored :
    {Float : Type 0} (scheduler : AdaptiveScheduler Float) (now : ℕ) (run : Option ℕ) (fuel : ℕ)
    (db : Database) {n : ℕ} {db' : Database}
    → All IsStored db.schedules
    → advance_coverage_transitions scheduler now run fuel db ≡ ok (n, db')
    → All IsStored db'.schedules
advance_coverage_transitions-IsStored scheduler now run =
    advance_coverage_transitions-All scheduler now run IsStored
      (λ s t d. refresh_one_coverage-IsStored scheduler s now coverage_boundary_elapsed run)
