-- ===== src/Scheduler/Complete/Constraints.antt =====
-- The rows that a completion of src/pump_research/scheduling/scheduler.py writes.
use pump_research.Prelude.{
  ◌≢◌, ℕ, ◌+◌, ◌*◌, ◌≡◌, ◌⊎◌, inl, inr, refl, true, Option, none, some, List, [], ◌∷◌, Result, ok,
  err, >>=-eq-ok, All, All-select_keep, arith, is_some, ap, sym, subst, leb,
}
use pump_research.Prelude.Sorting.{All-sort_by}
use pump_research.Scheduler.Rows.{
  PollSchedule, CoverageDecision, CoverageClass, class_code, retired_control, PollBatch,
  PollBatchMember, PollOutcome, Database, SchedulerError, coverage_reconstruction,
  AdaptiveScheduler, CapacityDecision, IsStored,
}
use pump_research.Scheduler.Refresh.{class_at, transition_at}
use pump_research.Scheduler.Advance.{update_schedule, record_if}
use pump_research.Scheduler.Advance.Preservation.{update_schedule-All, record_if-schedules}
use pump_research.Scheduler.Batches.{member_of, members_of, schedules_of, is_member}
use pump_research.Scheduler.Complete.{
  PollCompletion, limited, target_of, effective_of, completed, due_after, complete_mapped,
  complete_row, complete_rows, complete_batch_in_session,
}
use pump_research.Scheduler.Complete.Outcomes.{complete_batch_in_session_cases}

module _ {Float : Type 0} (scheduler : AdaptiveScheduler Float) (now : ℕ) (batch : PollBatch) where
  -- The values with which a row was completed.
  pub record IsCompletedRow (s t : PollSchedule) : Type 0 where
    pub admitted_at : ℕ
    pub coverage : CoverageClass
    pub baseline : Option ℕ
    pub member : PollBatchMember
    pub target : ℕ
    pub effective : ℕ
    pub admitted : s.admitted_at ≡ some admitted_at
    pub class_eq : class_at scheduler s admitted_at now ≡ ok coverage
    pub written : t ≡ completed scheduler now batch member coverage baseline target effective s

  complete_mapped-IsCompletedRow :
      (capacity : Option CapacityDecision) (ms : List PollBatchMember) (admitted_at : ℕ)
      (previous : CoverageClass) (s t : PollSchedule) (d : Option CoverageDecision)
      → s.admitted_at ≡ some admitted_at
      → complete_mapped scheduler now batch capacity ms admitted_at previous s ≡ ok (t, d)
      → IsCompletedRow s t
  unfolding complete_mapped
  complete_mapped-IsCompletedRow capacity ms a previous s t d e h =
      let (coverage, c, k) = >>=-eq-ok (class_at scheduler s a now) _ h in
      let (member, m, l) = >>=-eq-ok (member_of s.token_id ms) _ k in
      let (baseline, b, n) = >>=-eq-ok (transition_at scheduler s a now) _ l in
      record {
        admitted_at = a;
        coverage = coverage;
        baseline = baseline;
        member = member;
        target = limited scheduler now s (target_of scheduler now capacity coverage);
        effective = limited scheduler now s (effective_of scheduler now capacity coverage);
        admitted = e;
        class_eq = c;
        written = ground arith;
      }

  pub complete_row-IsCompletedRow :
      (capacity : Option CapacityDecision) (ms : List PollBatchMember) (s t : PollSchedule)
      (d : Option CoverageDecision)
      → complete_row scheduler now batch capacity ms s ≡ ok (t, d)
      → IsCompletedRow s t
  unfolding complete_row
  complete_row-IsCompletedRow capacity ms s t d h = go (s.admitted_at) (s.coverage_class) refl h
    where
      go :
          (a : Option ℕ) (c : Option CoverageClass)
          → s.admitted_at ≡ a
          → elim a as (λ _. Result SchedulerError (PollSchedule × Option CoverageDecision)) [
            | none ↦ err coverage_reconstruction
            | some admitted_at ↦
                elim c as (λ _. Result SchedulerError (PollSchedule × Option CoverageDecision)) [
                  | none ↦ err coverage_reconstruction
                  | some previous ↦
                      complete_mapped scheduler now batch capacity ms admitted_at previous s
                ]
          ]
            ≡ ok (t, d)
          → IsCompletedRow s t
      go none c e k = cc
      go (some a) none e k = cc
      go (some a) (some previous) e k =
          complete_mapped-IsCompletedRow capacity ms a previous s t d e k

  retired_due :
      (coverage : CoverageClass) (effective : ℕ)
      → coverage ≡ retired_control
      → due_after scheduler now coverage effective ≡ none
  retired_due retired_control effective e = refl
  retired_due _ effective e = ground arith

  complete_row-IsStored :
      (capacity : Option CapacityDecision) (ms : List PollBatchMember) (s t : PollSchedule)
      (d : Option CoverageDecision)
      → IsStored s
      → complete_row scheduler now batch capacity ms s ≡ ok (t, d)
      → IsStored t
  unfolding completed
  complete_row-IsStored capacity ms s t d h e =
      let r = complete_row-IsCompletedRow capacity ms s t d e in
      let admitted : is_some s.admitted_at ≡ true = ap (λ o. is_some o) r.admitted in
      subst IsStored (sym r.written) (record {
        projection_admitted = ground arith;
        projection_decided = refl;
        projection_policy = refl;
        retired_not_due = λ k. retired_due r.coverage r.effective (ground arith);
        lease_pair = refl;
        candidate_interval = ground arith;
        candidate_event = ground arith;
      })

  due_cases :
      (coverage : CoverageClass) (effective : ℕ)
      → ((coverage ≡ retired_control) × (due_after scheduler now coverage effective ≡ none))
        ⊎ ((coverage ≢ retired_control)
            × (due_after scheduler now coverage effective ≡ some (now + effective * 1_000_000)))
  due_cases retired_control effective = inl (refl, refl)
  due_cases _ effective = inr (λ e. ground (arith, ap class_code e), refl)

  -- A completed row is released and counted, and has the class of its state at the completion. It is
  -- next due one effective interval later where that class is not retired, and not at all where it is.
  pub complete_row-released :
      (capacity : Option CapacityDecision) (ms : List PollBatchMember) (s t : PollSchedule)
      (d : Option CoverageDecision)
      → complete_row scheduler now batch capacity ms s ≡ ok (t, d)
      → (t.lease_id ≡ none)
        × (t.lease_expires_at ≡ none)
        × (t.attempt_count ≡ s.attempt_count + 1)
        × ((admitted_at : ℕ) × (coverage : CoverageClass) × (effective : ℕ) × (s.admitted_at
              ≡ some admitted_at)
            × (class_at scheduler s admitted_at now ≡ ok coverage)
            × (t.coverage_class ≡ some coverage)
            × (t.effective_interval_seconds ≡ some effective)
            × (((coverage ≡ retired_control) × (t.next_due_at ≡ none))
                ⊎ ((coverage ≢ retired_control)
                    × (t.next_due_at ≡ some (now + effective * 1_000_000)))))
  unfolding completed
  complete_row-released capacity ms s t d e =
      let r = complete_row-IsCompletedRow capacity ms s t d e in
      rw r.written (
        refl,
        refl,
        refl,
        (
          r.admitted_at,
          r.coverage,
          r.effective,
          r.admitted,
          r.class_eq,
          refl,
          refl,
          due_cases r.coverage r.effective,
        ),
      )

  complete_rows-All :
      (P : PollSchedule → Type 0) (capacity : Option CapacityDecision) (ms : List PollBatchMember)
      (kept : (s t : PollSchedule) (d : Option CoverageDecision)
        → P s
        → complete_row scheduler now batch capacity ms s ≡ ok (t, d)
        → P t)
      (ss : List PollSchedule) (db : Database) {db' : Database}
      → All P ss
      → All P db.schedules
      → complete_rows scheduler now batch capacity ms ss db ≡ ok db'
      → All P db'.schedules
  unfolding complete_rows
  complete_rows-All P capacity ms kept [] db {db'} p h e =
      let same : db ≡ db' = ground arith in subst (λ (x : Database). All P x.schedules) same h
  complete_rows-All P capacity ms kept (s ∷ ss) db p h e =
      let ((t, d), c, k) = >>=-eq-ok (complete_row scheduler now batch capacity ms s) _ e in
      let (x, i, l) =
        >>=-eq-ok (record_if d (record db { schedules = update_schedule t db.schedules })) _ k in
      complete_rows-All P capacity ms kept ss x p.1
        (subst (All P)
          (sym (record_if-schedules d (record db { schedules = update_schedule t db.schedules }) i))
          (update_schedule-All P t db.schedules (kept s t d p.0 c) h))
        l

-- A completion keeps the constraints that `IsStored` states on every row of the table.
pub complete_batch_in_session-IsStored :
    {Float : Type 0} (scheduler : AdaptiveScheduler Float) (now id : ℕ) (outcome : PollOutcome)
    (log : Option ℕ) (db : Database) {r : PollCompletion} {db' : Database}
    → All IsStored db.schedules
    → complete_batch_in_session scheduler now id outcome log db ≡ ok (r, db')
    → All IsStored db'.schedules
unfolding schedules_of
complete_batch_in_session-IsStored scheduler now id outcome log db {r} {db'} h e =
    let (batch, b, k) = complete_batch_in_session_cases scheduler now id outcome log db e in
    elim k [
      | inl (o, _, _, same) ↦ subst (λ (x : Database). All IsStored x.schedules) same h
      | inr (_, c) ↦
          let ms = members_of batch db.members in
          complete_rows-All scheduler now batch IsStored c.capacity ms
            (complete_row-IsStored scheduler now batch c.capacity ms) _ _
            (All-sort_by (λ a b. leb a.token_id b.token_id) IsStored _
              (All-select_keep IsStored (is_member ms) db.schedules h))
            h c.ran
    ]
