-- ===== src/Scheduler/Apply/Outcome.antt =====
-- The schedule that `set_lifecycle_state_in_session` of src/pump_research/scheduling/scheduler.py
-- leaves for a token.
use pump_research.Prelude.{
  ℕ, ◌≤◌, ◌<◌, ◌≡◌, ◌⊎◌, inl, inr, refl, sym, ap, ◌∙◌, subst, true, Option, none, some, List, [],
  ◌∷◌, ◌++◌, Result, ok, >>=-eq-ok, arith, All, All-append, if-eq-cases, ◌==◌,
}
use pump_research.Coverage.{coverage_class_for, next_transition_at}
use pump_research.Scheduler.Rows.{
  LifecycleState, Token, CoverageClass, retired_control, PollSchedule, ReasonCode,
  coverage_time_advanced, Database, SchedulerError, AdaptiveScheduler, CapacityDecision, IsStored,
  same_class, same_class→eq,
}
use pump_research.Scheduler.Refresh.{lift, refreshed, is_current}
use pump_research.Scheduler.Refresh.Inversion.{lift-eq-ok, refresh_one_coverage-IsRefresh}
use pump_research.Scheduler.Refresh.Constraints.{
  refresh_one_coverage-IsStored, refresh_one_coverage-lease,
}
use pump_research.Scheduler.Advance.{update_schedule}
use pump_research.Scheduler.Advance.Preservation.{update_schedule-All}
use pump_research.Scheduler.Batches.{schedule_of}
use pump_research.Scheduler.Apply.{
  lifecycle_due, first_schedule, restated, planned_row, decided_class,
  set_lifecycle_state_in_session,
}
use pump_research.Scheduler.Apply.Inversion.{
  schedule_of-token, schedule_of-update, schedule_of-append, Applied, stale, refreshed_row,
  restated_row, first_row, set_lifecycle_state_in_session-Applied,
}

module _ {Float : Type 0} (scheduler : AdaptiveScheduler Float) where
  -- The schedule has the state, decided by `decided_at`, and the class that the policy gives it at
  -- that time.
  pub record IsScheduled (state : LifecycleState) (decided_at : ℕ) (r : PollSchedule) : Type 0 where
    pub decided : r.lifecycle_state ≡ state
    pub decided_before : r.state_decided_at ≤ decided_at
    pub admission : ℕ
    pub admitted : r.admitted_at ≡ some admission
    pub coverage : CoverageClass
    pub mapped : r.coverage_class ≡ some coverage
    pub classified :
        coverage_class_for (scheduler.policy) state admission r.state_decided_at decided_at
        ≡ ok coverage
    pub under_policy : r.coverage_policy_sha256 ≡ some (scheduler.coverage_sha256)

  is_current-class :
      (s : PollSchedule) (now : ℕ) (stored coverage : CoverageClass) (baseline : Option ℕ)
      → is_current scheduler s now stored coverage baseline ≡ true
      → stored ≡ coverage
  unfolding is_current
  is_current-class s now stored coverage baseline h = same_class→eq stored coverage (ground arith)

  module _ (plan : Database → Result SchedulerError CapacityDecision) (state : LifecycleState)
      (decided_at : ℕ) (reason : ReasonCode) (run : Option ℕ) where
    decided_class-eq :
        (admission : ℕ) {coverage : CoverageClass} {next : Option ℕ}
        → decided_class scheduler plan state decided_at reason run admission ≡ ok (coverage, next)
        → coverage_class_for (scheduler.policy) state admission decided_at decided_at ≡ ok coverage
    unfolding decided_class
    decided_class-eq admission {coverage} h =
        let (c, e, k) =
          >>=-eq-ok
            (lift (coverage_class_for (scheduler.policy) state admission decided_at decided_at)) _
            h in
        let (n, _, l) =
          >>=-eq-ok
            (lift (next_transition_at (scheduler.policy) state admission decided_at decided_at)) _
            k in
        let same : c ≡ coverage = ground arith in lift-eq-ok _ e ∙ ap ok same

    Applied-IsScheduled :
        (token_id : ℕ) (db : Database) {r : PollSchedule} {db' : Database}
        → Applied scheduler plan state decided_at reason run token_id db r db'
        → ((decided_at < r.state_decided_at) × (db' ≡ db)) ⊎ IsScheduled state decided_at r
    unfolding planned_row restated first_schedule refreshed
    Applied-IsScheduled token_id db (stale _ early same) = inl (early, same)
    Applied-IsScheduled token_id db {r} (refreshed_row task d _ late same policy e _) =
        let i =
          refresh_one_coverage-IsRefresh scheduler task decided_at coverage_time_advanced run e in
        let classified : coverage_class_for (scheduler.policy) state i.admitted_at
              task.state_decided_at decided_at
            ≡ ok i.coverage =
          subst
            (λ x.
              coverage_class_for (scheduler.policy) x i.admitted_at task.state_decided_at decided_at
              ≡ ok i.coverage)
            same (lift-eq-ok _ i.class_eq) in
        elim i.ends [
          | inl (current, unchanged, _) ↦ inr (
              subst (IsScheduled state decided_at) (sym unchanged) (record {
                decided = same;
                decided_before = late;
                admission = i.admitted_at;
                admitted = i.admitted;
                coverage = i.coverage;
                mapped =
                    i.mapped
                    ∙ ap some
                        (is_current-class task decided_at i.stored i.coverage i.baseline current);
                classified = classified;
                under_policy = policy;
              }))
          | inr (_, changed, _) ↦ inr (
              subst (IsScheduled state decided_at) (sym changed) (record {
                decided = same;
                decided_before = late;
                admission = i.admitted_at;
                admitted = i.admitted;
                coverage = i.coverage;
                mapped = refl;
                classified = classified;
                under_policy = refl;
              }))
        ]
    Applied-IsScheduled token_id db
          (restated_row task admission coverage next capacity _ late admitted c same _) =
        inr (
          subst (IsScheduled state decided_at) (sym same) (record {
            decided = refl;
            decided_before = omega arith;
            admission = admission;
            admitted = admitted;
            coverage = coverage;
            mapped = refl;
            classified = decided_class-eq admission c;
            under_policy = refl;
          }))
    Applied-IsScheduled token_id db
          (first_row token admission coverage next capacity _ _ c same _) =
        inr (
          subst (IsScheduled state decided_at) (sym same) (record {
            decided = refl;
            decided_before = omega arith;
            admission = admission;
            admitted = refl;
            coverage = coverage;
            mapped = refl;
            classified = decided_class-eq admission c;
            under_policy = refl;
          }))

    -- The row that is returned is the one that the tables hold.
    Applied-stored :
        (token_id : ℕ) (db : Database) {r : PollSchedule} {db' : Database}
        → Applied scheduler plan state decided_at reason run token_id db r db'
        → schedule_of token_id db'.schedules ≡ some r
    unfolding planned_row restated first_schedule
    Applied-stored token_id db (stale found _ same) =
        ap (λ (x : Database). schedule_of token_id x.schedules) same ∙ found
    Applied-stored token_id db {r} (refreshed_row task d found _ _ _ e tables) =
        let (token, _, _) =
          refresh_one_coverage-lease scheduler task decided_at coverage_time_advanced run e in
        ap (schedule_of token_id) tables
        ∙ schedule_of-update token_id r db.schedules found
            (token ∙ schedule_of-token token_id db.schedules found)
    Applied-stored token_id db {r}
          (restated_row task admission coverage next capacity found _ _ _ same tables) =
        let t = restated scheduler task state decided_at coverage next in
        let token = schedule_of-token token_id db.schedules found in
        ap (schedule_of token_id) tables
        ∙ schedule_of-update token_id r (update_schedule t db.schedules)
            (schedule_of-update token_id t db.schedules found token)
            (ap (λ (x : PollSchedule). x.token_id) same ∙ token)
    Applied-stored token_id db {r}
          (first_row token admission coverage next capacity none_of named _ same tables) =
        let t = first_schedule scheduler token state decided_at admission coverage next in
        ap (schedule_of token_id) tables
        ∙ schedule_of-update token_id r (db.schedules ++ t ∷ [])
            (schedule_of-append token_id t db.schedules none_of named)
            (ap (λ (x : PollSchedule). x.token_id) same ∙ named)

    -- A lifecycle decision that is applied leaves its token's schedule as it returns it. Either the
    -- decision is older than the schedule's and nothing changes, or the schedule has the state,
    -- decided no later than the decision, and the coverage class that the policy gives to the state
    -- at the time of the decision.
    pub set_lifecycle_state_in_session-outcome :
        (token_id : ℕ) (admitted_at : Option ℕ) (db : Database) {r : PollSchedule} {db' : Database}
        → set_lifecycle_state_in_session scheduler plan state decided_at reason run token_id
            admitted_at db
          ≡ ok (r, db')
        → (schedule_of token_id db'.schedules ≡ some r)
          × (((decided_at < r.state_decided_at) × (db' ≡ db)) ⊎ IsScheduled state decided_at r)
    set_lifecycle_state_in_session-outcome token_id admitted_at db h =
        let a =
          set_lifecycle_state_in_session-Applied scheduler plan state decided_at reason run token_id
            admitted_at db h in
        (Applied-stored token_id db a, Applied-IsScheduled token_id db a)

    lifecycle_due-retired :
        (coverage : CoverageClass) (interval : ℕ)
        → coverage ≡ retired_control
        → lifecycle_due coverage decided_at interval ≡ none
    unfolding lifecycle_due same_class
    lifecycle_due-retired coverage interval h = rw h refl

    planned-IsStored :
        (t : PollSchedule) (coverage : CoverageClass) (capacity : CapacityDecision)
        → t.coverage_class ≡ some coverage
        → IsStored t
        → IsStored (planned_row scheduler t coverage decided_at capacity)
    unfolding planned_row
    planned-IsStored t coverage capacity mapped h = record {
      projection_admitted = h.projection_admitted;
      projection_decided = h.projection_decided;
      projection_policy = h.projection_policy;
      retired_not_due = λ k.
          lifecycle_due-retired coverage (capacity.effective_interval_seconds coverage)
            (ground arith);
      lease_pair = h.lease_pair;
      candidate_interval = h.candidate_interval;
      candidate_event = h.candidate_event;
    }

    restated-IsStored :
        (t : PollSchedule) (admission : ℕ) (coverage : CoverageClass) (next : Option ℕ)
        → t.admitted_at ≡ some admission
        → IsStored t
        → IsStored (restated scheduler t state decided_at coverage next)
    unfolding restated same_class
    restated-IsStored t admission coverage next admitted h = record {
      projection_admitted = ground arith;
      projection_decided = refl;
      projection_policy = refl;
      retired_not_due = λ k. ground arith;
      lease_pair = h.lease_pair;
      candidate_interval = h.candidate_interval;
      candidate_event = h.candidate_event;
    }

    first-IsStored :
        (token : Token) (admission : ℕ) (coverage : CoverageClass) (next : Option ℕ)
        → IsStored (first_schedule scheduler token state decided_at admission coverage next)
    unfolding first_schedule
    first-IsStored token admission coverage next = record {
      projection_admitted = refl;
      projection_decided = refl;
      projection_policy = refl;
      retired_not_due = λ _. refl;
      lease_pair = refl;
      candidate_interval = refl;
      candidate_event = refl;
    }

    schedule_of-All :
        (P : PollSchedule → Type 0) (id : ℕ) (ss : List PollSchedule) {s : PollSchedule}
        → All P ss
        → schedule_of id ss ≡ some s
        → P s
    unfolding schedule_of
    schedule_of-All P id [] h e = cc
    schedule_of-All P id (x ∷ xs) {s} h e = elim (if-eq-cases (x.token_id == id) e) [
      | inl (_, k) ↦ let same : x ≡ s = ground arith in subst P same h.0
      | inr (_, k) ↦ schedule_of-All P id xs h.1 k
    ]

    -- The row that is returned is stored, where the rows of the tables are.
    Applied-IsStored :
        (token_id : ℕ) (db : Database) {r : PollSchedule} {db' : Database}
        → All IsStored db.schedules
        → Applied scheduler plan state decided_at reason run token_id db r db'
        → All IsStored db'.schedules
    unfolding restated first_schedule
    Applied-IsStored token_id db h (stale _ _ same) =
        subst (λ (x : Database). All IsStored x.schedules) (sym same) h
    Applied-IsStored token_id db {r} h (refreshed_row task d found _ _ _ e tables) =
        subst (All IsStored) (sym tables) (
          update_schedule-All IsStored r db.schedules
            (refresh_one_coverage-IsStored scheduler task decided_at coverage_time_advanced run
              (schedule_of-All IsStored token_id db.schedules h found) e)
            h)
    Applied-IsStored token_id db {r} h
          (restated_row task admission coverage next capacity found _ admitted _ same tables) =
        let t = restated scheduler task state decided_at coverage next in
        let stored : IsStored t =
          restated-IsStored task admission coverage next admitted
            (schedule_of-All IsStored token_id db.schedules h found) in
        subst (All IsStored) (sym tables) (
          update_schedule-All IsStored r (update_schedule t db.schedules)
            (subst IsStored (sym same) (planned-IsStored t coverage capacity refl stored))
            (update_schedule-All IsStored t db.schedules stored h))
    Applied-IsStored token_id db {r} h
          (first_row token admission coverage next capacity _ _ _ same tables) =
        let t = first_schedule scheduler token state decided_at admission coverage next in
        let stored : IsStored t = first-IsStored token admission coverage next in
        subst (All IsStored) (sym tables) (
          update_schedule-All IsStored r (db.schedules ++ t ∷ [])
            (subst IsStored (sym same) (planned-IsStored t coverage capacity refl stored))
            (All-append IsStored db.schedules h stored))

    pub set_lifecycle_state_in_session-IsStored :
        (token_id : ℕ) (admitted_at : Option ℕ) (db : Database) {r : PollSchedule} {db' : Database}
        → All IsStored db.schedules
        → set_lifecycle_state_in_session scheduler plan state decided_at reason run token_id
            admitted_at db
          ≡ ok (r, db')
        → All IsStored db'.schedules
    set_lifecycle_state_in_session-IsStored token_id admitted_at db h e =
        Applied-IsStored token_id db h (
          set_lifecycle_state_in_session-Applied scheduler plan state decided_at reason run token_id
            admitted_at db e)
