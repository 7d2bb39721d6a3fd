-- ===== src/Scheduler/Applications.antt =====
-- Lifecycle decisions of src/pump_research/scheduling/scheduler.py on a small database, and the
-- theorems on them.
use pump_research.Prelude.{ℕ, ◌<◌, ◌≡◌, ◌⊎◌, refl, none, some, [], Result, ok, err, All}
use pump_research.Coverage.{coverage_class_for, next_transition_at}
use pump_research.Coverage.Settings.{seconds}
use pump_research.Scheduler.Rows.{
  new, active, dormant, PollSchedule, lifecycle_reason, Database, SchedulerError,
  coverage_reconstruction, conflicting_states, CapacityDecision, IsStored, same_state, same_class,
  same_option,
}
use pump_research.Scheduler.Samples.{scheduler, database}
use pump_research.Scheduler.Scenarios.{plan}
use pump_research.Scheduler.Decisions.{persist_coverage_policy, record_coverage_decision}
use pump_research.Scheduler.Advance.{update_schedule}
use pump_research.Scheduler.Batches.{schedule_of}
use pump_research.Scheduler.Apply.{
  token_of, same_schedule_key, same_decision_key, insert_decision, first_admission, lifecycle_due,
  first_schedule, restated, planned_row, lifecycle_change, complete_application, decided_class,
  apply_first, is_up_to_date, apply_restated, apply_change, with_policy,
  set_lifecycle_state_in_session,
}
use pump_research.Scheduler.Apply.Outcome.{IsScheduled, set_lifecycle_state_in_session-outcome}
use pump_research.Scheduler.Steps.{Reach, unscheduled, later, decides, Reach-IsStored}

abbrev always : Database → Result SchedulerError CapacityDecision
always db = ok plan

abbrev no_schedules : Database
no_schedules = record database { schedules = [] }

-- The first decision about token 5 makes its schedule.
abbrev decided_new :
    (x : PollSchedule × Database) × (set_lifecycle_state_in_session scheduler always new
        (seconds 1000)
        (lifecycle_reason 0)
        none
        5
        none
        no_schedules
      ≡ ok x)
unfolding set_lifecycle_state_in_session token_of schedule_of apply_first with_policy
    persist_coverage_policy first_admission decided_class coverage_class_for next_transition_at
    complete_application planned_row first_schedule lifecycle_due same_class same_state
    record_coverage_decision update_schedule insert_decision lifecycle_change
decided_new = (_, refl)

-- Fifteen minutes later it is ACTIVE.
abbrev decided_active :
    (x : PollSchedule × Database) × (set_lifecycle_state_in_session scheduler always active
        (seconds 1900)
        (lifecycle_reason 1)
        none
        5
        none
        decided_new.0.1
      ≡ ok x)
unfolding set_lifecycle_state_in_session token_of schedule_of apply_change apply_restated
    is_up_to_date with_policy persist_coverage_policy decided_class coverage_class_for
    next_transition_at complete_application planned_row restated lifecycle_due same_class same_state
    same_option record_coverage_decision update_schedule insert_decision same_schedule_key
    same_decision_key decided_new first_schedule
decided_active = (_, refl)

-- Another state at the same time is a conflict.
conflict :
    set_lifecycle_state_in_session scheduler always dormant
      (seconds 1000)
      (lifecycle_reason 2)
      none
      5
      none
      database
    ≡ err conflicting_states
unfolding set_lifecycle_state_in_session token_of schedule_of same_state
conflict = refl

-- A first decision that is not NEW needs an admission time.
no_admission :
    set_lifecycle_state_in_session scheduler always active
      (seconds 1000)
      (lifecycle_reason 2)
      none
      5
      none
      no_schedules
    ≡ err coverage_reconstruction
unfolding set_lifecycle_state_in_session token_of schedule_of apply_first first_admission same_state
no_admission = refl

set_lifecycle_state_in_session-outcome_example :
    (schedule_of 5 decided_active.0.1.schedules ≡ some (decided_active.0.0))
    × (((seconds 1900 < decided_active.0.0.state_decided_at)
          × (decided_active.0.1 ≡ decided_new.0.1))
        ⊎ IsScheduled scheduler active (seconds 1900) decided_active.0.0)
set_lifecycle_state_in_session-outcome_example =
    set_lifecycle_state_in_session-outcome scheduler always active (seconds 1900)
      (lifecycle_reason 1) none 5 none decided_new.0.1 decided_active.1

Reach-active : Reach ℕ decided_active.0.1
Reach-active =
    later
      (later (unscheduled no_schedules refl) (
        decides scheduler always new (seconds 1000) (lifecycle_reason 0) none 5 none _
          decided_new.1))
      (decides scheduler always active (seconds 1900) (lifecycle_reason 1) none 5 none _
        decided_active.1)

Reach-IsStored_example : All IsStored decided_active.0.1.schedules
Reach-IsStored_example = Reach-IsStored ℕ Reach-active
