-- ===== src/Scheduler/Complete.antt =====
-- src/pump_research/scheduling/scheduler.py: `complete_batch_in_session`. The details of a failure
-- are not kept, and the mean of the latenesses is their sum with the number of members.
pub mod Outcomes
pub mod Constraints
use pump_research.Prelude.{
  ℕ, ◌+◌, ◌*◌, min, max, Bool, true, false, not, ◌&&◌, ◌||◌, Option, none, some, List, [], ◌∷◌,
  ◌++◌, Result, ok, err, ◌>>=◌, ltb, leb, ◌==◌, if◌then◌else◌, length, map, select as where_,
  is_some,
}
use pump_research.Prelude.Sorting.{sort_by}
use pump_research.Coverage.{capacity_target_interval_seconds}
use pump_research.Scheduler.Rows.{
  LifecycleState, CoverageClass, protected_active, protected_resurrected, protected_watch, initial,
  early, mature, fading_tail, fading_cool, cooled, long_tail_day, long_tail_week, retired_control,
  PollSchedule, CoverageDecision, coverage_boundary_observed_at_completion, PollBatch,
  PollBatchMember, PollOutcome, PollBatchOutcome, Database, SchedulerError, no_such_batch,
  no_such_token, lost_poll_lease, coverage_reconstruction, invalid_interval, empty_batch,
  AdaptiveScheduler, CapacityDecision, same_class, same_option,
}
use pump_research.Scheduler.Refresh.{
  class_at, transition_at, earliest_timestamp, candidate_active, active_expiry, clear_if,
  candidate_priority,
}
use pump_research.Scheduler.Batches.{
  batch_of, outcome_of, capacity_of, decision_intervals, members_of, member_of, schedules_of,
  is_lost, least, greatest, sum,
}
use pump_research.Scheduler.Selection.{lateness_ms}
use pump_research.Scheduler.Advance.{update_schedule, record_if}

pub record PollCompletion : Type 0 where
  pub batch_id : ℕ
  pub outcome : PollOutcome
  pub completed_at : ℕ
  pub member_count : ℕ
  pub observation_lateness_min_ms : ℕ
  pub observation_lateness_max_ms : ℕ
  pub observation_lateness_sum_ms : ℕ

abbrev pub completion_from_model : PollBatchOutcome → PollCompletion
completion_from_model o = record {
  batch_id = o.batch_id;
  outcome = o.outcome;
  completed_at = o.completed_at;
  member_count = o.member_count;
  observation_lateness_min_ms = o.observation_lateness_min_ms;
  observation_lateness_max_ms = o.observation_lateness_max_ms;
  observation_lateness_sum_ms = o.observation_lateness_sum_ms;
}

module _ {Float : Type 0} (scheduler : AdaptiveScheduler Float) (completed_at : ℕ) where
  open scheduler use {policy, sha256, coverage_sha256, milliseconds}

  pub outcome_model :
      (batch_id : ℕ) (outcome : PollOutcome) (api_request_log_id : Option ℕ)
      → (members : ℕ) → (latenesses : List ℕ) → Result SchedulerError PollBatchOutcome
  unfolding least greatest sum
  outcome_model batch_id outcome api_request_log_id members [] = err empty_batch
  outcome_model batch_id outcome api_request_log_id members (n ∷ ns) = ok (record {
    batch_id = batch_id;
    api_request_log_id = api_request_log_id;
    outcome = outcome;
    completed_at = completed_at;
    member_count = members;
    observation_lateness_min_ms = least n ns;
    observation_lateness_max_ms = greatest n ns;
    observation_lateness_sum_ms = sum (n ∷ ns);
    configuration_sha256 = sha256;
  })

  pub target_of : Option CapacityDecision → CoverageClass → ℕ
  target_of none coverage = capacity_target_interval_seconds policy coverage 1
  target_of (some c) coverage = c.target_interval_seconds coverage

  pub effective_of : Option CapacityDecision → CoverageClass → ℕ
  unfolding target_of
  effective_of none coverage = target_of none coverage
  effective_of (some c) coverage = c.effective_interval_seconds coverage

  -- The minimum with the interval of a candidate coverage in force.
  abbrev pub limited : PollSchedule → ℕ → ℕ
  limited s interval =
      if candidate_active s completed_at
      then elim (s.candidate_coverage_interval_seconds) [
        | none ↦ interval
        | some candidate ↦ min interval candidate
      ]
      else interval

  abbrev due_after : CoverageClass → ℕ → Option ℕ
  due_after retired_control effective = none
  due_after _ effective = some (completed_at + effective * 1_000_000)

  abbrev scans : CoverageClass → ℕ
  scans retired_control = 1
  scans _ = 0

  abbrev scanned_at : CoverageClass → Option ℕ → Option ℕ
  scanned_at retired_control before = some completed_at
  scanned_at _ before = before

  -- The row that a completion writes.
  pub completed :
      PollBatch
      → PollBatchMember
      → CoverageClass
      → (baseline : Option ℕ) → (target effective : ℕ) → PollSchedule
      → PollSchedule
  completed batch member coverage baseline target effective s =
      let over = is_some s.candidate_coverage_expires_at && not (candidate_active s completed_at) in
      record s {
        candidate_coverage_expires_at = clear_if over s.candidate_coverage_expires_at;
        candidate_coverage_interval_seconds = clear_if over s.candidate_coverage_interval_seconds;
        candidate_tier_event_id = clear_if over s.candidate_tier_event_id;
        last_due_at = some member.due_at;
        last_completed_at = some completed_at;
        attempt_count = s.attempt_count + 1;
        last_control_scan_at = scanned_at member.coverage_class s.last_control_scan_at;
        control_scan_count = s.control_scan_count + scans member.coverage_class;
        coverage_class = some coverage;
        coverage_decided_at = some completed_at;
        coverage_next_transition_at = earliest_timestamp baseline (active_expiry s completed_at);
        coverage_policy_sha256 = some coverage_sha256;
        next_due_at = due_after coverage effective;
        priority = candidate_priority (candidate_active s completed_at) coverage;
        lease_id = none;
        lease_expires_at = none;
        capacity_decision_id = batch.capacity_decision_id;
        target_interval_seconds = some target;
        effective_interval_seconds = some effective;
        configuration_sha256 = sha256;
        updated_at = completed_at;
      }

  completion_change :
      PollBatch
      → (admitted_at : ℕ) → (previous coverage : CoverageClass) → PollSchedule
      → CoverageDecision
  completion_change batch admitted_at previous coverage t = record {
    token_id = t.token_id;
    collection_epoch_id = none;
    collector_run_id = batch.collector_run_id;
    previous_coverage_class = some previous;
    new_coverage_class = coverage;
    lifecycle_state = t.lifecycle_state;
    admitted_at = admitted_at;
    decided_at = completed_at;
    coverage_effective_at = completed_at;
    reason_code = coverage_boundary_observed_at_completion;
    policy_sha256 = coverage_sha256;
    capacity_decision_id = batch.capacity_decision_id;
    target_interval_seconds = t.target_interval_seconds;
    effective_interval_seconds = t.effective_interval_seconds;
    next_due_at = t.next_due_at;
    lifecycle_state_decided_at = t.state_decided_at;
    coverage_next_transition_at = t.coverage_next_transition_at;
    batch_id = some batch.id;
    previous_lifecycle_state = none;
  }

  -- One iteration of the loop, on a row that is mapped.
  pub complete_mapped :
      PollBatch
      → Option CapacityDecision
      → List PollBatchMember
      → (admitted_at : ℕ) → CoverageClass
      → PollSchedule
      → Result SchedulerError (PollSchedule × Option CoverageDecision)
  unfolding target_of effective_of completed completion_change member_of
  complete_mapped batch capacity ms admitted_at previous s = do
    coverage ← class_at scheduler s admitted_at completed_at
    member ← member_of s.token_id ms
    baseline ← transition_at scheduler s admitted_at completed_at
    let t =
        completed batch member coverage baseline (limited s (target_of capacity coverage))
          (limited s (effective_of capacity coverage)) s
    ok (
      t,
      if same_class previous coverage
          then none
          else some (completion_change batch admitted_at previous coverage t),
    )

  unfoldable pub complete_row :
      PollBatch
      → Option CapacityDecision
      → List PollBatchMember
      → PollSchedule
      → Result SchedulerError (PollSchedule × Option CoverageDecision)
  unfolding complete_mapped
  complete_row batch capacity ms s = elim (s.admitted_at) [
    | none ↦ err coverage_reconstruction
    | some admitted_at ↦ elim (s.coverage_class) [
      | none ↦ err coverage_reconstruction
      | some previous ↦ complete_mapped batch capacity ms admitted_at previous s
    ]
  ]

  pub complete_rows :
      PollBatch
      → Option CapacityDecision
      → List PollBatchMember
      → List PollSchedule
      → Database
      → Result SchedulerError Database
  unfolding complete_row record_if
  complete_rows batch capacity ms [] db = ok db
  complete_rows batch capacity ms (s ∷ ss) db = do
    r ← complete_row batch capacity ms s
    db' ← record_if r.1 (record db { schedules = update_schedule r.0 db.schedules })
    complete_rows batch capacity ms ss db'

  -- The part of the completion of a batch with no outcome after its rows are read.
  pub complete_held :
      PollBatch
      → PollOutcome
      → Option ℕ
      → Option CapacityDecision
      → List PollBatchMember
      → List PollSchedule
      → Database
      → Result SchedulerError (PollCompletion × Database)
  unfolding is_lost outcome_model complete_rows
  complete_held batch outcome api_request_log_id capacity ms ss db =
      if is_lost batch completed_at ms ss then err lost_poll_lease else do
        model ←
            outcome_model batch.id outcome api_request_log_id (length ms)
              (map (λ m. lateness_ms milliseconds completed_at m.due_at) ms)
        db' ←
            complete_rows batch capacity ms ss (record db { outcomes = db.outcomes ++ model ∷ [] })
        ok (completion_from_model model, db')

  pub complete_new :
      PollBatch
      → PollOutcome
      → Option ℕ
      → Database
      → Result SchedulerError (PollCompletion × Database)
  unfolding capacity_of decision_intervals members_of schedules_of complete_held
  complete_new batch outcome api_request_log_id db = do
    capacity ← decision_intervals (capacity_of batch.capacity_decision_id db.capacity_decisions)
    let ms = members_of batch db.members
    complete_held batch outcome api_request_log_id capacity ms (schedules_of ms db.schedules) db

  unfoldable pub complete_batch_in_session :
      (batch_id : ℕ)
      → PollOutcome
      → (api_request_log_id : Option ℕ) → Database
      → Result SchedulerError (PollCompletion × Database)
  unfolding batch_of outcome_of complete_new
  complete_batch_in_session batch_id outcome api_request_log_id db = do
    batch ← batch_of batch_id db.batches
    elim (outcome_of batch_id db.outcomes) [
      | some existing ↦ ok (completion_from_model existing, db)
      | none ↦ complete_new batch outcome api_request_log_id db
    ]
