-- ===== src/Scheduler/Samples.antt =====
-- Rows of a small database, and the theorems on the scheduler at them.
use pump_research.Prelude.{ℕ, ◌*◌, ◌/◌, ◌<◌, ◌≡◌, ◌⊎◌, refl, false, none, some, [], ◌∷◌, ok, arith}
use pump_research.Coverage.{coverage_class_for, next_transition_at, interval_for_coverage}
use pump_research.Coverage.Settings.{seconds}
use pump_research.Coverage.Samples.{default_policy}
use pump_research.Scheduler.Rows.{
  CoverageClass, PollSchedule, CoverageDecision, Database, AdaptiveScheduler, IsStored, IsMappedAt,
  new, initial, early, coverage_boundary_elapsed, same_class, same_option,
}
use pump_research.Scheduler.Refresh.{refresh_one_coverage}
use pump_research.Scheduler.Refresh.Progress.{transition_due, refresh_one_coverage-not_due}
use pump_research.Scheduler.Refresh.Constraints.{IsDueWritten, refresh_one_coverage-keeps}
use pump_research.Scheduler.Decisions.{record_coverage_decision}
use pump_research.Scheduler.Decisions.Recording.{record_coverage_decision_idempotent}
use pump_research.Scheduler.Advance.{advance_coverage_transitions}
use pump_research.Scheduler.Advance.Updates.{due_count}
use pump_research.Scheduler.Advance.Outcome.{IsSettled, advance_coverage_transitions-IsSettled}

abbrev pub scheduler : AdaptiveScheduler ℕ
scheduler = record {
  policy = default_policy;
  sha256 = 77;
  coverage_sha256 = 78;
  coverage_digest = λ token_id coverage. token_id * 1_000_003;
  epoch_digest = λ epoch token_id. token_id * 1_000_033;
  milliseconds = λ microseconds. microseconds / 1_000;
}

-- A token admitted at 1000 s, whose INITIAL coverage ends at 1120 s.
abbrev pub fresh_row : PollSchedule
fresh_row = record {
  token_id = 5;
  chain = 1;
  address = 500;
  lifecycle_state = new;
  state_decided_at = seconds 1000;
  admitted_at = some (seconds 1000);
  coverage_class = some initial;
  coverage_decided_at = some (seconds 1000);
  coverage_next_transition_at = some (seconds 1120);
  coverage_policy_sha256 = some 78;
  candidate_coverage_expires_at = none;
  candidate_coverage_interval_seconds = none;
  candidate_tier_event_id = none;
  priority = 2;
  next_due_at = some (seconds 1015);
  last_due_at = none;
  last_started_at = none;
  last_completed_at = none;
  attempt_count = 0;
  last_control_scan_at = none;
  control_scan_count = 0;
  lease_id = none;
  lease_expires_at = none;
  capacity_decision_id = none;
  target_interval_seconds = some 15;
  effective_interval_seconds = some 15;
  configuration_sha256 = 77;
  updated_at = seconds 1000;
}

abbrev pub database : Database
database = record {
  schedules =
      fresh_row
      ∷ record fresh_row { token_id = 6; coverage_next_transition_at = some (seconds 5000) }
      ∷ [];
  batches = [];
  members = [];
  outcomes = [];
  coverage_policies = 5 ∷ [];
  coverage_decisions = [];
  collector_runs = (3, 9) ∷ [];
  capacity_decisions = [];
  tokens = record { id = 5; chain = 1; address = 500 } ∷ [];
  schedule_decisions = [];
}

abbrev early_row : PollSchedule
early_row = record fresh_row {
  coverage_class = some early;
  coverage_decided_at = some (seconds 1200);
  coverage_next_transition_at = some (seconds 1600);
  priority = 3;
  updated_at = seconds 1200;
}

abbrev early_decision : CoverageDecision
early_decision = record {
  token_id = 5;
  collection_epoch_id = none;
  collector_run_id = some 3;
  previous_coverage_class = some initial;
  new_coverage_class = early;
  lifecycle_state = new;
  admitted_at = seconds 1000;
  decided_at = seconds 1200;
  coverage_effective_at = seconds 1120;
  reason_code = coverage_boundary_elapsed;
  policy_sha256 = 78;
  capacity_decision_id = none;
  target_interval_seconds = some 15;
  effective_interval_seconds = some 15;
  next_due_at = some (seconds 1015);
  lifecycle_state_decided_at = seconds 1000;
  coverage_next_transition_at = some (seconds 1600);
  batch_id = none;
  previous_lifecycle_state = none;
}

-- At 1200 s the boundary has passed, and the poll of 1015 s stays due.
refresh-fresh_row :
    refresh_one_coverage scheduler fresh_row (seconds 1200) coverage_boundary_elapsed (some 3)
    ≡ ok (early_row, some early_decision)
unfolding refresh_one_coverage coverage_class_for next_transition_at interval_for_coverage
    same_class same_option
refresh-fresh_row = refl

stored : IsStored fresh_row
stored = ground arith

mapped : IsMappedAt (seconds 1200) fresh_row
mapped = record {
  admission = seconds 1000;
  admitted = refl;
  admitted_before = omega arith;
  decided_before = omega arith;
  class = initial;
  mapped = refl;
}

refresh_one_coverage-not_due_example : transition_due (seconds 1200) early_row ≡ false
refresh_one_coverage-not_due_example =
    refresh_one_coverage-not_due scheduler fresh_row (seconds 1200) coverage_boundary_elapsed
      (some 3) refresh-fresh_row

refresh_one_coverage-keeps_example :
    (early_row.lifecycle_state ≡ fresh_row.lifecycle_state)
    × (early_row.state_decided_at ≡ fresh_row.state_decided_at)
    × (early_row.admitted_at ≡ fresh_row.admitted_at)
    × (early_row.lease_id ≡ fresh_row.lease_id)
    × (early_row.lease_expires_at ≡ fresh_row.lease_expires_at)
    × (early_row.attempt_count ≡ fresh_row.attempt_count)
    × (early_row.control_scan_count ≡ fresh_row.control_scan_count)
    × ((early_row ≡ fresh_row)
        ⊎ ((coverage : CoverageClass) × (early_row.coverage_class ≡ some coverage)
            × IsDueWritten scheduler fresh_row (seconds 1200) coverage early_row.next_due_at))
refresh_one_coverage-keeps_example =
    refresh_one_coverage-keeps scheduler fresh_row (seconds 1200) coverage_boundary_elapsed (some 3)
      refresh-fresh_row

abbrev recorded : Database
recorded = record database {
  coverage_policies = 5 ∷ 78 ∷ [];
  coverage_decisions = record early_decision { collection_epoch_id = some 9 } ∷ [];
}

record-early : record_coverage_decision early_decision database ≡ ok recorded
unfolding record_coverage_decision
record-early = refl

record_coverage_decision_idempotent_example :
    record_coverage_decision early_decision recorded ≡ ok recorded
record_coverage_decision_idempotent_example =
    record_coverage_decision_idempotent early_decision database record-early

mapped_later :
    IsMappedAt
      (seconds 1200)
      (record fresh_row { token_id = 6; coverage_next_transition_at = some (seconds 5000) })
mapped_later = record {
  admission = seconds 1000;
  admitted = refl;
  admitted_before = omega arith;
  decided_before = omega arith;
  class = initial;
  mapped = refl;
}

few_due : due_count (seconds 1200) database.schedules < 2
unfolding due_count
few_due = omega arith

advance_coverage_transitions-IsSettled_example :
    IsSettled
      (seconds 1200)
      (advance_coverage_transitions scheduler (seconds 1200) (some 3) 2 database)
advance_coverage_transitions-IsSettled_example =
    advance_coverage_transitions-IsSettled scheduler (seconds 1200) (some 3) 2 database few_due
      (mapped, (mapped_later, tt))
