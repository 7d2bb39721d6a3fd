-- ===== src/Scheduler/Completions.antt =====
-- The completion of a claim on a small database, and the theorems on completions at it.
use pump_research.Prelude.{
  ◌≢◌, ℕ, ◌+◌, ◌*◌, ◌<◌, ◌≡◌, ◌⊎◌, refl, Option, none, some, List, [], ◌∷◌, ok, All, arith,
}
use pump_research.Prelude.Sorting.{sort_by}
use pump_research.Coverage.{
  coverage_class_for, next_transition_at, capacity_target_interval_seconds,
}
use pump_research.Coverage.Settings.{seconds}
use pump_research.Scheduler.Rows.{
  CoverageClass, retired_control, PollSchedule, PollBatch, succeeded, failed, Database, IsStored,
  same_class, same_option,
}
use pump_research.Scheduler.Samples.{scheduler, fresh_row}
use pump_research.Scheduler.Scenarios.{first_batch, first_row, leased_row, claimed}
use pump_research.Scheduler.Refresh.{class_at}
use pump_research.Scheduler.Advance.{update_schedule}
use pump_research.Scheduler.Batches.{batch_of, outcome_of, members_of, schedules_of, member_of}
use pump_research.Scheduler.Complete.{PollCompletion, complete_row, complete_batch_in_session}
use pump_research.Scheduler.Complete.Outcomes.{
  IsHolder, complete_batch_in_session_idempotent, complete_batch_in_session-held,
}
use pump_research.Scheduler.Complete.Constraints.{complete_row-released}

abbrev completed_row : PollSchedule
completed_row = record leased_row {
  coverage_decided_at = some (seconds 1060);
  next_due_at = some (seconds 1075);
  last_due_at = some (seconds 1015);
  last_completed_at = some (seconds 1060);
  attempt_count = 1;
  lease_id = none;
  lease_expires_at = none;
  effective_interval_seconds = some 15;
  updated_at = seconds 1060;
}

abbrev completion : PollCompletion
completion = record {
  batch_id = 100;
  outcome = succeeded;
  completed_at = seconds 1060;
  member_count = 1;
  observation_lateness_min_ms = 45_000;
  observation_lateness_max_ms = 45_000;
  observation_lateness_sum_ms = 45_000;
}

abbrev completed_db : Database
completed_db = record claimed {
  schedules =
      completed_row ∷ record fresh_row { token_id = 6; next_due_at = some (seconds 1040) } ∷ [];
  outcomes =
      record {
        batch_id = 100;
        api_request_log_id = some 8;
        outcome = succeeded;
        completed_at = seconds 1060;
        member_count = 1;
        observation_lateness_min_ms = 45_000;
        observation_lateness_max_ms = 45_000;
        observation_lateness_sum_ms = 45_000;
        configuration_sha256 = 77;
      }
      ∷ [];
}

row_completed :
    complete_row scheduler (seconds 1060) first_batch none (first_row ∷ []) leased_row
    ≡ ok (completed_row, none)
unfolding complete_row coverage_class_for next_transition_at capacity_target_interval_seconds
    member_of same_class
row_completed = refl

batch_completed :
    complete_batch_in_session scheduler (seconds 1060) 100 succeeded (some 8) claimed
    ≡ ok (completion, completed_db)
unfolding complete_batch_in_session sort_by pump_research.Prelude.select same_option
    coverage_class_for next_transition_at same_class update_schedule
    capacity_target_interval_seconds
batch_completed = refl

complete_batch_in_session_idempotent_example :
    complete_batch_in_session scheduler (seconds 1090) 100 failed none completed_db
    ≡ ok (completion, completed_db)
complete_batch_in_session_idempotent_example =
    complete_batch_in_session_idempotent scheduler scheduler (seconds 1060) (seconds 1090) 100
      succeeded failed (some 8) none claimed batch_completed

complete_batch_in_session-held_example :
    (batch : PollBatch) × (batch_of 100 claimed.batches ≡ ok batch)
    × (seconds 1060 < batch.lease_expires_at)
    × All
        (IsHolder batch.id (schedules_of (members_of batch claimed.members) claimed.schedules))
        (members_of batch claimed.members)
unfolding outcome_of
complete_batch_in_session-held_example =
    complete_batch_in_session-held scheduler (seconds 1060) 100 succeeded (some 8) claimed refl
      batch_completed

complete_row-released_example :
    (completed_row.lease_id ≡ none)
    × (completed_row.lease_expires_at ≡ none)
    × (completed_row.attempt_count ≡ leased_row.attempt_count + 1)
    × ((admitted_at : ℕ) × (coverage : CoverageClass) × (effective : ℕ) × (leased_row.admitted_at
          ≡ some admitted_at)
        × (class_at scheduler leased_row admitted_at (seconds 1060) ≡ ok coverage)
        × (completed_row.coverage_class ≡ some coverage)
        × (completed_row.effective_interval_seconds ≡ some effective)
        × (((coverage ≡ retired_control) × (completed_row.next_due_at ≡ none))
            ⊎ ((coverage ≢ retired_control)
                × (completed_row.next_due_at ≡ some (seconds 1060 + effective * 1_000_000)))))
complete_row-released_example =
    complete_row-released scheduler (seconds 1060) first_batch none (first_row ∷ []) leased_row
      completed_row none row_completed

claimed-IsStored : All IsStored claimed.schedules
claimed-IsStored = (ground arith, (ground arith, tt))
