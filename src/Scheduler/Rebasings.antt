-- ===== src/Scheduler/Rebasings.antt =====
-- The start of an epoch of src/pump_research/scheduling/scheduler.py on a small database.
use pump_research.Prelude.{ℕ, ◌≡◌, refl, some, none, List, [], ◌∷◌, Result, ok, err, All, map}
use pump_research.Prelude.Sorting.{sort_by, insert_by}
use pump_research.Coverage.{coverage_class_for, next_transition_at}
use pump_research.Coverage.Settings.{seconds}
use pump_research.Scheduler.Rows.{
  new, active, Database, SchedulerError, coverage_reconstruction, duplicate_decision,
  CapacityDecision, same_state, same_class, same_option,
}
use pump_research.Scheduler.Samples.{scheduler, fresh_row, database}
use pump_research.Scheduler.Scenarios.{plan}
use pump_research.Scheduler.Decisions.{persist_coverage_policy, record_coverage_decision}
use pump_research.Scheduler.Apply.{same_decision_key}
use pump_research.Scheduler.Rebase.{
  LifecycleRow, minimum_of, legacy_admission, admission_of, all_resolved, in_token_order,
  add_decision, rebased_row, rebase_as, rebase_row, rebase_rows, epoch_due, rebase_change,
  rebase_decision, settled_row, record_rebase, settle_rows, initialize_resolved,
  initialize_epoch_in_session,
}
use pump_research.Scheduler.Rebase.Outcome.{IsRebased, initialize_epoch_in_session-IsRebased}

abbrev always : Database → Result SchedulerError CapacityDecision
always db = ok plan

-- A leased row, and a row of token 4 from the time before coverage was stored.
abbrev legacy : Database
legacy = record database {
  schedules =
      record fresh_row { lease_id = some 8; lease_expires_at = some (seconds 1300) }
      ∷ record fresh_row {
        token_id = 4;
        admitted_at = none;
        coverage_class = none;
        coverage_decided_at = none;
        coverage_policy_sha256 = none;
      }
      ∷ [];
}

-- Token 4 became NEW at 900 s.
abbrev admissions : List LifecycleRow
admissions =
    record { token_id = 4; new_state = active; input_watermark = seconds 800 }
    ∷ record { token_id = 4; new_state = new; input_watermark = seconds 950 }
    ∷ record { token_id = 4; new_state = new; input_watermark = seconds 900 }
    ∷ []

abbrev started :
    (x : ℕ × Database) × (initialize_epoch_in_session scheduler admissions always 9
        (seconds 1200)
        legacy
      ≡ ok x)
unfolding initialize_epoch_in_session all_resolved in_token_order sort_by insert_by admission_of
    legacy_admission minimum_of initialize_resolved rebase_rows rebase_row rebase_as rebased_row
    coverage_class_for next_transition_at settle_rows epoch_due record_rebase rebase_change
    rebase_decision settled_row add_decision record_coverage_decision persist_coverage_policy
    same_state same_class same_option same_decision_key
started = (_, refl)

-- The epoch's evidence exists once.
started_twice :
    initialize_epoch_in_session scheduler admissions always 9 (seconds 1400) started.0.1
    ≡ err duplicate_decision
unfolding initialize_epoch_in_session all_resolved in_token_order sort_by insert_by admission_of
    legacy_admission minimum_of initialize_resolved rebase_rows rebase_row rebase_as rebased_row
    coverage_class_for next_transition_at settle_rows epoch_due record_rebase rebase_change
    rebase_decision settled_row add_decision record_coverage_decision persist_coverage_policy
    same_state same_class same_option same_decision_key started
started_twice = refl

-- Without its event, the admission of token 4 cannot be recovered.
unresolved :
    initialize_epoch_in_session scheduler [] always 9 (seconds 1200) legacy
    ≡ err coverage_reconstruction
unfolding initialize_epoch_in_session all_resolved in_token_order sort_by insert_by admission_of
    legacy_admission
unresolved = refl

initialize_epoch_in_session-IsRebased_example :
    (started.0.0 ≡ 2)
    × (map (λ s. s.token_id) started.0.1.schedules
        ≡ map (λ s. s.token_id) (in_token_order legacy.schedules))
    × All (IsRebased scheduler admissions always 9 (seconds 1200)) started.0.1.schedules
initialize_epoch_in_session-IsRebased_example =
    initialize_epoch_in_session-IsRebased scheduler admissions always 9 (seconds 1200) legacy
      started.1
