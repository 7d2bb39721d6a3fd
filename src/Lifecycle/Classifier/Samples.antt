-- ===== src/Lifecycle/Classifier/Samples.antt =====
-- src/pump_research/lifecycle/classifier.py: one response about token 5, which is NEW.
use pump_research.Prelude.{◌≡◌, refl, none, some, [], ◌∷◌, Result, ok, err, select as where_}
use pump_research.Prelude.Int.{pos}
use pump_research.Prelude.Sorting.{sort_by, insert_by}
use pump_research.Coverage.{coverage_class_for, next_transition_at}
use pump_research.Coverage.Settings.{seconds}
use pump_research.Scheduler.Rows.{
  Database, SchedulerError, CapacityDecision, same_state, same_class, same_option,
}
use pump_research.Scheduler.Samples.{scheduler, database}
use pump_research.Scheduler.Scenarios.{plan}
use pump_research.Scheduler.Decisions.{persist_coverage_policy, record_coverage_decision}
use pump_research.Scheduler.Advance.{update_schedule}
use pump_research.Scheduler.Batches.{schedule_of}
use pump_research.Scheduler.Apply.{
  token_of, insert_decision, lifecycle_due, restated, planned_row, lifecycle_change,
  complete_application, decided_class, is_up_to_date, apply_restated, apply_change, with_policy,
  set_lifecycle_state_in_session,
}
use pump_research.Lifecycle.Evidence.{LifecycleEvidenceCandidate, select}
use pump_research.Lifecycle.Policy.{LifecyclePolicy, evaluate}
use pump_research.Lifecycle.Classifier.{
  LifecycleTables, TokenEvaluation, no_observation, lift_selection, lift_scheduler, candidates_of,
  all_received_at, watermark_of, record_evaluation, record_event, run_of, evidence_of, event_of,
  transition_of, apply_transition, evaluate_scheduled, evaluate_selected, evaluate_selection,
  evaluate_token_request,
}
use pump_research.Lifecycle.Classifier.Outcome.{IsEvaluated, evaluate_token_request-IsEvaluated}

abbrev dollars : LifecyclePolicy
dollars = record {
  new_to_active_min_volume_m5_usd = pos 100;
  new_to_watch_min_liquidity_usd = pos 1000;
  active_to_fading_max_volume_m5_usd = pos 25;
  watch_to_fading_max_volume_m5_usd = pos 10;
  fading_to_dormant_max_volume_h1_usd = pos 10;
  fading_to_dormant_max_liquidity_usd = pos 100;
  dormant_to_resurrected_min_volume_m5_usd = pos 100;
  dormant_to_resurrected_min_liquidity_usd = pos 500;
}

abbrev traded : LifecycleEvidenceCandidate
traded = record {
  observation_id = 1;
  observation_received_at = seconds 1100;
  pair_id = 11;
  chain = b's' ∷ [];
  pair_address = b'A' ∷ [];
  dex_identifier = none;
  liquidity_usd = some (pos 900);
  volume_m5_usd = some (pos 150);
  volume_h1_usd = none;
}

abbrev tables : LifecycleTables
tables = record {
  observations = record { api_request_log_id = 7; token_id = 5; candidate = traded } ∷ [];
  requests = (7, none) ∷ [];
  evaluations = [];
  events = [];
  scheduler = database;
}

abbrev always : Database → Result SchedulerError CapacityDecision
always db = ok plan

-- No observation of the token is in the response.
absent :
    evaluate_token_request scheduler always dollars 1 2 (seconds 1101) 8 30 40 5 tables
    ≡ err no_observation
unfolding evaluate_token_request candidates_of where_ sort_by watermark_of
absent = refl

abbrev evaluated :
    (x : TokenEvaluation × LifecycleTables) × (evaluate_token_request scheduler always dollars 1 2
        (seconds 1101)
        7
        30
        40
        5
        tables
      ≡ ok x)
unfolding evaluate_token_request candidates_of where_ sort_by insert_by watermark_of all_received_at
    lift_selection select record_evaluation evaluate_selection evaluate_selected schedule_of
    evaluate_scheduled evidence_of evaluate apply_transition run_of record_event event_of
    transition_of lift_scheduler set_lifecycle_state_in_session token_of apply_change apply_restated
    is_up_to_date with_policy persist_coverage_policy decided_class coverage_class_for
    next_transition_at complete_application planned_row restated lifecycle_due same_class same_state
    same_option record_coverage_decision update_schedule insert_decision lifecycle_change
evaluated = (_, refl)

evaluate_token_request-IsEvaluated_example :
    IsEvaluated scheduler always dollars 1 2 (seconds 1101) 7 5 tables evaluated.0.0 evaluated.0.1
evaluate_token_request-IsEvaluated_example =
    evaluate_token_request-IsEvaluated scheduler always dollars 1 2 (seconds 1101) 7 30 40 5 tables
      evaluated.1
