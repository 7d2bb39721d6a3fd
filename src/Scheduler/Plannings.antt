-- ===== src/Scheduler/Plannings.antt =====
-- The capacity decision of src/pump_research/scheduling/scheduler.py on a small population, in
-- fixed-point arithmetic.
use pump_research.Prelude.{
  ℕ, ◌+◌, ◌*◌, ◌≡◌, refl, some, none, List, [], ◌∷◌, ok, err, select as where_,
}
use pump_research.Floats.Fixed.{fixed}
use pump_research.Coverage.Settings.{seconds}
use pump_research.Scheduler.Rows.{AdaptiveScheduler, same_class}
use pump_research.Scheduler.Samples.{scheduler, database}
use pump_research.Scheduler.Decisions.{persist_coverage_policy}
use pump_research.Capacity.{requested_by, interval_for_rate}
use pump_research.Capacity.Plan.{
  CapacityPlan, any_tier, is_negative, count_sum, targets_of, requested_rate, requested_load,
  safe_requests, scheduled_requests, available_tokens, mode_for, rates_in, intervals_for, plan_of,
  effective_load, fitted, plan_counts, plan_capacity,
}
use pump_research.Coverage.{capacity_target_interval_seconds}
use pump_research.Scheduler.Planning.{
  PlanningState, Decision, no_transaction, same_mode, same_stored, same_identity, insert_stored,
  is_readback, persist_row, all_mapped, count_of, capacity_counts, capacity_idempotency_key, row_of,
  persist_capacity_decision, new_decision, bucket_decision, frozen, decide_bucket, repeat_decision,
  decide_owned, decide_in, capacity_decision,
}
use pump_research.Scheduler.Planning.Identity.{
  capacity_decision-one_identity, capacity_decision-stored,
}

abbrev total : List ℕ → ℕ
total [] = 0
total (x ∷ xs) = x + total xs

abbrev snapshot : CapacityPlan ℕ → ℕ
snapshot plan = plan.available_requests_per_minute

abbrev digest : (bucket policy_sha256 plan_snapshot : ℕ) → ℕ
digest bucket policy plan = bucket + policy * 1_000 + plan

abbrev uuid5 : ℕ → ℕ
uuid5 key = key + 1

-- Two INITIAL schedules, and a session in its first transaction.
abbrev idle : PlanningState ℕ
idle = record {
  cache = record { capacity_bucket = none; capacity_decision = none };
  session = record { transaction = some 1; owner = none };
  tables = record {
    schedules = database.schedules;
    scheduler_policies = [];
    capacity_decisions = [];
  };
}

no_session :
    capacity_decision fixed total snapshot digest uuid5 scheduler
      (seconds 1000)
      (record idle { session = record { transaction = none; owner = none } })
    ≡ err no_transaction
unfolding capacity_decision decide_in
no_session = refl

abbrev decided :
    (x : Decision ℕ × PlanningState ℕ) × (capacity_decision fixed total snapshot digest uuid5
        scheduler
        (seconds 1000)
        idle
      ≡ ok x)
unfolding capacity_decision decide_in decide_owned frozen decide_bucket bucket_decision new_decision
    capacity_counts all_mapped count_of same_class persist_capacity_decision row_of
    capacity_idempotency_key persist_row insert_stored same_identity is_readback same_stored
    same_mode where_ persist_coverage_policy plan_capacity any_tier is_negative plan_counts fitted
    targets_of requested_rate requested_load safe_requests scheduled_requests available_tokens
    mode_for rates_in intervals_for interval_for_rate effective_load plan_of
    capacity_target_interval_seconds requested_by count_sum
decided = (_, refl)

-- A savepoint that is rolled back takes the row with it, and the decision stays.
abbrev rolled_back : PlanningState ℕ
rolled_back = record decided.0.1 { tables = idle.tables }

abbrev repeated :
    (x : Decision ℕ × PlanningState ℕ) × (capacity_decision fixed total snapshot digest uuid5
        scheduler
        (seconds 9000)
        rolled_back
      ≡ ok x)
unfolding capacity_decision decide_in decide_owned frozen repeat_decision persist_capacity_decision
    row_of capacity_idempotency_key persist_row insert_stored same_identity is_readback same_stored
    same_mode where_ persist_coverage_policy decided
repeated = (_, refl)

-- Another process's scheduler, under the same policy.
abbrev other_process : AdaptiveScheduler ℕ
other_process = record scheduler { milliseconds = λ microseconds. 0 }

capacity_decision-stored_example :
    (where_
        (same_identity (row_of fixed total snapshot digest uuid5 scheduler decided.0.0))
        decided.0.1.tables.capacity_decisions
      ≡ row_of fixed total snapshot digest uuid5 scheduler decided.0.0 ∷ [])
    × (capacity_decision fixed total snapshot digest uuid5 other_process (seconds 9000) decided.0.1
        ≡ ok decided.0)
capacity_decision-stored_example =
    capacity_decision-stored fixed total snapshot digest uuid5 scheduler other_process
      (seconds 1000) (seconds 9000) idle decided.0.0 decided.0.1 decided.1 refl

capacity_decision-one_identity_example :
    (repeated.0.0 ≡ decided.0.0) × (scheduler.sha256 ≡ scheduler.sha256)
capacity_decision-one_identity_example =
    capacity_decision-one_identity fixed total snapshot digest uuid5 scheduler scheduler
      (seconds 1000) (seconds 9000) idle decided.0.0 repeated.0.0 decided.0.1 rolled_back
      repeated.0.1 decided.1 refl repeated.1
