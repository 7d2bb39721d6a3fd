-- ===== src/Scheduler/Apply.antt =====
-- src/pump_research/scheduling/scheduler.py: `set_lifecycle_state_in_session`, which turns a
-- lifecycle decision about a token into its schedule. The capacity decision is computed by an
-- argument, from the tables after the row is flushed.
pub mod Inversion
pub mod Outcome
use pump_research.Prelude.{
  ℕ, ◌+◌, ◌*◌, Bool, true, false, not, ◌&&◌, Option, none, some, List, [], ◌∷◌, ◌++◌, Result, ok,
  err, ◌>>=◌, ltb, ◌==◌, if◌then◌else◌,
}
use pump_research.Coverage.{coverage_class_for, next_transition_at}
use pump_research.Scheduler.Rows.{
  LifecycleState, new, CoverageClass, retired_control, PollSchedule, CoverageDecision, ReasonCode,
  coverage_time_advanced, coverage_boundary_elapsed, coverage_boundary_observed_at_completion,
  lifecycle_reason, Token, PollScheduleKey, ScheduleDecisionKey, lifecycle_key, epoch_rebase_key,
  PollScheduleDecision, Database, SchedulerError, no_such_token, conflicting_states,
  coverage_reconstruction, AdaptiveScheduler, CapacityDecision, priority_for_coverage, same_state,
  same_class, same_option,
}
use pump_research.Scheduler.Refresh.{lift, refresh_one_coverage}
use pump_research.Scheduler.Decisions.{
  persist_coverage_policy, record_coverage_decision, same_reason,
}
use pump_research.Scheduler.Advance.{update_schedule, record_if}
use pump_research.Scheduler.Batches.{schedule_of}

unfoldable pub token_of : ℕ → List Token → Result SchedulerError Token
token_of id [] = err no_such_token
token_of id (t ∷ ts) = if t.id == id then ok t else token_of id ts

-- `_decision_idempotency_key`, as the equality of two keys.
unfoldable pub same_schedule_key : PollScheduleKey → PollScheduleKey → Bool
same_schedule_key a b =
    a.token_id == b.token_id
    && same_state a.state b.state
    && a.decided_at == b.decided_at
    && a.policy_sha256 == b.policy_sha256
    && same_reason a.reason_code b.reason_code

-- A lifecycle decision and the start of an epoch digest different texts.
unfoldable pub same_decision_key : ScheduleDecisionKey → ScheduleDecisionKey → Bool
same_decision_key (lifecycle_key a) (lifecycle_key b) = same_schedule_key a b
same_decision_key (lifecycle_key a) (epoch_rebase_key e t) = false
same_decision_key (epoch_rebase_key e t) (lifecycle_key b) = false
same_decision_key (epoch_rebase_key e t) (epoch_rebase_key e' t') = e == e' && t == t'

-- INSERT … ON CONFLICT DO NOTHING on the key.
unfoldable pub insert_decision :
    PollScheduleDecision → List PollScheduleDecision → List PollScheduleDecision
insert_decision d [] = d ∷ []
insert_decision d (e ∷ es) =
    let rest = insert_decision d es in
    if same_decision_key e.idempotency_key d.idempotency_key then e ∷ es else e ∷ rest

-- The admission of a first schedule.
unfoldable pub first_admission :
    Option ℕ → LifecycleState → (decided_at : ℕ) → Result SchedulerError ℕ
first_admission (some admitted_at) state decided_at = ok admitted_at
first_admission none state decided_at =
    if same_state state new then ok decided_at else err coverage_reconstruction

unfoldable pub lifecycle_due : CoverageClass → (decided_at interval_seconds : ℕ) → Option ℕ
lifecycle_due coverage decided_at interval_seconds =
    if same_class coverage retired_control
    then none
    else some (decided_at + interval_seconds * 1_000_000)

module _ {Float : Type 0} (scheduler : AdaptiveScheduler Float) where
  open scheduler use {policy, sha256, coverage_sha256}

  unfoldable pub first_schedule :
      Token
      → LifecycleState
      → (decided_at admission : ℕ) → CoverageClass
      → (next_transition : Option ℕ) → PollSchedule
  first_schedule token state decided_at admission coverage next_transition = record {
    token_id = token.id;
    chain = token.chain;
    address = token.address;
    lifecycle_state = state;
    state_decided_at = decided_at;
    admitted_at = some admission;
    coverage_class = some coverage;
    coverage_decided_at = some decided_at;
    coverage_next_transition_at = next_transition;
    coverage_policy_sha256 = some coverage_sha256;
    candidate_coverage_expires_at = none;
    candidate_coverage_interval_seconds = none;
    candidate_tier_event_id = none;
    priority = priority_for_coverage coverage;
    next_due_at = none;
    last_due_at = none;
    last_started_at = none;
    last_completed_at = none;
    attempt_count = 0;
    last_control_scan_at = none;
    control_scan_count = 0;
    lease_id = none;
    lease_expires_at = none;
    capacity_decision_id = none;
    target_interval_seconds = none;
    effective_interval_seconds = none;
    configuration_sha256 = sha256;
    updated_at = decided_at;
  }

  unfoldable pub restated :
      PollSchedule
      → LifecycleState
      → (decided_at : ℕ) → CoverageClass
      → (next_transition : Option ℕ) → PollSchedule
  restated task state decided_at coverage next_transition = record task {
    lifecycle_state = state;
    state_decided_at = decided_at;
    coverage_class = some coverage;
    coverage_decided_at = some decided_at;
    coverage_next_transition_at = next_transition;
    coverage_policy_sha256 = some coverage_sha256;
    priority = priority_for_coverage coverage;
    next_due_at = if same_class coverage retired_control then none else task.next_due_at;
    configuration_sha256 = sha256;
    updated_at = decided_at;
  }

  -- The row that the capacity decision completes.
  unfoldable pub planned_row :
      PollSchedule → CoverageClass → (decided_at : ℕ) → CapacityDecision → PollSchedule
  planned_row task coverage decided_at capacity = record task {
    next_due_at = lifecycle_due coverage decided_at (capacity.effective_interval_seconds coverage);
    capacity_decision_id = some (capacity.id);
    target_interval_seconds = some (capacity.target_interval_seconds coverage);
    effective_interval_seconds = some (capacity.effective_interval_seconds coverage);
  }

  -- What was known of the token before: its state, its class and its due time.
  pub record Previous : Type 0 where
    pub state : Option LifecycleState
    pub coverage : Option CoverageClass
    pub due_at : Option ℕ

  module _ (plan : Database → Result SchedulerError CapacityDecision) (state : LifecycleState)
      (decided_at : ℕ) (reason : ReasonCode) (collector_run_id : Option ℕ) where
    unfoldable pub lifecycle_change :
        PollSchedule
        → (admission : ℕ) → CoverageClass
        → Previous
        → CapacityDecision
        → CoverageDecision
    lifecycle_change t admission coverage previous capacity = record {
      token_id = t.token_id;
      collection_epoch_id = none;
      collector_run_id = collector_run_id;
      previous_coverage_class = previous.coverage;
      new_coverage_class = coverage;
      lifecycle_state = t.lifecycle_state;
      admitted_at = admission;
      decided_at = decided_at;
      coverage_effective_at = decided_at;
      reason_code = reason;
      policy_sha256 = coverage_sha256;
      capacity_decision_id = some (capacity.id);
      target_interval_seconds = t.target_interval_seconds;
      effective_interval_seconds = t.effective_interval_seconds;
      next_due_at = t.next_due_at;
      lifecycle_state_decided_at = t.state_decided_at;
      coverage_next_transition_at = t.coverage_next_transition_at;
      batch_id = none;
      previous_lifecycle_state = some (previous.state);
    }

    unfoldable pub schedule_change :
        PollSchedule → CoverageClass → Previous → CapacityDecision → PollScheduleDecision
    schedule_change t coverage previous capacity = record {
      collection_epoch_id = none;
      token_id = t.token_id;
      idempotency_key = lifecycle_key (record {
        token_id = t.token_id;
        state = state;
        decided_at = decided_at;
        policy_sha256 = sha256;
        reason_code = reason;
      });
      previous_state = previous.state;
      new_state = state;
      previous_due_at = previous.due_at;
      new_due_at = t.next_due_at;
      decided_at = decided_at;
      reason_code = reason;
      capacity_decision_id = capacity.id;
      target_interval_seconds = capacity.target_interval_seconds coverage;
      effective_interval_seconds = capacity.effective_interval_seconds coverage;
      configuration_sha256 = sha256;
    }

    -- The part after the flush of the row, which stands in the tables.
    unfoldable pub complete_application :
        PollSchedule
        → (admission : ℕ) → CoverageClass
        → Previous
        → Database
        → Result SchedulerError (PollSchedule × Database)
    complete_application task admission coverage previous db = do
      capacity ← plan db
      let t = planned_row task coverage decided_at capacity
      db ←
          record_coverage_decision (lifecycle_change t admission coverage previous capacity)
            (record db { schedules = update_schedule t db.schedules })
      ok (
        t,
        record db {
          schedule_decisions =
              insert_decision (schedule_change t coverage previous capacity) db.schedule_decisions;
        },
      )

    -- The policy's class and boundary for the new state.
    unfoldable pub decided_class :
        (admission : ℕ) → Result SchedulerError (CoverageClass × Option ℕ)
    decided_class admission = do
      coverage ← lift (coverage_class_for policy state admission decided_at decided_at)
      next ← lift (next_transition_at policy state admission decided_at decided_at)
      ok (coverage, next)

    unfoldable pub apply_first :
        (admitted_at : Option ℕ)
        → Token
        → Database
        → Result SchedulerError (PollSchedule × Database)
    apply_first admitted_at token db = do
      admission ← first_admission admitted_at state decided_at
      (coverage, next) ← decided_class admission
      let t = first_schedule token state decided_at admission coverage next
      complete_application t admission coverage
          (record { state = none; coverage = none; due_at = none })
          (record db { schedules = db.schedules ++ t ∷ [] })

    unfoldable pub apply_refresh :
        PollSchedule → Database → Result SchedulerError (PollSchedule × Database)
    apply_refresh task db = do
      (t, d) ←
          refresh_one_coverage scheduler task decided_at coverage_time_advanced collector_run_id
      db ← record_if d (record db { schedules = update_schedule t db.schedules })
      ok (t, db)

    -- The row has the state, and both digests of the policy.
    unfoldable pub is_up_to_date : PollSchedule → Bool
    is_up_to_date task =
        same_state task.lifecycle_state state
        && task.configuration_sha256 == sha256
        && same_option task.coverage_policy_sha256 (some coverage_sha256)

    unfoldable pub apply_restated :
        PollSchedule → (admission : ℕ) → Database → Result SchedulerError (PollSchedule × Database)
    apply_restated task admission db = do
      (coverage, next) ← decided_class admission
      let t = restated task state decided_at coverage next
      complete_application t admission coverage
          (record {
            state = some (task.lifecycle_state);
            coverage = task.coverage_class;
            due_at = task.next_due_at;
          })
          (record db { schedules = update_schedule t db.schedules })

    unfoldable pub apply_change :
        PollSchedule → Database → Result SchedulerError (PollSchedule × Database)
    apply_change task db = elim (task.admitted_at) [
      | none ↦ err coverage_reconstruction
      | some admission ↦
          if is_up_to_date task then apply_refresh task db else apply_restated task admission db
    ]

    unfoldable pub with_policy : Database → Database
    with_policy db = record db {
      coverage_policies = persist_coverage_policy coverage_sha256 db.coverage_policies;
    }

    unfoldable pub set_lifecycle_state_in_session :
        (token_id : ℕ)
        → (admitted_at : Option ℕ) → Database
        → Result SchedulerError (PollSchedule × Database)
    set_lifecycle_state_in_session token_id admitted_at db =
        token_of token_id db.tokens >>= λ token. elim (schedule_of token_id db.schedules) [
          | none ↦ apply_first admitted_at token (with_policy db)
          | some task ↦
              if ltb decided_at task.state_decided_at
              then ok (task, db)
              else if decided_at == task.state_decided_at
                  && not (same_state task.lifecycle_state state)
              then err conflicting_states
              else apply_change task (with_policy db)
        ]
