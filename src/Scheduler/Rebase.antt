-- ===== src/Scheduler/Rebase.antt =====
-- src/pump_research/scheduling/scheduler.py: `initialize_epoch_in_session`, which brings every
-- schedule up to the start of a collection epoch. The capacity decision is computed by an argument.
pub mod Pairing
pub mod Outcome
use pump_research.Prelude.{
  ℕ, ◌+◌, ◌*◌, ◌%◌, min, Bool, true, false, not, ◌&&◌, Option, none, some, List, [], ◌∷◌, ◌++◌,
  Result, ok, err, ◌>>=◌, leb, ◌==◌, if◌then◌else◌, is_some, length, map,
}
use pump_research.Prelude.Sorting.{sort_by}
use pump_research.Coverage.{coverage_class_for, next_transition_at}
use pump_research.Scheduler.Rows.{
  LifecycleState, new, CoverageClass, retired_control, PollSchedule, CoverageDecision, ReasonCode,
  epoch_start_legacy_reconstruction, epoch_start_rebase, epoch_rebase_key, PollScheduleDecision,
  Database, SchedulerError, coverage_reconstruction, invalid_interval, duplicate_decision,
  AdaptiveScheduler, CapacityDecision, priority_for_coverage, same_state, same_class,
}
use pump_research.Scheduler.Refresh.{lift}
use pump_research.Scheduler.Decisions.{persist_coverage_policy, record_coverage_decision}
use pump_research.Scheduler.Apply.{same_decision_key}

-- A row of `lifecycle_events`, by what `_legacy_admissions_statement` reads.
pub record LifecycleRow : Type 0 where
  pub token_id : ℕ
  pub new_state : LifecycleState
  pub input_watermark : ℕ

-- `func.min`: no row gives NULL.
unfoldable pub minimum_of : ℕ → Option ℕ → ℕ
minimum_of a none = a
minimum_of a (some b) = min a b

-- `_legacy_admissions_statement`, for a token that has a schedule without an admission: the
-- earliest watermark of the events that made it NEW.
unfoldable pub legacy_admission : ℕ → List LifecycleRow → Option ℕ
legacy_admission token [] = none
legacy_admission token (e ∷ es) =
    let rest = legacy_admission token es in
    if e.token_id == token && same_state e.new_state new
    then some (minimum_of e.input_watermark rest)
    else rest

unfoldable pub admission_of : List LifecycleRow → PollSchedule → Option ℕ
admission_of events s = elim (s.admitted_at) [
  | none ↦ legacy_admission s.token_id events
  | some admission ↦ some admission
]

-- No schedule is `unresolved`.
unfoldable pub all_resolved : List LifecycleRow → List PollSchedule → Bool
all_resolved events [] = true
all_resolved events (s ∷ ss) = is_some (admission_of events s) && all_resolved events ss

-- ORDER BY token_id
unfoldable pub in_token_order : List PollSchedule → List PollSchedule
in_token_order ss = sort_by (λ a b. leb a.token_id b.token_id) ss

-- A schedule after the first loop, with its entry in `previous`.
pub record Rebase : Type 0 where
  pub row : PollSchedule
  pub admission : ℕ
  pub coverage : CoverageClass
  pub previous_class : Option CoverageClass
  pub previous_due_at : Option ℕ
  pub reason_code : ReasonCode

-- `session.add`: the key is unique.
unfoldable pub add_decision :
    PollScheduleDecision
    → List PollScheduleDecision
    → Result SchedulerError (List PollScheduleDecision)
add_decision d [] = ok (d ∷ [])
add_decision d (e ∷ es) =
    let rest = add_decision d es in
    if same_decision_key e.idempotency_key d.idempotency_key
    then err duplicate_decision
    else rest >>= λ ds. ok (e ∷ ds)

module _ {Float : Type 0} (scheduler : AdaptiveScheduler Float) (events : List LifecycleRow)
    (plan : Database → Result SchedulerError CapacityDecision)
    (collection_epoch_id started_at : ℕ) where
  open scheduler use {policy, sha256, coverage_sha256, epoch_digest}

  unfoldable pub rebased_row :
      PollSchedule → (admission : ℕ) → CoverageClass → (next : Option ℕ) → PollSchedule
  rebased_row s admission coverage next = record s {
    admitted_at = some admission;
    coverage_class = some coverage;
    coverage_decided_at = some started_at;
    coverage_next_transition_at = next;
    coverage_policy_sha256 = some coverage_sha256;
    priority = priority_for_coverage coverage;
    next_due_at = none;
    lease_id = none;
    lease_expires_at = none;
    updated_at = started_at;
  }

  unfoldable pub rebase_as : PollSchedule → (admission : ℕ) → Result SchedulerError Rebase
  rebase_as s admission = do
    coverage ←
        lift (coverage_class_for policy s.lifecycle_state admission s.state_decided_at started_at)
    next ←
        lift (next_transition_at policy s.lifecycle_state admission s.state_decided_at started_at)
    ok (record {
      row = rebased_row s admission coverage next;
      admission = admission;
      coverage = coverage;
      previous_class = s.coverage_class;
      previous_due_at = s.next_due_at;
      reason_code =
          if is_some s.coverage_class
          then epoch_start_rebase
          else epoch_start_legacy_reconstruction;
    })

  unfoldable pub rebase_row : PollSchedule → Result SchedulerError Rebase
  rebase_row s = elim (admission_of events s) [
    | none ↦ err coverage_reconstruction
    | some admission ↦ rebase_as s admission
  ]

  unfoldable pub rebase_rows : List PollSchedule → Result SchedulerError (List Rebase)
  rebase_rows [] = ok []
  rebase_rows (s ∷ ss) = do r ← rebase_row s; rs ← rebase_rows ss; ok (r ∷ rs)

  -- `_epoch_phase_microseconds`; an interval of zero is a division by zero.
  unfoldable pub epoch_due : CapacityDecision → Rebase → Result SchedulerError (Option ℕ)
  epoch_due capacity r =
      let interval = capacity.effective_interval_seconds r.coverage in
      if same_class r.coverage retired_control
      then ok none
      else if interval == 0
      then err invalid_interval
      else ok (
          some
            (started_at + epoch_digest collection_epoch_id r.row.token_id % (interval * 1_000_000)))

  unfoldable pub rebase_change : CapacityDecision → Rebase → Option ℕ → CoverageDecision
  rebase_change capacity r due = record {
    token_id = r.row.token_id;
    collection_epoch_id = some collection_epoch_id;
    collector_run_id = none;
    previous_coverage_class = r.previous_class;
    new_coverage_class = r.coverage;
    lifecycle_state = r.row.lifecycle_state;
    admitted_at = r.admission;
    decided_at = started_at;
    coverage_effective_at = started_at;
    reason_code = r.reason_code;
    policy_sha256 = coverage_sha256;
    capacity_decision_id = some (capacity.id);
    target_interval_seconds = some (capacity.target_interval_seconds r.coverage);
    effective_interval_seconds = some (capacity.effective_interval_seconds r.coverage);
    next_due_at = due;
    lifecycle_state_decided_at = r.row.state_decided_at;
    coverage_next_transition_at = r.row.coverage_next_transition_at;
    batch_id = none;
    previous_lifecycle_state = none;
  }

  unfoldable pub rebase_decision : CapacityDecision → Rebase → Option ℕ → PollScheduleDecision
  rebase_decision capacity r due = record {
    collection_epoch_id = some collection_epoch_id;
    token_id = r.row.token_id;
    idempotency_key = epoch_rebase_key collection_epoch_id r.row.token_id;
    previous_state = some (r.row.lifecycle_state);
    new_state = r.row.lifecycle_state;
    previous_due_at = r.previous_due_at;
    new_due_at = due;
    decided_at = started_at;
    reason_code = r.reason_code;
    capacity_decision_id = capacity.id;
    target_interval_seconds = capacity.target_interval_seconds r.coverage;
    effective_interval_seconds = capacity.effective_interval_seconds r.coverage;
    configuration_sha256 = sha256;
  }

  unfoldable pub settled_row : CapacityDecision → Rebase → Option ℕ → PollSchedule
  settled_row capacity r due =
      let s = r.row in
      record s {
        next_due_at = due;
        capacity_decision_id = some (capacity.id);
        target_interval_seconds = some (capacity.target_interval_seconds r.coverage);
        effective_interval_seconds = some (capacity.effective_interval_seconds r.coverage);
        configuration_sha256 = sha256;
        updated_at = started_at;
      }

  -- The two pieces of evidence of one schedule.
  unfoldable pub record_rebase :
      CapacityDecision → Rebase → Option ℕ → Database → Result SchedulerError Database
  record_rebase capacity r due db = do
    db ← record_coverage_decision (rebase_change capacity r due) db
    decisions ← add_decision (rebase_decision capacity r due) db.schedule_decisions
    ok (record db { schedule_decisions = decisions })

  -- The second loop: the schedules as it leaves them, and the tables.
  unfoldable pub settle_rows :
      CapacityDecision
      → List Rebase
      → Database
      → Result SchedulerError (List PollSchedule × Database)
  settle_rows capacity [] db = ok ([], db)
  settle_rows capacity (r ∷ rs) db = do
    due ← epoch_due capacity r
    db ← record_rebase capacity r due db
    (rows, db) ← settle_rows capacity rs db
    ok (settled_row capacity r due ∷ rows, db)

  -- The table is left in the order of its tokens, in which it was read.
  unfoldable pub initialize_resolved : Database → Result SchedulerError (ℕ × Database)
  initialize_resolved db = do
    rs ← rebase_rows (in_token_order db.schedules)
    let flushed = record db { schedules = map (λ r. r.row) rs }
    capacity ← plan flushed
    (rows, db) ← settle_rows capacity rs flushed
    ok (length rows, record db { schedules = rows })

  unfoldable pub initialize_epoch_in_session : Database → Result SchedulerError (ℕ × Database)
  initialize_epoch_in_session db =
      if not (all_resolved events (in_token_order db.schedules))
      then err coverage_reconstruction
      else initialize_resolved (record db {
        coverage_policies = persist_coverage_policy coverage_sha256 db.coverage_policies;
      })
