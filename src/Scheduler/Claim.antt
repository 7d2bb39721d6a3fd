-- ===== src/Scheduler/Claim.antt =====
-- src/pump_research/scheduling/scheduler.py: `claim_next_batch`, `_claim_control_batch` and
-- `_has_batch_capacity`. The claim lock excludes other planners, so no row is skipped. The id of
-- the new batch and the capacity planner are arguments.
pub mod Inversion
pub mod Branches
pub mod Leases
pub mod Exclusion
pub mod Bounds
pub mod Totality
pub mod Stored
use pump_research.Prelude.{
  ℕ, ◌+◌, ◌-◌, ◌*◌, ◌/◌, ◌%◌, Bool, true, false, not, ◌&&◌, ◌||◌, Option, none, some, List, [], ◌∷◌,
  ◌++◌, Result, ok, err, ◌>>=◌, ltb, leb, ◌==◌, if◌then◌else◌, length, take, select as where_,
  is_some,
}
use pump_research.Prelude.Sorting.{sort_by}
use pump_research.Scheduler.Rows.{
  LifecycleState, CoverageClass, retired_control, priority_for_coverage, PollSchedule, BatchKind,
  ordinary, retired_control_kind, PollBatch, PollBatchMember, PollBatchOutcome, Database,
  SchedulerError, coverage_reconstruction, AdaptiveScheduler, CapacityDecision,
}
use pump_research.Scheduler.Selection.{
  minute, lateness_ms, time_bucket, in_flight, reserved, is_eligible, is_control, ordinary_before,
  control_before,
}
use pump_research.Scheduler.Advance.{update_schedule, advance_coverage_transitions}

pub record PollMemberClaim : Type 0 where
  pub token_id : ℕ
  pub address : ℕ
  pub lifecycle_state : LifecycleState
  pub coverage_class : CoverageClass
  pub due_at : ℕ
  pub claim_lateness_ms : ℕ
  pub previous_batch_id : Option ℕ
  pub capacity_decision_id : ℕ
  pub target_interval_seconds : ℕ
  pub effective_interval_seconds : ℕ

pub record PollBatchClaim : Type 0 where
  pub batch_id : ℕ
  pub chain : ℕ
  pub claimed_at : ℕ
  pub lease_expires_at : ℕ
  pub capacity_decision_id : ℕ
  pub batch_kind : BatchKind
  pub members : List PollMemberClaim

-- What one iteration of a claim's loop adds and writes.
pub record ClaimedRow : Type 0 where
  pub claim : PollMemberClaim
  pub member : PollBatchMember
  pub row : PollSchedule

pub claim_rows :
    (PollSchedule → Result SchedulerError ClaimedRow)
    → List PollSchedule
    → Database
    → Result SchedulerError (List PollMemberClaim × Database)
claim_rows one [] db = ok ([], db)
claim_rows one (s ∷ ss) db = do
  claimed ← one s
  rest ← claim_rows one ss (record db {
    members = db.members ++ claimed.member ∷ [];
    schedules = update_schedule claimed.row db.schedules;
  })
  ok (claimed.claim ∷ rest.0, rest.1)

abbrev pub claim_of : PollBatch → CapacityDecision → List PollMemberClaim → PollBatchClaim
claim_of batch capacity members = record {
  batch_id = batch.id;
  chain = batch.chain;
  claimed_at = batch.claimed_at;
  lease_expires_at = batch.lease_expires_at;
  capacity_decision_id = capacity.id;
  batch_kind = batch.batch_kind;
  members = members;
}

-- The rest of a claim once its batch is planned: nothing for no row, or the batch and its members.
pub claim_batch :
    PollBatch
    → CapacityDecision
    → (PollSchedule → Result SchedulerError ClaimedRow)
    → List PollSchedule
    → Database
    → Result SchedulerError (Option PollBatchClaim × Database)
unfolding claim_rows
claim_batch batch capacity one [] db = ok (none, db)
claim_batch batch capacity one (s ∷ ss) db = do
  claimed ← claim_rows one (s ∷ ss) (record db { batches = db.batches ++ batch ∷ [] })
  ok (some (claim_of batch capacity claimed.0), claimed.1)

pub window_claimed : ℕ → List PollBatch → Bool
window_claimed window [] = false
window_claimed window (b ∷ bs) =
    elim (b.control_window_start) [ none ↦ false | some start ↦ start == window ]
    || window_claimed window bs

module _ {Float : Type 0} (scheduler : AdaptiveScheduler Float) (now : ℕ)
    (collector_run_id : Option ℕ) (batch_id : ℕ) (capacity : CapacityDecision) where
  open scheduler use {policy, sha256, milliseconds}

  unfoldable pub has_batch_capacity : Database → Bool
  has_batch_capacity db =
      if leb policy.max_in_flight_batches (in_flight now db)
      then false
      else leb (reserved now db + 1) capacity.available_requests_per_minute

  pub planned_batch : (chain : ℕ) → BatchKind → (control_window_start : Option ℕ) → PollBatch
  planned_batch chain kind window = record {
    id = batch_id;
    collector_run_id = collector_run_id;
    chain = chain;
    claimed_at = now;
    lease_expires_at = now + policy.lease_duration;
    reserved_request_capacity = 1;
    batch_kind = kind;
    control_window_start = window;
    capacity_decision_id = some capacity.id;
    configuration_sha256 = sha256;
  }

  pub claimed_row : PollSchedule → CoverageClass → (due_at lateness priority : ℕ) → ClaimedRow
  claimed_row s coverage due_at lateness priority =
      let target = capacity.target_interval_seconds coverage in
      let effective = capacity.effective_interval_seconds coverage in
      record {
        claim = record {
          token_id = s.token_id;
          address = s.address;
          lifecycle_state = s.lifecycle_state;
          coverage_class = coverage;
          due_at = due_at;
          claim_lateness_ms = lateness;
          previous_batch_id = s.lease_id;
          capacity_decision_id = capacity.id;
          target_interval_seconds = target;
          effective_interval_seconds = effective;
        };
        member = record {
          claimed_at = now;
          batch_id = batch_id;
          token_id = s.token_id;
          due_at = due_at;
          lifecycle_state = s.lifecycle_state;
          coverage_class = coverage;
          priority = priority_for_coverage coverage;
          claim_lateness_ms = lateness;
          previous_batch_id = s.lease_id;
          capacity_decision_id = some capacity.id;
          target_interval_seconds = target;
          effective_interval_seconds = effective;
        };
        row = record s {
          lease_id = some batch_id;
          lease_expires_at = some (now + policy.lease_duration);
          last_started_at = some now;
          priority = priority;
          capacity_decision_id = some capacity.id;
          target_interval_seconds = some target;
          effective_interval_seconds = some effective;
          updated_at = now;
        };
      }

  -- The two errors stand for rows that the query excludes.
  pub claim_ordinary_row : PollSchedule → Result SchedulerError ClaimedRow
  unfolding claimed_row
  claim_ordinary_row s = elim (s.next_due_at) [
    | none ↦ err coverage_reconstruction
    | some due_at ↦ elim (s.coverage_class) [
      | none ↦ err coverage_reconstruction
      | some coverage ↦ ok (
          claimed_row s coverage due_at (lateness_ms milliseconds now due_at)
            (priority_for_coverage coverage))
    ]
  ]

  -- A control scan keeps the priority of the row.
  pub claim_control_row : PollSchedule → Result SchedulerError ClaimedRow
  unfolding claimed_row
  claim_control_row s = ok (claimed_row s retired_control now 0 s.priority)

  pub control_rows : (chain : ℕ) → List PollSchedule → List PollSchedule
  control_rows chain schedules =
      take policy.control_scan_tokens_per_minute
        (sort_by control_before (where_ (λ s. s.chain == chain && is_control now s) schedules))

  pub ordinary_rows : (chain : ℕ) → List PollSchedule → List PollSchedule
  ordinary_rows chain schedules =
      take policy.batch_size
        (sort_by ordinary_before (where_ (λ s. s.chain == chain && is_eligible now s) schedules))

  -- The batch for the chain of the first row of the query, if there is one.
  pub claim_control_from :
      (window : ℕ)
      → List PollSchedule
      → Database
      → Result SchedulerError (Option PollBatchClaim × Database)
  unfolding planned_batch claim_batch claim_control_row control_rows
  claim_control_from window [] db = ok (none, db)
  claim_control_from window (head ∷ _) db =
      claim_batch (planned_batch head.chain retired_control_kind (some window)) capacity
        claim_control_row (control_rows head.chain db.schedules) db

  pub claim_control_batch :
      (window : ℕ) → Database → Result SchedulerError (Option PollBatchClaim × Database)
  unfolding window_claimed claim_control_from
  claim_control_batch window db =
      if window_claimed window db.batches
      then ok (none, db)
      else claim_control_from window (sort_by control_before (where_ (is_control now) db.schedules))
          db

  pub claim_ordinary_from :
      (window : ℕ)
      → Bool
      → List PollSchedule
      → Database
      → Result SchedulerError (Option PollBatchClaim × Database)
  unfolding planned_batch claim_batch claim_ordinary_row ordinary_rows claim_control_batch
  claim_ordinary_from window true [] db = ok (none, db)
  claim_ordinary_from window false [] db = claim_control_batch window db
  claim_ordinary_from window control_claimed (head ∷ _) db =
      claim_batch (planned_batch head.chain ordinary none) capacity claim_ordinary_row
        (ordinary_rows head.chain db.schedules) db

  pub claim_ordinary :
      (window : ℕ) → Database → Result SchedulerError (Option PollBatchClaim × Database)
  unfolding claim_ordinary_from
  claim_ordinary window db =
      claim_ordinary_from window (window_claimed window db.batches)
        (sort_by ordinary_before (where_ (is_eligible now) db.schedules)) db

  pub claim_after_control :
      (window : ℕ)
      → Option PollBatchClaim × Database
      → Result SchedulerError (Option PollBatchClaim × Database)
  unfolding claim_ordinary
  claim_after_control window (none, db) = claim_ordinary window db
  claim_after_control window (some claim, db) = ok (some claim, db)

  -- The part of `claim_next_batch` after the capacity decision.
  unfoldable pub claim_planned : Database → Result SchedulerError (Option PollBatchClaim × Database)
  unfolding has_batch_capacity claim_after_control claim_control_batch window_claimed
  claim_planned db =
      let window = time_bucket now minute in
      if has_batch_capacity db
      then (if not (window_claimed window db.batches) && leb (window + 30_000_000) now
          then claim_control_batch window db >>= claim_after_control window
          else claim_ordinary window db)
      else ok (none, db)

-- The fuel is that of the transition loop.
unfoldable pub claim_next_batch :
    {Float : Type 0} (scheduler : AdaptiveScheduler Float)
    (capacity_decision : Database → Result SchedulerError CapacityDecision) (now : ℕ)
    (collector_run_id : Option ℕ) (batch_id fuel : ℕ)
    → Database
    → Result SchedulerError (Option PollBatchClaim × Database)
unfolding claim_planned
claim_next_batch scheduler capacity_decision now collector_run_id batch_id fuel db = do
  advanced ← advance_coverage_transitions scheduler now collector_run_id fuel db
  capacity ← capacity_decision advanced.1
  claim_planned scheduler now collector_run_id batch_id capacity advanced.1
