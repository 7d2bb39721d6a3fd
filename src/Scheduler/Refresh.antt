-- ===== src/Scheduler/Refresh.antt =====
-- src/pump_research/scheduling/scheduler.py: `_refresh_one_coverage`, which brings one schedule's
-- projection of its coverage up to a time.
pub mod Inversion
pub mod Progress
pub mod Constraints
use pump_research.Prelude.{
  ℕ, ◌+◌, ◌*◌, ◌/◌, ◌%◌, min, Bool, true, false, not, ◌&&◌, Option, none, some, Result, ok, err,
  ◌>>=◌, ltb, leb, if◌then◌else◌, is_some,
}
use pump_research.Coverage.{coverage_class_for, next_transition_at, interval_for_coverage}
use pump_research.Scheduler.Rows.{
  PollSchedule, CoverageDecision, ReasonCode, SchedulerError, policy_error, coverage_reconstruction,
  AdaptiveScheduler, CoverageClass, PolicyError, priority_for_coverage, same_class, same_option,
}

-- A `ValueError` of the policy passes through.
abbrev pub lift : {A : Type 0} → Result PolicyError A → Result SchedulerError A
lift (ok a) = ok a
lift (err e) = err (policy_error e)

-- `_earliest_timestamp` of two values.
abbrev pub earliest_timestamp : Option ℕ → Option ℕ → Option ℕ
earliest_timestamp none b = b
earliest_timestamp (some a) none = some a
earliest_timestamp (some a) (some b) = some (min a b)

-- The candidate coverage of a schedule is in force at a time, or is over.
abbrev pub candidate_active : PollSchedule → ℕ → Bool
candidate_active s now = elim (s.candidate_coverage_expires_at) [
  | none ↦ false
  | some expires ↦ ltb now expires && is_some s.candidate_coverage_interval_seconds
]

abbrev pub candidate_expired : PollSchedule → ℕ → Bool
candidate_expired s now = elim (s.candidate_coverage_expires_at) [
  | none ↦ false
  | some expires ↦ leb expires now
]

abbrev pub active_expiry : PollSchedule → ℕ → Option ℕ
active_expiry s now = if candidate_active s now then s.candidate_coverage_expires_at else none

-- `min(target or interval, interval)` for the candidate's interval, if it is in force.
abbrev candidate_target : Option ℕ → Option ℕ → Option ℕ
candidate_target target none = target
candidate_target none (some interval) = some interval
candidate_target (some t) (some interval) = some (min (if leb 1 t then t else interval) interval)

abbrev pub clear_if : Bool → Option ℕ → Option ℕ
clear_if true o = none
clear_if false o = o

abbrev pub candidate_priority : Bool → CoverageClass → ℕ
candidate_priority true coverage = min (priority_for_coverage coverage) 1
candidate_priority false coverage = priority_for_coverage coverage

abbrev in_seconds : Option ℕ → Option ℕ
in_seconds none = none
in_seconds (some interval) = some (interval / 1_000_000)

-- A due time that has passed is kept; another one is spread over the interval from `now`.
abbrev pub kept_or : Option ℕ → ℕ → ℕ → Option ℕ
kept_or none now fresh = some fresh
kept_or (some due) now fresh = if leb due now then some due else some fresh

module _ {Float : Type 0} (scheduler : AdaptiveScheduler Float) where
  open scheduler use {policy, sha256, coverage_sha256, coverage_digest}

  -- `_coverage_phase_microseconds`; a validated interval is at least a second.
  unfoldable pub coverage_phase_microseconds :
      (token_id : ℕ) → CoverageClass → (interval_seconds : ℕ) → ℕ
  coverage_phase_microseconds token_id coverage interval_seconds =
      coverage_digest token_id coverage % (interval_seconds * 1_000_000)

  refreshed_due : PollSchedule → (now : ℕ) → CoverageClass → Option ℕ → Option ℕ
  unfolding coverage_phase_microseconds
  refreshed_due s now coverage none = none
  refreshed_due s now coverage (some interval) =
      kept_or s.next_due_at now
        (now + coverage_phase_microseconds s.token_id coverage (interval / 1_000_000))

  refreshed_target : PollSchedule → (now : ℕ) → CoverageClass → Option ℕ
  refreshed_target s now coverage =
      candidate_target (in_seconds (interval_for_coverage policy coverage))
        (if candidate_active s now then s.candidate_coverage_interval_seconds else none)

  -- The row that the refresh writes.
  unfoldable pub refreshed :
      PollSchedule → (now : ℕ) → CoverageClass → (baseline : Option ℕ) → PollSchedule
  unfolding refreshed_due refreshed_target
  refreshed s now coverage baseline =
      let target = refreshed_target s now coverage in
      let expired = candidate_expired s now in
      record s {
        candidate_coverage_expires_at = clear_if expired s.candidate_coverage_expires_at;
        candidate_coverage_interval_seconds =
            clear_if expired s.candidate_coverage_interval_seconds;
        candidate_tier_event_id = clear_if expired s.candidate_tier_event_id;
        coverage_class = some coverage;
        coverage_decided_at = some now;
        coverage_next_transition_at = earliest_timestamp baseline (active_expiry s now);
        coverage_policy_sha256 = some coverage_sha256;
        priority = candidate_priority (candidate_active s now) coverage;
        next_due_at = refreshed_due s now coverage (interval_for_coverage policy coverage);
        target_interval_seconds = target;
        effective_interval_seconds = target;
        configuration_sha256 = sha256;
        updated_at = now;
      }

  -- The early return: nothing that the refresh would write has changed.
  unfoldable pub is_current :
      PollSchedule → (now : ℕ) → (stored coverage : CoverageClass) → Option ℕ → Bool
  is_current s now stored coverage baseline =
      same_class stored coverage
      && same_option s.coverage_policy_sha256 (some coverage_sha256)
      && not (candidate_expired s now)
      && same_option s.coverage_next_transition_at
          (earliest_timestamp baseline (active_expiry s now))

  -- The evidence of a change, for `_record_coverage_decision`.
  pub coverage_change :
      PollSchedule
      → (now admitted_at : ℕ) → CoverageClass
      → CoverageClass
      → ReasonCode
      → Option ℕ
      → PollSchedule
      → CoverageDecision
  coverage_change s now admitted_at previous coverage reason run t = record {
    token_id = s.token_id;
    collection_epoch_id = none;
    collector_run_id = run;
    previous_coverage_class = some previous;
    new_coverage_class = coverage;
    lifecycle_state = s.lifecycle_state;
    admitted_at = admitted_at;
    decided_at = now;
    coverage_effective_at = elim (s.coverage_next_transition_at) [
      | none ↦ now
      | some elapsed ↦ elapsed
    ];
    reason_code = reason;
    policy_sha256 = coverage_sha256;
    capacity_decision_id = none;
    target_interval_seconds = t.target_interval_seconds;
    effective_interval_seconds = t.effective_interval_seconds;
    next_due_at = t.next_due_at;
    lifecycle_state_decided_at = t.state_decided_at;
    coverage_next_transition_at = t.coverage_next_transition_at;
    batch_id = none;
    previous_lifecycle_state = none;
  }

  -- The policy's answers for a schedule.
  abbrev pub class_at : PollSchedule → (admitted_at at : ℕ) → Result SchedulerError CoverageClass
  class_at s admitted_at at =
      lift (coverage_class_for policy s.lifecycle_state admitted_at s.state_decided_at at)

  abbrev pub transition_at : PollSchedule → (admitted_at at : ℕ) → Result SchedulerError (Option ℕ)
  transition_at s admitted_at at =
      lift (next_transition_at policy s.lifecycle_state admitted_at s.state_decided_at at)

  refresh_mapped :
      PollSchedule
      → (now : ℕ) → ReasonCode
      → Option ℕ
      → (admitted_at : ℕ) → CoverageClass
      → Result SchedulerError (PollSchedule × Option CoverageDecision)
  unfolding refreshed is_current coverage_change
  refresh_mapped s now reason run admitted_at stored = do
    coverage ← class_at s admitted_at now
    baseline ← transition_at s admitted_at now
    let t = refreshed s now coverage baseline
    ok (
        if is_current s now stored coverage baseline
        then (s, none)
        else (t, some (coverage_change s now admitted_at stored coverage reason run t)))

  -- The new row, and the decision to record if the row changed.
  unfoldable pub refresh_one_coverage :
      PollSchedule
      → (now : ℕ) → ReasonCode
      → (collector_run_id : Option ℕ)
      → Result SchedulerError (PollSchedule × Option CoverageDecision)
  unfolding refresh_mapped
  refresh_one_coverage s now reason run = elim (s.admitted_at) [
    | none ↦ err coverage_reconstruction
    | some admitted_at ↦ elim (s.coverage_class) [
      | none ↦ err coverage_reconstruction
      | some stored ↦ refresh_mapped s now reason run admitted_at stored
    ]
  ]
