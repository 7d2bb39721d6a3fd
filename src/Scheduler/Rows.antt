-- ===== src/Scheduler/Rows.antt =====
-- src/pump_research/persistence/models.py and scheduling/scheduler.py: the rows that the scheduler
-- reads and writes, and what it raises. Identifiers and digests are numbers; a configuration
-- snapshot is written together with its digest and stands for it.
use pump_research.Prelude.{
  ap, ◌≢◌, ℕ, Option, List, none, some, Bool, ◌==◌, false, true, ◌≡◌, arith, is_some, ◌≤◌,
}
pub use pump_research.Coverage.{
  LifecycleState, new, active, watch, fading, dormant, resurrected, CoverageClass, protected_active,
  protected_resurrected, protected_watch, initial, early, mature, fading_tail, fading_cool, cooled,
  long_tail_day, long_tail_week, retired_control, priority_for_coverage, AdaptivePollingPolicy,
  PolicyError,
}

-- A row of `poll_schedules`, with the chain and the address of the token that it is joined to.
pub record PollSchedule : Type 0 where
  pub token_id : ℕ
  pub chain : ℕ
  pub address : ℕ
  pub lifecycle_state : LifecycleState
  pub state_decided_at : ℕ
  pub admitted_at : Option ℕ
  pub coverage_class : Option CoverageClass
  pub coverage_decided_at : Option ℕ
  pub coverage_next_transition_at : Option ℕ
  pub coverage_policy_sha256 : Option ℕ
  pub candidate_coverage_expires_at : Option ℕ
  pub candidate_coverage_interval_seconds : Option ℕ
  pub candidate_tier_event_id : Option ℕ
  pub priority : ℕ
  pub next_due_at : Option ℕ
  pub last_due_at : Option ℕ
  pub last_started_at : Option ℕ
  pub last_completed_at : Option ℕ
  pub attempt_count : ℕ
  pub last_control_scan_at : Option ℕ
  pub control_scan_count : ℕ
  pub lease_id : Option ℕ
  pub lease_expires_at : Option ℕ
  pub capacity_decision_id : Option ℕ
  pub target_interval_seconds : Option ℕ
  pub effective_interval_seconds : Option ℕ
  pub configuration_sha256 : ℕ
  pub updated_at : ℕ

pub data ReasonCode : Type 0 where
  coverage_boundary_elapsed coverage_time_advanced : ReasonCode
  coverage_boundary_observed_at_completion : ReasonCode
  epoch_start_legacy_reconstruction epoch_start_rebase : ReasonCode
  lifecycle_reason : ℕ → ReasonCode

-- A row of `coverage_decisions`; its idempotency key digests the seven fields that
-- `same_key` of `Scheduler.Decisions` compares. The last four fields are its detail,
-- of which some decisions have no entry for the lifecycle state before.
pub record CoverageDecision : Type 0 where
  pub token_id : ℕ
  pub collection_epoch_id : Option ℕ
  pub collector_run_id : Option ℕ
  pub previous_coverage_class : Option CoverageClass
  pub new_coverage_class : CoverageClass
  pub lifecycle_state : LifecycleState
  pub admitted_at : ℕ
  pub decided_at : ℕ
  pub coverage_effective_at : ℕ
  pub reason_code : ReasonCode
  pub policy_sha256 : ℕ
  pub capacity_decision_id : Option ℕ
  pub target_interval_seconds : Option ℕ
  pub effective_interval_seconds : Option ℕ
  pub next_due_at : Option ℕ
  pub lifecycle_state_decided_at : ℕ
  pub coverage_next_transition_at : Option ℕ
  pub batch_id : Option ℕ
  pub previous_lifecycle_state : Option (Option LifecycleState)

pub data SchedulerError : Type 0 where
  policy_error : PolicyError → SchedulerError
  coverage_reconstruction coverage_transition_progress lost_poll_lease : SchedulerError
  conflicting_states no_such_batch no_such_token no_such_run : SchedulerError
  decision_integrity invalid_interval empty_batch out_of_fuel duplicate_decision : SchedulerError

pub data BatchKind : Type 0 where
  ordinary retired_control_kind : BatchKind

-- A row of `poll_batches`. The provider is always DEX Screener.
pub record PollBatch : Type 0 where
  pub id : ℕ
  pub collector_run_id : Option ℕ
  pub chain : ℕ
  pub claimed_at : ℕ
  pub lease_expires_at : ℕ
  pub reserved_request_capacity : ℕ
  pub batch_kind : BatchKind
  pub control_window_start : Option ℕ
  pub capacity_decision_id : Option ℕ
  pub configuration_sha256 : ℕ

-- A row of `poll_batch_members`.
pub record PollBatchMember : Type 0 where
  pub claimed_at : ℕ
  pub batch_id : ℕ
  pub token_id : ℕ
  pub due_at : ℕ
  pub lifecycle_state : LifecycleState
  pub coverage_class : CoverageClass
  pub priority : ℕ
  pub claim_lateness_ms : ℕ
  pub previous_batch_id : Option ℕ
  pub capacity_decision_id : Option ℕ
  pub target_interval_seconds : ℕ
  pub effective_interval_seconds : ℕ

pub data PollOutcome : Type 0 where
  succeeded empty partial failed throttled malformed cancelled : PollOutcome

-- A row of `poll_batch_outcomes`; the mean of the latenesses is kept as the sum that
-- `member_count` divides.
pub record PollBatchOutcome : Type 0 where
  pub batch_id : ℕ
  pub api_request_log_id : Option ℕ
  pub outcome : PollOutcome
  pub completed_at : ℕ
  pub member_count : ℕ
  pub observation_lateness_min_ms : ℕ
  pub observation_lateness_max_ms : ℕ
  pub observation_lateness_sum_ms : ℕ
  pub configuration_sha256 : ℕ

-- `_CapacityDecision`, with the fields of its plan that the scheduler reads.
pub record CapacityDecision : Type 0 where
  pub id : ℕ
  pub available_requests_per_minute : ℕ
  pub target_interval_seconds : CoverageClass → ℕ
  pub effective_interval_seconds : CoverageClass → ℕ

-- A row of `tokens`, by what a schedule is joined to.
pub record Token : Type 0 where
  pub id : ℕ
  pub chain : ℕ
  pub address : ℕ

-- What the digest of a lifecycle decision is made of.
pub record PollScheduleKey : Type 0 where
  pub token_id : ℕ
  pub state : LifecycleState
  pub decided_at : ℕ
  pub policy_sha256 : ℕ
  pub reason_code : ReasonCode

-- The digest of a row of `poll_schedule_decisions`, as what it digests.
pub data ScheduleDecisionKey : Type 0 where
  lifecycle_key : PollScheduleKey → ScheduleDecisionKey
  epoch_rebase_key : (collection_epoch_id token_id : ℕ) → ScheduleDecisionKey

-- A row of `poll_schedule_decisions`.
pub record PollScheduleDecision : Type 0 where
  pub collection_epoch_id : Option ℕ
  pub token_id : ℕ
  pub idempotency_key : ScheduleDecisionKey
  pub previous_state : Option LifecycleState
  pub new_state : LifecycleState
  pub previous_due_at : Option ℕ
  pub new_due_at : Option ℕ
  pub decided_at : ℕ
  pub reason_code : ReasonCode
  pub capacity_decision_id : ℕ
  pub target_interval_seconds : ℕ
  pub effective_interval_seconds : ℕ
  pub configuration_sha256 : ℕ

-- The tables; a collector run is listed with its epoch, a coverage policy is its digest.
pub record Database : Type 0 where
  pub schedules : List PollSchedule
  pub batches : List PollBatch
  pub members : List PollBatchMember
  pub outcomes : List PollBatchOutcome
  pub coverage_policies : List ℕ
  pub coverage_decisions : List CoverageDecision
  pub collector_runs : List (ℕ × ℕ)
  pub capacity_decisions : List CapacityDecision
  pub tokens : List Token
  pub schedule_decisions : List PollScheduleDecision

-- One process's scheduler: its policy, the two digests of it, and the first eight bytes of the
-- digests that spread due times over an interval, and `int(seconds * 1_000)` for the seconds of a
-- number of microseconds, which Python computes with floats.
pub record AdaptiveScheduler (Float : Type 0) : Type 0 where
  pub policy : AdaptivePollingPolicy Float
  pub sha256 : ℕ
  pub coverage_sha256 : ℕ
  pub coverage_digest : (token_id : ℕ) → CoverageClass → ℕ
  pub epoch_digest : (collection_epoch_id token_id : ℕ) → ℕ
  pub milliseconds : ℕ → ℕ

abbrev pub class_code : CoverageClass → ℕ
class_code protected_active = 0
class_code protected_resurrected = 1
class_code protected_watch = 2
class_code initial = 3
class_code early = 4
class_code mature = 5
class_code fading_tail = 6
class_code fading_cool = 7
class_code cooled = 8
class_code long_tail_day = 9
class_code long_tail_week = 10
class_code retired_control = 11

abbrev state_code : LifecycleState → ℕ
state_code new = 0
state_code active = 1
state_code watch = 2
state_code fading = 3
state_code dormant = 4
state_code resurrected = 5

unfoldable pub same_state : LifecycleState → LifecycleState → Bool
same_state a b = state_code a == state_code b

pub same_state→eq : (a b : LifecycleState) → same_state a b ≡ true → a ≡ b
unfolding same_state
same_state→eq a b h = ground arith

pub same_state_refl : (a : LifecycleState) → same_state a a ≡ true
unfolding same_state
same_state_refl a = ground arith

-- `==` on the values of the enumeration.
unfoldable pub same_class : CoverageClass → CoverageClass → Bool
same_class a b = class_code a == class_code b

pub same_class→eq : (a b : CoverageClass) → same_class a b ≡ true → a ≡ b
unfolding same_class
same_class→eq a b h = ground arith

pub same_class_refl : (a : CoverageClass) → same_class a a ≡ true
unfolding same_class
same_class_refl a = ground arith

pub same_class-apart : (a b : CoverageClass) → same_class a b ≡ false → a ≢ b
unfolding same_class
same_class-apart a b h e = ground (arith, ap class_code e)

unfoldable pub same_option : Option ℕ → Option ℕ → Bool
same_option none none = true
same_option none (some b) = false
same_option (some a) none = false
same_option (some a) (some b) = a == b

pub same_option→eq : (a b : Option ℕ) → same_option a b ≡ true → a ≡ b
unfolding same_option
same_option→eq a b h = ground arith

pub same_option_refl : (a : Option ℕ) → same_option a a ≡ true
unfolding same_option
same_option_refl a = ground arith

-- What `poll_schedules` checks of a row, but for the signs of numbers: the projection of the
-- coverage, the lease and the candidate coverage are each there as a whole or not at all, and a
-- retired schedule has no due time.
pub record IsStored (s : PollSchedule) : Type 0 where
  pub projection_admitted : is_some s.coverage_class ≡ is_some s.admitted_at
  pub projection_decided : is_some s.coverage_class ≡ is_some s.coverage_decided_at
  pub projection_policy : is_some s.coverage_class ≡ is_some s.coverage_policy_sha256
  pub retired_not_due : s.coverage_class ≡ some retired_control → s.next_due_at ≡ none
  pub lease_pair : is_some s.lease_id ≡ is_some s.lease_expires_at
  pub candidate_interval :
      is_some s.candidate_coverage_expires_at ≡ is_some s.candidate_coverage_interval_seconds
  pub candidate_event : is_some s.candidate_coverage_expires_at ≡ is_some s.candidate_tier_event_id

-- The schedule is mapped, and a time predates neither its admission nor its lifecycle decision.
pub record IsMappedAt (now : ℕ) (s : PollSchedule) : Type 0 where
  pub admission : ℕ
  pub admitted : s.admitted_at ≡ some admission
  pub admitted_before : admission ≤ now
  pub decided_before : s.state_decided_at ≤ now
  pub class : CoverageClass
  pub mapped : s.coverage_class ≡ some class
