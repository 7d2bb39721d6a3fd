-- ===== src/Scheduler/Selection.antt =====
-- src/pump_research/scheduling/scheduler.py: which rows a claim may take, in which order, and the
-- work that is in flight.
use pump_research.Prelude.{
  ℕ, ◌+◌, ◌-◌, ◌*◌, ◌/◌, ◌%◌, Bool, true, false, not, ◌&&◌, ◌||◌, Option, none, some, List, [], ◌∷◌,
  ltb, leb, ◌==◌, if◌then◌else◌, length, select as where_, is_some,
}
use pump_research.Scheduler.Rows.{
  retired_control, PollSchedule, PollBatch, PollBatchOutcome, Database,
}

abbrev pub minute : ℕ
minute = 60_000_000

-- `_lateness_ms`; `milliseconds` is `int(seconds * 1_000)` for the seconds of a time difference,
-- which Python computes with floats.
abbrev pub lateness_ms : (milliseconds : ℕ → ℕ) (observed_at due_at : ℕ) → ℕ
lateness_ms milliseconds observed_at due_at =
    if leb observed_at due_at then 0 else milliseconds (observed_at - due_at)

-- `_time_bucket`

abbrev pub time_bucket : (value duration : ℕ) → ℕ
time_bucket value duration =
    (value / 1_000_000 - value / 1_000_000 % (duration / 1_000_000)) * 1_000_000

unfoldable pub has_outcome : PollBatch → List PollBatchOutcome → Bool
has_outcome b [] = false
has_outcome b (o ∷ os) = o.batch_id == b.id || has_outcome b os

abbrev pub is_in_flight : ℕ → List PollBatchOutcome → PollBatch → Bool
is_in_flight now outcomes b = not (has_outcome b outcomes) && ltb now b.lease_expires_at

unfoldable pub in_flight : ℕ → Database → ℕ
in_flight now db = length (where_ (is_in_flight now db.outcomes) db.batches)

-- `claimed_at > now - one minute`, with the minute on the other side.
abbrev pub is_recent : ℕ → PollBatch → Bool
is_recent now b = ltb now (b.claimed_at + minute) && leb b.claimed_at now

unfoldable pub sum_reserved : List PollBatch → ℕ
sum_reserved [] = 0
sum_reserved (b ∷ bs) = b.reserved_request_capacity + sum_reserved bs

unfoldable pub reserved : ℕ → Database → ℕ
unfolding sum_reserved
reserved now db = sum_reserved (where_ (is_recent now) db.batches)

-- `or_(lease_id.is_(None), lease_expires_at <= now)`
abbrev pub is_unleased : ℕ → PollSchedule → Bool
is_unleased now s =
    not (is_some s.lease_id)
    || elim (s.lease_expires_at) [ none ↦ false | some expires ↦ leb expires now ]

abbrev is_retired : PollSchedule → Bool
is_retired s = elim (s.coverage_class) [
  | none ↦ false
  | some retired_control ↦ true
  | some _ ↦ false
]

abbrev pub is_eligible : ℕ → PollSchedule → Bool
is_eligible now s =
    elim (s.next_due_at) [ none ↦ false | some due ↦ leb due now ]
    && is_some s.coverage_class
    && not (is_retired s)
    && is_unleased now s

abbrev pub is_control : ℕ → PollSchedule → Bool
is_control now s = is_retired s && is_unleased now s

-- Two columns that may be null, and the order of the rest where they agree.
abbrev nulls_last : Option ℕ → Option ℕ → Bool → Bool
nulls_last none none rest = rest
nulls_last none (some b) rest = false
nulls_last (some a) none rest = true
nulls_last (some a) (some b) rest = if ltb a b then true else if ltb b a then false else rest

abbrev nulls_first : Option ℕ → Option ℕ → Bool → Bool
nulls_first none none rest = rest
nulls_first none (some b) rest = true
nulls_first (some a) none rest = false
nulls_first (some a) (some b) rest = if ltb a b then true else if ltb b a then false else rest

-- ORDER BY priority, next_due_at, token_id
unfoldable pub ordinary_before : PollSchedule → PollSchedule → Bool
ordinary_before a b =
    if ltb a.priority b.priority
    then true
    else if ltb b.priority a.priority
    then false
    else nulls_last a.next_due_at b.next_due_at (leb a.token_id b.token_id)

-- ORDER BY last_control_scan_at NULLS FIRST, admitted_at, token_id
unfoldable pub control_before : PollSchedule → PollSchedule → Bool
control_before a b =
    nulls_first a.last_control_scan_at b.last_control_scan_at
      (nulls_last a.admitted_at b.admitted_at (leb a.token_id b.token_id))
