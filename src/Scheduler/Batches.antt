-- ===== src/Scheduler/Batches.antt =====
-- src/pump_research/scheduling/scheduler.py: what `complete_batch_in_session` reads, and whether the
-- batch has lost its lease.
use pump_research.Prelude.{
  ℕ, ◌+◌, min, max, Bool, true, false, not, ◌&&◌, ◌||◌, Option, none, some, List, [], ◌∷◌, Result,
  ok, err, ltb, leb, ◌==◌, if◌then◌else◌, length, select as where_,
}
use pump_research.Prelude.Sorting.{sort_by}
use pump_research.Scheduler.Rows.{
  CoverageClass, protected_active, protected_resurrected, protected_watch, initial, early, mature,
  fading_tail, fading_cool, cooled, long_tail_day, long_tail_week, retired_control, PollSchedule,
  PollBatch, PollBatchMember, PollBatchOutcome, SchedulerError, no_such_batch, no_such_token,
  invalid_interval, CapacityDecision, same_option,
}

unfoldable pub batch_of : ℕ → List PollBatch → Result SchedulerError PollBatch
batch_of id [] = err no_such_batch
batch_of id (b ∷ bs) = if b.id == id then ok b else batch_of id bs

unfoldable pub outcome_of : ℕ → List PollBatchOutcome → Option PollBatchOutcome
outcome_of id [] = none
outcome_of id (o ∷ os) = if o.batch_id == id then some o else outcome_of id os

unfoldable pub capacity_of : Option ℕ → List CapacityDecision → Option CapacityDecision
capacity_of none cs = none
capacity_of (some id) [] = none
capacity_of (some id) (c ∷ cs) = if c.id == id then some c else capacity_of (some id) cs

abbrev tiers : List CoverageClass
tiers =
    protected_active ∷ protected_resurrected ∷ protected_watch ∷ initial ∷ early ∷ mature
    ∷ fading_tail ∷ fading_cool ∷ cooled ∷ long_tail_day ∷ long_tail_week ∷ retired_control ∷ []

all_positive : (CoverageClass → ℕ) → List CoverageClass → Bool
all_positive intervals [] = true
all_positive intervals (tier ∷ rest) = leb 1 (intervals tier) && all_positive intervals rest

-- `_decision_intervals` and `_decision_target_intervals` of a decision that was found.
unfoldable pub decision_intervals :
    Option CapacityDecision → Result SchedulerError (Option CapacityDecision)
unfolding all_positive
decision_intervals none = ok none
decision_intervals (some c) =
    if all_positive c.effective_interval_seconds tiers
      && all_positive c.target_interval_seconds tiers
    then ok (some c)
    else err invalid_interval

-- ORDER BY priority, token_id
member_before : PollBatchMember → PollBatchMember → Bool
member_before a b =
    if ltb a.priority b.priority
    then true
    else if ltb b.priority a.priority
    then false
    else leb a.token_id b.token_id

unfoldable pub members_of : PollBatch → List PollBatchMember → List PollBatchMember
unfolding member_before
members_of batch ms =
    sort_by member_before
      (where_ (λ m. m.batch_id == batch.id && m.claimed_at == batch.claimed_at) ms)

unfoldable pub member_of : ℕ → List PollBatchMember → Result SchedulerError PollBatchMember
member_of token_id [] = err no_such_token
member_of token_id (m ∷ ms) = if m.token_id == token_id then ok m else member_of token_id ms

unfoldable pub is_member : List PollBatchMember → PollSchedule → Bool
is_member [] s = false
is_member (m ∷ ms) s = m.token_id == s.token_id || is_member ms s

-- `_lock_completion_schedules`
unfoldable pub schedules_of : List PollBatchMember → List PollSchedule → List PollSchedule
unfolding is_member
schedules_of ms ss = sort_by (λ a b. leb a.token_id b.token_id) (where_ (is_member ms) ss)

unfoldable pub schedule_of : ℕ → List PollSchedule → Option PollSchedule
schedule_of token_id [] = none
schedule_of token_id (s ∷ ss) = if s.token_id == token_id then some s else schedule_of token_id ss

-- A member whose schedule is missing cannot be here: the number of schedules was compared before.
unfoldable pub lost_member : ℕ → List PollSchedule → List PollBatchMember → Bool
unfolding schedule_of
lost_member batch_id ss [] = false
lost_member batch_id ss (m ∷ ms) =
    elim (schedule_of m.token_id ss) [
      | none ↦ true
      | some s ↦ not (same_option s.lease_id (some batch_id))
    ]
    || lost_member batch_id ss ms

unfoldable pub is_lost :
    PollBatch → (completed_at : ℕ) → List PollBatchMember → List PollSchedule → Bool
unfolding lost_member
is_lost batch completed_at ms ss =
    leb batch.lease_expires_at completed_at
    || not (length ss == length ms)
    || lost_member batch.id ss ms

unfoldable pub least : ℕ → List ℕ → ℕ
least n [] = n
least n (m ∷ ms) = min n (least m ms)

unfoldable pub greatest : ℕ → List ℕ → ℕ
greatest n [] = n
greatest n (m ∷ ms) = max n (greatest m ms)

unfoldable pub sum : List ℕ → ℕ
sum [] = 0
sum (n ∷ ns) = n + sum ns
