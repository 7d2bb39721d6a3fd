-- ===== src/Scheduler/Steps.antt =====
-- src/pump_research/scheduling/scheduler.py as a state machine: the transactions on the tables, by
-- schedulers whose policies may differ.
use pump_research.Prelude.{ℕ, ◌≡◌, sym, subst, Option, List, [], Result, ok, All}
use pump_research.Scheduler.Rows.{
  LifecycleState, PollSchedule, PollOutcome, ReasonCode, Database, SchedulerError,
  AdaptiveScheduler, CapacityDecision, IsStored,
}
use pump_research.Scheduler.Apply.{set_lifecycle_state_in_session}
use pump_research.Scheduler.Apply.Outcome.{set_lifecycle_state_in_session-IsStored}
use pump_research.Scheduler.Claim.{PollBatchClaim, claim_next_batch}
use pump_research.Scheduler.Claim.Stored.{claim_next_batch-AreStored}
use pump_research.Scheduler.Rebase.{LifecycleRow, initialize_epoch_in_session}
use pump_research.Scheduler.Rebase.Outcome.{initialize_epoch_in_session-IsStored}
use pump_research.Scheduler.Complete.{PollCompletion, complete_batch_in_session}
use pump_research.Scheduler.Complete.Constraints.{complete_batch_in_session-IsStored}

module _ (Float : Type 0) where
  pub data Step (db db' : Database) : Type 0 where
    decides :
        (scheduler : AdaptiveScheduler Float)
        (plan : Database → Result SchedulerError CapacityDecision) (state : LifecycleState)
        (decided_at : ℕ) (reason : ReasonCode) (run : Option ℕ) (token_id : ℕ)
        (admitted_at : Option ℕ) (r : PollSchedule)
        → set_lifecycle_state_in_session scheduler plan state decided_at reason run token_id
            admitted_at db
          ≡ ok (r, db')
        → Step db db'
    claims :
        (scheduler : AdaptiveScheduler Float)
        (plan : Database → Result SchedulerError CapacityDecision) (now : ℕ) (run : Option ℕ)
        (batch_id fuel : ℕ) (c : Option PollBatchClaim)
        → claim_next_batch scheduler plan now run batch_id fuel db ≡ ok (c, db')
        → Step db db'
    completes :
        (scheduler : AdaptiveScheduler Float) (now batch_id : ℕ) (outcome : PollOutcome)
        (log : Option ℕ) (r : PollCompletion)
        → complete_batch_in_session scheduler now batch_id outcome log db ≡ ok (r, db')
        → Step db db'
    starts_epoch :
        (scheduler : AdaptiveScheduler Float) (events : List LifecycleRow)
        (plan : Database → Result SchedulerError CapacityDecision) (epoch_id started_at n : ℕ)
        → initialize_epoch_in_session scheduler events plan epoch_id started_at db ≡ ok (n, db')
        → Step db db'

  -- The states that start without schedules.
  pub data Reach : Database → Type 0 where
    unscheduled : (db : Database) → db.schedules ≡ [] → Reach db
    later : {db db' : Database} → Reach db → Step db db' → Reach db'

  Step-IsStored :
      {db db' : Database} → Step db db' → All IsStored db.schedules → All IsStored db'.schedules
  Step-IsStored {db} (decides scheduler plan state at reason run token admitted r e) h =
      set_lifecycle_state_in_session-IsStored scheduler plan state at reason run token admitted db h
        e
  Step-IsStored {db} (claims scheduler plan now run id fuel c e) h =
      claim_next_batch-AreStored scheduler plan now run id fuel db h e
  Step-IsStored {db} (completes scheduler now id outcome log r e) h =
      complete_batch_in_session-IsStored scheduler now id outcome log db h e
  Step-IsStored {db} (starts_epoch scheduler events plan id at n e) h =
      initialize_epoch_in_session-IsStored scheduler events plan id at db h e

  -- In every state that lifecycle decisions, claims, completions and epoch starts reach from tables without
  -- schedules, every schedule satisfies the constraints of the table: its coverage projection, its
  -- lease and its candidate coverage are whole or absent, and a retired schedule is never due.
  pub Reach-IsStored : {db : Database} → Reach db → All IsStored db.schedules
  Reach-IsStored (unscheduled db e) = subst (All IsStored) (sym e) tt
  Reach-IsStored (later r step) = Step-IsStored step (Reach-IsStored r)
