-- ===== src/Scheduler/Planning.antt =====
-- src/pump_research/scheduling/scheduler.py: `_capacity_decision`, which computes one capacity plan
-- for each time bucket and root transaction, and `_persist_capacity_decision`, which stores it. The
-- digests, the UUID of a digest and the JSON of a plan are arguments, with numbers as values. A
-- policy's digest stands for its snapshot, and the transaction does not change while a row is stored.
pub mod Readback
pub mod Identity
use pump_research.Prelude.{
  ℕ, ◌+◌, Bool, true, false, not, ◌&&◌, ◌||◌, Option, none, some, List, [], ◌∷◌, ◌++◌, Result, ok,
  err, ◌>>=◌, ◌==◌, if◌then◌else◌, is_some, select as where_,
}
use pump_research.Prelude.Int.{ℤ, pos}
use pump_research.Floats.{Floats}
use pump_research.Scheduler.Rows.{
  CoverageClass, PollSchedule, AdaptiveScheduler, same_class, same_option,
}
use pump_research.Scheduler.Selection.{time_bucket}
use pump_research.Scheduler.Decisions.{persist_coverage_policy}
use pump_research.Capacity.{CapacityMode, normal, degraded, critical, CapacityError}
use pump_research.Capacity.Plan.{CapacityPlan, plan_capacity}

pub data PlanningError : Type 0 where
  no_transaction integrity_error legacy_schedules : PlanningError
  not_planned : CapacityError → PlanningError

-- A row of `scheduler_capacity_decisions`; its snapshot is the policy's digest with the plan's.
pub record StoredDecision : Type 0 where
  pub id : ℕ
  pub idempotency_key : ℕ
  pub decided_at : ℕ
  pub capacity_mode : CapacityMode
  pub policy_sha256 : ℕ
  pub plan_snapshot : ℕ

pub record PlanningTables : Type 0 where
  pub schedules : List PollSchedule
  pub scheduler_policies : List ℕ
  pub capacity_decisions : List StoredDecision

abbrev mode_code : CapacityMode → ℕ
mode_code normal = 0
mode_code degraded = 1
mode_code critical = 2

unfoldable pub same_mode : CapacityMode → CapacityMode → Bool
same_mode a b = mode_code a == mode_code b

-- The comparison of `actual` and `expected`.
unfoldable pub same_stored : StoredDecision → StoredDecision → Bool
same_stored a b =
    a.id == b.id
    && a.idempotency_key == b.idempotency_key
    && a.decided_at == b.decided_at
    && same_mode a.capacity_mode b.capacity_mode
    && a.policy_sha256 == b.policy_sha256
    && a.plan_snapshot == b.plan_snapshot

-- The identifier or the key of the row.
unfoldable pub same_identity : StoredDecision → StoredDecision → Bool
same_identity d e = e.id == d.id || e.idempotency_key == d.idempotency_key

unfoldable pub insert_stored : StoredDecision → List StoredDecision → List StoredDecision
insert_stored d [] = d ∷ []
insert_stored d (e ∷ es) =
    let rest = insert_stored d es in if same_identity d e then e ∷ es else e ∷ rest

-- The semantic readback of the rows found.
unfoldable pub is_readback : StoredDecision → List StoredDecision → Bool
is_readback d [] = false
is_readback d (e ∷ []) = same_stored e d
is_readback d (e ∷ f ∷ es) = false

unfoldable pub persist_row : StoredDecision → PlanningTables → Result PlanningError PlanningTables
persist_row d t =
    let rows = insert_stored d t.capacity_decisions in
    if is_readback d (where_ (same_identity d) rows)
    then ok (record t {
      scheduler_policies = persist_coverage_policy d.policy_sha256 t.scheduler_policies;
      capacity_decisions = rows;
    })
    else err integrity_error

-- The count of a class; `_capacity_counts` raises where a schedule has none.
unfoldable pub all_mapped : List PollSchedule → Bool
all_mapped [] = true
all_mapped (s ∷ ss) = is_some s.coverage_class && all_mapped ss

unfoldable pub count_of : CoverageClass → List PollSchedule → ℕ
count_of tier [] = 0
count_of tier (s ∷ ss) =
    elim (s.coverage_class) [ none ↦ 0 | some coverage ↦ if same_class coverage tier then 1 else 0 ]
    + count_of tier ss

unfoldable pub capacity_counts : PlanningTables → Result PlanningError (CoverageClass → ℤ)
capacity_counts t =
    if all_mapped t.schedules
    then ok (λ tier. pos (count_of tier t.schedules))
    else err legacy_schedules

-- `_CapacityDecision`
pub record Decision (Float : Type 0) : Type 0 where
  pub id : ℕ
  pub decided_at : ℕ
  pub plan : CapacityPlan Float

-- The cache of a process's scheduler.
pub record Cache (Float : Type 0) : Type 0 where
  pub capacity_bucket : Option ℕ
  pub capacity_decision : Option (Decision Float)

-- `_CapacityDecisionTransactionOwner`
pub record Owner (Float : Type 0) : Type 0 where
  pub transaction : ℕ
  pub policy_sha256 : ℕ
  pub decision : Decision Float

-- A database session: its root transaction, if one is active, and the owner in its `info`.
pub record Session (Float : Type 0) : Type 0 where
  pub transaction : Option ℕ
  pub owner : Option (Owner Float)

pub record PlanningState (Float : Type 0) : Type 0 where
  pub cache : Cache Float
  pub session : Session Float
  pub tables : PlanningTables

abbrev lift_plan : {A : Type 0} → Result CapacityError A → Result PlanningError A
lift_plan (ok a) = ok a
lift_plan (err e) = err (not_planned e)

-- The decision that the root transaction froze.
unfoldable pub frozen :
    {Float : Type 0} → (transaction : ℕ) → Option (Owner Float) → Option (Owner Float)
frozen transaction none = none
frozen transaction (some owner) = if owner.transaction == transaction then some owner else none

module _ (F : Floats) (sum : List F.Float → F.Float) (snapshot : CapacityPlan F.Float → ℕ)
    (digest : (bucket policy_sha256 plan_snapshot : ℕ) → ℕ) (uuid5 : ℕ → ℕ)
    (scheduler : AdaptiveScheduler F.Float) where
  unfoldable pub capacity_idempotency_key : (bucket : ℕ) → CapacityPlan F.Float → ℕ
  capacity_idempotency_key bucket plan = digest bucket scheduler.sha256 (snapshot plan)

  unfoldable pub row_of : Decision F.Float → StoredDecision
  row_of d = record {
    id = d.id;
    idempotency_key = capacity_idempotency_key d.decided_at d.plan;
    decided_at = d.decided_at;
    capacity_mode = d.plan.mode;
    policy_sha256 = scheduler.sha256;
    plan_snapshot = snapshot d.plan;
  }

  unfoldable pub persist_capacity_decision :
      Decision F.Float → PlanningTables → Result PlanningError PlanningTables
  persist_capacity_decision d t = persist_row (row_of d) t

  unfoldable pub new_decision :
      (bucket : ℕ) → PlanningTables → Result PlanningError (Decision F.Float)
  new_decision bucket t = do
    counts ← capacity_counts t
    plan ← lift_plan (plan_capacity F sum scheduler.policy counts)
    ok (record {
      id = uuid5 (capacity_idempotency_key bucket plan);
      decided_at = bucket;
      plan = plan;
    })

  -- The cached decision, if it is of the bucket, or a new one.
  unfoldable pub bucket_decision :
      (bucket : ℕ) → Cache F.Float → PlanningTables → Result PlanningError (Decision F.Float)
  bucket_decision bucket cache t = elim (cache.capacity_decision) [
    | none ↦ new_decision bucket t
    | some cached ↦
        if same_option cache.capacity_bucket (some bucket) then ok cached else new_decision bucket t
  ]

  unfoldable pub decide_bucket :
      (now transaction : ℕ)
      → PlanningState F.Float
      → Result PlanningError (Decision F.Float × PlanningState F.Float)
  decide_bucket now transaction s = do
    let bucket = time_bucket now scheduler.policy.capacity_refresh
    d ← bucket_decision bucket s.cache s.tables
    tables ← persist_capacity_decision d s.tables
    ok (
      d,
      record {
        cache = record { capacity_bucket = some bucket; capacity_decision = some d };
        session = record {
          transaction = some transaction;
          owner = some (record {
            transaction = transaction;
            policy_sha256 = scheduler.sha256;
            decision = d;
          });
        };
        tables = tables;
      },
    )

  unfoldable pub repeat_decision :
      Owner F.Float
      → PlanningState F.Float
      → Result PlanningError (Decision F.Float × PlanningState F.Float)
  repeat_decision owner s =
      if not (owner.policy_sha256 == scheduler.sha256)
      then err integrity_error
      else persist_capacity_decision owner.decision s.tables >>= λ tables.
          ok (owner.decision, record s { tables = tables })

  unfoldable pub decide_owned :
      (now transaction : ℕ)
      → Option (Owner F.Float)
      → PlanningState F.Float
      → Result PlanningError (Decision F.Float × PlanningState F.Float)
  decide_owned now transaction none s = decide_bucket now transaction s
  decide_owned now transaction (some owner) s = repeat_decision owner s

  unfoldable pub decide_in :
      (now : ℕ)
      → Option ℕ
      → PlanningState F.Float
      → Result PlanningError (Decision F.Float × PlanningState F.Float)
  decide_in now none s = err no_transaction
  decide_in now (some transaction) s =
      decide_owned now transaction (frozen transaction s.session.owner) s

  unfoldable pub capacity_decision :
      (now : ℕ)
      → PlanningState F.Float
      → Result PlanningError (Decision F.Float × PlanningState F.Float)
  capacity_decision now s = decide_in now s.session.transaction s
