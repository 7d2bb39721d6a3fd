-- ===== src/Admission.antt =====
-- src/pump_research/persistence/repositories.py: `DexAvailabilityTaskRepository`, the leased tasks of
-- tokens that wait for their first DEX pair. Times are in microseconds, and a new lease has its
-- identifier from an argument.
pub mod Keys
pub mod Steps
pub mod Leases
pub mod Samples
use pump_research.Prelude.{
  ℕ, suc, ◌+◌, Bool, true, false, not, ◌&&◌, ◌||◌, Option, none, some, List, [], ◌∷◌, ◌++◌, Result,
  ok, err, ltb, leb, ◌==◌, if◌then◌else◌, length, take, map, select as where_,
}
use pump_research.Prelude.Sorting.{sort_by}
use pump_research.Scheduler.Rows.{same_option}

pub data TaskState : Type 0 where
  pending_dex new : TaskState

-- A row of `dex_availability_tasks`, with the chain and the address of its token.
pub record DexAvailabilityTask : Type 0 where
  pub token_id : ℕ
  pub chain : ℕ
  pub address : ℕ
  pub state : TaskState
  pub next_check_at : ℕ
  pub last_checked_at : Option ℕ
  pub attempt_count : ℕ
  pub lease_id : Option ℕ
  pub lease_expires_at : Option ℕ
  pub updated_at : ℕ

pub record DexAvailabilityClaim : Type 0 where
  pub token_id : ℕ
  pub chain : ℕ
  pub address : ℕ
  pub lease_id : ℕ

pub data AdmissionError : Type 0 where
  limit_too_small lease_not_positive lease_not_owned task_not_found : AdmissionError

unfoldable pub is_pending : TaskState → Bool
is_pending pending_dex = true
is_pending new = false

unfoldable pub task_of : ℕ → List DexAvailabilityTask → Option DexAvailabilityTask
task_of id [] = none
task_of id (t ∷ ts) = if t.token_id == id then some t else task_of id ts

unfoldable pub pending_task : (token_id chain address due_at : ℕ) → DexAvailabilityTask
pending_task token_id chain address due_at = record {
  token_id = token_id;
  chain = chain;
  address = address;
  state = pending_dex;
  next_check_at = due_at;
  last_checked_at = none;
  attempt_count = 0;
  lease_id = none;
  lease_expires_at = none;
  updated_at = due_at;
}

-- The task, whether it was inserted, and the table.
unfoldable pub create_pending_if_absent :
    (token_id chain address due_at : ℕ)
    → List DexAvailabilityTask
    → (DexAvailabilityTask × Bool) × List DexAvailabilityTask
create_pending_if_absent token_id chain address due_at tasks =
    let fresh = pending_task token_id chain address due_at in
    elim (task_of token_id tasks) [
      | some t ↦ ((t, false), tasks)
      | none ↦ ((fresh, true), tasks ++ fresh ∷ [])
    ]

-- No lease, or one that has expired: NULL compares as false.
unfoldable pub is_unleased : ℕ → DexAvailabilityTask → Bool
is_unleased now t =
    elim (t.lease_id) [ none ↦ true | some _ ↦ false ]
    || elim (t.lease_expires_at) [ none ↦ false | some expires ↦ leb expires now ]

unfoldable pub is_claimable : ℕ → DexAvailabilityTask → Bool
is_claimable now t = is_pending t.state && leb t.next_check_at now && is_unleased now t

-- ORDER BY next_check_at, token_id
unfoldable pub check_before : DexAvailabilityTask → DexAvailabilityTask → Bool
check_before a b =
    if ltb a.next_check_at b.next_check_at
    then true
    else if ltb b.next_check_at a.next_check_at
    then false
    else leb a.token_id b.token_id

unfoldable pub due_tasks : (now limit : ℕ) → List DexAvailabilityTask → List DexAvailabilityTask
due_tasks now limit tasks = take limit (sort_by check_before (where_ (is_claimable now) tasks))

unfoldable pub task_in : List DexAvailabilityTask → DexAvailabilityTask → Bool
task_in [] t = false
task_in (r ∷ rs) t = r.token_id == t.token_id || task_in rs t

unfoldable pub leased : (lease_id expires_at now : ℕ) → DexAvailabilityTask → DexAvailabilityTask
leased lease_id expires_at now t = record t {
  lease_id = some lease_id;
  lease_expires_at = some expires_at;
  updated_at = now;
}

-- An UPDATE of the rows that pass a test.
unfoldable pub update_tasks :
    (DexAvailabilityTask → Bool)
    → (DexAvailabilityTask → DexAvailabilityTask)
    → List DexAvailabilityTask
    → List DexAvailabilityTask
update_tasks test change [] = []
update_tasks test change (t ∷ ts) = (if test t then change t else t) ∷ update_tasks test change ts

unfoldable pub claim_of : (lease_id : ℕ) → DexAvailabilityTask → DexAvailabilityClaim
claim_of lease_id t = record {
  token_id = t.token_id;
  chain = t.chain;
  address = t.address;
  lease_id = lease_id;
}

unfoldable pub claim_due :
    (lease_id now limit lease_duration : ℕ)
    → List DexAvailabilityTask
    → Result AdmissionError (List DexAvailabilityClaim × List DexAvailabilityTask)
claim_due lease_id now limit lease_duration tasks =
    if ltb limit 1
    then err limit_too_small
    else if leb lease_duration 0
    then err lease_not_positive
    else (let rows = due_tasks now limit tasks in
        ok (
          map (claim_of lease_id) rows,
          update_tasks (task_in rows) (leased lease_id (now + lease_duration) now) tasks,
        ))

unfoldable pub listed : ℕ → List ℕ → Bool
listed id [] = false
listed id (n ∷ ns) = n == id || listed id ns

unfoldable pub is_owned : (token_ids : List ℕ) → (lease_id : ℕ) → DexAvailabilityTask → Bool
is_owned token_ids lease_id t =
    listed t.token_id token_ids && same_option t.lease_id (some lease_id) && is_pending t.state

unfoldable pub completed :
    (checked_at : ℕ) → TaskState → (next_check_at : ℕ) → DexAvailabilityTask → DexAvailabilityTask
completed checked_at state next_check_at t = record t {
  state = state;
  next_check_at = next_check_at;
  last_checked_at = some checked_at;
  attempt_count = t.attempt_count + 1;
  lease_id = none;
  lease_expires_at = none;
  updated_at = checked_at;
}

-- `_complete`: the tasks that it completes, and the table.
unfoldable pub complete :
    (token_ids : List ℕ)
    → (lease_id checked_at : ℕ) → TaskState
    → (next_check_at : ℕ) → List DexAvailabilityTask
    → Result AdmissionError (List DexAvailabilityTask × List DexAvailabilityTask)
complete [] lease_id checked_at state next_check_at tasks = ok ([], tasks)
complete (id ∷ ids) lease_id checked_at state next_check_at tasks =
    let owned = where_ (is_owned (id ∷ ids) lease_id) tasks in
    if not (length owned == length (id ∷ ids))
    then err lease_not_owned
    else ok (
      map (completed checked_at state next_check_at) owned,
      update_tasks (is_owned (id ∷ ids) lease_id) (completed checked_at state next_check_at) tasks,
    )

unfoldable pub complete_with_retry :
    (token_ids : List ℕ)
    → (lease_id checked_at retry_at : ℕ) → List DexAvailabilityTask
    → Result AdmissionError (List DexAvailabilityTask × List DexAvailabilityTask)
complete_with_retry token_ids lease_id checked_at retry_at tasks =
    complete token_ids lease_id checked_at pending_dex retry_at tasks

unfoldable pub complete_as_new :
    (token_ids : List ℕ)
    → (lease_id checked_at : ℕ) → List DexAvailabilityTask
    → Result AdmissionError (List DexAvailabilityTask × List DexAvailabilityTask)
complete_as_new token_ids lease_id checked_at tasks =
    complete token_ids lease_id checked_at new checked_at tasks

unfoldable pub get :
    (token_id : ℕ) → List DexAvailabilityTask → Result AdmissionError DexAvailabilityTask
get token_id tasks = elim (task_of token_id tasks) [ none ↦ err task_not_found | some t ↦ ok t ]
