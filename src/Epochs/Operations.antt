-- ===== src/Epochs/Operations.antt =====
-- src/pump_research/epochs.py: `create_epoch`, `start_epoch_with_result`, `close_epoch` and the two
-- readers, each as one transaction.
use pump_research.Prelude.{
  ℕ, true, false, not, Option, none, some, List, [], ◌∷◌, Result, ok, err, ◌>>=◌, leb, ◌==◌,
  if◌then◌else◌,
}
use pump_research.Prelude.Sorting.{sort_by}
use pump_research.Prelude.Text.{Text}
use pump_research.Epochs.{
  EpochStatusName, planned, running, invalid, same_status, is_terminal, EpochName, given, numbered,
  EpochReason, declared_before_collection, first_run_started, closing, CollectionEpoch,
  CollectionEpochEvent, CollectionEpochCurrent, EpochTables, EpochStatus, EpochStartResult,
  EpochError, not_positive, already_exists, does_not_exist, is_invalid, not_startable,
  another_running, close_status, not_running, collector_running, Datetime, normalize_now,
  epoch_numbered, current_of, insert_epoch, insert_event, insert_current, update_current,
  another_is_running, has_active_run, status_of, locked_epoch,
}

-- What the caller of `create_epoch` gives, and what the database, the settings and `git` answer.
pub record Declaration : Type 0 where
  pub epoch_number : ℕ
  pub purpose : Text
  pub name : Option Text
  pub epoch_id : ℕ
  pub event_id : ℕ
  pub configuration_sha256 : ℕ
  pub code_revision : Option Text

-- `name or f"Epoch {epoch_number}"`
unfoldable pub name_or_number : Option Text → ℕ → EpochName
name_or_number none n = numbered n
name_or_number (some []) n = numbered n
name_or_number (some (x ∷ xs)) n = given (x ∷ xs)

unfoldable pub declared_epoch : Declaration → (occurred_at : ℕ) → CollectionEpoch
declared_epoch d occurred_at = record {
  id = d.epoch_id;
  epoch_number = d.epoch_number;
  name = name_or_number d.name d.epoch_number;
  purpose = d.purpose;
  data_valid = true;
  invalid_reason = none;
  configuration_sha256 = d.configuration_sha256;
  code_revision = d.code_revision;
  created_at = occurred_at;
}

unfoldable pub declared_current : Declaration → (occurred_at : ℕ) → CollectionEpochCurrent
declared_current d occurred_at = record {
  collection_epoch_id = d.epoch_id;
  status = planned;
  data_valid = true;
  invalid_reason = none;
  started_at = none;
  ended_at = none;
  latest_event_id = d.event_id;
  updated_at = occurred_at;
}

unfoldable pub event_of :
    (id : ℕ) → CollectionEpoch → EpochStatusName → ℕ → EpochReason → CollectionEpochEvent
event_of id e status occurred_at reason = record {
  id = id;
  collection_epoch_id = e.id;
  status = status;
  occurred_at = occurred_at;
  reason = reason;
  epoch_number = e.epoch_number;
}

unfoldable pub insert_declared :
    Declaration → (occurred_at : ℕ) → EpochTables → Result EpochError (EpochStatus × EpochTables)
insert_declared d occurred_at t =
    let epoch = declared_epoch d occurred_at in
    let current = declared_current d occurred_at in
    do
      t ← insert_epoch epoch t
      t ← insert_event (event_of d.event_id epoch planned occurred_at declared_before_collection) t
      t ← insert_current current t
      ok (status_of epoch current, t)

unfoldable pub create_epoch :
    (clock : ℕ)
    → Declaration
    → (now : Option Datetime) → EpochTables
    → Result EpochError (EpochStatus × EpochTables)
create_epoch clock d now t =
    if not (leb 1 d.epoch_number)
    then err not_positive
    else (elim (epoch_numbered d.epoch_number t.epochs) [
      | some _ ↦ err already_exists
      | none ↦ do occurred_at ← normalize_now clock now; insert_declared d occurred_at t
    ])

-- The values of the UPDATE that starts an epoch.
unfoldable pub started :
    (event_id occurred_at : ℕ) → CollectionEpochCurrent → CollectionEpochCurrent
started event_id occurred_at c = record c {
  status = running;
  started_at = some occurred_at;
  latest_event_id = event_id;
  updated_at = occurred_at;
}

unfoldable pub start_planned :
    (event_id occurred_at : ℕ)
    → CollectionEpoch
    → EpochTables
    → Result EpochError (EpochStartResult × EpochTables)
start_planned event_id occurred_at e t = do
  t ← insert_event (event_of event_id e running occurred_at first_run_started) t
  ok (
    record { epoch = e; started_now = true },
    record t { currents = update_current e.id (started event_id occurred_at) t.currents },
  )

unfoldable pub start_locked :
    (clock event_id : ℕ)
    → Datetime
    → CollectionEpoch
    → CollectionEpochCurrent
    → EpochTables
    → Result EpochError (EpochStartResult × EpochTables)
start_locked clock event_id now e c t =
    if not c.data_valid
    then err is_invalid
    else if same_status c.status running
    then ok (record { epoch = e; started_now = false }, t)
    else if not (same_status c.status planned)
    then err not_startable
    else if another_is_running e.id t.currents
    then err another_running
    else normalize_now clock (some now) >>= λ occurred_at. start_planned event_id occurred_at e t

-- `event_id` is the identifier of the event, if one is inserted.
unfoldable pub start_epoch_with_result :
    (clock event_id epoch_number : ℕ)
    → (now : Datetime) → EpochTables
    → Result EpochError (EpochStartResult × EpochTables)
start_epoch_with_result clock event_id epoch_number now t = do
  (e, c) ← locked_epoch epoch_number t
  start_locked clock event_id now e c t

unfoldable pub invalid_reason_of : EpochStatusName → Text → Option EpochReason
invalid_reason_of status reason = if same_status status invalid then some (closing reason) else none

-- The values of the UPDATE that closes an epoch.
unfoldable pub closed :
    (event_id occurred_at : ℕ)
    → EpochStatusName
    → Text
    → CollectionEpochCurrent
    → CollectionEpochCurrent
closed event_id occurred_at status reason c = record c {
  status = status;
  data_valid = not (same_status status invalid);
  invalid_reason = invalid_reason_of status reason;
  ended_at = some occurred_at;
  latest_event_id = event_id;
  updated_at = occurred_at;
}

unfoldable pub close_running :
    (event_id occurred_at : ℕ)
    → EpochStatusName
    → Text
    → CollectionEpoch
    → CollectionEpochCurrent
    → EpochTables
    → Result EpochError (EpochStatus × EpochTables)
close_running event_id occurred_at status reason e c t = do
  t ← insert_event (event_of event_id e status occurred_at (closing reason)) t
  ok (
    status_of e (record c {
      status = status;
      data_valid = not (same_status status invalid);
      invalid_reason = invalid_reason_of status reason;
      ended_at = some occurred_at;
    }),
    record t {
      currents = update_current e.id (closed event_id occurred_at status reason) t.currents;
    },
  )

unfoldable pub close_locked :
    (clock event_id : ℕ)
    → EpochStatusName
    → Text
    → Option Datetime
    → CollectionEpoch
    → CollectionEpochCurrent
    → EpochTables
    → Result EpochError (EpochStatus × EpochTables)
close_locked clock event_id status reason now e c t =
    if not (same_status c.status running)
    then err not_running
    else if has_active_run e.id t.runs
    then err collector_running
    else normalize_now clock now >>= λ occurred_at.
        close_running event_id occurred_at status reason e c t

unfoldable pub close_epoch :
    (clock event_id epoch_number : ℕ)
    → EpochStatusName
    → (reason : Text) → (now : Option Datetime) → EpochTables
    → Result EpochError (EpochStatus × EpochTables)
close_epoch clock event_id epoch_number status reason now t =
    if not (is_terminal status)
    then err close_status
    else locked_epoch epoch_number t >>= λ (e, c).
        close_locked clock event_id status reason now e c t

-- The join of the declarations with their current rows.
unfoldable pub joined : List CollectionEpochCurrent → List CollectionEpoch → List EpochStatus
joined cs [] = []
joined cs (e ∷ es) =
    let rest = joined cs es in
    elim (current_of e.id cs) [ none ↦ rest | some c ↦ status_of e c ∷ rest ]

-- ORDER BY epoch_number
unfoldable pub list_epochs : EpochTables → List EpochStatus
list_epochs t = sort_by (λ a b. leb a.epoch_number b.epoch_number) (joined t.currents t.epochs)

-- ORDER BY epoch_number DESC LIMIT 1
unfoldable pub first_status : List EpochStatus → Result EpochError EpochStatus
first_status [] = err does_not_exist
first_status (s ∷ ss) = ok s

unfoldable pub numbered_in : ℕ → List EpochStatus → List EpochStatus
numbered_in n [] = []
numbered_in n (s ∷ ss) =
    let rest = numbered_in n ss in if s.epoch_number == n then s ∷ rest else rest

unfoldable pub get_epoch_status : Option ℕ → EpochTables → Result EpochError EpochStatus
get_epoch_status none t =
    first_status (sort_by (λ a b. leb b.epoch_number a.epoch_number) (joined t.currents t.epochs))
get_epoch_status (some n) t = first_status (
    sort_by (λ a b. leb b.epoch_number a.epoch_number) (numbered_in n (joined t.currents t.epochs)))
