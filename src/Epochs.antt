-- ===== src/Epochs.antt =====
-- src/pump_research/epochs.py and the epoch tables of src/pump_research/persistence/models.py: the
-- declarations, the event log and the current projection, and the operations on them. A text that
-- the code builds from constants is the value that it is built from; an idempotency key is the triple
-- that it spells. Identifiers are given by the database layer, digests by the settings.
pub mod Operations
pub mod Projection
pub mod Samples
pub mod Readers
pub mod Exclusion
pub mod Invariants
pub mod Steps
pub mod Inversion
use pump_research.Prelude.{
  ℕ, ◌≡◌, Bool, true, false, not, ◌&&◌, ◌||◌, Option, none, some, List, [], ◌∷◌, ◌++◌, Result, ok,
  err, ◌>>=◌, arith, leb, ◌==◌, if◌then◌else◌,
}
use pump_research.Prelude.Sorting.{sort_by}
use pump_research.Prelude.Text.{Text}

pub data EpochStatusName : Type 0 where
  planned running completed aborted invalid : EpochStatusName

abbrev status_code : EpochStatusName → ℕ
status_code planned = 0
status_code running = 1
status_code completed = 2
status_code aborted = 3
status_code invalid = 4

unfoldable pub same_status : EpochStatusName → EpochStatusName → Bool
same_status a b = status_code a == status_code b

pub same_status→eq : (a b : EpochStatusName) → same_status a b ≡ true → a ≡ b
unfolding same_status
same_status→eq a b h = ground arith

unfoldable pub is_terminal : EpochStatusName → Bool
is_terminal planned = false
is_terminal running = false
is_terminal completed = true
is_terminal aborted = true
is_terminal invalid = true

-- `numbered n` is the default name f"Epoch {n}".
pub data EpochName : Type 0 where
  given : Text → EpochName
  numbered : ℕ → EpochName

pub data EpochReason : Type 0 where
  declared_before_collection first_run_started : EpochReason
  closing : Text → EpochReason

-- A row of `collection_epochs`; the snapshot is written together with its digest.
pub record CollectionEpoch : Type 0 where
  pub id : ℕ
  pub epoch_number : ℕ
  pub name : EpochName
  pub purpose : Text
  pub data_valid : Bool
  pub invalid_reason : Option EpochReason
  pub configuration_sha256 : ℕ
  pub code_revision : Option Text
  pub created_at : ℕ

-- A row of `collection_epoch_events`; the number of the epoch is its detail and part of its key.
pub record CollectionEpochEvent : Type 0 where
  pub id : ℕ
  pub collection_epoch_id : ℕ
  pub status : EpochStatusName
  pub occurred_at : ℕ
  pub reason : EpochReason
  pub epoch_number : ℕ

-- A row of `collection_epoch_current`.
pub record CollectionEpochCurrent : Type 0 where
  pub collection_epoch_id : ℕ
  pub status : EpochStatusName
  pub data_valid : Bool
  pub invalid_reason : Option EpochReason
  pub started_at : Option ℕ
  pub ended_at : Option ℕ
  pub latest_event_id : ℕ
  pub updated_at : ℕ

-- A row of `collector_runs`, by the fields that the epochs read.
pub record CollectorRun : Type 0 where
  pub id : ℕ
  pub collection_epoch_id : ℕ
  pub is_running : Bool

pub record EpochTables : Type 0 where
  pub epochs : List CollectionEpoch
  pub events : List CollectionEpochEvent
  pub currents : List CollectionEpochCurrent
  pub runs : List CollectorRun

pub record EpochStatus : Type 0 where
  pub id : ℕ
  pub epoch_number : ℕ
  pub name : EpochName
  pub purpose : Text
  pub status : EpochStatusName
  pub data_valid : Bool
  pub invalid_reason : Option EpochReason
  pub started_at : Option ℕ
  pub ended_at : Option ℕ
  pub configuration_sha256 : ℕ
  pub code_revision : Option Text
  pub created_at : ℕ

pub record EpochStartResult : Type 0 where
  pub epoch : CollectionEpoch
  pub started_now : Bool

-- `integrity` is the database's refusal of a row.
pub data EpochError : Type 0 where
  not_positive already_exists does_not_exist is_invalid not_startable : EpochError
  another_running close_status not_running collector_running naive_timestamp : EpochError
  integrity : EpochError

-- A `datetime`: aware, as its instant in microseconds, or naive.
pub data Datetime : Type 0 where
  aware naive : ℕ → Datetime

-- The argument `clock` is what `datetime.now(UTC)` reads.
unfoldable pub normalize_now : (clock : ℕ) → Option Datetime → Result EpochError ℕ
normalize_now clock none = ok clock
normalize_now clock (some (aware instant)) = ok instant
normalize_now clock (some (naive wall)) = err naive_timestamp

unfoldable pub epoch_numbered : ℕ → List CollectionEpoch → Option CollectionEpoch
epoch_numbered n [] = none
epoch_numbered n (e ∷ es) = if e.epoch_number == n then some e else epoch_numbered n es

unfoldable pub current_of : ℕ → List CollectionEpochCurrent → Option CollectionEpochCurrent
current_of id [] = none
current_of id (c ∷ cs) = if c.collection_epoch_id == id then some c else current_of id cs

-- The constraints on what is inserted: primary keys and the unique idempotency key.
unfoldable pub epoch_id_taken : ℕ → List CollectionEpoch → Bool
epoch_id_taken id [] = false
epoch_id_taken id (e ∷ es) = e.id == id || epoch_id_taken id es

unfoldable pub same_event : CollectionEpochEvent → CollectionEpochEvent → Bool
same_event a b =
    a.id == b.id
    || a.epoch_number == b.epoch_number
      && same_status a.status b.status
      && a.occurred_at == b.occurred_at

unfoldable pub event_taken : CollectionEpochEvent → List CollectionEpochEvent → Bool
event_taken e [] = false
event_taken e (x ∷ xs) = same_event e x || event_taken e xs

unfoldable pub insert_epoch : CollectionEpoch → EpochTables → Result EpochError EpochTables
insert_epoch e t =
    if epoch_id_taken e.id t.epochs
    then err integrity
    else ok (record t { epochs = t.epochs ++ e ∷ [] })

unfoldable pub insert_event : CollectionEpochEvent → EpochTables → Result EpochError EpochTables
insert_event e t =
    if event_taken e t.events then err integrity else ok (record t { events = t.events ++ e ∷ [] })

unfoldable pub insert_current : CollectionEpochCurrent → EpochTables → Result EpochError EpochTables
insert_current c t = elim (current_of c.collection_epoch_id t.currents) [
  | some _ ↦ err integrity
  | none ↦ ok (record t { currents = t.currents ++ c ∷ [] })
]

-- UPDATE collection_epoch_current … WHERE collection_epoch_id = id
unfoldable pub update_current :
    ℕ
    → (CollectionEpochCurrent → CollectionEpochCurrent)
    → List CollectionEpochCurrent
    → List CollectionEpochCurrent
update_current id change [] = []
update_current id change (c ∷ cs) =
    let rest = update_current id change cs in
    if c.collection_epoch_id == id then change c ∷ rest else c ∷ rest

unfoldable pub another_is_running : ℕ → List CollectionEpochCurrent → Bool
another_is_running id [] = false
another_is_running id (c ∷ cs) =
    same_status c.status running && not (c.collection_epoch_id == id) || another_is_running id cs

unfoldable pub has_active_run : ℕ → List CollectorRun → Bool
has_active_run id [] = false
has_active_run id (r ∷ rs) = r.collection_epoch_id == id && r.is_running || has_active_run id rs

-- `_status`, of a declaration and its current row.
unfoldable pub status_of : CollectionEpoch → CollectionEpochCurrent → EpochStatus
status_of e c = record {
  id = e.id;
  epoch_number = e.epoch_number;
  name = e.name;
  purpose = e.purpose;
  status = c.status;
  data_valid = c.data_valid;
  invalid_reason = c.invalid_reason;
  started_at = c.started_at;
  ended_at = c.ended_at;
  configuration_sha256 = e.configuration_sha256;
  code_revision = e.code_revision;
  created_at = e.created_at;
}

-- `_locked_epoch`
unfoldable pub locked_epoch :
    ℕ → EpochTables → Result EpochError (CollectionEpoch × CollectionEpochCurrent)
locked_epoch n t = elim (epoch_numbered n t.epochs) [
  | none ↦ err does_not_exist
  | some e ↦ elim (current_of e.id t.currents) [ none ↦ err does_not_exist | some c ↦ ok (e, c) ]
]
