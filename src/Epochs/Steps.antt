-- ===== src/Epochs/Steps.antt =====
-- src/pump_research/epochs.py as a state machine: the transactions on the epoch tables as steps, and
-- the current rows as a view of the event log. The runs belong to the collector and change freely.
use pump_research.Prelude.{
  ℕ, ◌≡◌, ◌⊎◌, inl, inr, refl, ap, true, false, Option, none, some, List, [], ◌∷◌, ◌++◌, ok, arith,
}
use pump_research.Prelude.Text.{Text}
use pump_research.Epochs.{
  EpochStatusName, planned, running, completed, aborted, invalid, same_status, is_terminal,
  EpochReason, closing, CollectionEpoch, CollectionEpochEvent, CollectionEpochCurrent, CollectorRun,
  EpochTables, EpochStatus, EpochStartResult, Datetime, current_of, update_current,
  another_is_running,
}
use pump_research.Epochs.Operations.{
  Declaration, declared_epoch, declared_current, event_of, create_epoch, started,
  start_epoch_with_result, closed, close_epoch, invalid_reason_of,
}
use pump_research.Epochs.Projection.{projected, next_row, current_of-id}
use pump_research.Epochs.Inversion.{
  attached, first, create_epoch-IsCreated, start_epoch_with_result-Started, close_epoch-IsClosed,
}

pub data Step (t t' : EpochTables) : Type 0 where
  created :
      (clock : ℕ) (d : Declaration) (now : Option Datetime) (s : EpochStatus)
      → create_epoch clock d now t ≡ ok (s, t')
      → Step t t'
  started_step :
      (clock event_id n : ℕ) (now : Datetime) (r : EpochStartResult)
      → start_epoch_with_result clock event_id n now t ≡ ok (r, t')
      → Step t t'
  closed_step :
      (clock event_id n : ℕ) (status : EpochStatusName) (reason : Text) (now : Option Datetime)
      (s : EpochStatus)
      → close_epoch clock event_id n status reason now t ≡ ok (s, t')
      → Step t t'
  runs_changed : (runs : List CollectorRun) → t' ≡ record t { runs = runs } → Step t t'

abbrev pub no_tables : EpochTables
no_tables = record { epochs = []; events = []; currents = []; runs = [] }

pub data Reach : EpochTables → Type 0 where
  empty : Reach no_tables
  later : {t t' : EpochTables} → Reach t → Step t t' → Reach t'

-- What a step of the tables did to the current rows and to the log.
pub data Change (t t' : EpochTables) : Type 0 where
  unchanged : t'.currents ≡ t.currents → t'.events ≡ t.events → Change t t'
  declared :
      (c : CollectionEpochCurrent) (e : CollectionEpochEvent)
      → current_of c.collection_epoch_id t.currents ≡ none
      → c.status ≡ planned
      → c ≡ projected none none e
      → t'.currents ≡ t.currents ++ c ∷ []
      → t'.events ≡ t.events ++ e ∷ []
      → Change t t'
  moved :
      (id : ℕ) (change : CollectionEpochCurrent → CollectionEpochCurrent)
      (c : CollectionEpochCurrent) (e : CollectionEpochEvent)
      → ((x : CollectionEpochCurrent) → (change x).collection_epoch_id ≡ x.collection_epoch_id)
      → current_of id t.currents ≡ some c
      → e.collection_epoch_id ≡ id
      → ((c.status ≡ planned)
          × (c.data_valid ≡ true)
          × (another_is_running id t.currents ≡ false)
          × (e.status ≡ running))
        ⊎ ((c.status ≡ running) × (is_terminal e.status ≡ true))
      → (c.invalid_reason ≡ none → change c ≡ next_row (some c) e)
      → t'.currents ≡ update_current id change t.currents
      → t'.events ≡ t.events ++ e ∷ []
      → Change t t'

started-projected :
    (event_id occurred_at : ℕ) (x : CollectionEpoch) (c : CollectionEpochCurrent)
    → c.collection_epoch_id ≡ x.id
    → c.data_valid ≡ true
    → c.invalid_reason ≡ none
    → started event_id occurred_at c
      ≡ next_row (some c) (event_of event_id x running occurred_at EpochReason.first_run_started)
unfolding started event_of same_status is_terminal
started-projected event_id occurred_at x c same valid no_reason = ground arith

closed-projected :
    (event_id occurred_at : ℕ) (status : EpochStatusName) (reason : Text) (x : CollectionEpoch)
    (c : CollectionEpochCurrent)
    → c.collection_epoch_id ≡ x.id
    → is_terminal status ≡ true
    → closed event_id occurred_at status reason c
      ≡ next_row (some c) (event_of event_id x status occurred_at (closing reason))
unfolding closed event_of is_terminal invalid_reason_of same_status
closed-projected event_id occurred_at planned reason x c same terminal = ground arith
closed-projected event_id occurred_at running reason x c same terminal = ground arith
closed-projected event_id occurred_at completed reason x c same terminal = ground arith
closed-projected event_id occurred_at aborted reason x c same terminal = ground arith
closed-projected event_id occurred_at invalid reason x c same terminal = ground arith

pub Step-Change : {t t' : EpochTables} → Step t t' → Change t t'
unfolding declared_current event_of declared_epoch started closed same_status is_terminal
Step-Change {t} {t'} (created clock d now s h) =
    let i = create_epoch-IsCreated clock d now t h in
    declared (declared_current d i.occurred_at)
      (event_of d.event_id (declared_epoch d i.occurred_at) planned i.occurred_at
        EpochReason.declared_before_collection)
      i.undeclared refl (ground arith) (ap (λ (x : EpochTables). x.currents) i.tables)
      (ap (λ (x : EpochTables). x.events) i.tables)
Step-Change {t} {t'} (started_step clock event_id n now r h) =
    elim (start_epoch_with_result-Started clock event_id n now t h) [
      | attached _ _ _ _ _ _ same ↦
          unchanged (ap (λ (x : EpochTables). x.currents) same)
            (ap (λ (x : EpochTables). x.events) same)
      | first _ _ i ↦
          moved (r.epoch.id) (started event_id i.occurred_at) i.current
            (event_of event_id r.epoch running i.occurred_at EpochReason.first_run_started)
            (λ x. refl) i.found refl (inl (i.was_planned, i.valid, i.alone, refl))
            (started-projected event_id i.occurred_at r.epoch i.current
              (current_of-id r.epoch.id t.currents i.found) i.valid)
            (ap (λ (x : EpochTables). x.currents) i.tables)
            (ap (λ (x : EpochTables). x.events) i.tables)
    ]
Step-Change {t} {t'} (closed_step clock event_id n status reason now s h) =
    let i = close_epoch-IsClosed clock event_id n status reason now t h in
    moved i.epoch.id (closed event_id i.occurred_at status reason) i.current
      (event_of event_id i.epoch status i.occurred_at (closing reason)) (λ x. refl) i.found refl
      (inr (i.was_running, i.terminal))
      (λ _.
        closed-projected event_id i.occurred_at status reason i.epoch i.current
          (current_of-id i.epoch.id t.currents i.found) i.terminal)
      (ap (λ (x : EpochTables). x.currents) i.tables) (ap (λ (x : EpochTables). x.events) i.tables)
Step-Change {t} {t'} (runs_changed runs same) =
    unchanged (ap (λ (x : EpochTables). x.currents) same) (ap (λ (x : EpochTables). x.events) same)
