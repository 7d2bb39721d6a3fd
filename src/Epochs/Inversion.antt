-- ===== src/Epochs/Inversion.antt =====
-- src/pump_research/epochs.py: what the operations that returned went through.
use pump_research.Prelude.{
  ℕ, ◌≡◌, inl, inr, refl, sym, ap, ◌∙◌, subst, true, false, not, Option, none, some, List, [], ◌∷◌,
  ◌++◌, Result, ok, err, ◌>>=◌, >>=-eq-ok, arith, leb, if-eq-cases,
}
use pump_research.Prelude.Text.{Text}
use pump_research.Epochs.{
  EpochStatusName, planned, running, same_status, same_status→eq, is_terminal,
  declared_before_collection, first_run_started, closing, CollectionEpoch, CollectionEpochEvent,
  CollectionEpochCurrent, EpochTables, EpochStatus, EpochStartResult, EpochError, Datetime,
  normalize_now, epoch_numbered, current_of, insert_epoch, insert_event, insert_current,
  update_current, another_is_running, has_active_run, status_of, locked_epoch,
}
use pump_research.Epochs.Operations.{
  Declaration, declared_epoch, declared_current, event_of, insert_declared, create_epoch, started,
  start_planned, start_locked, start_epoch_with_result, closed, close_running, close_locked,
  close_epoch,
}

-- A new declaration, with its event and its current row.
pub record IsCreated (d : Declaration) (s : EpochStatus) (t t' : EpochTables) : Type 0 where
  pub occurred_at : ℕ
  pub unnumbered : epoch_numbered d.epoch_number t.epochs ≡ none
  pub undeclared : current_of d.epoch_id t.currents ≡ none
  pub returned : s ≡ status_of (declared_epoch d occurred_at) (declared_current d occurred_at)
  pub tables : t' ≡ record t {
    epochs = t.epochs ++ declared_epoch d occurred_at ∷ [];
    events =
        t.events
        ++ event_of d.event_id
            (declared_epoch d occurred_at)
            planned
            occurred_at
            declared_before_collection
          ∷ [];
    currents = t.currents ++ declared_current d occurred_at ∷ [];
  }

-- A new event of an epoch, with the change of its current row.
abbrev pub logged :
    CollectionEpoch
    → CollectionEpochEvent
    → (CollectionEpochCurrent → CollectionEpochCurrent)
    → EpochTables
    → EpochTables
logged e event change t = record t {
  events = t.events ++ event ∷ [];
  currents = update_current e.id change t.currents;
}

pub record IsStarted (event_id n : ℕ) (e : CollectionEpoch) (t t' : EpochTables) : Type 0 where
  pub occurred_at : ℕ
  pub current : CollectionEpochCurrent
  pub found : current_of e.id t.currents ≡ some current
  pub valid : current.data_valid ≡ true
  pub was_planned : current.status ≡ planned
  pub alone : another_is_running e.id t.currents ≡ false
  pub tables :
      t'
      ≡ logged e
          (event_of event_id e running occurred_at first_run_started)
          (started event_id occurred_at)
          t

pub record IsClosed (event_id n : ℕ) (status : EpochStatusName) (reason : Text) (s : EpochStatus)
    (t t' : EpochTables) : Type 0 where
  pub occurred_at : ℕ
  pub epoch : CollectionEpoch
  pub numbered : epoch_numbered n t.epochs ≡ some epoch
  pub current : CollectionEpochCurrent
  pub found : current_of epoch.id t.currents ≡ some current
  pub terminal : is_terminal status ≡ true
  pub was_running : current.status ≡ running
  pub no_run : has_active_run epoch.id t.runs ≡ false
  pub returned : s ≡ status_of epoch (closed event_id occurred_at status reason current)
  pub tables :
      t'
      ≡ logged epoch
          (event_of event_id epoch status occurred_at (closing reason))
          (closed event_id occurred_at status reason)
          t

pub locked_epoch-found :
    (n : ℕ) (t : EpochTables) {e : CollectionEpoch} {c : CollectionEpochCurrent}
    → locked_epoch n t ≡ ok (e, c)
    → (epoch_numbered n t.epochs ≡ some e) × (current_of e.id t.currents ≡ some c)
unfolding locked_epoch
locked_epoch-found n t {e} {c} h = go (epoch_numbered n t.epochs) refl h
  where
    current :
        (x : CollectionEpoch) (found : Option CollectionEpochCurrent)
        → current_of x.id t.currents ≡ found
        → elim found as (λ _. Result EpochError (CollectionEpoch × CollectionEpochCurrent)) [
          | none ↦ err EpochError.does_not_exist
          | some y ↦ ok (x, y)
        ]
          ≡ ok (e, c)
        → (x ≡ e) × (current_of x.id t.currents ≡ some c)
    current x none q k = cc
    current x (some y) q k = let same : y ≡ c = ground arith in (ground arith, q ∙ ap some same)

    go :
        (found : Option CollectionEpoch)
        → epoch_numbered n t.epochs ≡ found
        → elim found as (λ _. Result EpochError (CollectionEpoch × CollectionEpochCurrent)) [
          | none ↦ err EpochError.does_not_exist
          | some x ↦ elim (current_of x.id t.currents) [
            | none ↦ err EpochError.does_not_exist
            | some y ↦ ok (x, y)
          ]
        ]
          ≡ ok (e, c)
        → (epoch_numbered n t.epochs ≡ some e) × (current_of e.id t.currents ≡ some c)
    go none p k = cc
    go (some x) p k =
        let (same, q) = current x (current_of x.id t.currents) refl k in
        (
          p ∙ ap some same,
          subst (λ (y : CollectionEpoch). current_of y.id t.currents ≡ some c) same q,
        )

insert_event-tables :
    (event : CollectionEpochEvent) (t : EpochTables) {t' : EpochTables}
    → insert_event event t ≡ ok t'
    → record t { events = t.events ++ event ∷ [] } ≡ t'
unfolding insert_event
insert_event-tables event t h = ground arith

insert_epoch-tables :
    (e : CollectionEpoch) (t : EpochTables) {t' : EpochTables}
    → insert_epoch e t ≡ ok t'
    → record t { epochs = t.epochs ++ e ∷ [] } ≡ t'
unfolding insert_epoch
insert_epoch-tables e t h = ground arith

insert_current-tables :
    (c : CollectionEpochCurrent) (t : EpochTables) {t' : EpochTables}
    → insert_current c t ≡ ok t'
    → (current_of c.collection_epoch_id t.currents ≡ none)
      × (record t { currents = t.currents ++ c ∷ [] } ≡ t')
unfolding insert_current
insert_current-tables c t {t'} h = go (current_of c.collection_epoch_id t.currents) refl h
  where
    go :
        (found : Option CollectionEpochCurrent)
        → current_of c.collection_epoch_id t.currents ≡ found
        → elim found as (λ _. Result EpochError EpochTables) [
          | some _ ↦ err EpochError.integrity
          | none ↦ ok (record t { currents = t.currents ++ c ∷ [] })
        ]
          ≡ ok t'
        → (current_of c.collection_epoch_id t.currents ≡ none)
          × (record t { currents = t.currents ++ c ∷ [] } ≡ t')
    go none p k = (p, ground arith)
    go (some _) p k = cc

insert_declared-IsCreated :
    (d : Declaration) (occurred_at : ℕ) (t : EpochTables) {s : EpochStatus} {t' : EpochTables}
    → epoch_numbered d.epoch_number t.epochs ≡ none
    → insert_declared d occurred_at t ≡ ok (s, t')
    → IsCreated d s t t'
unfolding insert_declared declared_current
insert_declared-IsCreated d occurred_at t {s} {t'} fresh h =
    let epoch = declared_epoch d occurred_at in
    let event = event_of d.event_id epoch planned occurred_at declared_before_collection in
    let (t1, a, k) = >>=-eq-ok (insert_epoch epoch t) _ h in
    let (t2, b, l) = >>=-eq-ok (insert_event event t1) _ k in
    let (t3, c, m) = >>=-eq-ok (insert_current (declared_current d occurred_at) t2) _ l in
    let first = insert_epoch-tables epoch t a in
    let second = insert_event-tables event t1 b in
    let (free, third) = insert_current-tables (declared_current d occurred_at) t2 c in
    let currents : t2.currents ≡ t.currents =
      sym (
        ap (λ (x : EpochTables). x.currents) first ∙ ap (λ (x : EpochTables). x.currents) second) in
    record {
      occurred_at = occurred_at;
      unnumbered = fresh;
      undeclared =
          subst (λ (cs : List CollectionEpochCurrent). current_of d.epoch_id cs ≡ none) currents
            free;
      returned = ground arith;
      tables = ground arith;
    }

pub create_epoch-IsCreated :
    (clock : ℕ) (d : Declaration) (now : Option Datetime) (t : EpochTables) {s : EpochStatus}
    {t' : EpochTables}
    → create_epoch clock d now t ≡ ok (s, t')
    → IsCreated d s t t'
unfolding create_epoch
create_epoch-IsCreated clock d now t {s} {t'} h =
    elim (if-eq-cases (not (leb 1 d.epoch_number)) h) [
      | inl (e, k) ↦ cc
      | inr (e, k) ↦ go (epoch_numbered d.epoch_number t.epochs) refl k
    ]
  where
    go :
        (found : Option CollectionEpoch)
        → epoch_numbered d.epoch_number t.epochs ≡ found
        → elim found as (λ _. Result EpochError (EpochStatus × EpochTables)) [
          | some _ ↦ err EpochError.already_exists
          | none ↦ normalize_now clock now >>= λ occurred_at. insert_declared d occurred_at t
        ]
          ≡ ok (s, t')
        → IsCreated d s t t'
    go (some _) p k = cc
    go none p k =
        let (occurred_at, a, l) = >>=-eq-ok (normalize_now clock now) _ k in
        insert_declared-IsCreated d occurred_at t p l

-- A start that returns `started_now = false` changed nothing; another one is a start.
pub data Started (event_id n : ℕ) (r : EpochStartResult) (t t' : EpochTables) : Type 0 where
  attached :
      (current : CollectionEpochCurrent)
      → epoch_numbered n t.epochs ≡ some (r.epoch)
      → current_of (r.epoch.id) t.currents ≡ some current
      → current.status ≡ running
      → current.data_valid ≡ true
      → r.started_now ≡ false
      → t' ≡ t
      → Started event_id n r t t'
  first :
      epoch_numbered n t.epochs ≡ some (r.epoch)
      → r.started_now ≡ true
      → IsStarted event_id n r.epoch t t'
      → Started event_id n r t t'

start_planned-tables :
    (event_id occurred_at : ℕ) (e : CollectionEpoch) (t : EpochTables) {r : EpochStartResult}
    {t' : EpochTables}
    → start_planned event_id occurred_at e t ≡ ok (r, t')
    → (r ≡ record { epoch = e; started_now = true })
      × (t'
          ≡ logged e
              (event_of event_id e running occurred_at first_run_started)
              (started event_id occurred_at)
              t)
unfolding start_planned
start_planned-tables event_id occurred_at e t {r} {t'} h =
    let event = event_of event_id e running occurred_at first_run_started in
    let (t1, a, k) = >>=-eq-ok (insert_event event t) _ h in
    let first = insert_event-tables event t a in (ground arith, ground arith)

start_locked-Started :
    (clock event_id n : ℕ) (now : Datetime) (e : CollectionEpoch) (c : CollectionEpochCurrent)
    (t : EpochTables) {r : EpochStartResult} {t' : EpochTables}
    → epoch_numbered n t.epochs ≡ some e
    → current_of e.id t.currents ≡ some c
    → start_locked clock event_id now e c t ≡ ok (r, t')
    → Started event_id n r t t'
unfolding start_locked
start_locked-Started clock event_id n now e c t {r} {t'} p q h =
    elim (if-eq-cases (not c.data_valid) h) [
      | inl (_, k) ↦ cc
      | inr (valid, k) ↦ elim (if-eq-cases (same_status c.status running) k) [
        | inl (is_running, l) ↦
            let same : e ≡ r.epoch = ground arith in
            attached c (p ∙ ap some same)
              (subst (λ (x : CollectionEpoch). current_of x.id t.currents ≡ some c) same q)
              (same_status→eq c.status running is_running) (ground arith) (ground arith)
              (ground arith)
        | inr (_, l) ↦ elim (if-eq-cases (not (same_status c.status planned)) l) [
          | inl (_, m) ↦ cc
          | inr (is_planned, m) ↦ elim (if-eq-cases (another_is_running e.id t.currents) m) [
            | inl (_, o) ↦ cc
            | inr (alone, o) ↦
                let (occurred_at, a, u) = >>=-eq-ok (normalize_now clock (some now)) _ o in
                let (returned, tables) = start_planned-tables event_id occurred_at e t u in
                let same : e ≡ r.epoch = ground arith in
                first (p ∙ ap some same) (ground arith) (
                  subst (λ (x : CollectionEpoch). IsStarted event_id n x t t') same
                    (record {
                      occurred_at = occurred_at;
                      current = c;
                      found = q;
                      valid = ground arith;
                      was_planned = same_status→eq c.status planned (ground arith);
                      alone = alone;
                      tables = tables;
                    }))
          ]
        ]
      ]
    ]

pub start_epoch_with_result-Started :
    (clock event_id n : ℕ) (now : Datetime) (t : EpochTables) {r : EpochStartResult}
    {t' : EpochTables}
    → start_epoch_with_result clock event_id n now t ≡ ok (r, t')
    → Started event_id n r t t'
unfolding start_epoch_with_result
start_epoch_with_result-Started clock event_id n now t h =
    let ((e, c), a, k) = >>=-eq-ok (locked_epoch n t) _ h in
    let (p, q) = locked_epoch-found n t a in start_locked-Started clock event_id n now e c t p q k

close_locked-IsClosed :
    (clock event_id n : ℕ) (status : EpochStatusName) (reason : Text) (now : Option Datetime)
    (e : CollectionEpoch) (c : CollectionEpochCurrent) (t : EpochTables) {s : EpochStatus}
    {t' : EpochTables}
    → is_terminal status ≡ true
    → epoch_numbered n t.epochs ≡ some e
    → current_of e.id t.currents ≡ some c
    → close_locked clock event_id status reason now e c t ≡ ok (s, t')
    → IsClosed event_id n status reason s t t'
unfolding close_locked close_running closed status_of
close_locked-IsClosed clock event_id n status reason now e c t {s} {t'} terminal p q h =
    elim (if-eq-cases (not (same_status c.status running)) h) [
      | inl (_, k) ↦ cc
      | inr (was, k) ↦ elim (if-eq-cases (has_active_run e.id t.runs) k) [
        | inl (_, l) ↦ cc
        | inr (no_run, l) ↦
            let (occurred_at, _, m) = >>=-eq-ok (normalize_now clock now) _ l in
            let event = event_of event_id e status occurred_at (closing reason) in
            let (t1, b, o) = >>=-eq-ok (insert_event event t) _ m in
            let first = insert_event-tables event t b in
            record {
              occurred_at = occurred_at;
              epoch = e;
              numbered = p;
              current = c;
              found = q;
              terminal = terminal;
              was_running = same_status→eq c.status running (ground arith);
              no_run = no_run;
              returned = ground arith;
              tables = ground arith;
            }
      ]
    ]

pub close_epoch-IsClosed :
    (clock event_id n : ℕ) (status : EpochStatusName) (reason : Text) (now : Option Datetime)
    (t : EpochTables) {s : EpochStatus} {t' : EpochTables}
    → close_epoch clock event_id n status reason now t ≡ ok (s, t')
    → IsClosed event_id n status reason s t t'
unfolding close_epoch
close_epoch-IsClosed clock event_id n status reason now t h =
    elim (if-eq-cases (not (is_terminal status)) h) [
      | inl (_, k) ↦ cc
      | inr (terminal, k) ↦
          let ((e, c), a, l) = >>=-eq-ok (locked_epoch n t) _ k in
          let (p, q) = locked_epoch-found n t a in
          close_locked-IsClosed clock event_id n status reason now e c t (ground arith) p q l
    ]
