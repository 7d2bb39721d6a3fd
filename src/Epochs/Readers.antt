-- ===== src/Epochs/Readers.antt =====
-- src/pump_research/epochs.py: what `get_epoch_status` reads back, and a start that is repeated.
use pump_research.Prelude.{
  ℕ, ◌≡◌, inl, inr, refl, sym, ap, ◌∙◌, subst, true, false, Option, none, some, List, [], ◌∷◌, ◌++◌,
  ok, ◌>>=◌, arith, ◌==◌, ==→eq, ==_refl, if-eq-cases, if◌then◌else◌,
}
use pump_research.Prelude.Sorting.{sort_by}
use pump_research.Prelude.Text.{Text}
use pump_research.Epochs.{
  EpochStatusName, running, same_status, CollectionEpoch, CollectionEpochCurrent, EpochTables,
  EpochStatus, EpochStartResult, Datetime, epoch_numbered, current_of, status_of, locked_epoch,
}
use pump_research.Epochs.Operations.{
  Declaration, declared_epoch, declared_current, create_epoch, started, start_locked,
  start_epoch_with_result, closed, close_epoch, joined, numbered_in, first_status, get_epoch_status,
}
use pump_research.Epochs.Projection.{current_of-append_own, current_of-update_own}
use pump_research.Epochs.Inversion.{
  attached, first, create_epoch-IsCreated, start_epoch_with_result-Started, close_epoch-IsClosed,
}
use pump_research.Epochs.Steps.{
  Step, created, started_step, closed_step, runs_changed, Reach, empty, later,
}

-- No two declarations have the same number.
abbrev pub AreNumbered : List CollectionEpoch → Type 0
AreNumbered [] = Unit
AreNumbered (e ∷ es) = (epoch_numbered e.epoch_number es ≡ none) × AreNumbered es

epoch_numbered-append :
    (n : ℕ) (es : List CollectionEpoch) (e : CollectionEpoch)
    → epoch_numbered n es ≡ none
    → epoch_numbered n (es ++ e ∷ []) ≡ (if e.epoch_number == n then some e else none)
unfolding epoch_numbered
epoch_numbered-append n [] e h = refl
epoch_numbered-append n (x ∷ xs) e h = ground (arith, epoch_numbered-append n xs e)

AreNumbered-append :
    (es : List CollectionEpoch) (e : CollectionEpoch)
    → AreNumbered es
    → epoch_numbered e.epoch_number es ≡ none
    → AreNumbered (es ++ e ∷ [])
unfolding epoch_numbered
AreNumbered-append [] e h k = (refl, tt)
AreNumbered-append (x ∷ xs) e (fresh, rest) k =
    let apart : (e.epoch_number == x.epoch_number) ≡ false = ground arith in
    (
      epoch_numbered-append x.epoch_number xs e fresh ∙ rw apart refl,
      AreNumbered-append xs e rest (ground arith),
    )

-- The epochs of a step: one more, with a number of its own, or the same.
Step-AreNumbered : {t t' : EpochTables} → Step t t' → AreNumbered t.epochs → AreNumbered t'.epochs
unfolding declared_epoch
Step-AreNumbered {t} {t'} (created clock d now s h) before =
    let i = create_epoch-IsCreated clock d now t h in
    subst (λ (x : EpochTables). AreNumbered x.epochs) (sym i.tables)
      (AreNumbered-append t.epochs (declared_epoch d i.occurred_at) before i.unnumbered)
Step-AreNumbered {t} {t'} (started_step clock event_id n now r h) before =
    elim (start_epoch_with_result-Started clock event_id n now t h) [
      | attached _ _ _ _ _ _ same ↦
          subst (λ (x : EpochTables). AreNumbered x.epochs) (sym same) before
      | first _ _ i ↦ subst (λ (x : EpochTables). AreNumbered x.epochs) (sym i.tables) before
    ]
Step-AreNumbered {t} {t'} (closed_step clock event_id n status reason now s h) before =
    let i = close_epoch-IsClosed clock event_id n status reason now t h in
    subst (λ (x : EpochTables). AreNumbered x.epochs) (sym i.tables) before
Step-AreNumbered {t} {t'} (runs_changed runs same) before =
    subst (λ (x : EpochTables). AreNumbered x.epochs) (sym same) before

pub Reach-AreNumbered : {t : EpochTables} → Reach t → AreNumbered t.epochs
Reach-AreNumbered empty = tt
Reach-AreNumbered (later r step) = Step-AreNumbered step (Reach-AreNumbered r)

module _ (n : ℕ) (cs : List CollectionEpochCurrent) where
  numbered_in-joined-none :
      (es : List CollectionEpoch) → epoch_numbered n es ≡ none → numbered_in n (joined cs es) ≡ []
  unfolding epoch_numbered numbered_in joined status_of
  numbered_in-joined-none [] h = refl
  numbered_in-joined-none (x ∷ xs) h = ground (arith, numbered_in-joined-none xs)

  numbered_in-joined :
      (es : List CollectionEpoch) (e : CollectionEpoch) (c : CollectionEpochCurrent)
      → AreNumbered es
      → epoch_numbered n es ≡ some e
      → current_of e.id cs ≡ some c
      → numbered_in n (joined cs es) ≡ status_of e c ∷ []
  unfolding epoch_numbered numbered_in joined status_of
  numbered_in-joined [] e c all h k = cc
  numbered_in-joined (x ∷ xs) e c (fresh, rest) h k = elim (if-eq-cases (x.epoch_number == n) h) [
    | inl (own, m) ↦
        let same : x ≡ e = ground arith in
        let here : current_of x.id cs ≡ some c =
          subst (λ (y : CollectionEpoch). current_of y.id cs ≡ some c) (sym same) k in
        let none_left =
          numbered_in-joined-none xs
            (subst (λ m. epoch_numbered m xs ≡ none) (==→eq x.epoch_number n own) fresh) in
        rw (here, numbered_in, own, none_left) (ap (λ y. status_of y c ∷ []) same)
    | inr (other, m) ↦
        let next = numbered_in-joined xs e c rest m k in go (current_of x.id cs) other next
  ]
    where
      go :
          (row : Option CollectionEpochCurrent)
          → (x.epoch_number == n) ≡ false
          → numbered_in n (joined cs xs) ≡ status_of e c ∷ []
          → numbered_in n (elim row as (λ _. List EpochStatus) [
            | none ↦ joined cs xs
            | some d ↦ status_of x d ∷ joined cs xs
          ])
            ≡ status_of e c ∷ []
      go none p q = q
      go (some d) p q = rw p q

-- The status that is read of an epoch, from its declaration and its current row.
get_epoch_status-row :
    (n : ℕ) (t : EpochTables) (e : CollectionEpoch) (c : CollectionEpochCurrent)
    → AreNumbered t.epochs
    → epoch_numbered n t.epochs ≡ some e
    → current_of e.id t.currents ≡ some c
    → get_epoch_status (some n) t ≡ ok (status_of e c)
unfolding get_epoch_status first_status sort_by
get_epoch_status-row n t e c all p q =
    rw (numbered_in-joined n t.currents t.epochs e c all p q) refl

-- In a reachable state, the status that `create_epoch` returns is what `get_epoch_status` reads of
-- the new epoch afterwards.
pub create_epoch-get :
    {t t' : EpochTables} (r : Reach t) (clock : ℕ) (d : Declaration) (now : Option Datetime)
    {s : EpochStatus}
    → create_epoch clock d now t ≡ ok (s, t')
    → get_epoch_status (some (d.epoch_number)) t' ≡ ok s
unfolding declared_epoch declared_current
create_epoch-get {t} {t'} r clock d now {s} h =
    let i = create_epoch-IsCreated clock d now t h in
    let epoch = declared_epoch d i.occurred_at in
    let current = declared_current d i.occurred_at in
    get_epoch_status-row d.epoch_number t' epoch current
      (Step-AreNumbered (created clock d now s h) (Reach-AreNumbered r))
      (ap (λ (x : EpochTables). epoch_numbered d.epoch_number x.epochs) i.tables
        ∙ epoch_numbered-append d.epoch_number t.epochs epoch i.unnumbered
        ∙ rw (==_refl d.epoch_number) refl)
      (ap (λ (x : EpochTables). current_of d.epoch_id x.currents) i.tables
        ∙ current_of-append_own t.currents current i.undeclared)
    ∙ ap ok (sym i.returned)

-- In a reachable state, the status that `close_epoch` returns is what `get_epoch_status` reads of
-- the epoch afterwards.
pub close_epoch-get :
    {t t' : EpochTables} (r : Reach t) (clock event_id n : ℕ) (status : EpochStatusName)
    (reason : Text) (now : Option Datetime) {s : EpochStatus}
    → close_epoch clock event_id n status reason now t ≡ ok (s, t')
    → get_epoch_status (some n) t' ≡ ok s
unfolding closed
close_epoch-get {t} {t'} r clock event_id n status reason now {s} h =
    let i = close_epoch-IsClosed clock event_id n status reason now t h in
    get_epoch_status-row n t' i.epoch (closed event_id i.occurred_at status reason i.current)
      (Step-AreNumbered (closed_step clock event_id n status reason now s h) (Reach-AreNumbered r))
      (ap (λ (x : EpochTables). epoch_numbered n x.epochs) i.tables ∙ i.numbered)
      (ap (λ (x : EpochTables). current_of i.epoch.id x.currents) i.tables
        ∙ current_of-update_own i.epoch.id (closed event_id i.occurred_at status reason) (λ x. refl)
            t.currents i.found)
    ∙ ap ok (sym i.returned)

start_running :
    (clock event_id n : ℕ) (now : Datetime) (t : EpochTables) (e : CollectionEpoch)
    (c : CollectionEpochCurrent)
    → epoch_numbered n t.epochs ≡ some e
    → current_of e.id t.currents ≡ some c
    → c.status ≡ running
    → c.data_valid ≡ true
    → start_epoch_with_result clock event_id n now t
      ≡ ok (record { epoch = e; started_now = false }, t)
unfolding start_epoch_with_result start_locked locked_epoch same_status
start_running clock event_id n now t e c p q runs valid = rw (p, q, ◌>>=◌, valid, runs) refl

-- A start can be repeated: after a start that returned, a start of the same epoch, whenever, returns
-- the same declaration, says that it did not start the epoch, and changes nothing.
pub start_epoch_with_result_repeated :
    (clock event_id n clock' event_id' : ℕ) (now now' : Datetime) (t : EpochTables)
    {r : EpochStartResult} {t' : EpochTables}
    → start_epoch_with_result clock event_id n now t ≡ ok (r, t')
    → start_epoch_with_result clock' event_id' n now' t'
      ≡ ok (record { epoch = r.epoch; started_now = false }, t')
unfolding started
start_epoch_with_result_repeated clock event_id n clock' event_id' now now' t {r} {t'} h =
    elim (start_epoch_with_result-Started clock event_id n now t h) [
      | attached c p q runs valid _ same ↦
          start_running clock' event_id' n now' t' r.epoch c
            (ap (λ (x : EpochTables). epoch_numbered n x.epochs) same ∙ p)
            (ap (λ (x : EpochTables). current_of r.epoch.id x.currents) same ∙ q) runs valid
      | first p _ i ↦
          start_running clock' event_id' n now' t' r.epoch
            (started event_id i.occurred_at i.current)
            (ap (λ (x : EpochTables). epoch_numbered n x.epochs) i.tables ∙ p)
            (ap (λ (x : EpochTables). current_of r.epoch.id x.currents) i.tables
              ∙ current_of-update_own r.epoch.id (started event_id i.occurred_at) (λ x. refl)
                  t.currents i.found)
            refl i.valid
    ]
