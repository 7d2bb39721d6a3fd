-- ===== src/Epochs/Projection.antt =====
-- The current rows of src/pump_research/epochs.py, rebuilt from the event log alone: an abstract
-- specification of what the projection table holds, and how the table and the log change together.
use pump_research.Prelude.{
  ℕ, ◌≡◌, inl, inr, refl, sym, ap, ◌∙◌, Bool, true, false, not, Option, none, some, List, [], ◌∷◌,
  ◌++◌, arith, ◌==◌, ==→eq, ==_refl, if◌then◌else◌, if-eq-cases,
}
use pump_research.Epochs.{
  running, invalid, same_status, is_terminal, CollectionEpochEvent, CollectionEpochCurrent,
  current_of, update_current,
}

-- The event's part of a timestamp that events of some statuses set.
abbrev pub set_when : Bool → ℕ → Option ℕ → Option ℕ
set_when b instant before = if b then some instant else before

-- The row after an event, given the timestamps of the row before it.
abbrev pub projected : (started ended : Option ℕ) → CollectionEpochEvent → CollectionEpochCurrent
projected started ended e = record {
  collection_epoch_id = e.collection_epoch_id;
  status = e.status;
  data_valid = not (same_status e.status invalid);
  invalid_reason = if same_status e.status invalid then some (e.reason) else none;
  started_at = set_when (same_status e.status running) (e.occurred_at) started;
  ended_at = set_when (is_terminal e.status) (e.occurred_at) ended;
  latest_event_id = e.id;
  updated_at = e.occurred_at;
}

abbrev pub next_row : Option CollectionEpochCurrent → CollectionEpochEvent → CollectionEpochCurrent
next_row none e = projected none none e
next_row (some c) e = projected c.started_at c.ended_at e

abbrev pub replay :
    ℕ → Option CollectionEpochCurrent → List CollectionEpochEvent → Option CollectionEpochCurrent
replay id row [] = row
replay id row (e ∷ es) =
    replay id (if e.collection_epoch_id == id then some (next_row row e) else row) es

-- The current row of an epoch, from the log.
abbrev pub rebuild : ℕ → List CollectionEpochEvent → Option CollectionEpochCurrent
rebuild id es = replay id none es

replay-append :
    (id : ℕ) (row : Option CollectionEpochCurrent) (es : List CollectionEpochEvent)
    (e : CollectionEpochEvent)
    → replay id row (es ++ e ∷ []) ≡ (
        if e.collection_epoch_id == id
        then some (next_row (replay id row es) e)
        else replay id row es)
replay-append id row [] e = refl
replay-append id row (x ∷ xs) e =
    replay-append id (if x.collection_epoch_id == id then some (next_row row x) else row) xs e

-- The row that the new event makes, where the event is the epoch's.
pub rebuild-append_own :
    (id : ℕ) (es : List CollectionEpochEvent) (e : CollectionEpochEvent)
    → e.collection_epoch_id ≡ id
    → rebuild id (es ++ e ∷ []) ≡ some (next_row (rebuild id es) e)
rebuild-append_own id es e same = replay-append id none es e ∙ rw (same, ==_refl id) refl

pub rebuild-append_other :
    (id : ℕ) (es : List CollectionEpochEvent) (e : CollectionEpochEvent)
    → (e.collection_epoch_id == id) ≡ false
    → rebuild id (es ++ e ∷ []) ≡ rebuild id es
rebuild-append_other id es e other = replay-append id none es e ∙ rw other refl

pub current_of-id :
    (id : ℕ) (cs : List CollectionEpochCurrent) {c : CollectionEpochCurrent}
    → current_of id cs ≡ some c
    → c.collection_epoch_id ≡ id
unfolding current_of
current_of-id id [] h = cc
current_of-id id (x ∷ xs) {c} h = elim (if-eq-cases (x.collection_epoch_id == id) h) [
  | inl (e, k) ↦
      let same : x ≡ c = ground arith in
      sym (ap (λ (y : CollectionEpochCurrent). y.collection_epoch_id) same)
      ∙ ==→eq x.collection_epoch_id id e
  | inr (e, k) ↦ current_of-id id xs k
]

-- The table after an insertion.
pub current_of-append_own :
    (cs : List CollectionEpochCurrent) (c : CollectionEpochCurrent)
    → current_of c.collection_epoch_id cs ≡ none
    → current_of c.collection_epoch_id (cs ++ c ∷ []) ≡ some c
unfolding current_of
current_of-append_own [] c h = rw (==_refl c.collection_epoch_id) refl
current_of-append_own (x ∷ xs) c h = ground (arith, current_of-append_own xs c)

pub current_of-append_other :
    (id : ℕ) (cs : List CollectionEpochCurrent) (c : CollectionEpochCurrent)
    → (c.collection_epoch_id == id) ≡ false
    → current_of id (cs ++ c ∷ []) ≡ current_of id cs
unfolding current_of
current_of-append_other id [] c h = rw h refl
current_of-append_other id (x ∷ xs) c h = ground (arith, current_of-append_other id xs c h)

module _ (id : ℕ) (change : CollectionEpochCurrent → CollectionEpochCurrent)
    (keeps : (c : CollectionEpochCurrent)
      → (change c).collection_epoch_id ≡ c.collection_epoch_id) where
  -- The table after an update that keeps the key.
  pub current_of-update_own :
      (cs : List CollectionEpochCurrent) {c : CollectionEpochCurrent}
      → current_of id cs ≡ some c
      → current_of id (update_current id change cs) ≡ some (change c)
  unfolding current_of update_current
  current_of-update_own [] h = cc
  current_of-update_own (x ∷ xs) {c} h = elim (if-eq-cases (x.collection_epoch_id == id) h) [
    | inl (e, k) ↦
        let same : x ≡ c = ground arith in
        let found : ((change x).collection_epoch_id == id) ≡ true =
          ap (λ n. n == id) (keeps x) ∙ e in
        rw (e, if◌then◌else◌, found) (ap (λ y. some (change y)) same)
    | inr (e, k) ↦ rw (e, e) (current_of-update_own xs k)
  ]

  pub current_of-update_other :
      (other : ℕ) (cs : List CollectionEpochCurrent)
      → (id == other) ≡ false
      → current_of other (update_current id change cs) ≡ current_of other cs
  unfolding current_of update_current
  current_of-update_other other [] h = refl
  current_of-update_other other (x ∷ xs) h =
      let rest = current_of-update_other other xs h in
      let kept = keeps x in ground (arith, rest, kept)
