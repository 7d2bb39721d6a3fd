-- ===== src/Epochs/Invariants.antt =====
-- What holds of the epoch tables of src/pump_research/epochs.py in every reachable state, by
-- induction on the steps.
use pump_research.Prelude.{
  ℕ, ◌≡◌, ◌⊎◌, inl, inr, sym, ap, ◌∙◌, subst, true, false, not, none, some, [], ◌∷◌, ◌++◌, arith,
  ◌==◌, ==→eq, Bool-cases, is_some,
}
use pump_research.Epochs.{
  planned, running, invalid, same_status, is_terminal, CollectionEpochEvent, CollectionEpochCurrent,
  EpochTables, current_of, update_current, another_is_running,
}
use pump_research.Epochs.Projection.{
  projected, next_row, rebuild, rebuild-append_own, rebuild-append_other, current_of-append_own,
  current_of-append_other, current_of-update_own, current_of-update_other,
}
use pump_research.Epochs.Steps.{
  Step, Change, unchanged, declared, moved, Step-Change, Reach, empty, later,
}

-- What a row's status says of its other fields.
pub record IsWellFormed (c : CollectionEpochCurrent) : Type 0 where
  pub validity : c.data_valid ≡ not (same_status c.status invalid)
  pub reason : is_some c.invalid_reason ≡ same_status c.status invalid
  pub start : is_some c.started_at ≡ not (same_status c.status planned)
  pub end : is_some c.ended_at ≡ is_terminal c.status

abbrev pub Rows : EpochTables → (CollectionEpochCurrent → Type 0) → Type 0
Rows t P = (id : ℕ) (c : CollectionEpochCurrent) → current_of id t.currents ≡ some c → P c

declared-IsWellFormed :
    (e : CollectionEpochEvent) → e.status ≡ planned → IsWellFormed (projected none none e)
unfolding same_status is_terminal
declared-IsWellFormed e h = record {
  validity = ground arith;
  reason = ground arith;
  start = ground arith;
  end = ground arith;
}

module _ (c : CollectionEpochCurrent) (e : CollectionEpochEvent) (before : IsWellFormed c) where
  next_row-IsWellFormed_running :
      c.status ≡ planned → e.status ≡ running → IsWellFormed (next_row (some c) e)
  unfolding same_status is_terminal
  next_row-IsWellFormed_running was is_running =
      let ended = before.end in
      record {
        validity = ground arith;
        reason = ground arith;
        start = ground arith;
        end = ground arith;
      }

  next_row-IsWellFormed_terminal :
      c.status ≡ running → is_terminal e.status ≡ true → IsWellFormed (next_row (some c) e)
  unfolding same_status is_terminal
  next_row-IsWellFormed_terminal was ends =
      let started = before.start in
      record {
        validity = ground arith;
        reason = ground arith;
        start = ground arith;
        end = ground arith;
      }

  no_reason : c.status ≡ planned ⊎ (c.status ≡ running) → c.invalid_reason ≡ none
  unfolding same_status
  no_reason h = let r = before.reason in ground arith

-- The two edges of the status, with what a start requires.
abbrev pub Edge : ℕ → EpochTables → CollectionEpochCurrent → CollectionEpochEvent → Type 0
Edge id t c e =
    ((c.status ≡ planned)
      × (c.data_valid ≡ true)
      × (another_is_running id t.currents ≡ false)
      × (e.status ≡ running))
    ⊎ ((c.status ≡ running) × (is_terminal e.status ≡ true))

pub Edge-IsWellFormed :
    (id : ℕ) (t : EpochTables) (c : CollectionEpochCurrent) (e : CollectionEpochEvent)
    → IsWellFormed c
    → Edge id t c e
    → (c.invalid_reason ≡ none) × IsWellFormed (next_row (some c) e)
Edge-IsWellFormed id t c e before (inl (was, _, _, starts)) =
    (no_reason c e before (inl was), next_row-IsWellFormed_running c e before was starts)
Edge-IsWellFormed id t c e before (inr (was, ends)) =
    (no_reason c e before (inr was), next_row-IsWellFormed_terminal c e before was ends)

-- What a change did to the row of one epoch, and to the log's view of it.
pub data RowChange (id : ℕ) (t t' : EpochTables) : Type 0 where
  kept :
      current_of id t'.currents ≡ current_of id t.currents
      → rebuild id t'.events ≡ rebuild id t.events
      → RowChange id t t'
  appears :
      (e : CollectionEpochEvent)
      → e.status ≡ planned
      → current_of id t.currents ≡ none
      → current_of id t'.currents ≡ some (projected none none e)
      → rebuild id t'.events ≡ some (next_row (rebuild id t.events) e)
      → RowChange id t t'
  moves :
      (c : CollectionEpochCurrent) (e : CollectionEpochEvent)
      → Edge id t c e
      → IsWellFormed c
      → current_of id t.currents ≡ some c
      → current_of id t'.currents ≡ some (next_row (some c) e)
      → rebuild id t'.events ≡ some (next_row (rebuild id t.events) e)
      → RowChange id t t'

Change-RowChange :
    {t t' : EpochTables} → Rows t IsWellFormed → (id : ℕ) → Change t t' → RowChange id t t'
Change-RowChange rows id (unchanged cs es) = kept (ap (current_of id) cs) (ap (rebuild id) es)
Change-RowChange {t} {t'} rows id (declared c e free is_planned same cs es) =
    elim (Bool-cases (c.collection_epoch_id == id)) [
      | inl own ↦
          let here = ==→eq c.collection_epoch_id id own in
          appears e (sym (ap (λ (x : CollectionEpochCurrent). x.status) same) ∙ is_planned)
            (subst (λ n. current_of n t.currents ≡ none) here free)
            (ap (current_of id) cs
              ∙ subst (λ n. current_of n (t.currents ++ c ∷ []) ≡ some c) here
                  (current_of-append_own t.currents c free)
              ∙ ap some same)
            (ap (rebuild id) es
              ∙ rebuild-append_own id t.events e
                  (sym (ap (λ (x : CollectionEpochCurrent). x.collection_epoch_id) same) ∙ here))
      | inr other ↦
          let event_other : (e.collection_epoch_id == id) ≡ false =
            sym (ap (λ (x : CollectionEpochCurrent). x.collection_epoch_id == id) same) ∙ other in
          kept (ap (current_of id) cs ∙ current_of-append_other id t.currents c other)
            (ap (rebuild id) es ∙ rebuild-append_other id t.events e event_other)
    ]
Change-RowChange {t} {t'} rows id (moved n change c e keeps found names edge next cs es) =
    elim (Bool-cases (n == id)) [
      | inl own ↦
          let here = ==→eq n id own in
          let before = rows n c found in
          let (no_reason, after) = Edge-IsWellFormed n t c e before edge in
          moves c e (subst (λ m. Edge m t c e) here edge) before
            (subst (λ m. current_of m t.currents ≡ some c) here found)
            (ap (current_of id) cs
              ∙ subst (λ m. current_of m (update_current n change t.currents) ≡ some (change c))
                  here (current_of-update_own n change keeps t.currents found)
              ∙ ap some (next no_reason))
            (ap (rebuild id) es ∙ rebuild-append_own id t.events e (names ∙ here))
      | inr other ↦
          let event_other : (e.collection_epoch_id == id) ≡ false =
            ap (λ m. m == id) names ∙ other in
          kept (ap (current_of id) cs ∙ current_of-update_other n change keeps id t.currents other)
            (ap (rebuild id) es ∙ rebuild-append_other id t.events e event_other)
    ]

RowChange-IsWellFormed :
    {t t' : EpochTables} (id : ℕ) (c' : CollectionEpochCurrent)
    → Rows t IsWellFormed
    → RowChange id t t'
    → current_of id t'.currents ≡ some c'
    → IsWellFormed c'
RowChange-IsWellFormed id c' rows (kept cs es) h = rows id c' (sym cs ∙ h)
RowChange-IsWellFormed id c' rows (appears e is_planned free now es) h =
    let same : projected none none e ≡ c' = ground arith in
    subst IsWellFormed same (declared-IsWellFormed e is_planned)
RowChange-IsWellFormed {t} id c' rows (moves c e edge before found now es) h =
    let same : next_row (some c) e ≡ c' = ground arith in
    let (_, after) = Edge-IsWellFormed id t c e before edge in subst IsWellFormed same after

pub Reach-IsWellFormed : {t : EpochTables} → Reach t → Rows t IsWellFormed
unfolding current_of
Reach-IsWellFormed empty id c h = cc
Reach-IsWellFormed (later r step) id c h =
    let rows = Reach-IsWellFormed r in
    RowChange-IsWellFormed id c rows (Change-RowChange rows id (Step-Change step)) h

pub Reach-RowChange : {t t' : EpochTables} → Reach t → Step t t' → (id : ℕ) → RowChange id t t'
Reach-RowChange r step id = Change-RowChange (Reach-IsWellFormed r) id (Step-Change step)
