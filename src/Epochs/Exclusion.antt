-- ===== src/Epochs/Exclusion.antt =====
-- src/pump_research/epochs.py: which epochs run, and what a closed epoch keeps.
use pump_research.Prelude.{
  ℕ, ◌≡◌, ◌⊎◌, inl, inr, sym, ap, ◌∙◌, subst, true, false, none, some, List, [], ◌∷◌, ◌++◌, arith,
  ◌==◌, ==→eq, Bool-cases, if-eq-cases,
}
use pump_research.Epochs.{
  planned, running, same_status, is_terminal, CollectionEpochEvent, CollectionEpochCurrent,
  EpochTables, current_of, update_current, another_is_running,
}
use pump_research.Epochs.Projection.{
  next_row, current_of-append_other, current_of-append_own, current_of-update_other,
  current_of-update_own,
}
use pump_research.Epochs.Steps.{
  Step, Change, unchanged, declared, moved, Step-Change, Reach, empty, later,
}
use pump_research.Epochs.Invariants.{
  IsWellFormed, Rows, kept, appears, moves, Reach-IsWellFormed, Reach-RowChange, Edge-IsWellFormed,
}

-- Two running epochs are the same epoch.
abbrev pub IsAlone : EpochTables → Type 0
IsAlone t =
    (i j : ℕ) (c d : CollectionEpochCurrent)
    → current_of i t.currents ≡ some c
    → current_of j t.currents ≡ some d
    → c.status ≡ running
    → d.status ≡ running
    → i ≡ j

another_is_running-false :
    (n : ℕ) (cs : List CollectionEpochCurrent)
    → another_is_running n cs ≡ false
    → (j : ℕ) (d : CollectionEpochCurrent) → current_of j cs ≡ some d
    → d.status ≡ running
    → j ≡ n
unfolding current_of another_is_running same_status
another_is_running-false n [] h j d q s = cc
another_is_running-false n (x ∷ xs) h j d q s = elim (if-eq-cases (x.collection_epoch_id == j) q) [
  | inl (e, k) ↦
      let same : x ≡ d = ground arith in
      let runs : x.status ≡ running = ap (λ (y : CollectionEpochCurrent). y.status) same ∙ s in
      ground arith
  | inr (e, k) ↦ another_is_running-false n xs (ground arith) j d k s
]

-- A row is as it was before a move, or the move is its epoch's.
moved-cases :
    (n : ℕ) (change : CollectionEpochCurrent → CollectionEpochCurrent)
    (keeps : (x : CollectionEpochCurrent) → (change x).collection_epoch_id ≡ x.collection_epoch_id)
    (cs cs' : List CollectionEpochCurrent) (c : CollectionEpochCurrent)
    → current_of n cs ≡ some c
    → cs' ≡ update_current n change cs
    → (i : ℕ) (d : CollectionEpochCurrent) → current_of i cs' ≡ some d
    → ((i ≡ n) × (d ≡ change c)) ⊎ (current_of i cs ≡ some d)
moved-cases n change keeps cs cs' c found same i d h = elim (Bool-cases (n == i)) [
  | inl own ↦
      let here = ==→eq n i own in
      let now =
        sym (current_of-update_own n change keeps cs found)
        ∙ subst (λ m. current_of m (update_current n change cs) ≡ some d) (sym here)
            (sym (ap (current_of i) same) ∙ h) in
      inl (sym here, ground arith)
  | inr other ↦
      inr
        (sym (current_of-update_other n change keeps i cs other) ∙ sym (ap (current_of i) same) ∙ h)
]

module _ (t : EpochTables) where
  -- A running row after a terminal event was running before.
  closing-keeps :
      (n : ℕ) (change : CollectionEpochCurrent → CollectionEpochCurrent)
      (c : CollectionEpochCurrent) (e : CollectionEpochEvent)
      → change c ≡ next_row (some c) e
      → is_terminal e.status ≡ true
      → (i : ℕ) (d : CollectionEpochCurrent)
      → ((i ≡ n) × (d ≡ change c)) ⊎ (current_of i t.currents ≡ some d)
      → d.status ≡ running
      → current_of i t.currents ≡ some d
  unfolding is_terminal
  closing-keeps n change c e next ends i d (inl (_, is_changed)) runs =
      let status : d.status ≡ e.status =
        ap (λ (x : CollectionEpochCurrent). x.status) (is_changed ∙ next) in
      absurd (ground arith)
  closing-keeps n change c e next ends i d (inr before) runs = before

  starting-names :
      (n : ℕ) (change : CollectionEpochCurrent → CollectionEpochCurrent)
      (c : CollectionEpochCurrent)
      → another_is_running n t.currents ≡ false
      → (i : ℕ) (d : CollectionEpochCurrent)
      → ((i ≡ n) × (d ≡ change c)) ⊎ (current_of i t.currents ≡ some d)
      → d.status ≡ running
      → i ≡ n
  starting-names n change c others i d (inl (here, _)) runs = here
  starting-names n change c others i d (inr before) runs =
      another_is_running-false n t.currents others i d before runs

  declared-keeps :
      (c : CollectionEpochCurrent)
      → current_of c.collection_epoch_id t.currents ≡ none
      → c.status ≡ planned
      → (i : ℕ) (d : CollectionEpochCurrent) → current_of i (t.currents ++ c ∷ []) ≡ some d
      → d.status ≡ running
      → current_of i t.currents ≡ some d
  declared-keeps c free is_planned i d h runs = elim (Bool-cases (c.collection_epoch_id == i)) [
    | inl own ↦
        let now =
          sym (current_of-append_own t.currents c free)
          ∙ subst (λ m. current_of m (t.currents ++ c ∷ []) ≡ some d)
              (sym (==→eq c.collection_epoch_id i own)) h in
        let same : c ≡ d = ground arith in
        let status = ap (λ (x : CollectionEpochCurrent). x.status) same in absurd (ground arith)
    | inr other ↦ sym (current_of-append_other i t.currents c other) ∙ h
  ]

  Change-IsAlone : (t' : EpochTables) → Rows t IsWellFormed → IsAlone t → Change t t' → IsAlone t'
  Change-IsAlone t' rows alone (unchanged cs es) i j c d p q r s =
      alone i j c d (sym (ap (current_of i) cs) ∙ p) (sym (ap (current_of j) cs) ∙ q) r s
  Change-IsAlone t' rows alone (declared c e free is_planned same cs es) i j x y p q r s =
      alone i j x y (declared-keeps c free is_planned i x (sym (ap (current_of i) cs) ∙ p) r)
        (declared-keeps c free is_planned j y (sym (ap (current_of j) cs) ∙ q) s) r s
  Change-IsAlone t' rows alone
        (moved n change c e keeps found names (inl (_, _, others, _)) next cs es) i j x y p q r s =
      let at = moved-cases n change keeps t.currents t'.currents c found cs in
      starting-names n change c others i x (at i x p) r
      ∙ sym (starting-names n change c others j y (at j y q) s)
  Change-IsAlone t' rows alone (moved n change c e keeps found names (inr (was, ends)) next cs es) i
        j x y p q r s =
      let at = moved-cases n change keeps t.currents t'.currents c found cs in
      let (no_reason, _) = Edge-IsWellFormed n t c e (rows n c found) (inr (was, ends)) in
      let before = closing-keeps n change c e (next no_reason) ends in
      alone i j x y (before i x (at i x p) r) (before j y (at j y q) s) r s

-- In every reachable state of the epoch tables at most one epoch is running.
pub Reach-IsAlone : {t : EpochTables} → Reach t → IsAlone t
unfolding current_of
Reach-IsAlone empty i j c d p q = cc
Reach-IsAlone (later r step) i j c d p q =
    Change-IsAlone _ _ (Reach-IsWellFormed r) (Reach-IsAlone r) (Step-Change step) i j c d p q

-- In a reachable state, a step leaves the current row of an epoch that is completed, aborted or
-- invalid as it is.
pub Step-terminal_kept :
    {t t' : EpochTables} (r : Reach t) (step : Step t t') (id : ℕ) (c : CollectionEpochCurrent)
    → current_of id t.currents ≡ some c
    → is_terminal c.status ≡ true
    → current_of id t'.currents ≡ some c
unfolding is_terminal
Step-terminal_kept {t} {t'} r step id c h ends = elim (Reach-RowChange r step id) [
  | kept cs es ↦ cs ∙ h
  | appears e _ free _ _ ↦ absurd (ground arith)
  | moves x e edge _ found _ _ ↦
      let same : x ≡ c = ground arith in
      let status : x.status ≡ c.status = ap (λ (y : CollectionEpochCurrent). y.status) same in
      elim edge [
        | inl (was, _, _, _) ↦ absurd (ground arith)
        | inr (was, _) ↦ absurd (ground arith)
      ]
]
