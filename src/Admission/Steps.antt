-- ===== src/Admission/Steps.antt =====
-- The tasks of src/pump_research/persistence/repositories.py as a state machine: what every state
-- keeps, and what a token that has its DEX pair keeps.
use pump_research.Prelude.{
  ℕ, ◌+◌, ◌≡◌, inl, inr, refl, sym, ap, ◌∙◌, subst, true, false, some, List, [], ◌∷◌, ok, All,
  All-map_imp, All-both, arith, ◌==◌, ==→eq, Bool-cases,
}
use pump_research.Admission.{
  TaskState, new, DexAvailabilityTask, DexAvailabilityClaim, is_pending, task_of,
  create_pending_if_absent, is_claimable, due_tasks, task_in, leased, claim_due, is_owned,
  completed, complete,
}
use pump_research.Admission.Keys.{
  claim_due-tables, complete-tables, due_tasks-claimable, due_tasks-All, AreKeyed, AreKeyed-update,
  task_of-update-other, only, create-AreKeyed, create-kept,
}

pub data Step (ts ts' : List DexAvailabilityTask) : Type 0 where
  creates :
      (token_id chain address due_at : ℕ)
      → ts' ≡ (create_pending_if_absent token_id chain address due_at ts).1
      → Step ts ts'
  claims :
      (lease_id now limit lease_duration : ℕ) (cs : List DexAvailabilityClaim)
      → claim_due lease_id now limit lease_duration ts ≡ ok (cs, ts')
      → Step ts ts'
  completes :
      (token_ids : List ℕ) (lease_id checked_at : ℕ) (state : TaskState) (next_check_at : ℕ)
      (done : List DexAvailabilityTask)
      → complete token_ids lease_id checked_at state next_check_at ts ≡ ok (done, ts')
      → Step ts ts'

pub data Reach : List DexAvailabilityTask → Type 0 where
  empty : Reach []
  later : {ts ts' : List DexAvailabilityTask} → Reach ts → Step ts ts' → Reach ts'

Step-AreKeyed : {ts ts' : List DexAvailabilityTask} → Step ts ts' → AreKeyed ts → AreKeyed ts'
unfolding leased completed
Step-AreKeyed {ts} (creates token_id chain address due_at same) h =
    subst AreKeyed (sym same) (create-AreKeyed token_id chain address due_at ts h)
Step-AreKeyed {ts} (claims lease_id now limit lease_duration cs e) h =
    let (_, same) = claim_due-tables lease_id now limit lease_duration ts e in
    subst AreKeyed (sym same) (
      AreKeyed-update (task_in (due_tasks now limit ts))
        (leased lease_id (now + lease_duration) now) (λ t. refl) ts h)
Step-AreKeyed {ts} (completes token_ids lease_id checked_at state next_check_at done e) h =
    elim (complete-tables token_ids lease_id checked_at state next_check_at ts e) [
      | inl same ↦ subst AreKeyed (sym same) h
      | inr same ↦ subst AreKeyed (sym same) (
          AreKeyed-update (is_owned token_ids lease_id) (completed checked_at state next_check_at)
            (λ t. refl) ts h)
    ]

Reach-AreKeyed : {ts : List DexAvailabilityTask} → Reach ts → AreKeyed ts
Reach-AreKeyed empty = tt
Reach-AreKeyed (later r step) = Step-AreKeyed step (Reach-AreKeyed r)

task_in-false :
    (id : ℕ) (rows : List DexAvailabilityTask)
    → All (λ d. ¬ (d.token_id ≡ id)) rows
    → (s : DexAvailabilityTask) → s.token_id ≡ id
    → task_in rows s ≡ false
unfolding task_in
task_in-false id [] h s e = refl
task_in-false id (d ∷ ds) (p, h) s e =
    let rest = task_in-false id ds h s e in
    elim (Bool-cases (d.token_id == s.token_id)) [
      | inl own ↦ absurd (p (==→eq d.token_id s.token_id own ∙ e))
      | inr other ↦ rw (other, rest) refl
    ]

-- The token's only row is NEW, so it is neither due nor owned.
module _ (id : ℕ) (task : DexAvailabilityTask) (is_new : task.state ≡ new)
    (ts : List DexAvailabilityTask) (unique : All (λ s. s.token_id ≡ id → s ≡ task) ts) where
  new-unclaimed :
      (now limit : ℕ) → All (λ s. s.token_id ≡ id → task_in (due_tasks now limit ts) s ≡ false) ts
  unfolding is_claimable is_pending
  new-unclaimed now limit =
      let rows = due_tasks now limit ts in
      let apart : All (λ d. ¬ (d.token_id ≡ id)) rows =
        All-both (λ d. is_claimable now d ≡ true) (λ d. d.token_id ≡ id → d ≡ task)
          (λ d. ¬ (d.token_id ≡ id))
          (λ d claimable same e.
            let state : d.state ≡ new =
              ap (λ (x : DexAvailabilityTask). x.state) (same e) ∙ is_new in
            absurd (ground arith))
          rows (due_tasks-claimable now limit ts)
          (due_tasks-All (λ d. d.token_id ≡ id → d ≡ task) now limit ts unique) in
      All-map_imp ts (λ s _. task_in-false id rows apart s) unique

  new-unowned :
      (token_ids : List ℕ) (lease_id : ℕ)
      → All (λ s. s.token_id ≡ id → is_owned token_ids lease_id s ≡ false) ts
  unfolding is_owned is_pending
  new-unowned token_ids lease_id =
      All-map_imp ts
        (λ s same e.
          let state : s.state ≡ new = ap (λ (x : DexAvailabilityTask). x.state) (same e) ∙ is_new in
          ground arith)
        unique

-- A token that has its DEX pair is done: in a reachable state, no creation, claim or completion
-- changes a task that is NEW.
pub Step-new_kept :
    {ts ts' : List DexAvailabilityTask} (r : Reach ts) (step : Step ts ts') (id : ℕ)
    (task : DexAvailabilityTask)
    → task_of id ts ≡ some task
    → task.state ≡ new
    → task_of id ts' ≡ some task
unfolding leased completed
Step-new_kept {ts} r (creates token_id chain address due_at same) id task found is_new =
    ap (task_of id) same ∙ create-kept token_id chain address due_at id ts found
Step-new_kept {ts} r (claims lease_id now limit lease_duration cs e) id task found is_new =
    let (_, same) = claim_due-tables lease_id now limit lease_duration ts e in
    ap (task_of id) same
    ∙ task_of-update-other (task_in (due_tasks now limit ts))
        (leased lease_id (now + lease_duration) now) (λ t. refl) id ts
        (new-unclaimed id task is_new ts (only id ts (Reach-AreKeyed r) found) now limit)
    ∙ found
Step-new_kept {ts} r (completes token_ids lease_id checked_at state next_check_at done e) id task
      found is_new =
    elim (complete-tables token_ids lease_id checked_at state next_check_at ts e) [
      | inl same ↦ ap (task_of id) same ∙ found
      | inr same ↦
          ap (task_of id) same
          ∙ task_of-update-other (is_owned token_ids lease_id)
              (completed checked_at state next_check_at) (λ t. refl) id ts
              (new-unowned id task is_new ts (only id ts (Reach-AreKeyed r) found) token_ids
                lease_id)
          ∙ found
    ]
