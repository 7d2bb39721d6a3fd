-- ===== src/Admission/Keys.antt =====
-- The tables that the operations of `DexAvailabilityTaskRepository` in
-- src/pump_research/persistence/repositories.py leave, and their primary key.
use pump_research.Prelude.{
  ℕ, ◌+◌, ◌≡◌, ◌⊎◌, inl, inr, refl, sym, ap, ◌∙◌, subst, Bool, true, false, not, Option, none, some,
  List, [], ◌∷◌, ◌++◌, ok, All, All-select, All-take, All-select_keep, arith, ◌==◌, ==→eq,
  if◌then◌else◌, if-eq-cases, Bool-cases, length, ltb, leb, map, select as where_,
}
use pump_research.Prelude.Sorting.{All-sort_by}
use pump_research.Admission.{
  TaskState, DexAvailabilityTask, DexAvailabilityClaim, task_of, pending_task,
  create_pending_if_absent, is_claimable, check_before, due_tasks, task_in, leased, update_tasks,
  claim_of, claim_due, is_owned, completed, complete,
}

pub update_tasks-All :
    (P Q : DexAvailabilityTask → Type 0) (test : DexAvailabilityTask → Bool)
    (change : DexAvailabilityTask → DexAvailabilityTask) (ts : List DexAvailabilityTask)
    → ((t : DexAvailabilityTask) → P t → test t ≡ true → Q (change t))
    → ((t : DexAvailabilityTask) → P t → test t ≡ false → Q t)
    → All P ts
    → All Q (update_tasks test change ts)
unfolding update_tasks
update_tasks-All P Q test change [] f g h = tt
update_tasks-All P Q test change (t ∷ ts) f g (p, h) =
    (go (test t) refl, update_tasks-All P Q test change ts f g h)
  where
    go : (b : Bool) → test t ≡ b → Q (if b then change t else t)
    go true e = f t p e
    go false e = g t p e

pub claim_due-tables :
    (lease_id now limit lease_duration : ℕ) (ts : List DexAvailabilityTask)
    {cs : List DexAvailabilityClaim} {ts' : List DexAvailabilityTask}
    → claim_due lease_id now limit lease_duration ts ≡ ok (cs, ts')
    → (cs ≡ map (claim_of lease_id) (due_tasks now limit ts))
      × (ts'
          ≡ update_tasks
              (task_in (due_tasks now limit ts))
              (leased lease_id (now + lease_duration) now)
              ts)
unfolding claim_due
claim_due-tables lease_id now limit lease_duration ts h = elim (if-eq-cases (ltb limit 1) h) [
  | inl (_, k) ↦ cc
  | inr (_, k) ↦ elim (if-eq-cases (leb lease_duration 0) k) [
    | inl (_, l) ↦ cc
    | inr (_, l) ↦ (ground arith, ground arith)
  ]
]

pub complete-tables :
    (token_ids : List ℕ) (lease_id checked_at : ℕ) (state : TaskState) (next_check_at : ℕ)
    (ts : List DexAvailabilityTask) {done ts' : List DexAvailabilityTask}
    → complete token_ids lease_id checked_at state next_check_at ts ≡ ok (done, ts')
    → (ts' ≡ ts)
      ⊎ (ts'
          ≡ update_tasks
              (is_owned token_ids lease_id)
              (completed checked_at state next_check_at)
              ts)
unfolding complete
complete-tables [] lease_id checked_at state next_check_at ts h = inl (ground arith)
complete-tables (id ∷ ids) lease_id checked_at state next_check_at ts h =
    elim (if-eq-cases (not (length (where_ (is_owned (id ∷ ids) lease_id) ts) == length (id ∷ ids)))
      h) [ inl (_, k) ↦ cc | inr (_, k) ↦ inr (ground arith) ]

-- What is claimed is pending, due and without a lease in force.
pub due_tasks-claimable :
    (now limit : ℕ) (ts : List DexAvailabilityTask)
    → All (λ t. is_claimable now t ≡ true) (due_tasks now limit ts)
unfolding due_tasks
due_tasks-claimable now limit ts =
    All-take (λ t. is_claimable now t ≡ true) limit _
      (All-sort_by check_before (λ t. is_claimable now t ≡ true) _
        (All-select (is_claimable now) ts))

pub due_tasks-All :
    (P : DexAvailabilityTask → Type 0) (now limit : ℕ) (ts : List DexAvailabilityTask)
    → All P ts
    → All P (due_tasks now limit ts)
unfolding due_tasks
due_tasks-All P now limit ts h =
    All-take P limit _ (All-sort_by check_before P _ (All-select_keep P (is_claimable now) ts h))

-- The primary key: a token has one task.
abbrev pub AreKeyed : List DexAvailabilityTask → Type 0
AreKeyed [] = Unit
AreKeyed (t ∷ ts) = (task_of t.token_id ts ≡ none) × AreKeyed ts

task_of-append :
    (id : ℕ) (ts : List DexAvailabilityTask) (t : DexAvailabilityTask)
    → task_of id ts ≡ none
    → task_of id (ts ++ t ∷ []) ≡ (if t.token_id == id then some t else none)
unfolding task_of
task_of-append id [] t h = refl
task_of-append id (x ∷ xs) t h = ground (arith, task_of-append id xs t)

AreKeyed-append :
    (ts : List DexAvailabilityTask) (t : DexAvailabilityTask)
    → AreKeyed ts
    → task_of t.token_id ts ≡ none
    → AreKeyed (ts ++ t ∷ [])
unfolding task_of
AreKeyed-append [] t h k = (refl, tt)
AreKeyed-append (x ∷ xs) t (fresh, rest) k =
    let apart : (t.token_id == x.token_id) ≡ false = ground arith in
    (task_of-append x.token_id xs t fresh ∙ rw apart refl, AreKeyed-append xs t rest (ground arith))

module _ (test : DexAvailabilityTask → Bool) (change : DexAvailabilityTask → DexAvailabilityTask)
    (keeps : (t : DexAvailabilityTask) → (change t).token_id ≡ t.token_id) where
  kept_id : (t : DexAvailabilityTask) → (if test t then change t else t).token_id ≡ t.token_id
  kept_id t =
      elim (test t)
        as (λ b. (if◌then◌else◌ {A = DexAvailabilityTask} b (change t) t).token_id ≡ t.token_id) [
          | true ↦ keeps t
          | false ↦ refl
        ]

  task_of-update-none :
      (id : ℕ) (ts : List DexAvailabilityTask)
      → task_of id ts ≡ none
      → task_of id (update_tasks test change ts) ≡ none
  unfolding task_of update_tasks
  task_of-update-none id [] h = refl
  task_of-update-none id (x ∷ xs) h =
      let same = kept_id x in let rest = task_of-update-none id xs in ground (arith, same, rest)

  pub AreKeyed-update :
      (ts : List DexAvailabilityTask) → AreKeyed ts → AreKeyed (update_tasks test change ts)
  unfolding update_tasks
  AreKeyed-update [] h = tt
  AreKeyed-update (x ∷ xs) (fresh, rest) = (
    subst (λ n. task_of n (update_tasks test change xs) ≡ none) (sym (kept_id x))
        (task_of-update-none x.token_id xs fresh),
    AreKeyed-update xs rest,
  )

  -- An update that passes over the token's row.
  pub task_of-update-other :
      (id : ℕ) (ts : List DexAvailabilityTask)
      → All (λ s. s.token_id ≡ id → test s ≡ false) ts
      → task_of id (update_tasks test change ts) ≡ task_of id ts
  unfolding task_of update_tasks
  task_of-update-other id [] h = refl
  task_of-update-other id (x ∷ xs) (p, h) = elim (Bool-cases (x.token_id == id)) [
    | inl own ↦ rw (p (==→eq x.token_id id own), if◌then◌else◌, own) refl
    | inr other ↦
        let same : ((if test x then change x else x).token_id == id) ≡ false =
          ap (λ n. n == id) (kept_id x) ∙ other in
        rw (same, other) (task_of-update-other id xs h)
  ]

pub only :
    (id : ℕ) (ts : List DexAvailabilityTask) {task : DexAvailabilityTask}
    → AreKeyed ts
    → task_of id ts ≡ some task
    → All (λ s. s.token_id ≡ id → s ≡ task) ts
unfolding task_of
only id [] h e = tt
only id (x ∷ xs) {task} (fresh, rest) e = elim (if-eq-cases (x.token_id == id) e) [
  | inl (own, k) ↦
      let same : x ≡ task = ground arith in
      (λ _. same, none_other xs (subst (λ n. task_of n xs ≡ none) (==→eq x.token_id id own) fresh))
  | inr (other, k) ↦ (λ h. absurd (ground arith), only id xs rest k)
]
  where
    none_other :
        (ys : List DexAvailabilityTask)
        → task_of id ys ≡ none
        → All (λ s. s.token_id ≡ id → s ≡ task) ys
    none_other [] h = tt
    none_other (y ∷ ys) h = (λ k. absurd (ground arith), none_other ys (ground arith))

pub create-AreKeyed :
    (token_id chain address due_at : ℕ) (ts : List DexAvailabilityTask)
    → AreKeyed ts
    → AreKeyed (create_pending_if_absent token_id chain address due_at ts).1
unfolding create_pending_if_absent pending_task
create-AreKeyed token_id chain address due_at ts h = go (task_of token_id ts) refl
  where
    go :
        (found : Option DexAvailabilityTask)
        → task_of token_id ts ≡ found
        → AreKeyed
            (elim found as (λ _. (DexAvailabilityTask × Bool) × List DexAvailabilityTask) [
              | some t ↦ ((t, false), ts)
              | none ↦ (
                (pending_task token_id chain address due_at, true),
                ts ++ pending_task token_id chain address due_at ∷ [],
              )
            ]).1
    go none e = AreKeyed-append ts (pending_task token_id chain address due_at) h e
    go (some t) e = h

task_of-found :
    (id : ℕ) (ts : List DexAvailabilityTask) (t : DexAvailabilityTask) {task : DexAvailabilityTask}
    → task_of id ts ≡ some task
    → task_of id (ts ++ t ∷ []) ≡ some task
unfolding task_of
task_of-found id [] t h = cc
task_of-found id (x ∷ xs) t {task} h = ground (arith, task_of-found id xs t {task = task})

pub create-kept :
    (token_id chain address due_at id : ℕ) (ts : List DexAvailabilityTask)
    {task : DexAvailabilityTask}
    → task_of id ts ≡ some task
    → task_of id (create_pending_if_absent token_id chain address due_at ts).1 ≡ some task
unfolding create_pending_if_absent
create-kept token_id chain address due_at id ts {task} h =
    elim (task_of token_id ts)
      as (λ found.
        task_of id
          (elim found as (λ _. (DexAvailabilityTask × Bool) × List DexAvailabilityTask) [
            | some t ↦ ((t, false), ts)
            | none ↦ (
              (pending_task token_id chain address due_at, true),
              ts ++ pending_task token_id chain address due_at ∷ [],
            )
          ]).1
        ≡ some task) [
          | none ↦ task_of-found id ts (pending_task token_id chain address due_at) h
          | some t ↦ h
        ]
