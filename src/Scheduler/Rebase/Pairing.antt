-- ===== src/Scheduler/Rebase/Pairing.antt =====
-- What the two loops of `initialize_epoch_in_session` of
-- src/pump_research/scheduling/scheduler.py make of each schedule.
use native.Mathlib.Nat.{mod-lt}
use pump_research.Prelude.{
  ◌≢◌, ◌%◌, is_some, if◌then◌else◌, ℕ, ◌+◌, ◌*◌, ◌≤◌, ◌<◌, ◌≡◌, ◌⊎◌, inl, inr, refl, sym, ap, ◌∙◌,
  subst, Option, none, some, List, [], ◌∷◌, Result, ok, err, >>=-eq-ok, arith, if-eq-cases, ◌==◌,
  length, not,
}
use pump_research.Coverage.{coverage_class_for, next_transition_at}
use pump_research.Scheduler.Rows.{
  retired_control, PollSchedule, Database, SchedulerError, AdaptiveScheduler, CapacityDecision,
  same_class, same_class→eq, same_class-apart, epoch_start_rebase,
  epoch_start_legacy_reconstruction, coverage_reconstruction,
}
use pump_research.Scheduler.Refresh.{lift}
use pump_research.Scheduler.Refresh.Inversion.{lift-eq-ok}
use pump_research.Scheduler.Rebase.{
  LifecycleRow, all_resolved, in_token_order, Rebase, rebased_row, rebase_as, rebase_row,
  rebase_rows, admission_of, epoch_due, settled_row, record_rebase, settle_rows,
  initialize_resolved, initialize_epoch_in_session,
}

module _ {Float : Type 0} (scheduler : AdaptiveScheduler Float) (events : List LifecycleRow)
    (plan : Database → Result SchedulerError CapacityDecision)
    (collection_epoch_id started_at : ℕ) where
  -- What the first loop makes of a schedule.
  pub record IsRebase (s : PollSchedule) (r : Rebase) : Type 0 where
    pub next : Option ℕ
    pub row :
        r.row
        ≡ rebased_row scheduler events plan collection_epoch_id started_at s r.admission r.coverage
            next
    pub classified :
        coverage_class_for
          (scheduler.policy)
          s.lifecycle_state
          r.admission
          s.state_decided_at
          started_at
        ≡ ok r.coverage

  rebase_as-IsRebase :
      (s : PollSchedule) (admission : ℕ) {r : Rebase}
      → rebase_as scheduler events plan collection_epoch_id started_at s admission ≡ ok r
      → IsRebase s r
  unfolding rebase_as
  rebase_as-IsRebase s admission {r} h =
      let (c, e, k) =
        >>=-eq-ok
          (lift (
            coverage_class_for (scheduler.policy) s.lifecycle_state admission s.state_decided_at
              started_at))
          _ h in
      let (n, _, l) =
        >>=-eq-ok
          (lift (
            next_transition_at (scheduler.policy) s.lifecycle_state admission s.state_decided_at
              started_at))
          _ k in
      let made : Rebase = record {
        row = rebased_row scheduler events plan collection_epoch_id started_at s admission c n;
        admission = admission;
        coverage = c;
        previous_class = s.coverage_class;
        previous_due_at = s.next_due_at;
        reason_code =
            if is_some s.coverage_class
            then epoch_start_rebase
            else epoch_start_legacy_reconstruction;
      } in
      let same : made ≡ r = ground arith in
      subst (IsRebase s) same (record { next = n; row = refl; classified = lift-eq-ok _ e })

  rebase_row-IsRebase :
      (s : PollSchedule) {r : Rebase}
      → rebase_row scheduler events plan collection_epoch_id started_at s ≡ ok r
      → IsRebase s r
  unfolding rebase_row
  rebase_row-IsRebase s {r} h = go (admission_of events s) h
    where
      go :
          (found : Option ℕ)
          → elim found as (λ _. Result SchedulerError Rebase) [
            | none ↦ err coverage_reconstruction
            | some admission ↦
                rebase_as scheduler events plan collection_epoch_id started_at s admission
          ]
            ≡ ok r
          → IsRebase s r
      go none e = cc
      go (some admission) e = rebase_as-IsRebase s admission e

  pub epoch_due-within :
      (capacity : CapacityDecision) (r : Rebase) {due : Option ℕ}
      → epoch_due scheduler events plan collection_epoch_id started_at capacity r ≡ ok due
      → ((r.coverage ≡ retired_control) × (due ≡ none))
        ⊎ ((r.coverage ≢ retired_control)
            × (at : ℕ) × (due ≡ some at)
            × (started_at ≤ at)
            × (at < started_at + capacity.effective_interval_seconds r.coverage * 1_000_000))
  unfolding epoch_due
  epoch_due-within capacity r {due} h =
      elim (if-eq-cases (same_class r.coverage retired_control) h) [
        | inl (retired, k) ↦ inl (same_class→eq r.coverage retired_control retired, ground arith)
        | inr (apart, k) ↦
            elim (if-eq-cases (capacity.effective_interval_seconds r.coverage == 0) k) [
              | inl (_, l) ↦ cc
              | inr (positive, l) ↦
                  let interval = capacity.effective_interval_seconds r.coverage in
                  let phase = scheduler.epoch_digest collection_epoch_id r.row.token_id in
                  let within : phase % (interval * 1_000_000) < interval * 1_000_000 =
                    mod-lt phase (ground arith) in
                  inr (
                    λ e. same_class-apart r.coverage retired_control apart e,
                    started_at + phase % (interval * 1_000_000),
                    ground arith,
                    omega arith,
                    omega arith,
                  )
            ]
      ]

  pub epoch_due-retired :
      (capacity : CapacityDecision) (r : Rebase) {due : Option ℕ}
      → epoch_due scheduler events plan collection_epoch_id started_at capacity r ≡ ok due
      → r.coverage ≡ retired_control
      → due ≡ none
  unfolding epoch_due same_class
  epoch_due-retired capacity r h retired = ground arith

  -- What the second loop leaves of a schedule.
  pub data Paired (capacity : CapacityDecision)
      : List PollSchedule → List PollSchedule → Type 0 where
    no_rows : Paired capacity [] []
    a_row :
        {s : PollSchedule} {ss rows : List PollSchedule} (r : Rebase) (due : Option ℕ)
        → IsRebase s r
        → epoch_due scheduler events plan collection_epoch_id started_at capacity r ≡ ok due
        → Paired capacity ss rows
        → Paired capacity
            (s ∷ ss)
            (settled_row scheduler events plan collection_epoch_id started_at capacity r due ∷ rows)

  loops-Paired :
      (capacity : CapacityDecision) (ss : List PollSchedule) (rs : List Rebase) (db : Database)
      {rows : List PollSchedule} {db' : Database}
      → rebase_rows scheduler events plan collection_epoch_id started_at ss ≡ ok rs
      → settle_rows scheduler events plan collection_epoch_id started_at capacity rs db
        ≡ ok (rows, db')
      → Paired capacity ss rows
  unfolding rebase_rows settle_rows
  loops-Paired capacity [] [] db {rows} h k =
      let none_left : [] ≡ rows = ground arith in subst (Paired capacity []) none_left no_rows
  loops-Paired capacity [] (r ∷ rs) db h k = cc
  loops-Paired capacity (s ∷ ss) rs db {rows} {db'} h k =
      let (r, first, h') =
        >>=-eq-ok (rebase_row scheduler events plan collection_epoch_id started_at s) _ h in
      let (rest, others, h'') =
        >>=-eq-ok (rebase_rows scheduler events plan collection_epoch_id started_at ss) _ h' in
      let same : rs ≡ r ∷ rest = ground arith in
      let k0 : settle_rows scheduler events plan collection_epoch_id started_at capacity (r ∷ rest)
            db
          ≡ ok (rows, db') =
        ap (λ xs. settle_rows scheduler events plan collection_epoch_id started_at capacity xs db)
          (sym same)
        ∙ k in
      let (due, at, k') =
        >>=-eq-ok (epoch_due scheduler events plan collection_epoch_id started_at capacity r) _
          k0 in
      let (db1, _, k'') =
        >>=-eq-ok
          (record_rebase scheduler events plan collection_epoch_id started_at capacity r due db) _
          k' in
      let (out, end, k''') =
        >>=-eq-ok
          (settle_rows scheduler events plan collection_epoch_id started_at capacity rest db1) _
          k'' in
      let left : settled_row scheduler events plan collection_epoch_id started_at capacity r due
            ∷ out.0
          ≡ rows =
        ground arith in
      subst (Paired capacity (s ∷ ss)) left (
        a_row r due (rebase_row-IsRebase s first) at (loops-Paired capacity ss rest db1 others end))

  -- A successful start pairs the schedules in the order of their tokens with the new ones.
  pub record IsInitialized (db db' : Database) (n : ℕ) : Type 0 where
    pub capacity : CapacityDecision
    pub paired : Paired capacity (in_token_order db.schedules) db'.schedules
    pub counted : n ≡ length db'.schedules

  pub initialize-IsInitialized :
      (db : Database) {n : ℕ} {db' : Database}
      → initialize_epoch_in_session scheduler events plan collection_epoch_id started_at db
        ≡ ok (n, db')
      → IsInitialized db db' n
  unfolding initialize_epoch_in_session initialize_resolved
  initialize-IsInitialized db {n} {db'} h =
      elim (if-eq-cases (not (all_resolved events (in_token_order db.schedules))) h) [
        | inl (_, k) ↦ cc
        | inr (_, k) ↦
            let (rs, first, k') =
              >>=-eq-ok
                (rebase_rows scheduler events plan collection_epoch_id started_at
                  (in_token_order db.schedules))
                _ k in
            let (capacity, _, k'') = >>=-eq-ok (plan _) _ k' in
            let (out, second, k''') =
              >>=-eq-ok
                (settle_rows scheduler events plan collection_epoch_id started_at capacity rs _) _
                k'' in
            let rows : out.0 ≡ db'.schedules = ground arith in
            record {
              capacity = capacity;
              paired =
                  subst (Paired capacity (in_token_order db.schedules)) rows
                    (loops-Paired capacity (in_token_order db.schedules) rs _ first second);
              counted = ground arith;
            }
      ]
