-- ===== src/Scheduler/Rebase/Outcome.antt =====
-- The schedules that `initialize_epoch_in_session` of src/pump_research/scheduling/scheduler.py
-- leaves.
use pump_research.Prelude.{
  ◌≢◌, Bool, leb, is_some, ℕ, suc, ◌+◌, ◌*◌, ◌≤◌, ◌<◌, ◌≡◌, ◌⊎◌, inl, inr, refl, sym, ap, ◌∙◌, none,
  some, List, Result, ok, arith, All, length, map,
}
use pump_research.Prelude.Sorting.{length-sort_by, All-sort_by}
use pump_research.Coverage.{coverage_class_for}
use pump_research.Scheduler.Rows.{
  CoverageClass, retired_control, PollSchedule, Database, SchedulerError, AdaptiveScheduler,
  CapacityDecision, IsStored,
}
use pump_research.Scheduler.Rebase.{
  LifecycleRow, in_token_order, Rebase, rebased_row, settled_row, initialize_epoch_in_session,
}
use pump_research.Scheduler.Rebase.Pairing.{
  IsRebase, Paired, no_rows, a_row, epoch_due-within, epoch_due-retired, initialize-IsInitialized,
}

module _ {Float : Type 0} (scheduler : AdaptiveScheduler Float) (events : List LifecycleRow)
    (plan : Database → Result SchedulerError CapacityDecision)
    (collection_epoch_id started_at : ℕ) where
  -- The schedule is free, has the class of the policy at the start of the epoch, and is due within
  -- its effective interval where it is not retired, and never where it is.
  pub record IsRebased (s : PollSchedule) : Type 0 where
    pub unleased : s.lease_id ≡ none
    pub admission : ℕ
    pub admitted : s.admitted_at ≡ some admission
    pub coverage : CoverageClass
    pub mapped : s.coverage_class ≡ some coverage
    pub classified :
        coverage_class_for
          (scheduler.policy)
          s.lifecycle_state
          admission
          s.state_decided_at
          started_at
        ≡ ok coverage
    pub due :
        ((coverage ≡ retired_control) × (s.next_due_at ≡ none))
        ⊎ ((coverage ≢ retired_control)
            × (at : ℕ) × (interval : ℕ) × (s.next_due_at ≡ some at)
            × (s.effective_interval_seconds ≡ some interval)
            × (started_at ≤ at)
            × (at < started_at + interval * 1_000_000))

  Paired-IsRebased :
      {capacity : CapacityDecision} {ss rows : List PollSchedule}
      → Paired scheduler events plan collection_epoch_id started_at capacity ss rows
      → All IsRebased rows
  unfolding settled_row rebased_row
  Paired-IsRebased no_rows = tt
  Paired-IsRebased {capacity} (a_row {s} r due i at rest) = (
    record {
      unleased = ap (λ (x : PollSchedule). x.lease_id) i.row;
      admission = r.admission;
      admitted = ap (λ (x : PollSchedule). x.admitted_at) i.row;
      coverage = r.coverage;
      mapped = ap (λ (x : PollSchedule). x.coverage_class) i.row;
      classified =
          ap
            (λ (x : PollSchedule).
              coverage_class_for (scheduler.policy) x.lifecycle_state r.admission x.state_decided_at
                started_at)
            i.row
          ∙ i.classified;
      due =
          elim (epoch_due-within scheduler events plan collection_epoch_id started_at capacity r
            at) [
              | inl retired ↦ inl retired
              | inr (apart, time, found, after, before) ↦
                  inr (apart, time, _, found, refl, after, before)
            ];
    },
    Paired-IsRebased rest,
  )

  Paired-tokens :
      {capacity : CapacityDecision} {ss rows : List PollSchedule}
      → Paired scheduler events plan collection_epoch_id started_at capacity ss rows
      → map (λ s. s.token_id) rows ≡ map (λ s. s.token_id) ss
  unfolding settled_row rebased_row
  Paired-tokens no_rows = refl
  Paired-tokens (a_row {s} r due i at rest) =
      let same = ap (λ (x : PollSchedule). x.token_id) i.row in rw (same, Paired-tokens rest) refl

  -- Two tests that agree on the row that the first loop makes.
  agree :
      {s : PollSchedule} {r : Rebase}
      (i : IsRebase scheduler events plan collection_epoch_id started_at s r)
      (f g : PollSchedule → Bool)
      → f (
          rebased_row scheduler events plan collection_epoch_id started_at s r.admission r.coverage
            i.next)
        ≡ g (
            rebased_row scheduler events plan collection_epoch_id started_at s r.admission
              r.coverage i.next)
      → f r.row ≡ g r.row
  agree i f g h = ap f i.row ∙ h ∙ sym (ap g i.row)

  Paired-IsStored :
      {capacity : CapacityDecision} {ss rows : List PollSchedule}
      → Paired scheduler events plan collection_epoch_id started_at capacity ss rows
      → All IsStored ss
      → All IsStored rows
  unfolding settled_row rebased_row
  Paired-IsStored no_rows h = tt
  Paired-IsStored {capacity} (a_row {s} r due i at rest) (stored, h) =
      let mapped = ap (λ (x : PollSchedule). x.coverage_class) i.row in
      (
        record {
          projection_admitted =
              agree i (λ x. is_some x.coverage_class) (λ x. is_some x.admitted_at) refl;
          projection_decided =
              agree i (λ x. is_some x.coverage_class) (λ x. is_some x.coverage_decided_at) refl;
          projection_policy =
              agree i (λ x. is_some x.coverage_class) (λ x. is_some x.coverage_policy_sha256) refl;
          retired_not_due = λ k.
              epoch_due-retired scheduler events plan collection_epoch_id started_at capacity r at
                (ground arith);
          lease_pair = agree i (λ x. is_some x.lease_id) (λ x. is_some x.lease_expires_at) refl;
          candidate_interval =
              agree i (λ x. is_some x.candidate_coverage_expires_at)
                (λ x. is_some x.candidate_coverage_interval_seconds) stored.candidate_interval;
          candidate_event =
              agree i (λ x. is_some x.candidate_coverage_expires_at)
                (λ x. is_some x.candidate_tier_event_id) stored.candidate_event;
        },
        Paired-IsStored rest h,
      )

  Paired-length :
      {capacity : CapacityDecision} {ss rows : List PollSchedule}
      → Paired scheduler events plan collection_epoch_id started_at capacity ss rows
      → length rows ≡ length ss
  Paired-length no_rows = refl
  Paired-length (a_row r due i at rest) = ap suc (Paired-length rest)

  -- The start of an epoch that returns gives the number of schedules, and leaves a table with a row
  -- for each of their tokens, in the order of the tokens. No row stays leased, and each has the
  -- coverage class that the policy gives it at the start. A row that is not retired is due within its
  -- effective interval from the start, and a retired one never.
  pub initialize_epoch_in_session-IsRebased :
      (db : Database) {n : ℕ} {db' : Database}
      → initialize_epoch_in_session scheduler events plan collection_epoch_id started_at db
        ≡ ok (n, db')
      → (n ≡ length db.schedules)
        × (map (λ s. s.token_id) db'.schedules
            ≡ map (λ s. s.token_id) (in_token_order db.schedules))
        × All IsRebased db'.schedules
  unfolding in_token_order
  initialize_epoch_in_session-IsRebased db h =
      let i = initialize-IsInitialized scheduler events plan collection_epoch_id started_at db h in
      (
        i.counted
            ∙ Paired-length i.paired
            ∙ length-sort_by (λ a b. leb a.token_id b.token_id) db.schedules,
        Paired-tokens i.paired,
        Paired-IsRebased i.paired,
      )

  pub initialize_epoch_in_session-IsStored :
      (db : Database) {n : ℕ} {db' : Database}
      → All IsStored db.schedules
      → initialize_epoch_in_session scheduler events plan collection_epoch_id started_at db
        ≡ ok (n, db')
      → All IsStored db'.schedules
  unfolding in_token_order
  initialize_epoch_in_session-IsStored db h e =
      Paired-IsStored
        (initialize-IsInitialized scheduler events plan collection_epoch_id started_at db e).paired
        (All-sort_by (λ a b. leb a.token_id b.token_id) IsStored db.schedules h)
