-- ===== src/Scheduler/Claim/Exclusion.antt =====
-- The leases of `claim_next_batch` in src/pump_research/scheduling/scheduler.py, and two claims.
use pump_research.Prelude.{
  ℕ, ◌+◌, ◌<◌, ◌≡◌, ◌≢◌, true, Option, some, List, Result, ok, >>=-eq-ok, All, All-map_imp, arith,
  ◌∙◌, sym, subst, ◌==◌, ◌&&◌,
}
use pump_research.Prelude.Sorting.{All-query}
use pump_research.Scheduler.Rows.{
  CapacityDecision, PollSchedule, BatchKind, CoverageDecision, coverage_boundary_elapsed, Database,
  SchedulerError, AdaptiveScheduler,
}
use pump_research.Scheduler.Selection.{
  is_unleased, is_eligible, is_control, ordinary_before, control_before,
}
use pump_research.Scheduler.Refresh.{refresh_one_coverage}
use pump_research.Scheduler.Refresh.Constraints.{refresh_one_coverage-lease}
use pump_research.Scheduler.Advance.{advance_coverage_transitions}
use pump_research.Scheduler.Advance.Preservation.{advance_coverage_transitions-All}
use pump_research.Scheduler.Claim.{
  PollBatchClaim, planned_batch, claim_planned, claim_next_batch, ordinary_rows, control_rows,
}
use pump_research.Scheduler.Claim.Leases.{IsHeld, claim_rows-IsHeld, claim_rows-tokens}
use pump_research.Scheduler.Claim.Branches.{claim_planned-IsClaim}
use pump_research.Scheduler.Claim.Inversion.{IsSelection, for_ordinary, for_control}

-- A refresh leaves the lease of a row alone.
refresh-IsHeld :
    {Float : Type 0} (scheduler : AdaptiveScheduler Float) (now : ℕ) (run : Option ℕ)
    (batch_id expires token_id : ℕ) (s t : PollSchedule) (d : Option CoverageDecision)
    → IsHeld batch_id expires token_id s
    → refresh_one_coverage scheduler s now coverage_boundary_elapsed run ≡ ok (t, d)
    → IsHeld batch_id expires token_id t
refresh-IsHeld scheduler now run batch_id expires token_id s t d h e =
    let (same, holder, until) =
      refresh_one_coverage-lease scheduler s now coverage_boundary_elapsed run e in
    λ is_token. let (b, x) = h (sym same ∙ is_token) in (holder ∙ b, until ∙ x)

module _ {Float : Type 0} (scheduler : AdaptiveScheduler Float) (now : ℕ) (run : Option ℕ) (id : ℕ)
    (capacity : CapacityDecision) where
  -- Of the rows of the table a claim takes ones that nobody holds.
  pub IsSelection-All :
      (P Q : PollSchedule → Type 0) (f : (s : PollSchedule) → P s → is_unleased now s ≡ true → Q s)
      {window chain : ℕ} {db : Database} {kind : BatchKind} {start : Option ℕ}
      {rows : List PollSchedule}
      → IsSelection scheduler now run id capacity window chain db kind start rows
      → All P db.schedules
      → All Q rows
  unfolding ordinary_rows control_rows
  IsSelection-All P Q f {window} {chain} {db} for_ordinary h =
      All-query ordinary_before Q _ (λ s. s.chain == chain && is_eligible now s) db.schedules
        (All-map_imp db.schedules (λ s p k. f s p (ground arith)) h)
  IsSelection-All P Q f {window} {chain} {db} (for_control free) h =
      All-query control_before Q _ (λ s. s.chain == chain && is_control now s) db.schedules
        (All-map_imp db.schedules (λ s p k. f s p (ground arith)) h)

  -- The tokens of a claim are held until its lease expires.
  claim_planned-IsHeld :
      (db : Database) {c : PollBatchClaim} {db' : Database}
      → claim_planned scheduler now run id capacity db ≡ ok (some c, db')
      → All
          (λ m. All (IsHeld id (now + scheduler.policy.lease_duration) m.token_id) db'.schedules)
          c.members
  unfolding planned_batch
  claim_planned-IsHeld db {c} {db'} e =
      let (_, k) = claim_planned-IsClaim scheduler now run id capacity db e in
      subst
        (λ (x : PollBatchClaim).
          All
            (λ m. All (IsHeld id (now + scheduler.policy.lease_duration) m.token_id) db'.schedules)
            x.members)
        (sym k.claim)
        (claim_rows-IsHeld id (now + scheduler.policy.lease_duration) k.one k.leases k.rows _ k.ran)

  -- A token that is held beyond the time of a claim is not claimed.
  claim_planned-free :
      (db : Database) (batch_id expires token_id : ℕ) {c : PollBatchClaim} {db' : Database}
      → now < expires
      → All (IsHeld batch_id expires token_id) db.schedules
      → claim_planned scheduler now run id capacity db ≡ ok (some c, db')
      → All (λ m. token_id ≢ m.token_id) c.members
  claim_planned-free db batch_id expires token_id {c} {db'} before h e =
      let (_, k) = claim_planned-IsClaim scheduler now run id capacity db e in
      let rows : All (λ (s : PollSchedule). token_id ≢ s.token_id) k.rows =
        IsSelection-All (IsHeld batch_id expires token_id) (λ s. token_id ≢ s.token_id) not_held
          k.selection h in
      subst (λ (x : PollBatchClaim). All (λ m. token_id ≢ m.token_id) x.members) (sym k.claim)
        (claim_rows-tokens id (now + scheduler.policy.lease_duration) k.one k.leases
          (λ n. token_id ≢ n) k.rows _ rows k.ran)
    where
      not_held :
          (s : PollSchedule)
          → IsHeld batch_id expires token_id s
          → is_unleased now s ≡ true
          → token_id ≢ s.token_id
      not_held s held free same = let (holder, until) = held (sym same) in ground arith

module _ {Float : Type 0} (scheduler : AdaptiveScheduler Float) where
  -- Two claims that follow each other share no token while the lease of the first one lasts,
  -- whatever the planner decides for either.
  pub claim_next_batch-disjoint :
      (plan plan' : Database → Result SchedulerError CapacityDecision) (now now' : ℕ)
      (run run' : Option ℕ) (id id' fuel fuel' : ℕ) (db : Database) {c c' : PollBatchClaim}
      {db' db'' : Database}
      → claim_next_batch scheduler plan now run id fuel db ≡ ok (some c, db')
      → claim_next_batch scheduler plan' now' run' id' fuel' db' ≡ ok (some c', db'')
      → now' < now + scheduler.policy.lease_duration
      → All (λ m. All (λ m'. m.token_id ≢ m'.token_id) c'.members) c.members
  unfolding claim_next_batch
  claim_next_batch-disjoint plan plan' now now' run run' id id' fuel fuel' db {c} {c'} {db'} e e'
        l =
      let expires : ℕ = now + scheduler.policy.lease_duration in
      let ((n, x), a, k) = >>=-eq-ok (advance_coverage_transitions scheduler now run fuel db) _ e in
      let (capacity, p, claimed) = >>=-eq-ok (plan x) _ k in
      let ((n', x'), a', k') =
        >>=-eq-ok (advance_coverage_transitions scheduler now' run' fuel' db') _ e' in
      let (capacity', p', claimed') = >>=-eq-ok (plan' x') _ k' in
      All-map_imp c.members
        (λ m held.
          claim_planned-free scheduler now' run' id' capacity' x' id expires m.token_id l
            (advance_coverage_transitions-All scheduler now' run' (IsHeld id expires m.token_id)
              (refresh-IsHeld scheduler now' run' id expires m.token_id) fuel' db' held a')
            claimed')
        (claim_planned-IsHeld scheduler now run id capacity x claimed)
