-- ===== src/Scheduler/Claim/Totality.antt =====
-- The errors of a claim in src/pump_research/scheduling/scheduler.py.
use pump_research.Prelude.{
  ℕ, ◌+◌, ◌≡◌, refl, Bool, true, false, not, ◌&&◌, Option, none, some, List, [], ◌∷◌, ◌++◌, Result,
  ok, err, ◌>>=◌, >>=-returns, All, All-Mem, All-map_imp, arith, ◌==◌, leb, if◌then◌else◌,
  select as where_,
}
use pump_research.Prelude.Sorting.{All-query, sort_by}
use pump_research.Scheduler.Rows.{
  CapacityDecision, PollSchedule, PollBatch, CoverageClass, retired_control,
  coverage_reconstruction, priority_for_coverage, ordinary, Database, SchedulerError,
  AdaptiveScheduler,
}
use pump_research.Scheduler.Selection.{
  minute, time_bucket, lateness_ms, is_eligible, is_control, ordinary_before, control_before,
}
use pump_research.Scheduler.Advance.{update_schedule}
use pump_research.Scheduler.Claim.{
  PollMemberClaim, PollBatchClaim, ClaimedRow, claim_rows, claim_batch, window_claimed,
  has_batch_capacity, planned_batch, claimed_row, claim_ordinary_row, claim_control_row,
  control_rows, ordinary_rows, claim_control_from, claim_control_batch, claim_ordinary_from,
  claim_ordinary, claim_after_control, claim_planned,
}

-- A loop whose iterations all return, returns.
claim_rows-total :
    (one : PollSchedule → Result SchedulerError ClaimedRow) (rows : List PollSchedule)
    (db : Database)
    → All (λ s. (r : ClaimedRow) × (one s ≡ ok r)) rows
    → (out : List PollMemberClaim × Database) × (claim_rows one rows db ≡ ok out)
unfolding claim_rows
claim_rows-total one [] db h = (_, refl)
claim_rows-total one (s ∷ ss) db h = >>=-returns (one s) _ h.0 (λ r.
    >>=-returns (claim_rows one ss _) _
      (claim_rows-total one ss
        (record db {
          members = db.members ++ r.member ∷ [];
          schedules = update_schedule r.row db.schedules;
        })
        h.1)
      (λ rest. (_, refl)))

module _ {Float : Type 0} (scheduler : AdaptiveScheduler Float) (now : ℕ) (run : Option ℕ) (id : ℕ)
    (capacity : CapacityDecision) where
  Returns : Result SchedulerError (Option PollBatchClaim × Database) → Type 0
  Returns m = (out : Option PollBatchClaim × Database) × (m ≡ ok out)

  claim_batch-total :
      (batch : PollBatch) (one : PollSchedule → Result SchedulerError ClaimedRow)
      (rows : List PollSchedule) (db : Database)
      → All (λ s. (r : ClaimedRow) × (one s ≡ ok r)) rows
      → Returns (claim_batch batch capacity one rows db)
  unfolding claim_batch Returns
  claim_batch-total batch one [] db h = (_, refl)
  claim_batch-total batch one (s ∷ ss) db h =
      >>=-returns (claim_rows one (s ∷ ss) (record db { batches = db.batches ++ batch ∷ [] })) _
        (claim_rows-total one (s ∷ ss) (record db { batches = db.batches ++ batch ∷ [] }) h)
        (λ claimed. (_, refl))

  -- An eligible row has a due time and a class.
  claim_ordinary_row-total :
      (s : PollSchedule)
      → is_eligible now s ≡ true
      → (r : ClaimedRow) × (claim_ordinary_row scheduler now run id capacity s ≡ ok r)
  unfolding claim_ordinary_row
  claim_ordinary_row-total s h = go (s.next_due_at) (s.coverage_class) refl refl
    where
      go :
          (due : Option ℕ) (class : Option CoverageClass)
          → s.next_due_at ≡ due
          → s.coverage_class ≡ class
          → (r : ClaimedRow) × (elim due as (λ _. Result SchedulerError ClaimedRow) [
            | none ↦ err coverage_reconstruction
            | some due_at ↦ elim class as (λ _. Result SchedulerError ClaimedRow) [
              | none ↦ err coverage_reconstruction
              | some coverage ↦ ok (
                  claimed_row scheduler now run id capacity s coverage due_at
                    (lateness_ms scheduler.milliseconds now due_at)
                    (priority_for_coverage coverage))
            ]
          ]
              ≡ ok r)
      go none class e f = absurd (ground arith)
      go (some due_at) none e f = absurd (ground arith)
      go (some due_at) (some coverage) e f = (
        claimed_row scheduler now run id capacity s coverage due_at
            (lateness_ms scheduler.milliseconds now due_at) (priority_for_coverage coverage),
        refl,
      )

  claim_control_batch-total :
      (window : ℕ) (db : Database)
      → Returns (claim_control_batch scheduler now run id capacity window db)
  unfolding claim_control_batch claim_control_from claim_control_row Returns
  claim_control_batch-total window db =
      elim (window_claimed window db.batches)
        as (λ b. Returns (
          if b
          then ok (none, db)
          else claim_control_from scheduler now run id capacity window
              (sort_by control_before (where_ (is_control now) db.schedules)) db)) [
                | true ↦ (_, refl)
                | false ↦ go (sort_by control_before (where_ (is_control now) db.schedules))
              ]
    where
      go :
          (heads : List PollSchedule)
          → Returns (claim_control_from scheduler now run id capacity window heads db)
      go [] = ((none, db), refl)
      go (head ∷ _) = claim_batch-total _ _ _ db (
          All-map_imp (control_rows scheduler now run id capacity head.chain db.schedules)
            (λ s _.
              (claimed_row scheduler now run id capacity s retired_control now 0 s.priority, refl))
            (All-Mem (control_rows scheduler now run id capacity head.chain db.schedules)))

  claim_ordinary-total :
      (window : ℕ) (db : Database)
      → Returns (claim_ordinary scheduler now run id capacity window db)
  unfolding claim_ordinary claim_ordinary_from ordinary_rows Returns
  claim_ordinary-total window db =
      go (window_claimed window db.batches)
        (sort_by ordinary_before (where_ (is_eligible now) db.schedules))
    where
      go :
          (claimed : Bool) (heads : List PollSchedule)
          → Returns (claim_ordinary_from scheduler now run id capacity window claimed heads db)
      go true [] = ((none, db), refl)
      go false [] = claim_control_batch-total window db
      go claimed (head ∷ _) =
          claim_batch-total (planned_batch scheduler now run id capacity head.chain ordinary none)
            (claim_ordinary_row scheduler now run id capacity)
            (ordinary_rows scheduler now run id capacity head.chain db.schedules) db
            (All-query ordinary_before
              (λ s. (r : ClaimedRow) × (claim_ordinary_row scheduler now run id capacity s ≡ ok r))
              scheduler.policy.batch_size (λ s. s.chain == head.chain && is_eligible now s)
              db.schedules
              (All-map_imp db.schedules (λ s _ k. claim_ordinary_row-total s (ground arith))
                (All-Mem db.schedules)))

  -- A claim on given capacity raises no error: in particular no selected row lacks its due time or
  -- its coverage class.
  pub claim_planned-total :
      (db : Database)
      → (out : Option PollBatchClaim × Database) × (claim_planned scheduler now run id capacity db
          ≡ ok out)
  unfolding claim_planned claim_after_control Returns
  claim_planned-total db =
      elim (has_batch_capacity scheduler now run id capacity db)
        as (λ able. Returns (
          if able
          then (if not (window_claimed (time_bucket now minute) db.batches)
                && leb (time_bucket now minute + 30_000_000) now
              then claim_control_batch scheduler now run id capacity (time_bucket now minute) db
                >>= claim_after_control scheduler now run id capacity (time_bucket now minute)
              else claim_ordinary scheduler now run id capacity (time_bucket now minute) db)
          else ok (none, db))) [
            | false ↦ (_, refl)
            | true ↦ within (
                not (window_claimed (time_bucket now minute) db.batches)
                && leb (time_bucket now minute + 30_000_000) now)
          ]
    where
      after :
          (first : Option PollBatchClaim × Database)
          → Returns
              (claim_after_control scheduler now run id capacity (time_bucket now minute) first)
      after (none, db1) = claim_ordinary-total (time_bucket now minute) db1
      after (some c, db1) = (_, refl)

      within :
          (scan_due : Bool)
          → Returns (
              if scan_due
              then claim_control_batch scheduler now run id capacity (time_bucket now minute) db
                >>= claim_after_control scheduler now run id capacity (time_bucket now minute)
              else claim_ordinary scheduler now run id capacity (time_bucket now minute) db)
      within true =
          >>=-returns
            (claim_control_batch scheduler now run id capacity (time_bucket now minute) db) _
            (claim_control_batch-total (time_bucket now minute) db) after
      within false = claim_ordinary-total (time_bucket now minute) db
