-- ===== src/Scheduler/Claim/Inversion.antt =====
-- What a claim of src/pump_research/scheduling/scheduler.py that returns a batch went through.
use pump_research.Prelude.{
  ℕ, ◌+◌, ◌<◌, ◌≡◌, inl, inr, refl, false, Option, none, some, List, [], ◌∷◌, ◌++◌, Result, ok, err,
  >>=-eq-ok, arith, length, if-eq-cases, ap, subst, ◌∙◌,
}
use pump_research.Scheduler.Rows.{
  CapacityDecision, PollSchedule, PollBatch, BatchKind, ordinary, retired_control_kind, Database,
  SchedulerError, AdaptiveScheduler, CoverageClass, retired_control, priority_for_coverage,
  coverage_reconstruction,
}
use pump_research.Scheduler.Selection.{lateness_ms}
use pump_research.Scheduler.Claim.{
  PollMemberClaim, PollBatchClaim, ClaimedRow, claim_rows, claim_of, claim_batch, window_claimed,
  planned_batch, claimed_row, claim_ordinary_row, claim_control_row, control_rows, ordinary_rows,
  claim_control_from, claim_control_batch,
}
use pump_research.Scheduler.Claim.Leases.{IsLeased}

module _ {Float : Type 0} (scheduler : AdaptiveScheduler Float) (now : ℕ) (run : Option ℕ)
    (batch_id : ℕ) (capacity : CapacityDecision) where
  open scheduler use {policy}

  -- The rows of a claim, for its kind.
  pub data IsSelection (window chain : ℕ) (db : Database)
      : BatchKind → Option ℕ → List PollSchedule → Type 0 where
    for_ordinary :
        IsSelection window chain db ordinary none
          (ordinary_rows scheduler now run batch_id capacity chain db.schedules)
    for_control :
        window_claimed window db.batches ≡ false
        → IsSelection window chain db retired_control_kind
            (some window)
            (control_rows scheduler now run batch_id capacity chain db.schedules)

  pub record IsClaim (window : ℕ) (db : Database) (c : PollBatchClaim) (db' : Database)
      : Type 0 where
    pub chain : ℕ
    pub kind : BatchKind
    pub start : Option ℕ
    pub one : PollSchedule → Result SchedulerError ClaimedRow
    pub rows : List PollSchedule
    pub members : List PollMemberClaim
    pub leases :
        (s : PollSchedule) (r : ClaimedRow)
        → one s ≡ ok r
        → IsLeased batch_id (now + policy.lease_duration) s r
    pub selection : IsSelection window chain db kind start rows
    pub ran :
        claim_rows one rows (record db {
          batches =
              db.batches ++ planned_batch scheduler now run batch_id capacity chain kind start ∷ [];
        })
        ≡ ok (members, db')
    pub claim :
        c
        ≡ claim_of
            (planned_batch scheduler now run batch_id capacity chain kind start)
            capacity
            members
    pub not_empty : 0 < length rows

  pub claim_batch-ran :
      (batch : PollBatch) (one : PollSchedule → Result SchedulerError ClaimedRow)
      (rows : List PollSchedule) (db : Database) {c : PollBatchClaim} {db' : Database}
      → claim_batch batch capacity one rows db ≡ ok (some c, db')
      → (members : List PollMemberClaim) × (claim_rows one rows
            (record db { batches = db.batches ++ batch ∷ [] })
          ≡ ok (members, db'))
        × (c ≡ claim_of batch capacity members)
        × (0 < length rows)
  unfolding claim_batch
  claim_batch-ran batch one [] db e = cc
  claim_batch-ran batch one (s ∷ ss) db {c} {db'} e =
      let ((members, x), r, k) =
        >>=-eq-ok (claim_rows one (s ∷ ss) (record db { batches = db.batches ++ batch ∷ [] })) _
          e in
      let same : x ≡ db' = ground arith in
      (members, r ∙ ap (λ y. ok (members, y)) same, ground arith, omega arith)

  pub claim_batch-none :
      (batch : PollBatch) (one : PollSchedule → Result SchedulerError ClaimedRow)
      (rows : List PollSchedule) (db : Database) {db' : Database}
      → claim_batch batch capacity one rows db ≡ ok (none, db')
      → db' ≡ db
  unfolding claim_batch
  claim_batch-none batch one [] db e = ground arith
  claim_batch-none batch one (s ∷ ss) db e =
      let (r, _, k) =
        >>=-eq-ok (claim_rows one (s ∷ ss) (record db { batches = db.batches ++ batch ∷ [] })) _
          e in
      cc

  pub claim_control_from-none :
      (window : ℕ) (heads : List PollSchedule) (db : Database) {db' : Database}
      → claim_control_from scheduler now run batch_id capacity window heads db ≡ ok (none, db')
      → db' ≡ db
  unfolding claim_control_from
  claim_control_from-none window [] db e = ground arith
  claim_control_from-none window (head ∷ _) db e =
      claim_batch-none
        (planned_batch scheduler now run batch_id capacity head.chain retired_control_kind
          (some window))
        (claim_control_row scheduler now run batch_id capacity)
        (control_rows scheduler now run batch_id capacity head.chain db.schedules) db e

  pub claim_control_batch-none :
      (window : ℕ) (db : Database) {db' : Database}
      → claim_control_batch scheduler now run batch_id capacity window db ≡ ok (none, db')
      → db' ≡ db
  unfolding claim_control_batch
  claim_control_batch-none window db e = elim (if-eq-cases (window_claimed window db.batches) e) [
    | inl (_, k) ↦ ground arith
    | inr (_, k) ↦ claim_control_from-none window _ db k
  ]

  claimed_row-IsLeased :
      (s : PollSchedule) (coverage : CoverageClass) (due_at lateness priority : ℕ) {r : ClaimedRow}
      → claimed_row scheduler now run batch_id capacity s coverage due_at lateness priority ≡ r
      → IsLeased batch_id (now + policy.lease_duration) s r
  unfolding claimed_row
  claimed_row-IsLeased s coverage due_at lateness priority e =
      subst (IsLeased batch_id (now + policy.lease_duration) s) e
        (record { claimed = refl; written = refl; holder = refl; until = refl })

  pub ordinary_row-IsLeased :
      (s : PollSchedule) (r : ClaimedRow)
      → claim_ordinary_row scheduler now run batch_id capacity s ≡ ok r
      → IsLeased batch_id (now + policy.lease_duration) s r
  unfolding claim_ordinary_row
  ordinary_row-IsLeased s r e = go (s.next_due_at) (s.coverage_class) e
    where
      go :
          (due : Option ℕ) (class : Option CoverageClass)
          → elim due as (λ _. Result SchedulerError ClaimedRow) [
            | none ↦ err coverage_reconstruction
            | some due_at ↦ elim class as (λ _. Result SchedulerError ClaimedRow) [
              | none ↦ err coverage_reconstruction
              | some coverage ↦ ok (
                  claimed_row scheduler now run batch_id capacity s coverage due_at
                    (lateness_ms scheduler.milliseconds now due_at)
                    (priority_for_coverage coverage))
            ]
          ]
            ≡ ok r
          → IsLeased batch_id (now + policy.lease_duration) s r
      go none class e = cc
      go (some due_at) none e = cc
      go (some due_at) (some coverage) e =
          claimed_row-IsLeased s coverage due_at (lateness_ms scheduler.milliseconds now due_at)
            (priority_for_coverage coverage) (ground arith)

  pub control_row-IsLeased :
      (s : PollSchedule) (r : ClaimedRow)
      → claim_control_row scheduler now run batch_id capacity s ≡ ok r
      → IsLeased batch_id (now + policy.lease_duration) s r
  unfolding claim_control_row
  control_row-IsLeased s r e =
      claimed_row-IsLeased s retired_control now 0 s.priority (ground arith)
