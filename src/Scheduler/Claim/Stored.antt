-- ===== src/Scheduler/Claim/Stored.antt =====
-- The constraints of poll_schedules under a claim in src/pump_research/scheduling/scheduler.py.
use pump_research.Prelude.{
  ℕ, ◌+◌, ◌≡◌, inl, inr, refl, subst, Bool, true, false, not, ◌&&◌, Option, none, some, List, [],
  ◌∷◌, ◌++◌, Result, ok, err, >>=-eq-ok, All, All-take, All-select_keep, arith, leb, if-eq-cases,
}
use pump_research.Prelude.Sorting.{All-sort_by}
use pump_research.Scheduler.Rows.{
  CoverageClass, PollSchedule, PollBatch, Database, SchedulerError, AdaptiveScheduler,
  CapacityDecision, IsStored, retired_control, priority_for_coverage,
}
use pump_research.Scheduler.Selection.{
  ordinary_before, control_before, minute, time_bucket, lateness_ms,
}
use pump_research.Scheduler.Advance.{update_schedule, advance_coverage_transitions}
use pump_research.Scheduler.Advance.Preservation.{
  update_schedule-All, advance_coverage_transitions-IsStored,
}
use pump_research.Scheduler.Claim.{
  PollMemberClaim, PollBatchClaim, ClaimedRow, claim_rows, claim_batch, claimed_row,
  claim_ordinary_row, claim_control_row, control_rows, ordinary_rows, claim_control_from,
  claim_control_batch, claim_ordinary_from, claim_ordinary, claim_after_control, claim_planned,
  claim_next_batch, window_claimed, has_batch_capacity,
}

-- Every row that an iteration writes is stored, where the row that it reads is.
abbrev KeepsStored : (PollSchedule → Result SchedulerError ClaimedRow) → Type 0
KeepsStored one = (s : PollSchedule) (r : ClaimedRow) → IsStored s → one s ≡ ok r → IsStored r.row

abbrev AreStored : Database → Type 0
AreStored db = All IsStored db.schedules

claim_rows-AreStored :
    (one : PollSchedule → Result SchedulerError ClaimedRow) (keeps : KeepsStored one)
    (rows : List PollSchedule) (db : Database) {cs : List PollMemberClaim} {db' : Database}
    → All IsStored rows
    → AreStored db
    → claim_rows one rows db ≡ ok (cs, db')
    → AreStored db'
unfolding claim_rows
claim_rows-AreStored one keeps [] db {cs} {db'} g h e =
    let same : db ≡ db' = ground arith in subst AreStored same h
claim_rows-AreStored one keeps (s ∷ ss) db {cs} {db'} g h e =
    let (r, o, k) = >>=-eq-ok (one s) _ e in
    let db1 : Database = record db {
      members = db.members ++ r.member ∷ [];
      schedules = update_schedule r.row db.schedules;
    } in
    let ((cs', x), i, l) = >>=-eq-ok (claim_rows one ss db1) _ k in
    let same : x ≡ db' = ground arith in
    subst AreStored same (
      claim_rows-AreStored one keeps ss db1 g.1
        (update_schedule-All IsStored r.row db.schedules (keeps s r g.0 o) h) i)

claim_batch-AreStored :
    (batch : PollBatch) (capacity : CapacityDecision)
    (one : PollSchedule → Result SchedulerError ClaimedRow) (keeps : KeepsStored one)
    (rows : List PollSchedule) (db : Database) {c : Option PollBatchClaim} {db' : Database}
    → All IsStored rows
    → AreStored db
    → claim_batch batch capacity one rows db ≡ ok (c, db')
    → AreStored db'
unfolding claim_batch
claim_batch-AreStored batch capacity one keeps [] db {c} {db'} g h e =
    let same : db ≡ db' = ground arith in subst AreStored same h
claim_batch-AreStored batch capacity one keeps (s ∷ ss) db {c} {db'} g h e =
    let db1 : Database = record db { batches = db.batches ++ batch ∷ [] } in
    let ((cs, x), i, l) = >>=-eq-ok (claim_rows one (s ∷ ss) db1) _ e in
    let same : x ≡ db' = ground arith in
    subst AreStored same (claim_rows-AreStored one keeps (s ∷ ss) db1 g h i)

module _ {Float : Type 0} (scheduler : AdaptiveScheduler Float) (now : ℕ) (run : Option ℕ)
    (batch_id : ℕ) (capacity : CapacityDecision) where
  open scheduler use {policy}

  claimed_row-IsStored :
      (s : PollSchedule) (coverage : CoverageClass) (due lateness priority : ℕ)
      → IsStored s
      → IsStored
          (claimed_row scheduler now run batch_id capacity s coverage due lateness priority).row
  unfolding claimed_row
  claimed_row-IsStored s coverage due lateness priority h = record {
    projection_admitted = h.projection_admitted;
    projection_decided = h.projection_decided;
    projection_policy = h.projection_policy;
    retired_not_due = h.retired_not_due;
    lease_pair = refl;
    candidate_interval = h.candidate_interval;
    candidate_event = h.candidate_event;
  }

  control-KeepsStored : KeepsStored (claim_control_row scheduler now run batch_id capacity)
  unfolding claim_control_row
  control-KeepsStored s r h e =
      let same : claimed_row scheduler now run batch_id capacity s retired_control now 0 s.priority
          ≡ r =
        ground arith in
      subst (λ (x : ClaimedRow). IsStored x.row) same
        (claimed_row-IsStored s retired_control now 0 s.priority h)

  ordinary-KeepsStored : KeepsStored (claim_ordinary_row scheduler now run batch_id capacity)
  unfolding claim_ordinary_row
  ordinary-KeepsStored s r h e = go (s.next_due_at) (s.coverage_class) e
    where
      go :
          (due : Option ℕ) (mapped : Option CoverageClass)
          → elim due as (λ _. Result SchedulerError ClaimedRow) [
            | none ↦ err SchedulerError.coverage_reconstruction
            | some due_at ↦ elim mapped as (λ _. Result SchedulerError ClaimedRow) [
              | none ↦ err SchedulerError.coverage_reconstruction
              | some coverage ↦ ok (
                  claimed_row scheduler now run batch_id capacity s coverage due_at
                    (lateness_ms (scheduler.milliseconds) now due_at)
                    (priority_for_coverage coverage))
            ]
          ]
            ≡ ok r
          → IsStored r.row
      go none mapped k = cc
      go (some due_at) none k = cc
      go (some due_at) (some coverage) k =
          let lateness = lateness_ms (scheduler.milliseconds) now due_at in
          let priority = priority_for_coverage coverage in
          let same : claimed_row scheduler now run batch_id capacity s coverage due_at lateness
                priority
              ≡ r =
            ground arith in
          subst (λ (x : ClaimedRow). IsStored x.row) same
            (claimed_row-IsStored s coverage due_at lateness priority h)

  control_from-AreStored :
      (window : ℕ) (heads : List PollSchedule) (db : Database) {c : Option PollBatchClaim}
      {db' : Database}
      → AreStored db
      → claim_control_from scheduler now run batch_id capacity window heads db ≡ ok (c, db')
      → AreStored db'
  unfolding claim_control_from control_rows
  control_from-AreStored window [] db {c} {db'} h e =
      let same : db ≡ db' = ground arith in subst AreStored same h
  control_from-AreStored window (head ∷ _) db h e =
      claim_batch-AreStored _ capacity _ control-KeepsStored
        (control_rows scheduler now run batch_id capacity head.chain db.schedules) db
        (All-take IsStored (policy.control_scan_tokens_per_minute) _
          (All-sort_by control_before IsStored _ (All-select_keep IsStored _ db.schedules h)))
        h e

  control_batch-AreStored :
      (window : ℕ) (db : Database) {c : Option PollBatchClaim} {db' : Database}
      → AreStored db
      → claim_control_batch scheduler now run batch_id capacity window db ≡ ok (c, db')
      → AreStored db'
  unfolding claim_control_batch
  control_batch-AreStored window db {c} {db'} h e =
      elim (if-eq-cases (window_claimed window db.batches) e) [
        | inl (_, k) ↦ let same : db ≡ db' = ground arith in subst AreStored same h
        | inr (_, k) ↦ control_from-AreStored window _ db h k
      ]

  ordinary_from-AreStored :
      (window : ℕ) (claimed : Bool) (heads : List PollSchedule) (db : Database)
      {c : Option PollBatchClaim} {db' : Database}
      → AreStored db
      → claim_ordinary_from scheduler now run batch_id capacity window claimed heads db
        ≡ ok (c, db')
      → AreStored db'
  unfolding claim_ordinary_from ordinary_rows
  ordinary_from-AreStored window true [] db {c} {db'} h e =
      let same : db ≡ db' = ground arith in subst AreStored same h
  ordinary_from-AreStored window false [] db h e = control_batch-AreStored window db h e
  ordinary_from-AreStored window claimed (head ∷ _) db h e =
      claim_batch-AreStored _ capacity _ ordinary-KeepsStored
        (ordinary_rows scheduler now run batch_id capacity head.chain db.schedules) db
        (All-take IsStored (policy.batch_size) _
          (All-sort_by ordinary_before IsStored _ (All-select_keep IsStored _ db.schedules h)))
        h e

  ordinary-AreStored :
      (window : ℕ) (db : Database) {c : Option PollBatchClaim} {db' : Database}
      → AreStored db
      → claim_ordinary scheduler now run batch_id capacity window db ≡ ok (c, db')
      → AreStored db'
  unfolding claim_ordinary
  ordinary-AreStored window db h e = ordinary_from-AreStored window _ _ db h e

  after_control-AreStored :
      (window : ℕ) (first : Option PollBatchClaim × Database) {c : Option PollBatchClaim}
      {db' : Database}
      → AreStored first.1
      → claim_after_control scheduler now run batch_id capacity window first ≡ ok (c, db')
      → AreStored db'
  unfolding claim_after_control
  after_control-AreStored window (none, db) h e = ordinary-AreStored window db h e
  after_control-AreStored window (some claim, db) {c} {db'} h e =
      let same : db ≡ db' = ground arith in subst AreStored same h

  claim_planned-AreStored :
      (db : Database) {c : Option PollBatchClaim} {db' : Database}
      → AreStored db
      → claim_planned scheduler now run batch_id capacity db ≡ ok (c, db')
      → AreStored db'
  unfolding claim_planned
  claim_planned-AreStored db {c} {db'} h e =
      let window = time_bucket now minute in
      elim (if-eq-cases (has_batch_capacity scheduler now run batch_id capacity db) e) [
        | inr (_, k) ↦ let same : db ≡ db' = ground arith in subst AreStored same h
        | inl (_, k) ↦
            elim (if-eq-cases
              (not (window_claimed window db.batches) && leb (window + 30_000_000) now) k) [
                | inr (_, l) ↦ ordinary-AreStored window db h l
                | inl (_, l) ↦
                    let (first, m, n) =
                      >>=-eq-ok (claim_control_batch scheduler now run batch_id capacity window db)
                        _ l in
                    after_control-AreStored window first (control_batch-AreStored window db h m) n
              ]
      ]

-- A claim keeps the constraints of the table, batch or no batch.
pub claim_next_batch-AreStored :
    {Float : Type 0} (scheduler : AdaptiveScheduler Float)
    (plan : Database → Result SchedulerError CapacityDecision) (now : ℕ) (run : Option ℕ)
    (batch_id fuel : ℕ) (db : Database) {c : Option PollBatchClaim} {db' : Database}
    → AreStored db
    → claim_next_batch scheduler plan now run batch_id fuel db ≡ ok (c, db')
    → AreStored db'
unfolding claim_next_batch
claim_next_batch-AreStored scheduler plan now run batch_id fuel db h e =
    let ((n, x), a, k) = >>=-eq-ok (advance_coverage_transitions scheduler now run fuel db) _ e in
    let (capacity, p, claimed) = >>=-eq-ok (plan x) _ k in
    claim_planned-AreStored scheduler now run batch_id capacity x
      (advance_coverage_transitions-IsStored scheduler now run fuel db h a) claimed
