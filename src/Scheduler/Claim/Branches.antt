-- ===== src/Scheduler/Claim/Branches.antt =====
-- The branches of a claim in src/pump_research/scheduling/scheduler.py that return a batch.
use pump_research.Prelude.{
  ℕ, ◌+◌, ◌≡◌, inl, inr, refl, Bool, true, false, not, ◌&&◌, Option, none, some, List, [], ◌∷◌, ok,
  ◌>>=◌, >>=-eq-ok, leb, if◌then◌else◌, if-eq-cases, subst, ◌∙◌,
}
use pump_research.Scheduler.Rows.{
  CapacityDecision, PollSchedule, ordinary, retired_control_kind, Database, AdaptiveScheduler,
}
use pump_research.Scheduler.Selection.{minute, time_bucket}
use pump_research.Scheduler.Claim.{
  PollBatchClaim, window_claimed, has_batch_capacity, planned_batch, claim_ordinary_row,
  claim_control_row, control_rows, ordinary_rows, claim_control_from, claim_control_batch,
  claim_ordinary_from, claim_ordinary, claim_after_control, claim_planned,
}
use pump_research.Scheduler.Claim.Inversion.{
  for_ordinary, for_control, IsClaim, claim_batch-ran, claim_control_batch-none,
  ordinary_row-IsLeased, control_row-IsLeased,
}

module _ {Float : Type 0} (scheduler : AdaptiveScheduler Float) (now : ℕ) (run : Option ℕ)
    (batch_id : ℕ) (capacity : CapacityDecision) where
  open scheduler use {policy}

  claim_control_from-IsClaim :
      (window : ℕ) (heads : List PollSchedule) (db : Database) {c : PollBatchClaim} {db' : Database}
      → window_claimed window db.batches ≡ false
      → claim_control_from scheduler now run batch_id capacity window heads db ≡ ok (some c, db')
      → IsClaim scheduler now run batch_id capacity window db c db'
  unfolding claim_control_from
  claim_control_from-IsClaim window [] db free e = cc
  claim_control_from-IsClaim window (head ∷ _) db free e =
      let chain = head.chain in
      let rows = control_rows scheduler now run batch_id capacity chain db.schedules in
      let (members, ran, claim, some_row) =
        claim_batch-ran scheduler now run batch_id capacity
          (planned_batch scheduler now run batch_id capacity chain retired_control_kind
            (some window))
          (claim_control_row scheduler now run batch_id capacity) rows db e in
      record {
        chain = chain;
        kind = retired_control_kind;
        start = some window;
        one = claim_control_row scheduler now run batch_id capacity;
        rows = rows;
        members = members;
        leases = control_row-IsLeased scheduler now run batch_id capacity;
        selection = for_control free;
        ran = ran;
        claim = claim;
        not_empty = some_row;
      }

  pub claim_control_batch-IsClaim :
      (window : ℕ) (db : Database) {c : PollBatchClaim} {db' : Database}
      → claim_control_batch scheduler now run batch_id capacity window db ≡ ok (some c, db')
      → IsClaim scheduler now run batch_id capacity window db c db'
  unfolding claim_control_batch
  claim_control_batch-IsClaim window db e =
      elim (if-eq-cases (window_claimed window db.batches) e) [
        | inl (_, k) ↦ cc
        | inr (free, k) ↦ claim_control_from-IsClaim window _ db free k
      ]

  claim_ordinary_from-IsClaim :
      (window : ℕ) (claimed : Bool) (heads : List PollSchedule) (db : Database) {c : PollBatchClaim}
      {db' : Database}
      → claim_ordinary_from scheduler now run batch_id capacity window claimed heads db
        ≡ ok (some c, db')
      → IsClaim scheduler now run batch_id capacity window db c db'
  unfolding claim_ordinary_from
  claim_ordinary_from-IsClaim window true [] db e = cc
  claim_ordinary_from-IsClaim window false [] db e = claim_control_batch-IsClaim window db e
  claim_ordinary_from-IsClaim window claimed (head ∷ _) db e =
      let chain = head.chain in
      let rows = ordinary_rows scheduler now run batch_id capacity chain db.schedules in
      let (members, ran, claim, some_row) =
        claim_batch-ran scheduler now run batch_id capacity
          (planned_batch scheduler now run batch_id capacity chain ordinary none)
          (claim_ordinary_row scheduler now run batch_id capacity) rows db e in
      record {
        chain = chain;
        kind = ordinary;
        start = none;
        one = claim_ordinary_row scheduler now run batch_id capacity;
        rows = rows;
        members = members;
        leases = ordinary_row-IsLeased scheduler now run batch_id capacity;
        selection = for_ordinary;
        ran = ran;
        claim = claim;
        not_empty = some_row;
      }

  claim_ordinary-IsClaim :
      (window : ℕ) (db : Database) {c : PollBatchClaim} {db' : Database}
      → claim_ordinary scheduler now run batch_id capacity window db ≡ ok (some c, db')
      → IsClaim scheduler now run batch_id capacity window db c db'
  unfolding claim_ordinary
  claim_ordinary-IsClaim window db e = claim_ordinary_from-IsClaim window _ _ db e

  claim_after_control-IsClaim :
      (window : ℕ) (first : Option PollBatchClaim × Database) {c : PollBatchClaim}
      {db db' : Database}
      → claim_control_batch scheduler now run batch_id capacity window db ≡ ok first
      → claim_after_control scheduler now run batch_id capacity window first ≡ ok (some c, db')
      → IsClaim scheduler now run batch_id capacity window db c db'
  unfolding claim_after_control
  claim_after_control-IsClaim window (none, db1) {c} {db} {db'} e k =
      subst (λ x. IsClaim scheduler now run batch_id capacity window x c db')
        (claim_control_batch-none scheduler now run batch_id capacity window db e)
        (claim_ordinary-IsClaim window db1 k)
  claim_after_control-IsClaim window (some c1, db1) {c} {db} {db'} e k =
      claim_control_batch-IsClaim window db (e ∙ k)

  if-IsClaim :
      (scan_due : Bool) (window : ℕ) (db : Database) {c : PollBatchClaim} {db' : Database}
      → (if scan_due
          then claim_control_batch scheduler now run batch_id capacity window db
            >>= claim_after_control scheduler now run batch_id capacity window
          else claim_ordinary scheduler now run batch_id capacity window db)
        ≡ ok (some c, db')
      → IsClaim scheduler now run batch_id capacity window db c db'
  if-IsClaim true window db e =
      let (first, m, n) =
        >>=-eq-ok (claim_control_batch scheduler now run batch_id capacity window db) _ e in
      claim_after_control-IsClaim window first m n
  if-IsClaim false window db e = claim_ordinary-IsClaim window db e

  -- A claim was within the capacity, and has its rows and its leases.
  pub claim_planned-IsClaim :
      (db : Database) {c : PollBatchClaim} {db' : Database}
      → claim_planned scheduler now run batch_id capacity db ≡ ok (some c, db')
      → (has_batch_capacity scheduler now run batch_id capacity db ≡ true)
        × IsClaim scheduler now run batch_id capacity (time_bucket now minute) db c db'
  unfolding claim_planned
  claim_planned-IsClaim db {c} {db'} e =
      go (has_batch_capacity scheduler now run batch_id capacity db) refl e
    where
      go :
          (able : Bool)
          → has_batch_capacity scheduler now run batch_id capacity db ≡ able
          → (if able
              then (if not (window_claimed (time_bucket now minute) db.batches)
                    && leb (time_bucket now minute + 30_000_000) now
                  then claim_control_batch scheduler now run batch_id capacity
                      (time_bucket now minute)
                      db
                    >>= claim_after_control scheduler now run batch_id capacity
                        (time_bucket now minute)
                  else claim_ordinary scheduler now run batch_id capacity
                      (time_bucket now minute)
                      db)
              else ok (none, db))
            ≡ ok (some c, db')
          → (has_batch_capacity scheduler now run batch_id capacity db ≡ true)
            × IsClaim scheduler now run batch_id capacity (time_bucket now minute) db c db'
      go true able k = (
        able,
        if-IsClaim
            (not (window_claimed (time_bucket now minute) db.batches)
              && leb (time_bucket now minute + 30_000_000) now)
            (time_bucket now minute) db k,
      )
      go false able k = cc
