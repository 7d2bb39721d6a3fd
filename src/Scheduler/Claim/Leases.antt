-- ===== src/Scheduler/Claim/Leases.antt =====
-- The loop of a claim in src/pump_research/scheduling/scheduler.py: the tokens that it claims, and
-- the leases that it leaves.
use pump_research.Prelude.{
  ℕ, ◌≡◌, some, List, [], ◌∷◌, ◌++◌, Result, ok, >>=-eq-ok, All, arith, length, ◌==◌, subst,
  Bool-cases, inl, inr, ap, ◌∙◌, sym, suc,
}
use pump_research.Scheduler.Rows.{PollSchedule, Database, SchedulerError}
use pump_research.Scheduler.Advance.{update_schedule}
use pump_research.Scheduler.Advance.Preservation.{update_schedule-All}
use pump_research.Scheduler.Claim.{PollMemberClaim, ClaimedRow, claim_rows}

-- If the row is the token's, a batch holds its lease until a time.
abbrev pub IsHeld : (batch_id expires token_id : ℕ) → PollSchedule → Type 0
IsHeld batch_id expires token_id s =
    s.token_id ≡ token_id → (s.lease_id ≡ some batch_id) × (s.lease_expires_at ≡ some expires)

-- An iteration claims the token of its row for a batch, until a time.
pub record IsLeased (batch_id expires : ℕ) (s : PollSchedule) (r : ClaimedRow) : Type 0 where
  pub claimed : r.claim.token_id ≡ s.token_id
  pub written : r.row.token_id ≡ s.token_id
  pub holder : r.row.lease_id ≡ some batch_id
  pub until : r.row.lease_expires_at ≡ some expires

module _ (batch_id expires : ℕ) (one : PollSchedule → Result SchedulerError ClaimedRow)
    (leases : (s : PollSchedule) (r : ClaimedRow)
      → one s ≡ ok r
      → IsLeased batch_id expires s r) where
  pub claim_rows-batches :
      (rows : List PollSchedule) (db : Database) {cs : List PollMemberClaim} {db' : Database}
      → claim_rows one rows db ≡ ok (cs, db')
      → (db'.batches ≡ db.batches) × (db'.outcomes ≡ db.outcomes) × (length cs ≡ length rows)
  unfolding claim_rows
  claim_rows-batches [] db {cs} {db'} e =
      let same : db ≡ db' = ground arith in
      let none_claimed : [] ≡ cs = ground arith in
      (
        ap (λ (x : Database). x.batches) (sym same),
        ap (λ (x : Database). x.outcomes) (sym same),
        ap length (sym none_claimed),
      )
  claim_rows-batches (s ∷ ss) db {cs} {db'} e =
      let (r, o, k) = >>=-eq-ok (one s) _ e in
      let ((cs', x), i, l) =
        >>=-eq-ok
          (claim_rows one ss (record db {
            members = db.members ++ r.member ∷ [];
            schedules = update_schedule r.row db.schedules;
          }))
          _ k in
      let (b, u, n) = claim_rows-batches ss _ i in
      let same : x ≡ db' = ground arith in
      let more : r.claim ∷ cs' ≡ cs = ground arith in
      (
        ap (λ (y : Database). y.batches) (sym same) ∙ b,
        ap (λ (y : Database). y.outcomes) (sym same) ∙ u,
        ap length (sym more) ∙ ap suc n,
      )

  -- What holds of every leased row stays true of the table.
  claim_rows-All :
      (P : PollSchedule → Type 0)
      (given : (s : PollSchedule) (r : ClaimedRow) → one s ≡ ok r → P r.row)
      (rows : List PollSchedule) (db : Database) {cs : List PollMemberClaim} {db' : Database}
      → All P db.schedules
      → claim_rows one rows db ≡ ok (cs, db')
      → All P db'.schedules
  unfolding claim_rows
  claim_rows-All P given [] db {cs} {db'} h e =
      let same : db ≡ db' = ground arith in subst (λ (x : Database). All P x.schedules) same h
  claim_rows-All P given (s ∷ ss) db {cs} {db'} h e =
      let (r, o, k) = >>=-eq-ok (one s) _ e in
      let ((cs', x), i, l) =
        >>=-eq-ok
          (claim_rows one ss (record db {
            members = db.members ++ r.member ∷ [];
            schedules = update_schedule r.row db.schedules;
          }))
          _ k in
      let same : x ≡ db' = ground arith in
      subst (λ (y : Database). All P y.schedules) same
        (claim_rows-All P given ss _ (update_schedule-All P r.row db.schedules (given s r o) h) i)

  update_schedule-IsHeld :
      (t : PollSchedule) (ss : List PollSchedule)
      → t.lease_id ≡ some batch_id
      → t.lease_expires_at ≡ some expires
      → All (IsHeld batch_id expires t.token_id) (update_schedule t ss)
  unfolding update_schedule
  update_schedule-IsHeld t [] b x = tt
  update_schedule-IsHeld t (s ∷ ss) b x = (
    elim (Bool-cases (s.token_id == t.token_id)) [
      | inl e ↦ rw e (λ _. (b, x))
      | inr e ↦ rw e (λ same. ground arith)
    ],
    update_schedule-IsHeld t ss b x,
  )

  -- Every claimed token is held afterwards.
  pub claim_rows-IsHeld :
      (rows : List PollSchedule) (db : Database) {cs : List PollMemberClaim} {db' : Database}
      → claim_rows one rows db ≡ ok (cs, db')
      → All (λ c. All (IsHeld batch_id expires c.token_id) db'.schedules) cs
  unfolding claim_rows
  claim_rows-IsHeld [] db {cs} {db'} e =
      let none_claimed : [] ≡ cs = ground arith in
      subst (All (λ c. All (IsHeld batch_id expires c.token_id) db'.schedules)) none_claimed tt
  claim_rows-IsHeld (s ∷ ss) db {cs} {db'} e =
      let (r, o, k) = >>=-eq-ok (one s) _ e in
      let db1 : Database = record db {
        members = db.members ++ r.member ∷ [];
        schedules = update_schedule r.row db.schedules;
      } in
      let ((cs', x), i, l) = >>=-eq-ok (claim_rows one ss db1) _ k in
      let given = leases s r o in
      let P = IsHeld batch_id expires r.claim.token_id in
      let first : All P x.schedules =
        claim_rows-All P (λ s' r' o' _. ((leases s' r' o').holder, (leases s' r' o').until)) ss db1
          (subst (λ n. All (IsHeld batch_id expires n) (update_schedule r.row db.schedules))
            (given.written ∙ sym given.claimed)
            (update_schedule-IsHeld r.row db.schedules given.holder given.until))
          i in
      let same : x ≡ db' = ground arith in
      let more : r.claim ∷ cs' ≡ cs = ground arith in
      subst (λ ds. All (λ c. All (IsHeld batch_id expires c.token_id) db'.schedules) ds) more
        (
          subst (λ (y : Database). All P y.schedules) same first,
          subst
              (λ (y : Database).
                All (λ c. All (IsHeld batch_id expires c.token_id) y.schedules) cs')
              same (claim_rows-IsHeld ss db1 i),
        )

  -- What holds of the tokens of the rows holds of the claimed ones.
  pub claim_rows-tokens :
      (Q : ℕ → Type 0) (rows : List PollSchedule) (db : Database) {cs : List PollMemberClaim}
      {db' : Database}
      → All (λ s. Q s.token_id) rows
      → claim_rows one rows db ≡ ok (cs, db')
      → All (λ c. Q c.token_id) cs
  unfolding claim_rows
  claim_rows-tokens Q [] db {cs} q e =
      let none_claimed : [] ≡ cs = ground arith in
      subst (All (λ (c : PollMemberClaim). Q c.token_id)) none_claimed tt
  claim_rows-tokens Q (s ∷ ss) db {cs} {db'} q e =
      let (r, o, k) = >>=-eq-ok (one s) _ e in
      let ((cs', x), i, l) =
        >>=-eq-ok
          (claim_rows one ss (record db {
            members = db.members ++ r.member ∷ [];
            schedules = update_schedule r.row db.schedules;
          }))
          _ k in
      let more : r.claim ∷ cs' ≡ cs = ground arith in
      subst (All (λ (c : PollMemberClaim). Q c.token_id)) more
        (subst Q (sym (leases s r o).claimed) q.0, claim_rows-tokens Q ss _ q.1 i)
