-- ===== src/Scheduler/Claim/Bounds.antt =====
-- The bounds of a claim in src/pump_research/scheduling/scheduler.py: its rows, the work in flight
-- and the reserved requests.
use pump_research.Prelude.{
  ℕ, ◌+◌, ◌≤◌, ◌<◌, ◌≡◌, ◌⊎◌, inl, inr, refl, Bool, true, false, Option, none, some, List, [], ◌∷◌,
  ◌++◌, ok, All, All-Mem, All-map_imp, arith, length, length-take-le, ◌==◌, ==→eq, ◌&&◌,
  select as where_, Bool-cases, length-select-append, sym, subst,
}
use mathlib.Core.List.{Mem}
use pump_research.Prelude.Sorting.{All-query}
use pump_research.Scheduler.Rows.{
  CapacityDecision, PollSchedule, BatchKind, ordinary, retired_control_kind, PollBatch, Database,
  AdaptiveScheduler,
}
use pump_research.Scheduler.Selection.{
  is_eligible, is_control, ordinary_before, control_before, is_in_flight, is_recent, in_flight,
  reserved, sum_reserved,
}
use pump_research.Scheduler.Claim.{
  PollBatchClaim, planned_batch, claim_planned, ordinary_rows, control_rows, has_batch_capacity,
  window_claimed,
}
use pump_research.Scheduler.Claim.Leases.{claim_rows-tokens, claim_rows-batches}
use pump_research.Scheduler.Claim.Branches.{claim_planned-IsClaim}
use pump_research.Scheduler.Claim.Inversion.{IsSelection, for_ordinary, for_control}

-- A token has a row in the table, on a chain, that passes a test.
pub record IsRowOf (db : Database) (chain : ℕ) (test : PollSchedule → Bool) (token_id : ℕ)
    : Type 0 where
  pub row : PollSchedule
  pub stored : Mem row db.schedules
  pub same : row.token_id ≡ token_id
  pub on_chain : row.chain ≡ chain
  pub passes : test row ≡ true

sum_reserved-append :
    (test : PollBatch → Bool) (bs : List PollBatch) (b : PollBatch)
    → sum_reserved (where_ test (bs ++ b ∷ []))
      ≤ sum_reserved (where_ test bs) + b.reserved_request_capacity
unfolding sum_reserved where_
sum_reserved-append test [] b = ground arith
sum_reserved-append test (x ∷ xs) b = ground (arith, sum_reserved-append test xs b)

-- The batch is a control scan of the window.
abbrev pub starts : ℕ → PollBatch → Bool
starts window b = elim (b.control_window_start) [ none ↦ false | some start ↦ start == window ]

window_claimed-none :
    (window : ℕ) (bs : List PollBatch)
    → window_claimed window bs ≡ false
    → length (where_ (starts window) bs) ≡ 0
unfolding window_claimed where_
window_claimed-none window [] h = refl
window_claimed-none window (b ∷ bs) h = ground (arith, window_claimed-none window bs)

module _ {Float : Type 0} (scheduler : AdaptiveScheduler Float) (now : ℕ) (run : Option ℕ) (id : ℕ)
    (capacity : CapacityDecision) where
  open scheduler use {policy}

  selection_cases :
      {window chain : ℕ} {db : Database} {kind : BatchKind} {start : Option ℕ}
      {rows : List PollSchedule}
      → IsSelection scheduler now run id capacity window chain db kind start rows
      → ((kind ≡ ordinary)
          × (length rows ≤ policy.batch_size)
          × All (λ s. IsRowOf db chain (is_eligible now) s.token_id) rows)
        ⊎ ((kind ≡ retired_control_kind)
            × (length rows ≤ policy.control_scan_tokens_per_minute)
            × All (λ s. IsRowOf db chain (is_control now) s.token_id) rows)
  unfolding ordinary_rows control_rows
  selection_cases {window} {chain} {db} for_ordinary = inl (
    refl,
    length-take-le _ _,
    All-query ordinary_before (λ s. IsRowOf db chain (is_eligible now) s.token_id) _
        (λ s. s.chain == chain && is_eligible now s) db.schedules
        (All-map_imp db.schedules
          (λ s m k. record {
            row = s;
            stored = m;
            same = refl;
            on_chain = ==→eq s.chain chain (ground arith);
            passes = ground arith;
          })
          (All-Mem db.schedules)),
  )
  selection_cases {window} {chain} {db} (for_control free) = inr (
    refl,
    length-take-le _ _,
    All-query control_before (λ s. IsRowOf db chain (is_control now) s.token_id) _
        (λ s. s.chain == chain && is_control now s) db.schedules
        (All-map_imp db.schedules
          (λ s m k. record {
            row = s;
            stored = m;
            same = refl;
            on_chain = ==→eq s.chain chain (ground arith);
            passes = ground arith;
          })
          (All-Mem db.schedules)),
  )

  -- A claim has a member at least. An ordinary one has at most `batch_size` members, all of one
  -- chain, due and with no lease in force; a control scan has at most the scan budget of members,
  -- all of one chain, retired and with no lease in force.
  pub claim_planned-members :
      (db : Database) {c : PollBatchClaim} {db' : Database}
      → claim_planned scheduler now run id capacity db ≡ ok (some c, db')
      → (0 < length c.members)
        × (((c.batch_kind ≡ ordinary)
              × (length c.members ≤ policy.batch_size)
              × All (λ m. IsRowOf db c.chain (is_eligible now) m.token_id) c.members)
            ⊎ ((c.batch_kind ≡ retired_control_kind)
                × (length c.members ≤ policy.control_scan_tokens_per_minute)
                × All (λ m. IsRowOf db c.chain (is_control now) m.token_id) c.members))
  unfolding planned_batch
  claim_planned-members db {c} {db'} e =
      let (_, k) = claim_planned-IsClaim scheduler now run id capacity db e in
      let expires : ℕ = now + policy.lease_duration in
      let (_, _, n) = claim_rows-batches id expires k.one k.leases k.rows _ k.ran in
      rw k.claim (
        subst (λ m. 0 < m) (sym n) k.not_empty,
        elim (selection_cases k.selection) [
          | inl (kind, l, rows) ↦ inl (
            kind,
            subst (λ m. m ≤ policy.batch_size) (sym n) l,
            claim_rows-tokens id expires k.one k.leases (IsRowOf db k.chain (is_eligible now))
                k.rows _ rows k.ran,
          )
          | inr (kind, l, rows) ↦ inr (
            kind,
            subst (λ m. m ≤ policy.control_scan_tokens_per_minute) (sym n) l,
            claim_rows-tokens id expires k.one k.leases (IsRowOf db k.chain (is_control now)) k.rows
                _ rows k.ran,
          )
        ],
      )

  -- After a claim no more batches are in flight than the policy allows, and no more requests are
  -- reserved in the last minute than the capacity decision makes available.
  pub claim_planned-capacity :
      (db : Database) {c : PollBatchClaim} {db' : Database}
      → claim_planned scheduler now run id capacity db ≡ ok (some c, db')
      → (in_flight now db' ≤ policy.max_in_flight_batches)
        × (reserved now db' ≤ capacity.available_requests_per_minute)
  unfolding planned_batch has_batch_capacity in_flight reserved
  claim_planned-capacity db {c} {db'} e =
      let (able, k) = claim_planned-IsClaim scheduler now run id capacity db e in
      let b : PollBatch = planned_batch scheduler now run id capacity k.chain k.kind k.start in
      let (batches, outcomes, _) =
        claim_rows-batches id (now + policy.lease_duration) k.one k.leases k.rows _ k.ran in
      let flying = length-select-append (is_in_flight now db.outcomes) db.batches b in
      let spent = sum_reserved-append (is_recent now) db.batches b in
      rw (batches, outcomes) (ground arith, ground arith)

  -- Where a control window has at most one control scan, it has at most one after a claim too.
  pub claim_planned-one_control :
      (window : ℕ) (db : Database) {c : PollBatchClaim} {db' : Database}
      → length (where_ (starts window) db.batches) ≤ 1
      → claim_planned scheduler now run id capacity db ≡ ok (some c, db')
      → length (where_ (starts window) db'.batches) ≤ 1
  unfolding planned_batch
  claim_planned-one_control window db {c} {db'} one e =
      let (_, k) = claim_planned-IsClaim scheduler now run id capacity db e in
      let (batches, _, _) =
        claim_rows-batches id (now + policy.lease_duration) k.one k.leases k.rows _ k.ran in
      rw batches (go k.selection)
    where
      go :
          {w chain : ℕ} {kind : BatchKind} {start : Option ℕ} {rows : List PollSchedule}
          → IsSelection scheduler now run id capacity w chain db kind start rows
          → length (
              where_
                (starts window)
                (db.batches ++ planned_batch scheduler now run id capacity chain kind start ∷ []))
            ≤ 1
      go {w} {chain} for_ordinary =
          let n =
            length-select-append (starts window) db.batches
              (planned_batch scheduler now run id capacity chain ordinary none) in
          ground arith
      go {w} {chain} (for_control free) =
          let n =
            length-select-append (starts window) db.batches
              (planned_batch scheduler now run id capacity chain retired_control_kind (some w)) in
          let z = window_claimed-none w db.batches free in
          elim (Bool-cases (w == window)) [
            | inl same ↦
                let eq : w ≡ window = ==→eq w window same in
                let z' : length (where_ (starts window) db.batches) ≡ 0 =
                  subst (λ v. length (where_ (starts v) db.batches) ≡ 0) eq z in
                ground arith
            | inr other ↦ ground arith
          ]
