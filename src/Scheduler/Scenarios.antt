-- ===== src/Scheduler/Scenarios.antt =====
-- A claim and its completion on a small database, and the theorems on them.
use pump_research.Prelude.{
  ℕ, ◌+◌, ◌*◌, ◌≤◌, ◌<◌, ◌≡◌, ◌≢◌, ◌⊎◌, refl, Bool, Option, none, some, List, [], ◌∷◌, Result, ok,
  err, All, arith, length, select as where_,
}
use pump_research.Prelude.Sorting.{sort_by}
use pump_research.Coverage.Settings.{seconds}
use pump_research.Scheduler.Rows.{
  new, initial, PollSchedule, ordinary, retired_control_kind, PollBatch, PollBatchMember, Database,
  SchedulerError, CapacityDecision, IsStored,
}
use pump_research.Scheduler.Selection.{
  is_eligible, is_control, ordinary_before, control_before, in_flight, has_outcome, reserved,
  sum_reserved,
}
use pump_research.Scheduler.Samples.{scheduler, fresh_row, database}
use pump_research.Scheduler.Advance.{update_schedule, advance_coverage_transitions}
use pump_research.Scheduler.Claim.{PollMemberClaim, PollBatchClaim, claim_planned, claim_next_batch}
use pump_research.Scheduler.Claim.Exclusion.{claim_next_batch-disjoint}
use pump_research.Scheduler.Claim.Bounds.{
  IsRowOf, starts, claim_planned-members, claim_planned-capacity, claim_planned-one_control,
}
use pump_research.Scheduler.Claim.Totality.{claim_planned-total}

abbrev pub plan : CapacityDecision
plan = record {
  id = 40;
  available_requests_per_minute = 60;
  target_interval_seconds = λ coverage. 15;
  effective_interval_seconds = λ coverage. 20;
}

abbrev always : Database → Result SchedulerError CapacityDecision
always db = ok plan

-- The fresh row is due at 1015 s; its neighbour is due later.
abbrev two_rows : Database
two_rows = record database {
  schedules = fresh_row ∷ record fresh_row { token_id = 6; next_due_at = some (seconds 1040) } ∷ [];
}

abbrev first_member : PollMemberClaim
first_member = record {
  token_id = 5;
  address = 500;
  lifecycle_state = new;
  coverage_class = initial;
  due_at = seconds 1015;
  claim_lateness_ms = 5_000;
  previous_batch_id = none;
  capacity_decision_id = 40;
  target_interval_seconds = 15;
  effective_interval_seconds = 20;
}

abbrev first : PollBatchClaim
first = record {
  batch_id = 100;
  chain = 1;
  claimed_at = seconds 1020;
  lease_expires_at = seconds 1140;
  capacity_decision_id = 40;
  batch_kind = ordinary;
  members = first_member ∷ [];
}

abbrev second_member : PollMemberClaim
second_member = record first_member {
  token_id = 6;
  due_at = seconds 1040;
  claim_lateness_ms = 10_000;
}

abbrev second : PollBatchClaim
second = record first {
  batch_id = 101;
  claimed_at = seconds 1050;
  lease_expires_at = seconds 1170;
  members = second_member ∷ [];
}

abbrev pub first_batch : PollBatch
first_batch = record {
  id = 100;
  collector_run_id = some 3;
  chain = 1;
  claimed_at = seconds 1020;
  lease_expires_at = seconds 1140;
  reserved_request_capacity = 1;
  batch_kind = ordinary;
  control_window_start = none;
  capacity_decision_id = some 40;
  configuration_sha256 = 77;
}

abbrev second_batch : PollBatch
second_batch = record first_batch {
  id = 101;
  claimed_at = seconds 1050;
  lease_expires_at = seconds 1170;
}

abbrev pub first_row : PollBatchMember
first_row = record {
  claimed_at = seconds 1020;
  batch_id = 100;
  token_id = 5;
  due_at = seconds 1015;
  lifecycle_state = new;
  coverage_class = initial;
  priority = 2;
  claim_lateness_ms = 5_000;
  previous_batch_id = none;
  capacity_decision_id = some 40;
  target_interval_seconds = 15;
  effective_interval_seconds = 20;
}

abbrev pub leased_row : PollSchedule
leased_row = record fresh_row {
  last_started_at = some (seconds 1020);
  lease_id = some 100;
  lease_expires_at = some (seconds 1140);
  capacity_decision_id = some 40;
  effective_interval_seconds = some 20;
  updated_at = seconds 1020;
}

abbrev pub claimed : Database
claimed = record two_rows {
  schedules =
      leased_row ∷ record fresh_row { token_id = 6; next_due_at = some (seconds 1040) } ∷ [];
  batches = first_batch ∷ [];
  members = first_row ∷ [];
}

abbrev claimed_twice : Database
claimed_twice = record two_rows {
  schedules =
      leased_row
      ∷ record leased_row {
        token_id = 6;
        next_due_at = some (seconds 1040);
        last_started_at = some (seconds 1050);
        lease_id = some 101;
        lease_expires_at = some (seconds 1170);
        updated_at = seconds 1050;
      }
      ∷ [];
  batches = first_batch ∷ second_batch ∷ [];
  members =
      first_row
      ∷ record first_row {
        claimed_at = seconds 1050;
        batch_id = 101;
        token_id = 6;
        due_at = seconds 1040;
        claim_lateness_ms = 10_000;
      }
      ∷ [];
}

first_planned :
    claim_planned scheduler (seconds 1020) (some 3) 100 plan two_rows ≡ ok (some first, claimed)
unfolding claim_planned in_flight reserved sum_reserved ordinary_before control_before sort_by
    pump_research.Prelude.select update_schedule
first_planned = refl

first_claimed :
    claim_next_batch scheduler always (seconds 1020) (some 3) 100 1 two_rows
    ≡ ok (some first, claimed)
unfolding claim_next_batch claim_planned advance_coverage_transitions sort_by in_flight where_
first_claimed = first_planned

second_claimed :
    claim_next_batch scheduler always (seconds 1050) (some 3) 101 1 claimed
    ≡ ok (some second, claimed_twice)
unfolding claim_next_batch claim_planned advance_coverage_transitions sort_by where_ in_flight
    has_outcome reserved sum_reserved ordinary_before update_schedule
second_claimed = refl

claim_next_batch-disjoint_example :
    All
      (λ m. All (λ (m' : PollMemberClaim). m.token_id ≢ m'.token_id) (second_member ∷ []))
      (first_member ∷ [])
claim_next_batch-disjoint_example =
    claim_next_batch-disjoint scheduler always always (seconds 1020) (seconds 1050) (some 3)
      (some 3) 100 101 1 1 two_rows first_claimed second_claimed (omega arith)

claim_planned-members_example :
    (0 < 1)
    × (((ordinary ≡ ordinary)
          × (1 ≤ 30)
          × All
              (λ (m : PollMemberClaim). IsRowOf two_rows 1 (is_eligible (seconds 1020)) m.token_id)
              (first_member ∷ []))
        ⊎ ((ordinary ≡ retired_control_kind)
            × (1 ≤ 2)
            × All
                (λ (m : PollMemberClaim). IsRowOf two_rows 1 (is_control (seconds 1020)) m.token_id)
                (first_member ∷ [])))
claim_planned-members_example =
    claim_planned-members scheduler (seconds 1020) (some 3) 100 plan two_rows first_planned

claim_planned-capacity_example :
    (in_flight (seconds 1020) claimed ≤ 4) × (reserved (seconds 1020) claimed ≤ 60)
claim_planned-capacity_example =
    claim_planned-capacity scheduler (seconds 1020) (some 3) 100 plan two_rows first_planned

no_scan_before : length (where_ (starts (seconds 1020)) two_rows.batches) ≤ 1
unfolding pump_research.Prelude.select
no_scan_before = omega arith

claim_planned-one_control_example : length (where_ (starts (seconds 1020)) claimed.batches) ≤ 1
claim_planned-one_control_example =
    claim_planned-one_control scheduler (seconds 1020) (some 3) 100 plan (seconds 1020) two_rows
      no_scan_before first_planned

claim_planned-total_example :
    (out : Option PollBatchClaim × Database) × (claim_planned scheduler
        (seconds 1050)
        (some 3)
        101
        plan
        claimed
      ≡ ok out)
claim_planned-total_example = claim_planned-total scheduler (seconds 1050) (some 3) 101 plan claimed

pub fresh-IsStored : IsStored fresh_row
fresh-IsStored = ground arith

rows-IsStored : All IsStored database.schedules
rows-IsStored = (fresh-IsStored, (ground arith, tt))

nothing_due :
    advance_coverage_transitions scheduler (seconds 1050) (some 3) 1 database ≡ ok (0, database)
unfolding advance_coverage_transitions sort_by where_
nothing_due = refl
