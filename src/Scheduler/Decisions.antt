-- ===== src/Scheduler/Decisions.antt =====
-- src/pump_research/scheduling/scheduler.py: `_record_coverage_decision`, which stores the
-- evidence of a coverage change once. A key stands for its SHA-256 digest.
pub mod Recording
pub mod Errors
use pump_research.Prelude.{
  ℕ, Bool, true, false, ◌&&◌, Option, none, some, List, [], ◌∷◌, ◌++◌, Result, ok, err, ◌>>=◌, ◌==◌,
  if◌then◌else◌,
}
use pump_research.Scheduler.Rows.{
  CoverageDecision, ReasonCode, coverage_boundary_elapsed, coverage_time_advanced, LifecycleState,
  coverage_boundary_observed_at_completion, lifecycle_reason, epoch_start_legacy_reconstruction,
  epoch_start_rebase, CoverageClass, Database, SchedulerError, no_such_run, decision_integrity,
  same_class, same_option, same_state,
}

same_class_option : Option CoverageClass → Option CoverageClass → Bool
same_class_option none none = true
same_class_option none (some b) = false
same_class_option (some a) none = false
same_class_option (some a) (some b) = same_class a b

abbrev reason_number : ReasonCode → ℕ
reason_number coverage_boundary_elapsed = 0
reason_number coverage_time_advanced = 1
reason_number coverage_boundary_observed_at_completion = 2
reason_number (lifecycle_reason n) = 3
reason_number epoch_start_legacy_reconstruction = 4
reason_number epoch_start_rebase = 5

pub same_reason : ReasonCode → ReasonCode → Bool
same_reason (lifecycle_reason a) (lifecycle_reason b) = a == b
same_reason a b = reason_number a == reason_number b

-- `_coverage_decision_idempotency_key`, as the equality of two keys.
pub same_key : CoverageDecision → CoverageDecision → Bool
unfolding same_class_option same_reason
same_key a b =
    a.token_id == b.token_id
    && same_class_option a.previous_coverage_class b.previous_coverage_class
    && same_class a.new_coverage_class b.new_coverage_class
    && a.decided_at == b.decided_at
    && a.coverage_effective_at == b.coverage_effective_at
    && a.policy_sha256 == b.policy_sha256
    && same_reason a.reason_code b.reason_code

same_previous : Option (Option LifecycleState) → Option (Option LifecycleState) → Bool
same_previous none none = true
same_previous (some none) (some none) = true
same_previous (some (some a)) (some (some b)) = same_state a b
same_previous a b = false

-- The comparison of `actual` and `expected`; the capacity decision is not part of it.
pub same_content : CoverageDecision → CoverageDecision → Bool
unfolding same_key same_previous
same_content a b =
    same_key a b
    && same_option a.collection_epoch_id b.collection_epoch_id
    && same_option a.collector_run_id b.collector_run_id
    && same_state a.lifecycle_state b.lifecycle_state
    && a.admitted_at == b.admitted_at
    && same_option a.target_interval_seconds b.target_interval_seconds
    && same_option a.effective_interval_seconds b.effective_interval_seconds
    && same_option a.next_due_at b.next_due_at
    && a.lifecycle_state_decided_at == b.lifecycle_state_decided_at
    && same_option a.coverage_next_transition_at b.coverage_next_transition_at
    && same_option a.batch_id b.batch_id
    && same_previous a.previous_lifecycle_state b.previous_lifecycle_state

-- The row that the unique key selects.
pub stored_decision : CoverageDecision → List CoverageDecision → Option CoverageDecision
stored_decision d [] = none
stored_decision d (e ∷ es) = if same_key d e then some e else stored_decision d es

run_epoch : ℕ → List (ℕ × ℕ) → Result SchedulerError (Option ℕ)
run_epoch run [] = err no_such_run
run_epoch run ((id, epoch) ∷ runs) = if id == run then ok (some epoch) else run_epoch run runs

epoch_of : Option ℕ → Option ℕ → List (ℕ × ℕ) → Result SchedulerError (Option ℕ)
unfolding run_epoch
epoch_of (some epoch) run runs = ok (some epoch)
epoch_of none none runs = ok none
epoch_of none (some run) runs = run_epoch run runs

insert_or_compare :
    CoverageDecision → List CoverageDecision → Result SchedulerError (List CoverageDecision)
unfolding stored_decision same_content
insert_or_compare d ds = elim (stored_decision d ds) [
  | none ↦ ok (ds ++ d ∷ [])
  | some stored ↦ if same_content stored d then ok ds else err decision_integrity
]

-- The part of `_record_coverage_decision` after the policy is stored.
pub insert_coverage_decision : CoverageDecision → Database → Result SchedulerError Database
unfolding epoch_of insert_or_compare
insert_coverage_decision d db = do
  epoch ← epoch_of d.collection_epoch_id d.collector_run_id db.collector_runs
  decisions ← insert_or_compare (record d { collection_epoch_id = epoch }) db.coverage_decisions
  ok (record db { coverage_decisions = decisions })

-- `_persist_coverage_policy`: INSERT ... ON CONFLICT DO NOTHING. A digest stands for its snapshot,
-- so the comparison of the two snapshots of one digest has nothing to compare.
unfoldable pub persist_coverage_policy : ℕ → List ℕ → List ℕ
persist_coverage_policy sha256 [] = sha256 ∷ []
persist_coverage_policy sha256 (p ∷ ps) =
    if p == sha256 then p ∷ ps else p ∷ persist_coverage_policy sha256 ps

unfoldable pub record_coverage_decision :
    CoverageDecision → Database → Result SchedulerError Database
unfolding insert_coverage_decision persist_coverage_policy
record_coverage_decision d db =
    insert_coverage_decision d (record db {
      coverage_policies = persist_coverage_policy d.policy_sha256 db.coverage_policies;
    })
