-- ===== src/Scheduler/Decisions/Recording.antt =====
-- What `_record_coverage_decision` of src/pump_research/scheduling/scheduler.py promises of the
-- stored evidence.
use pump_research.Prelude.{
  ℕ, ◌≡◌, ◌⊎◌, inl, inr, refl, true, Option, none, some, List, [], ◌∷◌, ◌++◌, Result, ok, err,
  >>=-eq-ok, arith, ==_refl, ◌>>=◌, if◌then◌else◌, ap, sym, ◌∙◌,
}
use mathlib.Core.List.{append-nil}
use pump_research.Scheduler.Rows.{
  LifecycleState, CoverageDecision, CoverageClass, ReasonCode, lifecycle_reason, Database,
  SchedulerError, same_option_refl, same_class_refl, same_state_refl, decision_integrity,
}
use pump_research.Scheduler.Decisions.{
  same_class_option, same_reason, same_key, same_previous, same_content, stored_decision,
  insert_or_compare, epoch_of, record_coverage_decision, insert_coverage_decision,
  persist_coverage_policy,
}

same_class_option_refl : (a : Option CoverageClass) → same_class_option a a ≡ true
unfolding same_class_option
same_class_option_refl none = refl
same_class_option_refl (some a) = same_class_refl a

same_reason_refl : (a : ReasonCode) → same_reason a a ≡ true
unfolding same_reason
same_reason_refl (lifecycle_reason n) = ==_refl n
same_reason_refl _ = refl

same_key_refl : (d : CoverageDecision) → same_key d d ≡ true
unfolding same_key
same_key_refl d = ground (
  arith,
  same_class_option_refl d.previous_coverage_class,
  same_class_refl d.new_coverage_class,
  same_reason_refl d.reason_code,
)

same_previous_refl : (a : Option (Option LifecycleState)) → same_previous a a ≡ true
unfolding same_previous
same_previous_refl none = refl
same_previous_refl (some none) = refl
same_previous_refl (some (some a)) = same_state_refl a

same_content_refl : (d : CoverageDecision) → same_content d d ≡ true
unfolding same_content
same_content_refl d = ground (
  arith,
  same_key_refl d,
  same_option_refl d.collection_epoch_id,
  same_option_refl d.collector_run_id,
  same_state_refl d.lifecycle_state,
  same_option_refl d.target_interval_seconds,
  same_option_refl d.effective_interval_seconds,
  same_option_refl d.next_due_at,
  same_option_refl d.coverage_next_transition_at,
  same_option_refl d.batch_id,
  same_previous_refl d.previous_lifecycle_state,
)

stored_decision-append :
    (d : CoverageDecision) (ds : List CoverageDecision)
    → stored_decision d ds ≡ none
    → stored_decision d (ds ++ d ∷ []) ≡ some d
unfolding stored_decision
stored_decision-append d [] h = rw (same_key_refl d)
stored_decision-append d (e ∷ es) h = ground (arith, stored_decision-append d es)

-- The two ways in which a recording succeeds.
insert_or_compare_cases :
    (d : CoverageDecision) (ds : List CoverageDecision) {ds' : List CoverageDecision}
    → insert_or_compare d ds ≡ ok ds'
    → ((stored_decision d ds ≡ none) × (ds' ≡ ds ++ d ∷ []))
      ⊎ ((e : CoverageDecision) × (stored_decision d ds ≡ some e)
          × (same_content e d ≡ true)
          × (ds' ≡ ds))
unfolding insert_or_compare
insert_or_compare_cases d ds {ds'} h = go (stored_decision d ds) refl h
  where
    go :
        (o : Option CoverageDecision)
        → stored_decision d ds ≡ o
        → elim o as (λ _. Result SchedulerError (List CoverageDecision)) [
          | none ↦ ok (ds ++ d ∷ [])
          | some e ↦ if same_content e d then ok ds else err decision_integrity
        ]
          ≡ ok ds'
        → ((stored_decision d ds ≡ none) × (ds' ≡ ds ++ d ∷ []))
          ⊎ ((e : CoverageDecision) × (stored_decision d ds ≡ some e)
              × (same_content e d ≡ true)
              × (ds' ≡ ds))
    go none e k = inl (e, ground arith)
    go (some s) e k = inr (s, e, ground arith, ground arith)

insert_or_compare_again :
    (d : CoverageDecision) (ds : List CoverageDecision) {ds' : List CoverageDecision}
    → insert_or_compare d ds ≡ ok ds'
    → insert_or_compare d ds' ≡ ok ds'
unfolding insert_or_compare
insert_or_compare_again d ds {ds'} h = elim (insert_or_compare_cases d ds h) [
  | inl (e, k) ↦ rw k (ground (arith, stored_decision-append d ds e, same_content_refl d))
  | inr (s, e, c, k) ↦ rw k (h ∙ ap ok k)
]

abbrev pub with_policy : CoverageDecision → Database → Database
with_policy d db = record db {
  coverage_policies = persist_coverage_policy d.policy_sha256 db.coverage_policies;
}

-- What a successful insertion went through.
record IsRecorded (d : CoverageDecision) (db db' : Database) : Type 0 where
  epoch : Option ℕ
  decisions : List CoverageDecision
  found : epoch_of d.collection_epoch_id d.collector_run_id db.collector_runs ≡ ok epoch
  inserted :
      insert_or_compare (record d { collection_epoch_id = epoch }) db.coverage_decisions
      ≡ ok decisions
  same : db' ≡ record db { coverage_decisions = decisions }

insert_coverage_decision-IsRecorded :
    (d : CoverageDecision) (db : Database) {db' : Database}
    → insert_coverage_decision d db ≡ ok db'
    → IsRecorded d db db'
unfolding insert_coverage_decision
insert_coverage_decision-IsRecorded d db h =
    let (epoch, e, h') =
      >>=-eq-ok (epoch_of d.collection_epoch_id d.collector_run_id db.collector_runs) _ h in
    let (decisions, i, k) =
      >>=-eq-ok (insert_or_compare (record d { collection_epoch_id = epoch }) db.coverage_decisions)
        _ h' in
    record { epoch = epoch; decisions = decisions; found = e; inserted = i; same = ground arith }

insert_again :
    (d : CoverageDecision) (db : Database) (epoch : Option ℕ) (ds : List CoverageDecision)
    → epoch_of d.collection_epoch_id d.collector_run_id db.collector_runs ≡ ok epoch
    → insert_or_compare (record d { collection_epoch_id = epoch }) ds ≡ ok ds
    → insert_coverage_decision d (record db { coverage_decisions = ds })
      ≡ ok (record db { coverage_decisions = ds })
unfolding insert_coverage_decision
insert_again d db epoch ds e i =
    ap
      (λ (m : Result SchedulerError (Option ℕ)). m >>= λ o.
        insert_or_compare (record d { collection_epoch_id = o }) ds >>= λ ds'.
        ok (record db { coverage_decisions = ds' }))
      e
    ∙ ap
        (λ (m : Result SchedulerError (List CoverageDecision)).
          m >>= λ ds'. ok (record db { coverage_decisions = ds' }))
        i

insert_coverage_decision_idempotent :
    (d : CoverageDecision) (db : Database) {db' : Database}
    → insert_coverage_decision d db ≡ ok db'
    → (insert_coverage_decision d db' ≡ ok db') × (db'.coverage_policies ≡ db.coverage_policies)
insert_coverage_decision_idempotent d db h =
    let r = insert_coverage_decision-IsRecorded d db h in
    rw r.same (
      insert_again d db r.epoch r.decisions r.found (
          insert_or_compare_again (record d { collection_epoch_id = r.epoch }) db.coverage_decisions
            r.inserted),
      refl,
    )

pub persist_coverage_policy_idempotent :
    (sha256 : ℕ) (ps : List ℕ)
    → persist_coverage_policy sha256 (persist_coverage_policy sha256 ps)
      ≡ persist_coverage_policy sha256 ps
unfolding persist_coverage_policy
persist_coverage_policy_idempotent sha256 [] = rw (==_refl sha256)
persist_coverage_policy_idempotent sha256 (p ∷ ps) =
    ground (arith, persist_coverage_policy_idempotent sha256 ps)

-- Recording is idempotent: a decision that was recorded can be recorded again, and changes nothing.
pub record_coverage_decision_idempotent :
    (d : CoverageDecision) (db : Database) {db' : Database}
    → record_coverage_decision d db ≡ ok db'
    → record_coverage_decision d db' ≡ ok db'
unfolding record_coverage_decision
record_coverage_decision_idempotent d db {db'} h =
    let (again, kept) = insert_coverage_decision_idempotent d (with_policy d db) h in
    let same : persist_coverage_policy d.policy_sha256 db'.coverage_policies
        ≡ db'.coverage_policies =
      ap (persist_coverage_policy d.policy_sha256) kept
      ∙ persist_coverage_policy_idempotent d.policy_sha256 db.coverage_policies
      ∙ sym kept in
    ap (λ ps. insert_coverage_decision d (record db' { coverage_policies = ps })) same ∙ again

-- The evidence is only added to: beside the policy's row, a recording keeps every other table and
-- every stored decision, in order, and adds at most one decision at the end.
pub record_coverage_decision_appends :
    (d : CoverageDecision) (db : Database) {db' : Database}
    → record_coverage_decision d db ≡ ok db'
    → (added : List CoverageDecision) × (db' ≡ record db {
      coverage_policies = persist_coverage_policy d.policy_sha256 db.coverage_policies;
      coverage_decisions = db.coverage_decisions ++ added;
    })
      × ((added ≡ []) ⊎ ((e : CoverageDecision) × (added ≡ e ∷ [])))
unfolding record_coverage_decision
record_coverage_decision_appends d db h =
    let r = insert_coverage_decision-IsRecorded d (with_policy d db) h in
    let d' : CoverageDecision = record d { collection_epoch_id = r.epoch } in
    elim (insert_or_compare_cases d' db.coverage_decisions r.inserted) [
      | inl (_, n) ↦ (
        d' ∷ [],
        r.same ∙ ap (λ ds. record (with_policy d db) { coverage_decisions = ds }) n,
        inr (d', refl),
      )
      | inr (_, _, _, n) ↦ (
        [],
        r.same
            ∙ ap (λ ds. record (with_policy d db) { coverage_decisions = ds })
                (n ∙ sym (append-nil db.coverage_decisions)),
        inl refl,
      )
    ]
