-- ===== src/Scheduler/Decisions/Errors.antt =====
-- The errors of `_record_coverage_decision` in src/pump_research/scheduling/scheduler.py.
use pump_research.Prelude.{
  ℕ, ◌≡◌, ◌⊎◌, inl, inr, refl, Option, none, some, List, [], ◌∷◌, ◌++◌, Result, ok, err, arith,
  Bool-cases, Option-cases, ◌==◌, ◌>>=◌, ap,
}
use pump_research.Scheduler.Rows.{
  CoverageDecision, Database, SchedulerError, decision_integrity, no_such_run,
}
use pump_research.Scheduler.Decisions.{
  same_content, stored_decision, insert_or_compare, epoch_of, run_epoch, record_coverage_decision,
  insert_coverage_decision,
}
use pump_research.Scheduler.Decisions.Recording.{with_policy}

-- The errors of the recording itself.
abbrev pub IsRecordingError : SchedulerError → Type 0
IsRecordingError e = (e ≡ no_such_run) ⊎ (e ≡ decision_integrity)

run_epoch_cases :
    (run : ℕ) (runs : List (ℕ × ℕ))
    → ((epoch : Option ℕ) × (run_epoch run runs ≡ ok epoch))
      ⊎ (run_epoch run runs ≡ err no_such_run)
unfolding run_epoch
run_epoch_cases run [] = inr refl
run_epoch_cases run ((id, epoch) ∷ runs) = elim (Bool-cases (id == run)) [
  | inl e ↦ rw e (inl (some epoch, refl))
  | inr e ↦ rw e (run_epoch_cases run runs)
]

epoch_of_cases :
    (epoch run : Option ℕ) (runs : List (ℕ × ℕ))
    → ((found : Option ℕ) × (epoch_of epoch run runs ≡ ok found))
      ⊎ (epoch_of epoch run runs ≡ err no_such_run)
unfolding epoch_of
epoch_of_cases (some epoch) run runs = inl (some epoch, refl)
epoch_of_cases none none runs = inl (none, refl)
epoch_of_cases none (some run) runs = run_epoch_cases run runs

insert_or_compare_ends :
    (d : CoverageDecision) (ds : List CoverageDecision)
    → ((ds' : List CoverageDecision) × (insert_or_compare d ds ≡ ok ds'))
      ⊎ (insert_or_compare d ds ≡ err decision_integrity)
unfolding insert_or_compare
insert_or_compare_ends d ds = elim (Option-cases (stored_decision d ds)) [
  | inl e ↦ inl (ds ++ d ∷ [], ground arith)
  | inr (s, e) ↦ elim (Bool-cases (same_content s d)) [
    | inl c ↦ inl (ds, ground arith)
    | inr c ↦ inr (ground arith)
  ]
]

-- An insertion keeps the schedules, or fails because the collector run does not exist or because
-- the key is taken by another content.
insert_coverage_decision_cases :
    (d : CoverageDecision) (db : Database)
    → ((db' : Database) × (insert_coverage_decision d db ≡ ok db') × (db'.schedules ≡ db.schedules))
      ⊎ ((e : SchedulerError) × (insert_coverage_decision d db ≡ err e) × IsRecordingError e)
unfolding insert_coverage_decision
insert_coverage_decision_cases d db =
    elim (epoch_of_cases d.collection_epoch_id d.collector_run_id db.collector_runs) [
      | inl (epoch, e) ↦
          elim (insert_or_compare_ends (record d { collection_epoch_id = epoch })
            db.coverage_decisions) [
              | inl (ds, i) ↦ inl (
                record db { coverage_decisions = ds },
                rw e (
                    ap
                      (λ (m : Result SchedulerError (List CoverageDecision)).
                        m >>= λ ds'. ok (record db { coverage_decisions = ds' }))
                      i),
                refl,
              )
              | inr i ↦ inr (
                decision_integrity,
                rw e (
                    ap
                      (λ (m : Result SchedulerError (List CoverageDecision)).
                        m >>= λ ds'. ok (record db { coverage_decisions = ds' }))
                      i),
                inr refl,
              )
            ]
      | inr e ↦ inr (no_such_run, rw (e, ◌>>=◌), inl refl)
    ]

-- A recording keeps the schedules, or fails with an error of its own.
pub record_coverage_decision_cases :
    (d : CoverageDecision) (db : Database)
    → ((db' : Database) × (record_coverage_decision d db ≡ ok db') × (db'.schedules ≡ db.schedules))
      ⊎ ((e : SchedulerError) × (record_coverage_decision d db ≡ err e) × IsRecordingError e)
unfolding record_coverage_decision
record_coverage_decision_cases d db = insert_coverage_decision_cases d (with_policy d db)
