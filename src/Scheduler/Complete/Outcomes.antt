-- ===== src/Scheduler/Complete/Outcomes.antt =====
-- The outcome of a completion in src/pump_research/scheduling/scheduler.py.
use pump_research.Prelude.{
  ℕ, ◌<◌, ◌≡◌, ◌⊎◌, inl, inr, refl, false, Option, none, some, List, [], ◌∷◌, ◌++◌, Result, ok,
  ◌>>=◌, >>=-eq-ok, All, arith, length, map, ◌==◌, ==→eq, if-eq-cases, ap, sym, subst, ◌∙◌,
  Option-cases, leb-false→lt, ==_refl,
}
use pump_research.Scheduler.Rows.{
  PollSchedule, PollBatch, PollBatchMember, PollOutcome, PollBatchOutcome, Database, SchedulerError,
  AdaptiveScheduler, CapacityDecision, same_option→eq,
}
use pump_research.Scheduler.Selection.{lateness_ms}
use pump_research.Scheduler.Advance.{update_schedule, record_if}
use pump_research.Scheduler.Advance.Preservation.{record_if-tables}
use pump_research.Scheduler.Batches.{
  batch_of, outcome_of, capacity_of, decision_intervals, members_of, schedules_of, schedule_of,
  lost_member, is_lost,
}
use pump_research.Scheduler.Complete.{
  PollCompletion, completion_from_model, outcome_model, complete_row, complete_rows, complete_held,
  complete_new, complete_batch_in_session,
}

batch_of-id : (id : ℕ) (bs : List PollBatch) {b : PollBatch} → batch_of id bs ≡ ok b → b.id ≡ id
unfolding batch_of
batch_of-id id [] h = cc
batch_of-id id (x ∷ xs) {b} h = elim (if-eq-cases (x.id == id) h) [
  | inl (e, k) ↦
      let same : x ≡ b = ground arith in subst (λ (y : PollBatch). y.id ≡ id) same (==→eq x.id id e)
  | inr (e, k) ↦ batch_of-id id xs k
]

outcome_of-append :
    (id : ℕ) (os : List PollBatchOutcome) (o : PollBatchOutcome)
    → outcome_of id os ≡ none
    → o.batch_id ≡ id
    → outcome_of id (os ++ o ∷ []) ≡ some o
unfolding outcome_of
outcome_of-append id [] o h e = rw (e, ==_refl id) refl
outcome_of-append id (x ∷ xs) o h e = ground (arith, outcome_of-append id xs o)

-- The members' schedules are held by the batch.
abbrev pub IsHolder : ℕ → List PollSchedule → PollBatchMember → Type 0
IsHolder batch_id ss m =
    (s : PollSchedule) × (schedule_of m.token_id ss ≡ some s) × (s.lease_id ≡ some batch_id)

lost_member-false :
    (batch_id : ℕ) (ss : List PollSchedule) (ms : List PollBatchMember)
    → lost_member batch_id ss ms ≡ false
    → All (IsHolder batch_id ss) ms
unfolding lost_member
lost_member-false batch_id ss [] h = tt
lost_member-false batch_id ss (m ∷ ms) h = (
  elim (Option-cases (schedule_of m.token_id ss)) [
    | inl e ↦ absurd (ground arith)
    | inr (s, e) ↦ (s, e, same_option→eq s.lease_id (some batch_id) (ground arith))
  ],
  lost_member-false batch_id ss ms (ground arith),
)

module _ {Float : Type 0} (scheduler : AdaptiveScheduler Float) (now : ℕ) where
  -- What a completion that stores an outcome went through.
  pub record IsCompleted (batch : PollBatch) (db : Database) (r : PollCompletion) (db' : Database)
      : Type 0 where
    pub capacity : Option CapacityDecision
    pub model : PollBatchOutcome
    pub same_batch : model.batch_id ≡ batch.id
    pub held :
        is_lost batch now
          (members_of batch db.members)
          (schedules_of (members_of batch db.members) db.schedules)
        ≡ false
    pub ran :
        complete_rows scheduler now batch capacity
          (members_of batch db.members)
          (schedules_of (members_of batch db.members) db.schedules)
          (record db { outcomes = db.outcomes ++ model ∷ [] })
        ≡ ok db'
    pub returned : r ≡ completion_from_model model

  outcome_model-batch :
      (batch_id : ℕ) (outcome : PollOutcome) (log : Option ℕ) (n : ℕ) (ls : List ℕ)
      {o : PollBatchOutcome}
      → outcome_model scheduler now batch_id outcome log n ls ≡ ok o
      → o.batch_id ≡ batch_id
  unfolding outcome_model
  outcome_model-batch batch_id outcome log n [] h = cc
  outcome_model-batch batch_id outcome log n (l ∷ ls) {o} h = ground arith

  complete_new-IsCompleted :
      (batch : PollBatch) (outcome : PollOutcome) (log : Option ℕ) (db : Database)
      {r : PollCompletion} {db' : Database}
      → complete_new scheduler now batch outcome log db ≡ ok (r, db')
      → IsCompleted batch db r db'
  unfolding complete_new complete_held
  complete_new-IsCompleted batch outcome log db {r} {db'} h =
      let ms = members_of batch db.members in
      let ss = schedules_of ms db.schedules in
      let (capacity, c, k) =
        >>=-eq-ok
          (decision_intervals (capacity_of batch.capacity_decision_id db.capacity_decisions)) _ h in
      elim (if-eq-cases (is_lost batch now ms ss) k) [
        | inl (_, l) ↦ cc
        | inr (held, l) ↦
            let (model, m, l') =
              >>=-eq-ok
                (outcome_model scheduler now batch.id outcome log (length ms)
                  (map (λ m. lateness_ms scheduler.milliseconds now m.due_at) ms))
                _ l in
            let (x, ran, l'') =
              >>=-eq-ok
                (complete_rows scheduler now batch capacity ms ss
                  (record db { outcomes = db.outcomes ++ model ∷ [] }))
                _ l' in
            let same : x ≡ db' = ground arith in
            record {
              capacity = capacity;
              model = model;
              same_batch = outcome_model-batch batch.id outcome log _ _ m;
              held = held;
              ran = ran ∙ ap ok same;
              returned = ground arith;
            }
      ]

  -- A completion found an outcome of the batch and changed nothing, or stored one.
  pub complete_batch_in_session_cases :
      (id : ℕ) (outcome : PollOutcome) (log : Option ℕ) (db : Database) {r : PollCompletion}
      {db' : Database}
      → complete_batch_in_session scheduler now id outcome log db ≡ ok (r, db')
      → (batch : PollBatch) × (batch_of id db.batches ≡ ok batch)
        × (((o : PollBatchOutcome) × (outcome_of id db.outcomes ≡ some o)
              × (r ≡ completion_from_model o)
              × (db ≡ db'))
            ⊎ ((outcome_of id db.outcomes ≡ none) × IsCompleted batch db r db'))
  unfolding complete_batch_in_session
  complete_batch_in_session_cases id outcome log db {r} {db'} h =
      let (batch, b, k) = >>=-eq-ok (batch_of id db.batches) _ h in
      (batch, b, go batch (outcome_of id db.outcomes) refl k)
    where
      go :
          (batch : PollBatch) (found : Option PollBatchOutcome)
          → outcome_of id db.outcomes ≡ found
          → elim found as (λ _. Result SchedulerError (PollCompletion × Database)) [
            | some existing ↦ ok (completion_from_model existing, db)
            | none ↦ complete_new scheduler now batch outcome log db
          ]
            ≡ ok (r, db')
          → ((o : PollBatchOutcome) × (outcome_of id db.outcomes ≡ some o)
              × (r ≡ completion_from_model o)
              × (db ≡ db'))
            ⊎ ((outcome_of id db.outcomes ≡ none) × IsCompleted batch db r db')
      go batch (some o) e k = inl (o, e, ground arith, ground arith)
      go batch none e k = inr (e, complete_new-IsCompleted batch outcome log db k)

  complete_rows-tables :
      (batch : PollBatch) (capacity : Option CapacityDecision) (ms : List PollBatchMember)
      (ss : List PollSchedule) (db : Database) {db' : Database}
      → complete_rows scheduler now batch capacity ms ss db ≡ ok db'
      → (db'.batches ≡ db.batches) × (db'.outcomes ≡ db.outcomes)
  unfolding complete_rows
  complete_rows-tables batch capacity ms [] db {db'} h =
      let same : db ≡ db' = ground arith in
      (ap (λ (x : Database). x.batches) (sym same), ap (λ (x : Database). x.outcomes) (sym same))
  complete_rows-tables batch capacity ms (s ∷ ss) db {db'} h =
      let ((t, d), c, k) = >>=-eq-ok (complete_row scheduler now batch capacity ms s) _ h in
      let (x, i, l) =
        >>=-eq-ok (record_if d (record db { schedules = update_schedule t db.schedules })) _ k in
      let (b, o) = record_if-tables d _ i in
      let (b', o') = complete_rows-tables batch capacity ms ss x l in (b' ∙ b, o' ∙ o)

module _ {Float : Type 0} (scheduler : AdaptiveScheduler Float) where
  -- A completion is idempotent: whenever and with whatever outcome the batch is completed again,
  -- by any scheduler, the answer is the first one and nothing changes.
  pub complete_batch_in_session_idempotent :
      (again : AdaptiveScheduler Float) (now later id : ℕ) (outcome other : PollOutcome)
      (log log' : Option ℕ) (db : Database) {r : PollCompletion} {db' : Database}
      → complete_batch_in_session scheduler now id outcome log db ≡ ok (r, db')
      → complete_batch_in_session again later id other log' db' ≡ ok (r, db')
  unfolding complete_batch_in_session
  complete_batch_in_session_idempotent again now later id outcome other log log' db {r} {db'} h =
      let (batch, b, k) = complete_batch_in_session_cases scheduler now id outcome log db h in
      elim k [
        | inl (o, e, s, same) ↦
            replay batch o (subst (λ (x : Database). batch_of id x.batches ≡ ok batch) same b)
              (subst (λ (x : Database). outcome_of id x.outcomes ≡ some o) same e) s
        | inr (e, c) ↦
            let (batches, outcomes) =
              complete_rows-tables scheduler now batch c.capacity _ _ _ c.ran in
            replay batch c.model (rw batches b)
              (rw outcomes (
                outcome_of-append id db.outcomes c.model e
                  (c.same_batch ∙ batch_of-id id db.batches b)))
              c.returned
      ]
    where
      replay :
          (batch : PollBatch) (o : PollBatchOutcome)
          → batch_of id db'.batches ≡ ok batch
          → outcome_of id db'.outcomes ≡ some o
          → r ≡ completion_from_model o
          → complete_batch_in_session again later id other log' db' ≡ ok (r, db')
      replay batch o b e s = rw (b, ◌>>=◌, e, s) refl

  -- An outcome is stored only before the lease of the batch expires, and only where the schedule of
  -- each of its members is still leased to it: a worker that lost its lease stores nothing.
  pub complete_batch_in_session-held :
      (now id : ℕ) (outcome : PollOutcome) (log : Option ℕ) (db : Database) {r : PollCompletion}
      {db' : Database}
      → outcome_of id db.outcomes ≡ none
      → complete_batch_in_session scheduler now id outcome log db ≡ ok (r, db')
      → (batch : PollBatch) × (batch_of id db.batches ≡ ok batch)
        × (now < batch.lease_expires_at)
        × All
            (IsHolder batch.id (schedules_of (members_of batch db.members) db.schedules))
            (members_of batch db.members)
  unfolding is_lost
  complete_batch_in_session-held now id outcome log db {r} {db'} fresh h =
      let (batch, b, k) = complete_batch_in_session_cases scheduler now id outcome log db h in
      elim k [
        | inl (o, e, s, same) ↦ absurd (ground arith)
        | inr (e, c) ↦
            let held = c.held in
            (
              batch,
              b,
              leb-false→lt batch.lease_expires_at now (ground arith),
              lost_member-false batch.id _ _ (ground arith),
            )
      ]
