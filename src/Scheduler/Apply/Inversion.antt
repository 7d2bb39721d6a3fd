-- ===== src/Scheduler/Apply/Inversion.antt =====
-- src/pump_research/scheduling/scheduler.py: what a `set_lifecycle_state_in_session` that returned
-- went through.
use pump_research.Prelude.{
  ℕ, ◌≤◌, ◌<◌, ◌≡◌, inl, inr, refl, sym, ap, ◌∙◌, subst, Bool, true, false, not, ◌&&◌, Option, none,
  some, List, [], ◌∷◌, ◌++◌, Result, ok, err, >>=-eq-ok, arith, ltb, ltb→lt, ◌==◌, ==→eq, ==_refl,
  if◌then◌else◌, if-eq-cases,
}
use pump_research.Scheduler.Rows.{
  LifecycleState, CoverageClass, PollSchedule, CoverageDecision, ReasonCode, coverage_time_advanced,
  Token, Database, SchedulerError, coverage_reconstruction, conflicting_states, AdaptiveScheduler,
  CapacityDecision, same_state, same_state→eq, same_option→eq,
}
use pump_research.Scheduler.Refresh.{refresh_one_coverage}
use pump_research.Scheduler.Decisions.{record_coverage_decision}
use pump_research.Scheduler.Advance.{update_schedule, record_if}
use pump_research.Scheduler.Advance.Preservation.{record_if-schedules}
use pump_research.Scheduler.Batches.{schedule_of}
use pump_research.Scheduler.Apply.{
  token_of, first_admission, first_schedule, restated, planned_row, Previous, lifecycle_change,
  complete_application, decided_class, apply_first, is_up_to_date, apply_refresh, apply_restated,
  apply_change, with_policy, set_lifecycle_state_in_session,
}

pub token_of-id : (id : ℕ) (ts : List Token) {t : Token} → token_of id ts ≡ ok t → t.id ≡ id
unfolding token_of
token_of-id id [] h = cc
token_of-id id (x ∷ xs) {t} h = elim (if-eq-cases (x.id == id) h) [
  | inl (e, k) ↦
      let same : x ≡ t = ground arith in sym (ap (λ (y : Token). y.id) same) ∙ ==→eq x.id id e
  | inr (e, k) ↦ token_of-id id xs k
]

pub schedule_of-token :
    (id : ℕ) (ss : List PollSchedule) {s : PollSchedule}
    → schedule_of id ss ≡ some s
    → s.token_id ≡ id
unfolding schedule_of
schedule_of-token id [] h = cc
schedule_of-token id (x ∷ xs) {s} h = elim (if-eq-cases (x.token_id == id) h) [
  | inl (e, k) ↦
      let same : x ≡ s = ground arith in
      sym (ap (λ (y : PollSchedule). y.token_id) same) ∙ ==→eq x.token_id id e
  | inr (e, k) ↦ schedule_of-token id xs k
]

pub schedule_of-update :
    (id : ℕ) (t : PollSchedule) (ss : List PollSchedule) {s : PollSchedule}
    → schedule_of id ss ≡ some s
    → t.token_id ≡ id
    → schedule_of id (update_schedule t ss) ≡ some t
unfolding schedule_of update_schedule
schedule_of-update id t [] h e = cc
schedule_of-update id t (x ∷ xs) h e =
    let written : (n : Bool) → (x.token_id == id) ≡ n → (x.token_id == t.token_id) ≡ n =
      λ n k. ap (λ m. x.token_id == m) e ∙ k in
    let found : (t.token_id == id) ≡ true = ap (λ m. m == id) e ∙ ==_refl id in
    elim (if-eq-cases (x.token_id == id) h) [
      | inl (own, _) ↦ rw (written true own, if◌then◌else◌, found) refl
      | inr (other, k) ↦
          rw (written false other, if◌then◌else◌, other) (schedule_of-update id t xs k e)
    ]

pub schedule_of-append :
    (id : ℕ) (t : PollSchedule) (ss : List PollSchedule)
    → schedule_of id ss ≡ none
    → t.token_id ≡ id
    → schedule_of id (ss ++ t ∷ []) ≡ some t
unfolding schedule_of
schedule_of-append id t [] h e = rw (e, ==_refl id) refl
schedule_of-append id t (x ∷ xs) h e = ground (arith, schedule_of-append id t xs)

module _ {Float : Type 0} (scheduler : AdaptiveScheduler Float)
    (plan : Database → Result SchedulerError CapacityDecision) (state : LifecycleState)
    (decided_at : ℕ) (reason : ReasonCode) (run : Option ℕ) where
  complete_application-row :
      (task : PollSchedule) (admission : ℕ) (coverage : CoverageClass)
      (previous : Previous scheduler) (db : Database) {r : PollSchedule} {db' : Database}
      → complete_application scheduler plan state decided_at reason run task admission coverage
          previous db
        ≡ ok (r, db')
      → (capacity : CapacityDecision) × (plan db ≡ ok capacity)
        × (r ≡ planned_row scheduler task coverage decided_at capacity)
        × (db'.schedules ≡ update_schedule r db.schedules)
  unfolding complete_application record_if record_coverage_decision
  complete_application-row task admission coverage previous db {r} {db'} h =
      let (capacity, p, k) = >>=-eq-ok (plan db) _ h in
      let t = planned_row scheduler task coverage decided_at capacity in
      let change =
        lifecycle_change scheduler plan state decided_at reason run t admission coverage previous
          capacity in
      let (x, d, l) =
        >>=-eq-ok
          (record_coverage_decision change
            (record db { schedules = update_schedule t db.schedules }))
          _ k in
      let same : t ≡ r = ground arith in
      let stored = record_if-schedules (some change) _ d in
      let tables : x.schedules ≡ db'.schedules = ground arith in
      (capacity, p, sym same, sym tables ∙ stored ∙ ap (λ y. update_schedule y db.schedules) same)

  -- The ways in which an application returns.
  pub data Applied (token_id : ℕ) (db : Database) (r : PollSchedule) (db' : Database) : Type 0 where
    stale :
        schedule_of token_id db.schedules ≡ some r
        → decided_at < r.state_decided_at
        → db' ≡ db
        → Applied token_id db r db'
    refreshed_row :
        (task : PollSchedule) (d : Option CoverageDecision)
        → schedule_of token_id db.schedules ≡ some task
        → task.state_decided_at ≤ decided_at
        → task.lifecycle_state ≡ state
        → task.coverage_policy_sha256 ≡ some (scheduler.coverage_sha256)
        → refresh_one_coverage scheduler task decided_at coverage_time_advanced run ≡ ok (r, d)
        → db'.schedules ≡ update_schedule r db.schedules
        → Applied token_id db r db'
    restated_row :
        (task : PollSchedule) (admission : ℕ) (coverage : CoverageClass) (next : Option ℕ)
        (capacity : CapacityDecision)
        → schedule_of token_id db.schedules ≡ some task
        → task.state_decided_at ≤ decided_at
        → task.admitted_at ≡ some admission
        → decided_class scheduler plan state decided_at reason run admission ≡ ok (coverage, next)
        → r
          ≡ planned_row scheduler
              (restated scheduler task state decided_at coverage next)
              coverage
              decided_at
              capacity
        → db'.schedules
          ≡ update_schedule r (
              update_schedule (restated scheduler task state decided_at coverage next) db.schedules)
        → Applied token_id db r db'
    first_row :
        (token : Token) (admission : ℕ) (coverage : CoverageClass) (next : Option ℕ)
        (capacity : CapacityDecision)
        → schedule_of token_id db.schedules ≡ none
        → token.id ≡ token_id
        → decided_class scheduler plan state decided_at reason run admission ≡ ok (coverage, next)
        → r
          ≡ planned_row scheduler
              (first_schedule scheduler token state decided_at admission coverage next)
              coverage
              decided_at
              capacity
        → db'.schedules
          ≡ update_schedule r (
              db.schedules
              ++ first_schedule scheduler token state decided_at admission coverage next ∷ [])
        → Applied token_id db r db'

  apply_first-Applied :
      (token_id : ℕ) (admitted_at : Option ℕ) (token : Token) (db : Database) {r : PollSchedule}
      {db' : Database}
      → schedule_of token_id db.schedules ≡ none
      → token.id ≡ token_id
      → apply_first scheduler plan state decided_at reason run admitted_at token
          (with_policy scheduler plan state decided_at reason run db)
        ≡ ok (r, db')
      → Applied token_id db r db'
  unfolding apply_first with_policy
  apply_first-Applied token_id admitted_at token db none_of named h =
      let (admission, a, k) = >>=-eq-ok (first_admission admitted_at state decided_at) _ h in
      let ((coverage, next), c, l) =
        >>=-eq-ok (decided_class scheduler plan state decided_at reason run admission) _ k in
      let (capacity, p, same, tables) =
        complete_application-row
          (first_schedule scheduler token state decided_at admission coverage next) admission
          coverage _ _ l in
      first_row token admission coverage next capacity none_of named c same tables

  is_up_to_date-fields :
      (task : PollSchedule)
      → is_up_to_date scheduler plan state decided_at reason run task ≡ true
      → (task.lifecycle_state ≡ state)
        × (task.coverage_policy_sha256 ≡ some (scheduler.coverage_sha256))
  unfolding is_up_to_date
  is_up_to_date-fields task h = (
    same_state→eq task.lifecycle_state state (ground arith),
    same_option→eq task.coverage_policy_sha256 (some (scheduler.coverage_sha256)) (ground arith),
  )

  apply_refresh-Applied :
      (token_id : ℕ) (task : PollSchedule) (db : Database) {r : PollSchedule} {db' : Database}
      → schedule_of token_id db.schedules ≡ some task
      → task.state_decided_at ≤ decided_at
      → task.lifecycle_state ≡ state
      → task.coverage_policy_sha256 ≡ some (scheduler.coverage_sha256)
      → apply_refresh scheduler plan state decided_at reason run task
          (with_policy scheduler plan state decided_at reason run db)
        ≡ ok (r, db')
      → Applied token_id db r db'
  unfolding apply_refresh with_policy
  apply_refresh-Applied token_id task db {r} {db'} found late same policy h =
      let ((t, d), e, k) =
        >>=-eq-ok (refresh_one_coverage scheduler task decided_at coverage_time_advanced run) _ h in
      let (x, i, l) =
        >>=-eq-ok
          (record_if d (record (with_policy scheduler plan state decided_at reason run db) {
            schedules = update_schedule t db.schedules;
          }))
          _ k in
      let row : t ≡ r = ground arith in
      let tables : x.schedules ≡ db'.schedules = ground arith in
      refreshed_row task d found late same policy (e ∙ ap (λ y. ok (y, d)) row)
        (sym tables ∙ record_if-schedules d _ i ∙ ap (λ y. update_schedule y db.schedules) row)

  apply_restated-Applied :
      (token_id : ℕ) (task : PollSchedule) (admission : ℕ) (db : Database) {r : PollSchedule}
      {db' : Database}
      → schedule_of token_id db.schedules ≡ some task
      → task.state_decided_at ≤ decided_at
      → task.admitted_at ≡ some admission
      → apply_restated scheduler plan state decided_at reason run task admission
          (with_policy scheduler plan state decided_at reason run db)
        ≡ ok (r, db')
      → Applied token_id db r db'
  unfolding apply_restated with_policy
  apply_restated-Applied token_id task admission db found late admitted h =
      let ((coverage, next), c, l) =
        >>=-eq-ok (decided_class scheduler plan state decided_at reason run admission) _ h in
      let (capacity, p, same, tables) =
        complete_application-row (restated scheduler task state decided_at coverage next) admission
          coverage _ _ l in
      restated_row task admission coverage next capacity found late admitted c same tables

  apply_change-Applied :
      (token_id : ℕ) (task : PollSchedule) (db : Database) {r : PollSchedule} {db' : Database}
      → schedule_of token_id db.schedules ≡ some task
      → task.state_decided_at ≤ decided_at
      → apply_change scheduler plan state decided_at reason run task
          (with_policy scheduler plan state decided_at reason run db)
        ≡ ok (r, db')
      → Applied token_id db r db'
  unfolding apply_change
  apply_change-Applied token_id task db {r} {db'} found late h = go (task.admitted_at) refl h
    where
      go :
          (admitted : Option ℕ)
          → task.admitted_at ≡ admitted
          → elim admitted as (λ _. Result SchedulerError (PollSchedule × Database)) [
            | none ↦ err coverage_reconstruction
            | some admission ↦
                if is_up_to_date scheduler plan state decided_at reason run task
                then apply_refresh scheduler plan state decided_at reason run task
                    (with_policy scheduler plan state decided_at reason run db)
                else apply_restated scheduler plan state decided_at reason run task admission
                    (with_policy scheduler plan state decided_at reason run db)
          ]
            ≡ ok (r, db')
          → Applied token_id db r db'
      go none e k = cc
      go (some admission) e k =
          elim (if-eq-cases (is_up_to_date scheduler plan state decided_at reason run task) k) [
            | inl (current, l) ↦
                let (same, policy) = is_up_to_date-fields task current in
                apply_refresh-Applied token_id task db found late same policy l
            | inr (_, l) ↦ apply_restated-Applied token_id task admission db found late e l
          ]

  pub set_lifecycle_state_in_session-Applied :
      (token_id : ℕ) (admitted_at : Option ℕ) (db : Database) {r : PollSchedule} {db' : Database}
      → set_lifecycle_state_in_session scheduler plan state decided_at reason run token_id
          admitted_at db
        ≡ ok (r, db')
      → Applied token_id db r db'
  unfolding set_lifecycle_state_in_session
  set_lifecycle_state_in_session-Applied token_id admitted_at db {r} {db'} h =
      let (token, t, k) = >>=-eq-ok (token_of token_id db.tokens) _ h in
      go token (token_of-id token_id db.tokens t) (schedule_of token_id db.schedules) refl k
    where
      known :
          (task : PollSchedule)
          → schedule_of token_id db.schedules ≡ some task
          → (if ltb decided_at task.state_decided_at
              then ok (task, db)
              else if decided_at == task.state_decided_at
                  && not (same_state task.lifecycle_state state)
              then err conflicting_states
              else apply_change scheduler plan state decided_at reason run task
                  (with_policy scheduler plan state decided_at reason run db))
            ≡ ok (r, db')
          → Applied token_id db r db'
      known task found k = elim (if-eq-cases (ltb decided_at task.state_decided_at) k) [
        | inl (early, l) ↦
            let row : task ≡ r = ground arith in
            stale (found ∙ ap some row)
              (ltb→lt decided_at r.state_decided_at
                (subst (λ (y : PollSchedule). ltb decided_at y.state_decided_at ≡ true) row early))
              (ground arith)
        | inr (late, l) ↦
            elim (if-eq-cases
              (decided_at == task.state_decided_at && not (same_state task.lifecycle_state state))
              l) [
                | inl (_, m) ↦ cc
                | inr (_, m) ↦ apply_change-Applied token_id task db found (ground arith) m
              ]
      ]

      go :
          (token : Token)
          → token.id ≡ token_id
          → (found : Option PollSchedule) → schedule_of token_id db.schedules ≡ found
          → elim found as (λ _. Result SchedulerError (PollSchedule × Database)) [
            | none ↦
                apply_first scheduler plan state decided_at reason run admitted_at token
                  (with_policy scheduler plan state decided_at reason run db)
            | some task ↦
                if ltb decided_at task.state_decided_at
                then ok (task, db)
                else if decided_at == task.state_decided_at
                    && not (same_state task.lifecycle_state state)
                then err conflicting_states
                else apply_change scheduler plan state decided_at reason run task
                    (with_policy scheduler plan state decided_at reason run db)
          ]
            ≡ ok (r, db')
          → Applied token_id db r db'
      go token named none e k = apply_first-Applied token_id admitted_at token db e named k
      go token named (some task) e k = known task e k
