-- ===== src/Scheduler/Refresh/Constraints.antt =====
-- What `_refresh_one_coverage` of src/pump_research/scheduling/scheduler.py keeps of a row, and
-- where it returns.
use pump_research.Prelude.{
  ◌≢◌, ◌+◌, Bool, false, leb, Bool-cases, ℕ, ◌≤◌, ◌≡◌, ◌⊎◌, true, Option, none, some, ok, arith,
  inl, inr, refl, is_some, ap,
}
use pump_research.Coverage.{next_transition_at, interval_for_coverage}
use pump_research.Coverage.Boundaries.{coverage_class_for-total}
use pump_research.Scheduler.Rows.{
  PollSchedule, CoverageDecision, ReasonCode, AdaptiveScheduler, CoverageClass, class_code,
  retired_control, IsStored, IsMappedAt,
}
use pump_research.Scheduler.Refresh.{kept_or, refresh_one_coverage, refreshed, refreshed_due}
use pump_research.Scheduler.Refresh.Inversion.{IsRefresh, refresh_one_coverage-IsRefresh}

-- The due time is there and not later than a time.
abbrev pub is_passed : Option ℕ → ℕ → Bool
is_passed none now = false
is_passed (some due) now = leb due now

module _ {Float : Type 0} (scheduler : AdaptiveScheduler Float) where
  retired_due :
      (s : PollSchedule) (now : ℕ) (coverage : CoverageClass)
      → coverage ≡ retired_control
      → refreshed_due scheduler s now coverage (interval_for_coverage (scheduler.policy) coverage)
        ≡ none
  unfolding refreshed_due interval_for_coverage
  retired_due s now retired_control e = refl
  retired_due s now _ e = ground arith

  refreshed-IsStored :
      (s : PollSchedule) (now : ℕ) (coverage : CoverageClass) (baseline : Option ℕ)
      → is_some s.admitted_at ≡ true
      → IsStored s
      → IsStored (refreshed scheduler s now coverage baseline)
  unfolding refreshed
  refreshed-IsStored s now coverage baseline e h = record {
    projection_admitted = ground arith;
    projection_decided = refl;
    projection_policy = refl;
    retired_not_due = λ k. retired_due s now coverage (ground arith);
    lease_pair = h.lease_pair;
    candidate_interval = ground arith;
    candidate_event = ground arith;
  }

  -- The refresh keeps the constraints of the table that `IsStored` states.
  pub refresh_one_coverage-IsStored :
      (s : PollSchedule) (now : ℕ) (reason : ReasonCode) (run : Option ℕ) {t : PollSchedule}
      {d : Option CoverageDecision}
      → IsStored s
      → refresh_one_coverage scheduler s now reason run ≡ ok (t, d)
      → IsStored t
  refresh_one_coverage-IsStored s now reason run {t} {d} h e =
      go (refresh_one_coverage-IsRefresh scheduler s now reason run e)
    where
      go : IsRefresh scheduler s now reason run t d → IsStored t
      go r = elim r.ends [
        | inl (_, same, _) ↦ rw same h
        | inr (_, same, _) ↦
            rw same
              (refreshed-IsStored s now r.coverage r.baseline (ap (λ o. is_some o) r.admitted) h)
      ]

  -- A schedule that is mapped, admitted and decided by `now` is refreshed with no error.
  pub refresh_one_coverage-total :
      (s : PollSchedule) (now : ℕ) (reason : ReasonCode) (run : Option ℕ)
      → IsMappedAt now s
      → (t : PollSchedule) × (d : Option CoverageDecision) × (refresh_one_coverage scheduler s now
            reason run
          ≡ ok (t, d))
  unfolding refresh_one_coverage next_transition_at
  refresh_one_coverage-total s now reason run m =
      let (c, e) =
        coverage_class_for-total (scheduler.policy) s.lifecycle_state m.admission s.state_decided_at
          now m.admitted_before m.decided_before in
      rw (m.admitted, m.mapped, e) (_, _, refl)

  -- The refreshed schedule is the token's, and still mapped, admitted and decided by `now`.
  pub refresh_one_coverage-IsMappedAt :
      (s : PollSchedule) (now : ℕ) (reason : ReasonCode) (run : Option ℕ) {t : PollSchedule}
      {d : Option CoverageDecision}
      → IsMappedAt now s
      → refresh_one_coverage scheduler s now reason run ≡ ok (t, d)
      → (t.token_id ≡ s.token_id) × IsMappedAt now t
  unfolding refreshed
  refresh_one_coverage-IsMappedAt s now reason run {t} {d} m h =
      let r = refresh_one_coverage-IsRefresh scheduler s now reason run h in
      elim r.ends [
        | inl (_, same, _) ↦ rw same (refl, m)
        | inr (_, same, _) ↦ rw same (
          refl,
          record {
            admission = m.admission;
            admitted = m.admitted;
            admitted_before = m.admitted_before;
            decided_before = m.decided_before;
            class = r.coverage;
            mapped = refl;
          },
        )
      ]

  -- The due time that a refresh writes: none where the schedule retires, and else the old one where
  -- it has passed, and one that is not before `now` where none has.
  abbrev pub IsDueWritten : PollSchedule → (now : ℕ) → CoverageClass → (due : Option ℕ) → Type 0
  IsDueWritten s now coverage due =
      ((coverage ≡ retired_control) × (due ≡ none))
      ⊎ ((coverage ≢ retired_control)
          × (((is_passed s.next_due_at now ≡ true) × (due ≡ s.next_due_at))
              ⊎ ((is_passed s.next_due_at now ≡ false)
                  × (fresh : ℕ) × (due ≡ some fresh)
                  × (now ≤ fresh))))

  kept_or-cases :
      (due : Option ℕ) (now phase : ℕ)
      → ((is_passed due now ≡ true) × (kept_or due now (now + phase) ≡ due))
        ⊎ ((is_passed due now ≡ false)
            × (fresh : ℕ) × (kept_or due now (now + phase) ≡ some fresh)
            × (now ≤ fresh))
  kept_or-cases none now phase = inr (refl, now + phase, refl, omega arith)
  kept_or-cases (some due) now phase = elim (Bool-cases (leb due now)) [
    | inl passed ↦ inl (passed, rw passed refl)
    | inr ahead ↦ inr (ahead, now + phase, rw ahead refl, omega arith)
  ]

  refreshed_due-IsDueWritten :
      (s : PollSchedule) (now : ℕ) (coverage : CoverageClass)
      → IsDueWritten s now coverage (
          refreshed_due scheduler s now coverage
            (interval_for_coverage (scheduler.policy) coverage))
  unfolding refreshed_due interval_for_coverage
  refreshed_due-IsDueWritten s now retired_control = inl (refl, refl)
  refreshed_due-IsDueWritten s now _ =
      inr (λ e. ground (arith, ap class_code e), kept_or-cases s.next_due_at now _)

  -- A refresh changes no lifecycle fact, no lease and no count of work. It either leaves the schedule
  -- as it is, or writes a class and a due time: none where the class is retired; else the old due
  -- time where that has passed, and a new one that is not before `now` where none has passed.
  pub refresh_one_coverage-keeps :
      (s : PollSchedule) (now : ℕ) (reason : ReasonCode) (run : Option ℕ) {t : PollSchedule}
      {d : Option CoverageDecision}
      → refresh_one_coverage scheduler s now reason run ≡ ok (t, d)
      → (t.lifecycle_state ≡ s.lifecycle_state)
        × (t.state_decided_at ≡ s.state_decided_at)
        × (t.admitted_at ≡ s.admitted_at)
        × (t.lease_id ≡ s.lease_id)
        × (t.lease_expires_at ≡ s.lease_expires_at)
        × (t.attempt_count ≡ s.attempt_count)
        × (t.control_scan_count ≡ s.control_scan_count)
        × ((t ≡ s)
            ⊎ ((coverage : CoverageClass) × (t.coverage_class ≡ some coverage)
                × IsDueWritten s now coverage t.next_due_at))
  unfolding refreshed
  refresh_one_coverage-keeps s now reason run h =
      let r = refresh_one_coverage-IsRefresh scheduler s now reason run h in
      elim r.ends [
        | inl (_, same, _) ↦ rw same (refl, refl, refl, refl, refl, refl, refl, inl refl)
        | inr (_, same, _) ↦ rw same (
          refl,
          refl,
          refl,
          refl,
          refl,
          refl,
          refl,
          inr (r.coverage, refl, refreshed_due-IsDueWritten s now r.coverage),
        )
      ]

  -- A refresh is of the same token, and leaves its lease alone.
  pub refresh_one_coverage-lease :
      (s : PollSchedule) (now : ℕ) (reason : ReasonCode) (run : Option ℕ) {t : PollSchedule}
      {d : Option CoverageDecision}
      → refresh_one_coverage scheduler s now reason run ≡ ok (t, d)
      → (t.token_id ≡ s.token_id)
        × (t.lease_id ≡ s.lease_id)
        × (t.lease_expires_at ≡ s.lease_expires_at)
  unfolding refreshed
  refresh_one_coverage-lease s now reason run h =
      let r = refresh_one_coverage-IsRefresh scheduler s now reason run h in
      elim r.ends [
        | inl (_, same, _) ↦ rw same (refl, refl, refl)
        | inr (_, same, _) ↦ rw same (refl, refl, refl)
      ]
