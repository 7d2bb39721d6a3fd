-- ===== src/Scheduler/Refresh/Progress.antt =====
-- `_refresh_one_coverage` of src/pump_research/scheduling/scheduler.py and the
-- coverage transitions that are due.
use pump_research.Prelude.{
  ℕ, ◌<◌, ◌≡◌, Bool, true, false, Option, none, some, ok, leb, arith, inl, inr, refl, sym, ap, ◌∙◌,
}
use pump_research.Coverage.Boundaries.{next_transition_at-later}
use pump_research.Scheduler.Rows.{
  PollSchedule, CoverageDecision, ReasonCode, AdaptiveScheduler, CoverageClass, same_option→eq,
}
use pump_research.Scheduler.Refresh.{
  refresh_one_coverage, refreshed, is_current, active_expiry, earliest_timestamp, transition_at,
}
use pump_research.Scheduler.Refresh.Inversion.{
  IsRefresh, refresh_one_coverage-IsRefresh, lift-eq-ok,
}

-- A coverage transition is due at a time.
abbrev pub transition_due : ℕ → PollSchedule → Bool
transition_due now s = elim (s.coverage_next_transition_at) [ none ↦ false | some at ↦ leb at now ]

module _ {Float : Type 0} (scheduler : AdaptiveScheduler Float) where
  -- The transition that the refresh expects lies in the future.
  expected-later :
      (s : PollSchedule) (now admitted_at : ℕ) (baseline : Option ℕ) {at : ℕ}
      → transition_at scheduler s admitted_at now ≡ ok baseline
      → earliest_timestamp baseline (active_expiry s now) ≡ some at
      → now < at
  expected-later s now a none {at} h e = ground arith
  expected-later s now a (some b) {at} h e =
      let later : now < b =
        next_transition_at-later (scheduler.policy) (s.lifecycle_state) a (s.state_decided_at) now
          (lift-eq-ok _ h) in
      ground arith

  is_current-next :
      (s : PollSchedule) (now : ℕ) (stored coverage : CoverageClass) (baseline : Option ℕ)
      → is_current scheduler s now stored coverage baseline ≡ true
      → s.coverage_next_transition_at ≡ earliest_timestamp baseline (active_expiry s now)
  unfolding is_current
  is_current-next s now stored coverage baseline h = same_option→eq _ _ (ground arith)

  -- After a refresh at `now` no coverage transition of the row is due at `now`.
  pub refresh_one_coverage-not_due :
      (s : PollSchedule) (now : ℕ) (reason : ReasonCode) (run : Option ℕ) {t : PollSchedule}
      {d : Option CoverageDecision}
      → refresh_one_coverage scheduler s now reason run ≡ ok (t, d)
      → transition_due now t ≡ false
  unfolding refreshed
  refresh_one_coverage-not_due s now reason run {t} {d} h =
      go (refresh_one_coverage-IsRefresh scheduler s now reason run h)
    where
      future :
          (o : Option ℕ) (a : ℕ) (baseline : Option ℕ)
          → transition_at scheduler s a now ≡ ok baseline
          → t.coverage_next_transition_at ≡ o
          → o ≡ earliest_timestamp baseline (active_expiry s now)
          → transition_due now t ≡ false
      future none a baseline n e k = ground arith
      future (some at) a baseline n e k =
          let later : now < at = expected-later s now a baseline n (sym k) in ground arith

      go : IsRefresh scheduler s now reason run t d → transition_due now t ≡ false
      go r = elim r.ends [
        | inl (c, same, _) ↦
            future t.coverage_next_transition_at r.admitted_at r.baseline r.transition_eq refl (
              ap (λ (u : PollSchedule). u.coverage_next_transition_at) same
              ∙ is_current-next s now r.stored r.coverage r.baseline c)
        | inr (_, same, _) ↦
            future t.coverage_next_transition_at r.admitted_at r.baseline r.transition_eq refl
              (ap (λ (u : PollSchedule). u.coverage_next_transition_at) same)
      ]
