-- ===== src/Scheduler/Refresh/Inversion.antt =====
-- What a successful `_refresh_one_coverage` of src/pump_research/scheduling/scheduler.py went through.
use pump_research.Prelude.{
  ℕ, ◌≡◌, ◌⊎◌, inl, inr, Bool, true, false, Option, none, some, Result, ok, err, >>=-eq-ok, refl,
  arith, if◌then◌else◌, ◌>>=◌,
}
use pump_research.Scheduler.Rows.{
  PollSchedule, CoverageDecision, ReasonCode, AdaptiveScheduler, CoverageClass, PolicyError,
  SchedulerError, coverage_reconstruction,
}
use pump_research.Scheduler.Refresh.{
  refresh_one_coverage, refresh_mapped, refreshed, is_current, coverage_change, class_at,
  transition_at, lift,
}

pub lift-eq-ok : {A : Type 0} (m : Result PolicyError A) {a : A} → lift m ≡ ok a → m ≡ ok a
lift-eq-ok (ok b) h = cc
lift-eq-ok (err e) h = cc

module _ {Float : Type 0} (scheduler : AdaptiveScheduler Float) (s : PollSchedule) (now : ℕ)
    (reason : ReasonCode) (run : Option ℕ) where
  -- The values on the way, and the two ends: an unchanged row and no decision, or the refreshed row
  -- and its decision.
  pub record IsRefresh (t : PollSchedule) (d : Option CoverageDecision) : Type 0 where
    pub admitted_at : ℕ
    pub stored : CoverageClass
    pub coverage : CoverageClass
    pub baseline : Option ℕ
    pub admitted : s.admitted_at ≡ some admitted_at
    pub mapped : s.coverage_class ≡ some stored
    pub class_eq : class_at scheduler s admitted_at now ≡ ok coverage
    pub transition_eq : transition_at scheduler s admitted_at now ≡ ok baseline
    pub ends :
        ((is_current scheduler s now stored coverage baseline ≡ true) × (t ≡ s) × (d ≡ none))
        ⊎ ((is_current scheduler s now stored coverage baseline ≡ false)
            × (t ≡ refreshed scheduler s now coverage baseline)
            × (d
                ≡ some (
                    coverage_change scheduler s now admitted_at stored coverage reason run
                      (refreshed scheduler s now coverage baseline))))

  refresh_mapped_cases :
      (admitted_at : ℕ) (stored coverage : CoverageClass) (baseline : Option ℕ) (b : Bool)
      {t : PollSchedule} {d : Option CoverageDecision}
      → s.admitted_at ≡ some admitted_at
      → s.coverage_class ≡ some stored
      → class_at scheduler s admitted_at now ≡ ok coverage
      → transition_at scheduler s admitted_at now ≡ ok baseline
      → is_current scheduler s now stored coverage baseline ≡ b
      → refresh_mapped scheduler s now reason run admitted_at stored ≡ ok (t, d)
      → IsRefresh t d
  unfolding refresh_mapped
  refresh_mapped_cases a stored coverage baseline b {t} {d} e m c n q h = record {
    admitted_at = a;
    stored = stored;
    coverage = coverage;
    baseline = baseline;
    admitted = e;
    mapped = m;
    class_eq = c;
    transition_eq = n;
    ends = go b q (rw (c, ◌>>=◌, n, q) at h);
  }
    where
      new_row : PollSchedule
      new_row = refreshed scheduler s now coverage baseline

      decision : CoverageDecision
      decision = coverage_change scheduler s now a stored coverage reason run new_row

      go :
          (b : Bool)
          → is_current scheduler s now stored coverage baseline ≡ b
          → ◌≡◌ {A = Result SchedulerError (PollSchedule × Option CoverageDecision)}
              (ok (if b then (s, none) else (new_row, some decision)))
              (ok (t, d))
          → ((is_current scheduler s now stored coverage baseline ≡ true) × (t ≡ s) × (d ≡ none))
            ⊎ ((is_current scheduler s now stored coverage baseline ≡ false)
                × (t ≡ new_row)
                × (d ≡ some decision))
      go true q h = inl (q, ground arith, ground arith)
      go false q h = inr (q, ground arith, ground arith)

  refresh_mapped-IsRefresh :
      (admitted_at : ℕ) (stored : CoverageClass) {t : PollSchedule} {d : Option CoverageDecision}
      → s.admitted_at ≡ some admitted_at
      → s.coverage_class ≡ some stored
      → refresh_mapped scheduler s now reason run admitted_at stored ≡ ok (t, d)
      → IsRefresh t d
  unfolding refresh_mapped
  refresh_mapped-IsRefresh a stored e m h =
      let (coverage, c, h') = >>=-eq-ok (class_at scheduler s a now) _ h in
      let (baseline, n, _) = >>=-eq-ok (transition_at scheduler s a now) _ h' in
      refresh_mapped_cases a stored coverage baseline
        (is_current scheduler s now stored coverage baseline) e m c n refl h

  pub refresh_one_coverage-IsRefresh :
      {t : PollSchedule} {d : Option CoverageDecision}
      → refresh_one_coverage scheduler s now reason run ≡ ok (t, d)
      → IsRefresh t d
  unfolding refresh_one_coverage
  refresh_one_coverage-IsRefresh {t} {d} h = go (s.admitted_at) (s.coverage_class) refl refl h
    where
      go :
          (a : Option ℕ) (c : Option CoverageClass)
          → s.admitted_at ≡ a
          → s.coverage_class ≡ c
          → elim a as (λ x. Result SchedulerError (PollSchedule × Option CoverageDecision)) [
            | none ↦ err coverage_reconstruction
            | some admitted_at ↦
                elim c as (λ x. Result SchedulerError (PollSchedule × Option CoverageDecision)) [
                  | none ↦ err coverage_reconstruction
                  | some stored ↦ refresh_mapped scheduler s now reason run admitted_at stored
                ]
          ]
            ≡ ok (t, d)
          → IsRefresh t d
      go none c e m h = cc
      go (some a) none e m h = cc
      go (some a) (some stored) e m h = refresh_mapped-IsRefresh a stored e m h
