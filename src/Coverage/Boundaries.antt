-- ===== src/Coverage/Boundaries.antt =====
-- What `next_transition_at` of src/pump_research/scheduling/policy.py promises of the classes.
use pump_research.Prelude.{ℕ, ◌-◌, ◌≤◌, ◌<◌, ◌≡◌, ◌≢◌, none, some, ok, arith}
use pump_research.Coverage.{
  AdaptivePollingPolicy, LifecycleState, new, active, watch, fading, dormant, resurrected,
  CoverageClass, coverage_class_for, next_transition_at, priority_for_coverage, age_class,
  fading_class, retired_control,
}

module _ {Float : Type 0} (p : AdaptivePollingPolicy Float) where
  -- The class exists at every time that predates neither the admission nor the decision.
  pub coverage_class_for-total :
      (state : LifecycleState) (admitted_at state_decided_at at : ℕ)
      → admitted_at ≤ at
      → state_decided_at ≤ at
      → (c : CoverageClass) × (coverage_class_for p state admitted_at state_decided_at at ≡ ok c)
  unfolding coverage_class_for
  coverage_class_for-total new a d t h k = (age_class p (t - a), ground arith)
  coverage_class_for-total active a d t h k = (CoverageClass.protected_active, ground arith)
  coverage_class_for-total watch a d t h k = (CoverageClass.protected_watch, ground arith)
  coverage_class_for-total fading a d t h k = (fading_class p (t - d), ground arith)
  coverage_class_for-total dormant a d t h k = (retired_control, ground arith)
  coverage_class_for-total resurrected a d t h k =
      (CoverageClass.protected_resurrected, ground arith)

  -- A boundary lies strictly in the future.
  pub next_transition_at-later :
      (state : LifecycleState) (admitted_at state_decided_at at : ℕ) {boundary : ℕ}
      → next_transition_at p state admitted_at state_decided_at at ≡ ok (some boundary)
      → at < boundary
  unfolding next_transition_at
  next_transition_at-later new a d t h = ground arith
  next_transition_at-later _ a d t h = ground arith

  -- Before the boundary a later time has the same class, and at the boundary another class
  -- begins.
  pub next_transition_at-exact :
      (state : LifecycleState) (admitted_at state_decided_at at later : ℕ) {boundary : ℕ}
      → next_transition_at p state admitted_at state_decided_at at ≡ ok (some boundary)
      → at ≤ later
      → later < boundary
      → (coverage_class_for p state admitted_at state_decided_at later
          ≡ coverage_class_for p state admitted_at state_decided_at at)
        × (coverage_class_for p state admitted_at state_decided_at boundary
            ≢ coverage_class_for p state admitted_at state_decided_at at)
  unfolding next_transition_at
  next_transition_at-exact new a d t u h k l = (ground arith, λ e. ground arith)
  next_transition_at-exact _ a d t u h k l = (ground arith, λ e. ground arith)

  -- Where there is no boundary the class stays for ever.
  pub next_transition_at-none :
      (state : LifecycleState) (admitted_at state_decided_at at later : ℕ)
      → next_transition_at p state admitted_at state_decided_at at ≡ ok none
      → at ≤ later
      → coverage_class_for p state admitted_at state_decided_at later
        ≡ coverage_class_for p state admitted_at state_decided_at at
  unfolding next_transition_at
  next_transition_at-none new a d t u h k = ground arith
  next_transition_at-none _ a d t u h k = ground arith

  -- As time goes on while a token's state stays, its claim precedence only falls: the priority
  -- number never gets smaller.
  pub priority_for_coverage_mono :
      (state : LifecycleState) (admitted_at state_decided_at at later : ℕ) {c c' : CoverageClass}
      → at ≤ later
      → coverage_class_for p state admitted_at state_decided_at at ≡ ok c
      → coverage_class_for p state admitted_at state_decided_at later ≡ ok c'
      → priority_for_coverage c ≤ priority_for_coverage c'
  unfolding coverage_class_for
  priority_for_coverage_mono new a d t u k h h' = ground arith
  priority_for_coverage_mono _ a d t u k h h' = ground arith
