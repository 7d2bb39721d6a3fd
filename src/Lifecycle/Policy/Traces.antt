-- ===== src/Lifecycle/Policy/Traces.antt =====
-- What the rules of src/pump_research/lifecycle/policy.py allow over a sequence of observations.
use pump_research.Prelude.{
  ℕ, ◌+◌, ◌≤◌, ◌≡◌, Option, none, some, List, [], ◌∷◌, arith, length, Option-cases, inl, inr,
}
use pump_research.Lifecycle.Policy.{
  LifecycleState, new, active, watch, fading, dormant, resurrected, RawObservationEvidence,
  LifecyclePolicy, TransitionEvaluation, evaluate,
}

-- How far a state stands along the lifecycle.
abbrev pub stage : LifecycleState → ℕ
stage new = 0
stage active = 1
stage watch = 1
stage fading = 2
stage dormant = 3
stage resurrected = 4

-- The classifier's loop over the evidence of one token: each evaluation applies to the state that
-- the last transition left.
abbrev pub apply : LifecycleState → Option TransitionEvaluation → LifecycleState
apply state none = state
apply state (some e) = e.new_state

abbrev pub transitions :
    LifecyclePolicy → LifecycleState → List RawObservationEvidence → List TransitionEvaluation
transitions p state [] = []
transitions p state (o ∷ os) = elim (evaluate p state o) [
  | none ↦ transitions p state os
  | some e ↦ e ∷ transitions p (e.new_state) os
]

module _ (p : LifecyclePolicy) where
  -- A transition moves to the next stage of the lifecycle.
  pub evaluate-stage :
      (state : LifecycleState) (o : RawObservationEvidence) {e : TransitionEvaluation}
      → evaluate p state o ≡ some e
      → stage e.new_state ≡ stage state + 1
  unfolding evaluate
  evaluate-stage new o h = ground arith
  evaluate-stage _ o h = ground arith

  -- Whatever is observed, a token in a state makes at most as many transitions as there are
  -- stages behind it: four from NEW, none from RESURRECTED.
  pub length-transitions_le :
      (state : LifecycleState) (os : List RawObservationEvidence)
      → length (transitions p state os) + stage state ≤ 4
  length-transitions_le state [] = ground arith
  length-transitions_le state (o ∷ os) = elim (Option-cases (evaluate p state o)) [
    | inl e ↦ rw (e, length) (length-transitions_le state os)
    | inr (t, e) ↦
        rw (e, length)
          (omega (arith, evaluate-stage state o e, length-transitions_le (t.new_state) os))
  ]
