-- ===== src/Lifecycle/Classifier/Outcome.antt =====
-- What an evaluation of src/pump_research/lifecycle/classifier.py leaves in the scheduler's tables.
use pump_research.Prelude.{
  ℕ, ◌+◌, ◌≤◌, ◌≡◌, inl, inr, refl, sym, ap, ◌∙◌, subst, Option, none, some, List, Result, ok, err,
  >>=-eq-ok, arith, ltb, if-eq-cases,
}
use pump_research.Scheduler.Rows.{
  PollSchedule, lifecycle_reason, Database, SchedulerError, AdaptiveScheduler, CapacityDecision,
}
use pump_research.Scheduler.Batches.{schedule_of}
use pump_research.Scheduler.Apply.{set_lifecycle_state_in_session}
use pump_research.Scheduler.Apply.Outcome.{IsScheduled, set_lifecycle_state_in_session-outcome}
use pump_research.Lifecycle.Evidence.{
  LifecycleEvidenceCandidate, EvidenceSelectionResult, EvidenceSelectionOutcome, selected_outcome,
  failed_outcome, select,
}
use pump_research.Lifecycle.Policy.{TransitionEvaluation, LifecyclePolicy, evaluate}
use pump_research.Lifecycle.Policy.Rules.{evaluate_edge}
use pump_research.Lifecycle.Policy.Traces.{stage, evaluate-stage}
use pump_research.Lifecycle.Classifier.{
  LifecycleTables, EvidenceEvaluation, LifecycleTransition, TokenEvaluation, no_evaluation,
  rule_number, ClassifierError, lift_selection, lift_scheduler, candidates_of, watermark_of,
  record_evaluation, record_event, run_of, evidence_of, event_of, transition_of, apply_transition,
  evaluate_scheduled, evaluate_selected, evaluate_selection, evaluate_token_request,
}

lift_scheduler-eq-ok :
    {A : Type 0} (m : Result SchedulerError A) {a : A} → lift_scheduler m ≡ ok a → m ≡ ok a
unfolding lift_scheduler
lift_scheduler-eq-ok (ok b) h = ground arith
lift_scheduler-eq-ok (err e) h = cc

module _ {Float : Type 0} (scheduler : AdaptiveScheduler Float)
    (plan : Database → Result SchedulerError CapacityDecision) (policy : LifecyclePolicy)
    (policy_sha256 evidence_sha256 now log_id : ℕ) where
  -- A transition of a token whose schedule was in the state that it leaves, and is afterwards in the
  -- next one, with the coverage class that the policy gives to it now.
  pub record IsMoved (token_id : ℕ) (tr : LifecycleTransition) (t t' : LifecycleTables)
      : Type 0 where
    pub before : PollSchedule
    pub found : schedule_of token_id t.scheduler.schedules ≡ some before
    pub left : tr.previous_state ≡ before.lifecycle_state
    pub next_stage : stage tr.new_state ≡ stage before.lifecycle_state + 1
    pub decided : tr.decided_at ≡ now
    pub after : PollSchedule
    pub stored : schedule_of token_id t'.scheduler.schedules ≡ some after
    pub scheduled : IsScheduled scheduler tr.new_state now after

  pub data IsEvaluated (token_id : ℕ) (t : LifecycleTables) (r : TokenEvaluation)
      (t' : LifecycleTables) : Type 0 where
    unmoved : r.transition ≡ none → t'.scheduler ≡ t.scheduler → IsEvaluated token_id t r t'
    moved :
        (tr : LifecycleTransition)
        → r.transition ≡ some tr
        → IsMoved token_id tr t t'
        → IsEvaluated token_id t r t'

  apply_transition-IsEvaluated :
      (event_id token_id evaluation_id : ℕ) (c : LifecycleEvidenceCandidate)
      (e : TransitionEvaluation) (s : PollSchedule) (t : LifecycleTables) {r : TokenEvaluation}
      {t' : LifecycleTables}
      → schedule_of token_id t.scheduler.schedules ≡ some s
      → s.state_decided_at ≤ c.observation_received_at
      → e.previous_state ≡ s.lifecycle_state
      → stage e.new_state ≡ stage s.lifecycle_state + 1
      → apply_transition scheduler plan policy policy_sha256 evidence_sha256 now log_id event_id
          token_id evaluation_id c e t
        ≡ ok (r, t')
      → IsEvaluated token_id t r t'
  unfolding apply_transition transition_of
  apply_transition-IsEvaluated event_id token_id evaluation_id c e s t {r} {t'} found late left next
        h =
      elim (if-eq-cases (ltb now c.observation_received_at) h) [
        | inl (_, k) ↦ cc
        | inr (known, k) ↦
            let reason = lifecycle_reason (rule_number e.rule) in
            let run = run_of log_id t.requests in
            let ((after, db), a, l) =
              >>=-eq-ok
                (lift_scheduler (
                  set_lifecycle_state_in_session scheduler plan e.new_state now reason run token_id
                    none t.scheduler))
                _ k in
            let applied = lift_scheduler-eq-ok _ a in
            let (stored, ends) =
              set_lifecycle_state_in_session-outcome scheduler plan e.new_state now reason run
                token_id none t.scheduler applied in
            let tables : db ≡ t'.scheduler = ground arith in
            elim ends [
              | inl (early, same) ↦
                  let row : some after ≡ some s =
                    sym stored
                    ∙ ap (λ (x : Database). schedule_of token_id x.schedules) same
                    ∙ found in
                  let row' : after ≡ s = ground arith in
                  let here : after.state_decided_at ≡ s.state_decided_at =
                    ap (λ (x : PollSchedule). x.state_decided_at) row' in
                  absurd (ground arith)
              | inr scheduled ↦
                  moved
                    (transition_of scheduler plan policy policy_sha256 evidence_sha256 now log_id
                      (record_event
                        (event_of scheduler plan policy policy_sha256 evidence_sha256 now log_id
                          event_id token_id evaluation_id run c e)
                        t.events).0.id
                      token_id c e)
                    (ground arith)
                    (record {
                      before = s;
                      found = found;
                      left = left;
                      next_stage = next;
                      decided = refl;
                      after = after;
                      stored =
                          subst (λ (x : Database). schedule_of token_id x.schedules ≡ some after)
                            tables stored;
                      scheduled = scheduled;
                    })
            ]
      ]

  evaluate_scheduled-IsEvaluated :
      (event_id token_id evaluation_id : ℕ) (c : LifecycleEvidenceCandidate) (s : PollSchedule)
      (t : LifecycleTables) {r : TokenEvaluation} {t' : LifecycleTables}
      → schedule_of token_id t.scheduler.schedules ≡ some s
      → evaluate_scheduled scheduler plan policy policy_sha256 evidence_sha256 now log_id event_id
          token_id evaluation_id c s t
        ≡ ok (r, t')
      → IsEvaluated token_id t r t'
  unfolding evaluate_scheduled
  evaluate_scheduled-IsEvaluated event_id token_id evaluation_id c s t {r} {t'} found h =
      elim (if-eq-cases (ltb c.observation_received_at s.state_decided_at) h) [
        | inl (_, k) ↦ quiet k
        | inr (late, k) ↦
            go (evaluate policy s.lifecycle_state (evidence_of log_id c)) refl (ground arith) k
      ]
    where
      quiet :
          ◌≡◌ {A = Result ClassifierError (TokenEvaluation × LifecycleTables)}
            (ok (no_evaluation, t))
            (ok (r, t'))
          → IsEvaluated token_id t r t'
      quiet k =
          let same : t ≡ t' = ground arith in
          unmoved (ground arith) (ap (λ (x : LifecycleTables). x.scheduler) (sym same))

      go :
          (evaluation : Option TransitionEvaluation)
          → evaluate policy s.lifecycle_state (evidence_of log_id c) ≡ evaluation
          → s.state_decided_at ≤ c.observation_received_at
          → elim evaluation as (λ _. Result ClassifierError (TokenEvaluation × LifecycleTables)) [
            | none ↦ ok (no_evaluation, t)
            | some e ↦
                apply_transition scheduler plan policy policy_sha256 evidence_sha256 now log_id
                  event_id token_id evaluation_id c e t
          ]
            ≡ ok (r, t')
          → IsEvaluated token_id t r t'
      go none p late k = quiet k
      go (some e) p late k =
          let (_, left, _) = evaluate_edge policy s.lifecycle_state (evidence_of log_id c) p in
          apply_transition-IsEvaluated event_id token_id evaluation_id c e s t found late left
            (evaluate-stage policy s.lifecycle_state (evidence_of log_id c) p) k

  evaluate_selected-IsEvaluated :
      (event_id token_id evaluation_id : ℕ) (c : LifecycleEvidenceCandidate) (t : LifecycleTables)
      {r : TokenEvaluation} {t' : LifecycleTables}
      → evaluate_selected scheduler plan policy policy_sha256 evidence_sha256 now log_id event_id
          token_id evaluation_id c t
        ≡ ok (r, t')
      → IsEvaluated token_id t r t'
  unfolding evaluate_selected
  evaluate_selected-IsEvaluated event_id token_id evaluation_id c t {r} {t'} h =
      go (schedule_of token_id t.scheduler.schedules) refl h
    where
      go :
          (found : Option PollSchedule)
          → schedule_of token_id t.scheduler.schedules ≡ found
          → elim found as (λ _. Result ClassifierError (TokenEvaluation × LifecycleTables)) [
            | none ↦ ok (no_evaluation, t)
            | some s ↦
                evaluate_scheduled scheduler plan policy policy_sha256 evidence_sha256 now log_id
                  event_id token_id evaluation_id c s t
          ]
            ≡ ok (r, t')
          → IsEvaluated token_id t r t'
      go none p k =
          let same : t ≡ t' = ground arith in
          unmoved (ground arith) (ap (λ (x : LifecycleTables). x.scheduler) (sym same))
      go (some s) p k = evaluate_scheduled-IsEvaluated event_id token_id evaluation_id c s t p k

  evaluate_selection-IsEvaluated :
      (event_id token_id evaluation_id : ℕ) (result : EvidenceSelectionResult) (t : LifecycleTables)
      {r : TokenEvaluation} {t' : LifecycleTables}
      → evaluate_selection scheduler plan policy policy_sha256 evidence_sha256 now log_id event_id
          token_id evaluation_id result t
        ≡ ok (r, t')
      → IsEvaluated token_id t r t'
  unfolding evaluate_selection
  evaluate_selection-IsEvaluated event_id token_id evaluation_id result t {r} {t'} h =
      go (result.outcome) (result.selected) h
    where
      go :
          (outcome : EvidenceSelectionOutcome) (chosen : Option LifecycleEvidenceCandidate)
          → elim outcome as (λ _. Result ClassifierError (TokenEvaluation × LifecycleTables)) [
            | failed_outcome ↦ ok (
              record {
                transition = none;
                selection_failure = some (record {
                  token_id = token_id;
                  evidence_evaluation_id = evaluation_id;
                  result = result;
                });
              },
              t,
            )
            | selected_outcome ↦
                elim chosen as (λ _. Result ClassifierError (TokenEvaluation × LifecycleTables)) [
                  | none ↦ err ClassifierError.no_selection
                  | some c ↦
                      evaluate_selected scheduler plan policy policy_sha256 evidence_sha256 now
                        log_id event_id token_id evaluation_id c t
                ]
          ]
            ≡ ok (r, t')
          → IsEvaluated token_id t r t'
      go failed_outcome chosen k =
          let same : t ≡ t' = ground arith in
          unmoved (ground arith) (ap (λ (x : LifecycleTables). x.scheduler) (sym same))
      go selected_outcome none k = cc
      go selected_outcome (some c) k =
          evaluate_selected-IsEvaluated event_id token_id evaluation_id c t k

  -- The evaluation of a token's observations either reports no transition and leaves the scheduler's
  -- tables as they are, or reports one that is in force. The token's schedule was in the state that
  -- it leaves, and is afterwards in its new state, which is the next stage of the lifecycle, with the
  -- coverage class that the policy gives to that state at the time of the decision.
  pub evaluate_token_request-IsEvaluated :
      (evaluation_id event_id token_id : ℕ) (t : LifecycleTables) {r : TokenEvaluation}
      {t' : LifecycleTables}
      → evaluate_token_request scheduler plan policy policy_sha256 evidence_sha256 now log_id
          evaluation_id event_id token_id t
        ≡ ok (r, t')
      → IsEvaluated token_id t r t'
  unfolding evaluate_token_request
  evaluate_token_request-IsEvaluated evaluation_id event_id token_id t {r} {t'} h =
      let candidates = candidates_of log_id token_id t in
      let (watermark, _, k) = >>=-eq-ok (watermark_of candidates) _ h in
      let (result, _, l) = >>=-eq-ok (lift_selection (select candidates)) _ k in
      let recorded =
        record_evaluation
          (record {
            id = evaluation_id;
            input_watermark = watermark;
            token_id = token_id;
            api_request_log_id = log_id;
            result = result;
            policy_sha256 = evidence_sha256;
          })
          t.evaluations in
      same_scheduler (
        evaluate_selection-IsEvaluated event_id token_id recorded.0.id result
          (record t { evaluations = recorded.1 }) l)
    where
      same_scheduler :
          {es : List EvidenceEvaluation}
          → IsEvaluated token_id (record t { evaluations = es }) r t'
          → IsEvaluated token_id t r t'
      same_scheduler (unmoved none_of same) = unmoved none_of same
      same_scheduler (moved tr some_of m) = moved tr some_of (record {
        before = m.before;
        found = m.found;
        left = m.left;
        next_stage = m.next_stage;
        decided = m.decided;
        after = m.after;
        stored = m.stored;
        scheduled = m.scheduled;
      })
