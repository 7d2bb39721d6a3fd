-- ===== src/Lifecycle/Classifier.antt =====
-- src/pump_research/lifecycle/classifier.py: the evaluation of one token's observations of one
-- response, and of all tokens of a response, with the two repositories of
-- src/pump_research/persistence/repositories.py that record it. New identifiers are arguments.

pub mod Outcome
pub mod Samples
use pump_research.Prelude.{
  ℕ, Bool, true, false, ◌&&◌, ◌||◌, Option, none, some, List, [], ◌∷◌, ◌++◌, Result, ok, err, ◌>>=◌,
  ltb, leb, ◌==◌, map, if◌then◌else◌, select as where_,
}
use pump_research.Prelude.Sorting.{sort_by}
use pump_research.Scheduler.Rows.{
  LifecycleState, PollSchedule, ReasonCode, lifecycle_reason, Database, SchedulerError,
  AdaptiveScheduler, CapacityDecision,
}
use pump_research.Scheduler.Batches.{schedule_of}
use pump_research.Scheduler.Apply.{set_lifecycle_state_in_session}
use pump_research.Lifecycle.Evidence.{
  LifecycleEvidenceCandidate, EvidenceSelectionOutcome, selected_outcome, failed_outcome,
  EvidenceSelectionResult, SelectionError, canonical_pair_key_leb, select,
}
use pump_research.Lifecycle.Policy.{
  LifecycleTransitionRule, new_to_active, new_to_watch, active_to_fading, watch_to_fading,
  fading_to_dormant, dormant_to_resurrected, TransitionEvaluation, RawObservationEvidence,
  LifecyclePolicy, evaluate,
}

-- A row of the join of `observations` and `pairs`.
pub record StoredObservation : Type 0 where
  pub api_request_log_id : ℕ
  pub token_id : ℕ
  pub candidate : LifecycleEvidenceCandidate

-- A row of `lifecycle_evidence_evaluations`.
pub record EvidenceEvaluation : Type 0 where
  pub id : ℕ
  pub input_watermark : ℕ
  pub token_id : ℕ
  pub api_request_log_id : ℕ
  pub result : EvidenceSelectionResult
  pub policy_sha256 : ℕ

-- A row of `lifecycle_events`; its key digests the token, the evaluation, the rule and the policy.
pub record LifecycleEvent : Type 0 where
  pub id : ℕ
  pub collector_run_id : Option ℕ
  pub token_id : ℕ
  pub previous_state : LifecycleState
  pub new_state : LifecycleState
  pub decided_at : ℕ
  pub input_watermark : ℕ
  pub evaluation : TransitionEvaluation
  pub evidence_evaluation_id : ℕ
  pub configuration_sha256 : ℕ

pub record LifecycleTables : Type 0 where
  pub observations : List StoredObservation
  pub requests : List (ℕ × Option ℕ)
  pub evaluations : List EvidenceEvaluation
  pub events : List LifecycleEvent
  pub scheduler : Database

pub record LifecycleTransition : Type 0 where
  pub event_id : ℕ
  pub token_id : ℕ
  pub observation_id : ℕ
  pub observation_received_at : ℕ
  pub decided_at : ℕ
  pub previous_state : LifecycleState
  pub new_state : LifecycleState
  pub rule : LifecycleTransitionRule

-- The failure names the token, the stored evaluation and the reason.
pub record SelectionFailure : Type 0 where
  pub token_id : ℕ
  pub evidence_evaluation_id : ℕ
  pub result : EvidenceSelectionResult

pub record TokenEvaluation : Type 0 where
  pub transition : Option LifecycleTransition
  pub selection_failure : Option SelectionFailure

abbrev pub no_evaluation : TokenEvaluation
no_evaluation = record { transition = none; selection_failure = none }

pub data ClassifierError : Type 0 where
  no_observation inconsistent_watermarks predates_observation no_selection : ClassifierError
  selection_error : SelectionError → ClassifierError
  scheduler_error : SchedulerError → ClassifierError

unfoldable pub lift_selection : {A : Type 0} → Result SelectionError A → Result ClassifierError A
lift_selection (ok a) = ok a
lift_selection (err e) = err (selection_error e)

unfoldable pub lift_scheduler : {A : Type 0} → Result SchedulerError A → Result ClassifierError A
lift_scheduler (ok a) = ok a
lift_scheduler (err e) = err (scheduler_error e)

abbrev pub rule_number : LifecycleTransitionRule → ℕ
rule_number new_to_active = 0
rule_number new_to_watch = 1
rule_number active_to_fading = 2
rule_number watch_to_fading = 3
rule_number fading_to_dormant = 4
rule_number dormant_to_resurrected = 5

-- WHERE api_request_log_id = … AND token_id = … ORDER BY chain, address
unfoldable pub candidates_of :
    (log_id token_id : ℕ) → LifecycleTables → List LifecycleEvidenceCandidate
candidates_of log_id token_id t = sort_by canonical_pair_key_leb (
    map (λ (o : StoredObservation). o.candidate)
      (where_ (λ o. o.api_request_log_id == log_id && o.token_id == token_id) t.observations))

-- The one time at which all candidates were received.
unfoldable pub all_received_at : ℕ → List LifecycleEvidenceCandidate → Bool
all_received_at at [] = true
all_received_at at (c ∷ cs) = c.observation_received_at == at && all_received_at at cs

unfoldable pub watermark_of : List LifecycleEvidenceCandidate → Result ClassifierError ℕ
watermark_of [] = err no_observation
watermark_of (c ∷ cs) =
    if all_received_at c.observation_received_at cs
    then ok (c.observation_received_at)
    else err inconsistent_watermarks

-- `LifecycleEvidenceEvaluationRepository.record`: the stored row of the key, or the new one.
unfoldable pub record_evaluation :
    EvidenceEvaluation → List EvidenceEvaluation → EvidenceEvaluation × List EvidenceEvaluation
record_evaluation e [] = (e, e ∷ [])
record_evaluation e (x ∷ xs) =
    let rest = record_evaluation e xs in
    if x.input_watermark == e.input_watermark
      && x.token_id == e.token_id
      && x.api_request_log_id == e.api_request_log_id
      && x.policy_sha256 == e.policy_sha256
    then (x, x ∷ xs)
    else (rest.0, x ∷ rest.1)

-- `LifecycleEventRepository.record`
unfoldable pub record_event :
    LifecycleEvent → List LifecycleEvent → LifecycleEvent × List LifecycleEvent
record_event e [] = (e, e ∷ [])
record_event e (x ∷ xs) =
    let rest = record_event e xs in
    if x.token_id == e.token_id
      && x.evidence_evaluation_id == e.evidence_evaluation_id
      && rule_number x.evaluation.rule == rule_number e.evaluation.rule
      && x.configuration_sha256 == e.configuration_sha256
    then (x, x ∷ xs)
    else (rest.0, x ∷ rest.1)

unfoldable pub run_of : ℕ → List (ℕ × Option ℕ) → Option ℕ
run_of log_id [] = none
run_of log_id ((id, run) ∷ rs) = if id == log_id then run else run_of log_id rs

unfoldable pub evidence_of : (log_id : ℕ) → LifecycleEvidenceCandidate → RawObservationEvidence
evidence_of log_id c = record {
  observation_id = c.observation_id;
  received_at = c.observation_received_at;
  pair_id = c.pair_id;
  api_request_log_id = log_id;
  volume_m5_usd = c.volume_m5_usd;
  volume_h1_usd = c.volume_h1_usd;
  liquidity_usd = c.liquidity_usd;
}

module _ {Float : Type 0} (scheduler : AdaptiveScheduler Float)
    (plan : Database → Result SchedulerError CapacityDecision) (policy : LifecyclePolicy)
    (policy_sha256 evidence_sha256 now log_id : ℕ) where
  unfoldable pub event_of :
      (event_id token_id evaluation_id : ℕ)
      → (run : Option ℕ) → LifecycleEvidenceCandidate
      → TransitionEvaluation
      → LifecycleEvent
  event_of event_id token_id evaluation_id run c e = record {
    id = event_id;
    collector_run_id = run;
    token_id = token_id;
    previous_state = e.previous_state;
    new_state = e.new_state;
    decided_at = now;
    input_watermark = c.observation_received_at;
    evaluation = e;
    evidence_evaluation_id = evaluation_id;
    configuration_sha256 = policy_sha256;
  }

  unfoldable pub transition_of :
      (event_id token_id : ℕ)
      → LifecycleEvidenceCandidate
      → TransitionEvaluation
      → LifecycleTransition
  transition_of event_id token_id c e = record {
    event_id = event_id;
    token_id = token_id;
    observation_id = c.observation_id;
    observation_received_at = c.observation_received_at;
    decided_at = now;
    previous_state = e.previous_state;
    new_state = e.new_state;
    rule = e.rule;
  }

  -- A transition: the event, and the schedule of the new state.
  unfoldable pub apply_transition :
      (event_id token_id evaluation_id : ℕ)
      → LifecycleEvidenceCandidate
      → TransitionEvaluation
      → LifecycleTables
      → Result ClassifierError (TokenEvaluation × LifecycleTables)
  apply_transition event_id token_id evaluation_id c e t =
      if ltb now c.observation_received_at
      then err predates_observation
      else (let run = run_of log_id t.requests in
          let recorded = record_event (event_of event_id token_id evaluation_id run c e) t.events in
          do
            applied ← lift_scheduler (
                set_lifecycle_state_in_session scheduler plan e.new_state now
                  (lifecycle_reason (rule_number e.rule)) run token_id none t.scheduler)
            ok (
              record {
                transition = some (transition_of recorded.0.id token_id c e);
                selection_failure = none;
              },
              record t { events = recorded.1; scheduler = applied.1 },
            ))

  unfoldable pub evaluate_scheduled :
      (event_id token_id evaluation_id : ℕ)
      → LifecycleEvidenceCandidate
      → PollSchedule
      → LifecycleTables
      → Result ClassifierError (TokenEvaluation × LifecycleTables)
  evaluate_scheduled event_id token_id evaluation_id c s t =
      if ltb c.observation_received_at s.state_decided_at
      then ok (no_evaluation, t)
      else (elim (evaluate policy s.lifecycle_state (evidence_of log_id c)) [
        | none ↦ ok (no_evaluation, t)
        | some e ↦ apply_transition event_id token_id evaluation_id c e t
      ])

  -- The part after a selection that chose a candidate.
  unfoldable pub evaluate_selected :
      (event_id token_id evaluation_id : ℕ)
      → LifecycleEvidenceCandidate
      → LifecycleTables
      → Result ClassifierError (TokenEvaluation × LifecycleTables)
  evaluate_selected event_id token_id evaluation_id c t =
      elim (schedule_of token_id t.scheduler.schedules) [
        | none ↦ ok (no_evaluation, t)
        | some s ↦ evaluate_scheduled event_id token_id evaluation_id c s t
      ]

  unfoldable pub evaluate_selection :
      (event_id token_id evaluation_id : ℕ)
      → EvidenceSelectionResult
      → LifecycleTables
      → Result ClassifierError (TokenEvaluation × LifecycleTables)
  evaluate_selection event_id token_id evaluation_id result t = elim (result.outcome) [
    | failed_outcome ↦ ok (
      record {
        transition = none;
        selection_failure = some (record {
          token_id = token_id;
          evidence_evaluation_id = evaluation_id;
          result = result;
        });
      },
      t,
    )
    | selected_outcome ↦ elim (result.selected) [
      | none ↦ err no_selection
      | some c ↦ evaluate_selected event_id token_id evaluation_id c t
    ]
  ]

  -- `_evaluate_token_request_in_session`
  unfoldable pub evaluate_token_request :
      (evaluation_id event_id token_id : ℕ)
      → LifecycleTables
      → Result ClassifierError (TokenEvaluation × LifecycleTables)
  evaluate_token_request evaluation_id event_id token_id t =
      let candidates = candidates_of log_id token_id t in
      do
        watermark ← watermark_of candidates
        result ← lift_selection (select candidates)
        let recorded =
            record_evaluation
              (record {
                id = evaluation_id;
                input_watermark = watermark;
                token_id = token_id;
                api_request_log_id = log_id;
                result = result;
                policy_sha256 = evidence_sha256;
              })
              t.evaluations
        evaluate_selection event_id token_id recorded.0.id result
            (record t { evaluations = recorded.1 })

  -- The loop of `evaluate_request_in_session` over the tokens of the response.
  unfoldable pub evaluate_tokens :
      (evaluation_ids event_ids : ℕ → ℕ)
      → List ℕ
      → LifecycleTables
      → Result ClassifierError (List TokenEvaluation × LifecycleTables)
  evaluate_tokens evaluation_ids event_ids [] t = ok ([], t)
  evaluate_tokens evaluation_ids event_ids (token_id ∷ tokens) t = do
    first ← evaluate_token_request (evaluation_ids token_id) (event_ids token_id) token_id t
    rest ← evaluate_tokens evaluation_ids event_ids tokens first.1
    ok (first.0 ∷ rest.0, rest.1)

  unfoldable pub transitions_of : List TokenEvaluation → List LifecycleTransition
  transitions_of [] = []
  transitions_of (r ∷ rs) =
      let rest = transitions_of rs in elim (r.transition) [ none ↦ rest | some x ↦ x ∷ rest ]

  unfoldable pub failures_of : List TokenEvaluation → List SelectionFailure
  failures_of [] = []
  failures_of (r ∷ rs) =
      let rest = failures_of rs in elim (r.selection_failure) [ none ↦ rest | some x ↦ x ∷ rest ]

  -- The tokens of the response, each once: DISTINCT … ORDER BY token_id
  unfoldable pub insert_token : ℕ → List ℕ → List ℕ
  insert_token n [] = n ∷ []
  insert_token n (m ∷ ms) =
      let rest = insert_token n ms in
      if ltb n m then n ∷ m ∷ ms else if n == m then m ∷ ms else m ∷ rest

  unfoldable pub tokens_in : List StoredObservation → List ℕ
  tokens_in [] = []
  tokens_in (o ∷ os) =
      let rest = tokens_in os in
      if o.api_request_log_id == log_id then insert_token o.token_id rest else rest

  -- `evaluate_request_in_session`: the transitions and the failures, and the tables.
  unfoldable pub evaluate_request :
      (evaluation_ids event_ids : ℕ → ℕ)
      → LifecycleTables
      → Result ClassifierError
          ((List LifecycleTransition × List SelectionFailure) × LifecycleTables)
  evaluate_request evaluation_ids event_ids t = do
    results ← evaluate_tokens evaluation_ids event_ids (tokens_in t.observations) t
    ok ((transitions_of results.0, failures_of results.0), results.1)
