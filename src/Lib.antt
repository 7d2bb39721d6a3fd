-- ===== src/Lib.antt =====
-- The scheduler and the lifecycle rules of Pump Research.
--
-- The program collects market data of newly appearing tokens. Its scheduler
-- (src/pump_research/scheduling) keeps a row of `poll_schedules` for each token: the token's
-- lifecycle state, the coverage class that the class policy derives from that state and from time,
-- and the time when the token is next polled. Each poll brings observations of the token's pairs.
-- The lifecycle classifier (src/pump_research/lifecycle) chooses one of them as evidence and applies
-- the rules that may move the token to another state, which the scheduler then turns into coverage.
-- A second policy (src/pump_research/candidates) gives some tokens more coverage for a time. The
-- capacity planner stretches the polling intervals until the polls fit the request budget of the
-- provider, and the collection as a whole runs in epochs, of which one runs at a time.
--
-- Files, and the code that they model:
--   Prelude            shared names, Boolean tests on native numbers, lists, results, integers,
--                      stable sorting, texts by code points
--   Floats             Python's floats as an interface; Floats/Fixed is an instance for tests,
--                      Floats/Order what is relied on of their order and differences
--   Coverage           src/pump_research/scheduling/policy.py: AdaptivePollingPolicy, its
--                      validation, coverage_class_for, next_transition_at and the intervals;
--                      Coverage/Classes has the two enumerations and _PRIORITIES,
--                      Coverage/Settings from_settings and the settings of
--                      src/pump_research/config.py that it reads
--   Lifecycle/Evidence src/pump_research/lifecycle/evidence_selection.py: select
--   Lifecycle/Policy   src/pump_research/lifecycle/policy.py: LifecyclePolicy.evaluate
--   Scheduler/Rows     the tables of src/pump_research/persistence/models.py that the scheduler
--                      reads and writes, and the constraints of poll_schedules
--   Scheduler/Refresh  scheduling/scheduler.py: _refresh_one_coverage
--   Scheduler/Decisions _record_coverage_decision and _persist_coverage_policy
--   Scheduler/Advance  _advance_coverage_transitions
--   Scheduler/Selection, Scheduler/Claim
--                      claim_next_batch, _claim_control_batch, _has_batch_capacity
--   Scheduler/Batches, Scheduler/Complete
--                      complete_batch_in_session
--   Scheduler/Apply    set_lifecycle_state_in_session
--   Scheduler/Rebase   initialize_epoch_in_session
--   Scheduler/Planning _capacity_decision, _capacity_counts, _persist_capacity_decision
--   Scheduler/Steps    the transactions of the scheduler as steps
--   Lifecycle/Classifier
--                      src/pump_research/lifecycle/classifier.py: the evaluation of a token and of a
--                      response, with the evidence and event repositories of
--                      src/pump_research/persistence/repositories.py
--   Admission          DexAvailabilityTaskRepository of persistence/repositories.py
--   Candidates         src/pump_research/candidates/policy.py: CandidatePolicy.evaluate, the checks of
--                      CandidateEvidence; Candidates/Wakeups has budget_projection and
--                      select_boost_wakeups
--   Epochs             src/pump_research/epochs.py and the epoch tables of persistence/models.py;
--                      Epochs/Operations has create_epoch, start_epoch_with_result, close_epoch,
--                      list_epochs and get_epoch_status, Epochs/Projection the replay of the
--                      event log, Epochs/Steps the transactions as steps
--   Capacity           src/pump_research/scheduling/capacity.py: _weighted_rates and
--                      _interval_for_rate; Capacity/Plan has plan_capacity
--   RateLimiter        src/pump_research/market_data/rate_limiter.py
-- Modules below these hold the lemmas and theorems on them; the modules Samples, Scenarios,
-- Completions, Applications, Rebasings and Plannings hold tests and witnesses.
--
-- Representation. A `datetime` is a number of microseconds and a `timedelta` a number of
-- microseconds too, which for the settings read is exact; UUIDs and SHA-256 digests are numbers,
-- and a snapshot stands for the digest that is stored with it. Decimal amounts are integers in
-- the unit of the last decimal place that the database keeps. The database is a record of tables,
-- and a function from it to a result of it is a transaction: an error leaves nothing behind.
-- The scheduler's digests of a token (`coverage_digest`, `epoch_digest`) are fields of the model's
-- scheduler, since SHA-256 is not part of the program, and so is `milliseconds`, the conversion of a
-- lateness that Python does with floats.
--
-- The `while True` loop of _advance_coverage_transitions recurs on fuel. Each pass ends the due
-- transition of the first row of its batch at least, so fuel above the number of due rows is
-- enough.
--
-- The bisection of _weighted_rates runs the 80 rounds of the code. The planner's float constants are
-- quotients of integers, and the sum of floats, which Python compensates, is an argument of it.
--
-- A claim, a lifecycle decision and the start of an epoch take the capacity decision as an
-- argument, any function of the tables that returns a plan or an error; Scheduler/Planning models
-- that function apart, with the cache of the process and the session. Its digests, the UUID made of
-- a digest and the snapshot of a plan are arguments, as is the id of a new batch.
--
-- Not modelled: locks and concurrent sessions (the claim lock admits one planner at a time), the
-- JSON of snapshots, logging, and the parts of the program that are input and output: provider
-- adapters, archival, reports, the command line.
pub mod Admission
pub mod Candidates
pub mod Capacity
pub mod Coverage
pub mod Epochs
pub mod Floats
pub mod Lifecycle
pub mod Prelude
pub mod RateLimiter
pub mod Scheduler
