-- ===== src/Coverage/Samples.antt =====
-- The default settings of src/pump_research/config.py, tests on them, and the theorems of the
-- coverage policy at concrete inputs.
use pump_research.Prelude.{ℕ, ◌*◌, ◌≤◌, ◌<◌, ◌≡◌, ◌≢◌, ◌↔◌, refl, none, some, ok, err, arith}
use pump_research.Floats.Fixed.{fixed}
use pump_research.Coverage.{
  AdaptivePollingPolicy, new, active, early, mature, retired_control, coverage_class_for,
  next_transition_at, capacity_target_interval_seconds, validate, safe_request_floor,
  fading_not_increasing,
}
use pump_research.Coverage.Settings.{Settings, from_settings, seconds}
use pump_research.Coverage.Boundaries.{next_transition_at-exact}
use pump_research.Coverage.Path.{IsIncreasing, capacity_target_interval_seconds-control}
use pump_research.Coverage.Validation.{validate_iff}

-- The headroom ratio 0.20, in millionths.
abbrev defaults : Settings ℕ
defaults = record {
  scheduler_active_interval_seconds = 5;
  scheduler_resurrected_interval_seconds = 5;
  scheduler_watch_interval_seconds = 15;
  scheduler_new_initial_interval_seconds = 15;
  scheduler_new_interval_seconds = 30;
  scheduler_mature_interval_seconds = 300;
  scheduler_fading_interval_seconds = 120;
  scheduler_fading_tail_cool_interval_seconds = 1800;
  scheduler_cooled_interval_seconds = 1800;
  scheduler_long_tail_day_interval_seconds = 7200;
  scheduler_long_tail_week_interval_seconds = 43200;
  scheduler_new_initial_duration_seconds = 120;
  scheduler_early_until_seconds = 600;
  scheduler_mature_until_seconds = 3600;
  scheduler_cooled_until_seconds = 21600;
  scheduler_long_tail_day_until_seconds = 86400;
  scheduler_retire_after_seconds = 604800;
  scheduler_fading_tail_fast_duration_seconds = 1800;
  scheduler_fading_tail_total_duration_seconds = 21600;
  scheduler_batch_size = 30;
  scheduler_lease_seconds = 120;
  scheduler_max_in_flight_batches = 4;
  dex_screener_requests_per_minute = 240;
  dex_screener_max_attempts = 3;
  scheduler_reserved_requests_per_minute = 14;
  scheduler_control_scan_tokens_per_minute = 2;
  scheduler_capacity_headroom_ratio = 200_000;
  scheduler_capacity_refresh_seconds = 30;
}

-- The policy of the default settings, with one interval for all classes.
abbrev pub default_policy : AdaptivePollingPolicy ℕ
default_policy = record {
  intervals = λ c. seconds 15;
  new_initial_duration = seconds 120;
  early_until = seconds 600;
  mature_until = seconds 3600;
  cooled_until = seconds 21600;
  long_tail_day_until = seconds 86400;
  retire_after = seconds 604800;
  fading_fast_duration = seconds 1800;
  fading_total_duration = seconds 21600;
  batch_size = 30;
  lease_duration = seconds 120;
  max_in_flight_batches = 4;
  request_budget_per_minute = 240;
  request_attempts_per_batch = 3;
  reserved_requests_per_minute = 14;
  control_scan_tokens_per_minute = 2;
  capacity_headroom_ratio = 200_000;
  capacity_refresh = seconds 30;
}

default_floor : safe_request_floor fixed default_policy ≡ 192
unfolding safe_request_floor
default_floor = refl

defaults_accepted : (p : AdaptivePollingPolicy ℕ) × (from_settings fixed defaults ≡ ok p)
unfolding from_settings validate safe_request_floor
defaults_accepted = (_, refl)

bad_fading :
    validate fixed (record default_policy { fading_total_duration = 0 }) ≡ err fading_not_increasing
unfolding validate
bad_fading = refl

-- A token that was admitted at 1000 s, seen 300 s later.
early_at_300 :
    next_transition_at default_policy new (seconds 1000) (seconds 1000) (seconds 1300)
    ≡ ok (some (seconds 1600))
unfolding next_transition_at
early_at_300 = refl

active_stays :
    next_transition_at default_policy active (seconds 1000) (seconds 1100) (seconds 1300) ≡ ok none
unfolding next_transition_at
active_stays = refl

early_class :
    coverage_class_for default_policy new (seconds 1000) (seconds 1000) (seconds 1300) ≡ ok early
unfolding coverage_class_for
early_class = refl

mature_class :
    coverage_class_for default_policy new (seconds 1000) (seconds 1000) (seconds 1700) ≡ ok mature
unfolding coverage_class_for
mature_class = refl

increasing : IsIncreasing default_policy
increasing = omega arith

next_transition_at-exact_example :
    (coverage_class_for default_policy new (seconds 1000) (seconds 1000) (seconds 1500)
      ≡ coverage_class_for default_policy new (seconds 1000) (seconds 1000) (seconds 1300))
    × (coverage_class_for default_policy new (seconds 1000) (seconds 1000) (seconds 1600)
        ≢ coverage_class_for default_policy new (seconds 1000) (seconds 1000) (seconds 1300))
next_transition_at-exact_example =
    next_transition_at-exact default_policy new (seconds 1000) (seconds 1000) (seconds 1300)
      (seconds 1500) early_at_300 (omega arith) (omega arith)

capacity_target_interval_seconds-control_example :
    (60 * 101
      ≤ capacity_target_interval_seconds default_policy retired_control 101
        * default_policy.control_scan_tokens_per_minute)
    × (60 ≤ capacity_target_interval_seconds default_policy retired_control 101)
capacity_target_interval_seconds-control_example =
    capacity_target_interval_seconds-control default_policy 101 (omega arith)

validate_iff_example : (validate fixed default_policy ≡ ok tt) ↔ (
    IsIncreasing default_policy
    × (default_policy.reserved_requests_per_minute < safe_request_floor fixed default_policy))
validate_iff_example = validate_iff fixed default_policy
