-- ===== src/Coverage/Settings.antt =====
-- src/pump_research/scheduling/policy.py: `from_settings`, and the settings of
-- src/pump_research/config.py that it reads.
use pump_research.Prelude.{ℕ, ◌*◌, Result, ok, ◌>>=◌}
use pump_research.Floats.{Floats}
use pump_research.Coverage.{
  AdaptivePollingPolicy, PolicyError, CoverageClass, protected_active, protected_resurrected,
  protected_watch, initial, early, mature, fading_tail, fading_cool, cooled, long_tail_day,
  long_tail_week, retired_control, validate,
}

pub record Settings (Float : Type 0) : Type 0 where
  pub scheduler_active_interval_seconds : ℕ
  pub scheduler_resurrected_interval_seconds : ℕ
  pub scheduler_watch_interval_seconds : ℕ
  pub scheduler_new_initial_interval_seconds : ℕ
  pub scheduler_new_interval_seconds : ℕ
  pub scheduler_mature_interval_seconds : ℕ
  pub scheduler_fading_interval_seconds : ℕ
  pub scheduler_fading_tail_cool_interval_seconds : ℕ
  pub scheduler_cooled_interval_seconds : ℕ
  pub scheduler_long_tail_day_interval_seconds : ℕ
  pub scheduler_long_tail_week_interval_seconds : ℕ
  pub scheduler_new_initial_duration_seconds : ℕ
  pub scheduler_early_until_seconds : ℕ
  pub scheduler_mature_until_seconds : ℕ
  pub scheduler_cooled_until_seconds : ℕ
  pub scheduler_long_tail_day_until_seconds : ℕ
  pub scheduler_retire_after_seconds : ℕ
  pub scheduler_fading_tail_fast_duration_seconds : ℕ
  pub scheduler_fading_tail_total_duration_seconds : ℕ
  pub scheduler_batch_size : ℕ
  pub scheduler_lease_seconds : ℕ
  pub scheduler_max_in_flight_batches : ℕ
  pub dex_screener_requests_per_minute : ℕ
  pub dex_screener_max_attempts : ℕ
  pub scheduler_reserved_requests_per_minute : ℕ
  pub scheduler_control_scan_tokens_per_minute : ℕ
  pub scheduler_capacity_headroom_ratio : Float
  pub scheduler_capacity_refresh_seconds : ℕ

-- `timedelta(seconds=…)`
abbrev pub seconds : ℕ → ℕ
seconds n = n * 1_000_000

intervals_of : {Float : Type 0} → Settings Float → CoverageClass → ℕ
intervals_of s protected_active = seconds s.scheduler_active_interval_seconds
intervals_of s protected_resurrected = seconds s.scheduler_resurrected_interval_seconds
intervals_of s protected_watch = seconds s.scheduler_watch_interval_seconds
intervals_of s initial = seconds s.scheduler_new_initial_interval_seconds
intervals_of s early = seconds s.scheduler_new_interval_seconds
intervals_of s mature = seconds s.scheduler_mature_interval_seconds
intervals_of s fading_tail = seconds s.scheduler_fading_interval_seconds
intervals_of s fading_cool = seconds s.scheduler_fading_tail_cool_interval_seconds
intervals_of s cooled = seconds s.scheduler_cooled_interval_seconds
intervals_of s long_tail_day = seconds s.scheduler_long_tail_day_interval_seconds
intervals_of s long_tail_week = seconds s.scheduler_long_tail_week_interval_seconds
intervals_of s retired_control = seconds 60

module _ (floats : Floats) where
  policy_of : Settings (floats.Float) → AdaptivePollingPolicy (floats.Float)
  unfolding intervals_of
  policy_of s = record {
    intervals = intervals_of s;
    new_initial_duration = seconds s.scheduler_new_initial_duration_seconds;
    early_until = seconds s.scheduler_early_until_seconds;
    mature_until = seconds s.scheduler_mature_until_seconds;
    cooled_until = seconds s.scheduler_cooled_until_seconds;
    long_tail_day_until = seconds s.scheduler_long_tail_day_until_seconds;
    retire_after = seconds s.scheduler_retire_after_seconds;
    fading_fast_duration = seconds s.scheduler_fading_tail_fast_duration_seconds;
    fading_total_duration = seconds s.scheduler_fading_tail_total_duration_seconds;
    batch_size = s.scheduler_batch_size;
    lease_duration = seconds s.scheduler_lease_seconds;
    max_in_flight_batches = s.scheduler_max_in_flight_batches;
    request_budget_per_minute = s.dex_screener_requests_per_minute;
    request_attempts_per_batch = s.dex_screener_max_attempts;
    reserved_requests_per_minute = s.scheduler_reserved_requests_per_minute;
    control_scan_tokens_per_minute = s.scheduler_control_scan_tokens_per_minute;
    capacity_headroom_ratio = s.scheduler_capacity_headroom_ratio;
    capacity_refresh = seconds s.scheduler_capacity_refresh_seconds;
  }

  unfoldable pub from_settings :
      Settings (floats.Float) → Result PolicyError (AdaptivePollingPolicy (floats.Float))
  unfolding policy_of
  from_settings s = validate floats (policy_of s) >>= λ _. ok (policy_of s)
