-- ===== src/Coverage/Validation.antt =====
-- What `_validate` of src/pump_research/scheduling/policy.py accepts.
use pump_research.Prelude.{◌<◌, ◌≡◌, ok, ◌↔◌, arith}
use pump_research.Floats.{Floats}
use pump_research.Coverage.{AdaptivePollingPolicy, validate, safe_request_floor}
use pump_research.Coverage.Path.{IsIncreasing}

module _ (floats : Floats) (p : AdaptivePollingPolicy (floats.Float)) where
  -- A policy is accepted exactly when its age boundaries and its FADING durations increase
  -- strictly and the request reserve lies below the safe request budget.
  pub validate_iff :
      (validate floats p ≡ ok tt)
      ↔ (IsIncreasing p × (p.reserved_requests_per_minute < safe_request_floor floats p))
  unfolding validate
  validate_iff = (λ h. ground arith, λ h. ground arith)
