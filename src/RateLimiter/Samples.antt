-- ===== src/RateLimiter/Samples.antt =====
-- src/pump_research/market_data/rate_limiter.py: a limiter of sixty requests a minute.
use pump_research.Prelude.{inl, inr, ◌≡◌, refl, true, [], ◌∷◌, ok, err}
use pump_research.Floats.Fixed.{fixed}
use pump_research.Floats.Order.{fixed-IsOrderedFloats, fixed-IsSignedDifference}
use pump_research.RateLimiter.{
  AsyncRateLimiter, not_positive, float_max, init, acquire, limiter_of, get_process_rate_limiter,
}
use pump_research.RateLimiter.Pacing.{
  after_intervals, resumed_at, last_resumed, last_resumed-spaced,
}

abbrev fresh : AsyncRateLimiter fixed
fresh = record { interval_seconds = 1_000_000; next_permitted_at = 0 }

init_sixty : init fixed 60 ≡ ok fresh
unfolding init
init_sixty = refl

init_zero : init fixed 0 ≡ err not_positive
unfolding init
init_zero = refl

-- Two requests half a second apart: the second waits for the other half.
second_waits : (acquire fixed 5_500_000 (acquire fixed 5_000_000 fresh).1).0 ≡ 500_000
unfolding acquire float_max
second_waits = refl

last_resumed-spaced_example :
    fixed.at_most
      (after_intervals fixed 2 1_000_000 (resumed_at fixed 5_000_000 fresh))
      (last_resumed fixed 5_000_000 (5_500_000 ∷ 5_700_000 ∷ []) fresh)
    ≡ true
unfolding acquire float_max
last_resumed-spaced_example =
    last_resumed-spaced fixed fixed-IsSignedDifference fixed-IsOrderedFloats 5_000_000
      (5_500_000 ∷ 5_700_000 ∷ []) fresh (inl refl, (inr refl, inr refl))

looked_up : get_process_rate_limiter fixed 60 [] ≡ ok (fresh, (60, fresh) ∷ [])
unfolding get_process_rate_limiter limiter_of init
looked_up = refl
