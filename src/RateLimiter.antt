-- ===== src/RateLimiter.antt =====
-- src/pump_research/market_data/rate_limiter.py: the state of a limiter, and `acquire` as one step,
-- since the lock makes the reading and the update of the state one. The clock is an argument.
pub mod Pacing
pub mod Samples
use pump_research.Prelude.{
  ℕ, ◌≡◌, Bool, true, false, Option, none, some, List, [], ◌∷◌, Result, ok, err, ◌>>=◌, leb, ◌==◌,
  if◌then◌else◌,
}
use pump_research.Floats.{Floats}

pub data RateLimiterError : Type 0 where
  not_positive : RateLimiterError

module _ (F : Floats) where
  pub record AsyncRateLimiter : Type 0 where
    pub interval_seconds : F.Float
    pub next_permitted_at : F.Float

  -- `max(a, b)` is `a` unless `b` is greater.
  unfoldable pub float_max : F.Float → F.Float → F.Float
  float_max a b = if F.less a b then b else a

  unfoldable pub init : (requests_per_minute : ℕ) → Result RateLimiterError AsyncRateLimiter
  init requests_per_minute =
      if leb requests_per_minute 0
      then err not_positive
      else ok (record {
        interval_seconds = F.div (F.of_ℕ 60) (F.of_ℕ requests_per_minute);
        next_permitted_at = F.of_ℕ 0;
      })

  -- The wait that the caller sleeps, if it is more than zero, and returns.
  unfoldable pub acquire : (now : F.Float) → AsyncRateLimiter → F.Float × AsyncRateLimiter
  unfolding float_max
  acquire now l = (
    float_max (F.of_ℕ 0) (F.sub l.next_permitted_at now),
    record l { next_permitted_at = F.add (float_max now l.next_permitted_at) l.interval_seconds },
  )

  -- The limiters of the process, by their rate.
  unfoldable pub limiter_of : ℕ → List (ℕ × AsyncRateLimiter) → Option AsyncRateLimiter
  limiter_of rate [] = none
  limiter_of rate ((r, l) ∷ ls) = if r == rate then some l else limiter_of rate ls

  unfoldable pub get_process_rate_limiter :
      ℕ
      → List (ℕ × AsyncRateLimiter)
      → Result RateLimiterError (AsyncRateLimiter × List (ℕ × AsyncRateLimiter))
  get_process_rate_limiter rate ls = elim (limiter_of rate ls) [
    | some l ↦ ok (l, ls)
    | none ↦ do l ← init rate; ok (l, (rate, l) ∷ ls)
  ]
