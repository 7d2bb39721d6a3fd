-- ===== src/RateLimiter/Pacing.antt =====
-- The pace of the requests that src/pump_research/market_data/rate_limiter.py lets through.
use pump_research.Prelude.{
  ◌⊎◌, sym, ◌∙◌, inl, inr, Bool-cases, ℕ, zero, suc, if◌then◌else◌, ◌≡◌, refl, Bool, true, false,
  Option, none, some, List, [], ◌∷◌, Result, ok, ◌>>=◌, length, arith, ==_refl, subst, ap,
  >>=-eq-ok,
}
use pump_research.Floats.{Floats}
use pump_research.Floats.Order.{IsOrderedFloats, IsSignedDifference}
use pump_research.RateLimiter.{
  RateLimiterError, AsyncRateLimiter, float_max, init, acquire, limiter_of,
  get_process_rate_limiter,
}

module _ (F : Floats) where
  -- The slot that the state of the limiter gives to the request.
  abbrev permitted_at : F.Float → AsyncRateLimiter F → F.Float
  permitted_at now l = float_max F now l.next_permitted_at

  abbrev last_permitted : F.Float → List F.Float → AsyncRateLimiter F → F.Float
  last_permitted now [] l = permitted_at now l
  last_permitted now (next ∷ later) l = last_permitted next later (acquire F now l).1

  -- The instant at which the caller goes on: it sleeps for the wait that `acquire` returns, if that
  -- is more than zero.
  abbrev pub resumed_at : F.Float → AsyncRateLimiter F → F.Float
  resumed_at now l =
      let wait = (acquire F now l).0 in if F.less (F.of_ℕ 0) wait then F.add now wait else now

  -- The last such instant of a sequence of requests, made when the clock shows the given times in the
  -- order in which they take the lock.
  abbrev pub last_resumed : F.Float → List F.Float → AsyncRateLimiter F → F.Float
  last_resumed now [] l = resumed_at now l
  last_resumed now (next ∷ later) l = last_resumed next later (acquire F now l).1

  abbrev pub after_intervals : ℕ → F.Float → F.Float → F.Float
  after_intervals zero interval t = t
  after_intervals (suc n) interval t = after_intervals n interval (F.add t interval)

  module _ (order : IsOrderedFloats F) where
    float_max-at_most : (a b : F.Float) → F.at_most b (float_max F a b) ≡ true
    unfolding float_max
    float_max-at_most a b = go (F.less a b) refl
      where
        go : (test : Bool) → F.less a b ≡ test → F.at_most b (if test then b else a) ≡ true
        go true h = order.at_most_refl b
        go false h = order.less-false a b h

    after_intervals-at_most :
        (n : ℕ) (interval s t : F.Float)
        → F.at_most s t ≡ true
        → F.at_most (after_intervals n interval s) (after_intervals n interval t) ≡ true
    after_intervals-at_most zero interval s t h = h
    after_intervals-at_most (suc n) interval s t h =
        after_intervals-at_most n interval (F.add s interval) (F.add t interval)
          (order.add-at_most s t interval h)

    -- The slots of a limiter are spaced.
    last_permitted-spaced :
        (now : F.Float) (later : List F.Float) (l : AsyncRateLimiter F)
        → F.at_most
            (after_intervals (length later) l.interval_seconds (permitted_at now l))
            (last_permitted now later l)
          ≡ true
    unfolding acquire
    last_permitted-spaced now [] l = order.at_most_refl (permitted_at now l)
    last_permitted-spaced now (next ∷ later) l =
        let after = (acquire F now l).1 in
        order.at_most_trans
          (after_intervals (length later) l.interval_seconds
            (F.add (permitted_at now l) l.interval_seconds))
          (after_intervals (length later) l.interval_seconds (permitted_at next after))
          (last_permitted next later after)
          (after_intervals-at_most (length later) l.interval_seconds _ _
            (float_max-at_most next after.next_permitted_at))
          (last_permitted-spaced next later after)

  -- The caller does not wait, or the difference for which it waits is exact: it is where the slot is at
  -- most twice the reading of the clock.
  abbrev pub IsExactAt : F.Float → AsyncRateLimiter F → Type 0
  IsExactAt now l =
      (F.less now l.next_permitted_at ≡ false)
      ⊎ (F.add now (F.sub l.next_permitted_at now) ≡ l.next_permitted_at)

  abbrev pub AreExact : F.Float → List F.Float → AsyncRateLimiter F → Type 0
  AreExact now [] l = IsExactAt now l
  AreExact now (next ∷ later) l = IsExactAt now l × AreExact next later (acquire F now l).1

  module _ (signed : IsSignedDifference F) where
    -- The wait carries the caller to its slot.
    resumed_at-slot :
        (now : F.Float) (l : AsyncRateLimiter F)
        → IsExactAt now l
        → resumed_at now l ≡ permitted_at now l
    unfolding acquire float_max
    resumed_at-slot now l exact =
        let next = l.next_permitted_at in
        let sign = signed.sub-positive next now in
        elim (Bool-cases (F.less now next)) [
          | inl waits ↦
              let sum : F.add now (F.sub next now) ≡ next = elim exact [
                | inl free ↦ absurd (ground arith)
                | inr same ↦ same
              ] in
              let positive : F.less (F.of_ℕ 0) (F.sub next now) ≡ true = sign ∙ waits in
              rw (positive, positive, waits, sum) refl
          | inr free ↦
              let not_positive : F.less (F.of_ℕ 0) (F.sub next now) ≡ false = sign ∙ free in
              rw (not_positive, free, signed.zero_not-less) refl
        ]

    last_resumed-slot :
        (now : F.Float) (later : List F.Float) (l : AsyncRateLimiter F)
        → AreExact now later l
        → last_resumed now later l ≡ last_permitted now later l
    last_resumed-slot now [] l exact = resumed_at-slot now l exact
    last_resumed-slot now (next ∷ later) l exact =
        last_resumed-slot next later (acquire F now l).1 exact.1

    first_exact :
        (now : F.Float) (later : List F.Float) (l : AsyncRateLimiter F)
        → AreExact now later l
        → IsExactAt now l
    first_exact now [] l exact = exact
    first_exact now (next ∷ later) l exact = exact.0

    -- The requests of a limiter are spaced, whenever its clock is read: where each caller sleeps for
    -- exactly the wait that `acquire` returns, the last of a sequence of requests goes on no earlier
    -- than one interval after the first for each request that follows it. The order of floats is
    -- that of numbers and addition keeps it, a difference has the sign of the order of its operands,
    -- and those for which a caller of the sequence waits are exact.
    pub last_resumed-spaced :
        IsOrderedFloats F
        → (now : F.Float) (later : List F.Float) (l : AsyncRateLimiter F) → AreExact now later l
        → F.at_most
            (after_intervals (length later) l.interval_seconds (resumed_at now l))
            (last_resumed now later l)
          ≡ true
    last_resumed-spaced order now later l exact =
        subst
          (λ t.
            F.at_most (after_intervals (length later) l.interval_seconds t)
              (last_resumed now later l)
            ≡ true)
          (sym (resumed_at-slot now l (first_exact now later l exact)))
          (subst
            (λ t.
              F.at_most (after_intervals (length later) l.interval_seconds (permitted_at now l)) t
              ≡ true)
            (sym (last_resumed-slot now later l exact)) (last_permitted-spaced order now later l))

  -- One limiter for each rate: after a look-up that returned, a look-up of the same rate returns the
  -- same limiter and changes nothing.
  pub get_process_rate_limiter_repeated :
      (rate : ℕ) (ls : List (ℕ × AsyncRateLimiter F)) {l : AsyncRateLimiter F}
      {ls' : List (ℕ × AsyncRateLimiter F)}
      → get_process_rate_limiter F rate ls ≡ ok (l, ls')
      → get_process_rate_limiter F rate ls' ≡ ok (l, ls')
  unfolding get_process_rate_limiter limiter_of
  get_process_rate_limiter_repeated rate ls {l} {ls'} h = go (limiter_of F rate ls) refl h
    where
      go :
          (found : Option (AsyncRateLimiter F))
          → limiter_of F rate ls ≡ found
          → elim found
              as (λ _.
                Result RateLimiterError (AsyncRateLimiter F × List (ℕ × AsyncRateLimiter F))) [
                  | some x ↦ ok (x, ls)
                  | none ↦ init F rate >>= λ x. ok (x, (rate, x) ∷ ls)
                ]
            ≡ ok (l, ls')
          → get_process_rate_limiter F rate ls' ≡ ok (l, ls')
      go (some x) e k =
          let same : ls ≡ ls' = ground arith in
          let limiter : x ≡ l = ground arith in
          subst (λ xs. get_process_rate_limiter F rate xs ≡ ok (l, xs)) same
            (rw (get_process_rate_limiter, e) (ap (λ y. ok (y, ls)) limiter))
      go none e k =
          let (x, _, m) = >>=-eq-ok (init F rate) _ k in
          let same : (rate, x) ∷ ls ≡ ls' = ground arith in
          let limiter : x ≡ l = ground arith in
          subst (λ xs. get_process_rate_limiter F rate xs ≡ ok (l, xs)) same
            (rw (get_process_rate_limiter, limiter_of, ==_refl rate)
              (ap (λ y. ok (y, (rate, x) ∷ ls)) limiter))
