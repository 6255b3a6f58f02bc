-- ===== src/RateLimit.antt =====
-- ratelimit.go: the token bucket in front of the pipeline.
-- The operations of Go on `float64` are a parameter; times are Unix nanoseconds, and a method takes
-- the time that it reads from the clock.
pub mod Capped
mod Tests
use stats.Base.{ℕ, suc, Bool, true, false, Option, none, some, List, [], ◌∷◌, ◌==◌, if◌then◌else◌}
use stats.Base.Int.{ℤ, ◌-ℤ◌}

pub record FloatOps (F : Type 0) : Type 0 where
  pub of_int : ℕ → F
  pub thousand : F
  pub positive : F → Bool
  pub plus : F → F → F
  pub minus : F → F → F
  pub times : F → F → F
  pub divide : F → F → F
  pub greater : F → F → Bool
  pub at_least : F → F → Bool
  pub seconds : ℤ → F

pub record RateLimiter (F : Type 0) : Type 0 where
  pub rate : F
  pub burst : ℕ
  pub tokens : F
  pub last_update : ℤ

pub record RateLimiterStats (F : Type 0) : Type 0 where
  pub current_rate : F
  pub current_burst : ℕ
  pub available_tokens : F
  pub utilization : F

module _ {F : Type 0} (ops : FloatOps F) where
  -- A burst that is not positive is 0 here.
  pub new : F → ℕ → ℤ → RateLimiter F
  new rate burst now =
      let burst' = if burst == 0 then 100 else burst in
      record {
        rate = if ops.positive rate then rate else ops.thousand;
        burst = burst';
        tokens = ops.of_int burst';
        last_update = now;
      }

  -- The tokens at a time, at most the burst.
  refilled : RateLimiter F → ℤ → F
  refilled rl now =
      let tokens = ops.plus rl.tokens (ops.times (ops.seconds (now -ℤ rl.last_update)) rl.rate) in
      if ops.greater tokens (ops.of_int rl.burst) then ops.of_int rl.burst else tokens

  take_tokens : RateLimiter F → ℤ → F → Bool × RateLimiter F
  unfolding refilled
  take_tokens rl now needed =
      let tokens = refilled rl now in
      if ops.at_least tokens needed
      then (true, record rl { tokens = ops.minus tokens needed; last_update = now })
      else (false, record rl { tokens = tokens; last_update = now })

  pub allow : RateLimiter F → ℤ → Bool × RateLimiter F
  unfolding take_tokens
  allow rl now = take_tokens rl now (ops.of_int 1)

  pub allow_n : RateLimiter F → ℤ → ℕ → Bool × RateLimiter F
  unfolding take_tokens
  allow_n rl now n = take_tokens rl now (ops.of_int n)

  -- `Wait`, with the times at which it looks; `none` if no token has come by the last one.
  pub wait : RateLimiter F → List ℤ → Option (RateLimiter F)
  wait rl [] = none
  wait rl (now ∷ later) =
      let (allowed, rl') = allow rl now in if allowed then some rl' else wait rl' later

  pub limiter_stats : RateLimiter F → ℤ → RateLimiterStats F
  limiter_stats rl now =
      let tokens = refilled rl now in
      record {
        current_rate = rl.rate;
        current_burst = rl.burst;
        available_tokens = tokens;
        utilization = ops.minus (ops.of_int 1) (ops.divide tokens (ops.of_int rl.burst));
      }
