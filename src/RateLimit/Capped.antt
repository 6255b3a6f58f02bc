-- ===== src/RateLimit/Capped.antt =====
-- The bucket never holds more tokens than the burst.
use stats.Base.{ℕ, ◌≡◌, true, false, List, [], ◌∷◌}
use stats.Base.Int.{ℤ}
use stats.RateLimit.{FloatOps, RateLimiter, allow_n}

-- IEEE 754 of numbers that come from an `int`: none is greater than itself, and a number does not
-- become greater than another when a number from an `int` that is at most as large is taken away.
pub record IsOrdered {F : Type 0} (ops : FloatOps F) : Type 0 where
  pub irrefl : (n : ℕ) → ops.greater (ops.of_int n) (ops.of_int n) ≡ false
  pub minus_below :
      (b n : ℕ) (a : F)
      → ops.greater a (ops.of_int b) ≡ false
      → ops.at_least a (ops.of_int n) ≡ true
      → ops.greater (ops.minus a (ops.of_int n)) (ops.of_int b) ≡ false

module _ {F : Type 0} (ops : FloatOps F) where
  abbrev pub IsCapped : RateLimiter F → Type 0
  IsCapped rl = ops.greater rl.tokens (ops.of_int rl.burst) ≡ false

  pub run : RateLimiter F → List (ℤ × ℕ) → RateLimiter F
  run rl [] = rl
  run rl ((now, n) ∷ requests) = run (allow_n ops rl now n).1 requests
