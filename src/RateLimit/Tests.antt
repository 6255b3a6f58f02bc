-- ===== src/RateLimit/Tests.antt =====
-- Natural numbers in the place of a `float64`.
use stats.Base.{ℕ, ◌+◌, ◌-◌, ◌*◌, ◌/◌, List, [], ◌∷◌, ltb, leb}
use stats.Base.Int.{ℤ, pos, pos_part}
use stats.RateLimit.{FloatOps}

abbrev whole_tokens : FloatOps ℕ
whole_tokens = record {
  of_int = λ n. n;
  thousand = 1_000;
  positive = λ a. ltb 0 a;
  plus = ◌+◌;
  minus = ◌-◌;
  times = ◌*◌;
  divide = ◌/◌;
  greater = λ a b. ltb b a;
  at_least = λ a b. leb b a;
  seconds = λ d. pos_part d / 1_000_000_000;
}

abbrev requests : List (ℤ × ℕ)
requests = (pos 0, 3) ∷ (pos 1_000_000_000, 9) ∷ (pos 9_000_000_000, 1) ∷ []
