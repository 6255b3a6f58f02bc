-- ===== src/Base/Word.antt =====
-- Machine words as native numbers: `uint64` arithmetic wraps at 2 ^ 64, and an `int32` is its bit
-- pattern below 2 ^ 32.
use stats.Base.{ℕ, ◌+◌, ◌-◌, ◌%◌, ◌^◌, Bool, leb}

abbrev pub word : ℕ
word = 2 ^ 64

abbrev pub add64 : ℕ → ℕ → ℕ
add64 a b = (a + b) % word

-- `-` on ℕ stops at 0, so the modulus is added first.
abbrev pub sub64 : ℕ → ℕ → ℕ
sub64 a b = (a + word - b) % word

abbrev pub add32 : ℕ → ℕ → ℕ
add32 a b = (a + b) % 2 ^ 32

-- `a <= b` of two `int32` bit patterns: the sign bit is turned over first.
abbrev pub leb_int32 : ℕ → ℕ → Bool
leb_int32 a b = leb (add32 a (2 ^ 31)) (add32 b (2 ^ 31))
