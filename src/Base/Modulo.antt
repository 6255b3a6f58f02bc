-- ===== src/Base/Modulo.antt =====
-- Remainders by a variable: positions of a ring.
use native.Mathlib.Nat.{mul-le-mul_left, div-add-mod}
use stats.Base.{ℕ, suc, ◌+◌, ◌/◌, ◌%◌, ◌<◌, ◌≡◌, ◌≢◌, sym, arith, dec_lt}

-- Numbers less than `c` apart do not share a remainder by `c`.
mod_near : (c a b : ℕ) → a % c ≡ b % c → a < b → b < a + c → ⊥
mod_near c a b e lt near = elim (dec_lt (a / c) (b / c)) [
  | yes p ↦ omega (arith, mul-le-mul_left c p, div-add-mod a c, div-add-mod b c)
  | no p ↦ omega (
    arith,
    mul-le-mul_left {m = b / c} {n = a / c} c (omega arith),
    div-add-mod a c,
    div-add-mod b c,
  )
]

-- Two positions less than a lap apart have places of their own.
pub mod_apart : (c r i j : ℕ) → i < c → j < c → i ≢ j → (r + i) % c ≢ (r + j) % c
mod_apart c r i j hi hj ne e = elim (dec_lt i j) [
  | yes p ↦ mod_near c (r + i) (r + j) e (omega arith) (omega arith)
  | no p ↦ mod_near c (r + j) (r + i) (sym e) (omega arith) (omega arith)
]

pub mod_apart_start : (c r j : ℕ) → suc j < c → r % c ≢ (r + suc j) % c
mod_apart_start c r j h e = mod_near c r (r + suc j) e (omega arith) (omega arith)

-- One lap on is the same place.
pub mod_lap : (c r : ℕ) → (r + c) % c ≡ r % c
mod_lap c r = grind arith
