-- ===== src/Base/Bits/Step.antt =====
-- The native bit operations mean a recursion on binary digits with fuel; here is one equation for
-- the lowest digit of each.
use Prim.Native.Nat.{digits, bitwise, bit_and-bitwise, bit_or-bitwise}
use native.Mathlib.Nat.{le_refl}
use stats.Base.{ℕ, zero, suc, ◌+◌, ◌*◌, ◌/◌, ◌%◌, ◌≤◌, min, max, bit_and, bit_or, ◌≡◌, refl, arith}

module _ (rest : ℕ → ℕ) (op : ℕ → ℕ → ℕ) where
  -- Any two amounts of fuel that reach the number are as good as each other.
  fuel_irrelevant : (x y i j : ℕ) → x ≤ i → x ≤ j → digits rest op i x y ≡ digits rest op j x y
  fuel_irrelevant zero y zero zero hi hj = refl
  fuel_irrelevant zero y (suc i) zero hi hj = refl
  fuel_irrelevant zero y zero (suc j) hi hj = refl
  fuel_irrelevant zero y (suc i) (suc j) hi hj = refl
  fuel_irrelevant (suc x) y zero j hi hj = absurd (omega arith)
  fuel_irrelevant (suc x) y (suc i) zero hi hj = absurd (omega arith)
  fuel_irrelevant (suc x) y (suc i) (suc j) hi hj =
      let half : suc x / 2 ≤ i = omega arith in
      rw (fuel_irrelevant (suc x / 2) (y / 2) i j half (omega arith))

  lowest_digit :
      (x y : ℕ)
      → bitwise rest op (suc x) y ≡ bitwise rest op (suc x / 2) (y / 2) * 2 + op (suc x % 2) (y % 2)
  lowest_digit x y =
      let half : suc x / 2 ≤ x = omega arith in
      omega (arith, fuel_irrelevant (suc x / 2) (y / 2) x (suc x / 2) half (le_refl _))

pub bit_or_step : (x y : ℕ) → bit_or x y ≡ bit_or (x / 2) (y / 2) * 2 + max (x % 2) (y % 2)
bit_or_step zero y = simp bit_or-bitwise (omega arith)
bit_or_step (suc x) y = simp bit_or-bitwise (lowest_digit (λ other. other) max x y)

pub bit_and_step : (x y : ℕ) → bit_and x y ≡ bit_and (x / 2) (y / 2) * 2 + min (x % 2) (y % 2)
bit_and_step zero y = simp bit_and-bitwise (omega arith)
bit_and_step (suc x) y = simp bit_and-bitwise (lowest_digit (λ other. 0) min x y)
