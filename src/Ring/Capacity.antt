-- ===== src/Ring/Capacity.antt =====
-- `nextPowerOfTwo`: the shifts and ors round up to a power of two.
use native.Mathlib.Nat.{mul-le-mul_right, pow-suc}
use stats.Base.{
  ℕ, zero, suc, ◌+◌, ◌-◌, ◌*◌, ◌/◌, ◌^◌, ◌≤◌, ◌<◌, bit_or, ◌≡◌, refl, ap, arith, dec_lt,
}
use stats.Base.Bits.{le-bit_or, bit_or_low}
use stats.Base.Powers.{
  pow-add, pow_le, pow_pos, lt_of_pow_lt, quotient_high, quotient_low, binary_width,
}
use stats.Ring.{smear, smear_all, next_power_of_two}

-- Of a number of `width` bits the top `m` are ones.
abbrev TopOnes : ℕ → ℕ → ℕ → Type 0
TopOnes width m n = (n < 2 ^ width) × (2 ^ width ≤ n + 2 ^ (width - m))

half_power : (width m : ℕ) → 2 ^ (width - m) ≤ 2 ^ m * 2 ^ (width - (m + m))
half_power width m = omega (
  arith,
  pow-add m (width - (m + m)),
  pow_le {i = width - m} {j = m + (width - (m + m))} (omega arith),
)

pred_times : (p d : ℕ) → 0 < p → (p - 1) * d + d ≡ p * d
pred_times p d h =
    let whole : p ≡ suc (p - 1) = omega arith in omega (arith, ap (λ (t : ℕ). t * d) whole)

-- The high part stays, and the low part takes the shifted ones over.
or_low_part :
    (k q a n z : ℕ)
    → n ≡ q * 2 ^ k + a
    → a < 2 ^ k
    → z < 2 ^ k
    → (bit_or n z < q * 2 ^ k + 2 ^ k) × (q * 2 ^ k + z ≤ bit_or n z)
or_low_part k q a n z e ha hz = rw e (omega (arith, bit_or_low k q a z ha hz, le-bit_or a z))

-- The case where the ones do not fill the number yet.
smear_below : (width m n : ℕ) → m < width → TopOnes width m n → TopOnes width (m + m) (smear m n)
unfolding smear
smear_below width m n h (lt, ge) =
    let split : 2 ^ m * 2 ^ (width - m) ≡ 2 ^ width =
      rw (← pow-add m (width - m)) (ap (λ (t : ℕ). 2 ^ t) (omega arith)) in
    let high = pred_times (2 ^ m) (2 ^ (width - m)) (pow_pos m) in
    let low =
      quotient_high (2 ^ m) (2 ^ (width - m)) (2 ^ (width - (m + m))) n (pow_pos m) (omega arith)
        (half_power width m) in
    let small : n / 2 ^ m < 2 ^ (width - m) =
      quotient_low (2 ^ m) (2 ^ (width - m)) n (omega arith) in
    let merged =
      or_low_part (width - m) (2 ^ m - 1) (n - (2 ^ m - 1) * 2 ^ (width - m)) n (n / 2 ^ m)
        (omega arith) (omega arith) small in
    omega arith

-- The case where every bit is a one already.
smear_full : (width m n : ℕ) → width ≤ m → TopOnes width m n → TopOnes width (m + m) (smear m n)
unfolding smear
smear_full width m n h (lt, ge) =
    let one : 2 ^ (width - m) ≡ 1 = ap (λ (t : ℕ). 2 ^ t) {y = 0} (omega arith) in
    let small : n / 2 ^ m < 2 ^ width =
      quotient_low (2 ^ m) (2 ^ width) n
        (omega (arith, mul-le-mul_right (2 ^ width) (pow_pos m))) in
    omega (
      arith,
      or_low_part width 0 n n (n / 2 ^ m) (omega arith) lt small,
      le-bit_or n (n / 2 ^ m),
      pow_pos (width - (m + m)),
    )

smear-TopOnes : (width m n : ℕ) → TopOnes width m n → TopOnes width (m + m) (smear m n)
smear-TopOnes width m n h = elim (dec_lt m width) [
  | yes p ↦ smear_below width m n p h
  | no p ↦ smear_full width m n (omega arith) h
]

smear_all-ones : (width n : ℕ) → width ≤ 64 → TopOnes width 1 n → smear_all n + 1 ≡ 2 ^ width
unfolding smear_all
smear_all-ones width n h ones =
    let last = smear-TopOnes width 32 _ (
      smear-TopOnes width 16 _ (
        smear-TopOnes width 8 _
          (smear-TopOnes width 4 _ (smear-TopOnes width 2 _ (smear-TopOnes width 1 n ones))))) in
    let one : 2 ^ (width - 64) ≡ 1 = ap (λ (t : ℕ). 2 ^ t) {y = 0} (omega arith) in omega arith

smear_all_nought : smear_all 0 ≡ 0
unfolding smear_all
smear_all_nought = refl

-- For every request that an `int` can hold, the capacity is a power of two, the request fits in it,
-- and no smaller power of two would do.
pub next_power_of_two_lem :
    (n : ℕ)
    → n ≤ 2 ^ 63
    → (k : ℕ) × (next_power_of_two n ≡ 2 ^ k)
      × (k ≤ 63)
      × (n ≤ 2 ^ k)
      × ((j : ℕ) → n ≤ 2 ^ j → 2 ^ k ≤ 2 ^ j)
unfolding next_power_of_two
next_power_of_two_lem zero h = (0, refl, omega arith, omega arith, λ j _. pow_pos j)
next_power_of_two_lem (suc zero) h =
    (0, ground (arith, smear_all_nought), omega arith, omega arith, λ j _. pow_pos j)
next_power_of_two_lem (suc (suc m)) h =
    let (w, low, high) = binary_width (suc m) (omega arith) in
    let w_small : w < 63 = lt_of_pow_lt w 63 (omega arith) in
    let fits : 2 ^ suc w ≤ 2 ^ 63 = pow_le {i = suc w} {j = 63} w_small in
    let top : 2 ^ (suc w - 1) ≡ 2 ^ w = ap (λ (t : ℕ). 2 ^ t) (omega arith) in
    let ones = smear_all-ones (suc w) (suc m) (omega arith) (high, omega (arith, pow-suc 2 w)) in
    (
      suc w,
      ground arith,
      omega arith,
      omega arith,
      λ j fit. pow_le {i = suc w} {j = j} (lt_of_pow_lt w j (omega arith)),
    )
