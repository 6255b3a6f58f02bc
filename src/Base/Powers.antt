-- ===== src/Base/Powers.antt =====
-- Powers of two at variable exponents.
use mathlib.Core.WellFounded
use native.Mathlib.Nat.{
  add-zero, add-suc, pow-suc, one-le-pow, pow-le-pow_right, mul-le-mul_left, mul_assoc, div-add-mod,
  mod-lt,
}
use stats.Base.{ℕ, zero, suc, ◌+◌, ◌*◌, ◌/◌, ◌^◌, ◌≤◌, ◌<◌, ◌≡◌, ap, arith, dec_lt}
use stats.Base.Order.{lt_wf}

pub pow-add : (m n : ℕ) → 2 ^ (m + n) ≡ 2 ^ m * 2 ^ n
pow-add m zero = omega (arith, ap (λ (t : ℕ). 2 ^ t) (add-zero m))
pow-add m (suc n) =
    rw (add-suc, pow-suc 2 (m + n), pow-suc 2 n, pow-add m n) (mul_assoc (2 ^ m) (2 ^ n) 2)

pub pow_le : {i j : ℕ} → i ≤ j → 2 ^ i ≤ 2 ^ j
pow_le h = pow-le-pow_right (omega arith) h

pub pow_pos : (k : ℕ) → 0 < 2 ^ k
pow_pos k = one-le-pow k 2 (omega arith)

-- Powers are ordered as their exponents.
pub lt_of_pow_lt : (i j : ℕ) → 2 ^ i < 2 ^ j → i < j
lt_of_pow_lt i j h = elim (dec_lt i j) [
  | yes p ↦ p
  | no p ↦ absurd (omega (arith, pow_le {i = j} {j = i} (omega arith)))
]

pub quotient_high : (p d e n : ℕ) → 0 < p → p * d ≤ n + d → d ≤ p * e → d ≤ n / p + e
quotient_high p d e n h k l = elim (dec_lt (n / p + e) d) [
  | yes q ↦ absurd (omega (arith, mul-le-mul_left p q, div-add-mod n p, mod-lt n h))
  | no q ↦ omega arith
]

pub quotient_low : (p d n : ℕ) → n < p * d → n / p < d
quotient_low p d n h = elim (dec_lt (n / p) d) [
  | yes q ↦ q
  | no q ↦
      absurd (omega (arith, mul-le-mul_left {m = d} {n = n / p} p (omega arith), div-add-mod n p))
]

-- The binary width of a positive number, less one.
abbrev HasWidth : ℕ → Type 0
HasWidth n = 0 < n → (w : ℕ) × (2 ^ w ≤ n) × (n < 2 ^ suc w)

pub binary_width : (n : ℕ) → HasWidth n
binary_width n = WellFounded.induction lt_wf {C = HasWidth} n step
  where
    step : (k : ℕ) → ((m : ℕ) → m < k → HasWidth m) → HasWidth k
    step k ih pos = elim (dec_lt k 2) [
      | yes small ↦ (0, omega arith, omega arith)
      | no large ↦
          let (w, low, high) = ih (k / 2) (omega arith) (omega arith) in
          (suc w, omega (arith, pow-suc 2 w), omega (arith, pow-suc 2 w, pow-suc 2 (suc w)))
    ]
