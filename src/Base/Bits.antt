-- ===== src/Base/Bits.antt =====
-- `&` with a low mask and `|`, as arithmetic, at every width.
mod Step
use Step.{bit_or_step, bit_and_step}
use Prim.Native.Nat.{bit_or-bitwise}
use mathlib.Core.WellFounded
use native.Mathlib.Nat.{pow-suc, one-le-pow}
use stats.Base.{
  ℕ, zero, suc, ◌+◌, ◌-◌, ◌*◌, ◌/◌, ◌%◌, ◌^◌, ◌≤◌, ◌<◌, max, bit_and, bit_or, ◌≡◌, refl, ap, arith,
}
use stats.Base.Order.{lt_wf}

-- `x >> k` of an unsigned word.
infixl 75 ◌>>>◌
abbrev pub ◌>>>◌ : ℕ → ℕ → ℕ
x >>> k = x / 2 ^ k

-- A number and one bit operation with 0, from half of the number.
AbsorbsZero : ℕ → Type 0
AbsorbsZero x = (bit_and x 0 ≡ 0) × (bit_or x 0 ≡ x)

with_zero : (x : ℕ) → AbsorbsZero x
unfolding AbsorbsZero
with_zero x = WellFounded.induction lt_wf {C = AbsorbsZero} x halve
  where
    halve : (n : ℕ) → ((m : ℕ) → m < n → AbsorbsZero m) → AbsorbsZero n
    halve zero rec = (refl, refl)
    halve (suc n) rec =
        let (masked, kept) = rec (suc n / 2) (omega arith) in
        (omega (arith, bit_and_step (suc n) 0, masked), omega (arith, bit_or_step (suc n) 0, kept))

bit_or-zero : (x : ℕ) → bit_or x 0 ≡ x
unfolding AbsorbsZero
bit_or-zero x = (with_zero x).1

mask_zero : (x : ℕ) → bit_and x 0 ≡ 0
unfolding AbsorbsZero
mask_zero x = (with_zero x).0

double_power : (q k : ℕ) → q * 2 ^ suc k ≡ 2 * (q * 2 ^ k)
double_power q k = omega (arith, ap (λ (t : ℕ). q * t) (pow-suc 2 k))

-- The mask keeps the low field and clears the high one.
mask_low :
    (width high low : ℕ) → low < 2 ^ width → bit_and (high * 2 ^ width + low) (2 ^ width - 1) ≡ low
mask_low zero high low small = rw mask_zero (omega arith)
mask_low (suc width) high low small =
    let rest = mask_low width high (low / 2) (omega (arith, pow-suc 2 width)) in
    let digit = bit_and_step (high * 2 ^ suc width + low) (2 ^ suc width - 1) in
    ground (arith, digit, rest, double_power high width, pow-suc 2 width, one-le-pow width 2)

-- A mask of `k` low bits is the remainder by `2 ^ k`.
pub bit_and_mask : (k x : ℕ) → bit_and x (2 ^ k - 1) ≡ x % 2 ^ k
bit_and_mask k x =
    let split = mask_low k (x / 2 ^ k) (x % 2 ^ k) in ground (arith, split, one-le-pow k 2)

zero-bit_or : (b : ℕ) → bit_or 0 b ≡ b
zero-bit_or b = bit_or-bitwise 0 b

-- `|` only adds bits.
abbrev Grows : ℕ → Type 0
Grows n = (b : ℕ) → (n ≤ bit_or n b) × (b ≤ bit_or n b)

pub le-bit_or : (a : ℕ) → Grows a
le-bit_or a = WellFounded.induction lt_wf {C = Grows} a step
  where
    step : (n : ℕ) → ((m : ℕ) → m < n → Grows m) → Grows n
    step zero ih b = omega (arith, zero-bit_or b)
    step (suc n) ih b = omega (arith, bit_or_step (suc n) b, ih (suc n / 2) (omega arith) (b / 2))

-- `|` stays within the width of its arguments, and passes a common high part through.
pub bit_or_low :
    (k q a b : ℕ)
    → a < 2 ^ k
    → b < 2 ^ k
    → (bit_or (q * 2 ^ k + a) b ≡ q * 2 ^ k + bit_or a b) × (bit_or a b < 2 ^ k)
bit_or_low zero q zero zero ha hb = omega (arith, bit_or-zero (q * 2 ^ 0 + 0), bit_or-zero 0)
bit_or_low zero q zero (suc b) ha hb = absurd (omega arith)
bit_or_low zero q (suc a) b ha hb = absurd (omega arith)
bit_or_low (suc k) q a b ha hb = ground (
  arith,
  bit_or_step (q * 2 ^ suc k + a) b,
  bit_or_step a b,
  double_power q k,
  pow-suc 2 k,
  bit_or_low k q (a / 2) (b / 2) (omega (arith, pow-suc 2 k)) (omega (arith, pow-suc 2 k)),
)
