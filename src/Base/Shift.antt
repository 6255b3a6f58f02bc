-- ===== src/Base/Shift.antt =====
-- Shifts and differences of integers. A right shift rounds toward minus infinity, as Go's does.
use native.Mathlib.Nat.{mul-le-mul_left, div-add-mod, mod-lt, mul_assoc, zero-div}
use stats.Base.{ℕ, suc, ◌+◌, ◌-◌, ◌*◌, ◌/◌, ◌%◌, ◌^◌, ◌≤◌, ◌<◌, ◌≡◌, sym, ap, ◌∙◌, arith, dec_lt}
use stats.Base.Int.{
  ℤ, pos, negsuc, pos_part, neg_part, ◌+ℤ◌, ◌-ℤ◌, ◌≤ℤ◌, +ℤ_parts, +ℤ_assoc, eq_of_parts, int_laws,
}
use stats.Base.Powers.{pow_pos, pow-add, quotient_low}

infixl 75 ◌>>ℤ◌ ◌<<ℤ◌
unfoldable pub ◌>>ℤ◌ : ℤ → ℕ → ℤ
pos n >>ℤ k = pos (n / 2 ^ k)
negsuc n >>ℤ k = negsuc (n / 2 ^ k)

unfoldable pub ◌<<ℤ◌ : ℤ → ℕ → ℤ
pos n <<ℤ k = pos (n * 2 ^ k)
negsuc n <<ℤ k = negsuc (suc n * 2 ^ k - 1)

-- `a - b` where that is a length; 0 where it would be negative.
abbrev pub diff : ℤ → ℤ → ℕ
diff a b = pos_part a + neg_part b - (pos_part b + neg_part a)

pub div_mono : (a b p : ℕ) → 0 < p → a ≤ b → a / p ≤ b / p
div_mono a b p h le = elim (dec_lt (b / p) (a / p)) [
  | yes q ↦
      absurd (omega (arith, mul-le-mul_left p q, div-add-mod a p, div-add-mod b p, mod-lt b h))
  | no q ↦ omega arith
]

pub >>ℤ_mono : (a b : ℤ) (k : ℕ) → a ≤ℤ b → a >>ℤ k ≤ℤ b >>ℤ k
unfolding ◌>>ℤ◌
>>ℤ_mono (pos m) (pos n) k h = omega (arith, div_mono m n (2 ^ k) (pow_pos k) (omega arith))
>>ℤ_mono (pos m) (negsuc n) k h = absurd (omega arith)
>>ℤ_mono (negsuc m) (pos n) k h = omega arith
>>ℤ_mono (negsuc m) (negsuc n) k h = omega (arith, div_mono n m (2 ^ k) (pow_pos k) (omega arith))

pub div_unique : (n p q : ℕ) → p * q ≤ n → n < p * q + p → n / p ≡ q
div_unique n p q low high =
    let upper : n / p < suc q = quotient_low p (suc q) n (omega arith) in
    elim (dec_lt (n / p) q) [
      | yes h ↦
          absurd
            (omega (arith, mul-le-mul_left p h, div-add-mod n p, mod-lt n {m = p} (omega arith)))
      | no h ↦ omega arith
    ]

pub div-div : (n p q : ℕ) → 0 < p → 0 < q → n / p / q ≡ n / (p * q)
div-div n p q hp hq =
    let m = n / p in
    let up : suc m ≤ q * (m / q) + q = omega (arith, div-add-mod m q, mod-lt m hq) in
    let down : q * (m / q) ≤ m = omega (arith, div-add-mod m q) in
    sym (
      div_unique n (p * q) (m / q)
        (omega (arith, mul-le-mul_left p down, div-add-mod n p, mul_assoc p q (m / q)))
        (omega (arith, mul-le-mul_left p up, div-add-mod n p, mod-lt n hp, mul_assoc p q (m / q))))

-- Two shifts are one.
pub >>ℤ_>>ℤ : (a : ℤ) (j k : ℕ) → a >>ℤ j >>ℤ k ≡ a >>ℤ (j + k)
unfolding ◌>>ℤ◌
>>ℤ_>>ℤ (pos n) j k = ap pos (rw (pow-add j k) (div-div n (2 ^ j) (2 ^ k) (pow_pos j) (pow_pos k)))
>>ℤ_>>ℤ (negsuc n) j k =
    ap negsuc (rw (pow-add j k) (div-div n (2 ^ j) (2 ^ k) (pow_pos j) (pow_pos k)))

-- Shifting left and then back gives the integer again, also with low bits added.
pub <<ℤ_>>ℤ : (a : ℤ) (k r : ℕ) → r < 2 ^ k → (a <<ℤ k +ℤ pos r) >>ℤ k ≡ a
unfolding ◌>>ℤ◌ ◌<<ℤ◌ ◌+ℤ◌
<<ℤ_>>ℤ (pos n) k r h =
    ground (arith, div_unique (n * 2 ^ k + r) (2 ^ k) n (omega arith) (omega arith))
<<ℤ_>>ℤ (negsuc n) k r h =
    ground (arith, div_unique (suc n * 2 ^ k - 1 - r) (2 ^ k) n (omega arith) (omega arith))

-- The parts of a left shift, and its laws.
pub <<ℤ_parts :
    (a : ℤ) (k : ℕ)
    → (pos_part (a <<ℤ k) ≡ pos_part a * 2 ^ k) × (neg_part (a <<ℤ k) ≡ neg_part a * 2 ^ k)
unfolding ◌<<ℤ◌
<<ℤ_parts (pos n) k = omega arith
<<ℤ_parts (negsuc n) k = omega (arith, pow_pos k)

pub <<ℤ-+ℤ : (a b : ℤ) (k : ℕ) → (a +ℤ b) <<ℤ k ≡ a <<ℤ k +ℤ b <<ℤ k
<<ℤ-+ℤ a b k = eq_of_parts _ _ (
    omega (
      arith,
      <<ℤ_parts (a +ℤ b) k,
      <<ℤ_parts a k,
      <<ℤ_parts b k,
      +ℤ_parts (a <<ℤ k) (b <<ℤ k),
      ap (λ (t : ℕ). t * 2 ^ k) (+ℤ_parts a b),
    ))

pub <<ℤ_<<ℤ : (a : ℤ) (j k : ℕ) → a <<ℤ j <<ℤ k ≡ a <<ℤ (j + k)
<<ℤ_<<ℤ a j k = eq_of_parts _ _ (
    omega (
      arith,
      <<ℤ_parts (a <<ℤ j) k,
      <<ℤ_parts a j,
      <<ℤ_parts a (j + k),
      ap (λ (t : ℕ). pos_part a * t) (pow-add j k),
      ap (λ (t : ℕ). neg_part a * t) (pow-add j k),
      ap (λ (t : ℕ). t * 2 ^ k) (<<ℤ_parts a j).0,
      ap (λ (t : ℕ). t * 2 ^ k) (<<ℤ_parts a j).1,
    ))

-- Every integer is its right shift, shifted back, and low bits.
pub >>ℤ_split : (x : ℤ) (k : ℕ) → (r : ℕ) × (r < 2 ^ k) × (x ≡ (x >>ℤ k) <<ℤ k +ℤ pos r)
unfolding ◌>>ℤ◌
>>ℤ_split (pos n) k = (
  n % 2 ^ k,
  mod-lt n (pow_pos k),
  eq_of_parts _ _ (
      omega (
        arith,
        +ℤ_parts (pos (n / 2 ^ k) <<ℤ k) (pos (n % 2 ^ k)),
        <<ℤ_parts (pos (n / 2 ^ k)) k,
        div-add-mod n (2 ^ k),
      )),
)
>>ℤ_split (negsuc n) k = (
  2 ^ k - 1 - n % 2 ^ k,
  omega (arith, pow_pos k),
  eq_of_parts _ _ (
      omega (
        arith,
        +ℤ_parts (negsuc (n / 2 ^ k) <<ℤ k) (pos (2 ^ k - 1 - n % 2 ^ k)),
        <<ℤ_parts (negsuc (n / 2 ^ k)) k,
        div-add-mod n (2 ^ k),
        mod-lt n (pow_pos k),
      )),
)

-- What was shifted left passes a right shift by.
pub >>ℤ-+ℤ : (a x : ℤ) (k : ℕ) → (a <<ℤ k +ℤ x) >>ℤ k ≡ a +ℤ x >>ℤ k
>>ℤ-+ℤ a x k =
    let (r, small, split) = >>ℤ_split x k in
    let whole : a <<ℤ k +ℤ x ≡ (a +ℤ x >>ℤ k) <<ℤ k +ℤ pos r =
      rw (<<ℤ-+ℤ a (x >>ℤ k) k) (ap (λ t. a <<ℤ k +ℤ t) split ∙ sym (+ℤ_assoc _ _ _)) in
    rw whole (<<ℤ_>>ℤ (a +ℤ x >>ℤ k) k r small)

-- The number just below a shifted one.
pub >>ℤ_one_less : (a : ℤ) (k : ℕ) → (a <<ℤ k -ℤ pos 1) >>ℤ k ≡ a -ℤ pos 1
unfolding ◌>>ℤ◌
>>ℤ_one_less a k =
    let shifted : a <<ℤ k -ℤ pos 1 ≡ a <<ℤ k +ℤ negsuc 0 = omega int_laws in
    rw (shifted, >>ℤ-+ℤ a (negsuc 0) k) (rw zero-div (omega int_laws))
