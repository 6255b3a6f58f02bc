-- ===== src/Expo/Index.antt =====
-- `expoIndex`: mapping a value and then lowering the scale is mapping it at the lower scale.
use stats.Base.{
  ℕ, zero, suc, ◌+◌, ◌-◌, ◌^◌, ◌<◌, ◌≡◌, refl, sym, ap, ◌∙◌, ◌⊎◌, inl, inr, Bool-cases, arith, ◌==◌,
  dec_lt,
}
use stats.Base.Int.{ℤ, pos, negsuc, pos_part, neg_part, ◌+ℤ◌, ◌-ℤ◌, -ℤ_parts, eq_of_parts, int_laws}
use stats.Base.Shift.{◌>>ℤ◌, ◌<<ℤ◌, >>ℤ_mono, >>ℤ_>>ℤ, <<ℤ_>>ℤ, <<ℤ_<<ℤ, >>ℤ-+ℤ, >>ℤ_one_less}
use stats.Base.Powers.{pow_pos}
use stats.Base.Float.{Float64}
use stats.Expo.{min_ℤ, max_ℤ, coarse_index, fine_index, index_at, expo_index}

-- `int(math.Ceil(math.Ldexp(math.Log2(frac), s)))`: `Ldexp` is exact, so the ceiling at a finer scale
-- determines the one at a coarser scale.
abbrev pub LogIsExact : {F : Type 0} → Float64 F → Type 0
LogIsExact f = (m s k : ℕ) → (f.log2_ceil m (s + k) -ℤ pos 1) >>ℤ k ≡ f.log2_ceil m s -ℤ pos 1

-- A shift keeps the order, so it passes through the two clamps.
pub min->>ℤ : (a b : ℤ) (k : ℕ) → min_ℤ a b >>ℤ k ≡ min_ℤ (a >>ℤ k) (b >>ℤ k)
min->>ℤ a b k = ground (arith, >>ℤ_mono a b k, >>ℤ_mono b a k, eq_of_parts (a >>ℤ k) (b >>ℤ k))

pub max->>ℤ : (a b : ℤ) (k : ℕ) → max_ℤ a b >>ℤ k ≡ max_ℤ (a >>ℤ k) (b >>ℤ k)
max->>ℤ a b k = ground (arith, >>ℤ_mono a b k, >>ℤ_mono b a k, eq_of_parts (a >>ℤ k) (b >>ℤ k))

clamp_point : (a c : ℤ) → min_ℤ (max_ℤ a c) c ≡ c
clamp_point a c = ground (arith, eq_of_parts a c)

unshift : (a : ℤ) (k : ℕ) → a <<ℤ k >>ℤ k ≡ a
unshift a k =
    let plain : a <<ℤ k ≡ a <<ℤ k +ℤ pos 0 = omega int_laws in rw plain (<<ℤ_>>ℤ a k 0 (pow_pos k))

module _ {F : Type 0} (f : Float64 F) where
  fine_middle :
      (a : ℤ) (m s k : ℕ)
      → LogIsExact f
      → (a <<ℤ k +ℤ f.log2_ceil m (s + k) -ℤ pos 1) >>ℤ k ≡ a +ℤ f.log2_ceil m s -ℤ pos 1
  fine_middle a m s k exact =
      let bracket : a <<ℤ k +ℤ f.log2_ceil m (s + k) -ℤ pos 1
          ≡ a <<ℤ k +ℤ (f.log2_ceil m (s + k) -ℤ pos 1) =
        omega int_laws in
      rw (bracket, >>ℤ-+ℤ, exact m s k) (omega int_laws)

  fine-fine :
      (m : ℕ) (exp : ℤ) (s k : ℕ)
      → LogIsExact f
      → fine_index f.log2_ceil m exp (s + k) >>ℤ k ≡ fine_index f.log2_ceil m exp s
  unfolding fine_index
  fine-fine m exp s k exact =
      let low = exp -ℤ pos 1 in
      elim (Bool-cases (m == 2 ^ 52)) [
        | inl power ↦ rw (power, ← <<ℤ_<<ℤ low s k) (>>ℤ_one_less (low <<ℤ s) k)
        | inr other ↦
            rw
              (
                other,
                min->>ℤ,
                max->>ℤ,
                ← <<ℤ_<<ℤ low s k,
                ← <<ℤ_<<ℤ exp s k,
                fine_middle (exp <<ℤ s) m s k exact,
                unshift (low <<ℤ s) k,
                >>ℤ_one_less (exp <<ℤ s) k,
              )
              refl
      ]

  fine-coarse :
      (m : ℕ) (exp : ℤ) (s : ℕ) → fine_index f.log2_ceil m exp s >>ℤ s ≡ coarse_index m exp
  unfolding fine_index coarse_index
  fine-coarse m exp s = elim (Bool-cases (m == 2 ^ 52)) [
    | inl power ↦ rw power (>>ℤ_one_less (exp -ℤ pos 1) s)
    | inr other ↦
        rw (other, min->>ℤ, max->>ℤ, unshift, >>ℤ_one_less)
          (clamp_point ((exp <<ℤ s +ℤ f.log2_ceil m s -ℤ pos 1) >>ℤ s) (exp -ℤ pos 1))
  ]

  index_nonpos :
      (m : ℕ) (exp scale : ℤ)
      → pos_part scale ≡ 0
      → index_at f.log2_ceil m exp scale ≡ coarse_index m exp >>ℤ neg_part scale
  unfolding index_at
  index_nonpos m exp (pos n) h = ground arith
  index_nonpos m exp (negsuc n) h = ground arith

  index_pos :
      (m : ℕ) (exp : ℤ) (s : ℕ)
      → 0 < s
      → index_at f.log2_ceil m exp (pos s) ≡ fine_index f.log2_ceil m exp s
  unfolding index_at
  index_pos m exp s h = ground arith

  -- Down to a scale that is still positive.
  stays_fine :
      (m : ℕ) (exp : ℤ) (d k : ℕ)
      → LogIsExact f
      → 0 < d
      → index_at f.log2_ceil m exp (pos (d + k)) >>ℤ k ≡ index_at f.log2_ceil m exp (pos d)
  stays_fine m exp d k exact lt =
      rw (index_pos m exp d lt, index_pos m exp (d + k) (omega arith)) (fine-fine m exp d k exact)

  -- From a positive scale down to one that is not positive.
  gets_coarse :
      (m : ℕ) (exp : ℤ) (s d : ℕ)
      → 0 < s
      → index_at f.log2_ceil m exp (pos s) >>ℤ (s + d) ≡ coarse_index m exp >>ℤ d
  gets_coarse m exp s d h =
      rw (index_pos m exp s h, ← >>ℤ_>>ℤ (fine_index f.log2_ceil m exp s) s d)
        (ap (λ (t : ℤ). t >>ℤ d) (fine-coarse m exp s))

  one_part : (a : ℤ) → (pos_part a ≡ 0) ⊎ (neg_part a ≡ 0)
  one_part (pos n) = inr refl
  one_part (negsuc n) = inl refl

  stays_coarse :
      (m : ℕ) (exp scale : ℤ) (k : ℕ)
      → pos_part scale ≡ 0
      → index_at f.log2_ceil m exp scale >>ℤ k ≡ index_at f.log2_ceil m exp (scale -ℤ pos k)
  stays_coarse m exp scale k h =
      let target : neg_part scale + k ≡ neg_part (scale -ℤ pos k) =
        omega (arith, -ℤ_parts scale (pos k), one_part (scale -ℤ pos k)) in
      rw
        (
          index_nonpos m exp scale h,
          index_nonpos m exp (scale -ℤ pos k)
              (omega (arith, -ℤ_parts scale (pos k), one_part (scale -ℤ pos k))),
          >>ℤ_>>ℤ (coarse_index m exp) (neg_part scale) k,
        )
        (ap (λ (t : ℕ). coarse_index m exp >>ℤ t) target)

  coarsens :
      (m : ℕ) (exp : ℤ) (s k : ℕ)
      → LogIsExact f
      → 0 < s
      → index_at f.log2_ceil m exp (pos s) >>ℤ k ≡ index_at f.log2_ceil m exp (pos s -ℤ pos k)
  coarsens m exp s k exact h = elim (dec_lt k s) [
    | yes lt ↦
        let target : pos s -ℤ pos k ≡ pos (s - k) = omega int_laws in
        let start : s ≡ s - k + k = omega arith in
        ap (λ (t : ℕ). index_at f.log2_ceil m exp (pos t) >>ℤ k) start
        ∙ stays_fine m exp (s - k) k exact (omega arith)
        ∙ ap (index_at f.log2_ceil m exp) (sym target)
    | no ge ↦
        let down : k ≡ s + (k - s) = omega arith in
        let target : neg_part (pos s -ℤ pos k) ≡ k - s =
          omega (arith, -ℤ_parts (pos s) (pos k), one_part (pos s -ℤ pos k)) in
        ap (λ (t : ℕ). index_at f.log2_ceil m exp (pos s) >>ℤ t) down
        ∙ gets_coarse m exp s (k - s) h
        ∙ ap (λ (t : ℕ). coarse_index m exp >>ℤ t) (sym target)
        ∙ sym (
            index_nonpos m exp (pos s -ℤ pos k)
              (omega (arith, -ℤ_parts (pos s) (pos k), one_part (pos s -ℤ pos k))))
  ]

  -- The bucket of a value at a scale, shifted down by `k`, is its bucket at the scale that is lower
  -- by `k`. So `downscale` moves a count to where its value would be mapped now.
  pub expo_index_coarsen :
      (v : F) (scale : ℤ) (k : ℕ)
      → LogIsExact f
      → expo_index f v scale >>ℤ k ≡ expo_index f v (scale -ℤ pos k)
  unfolding expo_index
  expo_index_coarsen v (pos zero) k exact =
      let (m, exp) = f.frexp v in stays_coarse m exp (pos 0) k refl
  expo_index_coarsen v (pos (suc s)) k exact =
      let (m, exp) = f.frexp v in coarsens m exp (suc s) k exact (omega arith)
  expo_index_coarsen v (negsuc n) k exact =
      let (m, exp) = f.frexp v in stays_coarse m exp (negsuc n) k refl
