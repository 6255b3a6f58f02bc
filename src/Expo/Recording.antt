-- ===== src/Expo/Recording.antt =====
-- `add` and `record` of `expoHistogram`: what a histogram holds behind them.
use mathlib.Core.Path.{fun_ext}
use stats.Base.{
  ℕ, zero, suc, ◌+◌, ◌-◌, ◌%◌, ◌≤◌, ◌<◌, ◌≡◌, refl, ap, ◌⊎◌, inl, Bool, true, arith, length,
  if◌then◌else◌, ltb, dec_lt,
}
use stats.Base.Int.{ℤ, pos, pos_part, neg_part, ◌-ℤ◌, ◌≤ℤ◌, +ℤ_parts, int_laws}
use stats.Base.Word.{word}
use stats.Base.Shift.{◌>>ℤ◌, diff}
use stats.Expo.{
  ExpoBuckets, ExpoHistogram, Side, positive, negative, expo_min_scale, add, downscale,
  scale_change, rescale, range, add_count, lowest, highest,
}
use stats.Expo.Tally.{tally}
use stats.Expo.Adding.{tally-add, tally-downscale}
use stats.Expo.Width.{
  >>ℤ_zero, span_shift, length-add, length-downscale, length-add-downscale, last_index,
  length-downscale_empty, scale_change_lem, scale_change-empty, length-add_empty,
}

-- The index of a bucket, made coarser by `k`.
abbrev pub coarser : ℕ → (ℤ → Bool) → ℤ → Bool
coarser k P i = P (i >>ℤ k)

pub coarser_zero : (P : ℤ → Bool) → coarser 0 P ≡ P
coarser_zero P = fun_ext (λ i. ap P (>>ℤ_zero i))

-- Making a range coarser, if the change is not 0.
abbrev pub lowered : ℕ → ExpoBuckets → ExpoBuckets
lowered k b = if ltb 0 k then downscale k b else b

tally-lowered :
    (P : ℤ → Bool) (k : ℕ) (b : ExpoBuckets)
    → tally P (lowered k b) % word ≡ tally (coarser k P) b % word
tally-lowered P zero b = rw (coarser_zero P) refl
tally-lowered P (suc k) b = ground (arith, tally-downscale P (suc k) b)

abbrev pub other_side : Side → Side
other_side positive = negative
other_side negative = positive

abbrev pub change_of : {F : Type 0} → ExpoHistogram F → Side → ℤ → ℕ
change_of h side index = scale_change h.max_size h.scale (range h side) index

unchanged : (a : ℤ) (k : ℕ) → k ≡ 0 → a -ℤ pos k ≡ a
unchanged a k e = omega int_laws

module _ {F : Type 0} (h : ExpoHistogram F) (index : ℤ) (count : ℕ) where
  -- The ranges behind `add_count` of a count that is not 0.
  ranges_after :
      (side : Side)
      → 0 < count
      → let k = change_of h side index in
        let h' = add_count h side index count in
        (range h' side
          ≡ add (lowered k (range h side)) (if ltb 0 k then index >>ℤ k else index) count)
        × (range h' (other_side side) ≡ lowered k (range h (other_side side)))
        × (h'.scale ≡ h.scale -ℤ pos k)
        × (h'.max_size ≡ h.max_size)
        × (h'.count ≡ h.count)
        × (h'.zero_count ≡ h.zero_count)
  unfolding add_count rescale
  ranges_after positive c =
      let k = change_of h positive index in ground (arith, unchanged h.scale k)
  ranges_after negative c =
      let k = change_of h negative index in ground (arith, unchanged h.scale k)

  index_after : (k : ℕ) → (if ltb 0 k then index >>ℤ k else index) ≡ index >>ℤ k
  index_after zero = rw (>>ℤ_zero index) refl
  index_after (suc k) = ground arith

  -- Adding a count makes both ranges coarser by the change that `scaleChange` gives, modulo 2^64: on
  -- its side a test tallies behind it what the test of the coarser index tallied before, and the
  -- count if its coarser index satisfies the test; on the other side it is the former alone.
  pub add_count-tally :
      (side : Side) (P : ℤ → Bool)
      → 0 < count
      → let k = change_of h side index in
        let h' = add_count h side index count in
        (tally P (range h' side) % word
          ≡ (tally (coarser k P) (range h side) + (if P (index >>ℤ k) then count else 0)) % word)
        × (tally P (range h' (other_side side)) % word
            ≡ tally (coarser k P) (range h (other_side side)) % word)
        × (h'.scale ≡ h.scale -ℤ pos k)
  add_count-tally side P c =
      let k = change_of h side index in
      let (mine, other, scale, _, _, _) = ranges_after side c in
      let added = tally-add P (lowered k (range h side)) (index >>ℤ k) count in
      let before = tally-lowered P k (range h side) in
      (
        rw (mine, index_after k) (omega (arith, added, before)),
        rw other (tally-lowered P k (range h (other_side side))),
        scale,
      )

-- No range becomes longer by `downscale`.
length-lowered : (k : ℕ) (b : ExpoBuckets) → length (lowered k b).counts ≤ length b.counts
length-lowered zero b = omega arith
length-lowered (suc k) b = elim (dec_lt 0 (length b.counts)) [
  | yes h ↦
      let (_, size, _) = length-downscale (suc k) b.offset b.counts h in
      ground (
        arith,
        size,
        span_shift (suc k) (last_index b.offset b.counts) b.offset,
        +ℤ_parts b.offset (pos (length b.counts - 1)),
      )
  | no h ↦ ground (arith, length-downscale_empty (suc k) b.offset b.counts (omega arith))
]

length-add-lowered :
    (k : ℕ) (b : ExpoBuckets) (index : ℤ) (count : ℕ)
    → 0 < length b.counts
    → length (add (lowered k b) (index >>ℤ k) count).counts
      ≡ diff (highest b index >>ℤ k) (lowest b index >>ℤ k) + 1
length-add-lowered zero b index count h =
    rw (>>ℤ_zero index, >>ℤ_zero (highest b index), >>ℤ_zero (lowest b index))
      (length-add b index count h)
length-add-lowered (suc k) b index count h =
    ground (arith, length-add-downscale (suc k) b index count h)

abbrev pub Fits : {F : Type 0} → ExpoHistogram F → Side → Type 0
Fits h side = (length (range h side).counts ≤ h.max_size) ⊎ (h.scale ≡ expo_min_scale)

-- The change and the length of the range that takes up the index.
settles :
    (max_size : ℕ) (scale : ℤ) (b : ExpoBuckets) (index : ℤ) (count : ℕ)
    → 2 ≤ max_size
    → let k = scale_change max_size scale b index in
      (k ≤ diff scale expo_min_scale)
      × ((length (add (lowered k b) (index >>ℤ k) count).counts ≤ max_size)
          ⊎ (k ≡ diff scale expo_min_scale))
settles max_size scale b index count big = elim (dec_lt 0 (length b.counts)) [
  | yes h ↦
      let k = scale_change max_size scale b index in
      let (le, ends, _) = scale_change_lem max_size scale b.offset b.counts index h in
      (le, omega (arith, ends, length-add-lowered k b index count h))
  | no h ↦
      let none = scale_change-empty max_size scale b.offset b.counts index (omega arith) in
      rw none (
        omega arith,
        inl (omega (arith, length-add_empty b.offset b.counts (index >>ℤ 0) count (omega arith))),
      )
]

-- Between two records: the size is one that `newExpoHistogram` allows, the scale is not below the
-- least one, and a range has more buckets than the size only at the least scale.
pub record IsSized {F : Type 0} (h : ExpoHistogram F) : Type 0 where
  pub wide : 2 ≤ h.max_size
  pub low : expo_min_scale ≤ℤ h.scale
  pub fits : (side : Side) → Fits h side

abbrev pub all : ℤ → Bool
all index = true

-- All counts of the buckets and the count of zeros.
abbrev pub tallied : {F : Type 0} → ExpoHistogram F → ℕ
tallied h = h.zero_count + tally all h.above + tally all h.below

scale_floor :
    (scale : ℤ) (k : ℕ)
    → expo_min_scale ≤ℤ scale
    → k ≤ diff scale expo_min_scale
    → (expo_min_scale ≤ℤ scale -ℤ pos k)
      × (k ≡ diff scale expo_min_scale → scale -ℤ pos k ≡ expo_min_scale)
      × (scale ≡ expo_min_scale → scale -ℤ pos k ≡ expo_min_scale)
scale_floor scale k low le = (
  omega int_laws,
  λ e. omega int_laws,
  λ e. let start = ap pos_part e in let start' = ap neg_part e in omega int_laws,
)

pub both_sides : (P : Side → Type 0) (side : Side) → P side → P (other_side side) → (s : Side) → P s
both_sides P positive mine other positive = mine
both_sides P positive mine other negative = other
both_sides P negative mine other positive = other
both_sides P negative mine other negative = mine

module _ {F : Type 0} where
  pub add_count-IsSized :
      (h : ExpoHistogram F) (side : Side) (index : ℤ) (count : ℕ)
      → 0 < count
      → IsSized h
      → IsSized (add_count h side index count)
  add_count-IsSized h side index count c s =
      let k = change_of h side index in
      let h' = add_count h side index count in
      let (mine, other, scale, size, _, _) = ranges_after h index count side c in
      let (le, ends) = settles h.max_size h.scale (range h side) index count s.wide in
      let shorter = length-lowered k (range h (other_side side)) in
      let (above_least, least, stays) = scale_floor h.scale k s.low le in
      let fit_mine : Fits h' side =
        rw (mine, scale, size, index_after h index count k) (ground (arith, ends, least)) in
      let fit_other : Fits h' (other_side side) =
        rw (other, scale, size) (ground (arith, shorter, stays, s.fits (other_side side))) in
      record {
        wide = rw size s.wide;
        low = rw scale above_least;
        fits = both_sides (Fits h') side fit_mine fit_other;
      }

  pub add_count-tallied :
      (h : ExpoHistogram F) (side : Side) (index : ℤ) (count : ℕ)
      → 0 < count
      → (tallied (add_count h side index count) % word ≡ (tallied h + count) % word)
        × ((add_count h side index count).count ≡ h.count)
  add_count-tallied h positive index count c =
      let (mine, other, _) = add_count-tally h index count positive all c in
      let (_, _, _, _, total, zeros) = ranges_after h index count positive c in
      (omega (arith, mine, other, zeros), total)
  add_count-tallied h negative index count c =
      let (mine, other, _) = add_count-tally h index count negative all c in
      let (_, _, _, _, total, zeros) = ranges_after h index count negative c in
      (omega (arith, mine, other, zeros), total)
