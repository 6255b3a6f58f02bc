-- ===== src/Expo/Tests.antt =====
-- Fixed-point numbers in the place of a `float64`, and the theorems at them.
use stats.Base.{
  ℕ, zero, suc, ◌+◌, ◌-◌, ◌*◌, ◌%◌, ◌/◌, ◌^◌, ◌≡◌, refl, sym, ap, ◌∙◌, ◌&&◌, ◌==◌, arith, Bool,
  false, [], ◌∷◌, if◌then◌else◌,
}
use stats.Base.Int.{ℤ, pos, negsuc, ◌+ℤ◌, ◌-ℤ◌, ◌≤ℤ◌, ltb_ℤ}
use stats.Base.Word.{word}
use stats.Base.Shift.{◌>>ℤ◌, ◌<<ℤ◌, diff, >>ℤ_one_less, >>ℤ_>>ℤ, <<ℤ_<<ℤ}
use stats.Base.Float.{Float64}
use stats.Expo.{
  ExpoBuckets, ExpoHistogram, Side, positive, negative, range, add, downscale, new, add_count,
  expo_index, record_value,
}
use stats.Expo.Merging.{merge_expo}
use stats.Expo.Points.{snapshot, from_point}
use stats.Expo.Index.{LogIsExact, expo_index_coarsen}
use stats.Expo.Tally.{tally}
use stats.Expo.Recording.{coarser}
use stats.Expo.Points.RoundTrip.{from_point-snapshot}
use stats.Expo.Totals.{IsValid, record_all, recorded}
use stats.Expo.Merging.Sums.{merge_expo_lem}

-- The number of binary digits.
abbrev digits : ℕ → ℕ → ℕ
digits zero n = 0
digits (suc fuel) n = if n == 0 then 0 else suc (digits fuel (n / 2))

abbrev frexp_ℕ : ℕ → ℕ × ℤ
frexp_ℕ n = let e = digits 53 n in (n * 2 ^ (53 - e), pos e)

abbrev frexp_ℤ : ℤ → ℕ × ℤ
frexp_ℤ (pos n) = frexp_ℕ n
frexp_ℤ (negsuc n) = frexp_ℕ (suc n)

-- -1/2 for the logarithm of every fraction: its ceiling at scale 0 is 0, at scale s + 1 it is -2^s.
abbrev half_log : ℕ → ℕ → ℤ
half_log m zero = pos 0
half_log m (suc s) = negsuc 0 <<ℤ s

abbrev whole_numbers : Float64 ℤ
whole_numbers = record {
  nought = pos 0;
  add = ◌+ℤ◌;
  neg = λ a. pos 0 -ℤ a;
  lt = ltb_ℤ;
  is_nan = λ a. false;
  is_inf = λ a. false;
  frexp = frexp_ℤ;
  log2_ceil = half_log;
}

two_halved : (negsuc 0 -ℤ pos 1) >>ℤ 1 ≡ negsuc 0
unfolding ◌-ℤ◌ ◌>>ℤ◌
two_halved = refl

after_half : (k : ℕ) → (negsuc 0 <<ℤ k -ℤ pos 1) >>ℤ suc k ≡ negsuc 0
after_half k =
    ap (λ (t : ℕ). (negsuc 0 <<ℤ k -ℤ pos 1) >>ℤ t) {y = k + 1} (omega arith)
    ∙ sym (>>ℤ_>>ℤ (negsuc 0 <<ℤ k -ℤ pos 1) k 1)
    ∙ rw (>>ℤ_one_less (negsuc 0) k) two_halved

after_shift : (s k : ℕ) → (negsuc 0 <<ℤ (s + k) -ℤ pos 1) >>ℤ k ≡ negsuc 0 <<ℤ s -ℤ pos 1
after_shift s k = rw (← <<ℤ_<<ℤ (negsuc 0) s k) (>>ℤ_one_less (negsuc 0 <<ℤ s) k)

half_log-LogIsExact : LogIsExact whole_numbers
unfolding ◌>>ℤ◌ ◌-ℤ◌ ◌<<ℤ◌
half_log-LogIsExact m zero zero = refl
half_log-LogIsExact m zero (suc k) =
    ap (λ (t : ℕ). (half_log m t -ℤ pos 1) >>ℤ suc k) {y = suc k} (omega arith) ∙ after_half k
half_log-LogIsExact m (suc s) k =
    ap (λ (t : ℕ). (half_log m t -ℤ pos 1) >>ℤ k) {y = suc (s + k)} (omega arith) ∙ after_shift s k

-- 3 = 0.75 * 2^2.
index_test : expo_index whole_numbers (pos 3) (pos 3) ≡ pos 11
unfolding expo_index stats.Expo.index_at stats.Expo.fine_index ◌-ℤ◌ ◌<<ℤ◌ ◌+ℤ◌
index_test = refl

expo_index_coarsen_example :
    expo_index whole_numbers (pos 3) (pos 3) >>ℤ 2 ≡ expo_index whole_numbers (pos 3) (pos 1)
unfolding ◌-ℤ◌
expo_index_coarsen_example = expo_index_coarsen whole_numbers (pos 3) (pos 3) 2 half_log-LogIsExact

abbrev three_buckets : ExpoBuckets
three_buckets = record { offset = negsuc 0; counts = 4 ∷ 0 ∷ 5 ∷ [] }

abbrev is_one : ℤ → Bool
is_one i = ltb_ℤ (pos 0) i && ltb_ℤ i (pos 2)

abbrev is_nought : ℤ → Bool
is_nought i = ltb_ℤ (negsuc 0) i && ltb_ℤ i (pos 1)

downscale_test : downscale 1 three_buckets ≡ record { offset = negsuc 0; counts = 4 ∷ 5 ∷ [] }
unfolding downscale stats.Expo.regroup ◌>>ℤ◌ ◌+ℤ◌
downscale_test = refl

abbrev small : ExpoHistogram ℤ
small = record {
  max_size = 3;
  scale = pos 2;
  count = 9;
  zero_count = 0;
  sum = pos 9;
  least = pos 1;
  greatest = pos 2;
  above = three_buckets;
  below = record { offset = pos 0; counts = [] };
}

recorded_example :
    let h =
      record_all whole_numbers
        (new whole_numbers 4 (pos 20))
        (pos 1 ∷ pos 3 ∷ pos 0 ∷ negsuc 4 ∷ pos 100 ∷ []) in
    IsValid h × (h.count % word ≡ 5)
recorded_example =
    recorded whole_numbers 4 (pos 20) (pos 1 ∷ pos 3 ∷ pos 0 ∷ negsuc 4 ∷ pos 100 ∷ [])

abbrev coarse : ExpoHistogram ℤ
coarse = record small { max_size = 2; scale = pos 1; count = 9 }

merge_expo_example :
    let m = merge_expo whole_numbers small coarse in
    (m.scale ≤ℤ pos 2)
    × (m.scale ≤ℤ pos 1)
    × ((side : Side) (P : ℤ → Bool)
        → tally P (range m side) % word
          ≡ (tally (coarser (diff (pos 2) m.scale) P) (range small side)
              + tally (coarser (diff (pos 1) m.scale) P) (range coarse side))
            % word)
    × (m.count ≡ 18)
merge_expo_example = merge_expo_lem whole_numbers small coarse (omega arith) (omega arith)

from_point-snapshot_example :
    let h' = from_point whole_numbers (snapshot small) 2 in
    (h'.scale ≤ℤ pos 2)
    × ((P : ℤ → Bool)
        → tally P h'.above % word ≡ tally (coarser (diff (pos 2) h'.scale) P) three_buckets % word)
    × ((P : ℤ → Bool) → tally P h'.below % word ≡ 0)
    × (h'.count ≡ 9)
    × (h'.zero_count ≡ 0)
from_point-snapshot_example =
    from_point-snapshot whole_numbers small 2 (omega arith) (omega arith) (omega arith, omega arith)
      (omega arith, omega arith)
