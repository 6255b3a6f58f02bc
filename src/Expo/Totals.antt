-- ===== src/Expo/Totals.antt =====
-- `record` of `expoHistogram`, value after value.
use stats.Base.{
  ℕ, ◌+◌, ◌%◌, ◌≡◌, refl, inl, inr, Bool, Bool-cases, not, ◌||◌, List, [], ◌∷◌, arith,
  if◌then◌else◌,
}
use stats.Base.Int.{ℤ}
use stats.Base.Word.{word, add64}
use stats.Base.Float.{Float64}
use stats.Expo.{
  ExpoHistogram, Side, positive, negative, add_count, count_in, expo_index, record_value, new,
}
use stats.Expo.Recording.{IsSized, Fits, tallied, add_count-IsSized, add_count-tallied, both_sides}

-- The buckets and zeros hold as many values as `count` says, modulo 2^64.
pub record IsValid {F : Type 0} (h : ExpoHistogram F) : Type 0 where
  pub sized : IsSized h
  pub whole : h.count % word ≡ tallied h % word

module _ {F : Type 0} (f : Float64 F) where
  abbrev pub is_finite : F → Bool
  is_finite v = not (f.is_nan v || f.is_inf v)

  new-IsValid :
      (max_size : ℕ) (max_scale : ℤ)
      → IsValid (new f max_size max_scale) × ((new f max_size max_scale).count ≡ 0)
  unfolding new
  new-IsValid max_size max_scale =
      let none =
        both_sides (Fits (new f max_size max_scale)) positive (inl (omega arith))
          (inl (omega arith)) in
      (
        record {
          sized = record { wide = omega arith; low = ground arith; fits = none };
          whole = refl;
        },
        refl,
      )

  count_in-IsSized : (h : ExpoHistogram F) (v : F) → IsSized h → IsSized (count_in f h v)
  unfolding count_in
  count_in-IsSized h v s = record {
    wide = s.wide;
    low = s.low;
    fits = both_sides (Fits (count_in f h v)) positive (s.fits positive) (s.fits negative);
  }

  bucketed :
      (h : ExpoHistogram F) (v : F) (side : Side) (index : ℤ)
      → IsValid h
      → let h' = add_count (count_in f h v) side index 1 in
        IsValid h' × (h'.count ≡ add64 h.count 1)
  unfolding count_in
  bucketed h v side index s =
      let h' = count_in f h v in
      let (sum, count) = add_count-tallied h' side index 1 (omega arith) in
      (
        record {
          sized = add_count-IsSized h' side index 1 (omega arith) (count_in-IsSized h v s.sized);
          whole = omega (arith, sum, count, s.whole);
        },
        count,
      )

  zeroed :
      (h : ExpoHistogram F) (v : F)
      → IsValid h
      → let h' = record (count_in f h v) { zero_count = add64 (count_in f h v).zero_count 1 } in
        IsValid h' × (h'.count ≡ add64 h.count 1)
  unfolding count_in
  zeroed h v s =
      let h' : ExpoHistogram F = record (count_in f h v) {
        zero_count = add64 (count_in f h v).zero_count 1;
      } in
      (
        record {
          sized = record {
            wide = s.sized.wide;
            low = s.sized.low;
            fits = both_sides (Fits h') positive (s.sized.fits positive) (s.sized.fits negative);
          };
          whole = omega (arith, s.whole);
        },
        refl,
      )

  record_value-IsValid :
      (h : ExpoHistogram F) (v : F)
      → IsValid h
      → let h' = record_value f h v in
        IsValid h' × (h'.count ≡ (if is_finite v then add64 h.count 1 else h.count))
  unfolding record_value
  record_value-IsValid h v s = elim (Bool-cases (f.is_nan v || f.is_inf v)) [
    | inl odd ↦ rw odd (s, refl)
    | inr fine ↦ rw fine (elim (Bool-cases (f.lt f.nought v)) [
      | inl above ↦ rw above (bucketed h v positive (expo_index f v h.scale) s)
      | inr not_above ↦ rw not_above (elim (Bool-cases (f.lt v f.nought)) [
        | inl below ↦ rw below (bucketed h v negative (expo_index f (f.neg v) h.scale) s)
        | inr nought ↦ rw nought (zeroed h v s)
      ])
    ])
  ]

  pub record_all : ExpoHistogram F → List F → ExpoHistogram F
  record_all h [] = h
  record_all h (v ∷ vs) = record_all (record_value f h v) vs

  abbrev pub finite_count : List F → ℕ
  finite_count [] = 0
  finite_count (v ∷ vs) = (if is_finite v then 1 else 0) + finite_count vs

  record_all-IsValid :
      (h : ExpoHistogram F) (vs : List F)
      → IsValid h
      → IsValid (record_all h vs)
        × ((record_all h vs).count % word ≡ (h.count + finite_count vs) % word)
  unfolding record_all
  record_all-IsValid h [] s = (s, omega arith)
  record_all-IsValid h (v ∷ vs) s =
      let (s', step) = record_value-IsValid h v s in
      let (valid, rest) = record_all-IsValid (record_value f h v) vs s' in
      (valid, ground (arith, step, rest))

  -- Whatever values a new histogram records, positive, negative or zero: a range has at most
  -- `max_size` buckets unless the scale is the least one, the scale is in its bounds, and `count`
  -- is the number of finite values and the sum of all buckets and zeros, modulo 2^64.
  pub recorded :
      (max_size : ℕ) (max_scale : ℤ) (vs : List F)
      → let h = record_all (new f max_size max_scale) vs in
        IsValid h × (h.count % word ≡ finite_count vs % word)
  recorded max_size max_scale vs =
      let (start, none) = new-IsValid max_size max_scale in
      let (valid, count) = record_all-IsValid (new f max_size max_scale) vs start in
      (valid, omega (arith, count, none))
