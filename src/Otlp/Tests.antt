-- ===== src/Otlp/Tests.antt =====
-- Exports of whole numbers with numbered attribute sets, and the theorems at their points.
use stats.Base.{
  eq→==, ℕ, ◌≡◌, refl, true, false, Bool, Option, none, some, List, [], ◌∷◌, ◌==◌, ◌↔◌,
}
use stats.Base.Int.{pos, ◌+ℤ◌}
use stats.Base.Text.{same}
use stats.Samples.{bytes, naturals}
use stats.Otlp.{
  HistogramTotals, before, spaced, Point, cumulative, sum_data, SeriesMeta, Metrics, Accumulation,
  point_time, add_counts, add_histogram, append_unobserved,
}
use stats.Otlp.Accumulate.{
  key_of, state_of, sum_point, sum_points, add_sum_point, histogram_point, new_accumulation,
  accumulate, accumulate_all, unobserved, repeat_series, times,
}
use stats.Otlp.Kinds.{LacksBuckets, histogram_point-panics}
use stats.Otlp.Times.{point_time_lem}
use stats.Otlp.Totals.{IsOne, sum_points-series}

abbrev hits : SeriesMeta
hits = record { meta_name = bytes "hits"; meta_description = []; meta_unit = [] }

-- An observation at a time.
abbrev point : {X : Type 0} → ℕ → ℕ → X → Point ℕ X
point attributes at x = record {
  point_attributes = attributes;
  start_time = none;
  time = some (pos at);
  content = x;
}

abbrev sent : {X : Type 0} → ℕ → ℕ → ℕ → X → Point ℕ X
sent attributes start at x = record {
  point_attributes = attributes;
  start_time = some (pos start);
  time = some (pos at);
  content = x;
}

abbrev counted : List (Point ℕ ℕ) → Metrics ℕ ℕ
counted points = record { meta = hits; aggregation = sum_data cumulative points }

abbrev two_buckets : HistogramTotals ℕ
two_buckets = record {
  total_count = 1;
  total_sum = 7;
  total_bounds = 5 ∷ [];
  bucket_counts = 0 ∷ 1 ∷ [];
  minimum = some 7;
  maximum = some 7;
}

abbrev sent_of : {X : Type 0} → Option (List (Metrics ℕ ℕ) × X) → List (Metrics ℕ ℕ)
sent_of none = []
sent_of (some (metrics, states)) = metrics

abbrev states_of : {X Y : Type 0} → Option (Y × List X) → List X
states_of none = []
states_of (some (metrics, states)) = states

-- Two observations of one series become a point.
accumulate_test :
    sent_of (
      accumulate naturals ◌==◌ [] true 0
        (some (pos 20))
        (counted (point 1 10 3 ∷ []) ∷ counted (point 1 12 4 ∷ point 2 13 5 ∷ []) ∷ []))
    ≡ counted (sent 1 10 12 7 ∷ sent 2 13 13 5 ∷ []) ∷ []
unfolding accumulate accumulate_all unobserved repeat_series sum_points sum_point add_sum_point
    state_of times point_time append_unobserved same
accumulate_test = refl

-- The next export repeats the series that it did not observe, a millisecond later.
repeat_test :
    sent_of (
      accumulate naturals ◌==◌
        (states_of (
          accumulate naturals ◌==◌ [] true 0
            (some (pos 20))
            (counted (point 1 10 3 ∷ point 2 13 5 ∷ []) ∷ [])))
        true
        0
        (some (pos 30))
        (counted (point 1 10 2 ∷ []) ∷ []))
    ≡ counted (sent 1 10 1000010 5 ∷ sent 2 13 1000013 5 ∷ []) ∷ []
unfolding accumulate accumulate_all unobserved repeat_series sum_points sum_point add_sum_point
    state_of times point_time append_unobserved same ◌+ℤ◌
repeat_test = refl

-- The series of attributes 1 has counted 3 from the time 10 on.
abbrev counting : Bool → Accumulation ℕ ℕ
counting is_cumulative =
    (sum_point naturals ◌==◌ (new_accumulation naturals ◌==◌ [] is_cumulative 0) hits
      (point 1 10 3)).1

-- A cumulative export of a histogram with the name and attributes of a counter.
histogram_point-panics_example :
    (histogram_point naturals ◌==◌ (counting true) hits (point 1 12 two_buckets) ≡ none)
    ↔ LacksBuckets naturals ◌==◌ (counting true) hits (point 1 12 two_buckets)
histogram_point-panics_example =
    histogram_point-panics naturals ◌==◌ (counting true) hits (point 1 12 two_buckets)

mixed_kinds_test :
    histogram_point naturals ◌==◌ (counting true) hits (point 1 12 two_buckets) ≡ none
unfolding histogram_point sum_point state_of times point_time same add_counts add_histogram
mixed_kinds_test = refl

eq_refl : (n : ℕ) → (n == n) ≡ true
eq_refl n = eq→== n n refl

point_time_lem_example :
    let s = (state_of naturals ◌==◌ (counting true) (key_of naturals ◌==◌ hits 1) none).0 in
    let (at, s') = point_time s (some (pos 5)) (some (pos 10)) true in
    (before at (some (pos 5)) ≡ false)
    × (before at s.last_time ≡ false)
    × (before at (spaced (some (pos 10))) ≡ false)
    × (s'.last_time ≡ at)
point_time_lem_example =
    point_time_lem (state_of naturals ◌==◌ (counting true) (key_of naturals ◌==◌ hits 1) none).0
      (some (pos 5)) (some (pos 10)) true

sum_points-series_example :
    IsOne naturals ◌==◌ eq_refl
      (counting true).is_cumulative
      (counting true)
      hits
      (point 1 12 4)
      (point 1 13 5 ∷ [])
sum_points-series_example =
    sum_points-series naturals ◌==◌ eq_refl (counting true) hits (point 1 12 4) (point 1 13 5 ∷ [])
      (refl, _)
