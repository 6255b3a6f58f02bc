-- ===== src/Expo/Points.antt =====
-- `snapshot` of exporters/otlp/exponential.go and `expoHistogramFromPoint` of exponential_merge.go.
pub mod RoundTrip
use stats.Base.{
  ℕ, zero, suc, ◌+◌, ◌-◌, ◌*◌, ◌^◌, max, min, ◌&&◌, Bool, true, false, ◌||◌, Option, none, some,
  List, [], ◌∷◌, ◌++◌, ltb, leb, ◌==◌, if◌then◌else◌,
}
use stats.Base.Int.{ℤ, pos, negsuc, ◌+ℤ◌, ltb_ℤ}
use stats.Base.Shift.{◌>>ℤ◌, diff}
use stats.Base.Word.{add64}
use stats.Base.Float.{Float64}
use stats.Expo.{ExpoBuckets, ExpoHistogram, Side, positive, negative, min_ℤ, add_count, new}

-- `metricdata.ExponentialHistogramDataPoint`: the fields that `snapshot` fills.
pub record DataPoint (F : Type 0) : Type 0 where
  pub point_count : ℕ
  pub point_sum : F
  pub point_scale : ℤ
  pub point_zero_count : ℕ
  pub positive_bucket : ExpoBuckets
  pub negative_bucket : ExpoBuckets
  pub point_min : Option F
  pub point_max : Option F

-- An index that is no int32 becomes 0.
bucket_offset : ℤ → ℤ
bucket_offset index =
    if ltb_ℤ index (negsuc (2 ^ 31 - 1)) || ltb_ℤ (pos (2 ^ 31 - 1)) index then pos 0 else index

abbrev snapshot_buckets : ExpoBuckets → ExpoBuckets
snapshot_buckets b = record b { offset = bucket_offset b.offset }

pub snapshot : {F : Type 0} → ExpoHistogram F → DataPoint F
unfolding bucket_offset
snapshot h = record {
  point_count = h.count;
  point_sum = h.sum;
  point_scale = h.scale;
  point_zero_count = h.zero_count;
  positive_bucket = snapshot_buckets h.above;
  negative_bucket = snapshot_buckets h.below;
  point_min = if ltb 0 h.count then some h.least else none;
  point_max = if ltb 0 h.count then some h.greatest else none;
}

-- The inner loop of `expoHistogramFromPoint`; `addCount` itself ignores a zero count.
rebuild_from : {F : Type 0} → ExpoHistogram F → Side → ℤ → List ℕ → ℤ → ExpoHistogram F
rebuild_from h side at [] src_scale = h
rebuild_from h side at (c ∷ cs) src_scale =
    rebuild_from (add_count h side (at >>ℤ diff src_scale h.scale) c) side (at +ℤ pos 1) cs
      src_scale

module _ {F : Type 0} (f : Float64 F) where
  abbrev defined_or : F → Option F → F
  defined_or v none = v
  defined_or v (some w) = w

  pub from_point : DataPoint F → ℕ → ExpoHistogram F
  unfolding rebuild_from
  from_point dp max_size =
      let h = new f max_size dp.point_scale in
      let h1 =
        rebuild_from h positive dp.positive_bucket.offset dp.positive_bucket.counts h.scale in
      let h2 =
        rebuild_from h1 negative dp.negative_bucket.offset dp.negative_bucket.counts h.scale in
      record h2 {
        zero_count = dp.point_zero_count;
        count = dp.point_count;
        sum = dp.point_sum;
        least = if ltb 0 dp.point_count then defined_or h2.least dp.point_min else h2.least;
        greatest =
            if ltb 0 dp.point_count then defined_or h2.greatest dp.point_max else h2.greatest;
      }
