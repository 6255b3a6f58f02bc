-- ===== src/Otlp/Histograms.antt =====
-- exporters/otlp/histogram.go: the histograms of a batch with explicit buckets, by name and attributes.
-- `sort.Search` finds the first bucket, the bounds being in increasing order. The index of a key is the place
-- of the point with its attributes in the histogram of its name. Exemplars are left out.
pub mod Counts
mod Tests
use stats.Base.{
  ℕ, suc, ◌+◌, Bool, true, false, ◌&&◌, ◌||◌, Option, none, some, List, [], ◌∷◌, length, replicate,
  set, get_or, if◌then◌else◌,
}
use stats.Base.Word.{add64}
use stats.Base.Float.{Float64, FloatText}
use stats.Base.Text.{Bytes, same}
use stats.Base.Assoc.{find, insert}
use stats.Metric.{Metric, MetricType, counter, gauge, histogram, Attributes}
use stats.Buckets.{named_buckets, buckets_for}
use stats.Otlp.{before, HistogramTotals, Point, value_or_nought}

-- The fields of `OTLPConfig` and the argument that choose the buckets.
pub record BucketSettings (F : Type 0) : Type 0 where
  pub default_buckets : List F
  pub buckets_by_name : Bytes → List F
  pub global_bounds : List F
  pub is_exponential : Bool

abbrev is_set_bounds : {F : Type 0} → Option (List F) → Bool
is_set_bounds none = false
is_set_bounds (some bounds) = true

-- `usesExponential`.
unfoldable pub uses_exponential : {F : Type 0} → BucketSettings F → Bytes → Bool
unfolding named_buckets
uses_exponential config name =
    if config.is_exponential
    then (if is_set_bounds (named_buckets config.buckets_by_name name) then false else true)
    else false

-- Whether `explicitHistograms` takes the observation.
abbrev pub is_explicit : {F V : Type 0} → BucketSettings F → Metric F V → MetricType → Bool
is_explicit config m histogram = if uses_exponential config m.name then false else true
is_explicit config m counter = false
is_explicit config m gauge = false

abbrev pub points_of : {X : Type 0} → Option (List X) → List X
points_of none = []
points_of (some points) = points

module _ {F D V : Type 0} (f : Float64 F) (t : FloatText F) (same_attributes : D → D → Bool)
    (new_set : Attributes V → D) where
  unfoldable pub bucket_of : List F → F → ℕ
  bucket_of [] v = 0
  bucket_of (b ∷ bs) v = let next = suc (bucket_of bs v) in if f.lt v b || t.eq v b then 0 else next

  abbrev pub new_point : Metric F V → D → List F → Point D (HistogramTotals F)
  new_point m attributes bounds = record {
    point_attributes = attributes;
    start_time = none;
    time = m.timestamp;
    content = record {
      total_count = 0;
      total_sum = f.nought;
      total_bounds = bounds;
      bucket_counts = replicate (length bounds + 1) 0;
      minimum = some m.value;
      maximum = some m.value;
    };
  }

  unfoldable pub observe_value :
      Metric F V → List F → Point D (HistogramTotals F) → Point D (HistogramTotals F)
  unfolding bucket_of
  observe_value m bounds p =
      let old = p.content in
      let bucket = bucket_of bounds m.value in
      record p {
        time = if before p.time m.timestamp then m.timestamp else p.time;
        content = record old {
          total_count = add64 old.total_count 1;
          total_sum = f.add old.total_sum m.value;
          minimum =
              if f.lt m.value (value_or_nought f old.minimum) then some m.value else old.minimum;
          maximum =
              if f.lt (value_or_nought f old.maximum) m.value then some m.value else old.maximum;
          bucket_counts =
              set old.bucket_counts bucket (add64 (get_or old.bucket_counts bucket 0) 1);
        };
      }

  unfoldable pub observe_in_points :
      Metric F V
      → D
      → List F
      → List (Point D (HistogramTotals F))
      → List (Point D (HistogramTotals F))
  unfolding observe_value
  observe_in_points m d bounds [] = observe_value m bounds (new_point m d bounds) ∷ []
  observe_in_points m d bounds (p ∷ ps) =
      if same_attributes p.point_attributes d
      then observe_value m bounds p ∷ ps
      else p ∷ observe_in_points m d bounds ps

  unfoldable pub observe_histogram :
      BucketSettings F
      → Metric F V
      → List (Bytes × List (Point D (HistogramTotals F)))
      → List (Bytes × List (Point D (HistogramTotals F)))
  unfolding buckets_for observe_in_points
  observe_histogram config m histograms =
      let bounds =
        buckets_for config.default_buckets config.buckets_by_name config.global_bounds m.name in
      insert same m.name
        (observe_in_points m (new_set m.attributes) bounds
          (points_of (find same m.name histograms)))
        histograms

  -- The loop of `explicitHistograms`.
  unfoldable pub explicit_histograms :
      BucketSettings F
      → List (Metric F V)
      → List (Bytes × List (Point D (HistogramTotals F)))
      → List (Bytes × List (Point D (HistogramTotals F)))
  unfolding uses_exponential observe_histogram
  explicit_histograms config [] histograms = histograms
  explicit_histograms config (m ∷ ms) histograms =
      if is_explicit config m m.type
      then explicit_histograms config ms (observe_histogram config m histograms)
      else explicit_histograms config ms histograms
