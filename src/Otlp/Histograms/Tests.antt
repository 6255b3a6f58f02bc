-- ===== src/Otlp/Histograms/Tests.antt =====
-- Batches of whole numbers, whose attribute sets are the numbers of their attributes.
use stats.Base.{
  ℕ, ◌+◌, ◌%◌, ◌≡◌, refl, if◌then◌else◌, false, none, some, List, [], ◌∷◌, length, ◌==◌,
}
use stats.Base.Int.{pos}
use stats.Base.Word.{word}
use stats.Base.Text.{same}
use stats.Samples.{bytes, naturals, decimals}
use stats.Metric.{Metric, MetricType, counter, histogram}
use stats.Buckets.{unprefixed_from, unprefixed_buckets, named_buckets, buckets_for}
use stats.Otlp.Histograms.{
  BucketSettings, uses_exponential, bucket_of, observe_value, observe_in_points, observe_histogram,
  explicit_histograms,
}
use stats.Otlp.Histograms.Counts.{
  AreCounted, counted_all, observations, explicit_histograms-AreCounted,
}

abbrev config : BucketSettings ℕ
config = record {
  default_buckets = 10 ∷ 20 ∷ [];
  buckets_by_name = λ name. if same name (bytes "size") then 100 ∷ [] else [];
  global_bounds = [];
  is_exponential = false;
}

abbrev observed : MetricType → ℕ → ℕ → Metric ℕ ℕ
observed type at value = record {
  name = bytes "latency";
  type = type;
  value = value;
  attributes = [];
  timestamp = some (pos at);
  priority = pos 0;
  trace_id = [];
  span_id = [];
  description = [];
  unit = [];
}

abbrev batch : List (Metric ℕ ℕ)
batch = observed histogram 5 10 ∷ observed counter 6 1 ∷ observed histogram 4 25 ∷ []

-- A value on a bound counts below it; a counter does not count.
explicit_histograms_test :
    explicit_histograms naturals decimals ◌==◌ length config batch []
    ≡ (
      bytes "latency",
      record {
        point_attributes = 0;
        start_time = none;
        time = some (pos 5);
        content = record {
          total_count = 2;
          total_sum = 35;
          total_bounds = 10 ∷ 20 ∷ [];
          bucket_counts = 1 ∷ 0 ∷ 1 ∷ [];
          minimum = some 10;
          maximum = some 25;
        };
      }
          ∷ [],
    )
      ∷ []
unfolding explicit_histograms observe_histogram observe_in_points observe_value bucket_of
    uses_exponential buckets_for named_buckets unprefixed_buckets unprefixed_from same
explicit_histograms_test = refl

explicit_histograms-AreCounted_example :
    let hs = explicit_histograms naturals decimals ◌==◌ length config batch [] in
    AreCounted config hs × (counted_all hs % word ≡ (0 + observations config batch) % word)
explicit_histograms-AreCounted_example =
    explicit_histograms-AreCounted naturals decimals ◌==◌ length config batch [] tt
