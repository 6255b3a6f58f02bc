-- ===== src/Otlp.antt =====
-- exporters/otlp/accumulator.go and exporters/otlp/reexport.go: the state of the series of the OTLP
-- exporter, and the points that an export sends.
-- A time is in nanoseconds, `none` the zero time, which is before all others. The distinct form of an
-- attribute set is a parameter with its equality. Exemplars are left out. `none` as the result of a
-- function is a panic, by an index out of range.
pub mod Accumulate
pub mod Histograms
pub mod Kinds
pub mod Points
pub mod Times
pub mod Totals
mod Tests
use stats.Base.{
  ℕ, zero, suc, ◌+◌, Bool, true, false, ◌&&◌, ◌||◌, not, Option, none, some, List, [], ◌∷◌, ◌++◌,
  length, ltb, if◌then◌else◌,
}
use stats.Base.Int.{ℤ, pos, ◌+ℤ◌, ltb_ℤ}
use stats.Base.Word.{add64}
use stats.Base.Float.{Float64}
use stats.Base.Text.{Bytes, same}
use stats.Base.Assoc.{find, insert}
use stats.Expo.{ExpoBuckets}
use stats.Expo.Points.{DataPoint, snapshot, from_point}
use stats.Expo.Merging.{merge_expo}

abbrev pub Instant : Type 0
Instant = Option ℤ

-- `t.Before(u)`.
abbrev pub before : Instant → Instant → Bool
before t none = false
before none (some u) = true
before (some t) (some u) = ltb_ℤ t u

abbrev pub is_set : Instant → Bool
is_set none = false
is_set (some t) = true

-- `minPointSpacing`, in nanoseconds.
abbrev pub min_point_spacing : ℕ
min_point_spacing = 1000000

abbrev pub spaced : Instant → Instant
spaced none = none
spaced (some t) = some (t +ℤ pos min_point_spacing)

-- The fields of a histogram point that add up.
pub record HistogramTotals (F : Type 0) : Type 0 where
  pub total_count : ℕ
  pub total_sum : F
  pub total_bounds : List F
  pub bucket_counts : List ℕ
  pub minimum : Option F
  pub maximum : Option F

pub record Point (D X : Type 0) : Type 0 where
  pub point_attributes : D
  pub start_time : Instant
  pub time : Instant
  pub content : X

pub data Temporality : Type 0 where
  cumulative delta : Temporality

pub data Aggregation (F D : Type 0) : Type 0 where
  sum_data : Temporality → List (Point D F) → Aggregation F D
  gauge_data : List (Point D F) → Aggregation F D
  histogram_data : Temporality → List (Point D (HistogramTotals F)) → Aggregation F D
  exponential_data : Temporality → List (Point D (DataPoint F)) → Aggregation F D

-- `seriesMeta`.
pub record SeriesMeta : Type 0 where
  pub meta_name : Bytes
  pub meta_description : Bytes
  pub meta_unit : Bytes

-- `metricdata.Metrics`, its name, description and unit as `metaOf` takes them.
pub record Metrics (F D : Type 0) : Type 0 where
  pub meta : SeriesMeta
  pub aggregation : Aggregation F D

pub data SeriesKind : Type 0 where
  kind_sum kind_histogram kind_gauge kind_exponential : SeriesKind

pub record SeriesState (F D : Type 0) : Type 0 where
  pub start : Instant
  pub last_time : Instant
  pub sum : F
  pub histogram : HistogramTotals F
  pub exponential : DataPoint F
  pub series_meta : SeriesMeta
  pub attributes : D
  pub kind : SeriesKind
  pub gauge : F
  pub gauge_time : Instant

module _ {F D : Type 0} where
  -- `pointTime`.
  unfoldable pub point_time : SeriesState F D → Instant → Instant → Bool → Instant × SeriesState F D
  point_time s observed exported is_cumulative =
      let floor = if is_cumulative && is_set exported then spaced exported else exported in
      let raised = if before observed floor then floor else observed in
      let at = if before raised s.last_time then s.last_time else raised in
      (at, record s { last_time = at })

-- The loop of `addHistogram` over the buckets of the point.
unfoldable pub add_counts : List ℕ → List ℕ → Option (List ℕ)
add_counts [] previous = some []
add_counts (c ∷ counts) [] = none
add_counts (c ∷ counts) (p ∷ previous) = elim (add_counts counts previous) [
  | none ↦ none
  | some rest ↦ some (add64 c p ∷ rest)
]

module _ {F : Type 0} (f : Float64 F) where
  abbrev pub no_totals : HistogramTotals F
  no_totals = record {
    total_count = 0;
    total_sum = f.nought;
    total_bounds = [];
    bucket_counts = [];
    minimum = none;
    maximum = none;
  }

  abbrev no_buckets : ExpoBuckets
  no_buckets = record { offset = pos 0; counts = [] }

  abbrev pub no_exponential : DataPoint F
  no_exponential = record {
    point_count = 0;
    point_sum = f.nought;
    point_scale = pos 0;
    point_zero_count = 0;
    positive_bucket = no_buckets;
    negative_bucket = no_buckets;
    point_min = none;
    point_max = none;
  }

  -- The value of an extremum; it is 0 if it is not defined.
  abbrev pub value_or_nought : Option F → F
  value_or_nought none = f.nought
  value_or_nought (some v) = v

  abbrev pub lower : Option F → Option F → Option F
  lower current none = current
  lower current (some old) = if f.lt old (value_or_nought current) then some old else current

  abbrev pub higher : Option F → Option F → Option F
  higher current none = current
  higher current (some old) = if f.lt (value_or_nought current) old then some old else current

  abbrev with_counts :
      HistogramTotals F → HistogramTotals F → Option (List ℕ) → Option (HistogramTotals F)
  with_counts point previous none = none
  with_counts point previous (some counts) = some (record point {
    total_count = add64 point.total_count previous.total_count;
    total_sum = f.add point.total_sum previous.total_sum;
    bucket_counts = counts;
    minimum = lower point.minimum previous.minimum;
    maximum = higher point.maximum previous.maximum;
  })

  unfoldable pub add_histogram : HistogramTotals F → HistogramTotals F → Option (HistogramTotals F)
  unfolding add_counts
  add_histogram point previous =
      with_counts point previous (add_counts point.bucket_counts previous.bucket_counts)

  unfoldable pub add_exponential : DataPoint F → DataPoint F → ℕ → DataPoint F
  add_exponential point previous max_size =
      snapshot (merge_expo f (from_point f previous max_size) (from_point f point max_size))

module _ {F D : Type 0} where
  -- A new point is appended to data of its kind.
  abbrev pub join_data : Aggregation F D → Aggregation F D → Option (Aggregation F D)
  join_data (sum_data t ps) (sum_data u qs) = some (sum_data u (ps ++ qs))
  join_data (gauge_data ps) (gauge_data qs) = some (gauge_data (ps ++ qs))
  join_data (histogram_data t ps) (histogram_data u qs) = some (histogram_data u (ps ++ qs))
  join_data (exponential_data t ps) (exponential_data u qs) = some (exponential_data u (ps ++ qs))
  join_data (sum_data t ps) (gauge_data qs) = none
  join_data (sum_data t ps) (histogram_data u qs) = none
  join_data (sum_data t ps) (exponential_data u qs) = none
  join_data (gauge_data ps) (sum_data u qs) = none
  join_data (gauge_data ps) (histogram_data u qs) = none
  join_data (gauge_data ps) (exponential_data u qs) = none
  join_data (histogram_data t ps) (sum_data u qs) = none
  join_data (histogram_data t ps) (gauge_data qs) = none
  join_data (histogram_data t ps) (exponential_data u qs) = none
  join_data (exponential_data t ps) (sum_data u qs) = none
  join_data (exponential_data t ps) (gauge_data qs) = none
  join_data (exponential_data t ps) (histogram_data u qs) = none

  abbrev placed :
      Metrics F D
      → List (Metrics F D)
      → Option (Aggregation F D)
      → Bool
      → List (Metrics F D)
      → List (Metrics F D)
  placed m ms (some joined) true rest = record m { aggregation = joined } ∷ ms
  placed m ms (some joined) false rest = m ∷ rest
  placed m ms none named rest = m ∷ rest

  -- `appendUnobserved`, with the data of one point that is to be added.
  unfoldable pub append_unobserved :
      List (Metrics F D) → SeriesMeta → Aggregation F D → List (Metrics F D)
  append_unobserved [] meta probe = record { meta = meta; aggregation = probe } ∷ []
  append_unobserved (m ∷ ms) meta probe =
      placed m ms (join_data m.aggregation probe) (same m.meta.meta_name meta.meta_name)
        (append_unobserved ms meta probe)

-- `accumulation`.
pub record Accumulation (F D : Type 0) : Type 0 where
  pub exported : List ((Bytes × D) × SeriesState F D)
  pub next : List ((Bytes × D) × SeriesState F D)
  pub is_cumulative : Bool
  pub seen : List (Bytes × D)
  pub expo_max_size : ℕ
