-- ===== src/Otlp/Accumulate.antt =====
-- exporters/otlp/accumulator.go and reexport.go: the points of an export, and the next state.
-- The place of a name in `sumIndexes` is that of its metric with sums, of which there is one at most.
-- The series that were not observed come in the order of the association list.
use stats.Base.{
  ℕ, Bool, true, false, ◌&&◌, ◌||◌, not, Option, none, some, List, [], ◌∷◌, ◌++◌, if◌then◌else◌,
}
use stats.Base.Float.{Float64}
use stats.Base.Text.{Bytes, same}
use stats.Base.Assoc.{find, insert}
use stats.Expo.Points.{DataPoint}
use stats.Otlp.{
  Instant, before, is_set, HistogramTotals, Point, Temporality, cumulative, delta, Aggregation,
  sum_data, gauge_data, histogram_data, exponential_data, SeriesMeta, Metrics, SeriesKind, kind_sum,
  kind_histogram, kind_gauge, kind_exponential, SeriesState, point_time, no_totals, no_exponential,
  add_histogram, add_exponential, append_unobserved, Accumulation,
}

-- The observed point of a series and, behind it, the accumulation.
infixl 5 ◌>>=◌
abbrev pub ◌>>=◌ : {A B : Type 0} → Option A → (A → Option B) → Option B
none >>= k = none
some a >>= k = k a

module _ {F D : Type 0} (f : Float64 F) (same_attributes : D → D → Bool) where
  abbrev pub same_key : Bytes × D → Bytes × D → Bool
  same_key (name, attributes) (name', attributes') =
      same name name' && same_attributes attributes attributes'

  abbrev started : Instant → Bytes × D → Option (SeriesState F D) → SeriesState F D × Bool
  started observed key (some s) = (s, true)
  started observed (name, attributes) none = (
    record {
      start = observed;
      last_time = none;
      sum = f.nought;
      histogram = no_totals f;
      exponential = no_exponential f;
      series_meta = record { meta_name = []; meta_description = []; meta_unit = [] };
      attributes = attributes;
      kind = kind_sum;
      gauge = f.nought;
      gauge_time = none;
    },
    false,
  )

  -- `state`: the state of a series, and whether it exists.
  unfoldable pub state_of : Accumulation F D → Bytes × D → Instant → SeriesState F D × Bool
  state_of a key observed = started observed key (find same_key key a.next)

  abbrev pub exported_time : Option (SeriesState F D) → Instant
  exported_time none = none
  exported_time (some s) = s.last_time

  -- `times`: the start, the time, and the state with that time.
  unfoldable pub times :
      Accumulation F D → Bytes × D → SeriesState F D → Instant → Instant × Instant × SeriesState F D
  unfolding point_time
  times a key s observed =
      let start = if not a.is_cumulative && is_set s.last_time then s.last_time else s.start in
      let (at, s') =
        point_time s observed (exported_time (find same_key key a.exported)) a.is_cumulative in
      (start, at, s')

  abbrev pub keep : Accumulation F D → Bytes × D → SeriesState F D → Accumulation F D
  keep a key s = record a { next = insert same_key key s a.next; seen = key ∷ a.seen }

  abbrev pub key_of : SeriesMeta → D → Bytes × D
  key_of meta attributes = (meta.meta_name, attributes)

  -- `sumPoint`.
  unfoldable pub sum_point :
      Accumulation F D → SeriesMeta → Point D F → Point D F × Accumulation F D
  unfolding state_of times
  sum_point a meta p =
      let key = key_of meta p.point_attributes in
      let (s, existed) = state_of a key p.time in
      let s1 = record s {
        series_meta = meta;
        attributes = p.point_attributes;
        kind = kind_sum;
        sum = f.add s.sum p.content;
      } in
      let (start, at, s2) = times a key s1 p.time in
      if a.is_cumulative
      then (record p { start_time = start; time = at; content = s2.sum }, keep a key s2)
      else (record p { start_time = start; time = at }, keep a key (record s2 { sum = f.nought }))

  -- `histogramPoint`, whose totals have been added up.
  abbrev pub kept_histogram :
      Accumulation F D
      → Bytes × D
      → SeriesState F D
      → Point D (HistogramTotals F)
      → HistogramTotals F
      → Point D (HistogramTotals F) × Accumulation F D
  kept_histogram a key s p totals =
      let (start, at, s') = times a key s p.time in
      (
        record p { start_time = start; time = at; content = totals },
        keep a key (record s' { histogram = if a.is_cumulative then totals else no_totals f }),
      )

  unfoldable pub histogram_point :
      Accumulation F D
      → SeriesMeta
      → Point D (HistogramTotals F)
      → Option (Point D (HistogramTotals F) × Accumulation F D)
  histogram_point a meta p =
      let key = key_of meta p.point_attributes in
      let (s, existed) = state_of a key p.time in
      let s1 = record s {
        series_meta = meta;
        attributes = p.point_attributes;
        kind = kind_histogram;
      } in
      (if a.is_cumulative && existed then add_histogram f p.content s.histogram else some p.content)
      >>= λ totals. some (kept_histogram a key s1 p totals)

  -- `exponentialPoint`.
  unfoldable pub exponential_point :
      Accumulation F D
      → SeriesMeta
      → Point D (DataPoint F)
      → Point D (DataPoint F) × Accumulation F D
  exponential_point a meta p =
      let key = key_of meta p.point_attributes in
      let (s, existed) = state_of a key p.time in
      let s1 = record s {
        series_meta = meta;
        attributes = p.point_attributes;
        kind = kind_exponential;
      } in
      let merged =
        if a.is_cumulative && existed
        then add_exponential f p.content s.exponential a.expo_max_size
        else p.content in
      let (start, at, s2) = times a key s1 p.time in
      (
        record p { start_time = start; time = at; content = merged },
        keep a key
            (record s2 { exponential = if a.is_cumulative then merged else no_exponential f }),
      )

  -- `gaugePoint`.
  unfoldable pub gauge_point : Accumulation F D → SeriesMeta → Point D F → Accumulation F D
  gauge_point a meta p =
      let key = key_of meta p.point_attributes in
      let (s, existed) = state_of a key p.time in
      let s1 = record s {
        series_meta = meta;
        attributes = p.point_attributes;
        kind = kind_gauge;
      } in
      let s2 =
        if before p.time s.gauge_time
        then s1
        else record s1 { gauge = p.content; gauge_time = p.time } in
      keep a key
        (record s2 { last_time = if before s.last_time p.time then p.time else s.last_time })

  abbrev pub merge_point : Temporality → Point D F → Point D F → Point D F
  merge_point cumulative q p = p
  merge_point delta q p = record p {
    content = f.add p.content q.content;
    start_time = q.start_time;
  }

  -- `addSumPoint`: into the point with the same attributes, or at the end.
  unfoldable pub add_sum_point : Temporality → List (Point D F) → Point D F → List (Point D F)
  add_sum_point t [] p = p ∷ []
  add_sum_point t (q ∷ qs) p =
      if same_attributes q.point_attributes p.point_attributes
      then merge_point t q p ∷ qs
      else q ∷ add_sum_point t qs p

  -- The loop over the points of a sum.
  unfoldable pub sum_points :
      Accumulation F D
      → SeriesMeta
      → Temporality
      → List (Point D F)
      → List (Point D F)
      → List (Point D F) × Accumulation F D
  unfolding sum_point add_sum_point
  sum_points a meta t merged [] = (merged, a)
  sum_points a meta t merged (p ∷ ps) =
      let (q, a') = sum_point a meta p in sum_points a' meta t (add_sum_point t merged q) ps

  -- The temporality and the points that the sum of this name has so far; a new one has the
  -- temporality of its data.
  abbrev pub merged_sum : Temporality → Bytes → List (Metrics F D) → Temporality × List (Point D F)
  merged_sum u name [] = (u, [])
  merged_sum u name (m ∷ ms) = elim m.aggregation [
    | sum_data t ps ↦ if same m.meta.meta_name name then (t, ps) else merged_sum u name ms
    | gauge_data ps ↦ merged_sum u name ms
    | histogram_data t ps ↦ merged_sum u name ms
    | exponential_data t ps ↦ merged_sum u name ms
  ]

  -- The metric with the sum of this name gets its points; a new one is appended.
  abbrev pub put_sum : Metrics F D → List (Metrics F D) → List (Metrics F D)
  put_sum m [] = m ∷ []
  put_sum m (n ∷ ns) = elim n.aggregation [
    | sum_data t ps ↦
        if same n.meta.meta_name m.meta.meta_name
        then record n { aggregation = m.aggregation } ∷ ns
        else n ∷ put_sum m ns
    | gauge_data ps ↦ n ∷ put_sum m ns
    | histogram_data t ps ↦ n ∷ put_sum m ns
    | exponential_data t ps ↦ n ∷ put_sum m ns
  ]

  unfoldable pub histogram_points :
      Accumulation F D
      → SeriesMeta
      → List (Point D (HistogramTotals F))
      → Option (List (Point D (HistogramTotals F)) × Accumulation F D)
  unfolding histogram_point
  histogram_points a meta [] = some ([], a)
  histogram_points a meta (p ∷ ps) = histogram_point a meta p >>= λ (q, a').
      histogram_points a' meta ps >>= λ (qs, a''). some (q ∷ qs, a'')

  unfoldable pub exponential_points :
      Accumulation F D
      → SeriesMeta
      → List (Point D (DataPoint F))
      → List (Point D (DataPoint F)) × Accumulation F D
  unfolding exponential_point
  exponential_points a meta [] = ([], a)
  exponential_points a meta (p ∷ ps) =
      let (q, a') = exponential_point a meta p in
      let (qs, a'') = exponential_points a' meta ps in (q ∷ qs, a'')

  unfoldable pub gauge_points : Accumulation F D → SeriesMeta → List (Point D F) → Accumulation F D
  unfolding gauge_point
  gauge_points a meta [] = a
  gauge_points a meta (p ∷ ps) = gauge_points (gauge_point a meta p) meta ps

  -- A round of the loop of `accumulate`.
  abbrev pub accumulate_data :
      Accumulation F D
      → List (Metrics F D)
      → SeriesMeta
      → Aggregation F D
      → Option (List (Metrics F D) × Accumulation F D)
  accumulate_data a merged meta (sum_data t ps) =
      let (t', earlier) = merged_sum t meta.meta_name merged in
      let (points, a') = sum_points a meta t' earlier ps in
      some (put_sum (record { meta = meta; aggregation = sum_data t' points }) merged, a')
  accumulate_data a merged meta (histogram_data t ps) = histogram_points a meta ps >>= λ (qs, a').
      some (merged ++ record { meta = meta; aggregation = histogram_data t qs } ∷ [], a')
  accumulate_data a merged meta (exponential_data t ps) =
      let (qs, a') = exponential_points a meta ps in
      some (merged ++ record { meta = meta; aggregation = exponential_data t qs } ∷ [], a')
  accumulate_data a merged meta (gauge_data ps) =
      some
        (merged ++ record { meta = meta; aggregation = gauge_data ps } ∷ [], gauge_points a meta ps)

  unfoldable pub accumulate_all :
      Accumulation F D
      → List (Metrics F D)
      → List (Metrics F D)
      → Option (List (Metrics F D) × Accumulation F D)
  unfolding sum_points histogram_points exponential_points gauge_points
  accumulate_all a merged [] = some (merged, a)
  accumulate_all a merged (m ∷ ms) =
      accumulate_data a merged m.meta m.aggregation >>= λ (merged', a').
      accumulate_all a' merged' ms

  -- The data of the point that repeats a series.
  abbrev pub repeated : SeriesState F D → Instant → Instant → SeriesKind → Aggregation F D
  repeated s start at kind_sum = sum_data cumulative (
      record { point_attributes = s.attributes; start_time = start; time = at; content = s.sum }
      ∷ [])
  repeated s start at kind_gauge = gauge_data (
      record { point_attributes = s.attributes; start_time = none; time = at; content = s.gauge }
      ∷ [])
  repeated s start at kind_histogram = histogram_data cumulative (
      record {
        point_attributes = s.attributes;
        start_time = start;
        time = at;
        content = s.histogram;
      }
      ∷ [])
  repeated s start at kind_exponential = exponential_data cumulative (
      record {
        point_attributes = s.attributes;
        start_time = start;
        time = at;
        content = s.exponential;
      }
      ∷ [])

  abbrev pub is_seen : Bytes × D → List (Bytes × D) → Bool
  is_seen key [] = false
  is_seen key (k ∷ ks) = same_key key k || is_seen key ks

  -- The loop of `unobserved` over the keys of `next`: the metrics, and the new states.
  unfoldable pub repeat_series :
      Accumulation F D
      → Instant
      → List ((Bytes × D) × SeriesState F D)
      → List (Metrics F D)
      → List (Metrics F D) × List ((Bytes × D) × SeriesState F D)
  unfolding times
  repeat_series a now [] metrics = (metrics, [])
  repeat_series a now ((key, s) ∷ states) metrics =
      let (start, at, s') = times a key s now in
      let skipped = repeat_series a now states metrics in
      let added =
        repeat_series a now states
          (append_unobserved metrics s.series_meta (repeated s start at s.kind)) in
      if is_seen key a.seen
      then (skipped.0, (key, s) ∷ skipped.1)
      else (added.0, (key, s') ∷ added.1)

  unfoldable pub unobserved :
      Accumulation F D → Instant → List (Metrics F D) → List (Metrics F D) × Accumulation F D
  unfolding repeat_series
  unobserved a now metrics =
      let (metrics', next) = repeat_series a now a.next metrics in
      if a.is_cumulative then (metrics', record a { next = next }) else (metrics, a)

  abbrev pub new_accumulation : List ((Bytes × D) × SeriesState F D) → Bool → ℕ → Accumulation F D
  new_accumulation states is_cumulative max_size = record {
    exported = states;
    next = states;
    is_cumulative = is_cumulative;
    seen = [];
    expo_max_size = max_size;
  }

  -- `accumulate`: the metrics to send and the next states, on top of the states committed before.
  unfoldable pub accumulate :
      List ((Bytes × D) × SeriesState F D)
      → Bool
      → ℕ
      → Instant
      → List (Metrics F D)
      → Option (List (Metrics F D) × List ((Bytes × D) × SeriesState F D))
  unfolding accumulate_all unobserved
  accumulate states is_cumulative max_size now metrics =
      accumulate_all (new_accumulation states is_cumulative max_size) [] metrics >>= λ (merged, a).
      (let (sent, a') = unobserved a now merged in some (sent, a'.next))
