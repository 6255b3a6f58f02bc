-- ===== src/Prometheus/Store.antt =====
-- exporters/prometheus/store.go: the cumulative store that a scrape renders.
-- Times are nanoseconds, `none` the zero time, before all others. The set that the OTel library makes of
-- attributes is a parameter, sorted and without duplicate keys there. `sort.SearchFloat64s` on
-- increasing bounds finds the first that is not below the value. Metric types have no value but the
-- three constants here, and no metric is nil.
pub mod Buckets
pub mod Scrape
pub mod Keys
pub mod Observation
use stats.Base.{
  ℕ, zero, suc, ◌+◌, Bool, true, false, ◌&&◌, ◌||◌, not, Option, none, some, List, [], ◌∷◌, ◌++◌,
  length, drop, get_or, set, replicate, ltb, if◌then◌else◌,
}
use stats.Base.Int.{ℤ, ◌-ℤ◌, ltb_ℤ, pos}
use stats.Base.Word.{add64}
use stats.Base.Float.{Float64}
use stats.Base.Text.{Bytes, same, has_prefix}
use stats.Base.Decimal.{format_nat}
use stats.Metric.{Metric, MetricType, counter, gauge, histogram, Attributes}
use stats.Prometheus.{
  Label, ExpositionError, observed_nan, label_collision, family_collision, invalid_buckets,
  exposed_labels,
}
use stats.Prometheus.Registry.{FamilyRegistry, lookup, register, new_registry}

pub record StoreSeries (F : Type 0) : Type 0 where
  pub labels : List Label
  pub value : F
  pub gauge_time : Option ℤ
  pub counts : List ℕ
  pub sum : F
  pub updated : ℤ

pub record StoreFamily (F : Type 0) : Type 0 where
  pub type : MetricType
  pub bounds : List F
  pub series : List (Bytes × StoreSeries F)

-- The fields of `Handler` that change.
pub record StoreState (F : Type 0) : Type 0 where
  pub registry : FamilyRegistry
  pub families : List (Bytes × StoreFamily F)

abbrev pub new_store : {F : Type 0} → StoreState F
new_store = record { registry = new_registry; families = [] }

-- The fields of `Handler` that are set before the first use.
pub record Handler (F : Type 0) : Type 0 where
  pub trim_prefix : Bytes
  pub metric_timeout : ℤ
  pub buckets : Option (Bytes → List F)

-- `t.After(u)`.
abbrev pub is_after : Option ℤ → Option ℤ → Bool
is_after none u = false
is_after (some t) none = true
is_after (some t) (some u) = ltb_ℤ u t

-- `strings.TrimPrefix`.
abbrev pub trim_name : Bytes → Bytes → Bytes
trim_name prefix name = if has_prefix prefix name then drop (length prefix) name else name

-- `m[k] = v` of a Go map.
abbrev pub put : {V : Type 0} → Bytes → V → List (Bytes × V) → List (Bytes × V)
put k v [] = (k, v) ∷ []
put k v ((j, w) ∷ m) = if same k j then (j, v) ∷ m else (j, w) ∷ put k v m

-- `labelsKey`.
unfoldable pub labels_key : List Label → Bytes
labels_key [] = []
labels_key (l ∷ ls) =
    format_nat (length l.label_name)
    ++ (b':'
        ∷ (l.label_name
            ++ (b'='
                ∷ (format_nat (length l.label_value)
                    ++ (b':' ∷ (l.label_value ++ (b';' ∷ labels_key ls)))))))

module _ {F : Type 0} (f : Float64 F) where
  -- The loop of `ValidateHistogramBuckets` behind a bound; `bound <= before` is false for NaN only where
  -- the test for NaN has stopped.
  abbrev pub valid_after : F → List F → Bool
  valid_after before [] = true
  valid_after before (b ∷ bs) =
      not (f.is_nan b) && not (f.is_inf b) && f.lt before b && valid_after b bs

  abbrev pub valid_buckets : List F → Bool
  valid_buckets [] = false
  valid_buckets (b ∷ bs) = not (f.is_nan b) && not (f.is_inf b) && valid_after b bs

  -- `sort.SearchFloat64s`.
  unfoldable pub search_bounds : List F → F → ℕ
  search_bounds [] v = 0
  search_bounds (b ∷ bs) v = let next = suc (search_bounds bs v) in if f.lt b v then next else 0

  abbrev pub is_nan_histogram : MetricType → F → Bool
  is_nan_histogram counter v = false
  is_nan_histogram gauge v = false
  is_nan_histogram histogram v = f.is_nan v

  module _ {V : Type 0} where
    -- A series that is new.
    abbrev pub start_series : Metric F V → List Label → StoreFamily F → MetricType → StoreSeries F
    start_series m labels fam counter = record {
      labels = labels;
      value = f.nought;
      gauge_time = none;
      counts = [];
      sum = f.nought;
      updated = pos 0;
    }
    start_series m labels fam gauge = record {
      labels = labels;
      value = m.value;
      gauge_time = m.timestamp;
      counts = [];
      sum = f.nought;
      updated = pos 0;
    }
    start_series m labels fam histogram = record {
      labels = labels;
      value = f.nought;
      gauge_time = none;
      counts = replicate (length fam.bounds + 1) 0;
      sum = f.nought;
      updated = pos 0;
    }

    abbrev pub series_of :
        Metric F V → List Label → StoreFamily F → Option (StoreSeries F) → StoreSeries F
    series_of m labels fam (some s) = s
    series_of m labels fam none = start_series m labels fam m.type

    -- The last switch of `observe`.
    abbrev pub fold_value : Metric F V → StoreFamily F → MetricType → StoreSeries F → StoreSeries F
    fold_value m fam counter s = record s { value = f.add s.value m.value }
    fold_value m fam gauge s =
        if is_after m.timestamp s.gauge_time
        then record s { value = m.value; gauge_time = m.timestamp }
        else s
    fold_value m fam histogram s =
        let i = search_bounds fam.bounds m.value in
        record s {
          counts = set s.counts i (add64 (get_or s.counts i 0) 1);
          sum = f.add s.sum m.value;
        }

    -- What `observe` does to the family.
    unfoldable pub observe_in : Metric F V → ℤ → List Label → StoreFamily F → StoreFamily F
    unfolding search_bounds
    observe_in m now labels fam =
        let key = labels_key labels in
        let s = series_of m labels fam (lookup key fam.series) in
        record fam {
          series = put key (fold_value m fam m.type (record s { updated = now })) fam.series;
        }

  abbrev pub or_default : List F → List F → List F
  or_default default_buckets [] = default_buckets
  or_default default_buckets (b ∷ bs) = b ∷ bs

  abbrev pub named_buckets : List F → Option (Bytes → List F) → Bytes → List F
  named_buckets default_buckets none name = default_buckets
  named_buckets default_buckets (some buckets) name = or_default default_buckets (buckets name)

  module _ (default_buckets : List F) (h : Handler F) {V : Type 0} where
    abbrev pub new_family : Metric F V → MetricType → Option (StoreFamily F)
    new_family m histogram =
        let bounds = named_buckets default_buckets h.buckets m.name in
        if valid_buckets bounds
        then some (record { type = histogram; bounds = bounds; series = [] })
        else none
    new_family m counter = some (record { type = counter; bounds = []; series = [] })
    new_family m gauge = some (record { type = gauge; bounds = []; series = [] })

    -- `family`, where the family has no entry yet or the one given.
    abbrev pub family_of : Metric F V → Option (StoreFamily F) → Option (StoreFamily F)
    family_of m (some fam) = some fam
    family_of m none = new_family m m.type

    -- Behind a successful registration.
    abbrev pub observe_at :
        StoreState F
        → Metric F V
        → ℤ
        → List Label
        → Bytes
        → Option (StoreFamily F)
        → Option ExpositionError × StoreState F
    observe_at st m now labels name none = (some invalid_buckets, st)
    observe_at st m now labels name (some fam) =
        (none, record st { families = put name (observe_in m now labels fam) st.families })

    abbrev pub observe_registered :
        StoreState F
        → Metric F V
        → ℤ
        → List Label
        → Option Bytes × FamilyRegistry
        → Option ExpositionError × StoreState F
    observe_registered st m now labels (none, r) =
        (some family_collision, record st { registry = r })
    observe_registered st m now labels (some name, r) =
        observe_at (record st { registry = r }) m now labels name
          (family_of m (lookup name st.families))

    module _ (show : V → Bytes) (to_set : Attributes V → Attributes V) where
      abbrev pub observe_labeled :
          StoreState F
          → Metric F V
          → ℤ
          → Option (List Label)
          → Option ExpositionError × StoreState F
      observe_labeled st m now none = (some label_collision, st)
      observe_labeled st m now (some labels) =
          observe_registered st m now labels
            (register st.registry (trim_name h.trim_prefix m.name) m.type)

      unfoldable pub observe : StoreState F → Metric F V → ℤ → Option ExpositionError × StoreState F
      unfolding observe_in
      observe st m now =
          if is_nan_histogram m.type m.value
          then (some observed_nan, st)
          else observe_labeled st m now (exposed_labels show m.type (to_set m.attributes))

      abbrev pub report : Option ExpositionError → List ExpositionError → List ExpositionError
      report none errs = errs
      report (some e) errs = e ∷ errs

      -- `Export`: the joined errors, in their order.
      unfoldable pub export_metrics :
          StoreState F → List (Metric F V) → ℤ → List ExpositionError × StoreState F
      export_metrics st [] now = ([], st)
      export_metrics st (m ∷ metrics) now =
          let (e, st') = observe st m now in
          let (errs, st'') = export_metrics st' metrics now in (report e errs, st'')

-- `HistogramData`, `Series` and `Family`.
pub record HistogramData (F : Type 0) : Type 0 where
  pub data_bounds : List F
  pub data_counts : List ℕ
  pub data_sum : F

pub record Series (F : Type 0) : Type 0 where
  pub series_labels : List Label
  pub series_value : F
  pub series_histogram : Option (HistogramData F)

pub record Family (F : Type 0) : Type 0 where
  pub exposed : Bytes
  pub family_type : MetricType
  pub family_series : List (Series F)

-- Two minutes, if the timeout is not positive.
abbrev pub timeout : ℤ → ℤ
timeout t = if ltb_ℤ (pos 0) t then t else pos 120000000000

module _ {F : Type 0} where
  abbrev pub live : ℤ → List (Bytes × StoreSeries F) → List (Bytes × StoreSeries F)
  live cutoff [] = []
  live cutoff ((k, s) ∷ m) =
      if ltb_ℤ s.updated cutoff then live cutoff m else (k, s) ∷ live cutoff m

  abbrev pub data_of : StoreFamily F → MetricType → StoreSeries F → Option (HistogramData F)
  data_of fam counter s = none
  data_of fam gauge s = none
  data_of fam histogram s =
      some (record { data_bounds = fam.bounds; data_counts = s.counts; data_sum = s.sum })

  abbrev pub series_copies : StoreFamily F → List (Bytes × StoreSeries F) → List (Series F)
  series_copies fam [] = []
  series_copies fam ((k, s) ∷ m) =
      record {
        series_labels = s.labels;
        series_value = s.value;
        series_histogram = data_of fam fam.type s;
      }
      ∷ series_copies fam m

  abbrev pub keep_family : Bytes → MetricType → List (Series F) → List (Family F) → List (Family F)
  keep_family name type [] out = out
  keep_family name type (s ∷ ss) out =
      record { exposed = name; family_type = type; family_series = s ∷ ss } ∷ out

  abbrev pub expire : ℤ → StoreFamily F → StoreFamily F
  expire cutoff fam = record fam { series = live cutoff fam.series }

  -- The loop of `snapshot`: the families to render, and the store without the series that expired.
  unfoldable pub snapshot_families :
      ℤ → List (Bytes × StoreFamily F) → List (Family F) × List (Bytes × StoreFamily F)
  snapshot_families cutoff [] = ([], [])
  snapshot_families cutoff ((name, fam) ∷ m) =
      let (out, m') = snapshot_families cutoff m in
      let fam' = expire cutoff fam in
      (keep_family name fam.type (series_copies fam fam'.series) out, (name, fam') ∷ m')

  unfoldable pub snapshot : Handler F → StoreState F → ℤ → List (Family F) × StoreState F
  unfolding snapshot_families
  snapshot h st now =
      let (out, families) = snapshot_families (now -ℤ timeout h.metric_timeout) st.families in
      (out, record st { families = families })
