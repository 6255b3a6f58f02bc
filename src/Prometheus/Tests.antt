-- ===== src/Prometheus/Tests.antt =====
-- A store of whole numbers, and the theorems at its families.
use stats.Base.{
  ℕ, ◌+◌, ◌%◌, ◌<◌, ◌≤◌, ◌≡◌, ◌≢◌, ◌⊎◌, inr, refl, Bool, true, false, none, some, List, [], ◌∷◌,
  ◌++◌, get_or,
}
use stats.Base.Int.{pos, ◌-ℤ◌}
use stats.Base.Word.{word}
use stats.Base.Text.{Bytes, same, has_prefix}
use stats.Base.Utf8.{extra_bytes}
use stats.Base.Decimal.{format_nat}
use stats.Samples.{bytes, naturals, decimals}
use stats.Metric.{Metric, MetricType, gauge, histogram, Attributes}
use stats.Prometheus.{
  Label, normalize_name, counter_family_name, labels_of, exposed_labels, exposed_name, sort_labels,
  insert_label, less, has_suffix,
}
use stats.Prometheus.Registry.{register}
use stats.Prometheus.Registry.Disjoint.{register_all, registered_once}
use stats.Prometheus.Store.{
  StoreSeries, StoreFamily, Handler, new_store, labels_key, search_bounds, fold_value, snapshot,
  observe, export_metrics,
}
use stats.Prometheus.Write.{write_families, write_family, write_sample}
use stats.Prometheus.Labels.{IsAscending, count, has_name, exposed_labels-cases}
use stats.Prometheus.Store.Keys.{labels_key-injective}
use stats.Prometheus.Store.Observation.{total, fold_value-histogram}
use stats.Prometheus.Store.Scrape.{Op, exports, scrapes, run, scrape_renders}

-- A letter of two bytes, a digit in front.
names_test :
    (normalize_name true (bytes "9a:b" ++ 195 ∷ 169 ∷ []) ≡ bytes "_9a:b_")
    × (counter_family_name (bytes "http.requests") ≡ bytes "http_requests_total")
unfolding normalize_name counter_family_name has_suffix same extra_bytes
names_test = (refl, refl)

abbrev tags : Attributes Bytes
tags = (bytes "route", bytes "home") ∷ (bytes "le", bytes "1") ∷ []

labels_test :
    exposed_labels (λ v. v) histogram tags
    ≡ some (
        record { label_name = bytes "_le"; label_value = bytes "1" }
        ∷ record { label_name = bytes "route"; label_value = bytes "home" }
        ∷ [])
unfolding exposed_labels sort_labels less exposed_name same has_prefix normalize_name extra_bytes
labels_test = refl

exposed_labels-cases_example :
    ((ls : List Label) × (exposed_labels (λ v. v) histogram tags ≡ some ls)
      × IsAscending ls
      × ((P : Label → Bool) → count P ls ≡ count P (labels_of (λ v. v) histogram tags)))
    ⊎ ((name : Bytes) × (exposed_labels (λ v. v) histogram tags ≡ none)
        × (2 ≤ count (has_name name) (labels_of (λ v. v) histogram tags)))
exposed_labels-cases_example = exposed_labels-cases (λ v. v) histogram tags

abbrev home : List Label
home = record { label_name = bytes "route"; label_value = bytes "home" } ∷ []

labels_key_test : labels_key home ≡ bytes "5:route=4:home;"
unfolding labels_key format_nat
labels_key_test = refl

labels_key-injective_example : home ≡ home
labels_key-injective_example = labels_key-injective home home refl

-- The gauge "rt_sum" is refused, for it is a series of the histogram.
abbrev registrations : List (Bytes × MetricType)
registrations = (bytes "rt", histogram) ∷ (bytes "rt_sum", gauge) ∷ []

registered_once_example : bytes "rt" ≡ bytes "rt"
unfolding register_all register counter_family_name normalize_name same extra_bytes
registered_once_example =
    registered_once registrations (bytes "rt_sum") (bytes "rt") (bytes "rt")
      (record { source = bytes "rt"; type = histogram }, refl, inr refl)
      (record { source = bytes "rt"; type = histogram }, refl, inr refl)

abbrev times : StoreFamily ℕ
times = record { type = histogram; bounds = 1 ∷ 5 ∷ []; series = [] }

abbrev seen : StoreSeries ℕ
seen = record {
  labels = home;
  value = 0;
  gauge_time = none;
  counts = 1 ∷ 0 ∷ 2 ∷ [];
  sum = 20;
  updated = pos 0;
}

abbrev request : ℕ → Metric ℕ Bytes
request n = record {
  name = bytes "rt";
  type = histogram;
  value = n;
  attributes = (bytes "route", bytes "home") ∷ [];
  timestamp = none;
  priority = pos 0;
  trace_id = [];
  span_id = [];
  description = [];
  unit = [];
}

fold_value-histogram_example :
    let s' = fold_value naturals (request 3) times histogram seen in
    let k = search_bounds naturals (1 ∷ 5 ∷ []) 3 in
    (total s'.counts % word ≡ (total (1 ∷ 0 ∷ 2 ∷ []) + 1) % word)
    × ((i : ℕ) → i ≢ k → get_or s'.counts i 0 ≡ get_or (1 ∷ 0 ∷ 2 ∷ []) i 0)
    × ((i : ℕ) → i < k → naturals.lt (get_or (1 ∷ 5 ∷ []) i 0) 3 ≡ true)
    × (k < 2 → naturals.lt (get_or (1 ∷ 5 ∷ []) k 0) 3 ≡ false)
fold_value-histogram_example = fold_value-histogram naturals (request 3) times seen 0 refl

abbrev handler : Handler ℕ
handler = record { trim_prefix = []; metric_timeout = pos 0; buckets = none }

abbrev ops : List (Op naturals decimals Bytes)
ops =
    exports (request 3 ∷ request 9 ∷ []) (pos 10)
    ∷ scrapes (pos 20)
    ∷ exports (request 1 ∷ []) (pos 30)
    ∷ []

scrape_renders_example :
    (text : Bytes) × (write_families naturals decimals
        (snapshot handler
          (run naturals decimals (1 ∷ 5 ∷ []) handler (λ v. v) (λ a. a) new_store ops)
          (pos 40)).0
      ≡ some text)
scrape_renders_example =
    scrape_renders naturals decimals (1 ∷ 5 ∷ []) handler (λ v. v) (λ a. a) ops (pos 40)

scrape_test :
    write_families naturals decimals
      (snapshot handler
        (run naturals decimals (1 ∷ 5 ∷ []) handler (λ v. v) (λ a. a) new_store ops)
        (pos 40)).0
    ≡ some (
        bytes
          "# TYPE rt histogram\nrt_bucket{route=\"home\",le=\"1\"} 1\nrt_bucket{route=\"home\",le=\"5\"} 2\nrt_bucket{route=\"home\",le=\"+Inf\"} 3\nrt_sum{route=\"home\"} 13\nrt_count{route=\"home\"} 3\n")
unfolding write_families write_family snapshot run export_metrics observe search_bounds labels_key
    format_nat register counter_family_name exposed_labels sort_labels insert_label less
    exposed_name same has_prefix normalize_name extra_bytes has_suffix write_sample ◌-ℤ◌
scrape_test = refl
