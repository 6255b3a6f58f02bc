-- ===== src/Prometheus/Write.antt =====
-- exporters/prometheus/exposition_write.go: families in the Prometheus text format.
-- The writer is left out: the result is the text that it is given, or an error.
use stats.Base.{
  ℕ, ◌+◌, Bool, true, false, ◌&&◌, not, Option, none, some, List, [], ◌∷◌, ◌++◌, length, get_or,
  ◌==◌, if◌then◌else◌,
}
use stats.Base.Word.{add64}
use stats.Base.Float.{Float64, FloatText}
use stats.Base.Text.{Bytes}
use stats.Base.Decimal.{format_nat}
use stats.Metric.{MetricType, counter, gauge, histogram}
use stats.Prometheus.{Label, less}
use stats.Prometheus.Registry.{bucket_suffix, sum_suffix, count_suffix}
use stats.Prometheus.Store.{HistogramData, Series, Family}

-- `escapeLabelValue`.
unfoldable pub escape_label_value : Bytes → Bytes
escape_label_value [] = []
escape_label_value (c ∷ s) =
    let rest = escape_label_value s in
    if c == b'\\'
    then b'\\' ∷ b'\\' ∷ rest
    else if c == b'"'
    then b'\\' ∷ b'"' ∷ rest
    else if c == b'\n'
    then b'\\' ∷ b'n' ∷ rest
    else c ∷ rest

abbrev pub write_label : Label → Bytes
write_label l = l.label_name ++ (b'=' ∷ b'"' ∷ (escape_label_value l.label_value ++ b'"' ∷ []))

abbrev pub write_labels : List Label → Bytes
write_labels [] = []
write_labels (l ∷ []) = write_label l
write_labels (l ∷ m ∷ ls) = write_label l ++ (b',' ∷ write_labels (m ∷ ls))

abbrev pub braced : List Label → Bytes
braced [] = []
braced (l ∷ ls) = b'{' ∷ (write_labels (l ∷ ls) ++ b'}' ∷ [])

-- `writeSample`: the extra label, if there is one, is the last.
abbrev pub with_extra : List Label → Option Label → List Label
with_extra labels none = labels
with_extra labels (some extra) = labels ++ extra ∷ []

unfoldable pub write_sample : Bytes → List Label → Option Label → Bytes → Bytes
unfolding escape_label_value
write_sample name labels extra value =
    name ++ (braced (with_extra labels extra) ++ (b' ' ∷ (value ++ b'\n' ∷ [])))

-- `compareLabels(a, b) < 0`.
unfoldable pub less_labels : List Label → List Label → Bool
less_labels labels [] = false
less_labels [] (m ∷ ms) = true
less_labels (l ∷ ls) (m ∷ ms) =
    if less l.label_name m.label_name
    then true
    else if less m.label_name l.label_name
    then false
    else if less l.label_value m.label_value
    then true
    else if less m.label_value l.label_value
    then false
    else less_labels ls ms

-- A stable sort by a comparison.
abbrev pub insert_by : {A : Type 0} → (A → A → Bool) → A → List A → List A
insert_by lt x [] = x ∷ []
insert_by lt x (y ∷ ys) = if lt x y then x ∷ y ∷ ys else y ∷ insert_by lt x ys

abbrev pub sort_by : {A : Type 0} → (A → A → Bool) → List A → List A → List A
sort_by lt sorted [] = sorted
sort_by lt sorted (x ∷ xs) = sort_by lt (insert_by lt x sorted) xs

abbrev type_name : MetricType → Bytes
type_name counter = b'c' ∷ b'o' ∷ b'u' ∷ b'n' ∷ b't' ∷ b'e' ∷ b'r' ∷ []
type_name gauge = b'g' ∷ b'a' ∷ b'u' ∷ b'g' ∷ b'e' ∷ []
type_name histogram = b'h' ∷ b'i' ∷ b's' ∷ b't' ∷ b'o' ∷ b'g' ∷ b'r' ∷ b'a' ∷ b'm' ∷ []

module _ {F : Type 0} (f : Float64 F) (t : FloatText F) where
  abbrev format_value : F → Bytes
  format_value v =
      if f.is_nan v
      then b'N' ∷ b'a' ∷ b'N' ∷ []
      else if f.is_inf v
      then (if f.lt f.nought v
          then b'+' ∷ b'I' ∷ b'n' ∷ b'f' ∷ []
          else b'-' ∷ b'I' ∷ b'n' ∷ b'f' ∷ [])
      else t.format_float v

  abbrev le_label : Bytes → Label
  le_label value = record { label_name = b'l' ∷ b'e' ∷ []; label_value = value }

  -- The loop over the bounds: what it writes, and the count in the end.
  unfoldable pub write_buckets : Bytes → List Label → List F → List ℕ → ℕ → Bytes × ℕ
  write_buckets name labels [] counts cum = ([], cum)
  write_buckets name labels (b ∷ bs) [] cum = ([], cum)
  write_buckets name labels (b ∷ bs) (c ∷ cs) cum =
      let cum' = add64 cum c in
      let (rest, last) = write_buckets name labels bs cs cum' in
      (
        write_sample (name ++ bucket_suffix) labels (some (le_label (t.format_float b)))
              (format_nat cum')
            ++ rest,
        last,
      )

  -- `h.Bounds[i] > h.Bounds[i-1]` for every i.
  abbrev pub increasing : List F → Bool
  increasing [] = true
  increasing (b ∷ []) = true
  increasing (b ∷ c ∷ bs) = f.lt b c && increasing (c ∷ bs)

  -- `writeHistogram`; `none` is `ErrInvalidFamily`.
  unfoldable pub write_histogram : Bytes → Series F → Option (HistogramData F) → Option Bytes
  unfolding write_buckets
  write_histogram name s none = none
  write_histogram name s (some h) =
      if not (length h.data_counts == length h.data_bounds + 1)
      then none
      else if not (increasing h.data_bounds)
      then none
      else let (buckets, cum) = write_buckets name s.series_labels h.data_bounds h.data_counts 0 in
        let all = add64 cum (get_or h.data_counts (length h.data_bounds) 0) in
        some (
          buckets
          ++ (write_sample (name ++ bucket_suffix) s.series_labels
                (some (le_label (b'+' ∷ b'I' ∷ b'n' ∷ b'f' ∷ []))) (format_nat all)
              ++ (write_sample (name ++ sum_suffix) s.series_labels none (format_value h.data_sum)
                  ++ write_sample (name ++ count_suffix) s.series_labels none (format_nat all))))

  abbrev pub write_one : Bytes → MetricType → Series F → Option Bytes
  write_one name counter s =
      some (write_sample name s.series_labels none (format_value s.series_value))
  write_one name gauge s =
      some (write_sample name s.series_labels none (format_value s.series_value))
  write_one name histogram s = write_histogram name s s.series_histogram

  abbrev pub joined : Option Bytes → Option Bytes → Option Bytes
  joined none rest = none
  joined (some text) none = none
  joined (some text) (some rest) = some (text ++ rest)

  abbrev pub write_all : Bytes → MetricType → List (Series F) → Option Bytes
  write_all name type [] = some []
  write_all name type (s ∷ ss) = joined (write_one name type s) (write_all name type ss)

  -- `writeFamily`, with the series ordered by their labels.
  unfoldable pub write_family : Family F → Option Bytes
  unfolding write_histogram write_sample
  write_family fam =
      joined
        (some (
          b'#'
          ∷ b' '
          ∷ b'T'
          ∷ b'Y'
          ∷ b'P'
          ∷ b'E'
          ∷ b' '
          ∷ (fam.exposed ++ (b' ' ∷ (type_name fam.family_type ++ b'\n' ∷ [])))))
        (write_all fam.exposed fam.family_type
          (sort_by (λ a b. less_labels a.series_labels b.series_labels) [] fam.family_series))

  abbrev pub write_each : List (Family F) → Option Bytes
  write_each [] = some []
  write_each (fam ∷ fams) = joined (write_family fam) (write_each fams)

  -- `WriteFamilies`; nothing is written if a family is invalid.
  unfoldable pub write_families : List (Family F) → Option Bytes
  unfolding write_family
  write_families families = write_each (sort_by (λ a b. less a.exposed b.exposed) [] families)
