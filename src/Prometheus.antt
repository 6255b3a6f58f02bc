-- ===== src/Prometheus.antt =====
-- exporters/prometheus/exposition.go: names and labels of the Prometheus exposition.
-- A value of an attribute is a parameter with the string that its method `String` gives.
pub mod Registry
pub mod Store
pub mod Write
pub mod Names
pub mod Labels
mod Tests
use stats.Base.{
  ℕ, zero, suc, ◌+◌, ◌-◌, Bool, true, false, ◌&&◌, ◌||◌, not, Option, none, some, List, [], ◌∷◌,
  ◌++◌, length, drop, ltb, leb, ◌==◌, if◌then◌else◌,
}
use stats.Base.Text.{Bytes, same, has_prefix}
use stats.Base.Utf8.{extra_bytes}
use stats.Metric.{MetricType, counter, gauge, histogram, Attributes}

-- `%` of the errors: the metric or the label is not part of the model.
pub data ExpositionError : Type 0 where
  observed_nan label_collision family_collision invalid_buckets invalid_family : ExpositionError

pub record Label : Type 0 where
  pub label_name : Bytes
  pub label_value : Bytes

abbrev pub is_name_start : ℕ → Bool
is_name_start c = (leb b'a' c && leb c b'z') || (leb b'A' c && leb c b'Z') || c == b'_'

abbrev pub is_name_digit : ℕ → Bool
is_name_digit c = leb b'0' c && leb c b'9'

-- The loop of `normalizeName`; `left` bytes of a rune are passed over, and `first` is `i == 0`.
normalize_from : Bool → Bool → ℕ → Bytes → Bytes
normalize_from allow_colon first left [] = []
normalize_from allow_colon first (suc left) (c ∷ s) = normalize_from allow_colon first left s
normalize_from allow_colon first zero (c ∷ s) =
    let rest = normalize_from allow_colon false (extra_bytes c s) s in
    if is_name_start c
    then c ∷ rest
    else if is_name_digit c
    then (if first then b'_' ∷ c ∷ rest else c ∷ rest)
    else if c == b':' && allow_colon
    then c ∷ rest
    else b'_' ∷ rest

unfoldable pub normalize_name : Bool → Bytes → Bytes
unfolding normalize_from
normalize_name allow_colon [] = b'_' ∷ []
normalize_name allow_colon (c ∷ s) = normalize_from allow_colon true 0 (c ∷ s)

abbrev pub normalize_metric_name : Bytes → Bytes
normalize_metric_name name = normalize_name true name

abbrev pub normalize_label_name : Bytes → Bytes
normalize_label_name name = normalize_name false name

-- "_total"
abbrev pub total_suffix : Bytes
total_suffix = b'_' ∷ b't' ∷ b'o' ∷ b't' ∷ b'a' ∷ b'l' ∷ []

-- `strings.HasSuffix`, the suffix first.
unfoldable pub has_suffix : Bytes → Bytes → Bool
has_suffix t [] = same t []
has_suffix t (c ∷ s) = if same t (c ∷ s) then true else has_suffix t s

unfoldable pub counter_family_name : Bytes → Bytes
counter_family_name name =
    let n = normalize_metric_name name in if has_suffix total_suffix n then n else n ++ total_suffix

-- `strings.Compare(a, b) < 0`.
unfoldable pub less : Bytes → Bytes → Bool
less s [] = false
less [] (b ∷ t) = true
less (a ∷ s) (b ∷ t) = if ltb a b then true else if ltb b a then false else less s t

-- `slices.SortStableFunc` by name: a label goes behind those that are not greater.
unfoldable pub insert_label : Label → List Label → List Label
insert_label l [] = l ∷ []
insert_label l (m ∷ ms) =
    let behind = m ∷ insert_label l ms in
    if less l.label_name m.label_name then l ∷ m ∷ ms else behind

abbrev sort_onto : List Label → List Label → List Label
sort_onto sorted [] = sorted
sort_onto sorted (l ∷ ls) = sort_onto (insert_label l sorted) ls

unfoldable pub sort_labels : List Label → List Label
unfolding insert_label
sort_labels ls = sort_onto [] ls

-- Whether two neighbours have one name.
abbrev pub has_collision : List Label → Bool
has_collision [] = false
has_collision (l ∷ []) = false
has_collision (l ∷ m ∷ ls) = same m.label_name l.label_name || has_collision (m ∷ ls)

abbrev is_histogram : MetricType → Bool
is_histogram counter = false
is_histogram gauge = false
is_histogram histogram = true

unfoldable pub exposed_name : MetricType → Bytes → Bytes
exposed_name type key =
    let name = normalize_label_name key in
    if has_prefix (b'_' ∷ b'_' ∷ []) name || (is_histogram type && same name (b'l' ∷ b'e' ∷ []))
    then b'_' ∷ name
    else name

module _ {V : Type 0} (show : V → Bytes) where
  abbrev pub labels_of : MetricType → Attributes V → List Label
  labels_of type [] = []
  labels_of type ((key, value) ∷ attrs) =
      record { label_name = exposed_name type key; label_value = show value } ∷ labels_of type attrs

  -- `none` is `ErrLabelCollision`.
  unfoldable pub exposed_labels : MetricType → Attributes V → Option (List Label)
  exposed_labels type attrs =
      let labels = sort_labels (labels_of type attrs) in
      if has_collision labels then none else some labels
