-- ===== src/Prometheus/Registry.antt =====
-- exporters/prometheus/exposition_registry.go: the names of families and series, first come first
-- served. A Go map is an association list.
pub mod Disjoint
use stats.Base.{
  ℕ, Bool, true, false, ◌&&◌, ◌||◌, Option, none, some, List, [], ◌∷◌, ◌++◌, if◌then◌else◌,
}
use stats.Base.Text.{Bytes, same}
use stats.Metric.{MetricType, counter, gauge, histogram}
use stats.Prometheus.{normalize_metric_name, counter_family_name}

module _ {ℓ} {V : Type ℓ} where
  -- `m[k]` with its second result.
  abbrev pub lookup : Bytes → List (Bytes × V) → Option V
  lookup k [] = none
  lookup k ((j, v) ∷ m) = if same k j then some v else lookup k m

abbrev pub is_some {ℓ} : {A : Type ℓ} → Option A → Bool
is_some none = false
is_some (some a) = true

abbrev pub same_type : MetricType → MetricType → Bool
same_type counter counter = true
same_type gauge gauge = true
same_type histogram histogram = true
same_type counter gauge = false
same_type counter histogram = false
same_type gauge counter = false
same_type gauge histogram = false
same_type histogram counter = false
same_type histogram gauge = false

pub record FamilyEntry : Type 0 where
  pub source : Bytes
  pub type : MetricType

pub record FamilyRegistry : Type 0 where
  pub families : List (Bytes × FamilyEntry)
  pub series : List (Bytes × Bytes)

abbrev pub new_registry : FamilyRegistry
new_registry = record { families = []; series = [] }

-- "_bucket", "_sum" and "_count".
abbrev pub bucket_suffix : Bytes
bucket_suffix = b'_' ∷ b'b' ∷ b'u' ∷ b'c' ∷ b'k' ∷ b'e' ∷ b't' ∷ []

abbrev pub sum_suffix : Bytes
sum_suffix = b'_' ∷ b's' ∷ b'u' ∷ b'm' ∷ []

abbrev pub count_suffix : Bytes
count_suffix = b'_' ∷ b'c' ∷ b'o' ∷ b'u' ∷ b'n' ∷ b't' ∷ []

abbrev pub series_names : Bytes → MetricType → List Bytes
series_names family histogram =
    (family ++ bucket_suffix) ∷ (family ++ sum_suffix) ∷ (family ++ count_suffix) ∷ []
series_names family counter = family ∷ []
series_names family gauge = family ∷ []

abbrev pub family_name : Bytes → MetricType → Bytes
family_name source counter = counter_family_name source
family_name source gauge = normalize_metric_name source
family_name source histogram = normalize_metric_name source

-- The loop over the series names: whether one is an existing family or owned by a family.
abbrev pub any_taken : FamilyRegistry → List Bytes → Bool
any_taken r [] = false
any_taken r (s ∷ names) =
    is_some (lookup s r.families) || is_some (lookup s r.series) || any_taken r names

abbrev pub own : Bytes → List Bytes → List (Bytes × Bytes) → List (Bytes × Bytes)
own family [] series = series
own family (s ∷ names) series = own family names ((s, family) ∷ series)

-- The result of `Register` for a family that has no entry.
unfoldable pub register_new :
    FamilyRegistry → Bytes → Bytes → MetricType → Option Bytes × FamilyRegistry
register_new r family source type =
    if is_some (lookup family r.series) || any_taken r (series_names family type)
    then (none, r)
    else (
      some family,
      record {
        families = (family, record { source = source; type = type }) ∷ r.families;
        series = own family (series_names family type) r.series;
      },
    )

abbrev pub register_at :
    FamilyRegistry → Bytes → Bytes → MetricType → Option FamilyEntry → Option Bytes × FamilyRegistry
register_at r family source type (some e) =
    if same e.source source && same_type e.type type then (some family, r) else (none, r)
register_at r family source type none = register_new r family source type

-- `Register`; `none` is `ErrFamilyCollision`.
unfoldable pub register : FamilyRegistry → Bytes → MetricType → Option Bytes × FamilyRegistry
unfolding register_new
register r source type =
    let family = family_name source type in
    register_at r family source type (lookup family r.families)
