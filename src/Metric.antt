-- ===== src/Metric.antt =====
-- models/metric.go: a metric and the estimate of its size.
-- A string is the list of its bytes. A value of an attribute is one of the OTel library: a parameter,
-- with the string that its method `Emit` gives.
use stats.Base.{ℕ, ◌+◌, Bool, true, false, ◌&&◌, Option, List, [], ◌∷◌, length, ◌==◌, if◌then◌else◌}
use stats.Base.Int.{ℤ}

pub data MetricType : Type 0 where
  counter gauge histogram : MetricType

abbrev pub Attributes : Type 0 → Type 0
Attributes V = List (List ℕ × V)

-- `Timestamp` is `none` for the zero time. An id of a trace or a span is the list of its bytes.
pub record Metric (F V : Type 0) : Type 0 where
  pub name : List ℕ
  pub type : MetricType
  pub value : F
  pub attributes : Attributes V
  pub timestamp : Option ℤ
  pub priority : ℤ
  pub trace_id : List ℕ
  pub span_id : List ℕ
  pub description : List ℕ
  pub unit : List ℕ

-- `TraceID.IsValid` and `SpanID.IsValid`: not all bytes are 0.
abbrev is_valid_id : List ℕ → Bool
is_valid_id [] = false
is_valid_id (b ∷ bs) = if b == 0 then is_valid_id bs else true

unfoldable pub attributes_size : {V : Type 0} → (V → List ℕ) → Attributes V → ℕ
attributes_size emit [] = 0
attributes_size emit ((key, value) ∷ attrs) =
    length key + length (emit value) + attributes_size emit attrs

module _ {F V : Type 0} where
  unfoldable pub has_exemplar : Metric F V → Bool
  has_exemplar m = is_valid_id m.trace_id && is_valid_id m.span_id

  unfoldable pub estimate_size : (V → List ℕ) → Metric F V → ℕ
  unfolding has_exemplar attributes_size
  estimate_size emit m =
      length m.name
      + length m.description
      + length m.unit
      + 8
      + 8
      + 4
      + 4
      + (if has_exemplar m then length m.trace_id + length m.span_id else 0)
      + attributes_size emit m.attributes
