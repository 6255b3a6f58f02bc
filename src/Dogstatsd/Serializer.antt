-- ===== src/Dogstatsd/Serializer.antt =====
-- serializers/dogstatsd.go and serializers/dogstatsd_event.go: metrics and events as DogStatsD lines.
-- The pool of buffers is left out: a packet is a fresh copy. A value of an attribute is a parameter
-- with the string that its method `Emit` gives.
use stats.Base.{ℕ, Bool, true, false, ◌||◌, List, [], ◌∷◌, ◌++◌, map, length, if◌then◌else◌}
use stats.Base.Float.{FloatText}
use stats.Base.Text.{Bytes, before, same, has_prefix, is_empty}
use stats.Base.Decimal.{format_nat, format_int}
use stats.Dogstatsd.{Time, is_zero}
use stats.Dogstatsd.Format.{escape}
use stats.Metric.{Metric, MetricType, counter, gauge, histogram, Attributes}

-- `DogStatsDSerializer`; the keys of the set of filters, which is nil if there are none.
pub record Serializer : Type 0 where
  pub global_tags : List Bytes
  pub distributions : Bool
  pub distribution_prefixes : List Bytes
  pub filters : List Bytes

abbrev pub with_distributions : Bool → Serializer → Serializer
with_distributions enabled s = record s { distributions = enabled }

abbrev pub with_distribution_prefixes : List Bytes → Serializer → Serializer
with_distribution_prefixes prefixes s = record s { distribution_prefixes = prefixes }

abbrev pub with_tag_filters : List Bytes → Serializer → Serializer
with_tag_filters keys s = record s { filters = keys }

abbrev pub apply_options : List (Serializer → Serializer) → Serializer → Serializer
apply_options [] s = s
apply_options (opt ∷ opts) s = apply_options opts (opt s)

-- `NewDogStatsDSerializer`.
unfoldable pub new_serializer : List Bytes → List (Serializer → Serializer) → Serializer
new_serializer global_tags opts = apply_options opts (record {
  global_tags = global_tags;
  distributions = false;
  distribution_prefixes = [];
  filters = [];
})

abbrev pub any_prefix : List Bytes → Bytes → Bool
any_prefix [] name = false
any_prefix (p ∷ ps) name = has_prefix p name || any_prefix ps name

unfoldable pub is_distribution : Serializer → Bytes → Bool
is_distribution s name = if s.distributions then true else any_prefix s.distribution_prefixes name

abbrev pub type_code : Serializer → Bytes → MetricType → Bytes
type_code s name counter = b'c' ∷ []
type_code s name gauge = b'g' ∷ []
type_code s name histogram = if is_distribution s name then b'd' ∷ [] else b'h' ∷ []

abbrev pub has_key : Bytes → List Bytes → Bool
has_key key [] = false
has_key key (k ∷ ks) = same key k || has_key key ks

-- `filtered`; an empty set has no key.
unfoldable pub filtered : Serializer → Bytes → Bool
filtered s key = has_key key s.filters

abbrev pub global_tag_key : Bytes → Bytes
global_tag_key tag = before b':' tag

-- `writeSep`; the flag is `wrote`.
abbrev pub write_sep : Bool → Bytes → Bytes
write_sep wrote buf = if wrote then buf ++ b',' ∷ [] else buf ++ b'|' ∷ b'#' ∷ []

-- The first loop of `writeTags`.
unfoldable pub write_globals : Serializer → List Bytes → Bool → Bytes → Bool × Bytes
write_globals s [] wrote buf = (wrote, buf)
write_globals s (tag ∷ tags) wrote buf =
    let skipped = write_globals s tags wrote buf in
    let written = write_globals s tags true (write_sep wrote buf ++ tag) in
    if filtered s (global_tag_key tag) then skipped else written

module _ {V : Type 0} (emit : V → Bytes) where
  -- The second loop.
  unfoldable pub write_attrs : Serializer → Attributes V → Bool → Bytes → Bytes
  write_attrs s [] wrote buf = buf
  write_attrs s ((key, value) ∷ attrs) wrote buf =
      let skipped = write_attrs s attrs wrote buf in
      let written =
        write_attrs s attrs true (write_sep wrote buf ++ (key ++ (b':' ∷ emit value))) in
      if filtered s key then skipped else written

  unfoldable pub write_tags : Serializer → Bytes → Attributes V → Bytes
  write_tags s buf attrs =
      let (wrote, buf') = write_globals s s.global_tags false buf in write_attrs s attrs wrote buf'

  module _ {F : Type 0} (t : FloatText F) where
    -- A round of `Serialize`.
    unfoldable pub serialize_metric : Serializer → Metric F V → Bytes
    serialize_metric s m =
        write_tags s
          (m.name ++ (b':' ∷ (t.format_verb m.value ++ (b'|' ∷ type_code s m.name m.type))))
          m.attributes

    unfoldable pub serialize : Serializer → List (Metric F V) → List Bytes
    serialize s metrics = map (serialize_metric s) metrics

-- `models.DatadogEvent`.
pub record DatadogEvent (V : Type 0) : Type 0 where
  pub title : Bytes
  pub text : Bytes
  pub timestamp : Time
  pub host : Bytes
  pub priority : Bytes
  pub alert_type : Bytes
  pub aggregation_key : Bytes
  pub source_type_name : Bytes
  pub tags : Attributes V

-- `writeEventField`.
abbrev pub write_event_field : Bytes → Bytes → Bytes → Bytes
write_event_field buf prefix value = if is_empty value then buf else buf ++ (prefix ++ value)

abbrev pub letter_prefix : ℕ → Bytes
letter_prefix c = b'|' ∷ c ∷ b':' ∷ []

-- The part of `SerializeEvent` before the optional fields.
unfoldable pub write_sized : Bytes → Bytes → Bytes
write_sized title text =
    b'_'
    ∷ b'e'
    ∷ b'{'
    ∷ (format_nat (length title)
        ++ (b',' ∷ (format_nat (length text) ++ (b'}' ∷ b':' ∷ (title ++ (b'|' ∷ text))))))

-- The timestamp and the five optional fields.
unfoldable pub write_fields : {V : Type 0} → DatadogEvent V → Bytes → Bytes
write_fields e buf =
    let b1 =
      if is_zero e.timestamp
      then buf
      else buf ++ (letter_prefix b'd' ++ format_int e.timestamp.unix) in
    let b2 = write_event_field b1 (letter_prefix b'h') e.host in
    let b3 = write_event_field b2 (letter_prefix b'p') e.priority in
    let b4 = write_event_field b3 (letter_prefix b't') e.alert_type in
    let b5 = write_event_field b4 (letter_prefix b'k') e.aggregation_key in
    write_event_field b5 (letter_prefix b's') e.source_type_name

unfoldable pub serialize_event : {V : Type 0} → (V → Bytes) → Serializer → DatadogEvent V → Bytes
unfolding write_sized write_fields
serialize_event emit s e =
    write_tags emit s (write_fields e (write_sized (escape e.title) (escape e.text))) e.tags
