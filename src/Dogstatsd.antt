-- ===== src/Dogstatsd.antt =====
-- statstest/dogstatsd_parse.go: the parser of DogStatsD lines that the test server runs.
-- A string is the list of its bytes. A Go slice of tags that is nil is the empty list.
pub mod Event
pub mod Format
pub mod Serializer
pub mod Datagram
pub mod Sections
pub mod Metrics
pub mod Packets
pub mod Escapes
pub mod Reparse
pub mod EventPackets
pub mod Panics
mod Tests
pub mod Events
pub mod Fields
pub mod Batches
use stats.Base.{
  ℕ, zero, suc, ◌+◌, ◌-◌, ◌%◌, ◌^◌, Bool, true, false, ◌&&◌, ◌||◌, not, Option, none, some, List,
  [], ◌∷◌, ◌++◌, length, take, drop, get_or, ltb, leb, ◌==◌, if◌then◌else◌,
}
use stats.Base.Int.{ℤ, negsuc, eq_ℤ}
use stats.Base.Float.{Float64, FloatText}
use stats.Base.Text.{Bytes, before, after, split, same, has_prefix, is_empty}
use stats.Base.Decimal.{parse_int}

-- `DogStatsDMetric`.
pub record WireMetric (F : Type 0) : Type 0 where
  pub name : Bytes
  pub value : F
  pub type : Bytes
  pub tags : List Bytes
  pub sample_rate : F

-- A `time.Time`: Unix seconds and the nanoseconds within the second.
pub record Time : Type 0 where
  pub unix : ℤ
  pub nanos : ℕ

-- January 1 of the year 1.
abbrev pub zero_time : Time
zero_time = record { unix = negsuc 62135596799; nanos = 0 }

abbrev pub is_zero : Time → Bool
is_zero t = eq_ℤ t.unix (negsuc 62135596799) && t.nanos == 0

-- `DogStatsDEvent`.
pub record WireEvent : Type 0 where
  pub title : Bytes
  pub text : Bytes
  pub timestamp : Time
  pub host : Bytes
  pub priority : Bytes
  pub alert_type : Bytes
  pub aggregation_key : Bytes
  pub source_type_name : Bytes
  pub tags : List Bytes

-- The type codes: c, g, h, d, s and ms.
abbrev pub known_type : Bytes → Bool
known_type [] = false
known_type (c ∷ []) = c == b'c' || c == b'g' || c == b'h' || c == b'd' || c == b's'
known_type (c ∷ d ∷ []) = c == b'm' && d == b's'
known_type (c ∷ d ∷ e ∷ s) = false

abbrev pub drop_empty : List Bytes → List Bytes
drop_empty [] = []
drop_empty ([] ∷ ps) = drop_empty ps
drop_empty ((c ∷ p) ∷ ps) = (c ∷ p) ∷ drop_empty ps

pub split_tags : Bytes → List Bytes
split_tags s = drop_empty (split b',' s)

infixl 5 ◌>>=◌
abbrev pub ◌>>=◌ {ℓ κ} : {A : Type ℓ} {B : Type κ} → Option A → (A → Option B) → Option B
none >>= k = none
some a >>= k = k a

module _ {F : Type 0} (f : Float64 F) (t : FloatText F) where
  -- `rate > 0 && rate <= 1`
  abbrev pub is_rate : F → Bool
  is_rate rate = f.lt f.nought rate && (f.lt rate t.one || t.eq rate t.one)

  abbrev pub set_rate : WireMetric F → Option F → Option (WireMetric F)
  set_rate m none = none
  set_rate m (some rate) = if is_rate rate then some (record m { sample_rate = rate }) else none

  -- A round of the loop over the optional sections.
  unfoldable pub apply_section : WireMetric F → Bytes → Option (WireMetric F)
  apply_section m [] = some m
  apply_section m (c ∷ s) =
      if c == b'@'
      then set_rate m (t.parse_float s)
      else if c == b'#'
      then some (record m { tags = split_tags s })
      else some m

  unfoldable pub apply_sections : WireMetric F → List Bytes → Option (WireMetric F)
  apply_sections m [] = some m
  apply_sections m (sec ∷ secs) = apply_section m sec >>= λ m'. apply_sections m' secs

  abbrev pub typed : Bytes → Bytes → List Bytes → F → Option (WireMetric F)
  typed name code secs value =
      if f.is_nan value
      then none
      else if known_type code
      then apply_sections
          (record { name = name; value = value; type = code; tags = []; sample_rate = t.one }) secs
      else none

  abbrev pub with_sections : Bytes → List Bytes → Option (WireMetric F)
  with_sections name [] = none
  with_sections name (v ∷ []) = none
  with_sections name (v ∷ code ∷ secs) = t.parse_float v >>= typed name code secs

  pub parse_metric : Bytes → Option (WireMetric F)
  unfolding apply_section apply_sections
  parse_metric line = after b':' line >>= λ rest.
      if is_empty (before b':' line)
      then none
      else with_sections (before b':' line) (split b'|' rest)
