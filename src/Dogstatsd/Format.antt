-- ===== src/Dogstatsd/Format.antt =====
-- statstest/dogstatsd_format.go: metrics and events as the lines that the parser reads.
use stats.Base.{ℕ, ◌&&◌, not, List, [], ◌∷◌, ◌++◌, length, ◌==◌, if◌then◌else◌}
use stats.Base.Float.{Float64, FloatText}
use stats.Base.Text.{Bytes, join, is_empty}
use stats.Base.Decimal.{format_nat, format_int}
use stats.Dogstatsd.{WireMetric, WireEvent, Time, is_zero}

-- `writeFormattedTags`: what it appends.
unfoldable pub format_tags : List Bytes → Bytes
format_tags [] = []
format_tags (tag ∷ tags) = b'|' ∷ b'#' ∷ join b',' (tag ∷ tags)

module _ {F : Type 0} (f : Float64 F) (t : FloatText F) where
  -- The "@rate" section.
  abbrev pub format_rate : F → Bytes
  format_rate rate =
      if not (t.eq rate f.nought) && not (t.eq rate t.one)
      then b'|' ∷ b'@' ∷ t.format_float rate
      else []

  -- `DogStatsDMetric.String`.
  unfoldable pub format_metric : WireMetric F → Bytes
  format_metric m =
      m.name
      ++ (b':'
          ∷ (t.format_float m.value
              ++ (b'|' ∷ (m.type ++ (format_rate m.sample_rate ++ format_tags m.tags)))))

-- `strings.ReplaceAll(s, "\n", "\\n")`.
unfoldable pub escape : Bytes → Bytes
escape [] = []
escape (c ∷ s) = let rest = escape s in if c == b'\n' then b'\\' ∷ b'n' ∷ rest else c ∷ rest

abbrev pub format_field : ℕ → Bytes → Bytes
format_field letter value = if is_empty value then [] else b'|' ∷ letter ∷ b':' ∷ value

abbrev pub format_time : Time → Bytes
format_time time = if is_zero time then [] else b'|' ∷ b'd' ∷ b':' ∷ format_int time.unix

-- "_e{", the two lengths, "}:", the title, a bar, the text, and the sections.
abbrev pub format_sized : Bytes → Bytes → Bytes → Bytes
format_sized title text sections =
    b'_'
    ∷ b'e'
    ∷ b'{'
    ∷ (format_nat (length title)
        ++ (b','
            ∷ (format_nat (length text) ++ (b'}' ∷ b':' ∷ (title ++ (b'|' ∷ (text ++ sections)))))))

-- `DogStatsDEvent.String`.
unfoldable pub format_event : WireEvent → Bytes
format_event e = format_sized (escape e.title) (escape e.text) (
    format_time e.timestamp
    ++ (format_field b'h' e.host
        ++ (format_field b'p' e.priority
            ++ (format_field b't' e.alert_type
                ++ (format_field b'k' e.aggregation_key
                    ++ (format_field b's' e.source_type_name ++ format_tags e.tags))))))
