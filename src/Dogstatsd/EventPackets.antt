-- ===== src/Dogstatsd/EventPackets.antt =====
-- `SerializeEvent` against `DogStatsDEvent.String`, and against the parser.
use stats.Base.{
  ℕ, ◌≡◌, refl, sym, ap, ◌∙◌, [], ◌∷◌, ◌++◌, append_assoc, append-nil, if◌then◌else◌, Bool-cases,
  inl, inr,
}
use stats.Base.Text.{Bytes}
use stats.Base.Decimal.{format_int}
use stats.Dogstatsd.{WireEvent, Time, is_zero}
use stats.Dogstatsd.Event.{ok, parse_event}
use stats.Dogstatsd.Format.{escape, format_tags, format_field, format_time, format_event}
use stats.Dogstatsd.Serializer.{
  Serializer, DatadogEvent, write_event_field, letter_prefix, write_sized, write_fields,
  serialize_event,
}
use stats.Dogstatsd.Packets.{wire_tags, write_tags_lem}
use stats.Dogstatsd.Fields.{whole_seconds}
use stats.Dogstatsd.Events.{IsWireEvent, IsSized, parse_event-format_event}

write_event_field_lem :
    (buf : Bytes) (letter : ℕ) (value : Bytes)
    → write_event_field buf (letter_prefix letter) value ≡ buf ++ format_field letter value
write_event_field_lem buf letter [] = sym (append-nil buf)
write_event_field_lem buf letter (c ∷ value) = refl

write_time_lem :
    (buf : Bytes) (t : Time)
    → (if is_zero t then buf else buf ++ (letter_prefix b'd' ++ format_int t.unix))
      ≡ buf ++ format_time t
write_time_lem buf t = elim (Bool-cases (is_zero t)) [
  | inl zero_here ↦ rw zero_here (sym (append-nil buf))
  | inr set ↦ rw set refl
]

-- An optional field behind what was written so far.
write_next :
    (buf base acc value : Bytes) (letter : ℕ)
    → buf ≡ base ++ acc
    → write_event_field buf (letter_prefix letter) value
      ≡ base ++ (acc ++ format_field letter value)
write_next buf base acc value letter e =
    write_event_field_lem buf letter value
    ∙ ap (λ b. b ++ format_field letter value) e
    ∙ append_assoc base acc (format_field letter value)

write_fields_lem :
    {V : Type 0} (e : DatadogEvent V) (buf : Bytes)
    → write_fields e buf
      ≡ buf
        ++ (format_time e.timestamp
            ++ format_field b'h' e.host
            ++ format_field b'p' e.priority
            ++ format_field b't' e.alert_type
            ++ format_field b'k' e.aggregation_key
            ++ format_field b's' e.source_type_name)
unfolding write_fields
write_fields_lem e buf = write_next _ buf _ e.source_type_name b's' (
    write_next _ buf _ e.aggregation_key b'k' (
      write_next _ buf _ e.alert_type b't' (
        write_next _ buf _ e.priority b'p'
          (write_next _ buf _ e.host b'h' (write_time_lem buf e.timestamp)))))

module _ {V : Type 0} (emit : V → Bytes) where
  -- What the test server should receive for an event.
  abbrev pub wire_event : Serializer → DatadogEvent V → WireEvent
  wire_event s e = record {
    title = e.title;
    text = e.text;
    timestamp = e.timestamp;
    host = e.host;
    priority = e.priority;
    alert_type = e.alert_type;
    aggregation_key = e.aggregation_key;
    source_type_name = e.source_type_name;
    tags = wire_tags emit s e.tags;
  }

  -- `SerializeEvent` writes what `DogStatsDEvent.String` writes for the same event with the tags that
  -- are left of the global tags and its own.
  pub serialize_event-format_event :
      (s : Serializer) (e : DatadogEvent V)
      → serialize_event emit s e ≡ format_event (wire_event s e)
  unfolding serialize_event format_event write_sized
  serialize_event-format_event s e =
      write_tags_lem emit s _ e.tags
      ∙ ap (λ b. b ++ format_tags (wire_tags emit s e.tags))
          (write_fields_lem e (write_sized (escape e.title) (escape e.text)))
      ∙ simp append_assoc

  -- A datagram of `SerializeEvent` parses to the event, its time in whole seconds, if a line can carry
  -- the event.
  pub parse_event-serialize_event :
      (s : Serializer) (e : DatadogEvent V)
      → IsWireEvent (wire_event s e)
      → IsSized (wire_event s e)
      → parse_event (serialize_event emit s e)
        ≡ ok (record (wire_event s e) { timestamp = whole_seconds e.timestamp })
  parse_event-serialize_event s e w small =
      ap parse_event (serialize_event-format_event s e)
      ∙ parse_event-format_event (wire_event s e) w small
