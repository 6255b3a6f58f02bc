-- ===== src/Dogstatsd/Packets.antt =====
-- What the serializer writes, read by the parser of the test server.
use stats.Base.{
  ◌≡◌, refl, sym, ap, ◌∙◌, Bool, true, false, some, List, [], ◌∷◌, ◌++◌, append_assoc, append-nil,
  if◌then◌else◌, All, Bool-cases, inl, inr,
}
use stats.Base.Float.{Float64, FloatText, IsExact}
use stats.Base.Text.{Bytes, join}
use stats.Metric.{Metric, MetricType, counter, gauge, histogram, Attributes}
use stats.Dogstatsd.{WireMetric, known_type, parse_metric}
use stats.Dogstatsd.Format.{format_tags}
use stats.Dogstatsd.Serializer.{
  Serializer, is_distribution, type_code, filtered, global_tag_key, write_sep, write_globals,
  write_attrs, write_tags, serialize_metric,
}
use stats.Dogstatsd.Sections.{IsTag, tag_sections, format_tags-bars, tag_sections-Lacks}
use stats.Dogstatsd.Metrics.{IsName, number-Lacks, parse_line, apply_tags, fresh_metric}

abbrev kept_globals : Serializer → List Bytes → List Bytes
kept_globals s [] = []
kept_globals s (tag ∷ tags) =
    if filtered s (global_tag_key tag) then kept_globals s tags else tag ∷ kept_globals s tags

-- What `writeTags` still appends.
pending : Bool → List Bytes → Bytes
pending false tags = format_tags tags
pending true [] = []
pending true (tag ∷ tags) = b',' ∷ (tag ++ pending true tags)

join-pending : (tag : Bytes) (tags : List Bytes) → join b',' (tag ∷ tags) ≡ tag ++ pending true tags
unfolding join pending
join-pending tag [] = sym (append-nil tag)
join-pending tag (t ∷ tags) = ap (λ s. tag ++ b',' ∷ s) (join-pending t tags)

write_pending :
    (wrote : Bool) (buf tag : Bytes) (tags : List Bytes)
    → (write_sep wrote buf ++ tag) ++ pending true tags ≡ buf ++ pending wrote (tag ∷ tags)
unfolding pending format_tags
write_pending true buf tag tags = simp append_assoc
write_pending false buf tag tags = rw (join-pending tag tags) (simp append_assoc)

write_globals-pending :
    (s : Serializer) (tags : List Bytes) (wrote : Bool) (buf : Bytes) (more : List Bytes)
    → (write_globals s tags wrote buf).1 ++ pending (write_globals s tags wrote buf).0 more
      ≡ buf ++ pending wrote (kept_globals s tags ++ more)
unfolding write_globals
write_globals-pending s [] wrote buf more = refl
write_globals-pending s (tag ∷ tags) wrote buf more =
    elim (Bool-cases (filtered s (global_tag_key tag))) [
      | inl skipped ↦ rw skipped (write_globals-pending s tags wrote buf more)
      | inr written ↦ rw written (
          write_globals-pending s tags true (write_sep wrote buf ++ tag) more
          ∙ write_pending wrote buf tag (kept_globals s tags ++ more))
    ]

module _ {V : Type 0} (emit : V → Bytes) where
  abbrev kept_attrs : Serializer → Attributes V → List Bytes
  kept_attrs s [] = []
  kept_attrs s ((key, value) ∷ attrs) =
      if filtered s key
      then kept_attrs s attrs
      else (key ++ (b':' ∷ emit value)) ∷ kept_attrs s attrs

  -- The tags on the wire: global tags, then attributes, without those whose key is filtered.
  abbrev pub wire_tags : Serializer → Attributes V → List Bytes
  wire_tags s attrs = kept_globals s s.global_tags ++ kept_attrs s attrs

  write_attrs-pending :
      (s : Serializer) (attrs : Attributes V) (wrote : Bool) (buf : Bytes)
      → write_attrs emit s attrs wrote buf ≡ buf ++ pending wrote (kept_attrs s attrs)
  unfolding write_attrs
  write_attrs-pending s [] true buf = unfold pending in sym (append-nil buf)
  write_attrs-pending s [] false buf = unfold pending format_tags in sym (append-nil buf)
  write_attrs-pending s ((key, value) ∷ attrs) wrote buf = elim (Bool-cases (filtered s key)) [
    | inl skipped ↦ rw skipped (write_attrs-pending s attrs wrote buf)
    | inr written ↦
        let tag = key ++ (b':' ∷ emit value) in
        rw written (
          write_attrs-pending s attrs true (write_sep wrote buf ++ tag)
          ∙ write_pending wrote buf tag (kept_attrs s attrs))
  ]

  pub write_tags_lem :
      (s : Serializer) (buf : Bytes) (attrs : Attributes V)
      → write_tags emit s buf attrs ≡ buf ++ format_tags (wire_tags s attrs)
  unfolding write_tags pending
  write_tags_lem s buf attrs =
      let (wrote, buf') = write_globals s s.global_tags false buf in
      write_attrs-pending s attrs wrote buf'
      ∙ write_globals-pending s s.global_tags false buf (kept_attrs s attrs)

  pub known_type_code :
      (s : Serializer) (name : Bytes) (type : MetricType)
      → known_type (type_code s name type) ≡ true
  known_type_code s name counter = refl
  known_type_code s name gauge = refl
  known_type_code s name histogram = elim (Bool-cases (is_distribution s name)) [
    | inl d ↦ rw d refl
    | inr h ↦ rw h refl
  ]

  module _ {F : Type 0} (f : Float64 F) (t : FloatText F) where
    -- What the test server should receive for a metric.
    abbrev pub wire_metric : Serializer → Metric F V → WireMetric F
    wire_metric s m = record {
      name = m.name;
      value = m.value;
      type = type_code s m.name m.type;
      tags = wire_tags s m.attributes;
      sample_rate = t.one;
    }

    -- A metric whose name and tags a line can carry.
    pub record IsSendable (s : Serializer) (m : Metric F V) : Type 0 where
      pub named : IsName m.name
      pub number : f.is_nan m.value ≡ false
      pub tagged : All IsTag (wire_tags s m.attributes)

    -- A packet of `Serialize`, part by part.
    pub serialize_metric_lem :
        (s : Serializer) (m : Metric F V)
        → serialize_metric emit t s m
          ≡ m.name
            ++ (b':'
                ∷ (t.format_verb m.value
                    ++ (b'|'
                        ∷ (type_code s m.name m.type ++ format_tags (wire_tags s m.attributes)))))
    unfolding serialize_metric
    serialize_metric_lem s m = rw write_tags_lem (simp append_assoc)

    -- A packet of `Serialize` parses to the name, the value, the type and the tags of the metric, if a
    -- line can carry them.
    pub parse_metric-serialize_metric :
        IsExact f t
        → (s : Serializer) (m : Metric F V) → IsSendable s m
        → parse_metric f t (serialize_metric emit t s m) ≡ some (wire_metric s m)
    parse_metric-serialize_metric exact s m sendable =
        let tags = wire_tags s m.attributes in
        let code = type_code s m.name m.type in
        rw (serialize_metric_lem s m, format_tags-bars tags)
          (parse_line f t m.name (t.format_verb m.value) code (tag_sections tags) m.value
              sendable.named
              (number-Lacks (t.format_verb m.value) b'|' refl (exact.plain_verb m.value))
              (exact.reads_verb m.value sendable.number) sendable.number
              (known_type_code s m.name m.type) (tag_sections-Lacks tags sendable.tagged)
            ∙ apply_tags f t (fresh_metric f t m.name m.value code) tags sendable.tagged refl)
