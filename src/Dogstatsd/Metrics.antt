-- ===== src/Dogstatsd/Metrics.antt =====
-- Metric lines: what the parser reads of a line that is written, and what it gives.
use stats.Base.{
  ℕ, ◌≡◌, ◌≢◌, ◌⊎◌, refl, sym, ap, ap₂, subst, ◌∙◌, true, false, ◌&&◌, not, Option, none, some,
  List, [], ◌∷◌, ◌++◌, append-nil, ◌==◌, if◌then◌else◌, All, arith, Bool-cases, inl, inr,
  Option-cases, some_inj,
}
use stats.Base.Float.{Float64, FloatText, IsExact, is_number_byte}
use stats.Base.Text.{
  Bytes, Lacks, before, after, split, is_empty, before-append, after-append, before-Lacks,
  split-Lacks, All-append, All-map,
}
use stats.Dogstatsd.{
  WireMetric, known_type, is_rate, set_rate, apply_section, apply_sections, typed, with_sections,
  parse_metric,
}
use stats.Dogstatsd.Format.{format_rate, format_metric}
use stats.Dogstatsd.Sections.{
  bars, bars-append, split-bars, IsTag, tag_sections, format_tags-bars, tag_sections-Lacks,
  split_tags-join, split_tags-IsTag, known_type-Lacks,
}

-- A name that a line can carry.
abbrev pub IsName : Bytes → Type 0
IsName name = (is_empty name ≡ false) × Lacks b':' name

-- A text of a number holds none of the bytes that end a section, a tag or a line.
pub number-Lacks :
    (s : Bytes) (c : ℕ)
    → is_number_byte c ≡ false
    → All (λ b. is_number_byte b ≡ true) s
    → Lacks c s
number-Lacks s c h k =
    All-map (λ b. is_number_byte b ≡ true) (λ b. b ≢ c) s (λ b i e. cc (ap is_number_byte e)) k

module _ {F : Type 0} (f : Float64 F) (t : FloatText F) where
  abbrev pub fresh_metric : Bytes → F → Bytes → WireMetric F
  fresh_metric name value code = record {
    name = name;
    value = value;
    type = code;
    tags = [];
    sample_rate = t.one;
  }

  -- A line of a name, the text of a value, a type and sections.
  pub parse_line :
      (name value_text code : Bytes) (secs : List Bytes) (value : F)
      → IsName name
      → Lacks b'|' value_text
      → t.parse_float value_text ≡ some value
      → f.is_nan value ≡ false
      → known_type code ≡ true
      → All (Lacks b'|') secs
      → parse_metric f t (name ++ (b':' ∷ (value_text ++ (b'|' ∷ (code ++ bars secs)))))
        ≡ apply_sections f t (fresh_metric name value code) secs
  unfolding parse_metric
  parse_line name value_text code secs value (ne, no_colon) plain reads number known hs =
      let rest = value_text ++ bars (code ∷ secs) in
      let a = after-append b':' name rest no_colon in
      let b = before-append b':' name rest no_colon in
      let s =
        split-bars value_text (code ∷ secs) plain
          (known_type-Lacks code b'|' known (inr (omega arith)), hs) in
      rw (a, b, ne, s, reads, number, known) refl

  pub apply_tags :
      (m : WireMetric F) (tags : List Bytes)
      → All IsTag tags
      → m.tags ≡ []
      → apply_sections f t m (tag_sections tags) ≡ some (record m { tags = tags })
  unfolding apply_sections apply_section
  apply_tags m [] h e = ground arith
  apply_tags m (tag ∷ tags) h e = rw (split_tags-join tag tags h) refl

  -- What the parser guarantees of a metric.
  pub record IsWireMetric (m : WireMetric F) : Type 0 where
    pub named : IsName m.name
    pub number : f.is_nan m.value ≡ false
    pub known : known_type m.type ≡ true
    pub tagged : All IsTag m.tags
    pub rated : (m.sample_rate ≡ t.one) ⊎ (is_rate f t m.sample_rate ≡ true)

  set_rate-IsWireMetric :
      (m : WireMetric F) (rate : Option F) (m' : WireMetric F)
      → IsWireMetric m
      → set_rate f t m rate ≡ some m'
      → IsWireMetric m'
  set_rate-IsWireMetric m none m' w e = cc
  set_rate-IsWireMetric m (some rate) m' w e = elim (Bool-cases (is_rate f t rate)) [
    | inl good ↦ subst IsWireMetric (some_inj (rw good at e)) (record {
      named = w.named;
      number = w.number;
      known = w.known;
      tagged = w.tagged;
      rated = inr good;
    })
    | inr bad ↦ cc (rw bad at e)
  ]

  apply_section-IsWireMetric :
      (m : WireMetric F) (sec : Bytes) (m' : WireMetric F)
      → Lacks b'|' sec
      → IsWireMetric m
      → apply_section f t m sec ≡ some m'
      → IsWireMetric m'
  unfolding apply_section
  apply_section-IsWireMetric m [] m' h w e = subst IsWireMetric (some_inj e) w
  apply_section-IsWireMetric m (c ∷ s) m' h w e = elim (Bool-cases (c == b'@')) [
    | inl rate ↦ set_rate-IsWireMetric m (t.parse_float s) m' w (rw rate at e)
    | inr other ↦ elim (Bool-cases (c == b'#')) [
      | inl tags ↦ subst IsWireMetric (some_inj (rw (other, tags) at e)) (record {
        named = w.named;
        number = w.number;
        known = w.known;
        tagged = split_tags-IsTag s h.1;
        rated = w.rated;
      })
      | inr unknown ↦ subst IsWireMetric (some_inj (rw (other, unknown) at e)) w
    ]
  ]

  apply_sections-IsWireMetric :
      (m : WireMetric F) (secs : List Bytes) (m' : WireMetric F)
      → All (Lacks b'|') secs
      → IsWireMetric m
      → apply_sections f t m secs ≡ some m'
      → IsWireMetric m'
  unfolding apply_sections
  apply_sections-IsWireMetric m [] m' h w e = subst IsWireMetric (some_inj e) w
  apply_sections-IsWireMetric m (sec ∷ secs) m' h w e =
      elim (Option-cases (apply_section f t m sec)) [
        | inl n ↦ cc (rw n at e)
        | inr (m1, e1) ↦
            apply_sections-IsWireMetric m1 secs m' h.1
              (apply_section-IsWireMetric m sec m1 h.0 w e1) (rw e1 at e)
      ]

  typed-IsWireMetric :
      (name code : Bytes) (secs : List Bytes) (value : F) (m : WireMetric F)
      → IsName name
      → All (Lacks b'|') secs
      → typed f t name code secs value ≡ some m
      → IsWireMetric m
  typed-IsWireMetric name code secs value m n h e = elim (Bool-cases (f.is_nan value)) [
    | inl nan ↦ cc (rw nan at e)
    | inr number ↦ elim (Bool-cases (known_type code)) [
      | inl known ↦
          apply_sections-IsWireMetric (fresh_metric name value code) secs m h
            (record { named = n; number = number; known = known; tagged = tt; rated = inl refl })
            (rw (number, known) at e)
      | inr unknown ↦ cc (rw (number, unknown) at e)
    ]
  ]

  with_sections-IsWireMetric :
      (name : Bytes) (secs : List Bytes) (m : WireMetric F)
      → IsName name
      → All (Lacks b'|') secs
      → with_sections f t name secs ≡ some m
      → IsWireMetric m
  with_sections-IsWireMetric name [] m n h e = cc
  with_sections-IsWireMetric name (v ∷ []) m n h e = cc
  with_sections-IsWireMetric name (v ∷ code ∷ secs) m n h e =
      elim (Option-cases (t.parse_float v)) [
        | inl bad ↦ cc (rw bad at e)
        | inr (value, good) ↦ typed-IsWireMetric name code secs value m n h.1.1 (rw good at e)
      ]

  -- A metric that was parsed is one that a line can carry.
  pub parse_metric-IsWireMetric :
      (line : Bytes) (m : WireMetric F) → parse_metric f t line ≡ some m → IsWireMetric m
  unfolding parse_metric
  parse_metric-IsWireMetric line m e = elim (Option-cases (after b':' line)) [
    | inl n ↦ cc (rw n at e)
    | inr (rest, found) ↦ elim (Bool-cases (is_empty (before b':' line))) [
      | inl empty ↦ cc (rw (found, empty) at e)
      | inr named ↦
          with_sections-IsWireMetric (before b':' line) (split b'|' rest) m
            (named, before-Lacks b':' line) (split-Lacks b'|' rest) (rw (found, named) at e)
    ]
  ]

  rate_sections : F → List Bytes
  rate_sections rate =
      if not (t.eq rate f.nought) && not (t.eq rate t.one)
      then (b'@' ∷ t.format_float rate) ∷ []
      else []

  format_rate-bars : (rate : F) → format_rate f t rate ≡ bars (rate_sections rate)
  unfolding rate_sections
  format_rate-bars rate = elim (Bool-cases (not (t.eq rate f.nought) && not (t.eq rate t.one))) [
    | inl written ↦ rw written (sym (append-nil _))
    | inr not_written ↦ rw not_written refl
  ]

  module _ (exact : IsExact f t) where
    plain-Lacks : (v : F) (c : ℕ) → is_number_byte c ≡ false → Lacks c (t.format_float v)
    plain-Lacks v c h = number-Lacks (t.format_float v) c h (exact.plain v)

    rate_sections-Lacks : (rate : F) → All (Lacks b'|') (rate_sections rate)
    unfolding rate_sections
    rate_sections-Lacks rate =
        elim (Bool-cases (not (t.eq rate f.nought) && not (t.eq rate t.one))) [
          | inl written ↦ rw written (((λ e. absurd (omega arith)), plain-Lacks rate b'|' refl), tt)
          | inr not_written ↦ rw not_written tt
        ]

    rate_number : (rate : F) → is_rate f t rate ≡ true → f.is_nan rate ≡ false
    rate_number rate h = exact.compares f.nought rate (ground arith)

    -- The rate section gives the rate back, and no section stands for a rate of 1.
    apply_rate :
        (m : WireMetric F) (rate : F) (secs : List Bytes)
        → m.sample_rate ≡ t.one
        → (rate ≡ t.one) ⊎ (is_rate f t rate ≡ true)
        → apply_sections f t m (rate_sections rate ++ secs)
          ≡ apply_sections f t (record m { sample_rate = rate }) secs
    unfolding rate_sections apply_sections apply_section
    apply_rate m rate secs e h = elim (Bool-cases (t.eq rate t.one)) [
      | inl one ↦
          let unchanged : m ≡ record m { sample_rate = rate } =
            cc ((exact.only_one rate).0 one, e) in
          rw one (ground (arith, ap (λ x. apply_sections f t x secs) unchanged))
      | inr other ↦ elim h [
        | inl one ↦ cc ((exact.only_one rate).1 one, other)
        | inr good ↦
            rw
              (
                other,
                exact.above_nought rate (ground arith),
                exact.reads rate (rate_number rate good),
                good,
              )
              refl
      ]
    ]

    -- A metric that a line can carry is read back from its line.
    pub parse_metric-format_metric :
        (m : WireMetric F) → IsWireMetric m → parse_metric f t (format_metric f t m) ≡ some m
    unfolding format_metric
    parse_metric-format_metric m w =
        let secs = rate_sections m.sample_rate ++ tag_sections m.tags in
        let fresh = fresh_metric m.name m.value m.type in
        let sections =
          bars-append (rate_sections m.sample_rate) (tag_sections m.tags)
          ∙ ap₂ ◌++◌ (sym (format_rate-bars m.sample_rate)) (sym (format_tags-bars m.tags)) in
        rw (← sections) (
          parse_line m.name (t.format_float m.value) m.type secs m.value w.named
            (plain-Lacks m.value b'|' refl) (exact.reads m.value w.number) w.number w.known
            (All-append (Lacks b'|') (rate_sections m.sample_rate) (tag_sections m.tags)
              (rate_sections-Lacks m.sample_rate) (tag_sections-Lacks m.tags w.tagged))
          ∙ apply_rate fresh m.sample_rate (tag_sections m.tags) refl w.rated
          ∙ apply_tags (record fresh { sample_rate = m.sample_rate }) m.tags w.tagged refl)

    -- A metric that was parsed is printed as a line that parses to the same metric.
    pub reparse_metric :
        (line : Bytes) (m : WireMetric F)
        → parse_metric f t line ≡ some m
        → parse_metric f t (format_metric f t m) ≡ some m
    reparse_metric line m e = parse_metric-format_metric m (parse_metric-IsWireMetric line m e)
