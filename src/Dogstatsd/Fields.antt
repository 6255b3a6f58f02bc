-- ===== src/Dogstatsd/Fields.antt =====
-- The optional sections of an event line.
use stats.Base.{
  ℕ, ◌≡◌, ◌≢◌, refl, sym, ap, ◌∙◌, true, false, List, [], ◌∷◌, ◌++◌, append-nil, ◌==◌,
  if◌then◌else◌, All, arith, Bool-cases, inl, inr,
}
use stats.Base.Text.{Bytes, Lacks, join, is_empty, All-append}
use stats.Base.Decimal.{IsInt64, format_int, parse_int-format_int, format_int-Lacks}
use stats.Dogstatsd.{WireEvent, Time, zero_time, is_zero, split_tags}
use stats.Dogstatsd.Event.{ok, set_letter, set_field, set_fields, new_event}
use stats.Dogstatsd.Format.{format_tags, format_field, format_time}
use stats.Dogstatsd.Sections.{
  bars, bars-append, IsTag, tag_sections, format_tags-bars, tag_sections-Lacks, split_tags-join,
}

-- A time without its nanoseconds.
abbrev pub whole_seconds : Time → Time
whole_seconds t = record { unix = t.unix; nanos = 0 }

abbrev time_sections : Time → List Bytes
time_sections t = if is_zero t then [] else (b'd' ∷ b':' ∷ format_int t.unix) ∷ []

abbrev field_sections : ℕ → Bytes → List Bytes
field_sections letter value = if is_empty value then [] else (letter ∷ b':' ∷ value) ∷ []

-- The sections of an event, in their order.
pub event_sections : WireEvent → List Bytes
event_sections e =
    time_sections e.timestamp
    ++ (field_sections b'h' e.host
        ++ (field_sections b'p' e.priority
            ++ (field_sections b't' e.alert_type
                ++ (field_sections b'k' e.aggregation_key
                    ++ (field_sections b's' e.source_type_name ++ tag_sections e.tags)))))

-- Fields that sections between bars can carry.
pub record HasFields (e : WireEvent) : Type 0 where
  pub seconds : IsInt64 e.timestamp.unix
  pub host : Lacks b'|' e.host
  pub priority : Lacks b'|' e.priority
  pub alert_type : Lacks b'|' e.alert_type
  pub aggregation_key : Lacks b'|' e.aggregation_key
  pub source_type_name : Lacks b'|' e.source_type_name
  pub tags : All IsTag e.tags

field_sections-Lacks :
    (letter : ℕ) (value : Bytes)
    → letter ≢ b'|'
    → Lacks b'|' value
    → All (Lacks b'|') (field_sections letter value)
field_sections-Lacks letter [] n h = tt
field_sections-Lacks letter (c ∷ value) n h = ((n, ((λ e. absurd (omega arith)), h)), tt)

time_sections-Lacks : (t : Time) → All (Lacks b'|') (time_sections t)
time_sections-Lacks t = elim (Bool-cases (is_zero t)) [
  | inl zero_here ↦ rw zero_here tt
  | inr set ↦ rw set (
    (
      (λ e. absurd (omega arith)),
      ((λ e. absurd (omega arith)), format_int-Lacks t.unix b'|' (omega arith)),
    ),
    tt,
  )
]

pub event_sections-Lacks : (e : WireEvent) → HasFields e → All (Lacks b'|') (event_sections e)
unfolding event_sections
event_sections-Lacks e h =
    let both = λ (xs ys : List Bytes) (a : All (Lacks b'|') xs) (b : All (Lacks b'|') ys).
      All-append (Lacks b'|') xs ys a b in
    let part = λ (letter : ℕ) (value : Bytes) (n : letter ≢ b'|') (l : Lacks b'|' value).
      field_sections-Lacks letter value n l in
    both _ _ (time_sections-Lacks e.timestamp) (
      both _ _ (part b'h' e.host (λ x. absurd (omega arith)) h.host) (
        both _ _ (part b'p' e.priority (λ x. absurd (omega arith)) h.priority) (
          both _ _ (part b't' e.alert_type (λ x. absurd (omega arith)) h.alert_type) (
            both _ _ (part b'k' e.aggregation_key (λ x. absurd (omega arith)) h.aggregation_key) (
              both _ _ (part b's' e.source_type_name (λ x. absurd (omega arith)) h.source_type_name)
                (tag_sections-Lacks e.tags h.tags))))))

format_field-bars :
    (letter : ℕ) (value : Bytes) → format_field letter value ≡ bars (field_sections letter value)
format_field-bars letter [] = refl
format_field-bars letter (c ∷ value) = sym (append-nil _)

format_time-bars : (t : Time) → format_time t ≡ bars (time_sections t)
format_time-bars t = elim (Bool-cases (is_zero t)) [
  | inl zero_here ↦ rw zero_here refl
  | inr set ↦ rw set (sym (append-nil _))
]

abbrev pub format_fields : WireEvent → Bytes
format_fields e =
    format_time e.timestamp
    ++ (format_field b'h' e.host
        ++ (format_field b'p' e.priority
            ++ (format_field b't' e.alert_type
                ++ (format_field b'k' e.aggregation_key
                    ++ (format_field b's' e.source_type_name ++ format_tags e.tags)))))

pub format_fields-bars : (e : WireEvent) → format_fields e ≡ bars (event_sections e)
unfolding event_sections
format_fields-bars e = simp (bars-append, format_time-bars, format_field-bars, format_tags-bars)

-- An optional section sets its field, and a field that is empty has no section.
apply_field :
    (update : WireEvent → Bytes → WireEvent) (letter : ℕ) (e : WireEvent) (value : Bytes)
    (secs : List Bytes)
    → (letter == b'#') ≡ false
    → ((v : Bytes) → set_letter e letter v ≡ ok (update e v))
    → update e [] ≡ e
    → set_fields e (field_sections letter value ++ secs) ≡ set_fields (update e value) secs
unfolding set_fields set_field
apply_field update letter e [] secs n sets unset = ap (λ x. set_fields x secs) (sym unset)
apply_field update letter e (c ∷ value) secs n sets unset = rw (n, sets (c ∷ value)) refl

same_seconds : (t : Time) → is_zero t ≡ true → whole_seconds t ≡ zero_time
same_seconds t h = ground arith

apply_time :
    (e : WireEvent) (t : Time) (secs : List Bytes)
    → IsInt64 t.unix
    → e.timestamp ≡ zero_time
    → set_fields e (time_sections t ++ secs)
      ≡ set_fields (record e { timestamp = whole_seconds t }) secs
unfolding set_fields set_field set_letter
apply_time e t secs h unset = elim (Bool-cases (is_zero t)) [
  | inl zero_here ↦
      let same : record e { timestamp = whole_seconds t } ≡ e =
        cc (same_seconds t zero_here, unset) in
      rw zero_here (ap (λ x. set_fields x secs) (sym same))
  | inr set ↦ rw (set, parse_int-format_int t.unix h.0 h.1) refl
]

tags_section :
    (e : WireEvent) (s : Bytes) → set_field e (b'#' ∷ s) ≡ ok (record e { tags = split_tags s })
unfolding set_field
tags_section e [] = refl
tags_section e (d ∷ s) = refl

apply_tags :
    (e : WireEvent) (tags : List Bytes)
    → All IsTag tags
    → e.tags ≡ []
    → set_fields e (tag_sections tags) ≡ ok (record e { tags = tags })
unfolding set_fields
apply_tags e [] h unset = ground arith
apply_tags e (tag ∷ tags) h unset =
    rw (tags_section e (join b',' (tag ∷ tags)), split_tags-join tag tags h) refl

-- The sections of an event give its fields back, and the seconds of its time.
pub apply_sections :
    (title text : Bytes) (e : WireEvent)
    → HasFields e
    → set_fields (new_event title text) (event_sections e)
      ≡ ok (record (new_event title text) {
        timestamp = whole_seconds e.timestamp;
        host = e.host;
        priority = e.priority;
        alert_type = e.alert_type;
        aggregation_key = e.aggregation_key;
        source_type_name = e.source_type_name;
        tags = e.tags;
      })
unfolding event_sections set_letter
apply_sections title text e h =
    let e0 = new_event title text in
    let e1 = record e0 { timestamp = whole_seconds e.timestamp } in
    let e2 = record e1 { host = e.host } in
    let e3 = record e2 { priority = e.priority } in
    let e4 = record e3 { alert_type = e.alert_type } in
    let e5 = record e4 { aggregation_key = e.aggregation_key } in
    let e6 = record e5 { source_type_name = e.source_type_name } in
    apply_time e0 e.timestamp _ h.seconds refl
    ∙ apply_field (λ x v. record x { host = v }) b'h' e1 e.host _ refl (λ v. refl) refl
    ∙ apply_field (λ x v. record x { priority = v }) b'p' e2 e.priority _ refl (λ v. refl) refl
    ∙ apply_field (λ x v. record x { alert_type = v }) b't' e3 e.alert_type _ refl (λ v. refl) refl
    ∙ apply_field (λ x v. record x { aggregation_key = v }) b'k' e4 e.aggregation_key _ refl
        (λ v. refl) refl
    ∙ apply_field (λ x v. record x { source_type_name = v }) b's' e5 e.source_type_name _ refl
        (λ v. refl) refl
    ∙ apply_tags e6 e.tags h.tags refl
