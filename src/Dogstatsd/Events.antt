-- ===== src/Dogstatsd/Events.antt =====
-- Event lines: what the parser reads of a line that is written.
use stats.Base.{
  ℕ, zero, suc, ◌+◌, ◌^◌, ◌<◌, ◌≤◌, ◌≡◌, ◌≢◌, refl, sym, ap, ap₂, subst, ◌∙◌, Bool, true, false,
  Option, none, some, List, [], ◌∷◌, ◌++◌, append_assoc, append-nil, length, length-append,
  get_elem?, take, drop, ltb, leb, ◌==◌, if◌then◌else◌, All, arith, Bool-cases, inl, inr,
  not_lt→ltb, not_le→leb,
}
use stats.Base.Int.{pos}
use stats.Base.Sequences.{
  get_elem?-append_at, take-append_length, drop-append_length, drop-append_next,
}
use stats.Base.Text.{
  Bytes, Lacks, before, after, split, is_empty, before-append, after-append, All-append,
}
use stats.Base.Decimal.{format_nat, parse_int-format_nat, format_nat-Lacks}
use stats.Dogstatsd.{WireEvent}
use stats.Dogstatsd.Event.{
  ok, cut_header, set_fields, set_field, new_event, starts_field, with_text, with_lengths,
  with_header, parse_event,
}
use stats.Dogstatsd.Format.{escape, format_sized, format_event}
use stats.Dogstatsd.Sections.{bars, split-bars}
use stats.Dogstatsd.Escapes.{IsUnescaped, unescape-escape, escape-empty}
use stats.Dogstatsd.Fields.{
  HasFields, whole_seconds, event_sections, event_sections-Lacks, format_fields-bars,
  apply_sections,
}

cut_header-append :
    (header body : Bytes)
    → Lacks b'}' header
    → cut_header (header ++ (b'}' ∷ b':' ∷ body)) ≡ some (header, body)
unfolding cut_header stats.Base.Text.has_prefix
cut_header-append [] body h = refl
cut_header-append (c ∷ header) body h = ground (arith, cut_header-append header body h.1)

starts_bars : (secs : List Bytes) → starts_field (bars secs) ≡ true
starts_bars [] = refl
starts_bars (p ∷ secs) = refl

fields_of_bars :
    (e : WireEvent) (secs : List Bytes)
    → All (Lacks b'|') secs
    → set_fields e (split b'|' (bars secs)) ≡ set_fields e secs
unfolding set_fields set_field
fields_of_bars e secs h = rw (split-bars [] secs tt h) refl

with_text_lem :
    (title text : Bytes) (secs : List Bytes)
    → All (Lacks b'|') secs
    → with_text title (length text) (text ++ bars secs) ≡ set_fields (new_event title text) secs
with_text_lem title text secs h =
    let enough =
      not_lt→ltb (length (text ++ bars secs)) (length text)
        (λ l. absurd (omega (arith, length-append text (bars secs)))) in
    rw
      (
        enough,
        drop-append_length text (bars secs),
        take-append_length text (bars secs),
        starts_bars secs,
      )
      (fields_of_bars (new_event title text) secs h)

-- The title and the text of the announced lengths, with sections behind them.
with_lengths_lem :
    (title text : Bytes) (secs : List Bytes)
    → length title + 1 + length text < 2 ^ 63
    → All (Lacks b'|') secs
    → with_lengths (length title) (length text) (title ++ (b'|' ∷ (text ++ bars secs)))
      ≡ set_fields (new_event title text) secs
unfolding with_lengths
with_lengths_lem title text secs small h =
    let rest = text ++ bars secs in
    let n = length title in
    let whole = length-append title (b'|' ∷ rest) in
    let short = length-append text (bars secs) in
    let fits = not_le→leb (2 ^ 63) (n + 1 + length text) (λ l. absurd (omega arith)) in
    let long =
      not_lt→ltb (length (title ++ b'|' ∷ rest)) (n + 1 + length text)
        (λ l. absurd (omega (arith, whole, short))) in
    rw
      (
        fits,
        long,
        get_elem?-append_at title rest b'|',
        take-append_length title (b'|' ∷ rest),
        drop-append_next title rest b'|',
      )
      (with_text_lem title text secs h)

with_header_lem :
    (title : Bytes) (k : ℕ) (body : Bytes)
    → is_empty title ≡ false
    → with_header (pos (length title)) (pos k) body ≡ with_lengths (length title) k body
unfolding with_header
with_header_lem [] k body h = cc
with_header_lem (c ∷ title) k body h = refl

pub parse_sized :
    (title text : Bytes) (secs : List Bytes)
    → is_empty title ≡ false
    → length title + 1 + length text < 2 ^ 63
    → All (Lacks b'|') secs
    → parse_event (format_sized title text (bars secs)) ≡ set_fields (new_event title text) secs
unfolding parse_event
parse_sized title text secs ne small h =
    let tl = format_nat (length title) in
    let xl = format_nat (length text) in
    let body = title ++ b'|' ∷ (text ++ bars secs) in
    let header_plain =
      All-append (λ b. b ≢ b'}') tl (b',' ∷ xl)
        (format_nat-Lacks (length title) b'}' (inr (omega arith)))
        ((λ e. absurd (omega arith)), format_nat-Lacks (length text) b'}' (inr (omega arith))) in
    let no_comma = format_nat-Lacks (length title) b',' (inl (omega arith)) in
    let cut =
      ap cut_header (sym (append_assoc tl (b',' ∷ xl) (b'}' ∷ b':' ∷ body)))
      ∙ cut_header-append (tl ++ b',' ∷ xl) body header_plain in
    rw
      (
        cut,
        after-append b',' tl xl no_comma,
        before-append b',' tl xl no_comma,
        parse_int-format_nat (length title) (omega arith),
        parse_int-format_nat (length text) (omega arith),
        with_header_lem title (length text) body ne,
      )
      (with_lengths_lem title text secs small h)

-- An event that a line can carry.
pub record IsWireEvent (e : WireEvent) : Type 0 where
  pub titled : is_empty e.title ≡ false
  pub title : IsUnescaped e.title
  pub text : IsUnescaped e.text
  pub fields : HasFields e

-- The lengths of the escaped title and text, with the bar between them, fit an int.
abbrev pub IsSized : WireEvent → Type 0
IsSized e = length (escape e.title) + 1 + length (escape e.text) < 2 ^ 63

-- An event that a line can carry is read back from its line, its time in whole seconds.
pub parse_event-format_event :
    (e : WireEvent)
    → IsWireEvent e
    → IsSized e
    → parse_event (format_event e) ≡ ok (record e { timestamp = whole_seconds e.timestamp })
unfolding format_event
parse_event-format_event e w small =
    let title = escape e.title in
    let text = escape e.text in
    let secs = event_sections e in
    ap (λ x. parse_event (format_sized title text x)) (format_fields-bars e)
    ∙ parse_sized title text secs (escape-empty e.title w.titled) small
        (event_sections-Lacks e w.fields)
    ∙ apply_sections title text e w.fields
    ∙ rw (unescape-escape e.title w.title, unescape-escape e.text w.text) refl
