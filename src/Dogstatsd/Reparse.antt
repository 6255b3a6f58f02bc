-- ===== src/Dogstatsd/Reparse.antt =====
-- What the parser guarantees of an event, and parsing what is printed of one.
use stats.Base.{
  ℕ, zero, suc, ◌+◌, ◌≡◌, refl, sym, ap, subst, ◌∙◌, Bool, true, false, ◌&&◌, Option, none, some,
  List, [], ◌∷◌, ◌++◌, length, get_elem?, take, drop, ltb, ◌==◌, if◌then◌else◌, All, arith,
  Bool-cases, inl, inr, Option-cases,
}
use stats.Base.Int.{ℤ, pos, negsuc}
use stats.Base.Text.{Bytes, Lacks, before, after, split, is_empty, split-Lacks}
use stats.Base.Decimal.{parse_int, parse_int-IsInt64}
use stats.Dogstatsd.{WireEvent, split_tags}
use stats.Dogstatsd.Event.{
  Outcome, ok, rejected, panics, ◌>>=◌, required, cut_header, set_time, set_letter, set_field,
  set_fields, new_event, starts_field, with_text, is_short, at_bar, with_lengths, with_header,
  parse_event,
}
use stats.Dogstatsd.Format.{format_event}
use stats.Dogstatsd.Sections.{split_tags-IsTag}
use stats.Dogstatsd.Escapes.{unescape-IsUnescaped, unescape-empty}
use stats.Dogstatsd.Fields.{HasFields}
use stats.Dogstatsd.Events.{IsWireEvent, IsSized, parse_event-format_event}

-- An event that a line can carry, with a time in whole seconds.
pub record IsParsed (e : WireEvent) : Type 0 where
  pub wire : IsWireEvent e
  pub whole : e.timestamp.nanos ≡ 0

module _ {A : Type 0} (P : A → Type 0) where
  -- All results of a computation satisfy `P`.
  abbrev Ensures : Outcome A → Type 0
  Ensures (ok a) = P a
  Ensures rejected = Unit
  Ensures panics = Unit

  branch : (b : Bool) (x y : Outcome A) → Ensures x → Ensures y → Ensures (if b then x else y)
  branch true x y h k = h
  branch false x y h k = k

  ensured : (m : Outcome A) (a : A) → Ensures m → m ≡ ok a → P a
  ensured (ok b) a h e = subst P (cc) h
  ensured rejected a h e = cc
  ensured panics a h e = cc

bound :
    {A B : Type 0} (P : A → Type 0) (Q : B → Type 0) (m : Outcome A) (k : A → Outcome B)
    → Ensures P m
    → ((a : A) → P a → Ensures Q (k a))
    → Ensures Q (m >>= k)
bound P Q (ok a) k h g = g a h
bound P Q rejected k h g = tt
bound P Q panics k h g = tt

-- Whatever a call that reports success gave.
asked :
    {A B : Type 0} (Q : B → Type 0) (o : Option A) (k : A → Outcome B)
    → ((a : A) → o ≡ some a → Ensures Q (k a))
    → Ensures Q (required o >>= k)
asked Q none k g = tt
asked Q (some a) k g = g a refl

-- A parsed event whose optional fields are replaced.
with_fields :
    (e e' : WireEvent)
    → IsParsed e
    → e'.title ≡ e.title
    → e'.text ≡ e.text
    → e'.timestamp.nanos ≡ 0
    → HasFields e'
    → IsParsed e'
with_fields e e' p title text whole fields = record {
  wire = record {
    titled = rw title p.wire.titled;
    title = rw title p.wire.title;
    text = rw text p.wire.text;
    fields = fields;
  };
  whole = whole;
}

set_time-IsParsed :
    (e : WireEvent) (o : Option ℤ)
    → ((z : ℤ) → o ≡ some z → stats.Base.Decimal.IsInt64 z)
    → IsParsed e
    → Ensures IsParsed (set_time e o)
set_time-IsParsed e none range p = tt
set_time-IsParsed e (some z) range p =
    let h = p.wire.fields in
    with_fields e _ p refl refl refl (assumption ((range z refl).0, (range z refl).1))

set_letter-IsParsed :
    (e : WireEvent) (c : ℕ) (value : Bytes)
    → Lacks b'|' value
    → IsParsed e
    → Ensures IsParsed (set_letter e c value)
unfolding set_letter
set_letter-IsParsed e c value l p =
    let h = p.wire.fields in
    branch IsParsed (c == b'd') _ _
      (set_time-IsParsed e (parse_int value) (λ z r. parse_int-IsInt64 value z r) p)
      (branch IsParsed (c == b'h') _ _ (with_fields e _ p refl refl p.whole (assumption)) (
        branch IsParsed (c == b'p') _ _ (with_fields e _ p refl refl p.whole (assumption)) (
          branch IsParsed (c == b't') _ _ (with_fields e _ p refl refl p.whole (assumption)) (
            branch IsParsed (c == b'k') _ _ (with_fields e _ p refl refl p.whole (assumption)) (
              branch IsParsed (c == b's') _ _ (with_fields e _ p refl refl p.whole (assumption))
                p)))))

set_tags-IsParsed :
    (e : WireEvent) (s : Bytes)
    → Lacks b'|' s
    → IsParsed e
    → IsParsed (record e { tags = split_tags s })
set_tags-IsParsed e s l p =
    let h = p.wire.fields in with_fields e _ p refl refl p.whole (assumption (split_tags-IsTag s l))

set_field-IsParsed :
    (e : WireEvent) (sec : Bytes) → Lacks b'|' sec → IsParsed e → Ensures IsParsed (set_field e sec)
unfolding set_field
set_field-IsParsed e [] l p = p
set_field-IsParsed e (c ∷ []) l p = branch IsParsed (c == b'#') _ _ (set_tags-IsParsed e [] tt p) p
set_field-IsParsed e (c ∷ d ∷ s) l p =
    branch IsParsed (c == b'#') _ _ (set_tags-IsParsed e (d ∷ s) l.1 p)
      (branch IsParsed (d == b':') _ _ (set_letter-IsParsed e c s l.1.1 p) p)

set_fields-IsParsed :
    (e : WireEvent) (secs : List Bytes)
    → All (Lacks b'|') secs
    → IsParsed e
    → Ensures IsParsed (set_fields e secs)
unfolding set_fields
set_fields-IsParsed e [] h p = p
set_fields-IsParsed e (sec ∷ secs) h p =
    bound IsParsed IsParsed (set_field e sec) (λ e'. set_fields e' secs)
      (set_field-IsParsed e sec h.0 p) (λ e' p'. set_fields-IsParsed e' secs h.1 p')

new_event-IsParsed : (title text : Bytes) → is_empty title ≡ false → IsParsed (new_event title text)
new_event-IsParsed title text ne = record {
  wire = record {
    titled = unescape-empty title ne;
    title = unescape-IsUnescaped title;
    text = unescape-IsUnescaped text;
    fields = record {
      seconds = omega arith;
      host = tt;
      priority = tt;
      alert_type = tt;
      aggregation_key = tt;
      source_type_name = tt;
      tags = tt;
    };
  };
  whole = refl;
}

take_ne :
    (n : ℕ) (body : Bytes) (c : ℕ)
    → get_elem? body (suc n) ≡ some c
    → is_empty (take (suc n) body) ≡ false
take_ne n [] c h = cc
take_ne n (b ∷ body) c h = refl

with_text-IsParsed :
    (title : Bytes) (k : ℕ) (body : Bytes)
    → is_empty title ≡ false
    → Ensures IsParsed (with_text title k body)
with_text-IsParsed title k body ne = branch IsParsed (ltb (length body) k) _ _ tt (
    branch IsParsed (starts_field (drop k body)) _ _
      (set_fields-IsParsed (new_event title (take k body)) (split b'|' (drop k body))
        (split-Lacks b'|' (drop k body)) (new_event-IsParsed title (take k body) ne))
      tt)

with_bar-IsParsed :
    (n k : ℕ) (body : Bytes) (o : Option ℕ)
    → get_elem? body (suc n) ≡ o
    → Ensures IsParsed (at_bar o >>= λ _. with_text (take (suc n) body) k (drop (suc n + 1) body))
with_bar-IsParsed n k body none e = tt
with_bar-IsParsed n k body (some c) e = elim (Bool-cases (c == b'|')) [
  | inl bar ↦
      rw bar (with_text-IsParsed (take (suc n) body) k (drop (suc n + 1) body) (take_ne n body c e))
  | inr other ↦ rw other tt
]

with_lengths-IsParsed : (n k : ℕ) (body : Bytes) → Ensures IsParsed (with_lengths (suc n) k body)
unfolding with_lengths
with_lengths-IsParsed n k body =
    branch IsParsed (is_short (suc n) k body) _ _ tt
      (with_bar-IsParsed n k body (get_elem? body (suc n)) refl)

with_header-IsParsed : (n k : ℤ) (body : Bytes) → Ensures IsParsed (with_header n k body)
unfolding with_header
with_header-IsParsed (pos zero) k body = tt
with_header-IsParsed (pos (suc n)) (pos k) body = with_lengths-IsParsed n k body
with_header-IsParsed (pos (suc n)) (negsuc k) body = tt
with_header-IsParsed (negsuc n) k body = tt

parse_event-Ensures : (line : Bytes) → Ensures IsParsed (parse_event line)
unfolding parse_event
parse_event-Ensures line = asked IsParsed (cut_header (drop 3 line)) _ λ (header, body) e.
    asked IsParsed (after b',' header) _ λ xl e1.
      asked IsParsed (parse_int (before b',' header)) _
        λ n e2. asked IsParsed (parse_int xl) _ (λ k e3. with_header-IsParsed n k body)

-- An event that was parsed is one that a line can carry.
pub parse_event-IsParsed : (line : Bytes) (e : WireEvent) → parse_event line ≡ ok e → IsParsed e
parse_event-IsParsed line e h = ensured IsParsed (parse_event line) e (parse_event-Ensures line) h

-- An event that was parsed is printed as a line that parses to the same event, if the lengths of the
-- escaped title and text fit an int.
pub reparse_event :
    (line : Bytes) (e : WireEvent)
    → parse_event line ≡ ok e
    → IsSized e
    → parse_event (format_event e) ≡ ok e
reparse_event line e h small =
    let p = parse_event-IsParsed line e h in
    parse_event-format_event e p.wire small
    ∙ ap (λ (n : ℕ). ok (record e { timestamp = record { unix = e.timestamp.unix; nanos = n } }))
        (sym p.whole)
