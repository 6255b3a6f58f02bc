-- ===== src/Dogstatsd/Event.antt =====
-- statstest/dogstatsd_parse.go: the parser of event lines. The sums of the announced lengths are
-- those of Go's `int`, which wraps at 2^63; an index out of range is a panic, as a value.
use stats.Base.{
  ℕ, zero, suc, ◌+◌, ◌^◌, Bool, true, false, ◌&&◌, Option, none, some, List, [], ◌∷◌, length, take,
  drop, get_elem?, ltb, leb, ◌==◌, if◌then◌else◌,
}
use stats.Base.Int.{ℤ, pos, negsuc}
use stats.Base.Text.{Bytes, before, after, split, has_prefix}
use stats.Base.Decimal.{parse_int}
use stats.Dogstatsd.{WireEvent, zero_time, split_tags}

pub data Outcome (A : Type 0) : Type 0 where
  ok : A → Outcome A
  rejected : Outcome A
  panics : Outcome A

infixl 5 ◌>>=◌
abbrev pub ◌>>=◌ : {A B : Type 0} → Outcome A → (A → Outcome B) → Outcome B
ok a >>= k = k a
rejected >>= k = rejected
panics >>= k = panics

-- The second result of a call that reports success is tested at once.
abbrev pub required : {A : Type 0} → Option A → Outcome A
required none = rejected
required (some a) = ok a

abbrev pub onto : ℕ → Option (Bytes × Bytes) → Option (Bytes × Bytes)
onto c none = none
onto c (some (header, body)) = some (c ∷ header, body)

-- `strings.Cut` at "}:".
unfoldable pub cut_header : Bytes → Option (Bytes × Bytes)
cut_header [] = none
cut_header (c ∷ s) =
    let found = some ([], drop 1 s) in
    let longer = onto c (cut_header s) in
    if has_prefix (b'}' ∷ b':' ∷ []) (c ∷ s) then found else longer

-- `strings.ReplaceAll(s, "\\n", "\n")`.
unfoldable pub unescape : Bytes → Bytes
unescape [] = []
unescape (c ∷ []) = c ∷ []
unescape (c ∷ d ∷ s) =
    let found = b'\n' ∷ unescape s in
    let kept = c ∷ unescape (d ∷ s) in if c == b'\\' && d == b'n' then found else kept

abbrev pub set_time : WireEvent → Option ℤ → Outcome WireEvent
set_time e none = rejected
set_time e (some ts) = ok (record e { timestamp = record { unix = ts; nanos = 0 } })

-- The value of a section whose prefix is a letter and a colon.
unfoldable pub set_letter : WireEvent → ℕ → Bytes → Outcome WireEvent
set_letter e c value =
    if c == b'd'
    then set_time e (parse_int value)
    else if c == b'h'
    then ok (record e { host = value })
    else if c == b'p'
    then ok (record e { priority = value })
    else if c == b't'
    then ok (record e { alert_type = value })
    else if c == b'k'
    then ok (record e { aggregation_key = value })
    else if c == b's'
    then ok (record e { source_type_name = value })
    else ok e

unfoldable pub set_field : WireEvent → Bytes → Outcome WireEvent
unfolding set_letter
set_field e [] = ok e
set_field e (c ∷ []) = if c == b'#' then ok (record e { tags = split_tags [] }) else ok e
set_field e (c ∷ d ∷ s) =
    if c == b'#'
    then ok (record e { tags = split_tags (d ∷ s) })
    else if d == b':'
    then set_letter e c s
    else ok e

unfoldable pub set_fields : WireEvent → List Bytes → Outcome WireEvent
set_fields e [] = ok e
set_fields e (sec ∷ secs) = set_field e sec >>= λ e'. set_fields e' secs

abbrev pub new_event : Bytes → Bytes → WireEvent
new_event title text = record {
  title = unescape title;
  text = unescape text;
  timestamp = zero_time;
  host = [];
  priority = [];
  alert_type = [];
  aggregation_key = [];
  source_type_name = [];
  tags = [];
}

abbrev pub starts_field : Bytes → Bool
starts_field [] = true
starts_field (c ∷ s) = c == b'|'

-- `body` from behind the title: the slices `body[:textLen]` and `body[textLen:]`.
abbrev pub with_text : Bytes → ℕ → Bytes → Outcome WireEvent
with_text title text_len body =
    if ltb (length body) text_len
    then panics
    else if starts_field (drop text_len body)
    then set_fields (new_event title (take text_len body)) (split b'|' (drop text_len body))
    else rejected

-- `len(body) < titleLen+1+textLen`: both are below 2^63, and from 2^63 on their sum is negative.
abbrev pub is_short : ℕ → ℕ → Bytes → Bool
is_short title_len text_len body =
    if leb (2 ^ 63) (title_len + 1 + text_len)
    then false
    else ltb (length body) (title_len + 1 + text_len)

abbrev pub at_bar : Option ℕ → Outcome (Unit {0})
at_bar none = panics
at_bar (some c) = if c == b'|' then ok tt else rejected

unfoldable pub with_lengths : ℕ → ℕ → Bytes → Outcome WireEvent
with_lengths title_len text_len body =
    if is_short title_len text_len body
    then rejected
    else at_bar (get_elem? body title_len) >>= λ _.
        with_text (take title_len body) text_len (drop (title_len + 1) body)

-- `titleLen <= 0 || textLen < 0` is an error.
unfoldable pub with_header : ℤ → ℤ → Bytes → Outcome WireEvent
with_header (pos zero) text_len body = rejected
with_header (pos (suc n)) (pos k) body = with_lengths (suc n) k body
with_header (pos (suc n)) (negsuc k) body = rejected
with_header (negsuc n) text_len body = rejected

-- The line starts with "_e{".
unfoldable pub parse_event : Bytes → Outcome WireEvent
unfolding with_header
parse_event line = do
  let rest = drop 3 line
  (header, body) ← required (cut_header rest)
  xl ← required (after b',' header)
  title_len ← required (parse_int (before b',' header))
  text_len ← required (parse_int xl)
  with_header title_len text_len body
