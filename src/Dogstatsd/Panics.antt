-- ===== src/Dogstatsd/Panics.antt =====
-- Lines of events on which the parser panics.
use stats.Base.{ℕ, suc, ◌+◌, ◌^◌, ◌≤◌, ◌≡◌, ◌⊎◌, none, some, get_elem?, drop}
use stats.Base.Int.{pos}
use stats.Base.Text.{Bytes, before, after}
use stats.Base.Decimal.{parse_int}
use stats.Dogstatsd.Event.{cut_header}

-- The announced lengths and the bar between them overflow an int, and the byte behind the title is a
-- bar or not there.
abbrev pub Overflows : ℕ → ℕ → Bytes → Type 0
Overflows n k body =
    (2 ^ 63 ≤ n + 1 + k) × ((get_elem? body n ≡ none) ⊎ (get_elem? body n ≡ some b'|'))

-- The header of the line announces such lengths.
pub record IsOverflowing (line : Bytes) : Type 0 where
  pub header : Bytes
  pub body : Bytes
  pub text_digits : Bytes
  pub title_len : ℕ
  pub text_len : ℕ
  pub cut : cut_header (drop 3 line) ≡ some (header, body)
  pub comma : after b',' header ≡ some text_digits
  pub title_read : parse_int (before b',' header) ≡ some (pos (suc title_len))
  pub text_read : parse_int text_digits ≡ some (pos text_len)
  pub overflows : Overflows (suc title_len) text_len body
