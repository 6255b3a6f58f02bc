-- ===== src/Dogstatsd/Escapes.antt =====
-- Escaped line feeds of the titles and texts of events.
use stats.Base.{
  ℕ, ◌≡◌, refl, sym, ap, ap₂, ◌∙◌, Bool, false, ◌&&◌, [], ◌∷◌, ◌==◌, arith, Bool-cases, inl, inr,
  ==_iff,
}
use stats.Base.Text.{Bytes, is_empty}
use stats.Dogstatsd.Event.{unescape}
use stats.Dogstatsd.Format.{escape}

abbrev is_escape : ℕ → Bytes → Bool
is_escape c [] = false
is_escape c (d ∷ s) = c == b'\\' && d == b'n'

-- No backslash stands before an n: nothing is left to decode.
abbrev pub IsUnescaped : Bytes → Type 0
IsUnescaped [] = Unit
IsUnescaped (c ∷ s) = (is_escape c s ≡ false) × IsUnescaped s

feed_first : (s : Bytes) → is_escape b'\n' s ≡ false
feed_first [] = refl
feed_first (d ∷ s) = refl

unescape_feed : (s : Bytes) → unescape (b'\\' ∷ b'n' ∷ s) ≡ b'\n' ∷ unescape s
unfolding unescape
unescape_feed s = refl

escape-ne : (c : ℕ) (s : Bytes) → is_escape c s ≡ false → is_escape c (escape s) ≡ false
unfolding escape
escape-ne c [] h = refl
escape-ne c (d ∷ s) h = ground arith

unescape_step : (c : ℕ) (s : Bytes) → is_escape c s ≡ false → unescape (c ∷ s) ≡ c ∷ unescape s
unfolding unescape
unescape_step c [] h = refl
unescape_step c (d ∷ s) h = rw h refl

-- Decoding undoes escaping, for a text that has nothing to decode.
pub unescape-escape : (s : Bytes) → IsUnescaped s → unescape (escape s) ≡ s
unfolding escape
unescape-escape [] h = unfold unescape in refl
unescape-escape (c ∷ s) h = elim (Bool-cases (c == b'\n')) [
  | inl feed ↦
      rw feed
        (unescape_feed (escape s) ∙ ap₂ ◌∷◌ (sym ((==_iff c b'\n').0 feed)) (unescape-escape s h.1))
  | inr other ↦
      rw other (unescape_step c (escape s) (escape-ne c s h.0) ∙ ap (◌∷◌ c) (unescape-escape s h.1))
]

unescape-keeps : (c : ℕ) (s : Bytes) → is_escape c s ≡ false → is_escape c (unescape s) ≡ false
unfolding unescape
unescape-keeps c [] h = refl
unescape-keeps c (d ∷ []) h = h
unescape-keeps c (d ∷ e ∷ s) h = ground arith

pub unescape-IsUnescaped : (s : Bytes) → IsUnescaped (unescape s)
unfolding unescape
unescape-IsUnescaped [] = tt
unescape-IsUnescaped (c ∷ []) = (refl, tt)
unescape-IsUnescaped (c ∷ d ∷ s) = elim (Bool-cases (c == b'\\' && d == b'n')) [
  | inl found ↦ rw found (feed_first (unescape s), unescape-IsUnescaped s)
  | inr kept ↦ rw kept (unescape-keeps c (d ∷ s) kept, unescape-IsUnescaped (d ∷ s))
]

pub escape-empty : (s : Bytes) → is_empty s ≡ false → is_empty (escape s) ≡ false
unfolding escape
escape-empty [] h = h
escape-empty (c ∷ s) h = ground arith

pub unescape-empty : (s : Bytes) → is_empty s ≡ false → is_empty (unescape s) ≡ false
unfolding unescape
unescape-empty [] h = h
unescape-empty (c ∷ []) h = refl
unescape-empty (c ∷ d ∷ s) h = ground arith
