-- ===== src/Prometheus/Store/Keys.antt =====
-- The key of a series tells label sets apart.
use stats.Base.{
  ℕ, ◌≡◌, refl, sym, ap, ap₂, ◌∙◌, some_inj, ◌≢◌, inr, List, [], ◌∷◌, ◌++◌, length, take, drop,
  arith,
}
use stats.Base.Sequences.{take-append_length, drop-append_length}
use stats.Base.Text.{Bytes, before, after, before-append, after-append}
use stats.Base.Decimal.{format_nat, unsigned, unsigned-format_nat, format_nat-Lacks}
use stats.Prometheus.{Label}
use stats.Prometheus.Store.{labels_key}

-- A text behind its length and a colon.
abbrev sized : Bytes → Bytes → Bytes
sized s rest = format_nat (length s) ++ b':' ∷ (s ++ rest)

sized_inj : (s t p q : Bytes) → sized s p ≡ sized t q → (s ≡ t) × (p ≡ q)
sized_inj s t p q e =
    let no_colon = λ (n : ℕ). format_nat-Lacks n b':' (inr (omega arith)) in
    let digits : format_nat (length s) ≡ format_nat (length t) =
      sym (before-append b':' _ (s ++ p) (no_colon (length s)))
      ∙ ap (before b':') e
      ∙ before-append b':' _ (t ++ q) (no_colon (length t)) in
    let rest : s ++ p ≡ t ++ q = some_inj (
      sym (after-append b':' _ (s ++ p) (no_colon (length s)))
      ∙ ap (after b':') e
      ∙ after-append b':' _ (t ++ q) (no_colon (length t))) in
    let same_length : length s ≡ length t = some_inj (
      sym (unsigned-format_nat (length s)) ∙ ap unsigned digits ∙ unsigned-format_nat (length t)) in
    (
      sym (take-append_length s p) ∙ ap₂ take same_length rest ∙ take-append_length t q,
      sym (drop-append_length s p) ∙ ap₂ drop same_length rest ∙ drop-append_length t q,
    )

tail_inj : (c : ℕ) (s t : Bytes) → ◌≡◌ {A = Bytes} (c ∷ s) (c ∷ t) → s ≡ t
tail_inj c s t e = cc

append-ne : (s t : Bytes) (c : ℕ) → s ++ c ∷ t ≢ []
append-ne [] t c e = cc
append-ne (d ∷ s) t c e = cc

-- Label sets with one key are equal: no two series of a family are merged that expose other labels.
pub labels_key-injective : (ls ms : List Label) → labels_key ls ≡ labels_key ms → ls ≡ ms
unfolding labels_key
labels_key-injective [] [] e = refl
labels_key-injective [] (m ∷ ms) e =
    absurd (append-ne (format_nat (length m.label_name)) _ b':' (sym e))
labels_key-injective (l ∷ ls) [] e = absurd (append-ne (format_nat (length l.label_name)) _ b':' e)
labels_key-injective (l ∷ ls) (m ∷ ms) e =
    let (names, e1) = sized_inj l.label_name m.label_name _ _ e in
    let (values, e2) = sized_inj l.label_value m.label_value _ _ (tail_inj b'=' _ _ e1) in
    let more = labels_key-injective ls ms (tail_inj b';' _ _ e2) in cc
