-- ===== src/Prometheus/Names.antt =====
-- Names that a scrape accepts.
use stats.Base.{
  ℕ, zero, suc, ◌<◌, ◌≡◌, refl, Bool, true, false, ◌&&◌, ◌||◌, [], ◌∷◌, ◌==◌, All, Bool-cases, inl,
  inr, arith,
}
use stats.Base.Text.{Bytes}
use stats.Base.Utf8.{extra_bytes, extra_bytes_ascii}
use stats.Prometheus.{is_name_start, is_name_digit, normalize_from, normalize_name}

abbrev starts_name : Bool → ℕ → Bool
starts_name allow_colon c = is_name_start c || (c == b':' && allow_colon)

abbrev continues_name : Bool → ℕ → Bool
continues_name allow_colon c = starts_name allow_colon c || is_name_digit c

abbrev IsRest : Bool → Bytes → Type 0
IsRest allow_colon s = All (λ c. continues_name allow_colon c ≡ true) s

-- A letter, an underscore or, in a metric name, a colon, and behind it also digits.
abbrev pub IsName : Bool → Bytes → Type 0
IsName allow_colon [] = ⊥
IsName allow_colon (c ∷ s) = (starts_name allow_colon c ≡ true) × IsRest allow_colon s

normalize_from-IsRest :
    (allow_colon : Bool) (left : ℕ) (s : Bytes)
    → IsRest allow_colon (normalize_from allow_colon false left s)
unfolding normalize_from
normalize_from-IsRest a left [] = tt
normalize_from-IsRest a (suc left) (c ∷ s) = normalize_from-IsRest a left s
normalize_from-IsRest a zero (c ∷ s) =
    let rest = normalize_from-IsRest a (extra_bytes c s) s in
    elim (Bool-cases (is_name_start c)) [
      | inl letter ↦ rw letter (ground arith, rest)
      | inr other ↦ elim (Bool-cases (is_name_digit c)) [
        | inl digit ↦ rw (other, digit) (ground arith, rest)
        | inr no_digit ↦ elim (Bool-cases (c == b':' && a)) [
          | inl colon ↦ rw (other, no_digit, colon) (ground arith, rest)
          | inr no_colon ↦ rw (other, no_digit, no_colon) (refl, rest)
        ]
      ]
    ]

normalize_from-IsName : (a : Bool) (c : ℕ) (s : Bytes) → IsName a (normalize_from a true 0 (c ∷ s))
unfolding normalize_from
normalize_from-IsName a c s =
    let rest = normalize_from-IsRest a (extra_bytes c s) s in
    elim (Bool-cases (is_name_start c)) [
      | inl letter ↦ rw letter (ground arith, rest)
      | inr other ↦ elim (Bool-cases (is_name_digit c)) [
        | inl digit ↦ rw (other, digit) (refl, (ground arith, rest))
        | inr no_digit ↦ elim (Bool-cases (c == b':' && a)) [
          | inl colon ↦ rw (other, no_digit, colon) (ground arith, rest)
          | inr no_colon ↦ rw (other, no_digit, no_colon) (refl, rest)
        ]
      ]
    ]

normalize_name-IsName : (a : Bool) (s : Bytes) → IsName a (normalize_name a s)
unfolding normalize_name
normalize_name-IsName a [] = (refl, tt)
normalize_name-IsName a (c ∷ s) = normalize_from-IsName a c s

name_ascii : (a : Bool) (c : ℕ) → continues_name a c ≡ true → c < 0x80
name_ascii a c h = ground arith

one_byte : (a : Bool) (c : ℕ) (s : Bytes) → continues_name a c ≡ true → extra_bytes c s ≡ 0
one_byte a c s h = extra_bytes_ascii c s (name_ascii a c h)

normalize_same_rest : (a : Bool) (s : Bytes) → IsRest a s → normalize_from a false 0 s ≡ s
unfolding normalize_from
normalize_same_rest a [] h = refl
normalize_same_rest a (c ∷ s) h =
    rw (one_byte a c s h.0) (ground (arith, normalize_same_rest a s h.1))

normalize_name_same : (a : Bool) (s : Bytes) → IsName a s → normalize_name a s ≡ s
unfolding normalize_name normalize_from
normalize_name_same a [] h = elim h [ ]
normalize_name_same a (c ∷ s) h =
    rw (one_byte a c s (ground arith)) (ground (arith, normalize_same_rest a s h.1))

-- Normalizing gives a name that a scrape accepts, for any text, and changes no such name.
pub normalize_name_lem :
    (allow_colon : Bool) (s : Bytes)
    → IsName allow_colon (normalize_name allow_colon s)
      × (IsName allow_colon s → normalize_name allow_colon s ≡ s)
normalize_name_lem a s = (normalize_name-IsName a s, normalize_name_same a s)
