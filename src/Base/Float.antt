-- ===== src/Base/Float.antt =====
-- What the library does with a `float64`: Go's arithmetic and comparisons, and the functions of its
-- package `math`. `frexp v` is (m, e) for v = m / 2^53 * 2^e with 2^52 <= m < 2^53, the form that
-- `math.Frexp` gives a positive finite value. `log2_ceil m s` is
-- `int(math.Ceil(math.Ldexp(math.Log2(m / 2^53), s)))`.
use stats.Base.{ℕ, Bool, true, false, ◌&&◌, ◌||◌, ◌≡◌, ◌⊎◌, ◌↔◌, Option, some, List, leb, ◌==◌, All}
use stats.Base.Int.{ℤ}

pub record Float64 (F : Type 0) : Type 0 where
  pub nought : F
  pub add : F → F → F
  pub neg : F → F
  pub lt : F → F → Bool
  pub is_nan : F → Bool
  pub is_inf : F → Bool
  pub frexp : F → ℕ × ℤ
  pub log2_ceil : ℕ → ℕ → ℤ

-- IEEE 754: the comparison is a strict order, total up to the equality of what it does not tell
-- apart, away from NaN; and `neg` turns a negative value into a positive one.
pub record IsOrdered {F : Type 0} (f : Float64 F) : Type 0 where
  pub irrefl : (a : F) → f.lt a a ≡ false
  pub trans : (a b c : F) → f.lt a b ≡ true → f.lt b c ≡ true → f.lt a c ≡ true
  pub cotrans :
      (a b c : F) → f.is_nan b ≡ false → f.lt a c ≡ true → (f.lt a b ≡ true) ⊎ (f.lt b c ≡ true)

-- Numbers as text: `strconv.ParseFloat`, `strconv.FormatFloat` with the format 'g' and the
-- precision -1, and the verb `%g` of package `fmt`; and the operator `==`.
pub record FloatText (F : Type 0) : Type 0 where
  pub one : F
  pub eq : F → F → Bool
  pub parse_float : List ℕ → Option F
  pub format_float : F → List ℕ
  pub format_verb : F → List ℕ

-- A digit, a letter, a sign or a point.
abbrev pub is_number_byte : ℕ → Bool
is_number_byte c =
    c == b'+'
    || c == b'-'
    || c == b'.'
    || (leb b'0' c && leb c b'9')
    || (leb b'A' c && leb c b'Z')
    || (leb b'a' c && leb c b'z')

-- The documentation of `strconv`: the shortest text that reads back as the same value. IEEE 754: a
-- comparison with NaN is false, and 1 is equal to 1 only.
pub record IsExact {F : Type 0} (f : Float64 F) (t : FloatText F) : Type 0 where
  pub reads : (v : F) → f.is_nan v ≡ false → t.parse_float (t.format_float v) ≡ some v
  pub reads_verb : (v : F) → f.is_nan v ≡ false → t.parse_float (t.format_verb v) ≡ some v
  pub plain : (v : F) → All (λ c. is_number_byte c ≡ true) (t.format_float v)
  pub plain_verb : (v : F) → All (λ c. is_number_byte c ≡ true) (t.format_verb v)
  pub compares : (a b : F) → f.lt a b ≡ true → f.is_nan b ≡ false
  pub only_one : (v : F) → (t.eq v t.one ≡ true) ↔ (v ≡ t.one)
  pub above_nought : (v : F) → f.lt f.nought v ≡ true → t.eq v f.nought ≡ false
