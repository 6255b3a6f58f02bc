-- ===== src/Samples.antt =====
-- Data for tests: the bytes of a literal, and whole numbers in the place of a `float64`.
use Prim.Native.Char.{code}
use Prim.Native.String.{String}
use stats.Base.{ℕ, ◌+◌, ◌≡◌, refl, true, false, [], ◌∷◌, ltb, ◌==◌, ==_iff, arith, All}
use stats.Base.Int.{pos}
use stats.Base.Float.{Float64, FloatText, IsExact, is_number_byte}
use stats.Base.Text.{Bytes, All-map}
use stats.Base.Decimal.{format_nat, unsigned, unsigned-format_nat, format_nat-IsDigit, IsDigit}

abbrev pub bytes : String → Bytes
bytes String.[] = []
bytes (String.◌∷◌ c s) = code c ∷ bytes s

abbrev pub naturals : Float64 ℕ
naturals = record {
  nought = 0;
  add = λ a b. a + b;
  neg = λ a. a;
  lt = ltb;
  is_nan = λ a. false;
  is_inf = λ a. false;
  frexp = λ a. (a, pos 0);
  log2_ceil = λ a s. pos 0;
}

abbrev pub decimals : FloatText ℕ
decimals = record {
  one = 1;
  eq = ◌==◌;
  parse_float = unsigned;
  format_float = format_nat;
  format_verb = format_nat;
}

digit_plain : (n : ℕ) → All (λ c. is_number_byte c ≡ true) (format_nat n)
digit_plain n =
    All-map IsDigit (λ c. is_number_byte c ≡ true) (format_nat n) (λ c d. ground arith)
      (format_nat-IsDigit n)

pub exact : IsExact naturals decimals
exact = record {
  reads = λ v h. unsigned-format_nat v;
  reads_verb = λ v h. unsigned-format_nat v;
  plain = digit_plain;
  plain_verb = digit_plain;
  compares = λ a b h. refl;
  only_one = λ v. ==_iff v 1;
  above_nought = λ v h. ground arith;
}
