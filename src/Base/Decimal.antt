-- ===== src/Base/Decimal.antt =====
-- Decimal numbers: what the library uses of Go's package `strconv`.
use stats.Base.{
  ℕ, zero, suc, ◌+◌, ◌-◌, ◌*◌, ◌/◌, ◌%◌, ◌^◌, ◌≤◌, ◌<◌, ◌≡◌, ◌≢◌, ◌⊎◌, refl, ap, ◌∙◌, ◌&&◌, Option,
  none, some, [], ◌∷◌, ltb, leb, ◌==◌, if◌then◌else◌, arith, All, Bool-cases, inl, inr,
}
use stats.Base.Int.{ℤ, pos, negsuc, ◌≤ℤ◌}
use stats.Base.Text.{Bytes, Lacks, All-map}

-- The digits of `n` before `out`; `n` itself is fuel enough.
digits : ℕ → ℕ → Bytes → Bytes
digits zero n out = (b'0' + n % 10) ∷ out
digits (suc fuel) n out =
    let more = digits fuel (n / 10) ((b'0' + n % 10) ∷ out) in
    if ltb n 10 then (b'0' + n) ∷ out else more

-- `strconv.Itoa` of a number that is not negative.
unfoldable pub format_nat : ℕ → Bytes
unfolding digits
format_nat n = digits n n []

-- `strconv.FormatInt` in base 10.
unfoldable pub format_int : ℤ → Bytes
unfolding format_nat
format_int (pos n) = format_nat n
format_int (negsuc n) = b'-' ∷ format_nat (suc n)

-- The digits of a number, most significant first, onto `n`.
scan : ℕ → Bytes → Option ℕ
scan n [] = some n
scan n (c ∷ s) =
    let rest = scan (n * 10 + (c - b'0')) s in if leb b'0' c && leb c b'9' then rest else none

unfoldable pub unsigned : Bytes → Option ℕ
unfolding scan
unsigned [] = none
unsigned (c ∷ s) = scan 0 (c ∷ s)

abbrev positive : Option ℕ → Option ℤ
positive none = none
positive (some n) = if ltb n (2 ^ 63) then some (pos n) else none

abbrev negative : Option ℕ → Option ℤ
negative none = none
negative (some zero) = some (pos 0)
negative (some (suc n)) = if ltb n (2 ^ 63) then some (negsuc n) else none

-- `strconv.Atoi`, and `strconv.ParseInt` in base 10: `none` is an error, of syntax or of a number
-- that is no int64.
unfoldable pub parse_int : Bytes → Option ℤ
unfolding unsigned
parse_int [] = none
parse_int (c ∷ s) =
    if c == b'-'
    then negative (unsigned s)
    else if c == b'+'
    then positive (unsigned s)
    else positive (unsigned (c ∷ s))

abbrev pub IsDigit : ℕ → Type 0
IsDigit c = (b'0' ≤ c) × (c ≤ b'9')

scan-digits : (fuel n : ℕ) (out : Bytes) → n ≤ fuel → scan 0 (digits fuel n out) ≡ scan n out
unfolding scan digits
scan-digits zero n out h = ground arith
scan-digits (suc fuel) n out h = ground (arith, scan-digits fuel (n / 10) ((b'0' + n % 10) ∷ out))

digits-IsDigit : (fuel n : ℕ) (out : Bytes) → All IsDigit out → All IsDigit (digits fuel n out)
unfolding digits
digits-IsDigit zero n out h = (omega arith, h)
digits-IsDigit (suc fuel) n out h = elim (Bool-cases (ltb n 10)) [
  | inl e ↦ rw e (ground arith)
  | inr e ↦ rw e (digits-IsDigit fuel (n / 10) ((b'0' + n % 10) ∷ out) (omega arith, h))
]

digits-ne-nil : (fuel n : ℕ) (out : Bytes) → digits fuel n out ≢ []
unfolding digits
digits-ne-nil zero n out h = cc
digits-ne-nil (suc fuel) n out h =
    ground (arith, digits-ne-nil fuel (n / 10) ((b'0' + n % 10) ∷ out))

unsigned_digits : (s : Bytes) → s ≢ [] → unsigned s ≡ scan 0 s
unfolding unsigned
unsigned_digits [] h = absurd (h refl)
unsigned_digits (c ∷ s) h = refl

parse_digits : (s : Bytes) → s ≢ [] → All IsDigit s → parse_int s ≡ positive (scan 0 s)
unfolding parse_int
parse_digits [] h k = absurd (h refl)
parse_digits (c ∷ s) h k = ground arith

pub format_nat-ne-nil : (n : ℕ) → format_nat n ≢ []
unfolding format_nat
format_nat-ne-nil n = digits-ne-nil n n []

pub unsigned-format_nat : (n : ℕ) → unsigned (format_nat n) ≡ some n
unfolding format_nat scan
unsigned-format_nat n = unsigned_digits _ (digits-ne-nil n n []) ∙ scan-digits n n [] (omega arith)

pub parse_int-format_nat : (n : ℕ) → n < 2 ^ 63 → parse_int (format_nat n) ≡ some (pos n)
unfolding format_nat scan
parse_int-format_nat n h =
    parse_digits _ (digits-ne-nil n n []) (digits-IsDigit n n [] tt)
    ∙ ap positive (scan-digits n n [] (omega arith))
    ∙ ground arith

-- An int64 is printed and read back.
pub parse_int-format_int :
    (z : ℤ) → negsuc (2 ^ 63 - 1) ≤ℤ z → z ≤ℤ pos (2 ^ 63 - 1) → parse_int (format_int z) ≡ some z
unfolding format_int
parse_int-format_int (pos n) low high = parse_int-format_nat n (omega arith)
parse_int-format_int (negsuc n) low high =
    unfold parse_int in rw (unsigned-format_nat (suc n)) (ground arith)

not_digit : (b c : ℕ) → (c < b'0') ⊎ (b'9' < c) → IsDigit b → b ≢ c
not_digit b c h d e = ground arith

pub format_nat-IsDigit : (n : ℕ) → All IsDigit (format_nat n)
unfolding format_nat
format_nat-IsDigit n = digits-IsDigit n n [] tt

-- No byte but digits and a sign.
pub format_nat-Lacks : (n c : ℕ) → (c < b'0') ⊎ (b'9' < c) → Lacks c (format_nat n)
format_nat-Lacks n c h =
    All-map IsDigit (λ b. b ≢ c) (format_nat n) (λ b d e. not_digit b c h d e)
      (format_nat-IsDigit n)

pub format_int-Lacks : (z : ℤ) (c : ℕ) → b'9' < c → Lacks c (format_int z)
unfolding format_int
format_int-Lacks (pos n) c h = format_nat-Lacks n c (inr h)
format_int-Lacks (negsuc n) c h = ((λ e. absurd (omega arith)), format_nat-Lacks (suc n) c (inr h))

abbrev pub IsInt64 : ℤ → Type 0
IsInt64 z = (negsuc (2 ^ 63 - 1) ≤ℤ z) × (z ≤ℤ pos (2 ^ 63 - 1))

positive-IsInt64 : (o : Option ℕ) (z : ℤ) → positive o ≡ some z → IsInt64 z
positive-IsInt64 none z h = cc
positive-IsInt64 (some n) z h = ground arith

negative-IsInt64 : (o : Option ℕ) (z : ℤ) → negative o ≡ some z → IsInt64 z
negative-IsInt64 none z h = cc
negative-IsInt64 (some zero) z h = ground arith
negative-IsInt64 (some (suc n)) z h = ground arith

-- What is read is an int64.
pub parse_int-IsInt64 : (s : Bytes) (z : ℤ) → parse_int s ≡ some z → IsInt64 z
unfolding parse_int
parse_int-IsInt64 [] z h = cc
parse_int-IsInt64 (c ∷ s) z h = elim (Bool-cases (c == b'-')) [
  | inl minus ↦ negative-IsInt64 (unsigned s) z (rw minus at h)
  | inr other ↦ elim (Bool-cases (c == b'+')) [
    | inl plus ↦ positive-IsInt64 (unsigned s) z (rw (other, plus) at h)
    | inr digit ↦ positive-IsInt64 (unsigned (c ∷ s)) z (rw (other, digit) at h)
  ]
]
