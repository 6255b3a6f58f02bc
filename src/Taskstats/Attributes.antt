-- ===== src/Taskstats/Attributes.antt =====
-- `findAttr` on a list of attributes as the kernel lays it out.
use stats.Base.{
  ℕ, zero, suc, ◌+◌, ◌-◌, ◌*◌, ◌%◌, ◌/◌, ◌^◌, ◌≤◌, ◌<◌, ◌≡◌, refl, ap, ◌∙◌, min, bit_and, Bool,
  true, false, some, List, [], ◌∷◌, ◌++◌, append_assoc, length, length-append, length-replicate,
  replicate, take, drop, arith, ◌==◌, if◌then◌else◌,
}
use stats.Base.Bits.{bit_and_mask}
use stats.Taskstats.{Reply, absent, found, uint_at, align4, find_attr}
use stats.Taskstats.Total.{align4_lem}

-- The length of header and value, the type, the value, and zeros up to a multiple of four.
abbrev pub encode_attr : ℕ → List ℕ → List ℕ
encode_attr type value =
    let n = length value + 4 in
    n % 256 ∷ n / 256 ∷ type % 256 ∷ type / 256 ∷ (value ++ replicate (align4 n - n) 0)

abbrev pub encode_attrs : List (ℕ × List ℕ) → List ℕ
encode_attrs [] = []
encode_attrs ((type, value) ∷ attrs) = encode_attr type value ++ encode_attrs attrs

-- The value of the first attribute of the type.
abbrev pub first_of : ℕ → List (ℕ × List ℕ) → Reply (List ℕ)
first_of want [] = absent
first_of want ((type, value) ∷ attrs) = if type == want then found value else first_of want attrs

-- The type leaves the two flags free, and the length fits its 16 bits.
abbrev pub AllFit : List (ℕ × List ℕ) → Type 0
AllFit [] = Unit
AllFit ((type, value) ∷ attrs) = (type < 2 ^ 14) × (length value + 4 < 2 ^ 16) × AllFit attrs

take_prefix : {A : Type 0} (xs ys : List A) → take (length xs) (xs ++ ys) ≡ xs
take_prefix [] ys = refl
take_prefix (x ∷ xs) ys = ap (λ t. x ∷ t) (take_prefix xs ys)

drop_prefix : {A : Type 0} (xs ys : List A) → drop (length xs) (xs ++ ys) ≡ ys
drop_prefix [] ys = refl
drop_prefix (x ∷ xs) ys = drop_prefix xs ys

length-encode_attr :
    (type : ℕ) (value : List ℕ) → length (encode_attr type value) ≡ align4 (length value + 4)
length-encode_attr type value =
    let n = length value + 4 in
    omega (
      arith,
      length-append value (replicate (align4 n - n) 0),
      length-replicate {A = ℕ} (align4 n - n) 0,
      align4_lem n,
    )

after_attr :
    (type : ℕ) (value rest : List ℕ)
    → let buf = encode_attr type value ++ rest in
      drop (min (align4 (length value + 4)) (length buf)) buf ≡ rest
after_attr type value rest =
    let front = encode_attr type value in
    let whole : min (align4 (length value + 4)) (length (front ++ rest)) ≡ length front =
      omega (arith, length-encode_attr type value, length-append front rest) in
    ap (λ (n : ℕ). drop n (front ++ rest)) whole ∙ drop_prefix front rest

two_bytes : (n : ℕ) → n % 256 + 256 * (n / 256 + 256 * 0) ≡ n
two_bytes n = omega arith

type_kept : (type : ℕ) → type < 2 ^ 14 → bit_and type 0x3fff ≡ type
type_kept type h = bit_and_mask 14 type ∙ omega arith

at_end : (fuel want : ℕ) → find_attr (suc fuel) [] want ≡ some absent
unfolding find_attr
at_end fuel want = refl

some_if :
    (b : Bool) (x y : Reply (List ℕ)) → (if b then some x else some y) ≡ some (if b then x else y)
some_if true x y = refl
some_if false x y = refl

-- One round over a well-formed attribute.
attr_step :
    (fuel : ℕ) (buf : List ℕ) (want n type : ℕ)
    → uint_at 2 0 buf ≡ n
    → bit_and (uint_at 2 2 buf) 0x3fff ≡ type
    → 4 ≤ n
    → n ≤ length buf
    → find_attr (suc fuel) buf want ≡ (
        if type == want
        then some (found (take (n - 4) (drop 4 buf)))
        else find_attr fuel (drop (min (align4 n) (length buf)) buf) want)
unfolding find_attr
attr_step fuel buf want n type length_is type_is big inside =
    rw (find_attr, length_is, type_is) (ground arith)

value_of :
    (type : ℕ) (value rest : List ℕ)
    → take (length value + 4 - 4) (drop 4 (encode_attr type value ++ rest)) ≡ value
value_of type value rest =
    let n = length value + 4 in
    let pad = replicate (align4 n - n) 0 in
    ap (λ (k : ℕ). take k (value ++ pad ++ rest)) (omega arith)
    ∙ ap (take (length value)) (append_assoc value pad rest)
    ∙ take_prefix value (pad ++ rest)

-- The search over the encoding of a list of attributes gives the value of the first attribute of
-- the type that is wanted, without its padding, or nothing if there is none.
pub find_attr-encode_attrs :
    (attrs : List (ℕ × List ℕ)) (want fuel : ℕ)
    → AllFit attrs
    → length attrs < fuel
    → find_attr fuel (encode_attrs attrs) want ≡ some (first_of want attrs)
find_attr-encode_attrs attrs want zero fit enough = absurd (omega arith)
find_attr-encode_attrs [] want (suc fuel) fit enough = at_end fuel want
find_attr-encode_attrs ((type, value) ∷ attrs) want (suc fuel) (small, narrow, fit) enough =
    let rest = encode_attrs attrs in
    let buf = encode_attr type value ++ rest in
    let n = length value + 4 in
    let next = find_attr-encode_attrs attrs want fuel fit (omega arith) in
    let long : n ≤ length buf = omega (
      arith,
      length-append (encode_attr type value) rest,
      length-encode_attr type value,
      align4_lem n,
    ) in
    let type_is = ap (λ (t : ℕ). bit_and t 0x3fff) (two_bytes type) ∙ type_kept type small in
    attr_step fuel buf want n type (two_bytes n) type_is (omega arith) long
    ∙ ap
        (λ v.
          if type == want
          then some (found v)
          else find_attr fuel (drop (min (align4 n) (length buf)) buf) want)
        (value_of type value rest)
    ∙ ap (λ b. if type == want then some (found value) else find_attr fuel b want)
        (after_attr type value rest)
    ∙ ap (λ o. if type == want then some (found value) else o) next
    ∙ some_if (type == want) (found value) (first_of want attrs)
