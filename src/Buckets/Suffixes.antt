-- ===== src/Buckets/Suffixes.antt =====
-- Which entry the bounds of a metric come from.
use stats.Base.{
  subst, ℕ, ◌<◌, ◌≤◌, ◌≡◌, ◌≢◌, ◌⊎◌, refl, sym, ap, ap₂, ◌∙◌, Bool, true, false, List, [], ◌∷◌,
  ◌++◌, length, ◌==◌, ==_iff, inl, inr, arith,
}
use stats.Base.Text.{Bytes}
use stats.Buckets.{unprefixed_buckets_key, or_else, unprefixed_from, unprefixed_buckets}

-- The second text is the first, or what follows a point in it.
abbrev pub IsSuffix : Bytes → Bytes → Type 0
IsSuffix name suffix = (name ≡ suffix) ⊎ (before : Bytes) × (name ≡ before ++ b'.' ∷ suffix)

-- The same, from a position where a name starts or none does.
data Reaches : Bool → Bytes → Bytes → Type 0 where
  here : {name : Bytes} → Reaches true name name
  next :
      {b : Bool} {c : ℕ} {name suffix : Bytes}
      → Reaches (c == b'.') name suffix
      → Reaches b (c ∷ name) suffix

Reaches-after : (b : Bool) (before suffix : Bytes) → Reaches b (before ++ b'.' ∷ suffix) suffix
Reaches-after b [] suffix = next here
Reaches-after b (c ∷ before) suffix = next (Reaches-after (c == b'.') before suffix)

reaches : (name suffix : Bytes) → IsSuffix name suffix → Reaches true name suffix
reaches name suffix (inl e) = subst (Reaches true name) e here
reaches name suffix (inr (before, e)) =
    subst (λ n. Reaches true n suffix) (sym e) (Reaches-after true before suffix)

suffix_of :
    (b : Bool) (name suffix : Bytes)
    → Reaches b name suffix
    → (b ≡ true) × (name ≡ suffix) ⊎ (before : Bytes) × (name ≡ before ++ b'.' ∷ suffix)
suffix_of true name _ here = inl (refl, refl)
suffix_of b (c ∷ name) suffix (next r) = elim (suffix_of (c == b'.') name suffix r) [
  | inl (point, e) ↦ inr ([], ap₂ (λ x xs. x ∷ xs) ((==_iff c b'.').0 point) e)
  | inr (before, e) ↦ inr (c ∷ before, ap (λ xs. c ∷ xs) e)
]

suffix : (name s : Bytes) → Reaches true name s → IsSuffix name s
suffix name s r = elim (suffix_of true name s r) [
  | inl (start, e) ↦ inl e
  | inr (before, e) ↦ inr (before, e)
]

Reaches-length : (b : Bool) (name s : Bytes) → Reaches b name s → length s ≤ length name
Reaches-length true name _ here = omega arith
Reaches-length b (c ∷ name) s (next r) = omega (arith, Reaches-length (c == b'.') name s r)

skipped : {c : ℕ} {name s : Bytes} → Reaches false (c ∷ name) s → Reaches (c == b'.') name s
skipped (next r) = r

from_start :
    {c : ℕ} {name s : Bytes}
    → Reaches true (c ∷ name) s
    → (c ∷ name ≡ s) ⊎ Reaches (c == b'.') name s
from_start here = inl refl
from_start (next r) = inr r

ended : {s : Bytes} → Reaches true [] s → [] ≡ s
ended here = refl

never : {s : Bytes} → Reaches false [] s → ⊥
never r = elim r [ ]

module _ {F : Type 0} (by_name : Bytes → List F) where
  -- No entry is longer than that of the suffix.
  abbrev pub IsLongest : Bytes → Bytes → Type 0
  IsLongest name suffix =
      (other : Bytes)
      → IsSuffix name other
      → length suffix < length other
      → by_name (unprefixed_buckets_key other) ≡ []

  -- What the loop finds from a position: nothing, or the entry of the longest suffix that has one.
  abbrev Found : Bool → Bytes → List F → Type 0
  Found b name bounds =
      (bounds ≡ []) × ((s : Bytes) → Reaches b name s → by_name (unprefixed_buckets_key s) ≡ [])
      ⊎ (s : Bytes) × Reaches b name s
        × (by_name (unprefixed_buckets_key s) ≡ bounds)
        × (bounds ≢ [])
        × ((other : Bytes)
            → Reaches b name other
            → length s < length other
            → by_name (unprefixed_buckets_key other) ≡ [])

  or_else-cases :
      (xs ys : List F) → (xs ≡ []) × (or_else xs ys ≡ ys) ⊎ (or_else xs ys ≡ xs) × (xs ≢ [])
  or_else-cases [] ys = inl (refl, refl)
  or_else-cases (x ∷ xs) ys = inr (refl, λ e. absurd cc)

  Found-skip :
      (c : ℕ) (name : Bytes) (bounds : List F)
      → Found (c == b'.') name bounds
      → Found false (c ∷ name) bounds
  Found-skip c name bounds (inl (e, none_there)) = inl (e, λ s r. none_there s (skipped r))
  Found-skip c name bounds (inr (s, r, own, some_there, longest)) =
      inr (s, next r, own, some_there, λ other r' longer. longest other (skipped r') longer)

  -- The whole has no entry.
  Found-next :
      (c : ℕ) (name : Bytes) (bounds : List F)
      → by_name (unprefixed_buckets_key (c ∷ name)) ≡ []
      → Found (c == b'.') name bounds
      → Found true (c ∷ name) bounds
  Found-next c name bounds whole (inl (e, none_there)) = inl (e, λ s r. after s (from_start r))
    where
      after :
          (s : Bytes)
          → (c ∷ name ≡ s) ⊎ Reaches (c == b'.') name s
          → by_name (unprefixed_buckets_key s) ≡ []
      after s (inl e') = ap (λ n. by_name (unprefixed_buckets_key n)) (sym e') ∙ whole
      after s (inr r) = none_there s r
  Found-next c name bounds whole (inr (s, r, own, some_there, longest)) =
      inr (s, next r, own, some_there, λ other r' longer. after other longer (from_start r'))
    where
      after :
          (other : Bytes)
          → length s < length other
          → (c ∷ name ≡ other) ⊎ Reaches (c == b'.') name other
          → by_name (unprefixed_buckets_key other) ≡ []
      after other longer (inl e') = ap (λ n. by_name (unprefixed_buckets_key n)) (sym e') ∙ whole
      after other longer (inr r') = longest other r' longer

  unprefixed_from-Found : (b : Bool) (name : Bytes) → Found b name (unprefixed_from by_name b name)
  unfolding unprefixed_from
  unprefixed_from-Found false [] = inl (refl, λ s r. absurd (never r))
  unprefixed_from-Found false (c ∷ name) =
      Found-skip c name (unprefixed_from by_name (c == b'.') name)
        (unprefixed_from-Found (c == b'.') name)
  unprefixed_from-Found true [] = elim (or_else-cases (by_name (unprefixed_buckets_key [])) []) [
    | inl (e, e') ↦ inl (e, λ s r. ap (λ n. by_name (unprefixed_buckets_key n)) (sym (ended r)) ∙ e)
    | inr (e, some_there) ↦ inr (
      [],
      here,
      refl,
      some_there,
      λ other r longer. absurd (omega (arith, Reaches-length true [] other r)),
    )
  ]
  unprefixed_from-Found true (c ∷ name) =
      let rest = unprefixed_from by_name (c == b'.') name in
      elim (or_else-cases (by_name (unprefixed_buckets_key (c ∷ name))) rest) [
        | inl (e, e') ↦
            subst (Found true (c ∷ name)) (sym e')
              (Found-next c name rest e (unprefixed_from-Found (c == b'.') name))
        | inr (e, some_there) ↦ subst (Found true (c ∷ name)) (sym e) (
            inr (
              c ∷ name,
              here,
              refl,
              some_there,
              λ other r longer. absurd (omega (arith, Reaches-length true (c ∷ name) other r)),
            ))
      ]

  -- The bounds that are registered without a prefix are those of the longest suffix of the name that has an
  -- entry, a suffix being the name or what follows a point in it; there are none if no suffix has one.
  pub unprefixed_buckets-cases :
      (name : Bytes)
      → let bounds = unprefixed_buckets by_name name in
        (bounds ≡ []) × ((s : Bytes) → IsSuffix name s → by_name (unprefixed_buckets_key s) ≡ [])
        ⊎ (s : Bytes) × IsSuffix name s
          × (by_name (unprefixed_buckets_key s) ≡ bounds)
          × (bounds ≢ [])
          × IsLongest name s
  unfolding unprefixed_buckets
  unprefixed_buckets-cases name = elim (unprefixed_from-Found true name) [
    | inl (e, none_there) ↦ inl (e, λ s r. none_there s (reaches name s r))
    | inr (s, r, own, some_there, longest) ↦ inr (
      s,
      suffix name s r,
      own,
      some_there,
      λ other r' longer. longest other (reaches name other r') longer,
    )
  ]
