-- ===== src/Base/Text.antt =====
-- Text as the list of its bytes: what the library uses of Go's package `strings`, for separators of
-- one byte.
use mathlib.Core.List.{List, [], ◌∷◌, ◌++◌}
use stats.Base.{
  ℕ, ◌≡◌, ◌≢◌, refl, Bool, true, false, ◌&&◌, ◌||◌, Option, none, some, ◌==◌, if◌then◌else◌, All,
  arith, ◌++◌, Bool-cases, inl, inr,
}

abbrev pub Bytes : Type 0
Bytes = List ℕ

abbrev pub Lacks : ℕ → Bytes → Type 0
Lacks c s = All (λ b. b ≢ c) s

-- The first result of `strings.Cut`: all of the text if the separator is not in it.
unfoldable pub before : ℕ → Bytes → Bytes
before sep [] = []
before sep (c ∷ s) = if c == sep then [] else c ∷ before sep s

-- The second result of `strings.Cut`, `none` if the third is false.
unfoldable pub after : ℕ → Bytes → Option Bytes
after sep [] = none
after sep (c ∷ s) = if c == sep then some s else after sep s

abbrev pub cons_head : ℕ → List Bytes → List Bytes
cons_head c [] = (c ∷ []) ∷ []
cons_head c (p ∷ ps) = (c ∷ p) ∷ ps

-- `strings.Split`, and the values of `strings.SplitSeq`.
unfoldable pub split : ℕ → Bytes → List Bytes
split sep [] = [] ∷ []
split sep (c ∷ s) =
    let closed = [] ∷ split sep s in
    let longer = cons_head c (split sep s) in if c == sep then closed else longer

-- `strings.Join`.
unfoldable pub join : ℕ → List Bytes → Bytes
join sep [] = []
join sep (p ∷ []) = p
join sep (p ∷ q ∷ ps) = p ++ sep ∷ join sep (q ∷ ps)

-- `a == b` of two strings.
unfoldable pub same : Bytes → Bytes → Bool
same [] [] = true
same [] (b ∷ t) = false
same (a ∷ s) [] = false
same (a ∷ s) (b ∷ t) = a == b && same s t

-- `strings.HasPrefix`, the prefix first.
unfoldable pub has_prefix : Bytes → Bytes → Bool
has_prefix [] s = true
has_prefix (a ∷ p) [] = false
has_prefix (a ∷ p) (b ∷ s) = a == b && has_prefix p s

abbrev pub contains : Bytes → List Bytes → Bool
contains s [] = false
contains s (t ∷ ts) = same s t || contains s ts

abbrev pub is_empty : Bytes → Bool
is_empty [] = true
is_empty (c ∷ s) = false

pub same_iff_eq : (s t : Bytes) → same s t ≡ true → s ≡ t
unfolding same
same_iff_eq [] [] h = refl
same_iff_eq [] (b ∷ t) h = cc
same_iff_eq (a ∷ s) [] h = cc
same_iff_eq (a ∷ s) (b ∷ t) h = ground (arith, same_iff_eq s t)

pub same_refl : (s : Bytes) → same s s ≡ true
unfolding same
same_refl [] = refl
same_refl (a ∷ s) = ground (arith, same_refl s)

pub All-append {ℓ κ} :
    {A : Type ℓ} (P : A → Type κ) (xs ys : List A) → All P xs → All P ys → All P (xs ++ ys)
All-append P [] ys h k = k
All-append P (x ∷ xs) ys h k = (h.0, All-append P xs ys h.1 k)

pub All-map {ℓ κ μ} :
    {A : Type ℓ} (P : A → Type κ) (Q : A → Type μ) (xs : List A)
    → ((x : A) → P x → Q x)
    → All P xs
    → All Q xs
All-map P Q [] f h = tt
All-map P Q (x ∷ xs) f h = (f x h.0, All-map P Q xs f h.1)

module _ (sep : ℕ) where
  pub before-append : (p s : Bytes) → Lacks sep p → before sep (p ++ sep ∷ s) ≡ p
  unfolding before
  before-append [] s h = ground arith
  before-append (c ∷ p) s h = ground (arith, before-append p s)

  pub after-append : (p s : Bytes) → Lacks sep p → after sep (p ++ sep ∷ s) ≡ some s
  unfolding after
  after-append [] s h = ground arith
  after-append (c ∷ p) s h = ground (arith, after-append p s)

  pub before-Lacks : (s : Bytes) → Lacks sep (before sep s)
  unfolding before
  before-Lacks [] = tt
  before-Lacks (c ∷ s) = elim (Bool-cases (c == sep)) [
    | inl e ↦ rw e tt
    | inr e ↦ rw e ((λ h. ground arith), before-Lacks s)
  ]

  pub split_whole : (p : Bytes) → Lacks sep p → split sep p ≡ p ∷ []
  unfolding split
  split_whole [] h = refl
  split_whole (c ∷ p) h = ground (arith, split_whole p)

  pub split-append : (p s : Bytes) → Lacks sep p → split sep (p ++ sep ∷ s) ≡ p ∷ split sep s
  unfolding split
  split-append [] s h = ground arith
  split-append (c ∷ p) s h = ground (arith, split-append p s)

  cons_head-Lacks :
      (c : ℕ) (ps : List Bytes) → c ≢ sep → All (Lacks sep) ps → All (Lacks sep) (cons_head c ps)
  cons_head-Lacks c [] n h = ((n, tt), tt)
  cons_head-Lacks c (p ∷ ps) n h = ((n, h.0), h.1)

  pub split-Lacks : (s : Bytes) → All (Lacks sep) (split sep s)
  unfolding split
  split-Lacks [] = (tt, tt)
  split-Lacks (c ∷ s) = elim (Bool-cases (c == sep)) [
    | inl e ↦ rw e (tt, split-Lacks s)
    | inr e ↦ rw e (cons_head-Lacks c (split sep s) (λ h. ground arith) (split-Lacks s))
  ]

  pub join-Lacks : (d : ℕ) (ps : List Bytes) → sep ≢ d → All (Lacks d) ps → Lacks d (join sep ps)
  unfolding join
  join-Lacks d [] n h = tt
  join-Lacks d (p ∷ []) n h = h.0
  join-Lacks d (p ∷ q ∷ ps) n h =
      All-append (λ b. b ≢ d) p (sep ∷ join sep (q ∷ ps)) h.0 (n, join-Lacks d (q ∷ ps) n h.1)

  pub split-join :
      (p : Bytes) (ps : List Bytes)
      → All (Lacks sep) (p ∷ ps)
      → split sep (join sep (p ∷ ps)) ≡ p ∷ ps
  unfolding join
  split-join p [] h = split_whole p h.0
  split-join p (q ∷ ps) h = rw (split-append p _ h.0, split-join q ps h.1) refl
