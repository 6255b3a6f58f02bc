-- ===== src/Cardinality/TagKey.antt =====
-- `validTagKey` against the grammar of tag keys.
use mathlib.Core.Logic.{◌↔◌}
use stats.Base.{
  ℕ, suc, ◌<◌, ◌≡◌, refl, sym, subst, ◌∙◌, true, ◌||◌, List, [], ◌∷◌, arith, inl, inr, ◌⊎◌,
}
use stats.Cardinality.{is_letter, is_digit, valid_from, valid_tag_key}

-- Identifier segments joined by single dots: `[a-zA-Z_][a-zA-Z0-9_]*(\.[a-zA-Z_][a-zA-Z0-9_]*)*`.
-- `Rest` is what may follow inside a segment.
mutual
  pub data IsKey : List ℕ → Type 0 where
    begins : (c : ℕ) (cs : List ℕ) → is_letter c ≡ true → Rest cs → IsKey (c ∷ cs)

  pub data Rest : List ℕ → Type 0 where
    ends : Rest []
    goes_on : (c : ℕ) (cs : List ℕ) → is_letter c || is_digit c ≡ true → Rest cs → Rest (c ∷ cs)
    dots : (cs : List ℕ) → IsKey cs → Rest (46 ∷ cs)

ruleset grammar = (begins, ends, goes_on, dots)

-- The three ways in which the loop goes on.
abbrev GoesOn : ℕ → ℕ → ℕ → List ℕ → Type 0
GoesOn i start c cs =
    ((is_letter c ≡ true) × (valid_from (suc i) start cs ≡ true))
    ⊎ ((is_digit c ≡ true) × (start < i) × (valid_from (suc i) start cs ≡ true))
    ⊎ ((c ≡ 46) × (start < i) × (valid_from (suc i) (suc i) cs ≡ true))

goes_on_lem :
    (i start c : ℕ) (cs : List ℕ) → valid_from i start (c ∷ cs) ≡ true → GoesOn i start c cs
unfolding valid_from
goes_on_lem i start c cs h = ground arith

ends_lem : (i start : ℕ) → valid_from i start [] ≡ true → start < i
unfolding valid_from
ends_lem i start h = ground arith

sound :
    (cs : List ℕ) (i start : ℕ)
    → valid_from i start cs ≡ true
    → (start < i → Rest cs) × (start ≡ i → IsKey cs)
sound [] i start h = (λ lt. ends, λ e. absurd (omega (arith, ends_lem i start h)))
sound (c ∷ cs) i start h = elim (goes_on_lem i start c cs h) [
  | inl (letter, rest) ↦
      let inside = (sound cs (suc i) start rest).0 in
      (
        λ lt. goes_on c cs (ground (arith, letter)) (inside (omega arith)),
        λ e. begins c cs letter (inside (omega arith)),
      )
  | inr (inl (digit, lt, rest)) ↦
      let inside = (sound cs (suc i) start rest).0 in
      (λ lt. goes_on c cs (ground (arith, digit)) (inside (omega arith)), λ e. absurd (omega arith))
  | inr (inr (dot, lt, rest)) ↦
      let next = (sound cs (suc i) (suc i) rest).1 in
      (λ lt. subst (λ b. Rest (b ∷ cs)) (sym dot) (dots cs (next refl)), λ e. absurd (omega arith))
]

letter_step :
    (c : ℕ) (cs : List ℕ) (i start : ℕ)
    → is_letter c ≡ true
    → valid_from i start (c ∷ cs) ≡ valid_from (suc i) start cs
unfolding valid_from
letter_step c cs i start h = rw h refl

word_step :
    (c : ℕ) (cs : List ℕ) (i start : ℕ)
    → is_letter c || is_digit c ≡ true
    → start < i
    → valid_from i start (c ∷ cs) ≡ valid_from (suc i) start cs
unfolding valid_from
word_step c cs i start h lt = ground arith

dot_step :
    (cs : List ℕ) (i start : ℕ)
    → start < i
    → valid_from i start (46 ∷ cs) ≡ valid_from (suc i) (suc i) cs
unfolding valid_from
dot_step cs i start lt = ground arith

last_step : (i start : ℕ) → start < i → valid_from i start [] ≡ true
unfolding valid_from
last_step i start lt = ground arith

mutual
  complete-IsKey : {cs : List ℕ} → IsKey cs → (i : ℕ) → valid_from i i cs ≡ true
  complete-IsKey (begins c cs letter rest) i =
      letter_step c cs i i letter ∙ complete-Rest rest (suc i) i (omega arith)

  complete-Rest : {cs : List ℕ} → Rest cs → (i start : ℕ) → start < i → valid_from i start cs ≡ true
  complete-Rest ends i start lt = last_step i start lt
  complete-Rest (goes_on c cs word rest) i start lt =
      word_step c cs i start word lt ∙ complete-Rest rest (suc i) start (omega arith)
  complete-Rest (dots cs key) i start lt = dot_step cs i start lt ∙ complete-IsKey key (suc i)

-- `validTagKey` accepts the keys of the grammar, and only these.
pub valid_tag_key_iff : (key : List ℕ) → (valid_tag_key key ≡ true) ↔ IsKey key
unfolding valid_tag_key
valid_tag_key_iff key = (λ h. (sound key 0 0 h).1 refl, λ k. complete-IsKey k 0)
