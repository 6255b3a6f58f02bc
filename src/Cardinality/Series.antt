-- ===== src/Cardinality/Series.antt =====
-- The maps of `metricSeries`, and what a series holds between two operations.
use stats.Base.{
  ℕ, ◌+◌, ◌<◌, ◌≡◌, refl, sym, ap, ◌∙◌, Bool, true, false, ◌&&◌, not, List, [], ◌∷◌, arith, ◌==◌,
  if◌then◌else◌, Bool-cases, inl, inr,
}
use stats.Cardinality.{has, value_at, put, remove}

-- `same` decides the equality of keys.
pub record IsEquality {K : Type 0} (same : K → K → Bool) : Type 0 where
  pub self : (a : K) → same a a ≡ true
  pub sound : (a b : K) → same a b ≡ true → a ≡ b

module _ {K : Type 0} (same : K → K → Bool) where
  -- No key twice, and no key that reads as 0.
  abbrev pub Tidy : List (K × ℕ) → Type 0
  Tidy [] = Unit
  Tidy ((x, n) ∷ m) = (0 < n) × (value_at same x m ≡ 0) × Tidy m

  -- The keys of the map that are not in the list.
  abbrev pub unseen : List K → List (K × ℕ) → ℕ
  unseen ks [] = 0
  unseen ks ((x, n) ∷ m) = (if has same x ks then 0 else 1) + unseen ks m

  module _ (eq : IsEquality same) where
    pub differ : (a b : K) → same a b ≡ false → same b a ≡ false
    differ a b h = elim (Bool-cases (same b a)) [
      | inl s ↦ let e = eq.sound b a s in ap (λ y. same y a) e ∙ ap (same a) (sym e) ∙ h
      | inr s ↦ s
    ]

    -- Keys that are the same as one key are the same.
    pub apart : (k x j : K) → same k x ≡ false → same j k ≡ true → same j x ≡ false
    apart k x j h s = sym (ap (λ y. same y x) (sym (eq.sound j k s))) ∙ h

    pub read_same :
        (k j : K) (m : List (K × ℕ)) → same j k ≡ true → value_at same j m ≡ value_at same k m
    read_same k j m s = ap (λ y. value_at same y m) (eq.sound j k s)

    pub value-put :
        (k : K) (n : ℕ) (m : List (K × ℕ)) (j : K)
        → value_at same j (put same k n m) ≡ (if same j k then n else value_at same j m)
    value-put k n [] j = refl
    value-put k n ((x, i) ∷ m) j = elim (Bool-cases (same k x)) [
      | inl h ↦ rw (h, ← eq.sound k x h) (ground arith)
      | inr h ↦ rw h (ground (arith, value-put k n m j, apart k x j h))
    ]

    pub value-remove :
        (k : K) (m : List (K × ℕ)) (j : K)
        → Tidy m
        → value_at same j (remove same k m) ≡ (if same j k then 0 else value_at same j m)
    value-remove k [] j t = ground arith
    value-remove k ((x, i) ∷ m) j (pos, fresh, t) = elim (Bool-cases (same k x)) [
      | inl h ↦
          let e = eq.sound k x h in
          let gone = ap (λ y. value_at same y m) e ∙ fresh in
          rw (h, ← e) (ground (arith, read_same k j m, gone))
      | inr h ↦ rw h (ground (arith, value-remove k m j t, apart k x j h))
    ]

    pub put-Tidy : (k : K) (n : ℕ) (m : List (K × ℕ)) → 0 < n → Tidy m → Tidy (put same k n m)
    put-Tidy k n [] h t = (h, refl, tt)
    put-Tidy k n ((x, i) ∷ m) h (pos, fresh, t) = elim (Bool-cases (same k x)) [
      | inl s ↦ rw s (h, fresh, t)
      | inr s ↦ rw s (pos, value-put k n m x ∙ rw (differ k x s) fresh, put-Tidy k n m h t)
    ]

    pub remove-Tidy : (k : K) (m : List (K × ℕ)) → Tidy m → Tidy (remove same k m)
    remove-Tidy k [] t = tt
    remove-Tidy k ((x, i) ∷ m) (pos, fresh, t) = elim (Bool-cases (same k x)) [
      | inl s ↦ rw s t
      | inr s ↦ rw s (pos, value-remove k m x t ∙ rw (differ k x s) fresh, remove-Tidy k m t)
    ]

    pub unseen-put :
        (ks : List K) (k : K) (n : ℕ) (m : List (K × ℕ))
        → Tidy m
        → unseen ks (put same k n m)
          ≡ unseen ks m + (if value_at same k m == 0 && not (has same k ks) then 1 else 0)
    unseen-put ks k n [] t = ground arith
    unseen-put ks k n ((x, i) ∷ m) (pos, fresh, t) = elim (Bool-cases (same k x)) [
      | inl s ↦ rw s (ground arith)
      | inr s ↦ rw s (omega (arith, unseen-put ks k n m t))
    ]

    pub unseen-remove :
        (ks : List K) (k : K) (m : List (K × ℕ))
        → Tidy m
        → unseen ks (remove same k m)
            + (if not (value_at same k m == 0) && not (has same k ks) then 1 else 0)
          ≡ unseen ks m
    unseen-remove ks k [] t = ground arith
    unseen-remove ks k ((x, i) ∷ m) (pos, fresh, t) = elim (Bool-cases (same k x)) [
      | inl s ↦ rw (s, ← eq.sound k x s) (ground arith)
      | inr s ↦ rw s (omega (arith, unseen-remove ks k m t))
    ]

    -- A key that is marked as seen, and was not.
    pub unseen-mark :
        (ks : List K) (k : K) (m : List (K × ℕ))
        → Tidy m
        → has same k ks ≡ false
        → unseen (k ∷ ks) m + (if value_at same k m == 0 then 0 else 1) ≡ unseen ks m
    unseen-mark ks k [] t h = ground arith
    unseen-mark ks k ((x, i) ∷ m) (pos, fresh, t) h = elim (Bool-cases (same k x)) [
      | inl s ↦
          let e = eq.sound k x s in
          let gone = ap (λ y. value_at same y m) e ∙ fresh in
          rw (s, ← e) (ground (arith, eq.self k, unseen-mark ks k m t h, gone))
      | inr s ↦ rw (s, differ k x s) (omega (arith, unseen-mark ks k m t h))
    ]
