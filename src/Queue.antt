-- ===== src/Queue.antt =====
-- What a ring buffer promises its clients: a first-in first-out queue of at most `cap` items.
use stats.Base.{
  ◌≤◌, ◌<◌, ◌≡◌, arith, ℕ, Bool, true, false, Option, none, some, List, [], ◌∷◌, ◌++◌, ltb,
  if◌then◌else◌, length,
}

module _ {ℓ} {A : Type ℓ} where
  abbrev pub behead : List A → List A
  behead [] = []
  behead (x ∷ q) = q

  abbrev pub front? : List A → Option A
  front? [] = none
  front? (x ∷ q) = some x

  -- A full queue refuses a new item.
  unfoldable pub push : ℕ → List A → A → Bool × List A
  push cap q x = if ltb (length q) cap then (true, q ++ x ∷ []) else (false, q)

  -- A full queue gives up its oldest item for the new one.
  unfoldable pub push_drop_oldest : ℕ → List A → A → Option A × List A
  push_drop_oldest cap q x =
      if ltb (length q) cap then (none, q ++ x ∷ []) else (front? q, behead q ++ x ∷ [])

  unfoldable pub pop : List A → Option A × List A
  pop q = (front? q, behead q)

  pub push_with_room :
      (cap : ℕ) (q : List A) (x : A) → length q < cap → push cap q x ≡ (true, q ++ x ∷ [])
  unfolding push
  push_with_room cap q x h = ground arith

  pub push_at_limit : (cap : ℕ) (q : List A) (x : A) → cap ≤ length q → push cap q x ≡ (false, q)
  unfolding push
  push_at_limit cap q x h = ground arith

  pub drop_oldest_with_room :
      (cap : ℕ) (q : List A) (x : A)
      → length q < cap
      → push_drop_oldest cap q x ≡ (none, q ++ x ∷ [])
  unfolding push_drop_oldest
  drop_oldest_with_room cap q x h = ground arith

  pub drop_oldest_at_limit :
      (cap : ℕ) (q : List A) (x : A)
      → cap ≤ length q
      → push_drop_oldest cap q x ≡ (front? q, behead q ++ x ∷ [])
  unfolding push_drop_oldest
  drop_oldest_at_limit cap q x h = ground arith
