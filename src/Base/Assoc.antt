-- ===== src/Base/Assoc.antt =====
-- A Go map as an association list, by the equality of its keys.
use stats.Base.{
  ◌≡◌, refl, Bool, true, Option, none, some, List, [], ◌∷◌, if◌then◌else◌, Bool-cases, inl, inr,
}

module _ {K V : Type 0} (eq : K → K → Bool) where
  abbrev pub find : K → List (K × V) → Option V
  find k [] = none
  find k ((j, v) ∷ m) = if eq k j then some v else find k m

  abbrev pub insert : K → V → List (K × V) → List (K × V)
  insert k v [] = (k, v) ∷ []
  insert k v ((j, w) ∷ m) = if eq k j then (j, v) ∷ m else (j, w) ∷ insert k v m

  pub find-insert_self :
      (k : K) (v : V) (m : List (K × V)) → eq k k ≡ true → find k (insert k v m) ≡ some v
  find-insert_self k v [] h = rw h refl
  find-insert_self k v ((j, w) ∷ m) h = elim (Bool-cases (eq k j)) [
    | inl here ↦ rw (here, here) refl
    | inr later ↦ rw (later, later) (find-insert_self k v m h)
  ]
