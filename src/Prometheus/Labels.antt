-- ===== src/Prometheus/Labels.antt =====
-- The labels of an observation: in the order of their names, each name once.
use stats.Base.{
  ℕ, ◌+◌, ◌≤◌, ◌≡◌, ◌⊎◌, refl, ◌∙◌, Bool, true, false, none, some, List, [], ◌∷◌, if◌then◌else◌,
  Bool-cases, inl, inr, arith,
}
use stats.Base.Text.{Bytes, same, same_refl}
use stats.Metric.{MetricType, Attributes}
use stats.Prometheus.{
  Label, less, insert_label, sort_onto, sort_labels, has_collision, labels_of, exposed_labels,
}

less_asym : (s t : Bytes) → less s t ≡ true → less t s ≡ false
unfolding less
less_asym s [] h = cc
less_asym [] (b ∷ t) h = refl
less_asym (a ∷ s) (b ∷ t) h = ground (arith, less_asym s t)

less_total : (s t : Bytes) → less s t ≡ false → same s t ≡ false → less t s ≡ true
unfolding less same
less_total [] [] h k = cc
less_total (a ∷ s) [] h k = refl
less_total [] (b ∷ t) h k = cc
less_total (a ∷ s) (b ∷ t) h k = ground (arith, less_total s t)

-- No label is below its left neighbour.
abbrev IsOrdered : List Label → Type 0
IsOrdered [] = Unit
IsOrdered (l ∷ []) = Unit
IsOrdered (l ∷ m ∷ ls) = (less m.label_name l.label_name ≡ false) × IsOrdered (m ∷ ls)

-- Every label is above its left neighbour.
abbrev pub IsAscending : List Label → Type 0
IsAscending [] = Unit
IsAscending (l ∷ []) = Unit
IsAscending (l ∷ m ∷ ls) = (less l.label_name m.label_name ≡ true) × IsAscending (m ∷ ls)

insert-IsOrdered : (l : Label) (ls : List Label) → IsOrdered ls → IsOrdered (insert_label l ls)
unfolding insert_label
insert-IsOrdered l [] h = tt
insert-IsOrdered l (m ∷ []) h = elim (Bool-cases (less l.label_name m.label_name)) [
  | inl before ↦ rw before (less_asym l.label_name m.label_name before, tt)
  | inr behind ↦ rw behind (behind, tt)
]
insert-IsOrdered l (m ∷ n ∷ ls) h = elim (Bool-cases (less l.label_name m.label_name)) [
  | inl before ↦ rw before (less_asym l.label_name m.label_name before, h)
  | inr behind ↦
      let more = insert-IsOrdered l (n ∷ ls) h.1 in
      elim (Bool-cases (less l.label_name n.label_name)) [
        | inl here ↦ rw (behind, here) (behind, rw here at more)
        | inr later ↦ rw (behind, later) (h.0, rw later at more)
      ]
]

sort_onto-IsOrdered : (sorted ls : List Label) → IsOrdered sorted → IsOrdered (sort_onto sorted ls)
sort_onto-IsOrdered sorted [] h = h
sort_onto-IsOrdered sorted (l ∷ ls) h =
    sort_onto-IsOrdered (insert_label l sorted) ls (insert-IsOrdered l sorted h)

ordered-IsAscending : (ls : List Label) → IsOrdered ls → has_collision ls ≡ false → IsAscending ls
ordered-IsAscending [] h k = tt
ordered-IsAscending (l ∷ []) h k = tt
ordered-IsAscending (l ∷ m ∷ ls) h k = (
  less_total m.label_name l.label_name h.0 (ground arith),
  ordered-IsAscending (m ∷ ls) h.1 (ground arith),
)

module _ (P : Label → Bool) where
  abbrev pub count : List Label → ℕ
  count [] = 0
  count (l ∷ ls) = (if P l then 1 else 0) + count ls

  count-insert : (l : Label) (ls : List Label) → count (insert_label l ls) ≡ count (l ∷ ls)
  unfolding insert_label
  count-insert l [] = refl
  count-insert l (m ∷ ls) = elim (Bool-cases (less l.label_name m.label_name)) [
    | inl before ↦ rw before refl
    | inr behind ↦ rw behind (omega (arith, count-insert l ls))
  ]

  count-sort_onto : (sorted ls : List Label) → count (sort_onto sorted ls) ≡ count sorted + count ls
  count-sort_onto sorted [] = omega arith
  count-sort_onto sorted (l ∷ ls) =
      omega (arith, count-sort_onto (insert_label l sorted) ls, count-insert l sorted)

abbrev pub has_name : Bytes → Label → Bool
has_name name l = same name l.label_name

-- A collision is a name that stands twice.
collision_twice :
    (ls : List Label) → has_collision ls ≡ true → (name : Bytes) × (2 ≤ count (has_name name) ls)
collision_twice [] h = cc
collision_twice (l ∷ []) h = cc
collision_twice (l ∷ m ∷ ls) h = elim (Bool-cases (same m.label_name l.label_name)) [
  | inl here ↦ (m.label_name, rw (here, same_refl m.label_name) (omega arith))
  | inr later ↦ let (name, twice) = collision_twice (m ∷ ls) (ground arith) in (name, omega arith)
]

-- The labels of an observation are those of its attributes in the strict order of their names, or the
-- result is an error and two attributes have one exposed name.
pub exposed_labels-cases :
    {V : Type 0} (show : V → Bytes) (type : MetricType) (attrs : Attributes V)
    → ((ls : List Label) × (exposed_labels show type attrs ≡ some ls)
        × IsAscending ls
        × ((P : Label → Bool) → count P ls ≡ count P (labels_of show type attrs)))
      ⊎ ((name : Bytes) × (exposed_labels show type attrs ≡ none)
          × (2 ≤ count (has_name name) (labels_of show type attrs)))
unfolding exposed_labels sort_labels
exposed_labels-cases show type attrs =
    let labels = labels_of show type attrs in
    let sorted = sort_onto [] labels in
    elim (Bool-cases (has_collision sorted)) [
      | inl clash ↦
          let (name, twice) = collision_twice sorted clash in
          inr (name, rw clash refl, omega (arith, count-sort_onto (has_name name) [] labels))
      | inr unique ↦ inl (
        sorted,
        rw unique refl,
        ordered-IsAscending sorted (sort_onto-IsOrdered [] labels tt) unique,
        λ P. count-sort_onto P [] labels ∙ (omega arith),
      )
    ]
