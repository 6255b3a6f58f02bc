-- ===== src/Prometheus/Registry/Disjoint.antt =====
-- What the registry guarantees: no two families expose one name.
use stats.Base.{
  ◌≡◌, refl, sym, ap, subst, ◌∙◌, ◌⊎◌, inl, inr, true, false, ◌&&◌, ◌||◌, Option, none, some,
  some_inj, List, [], ◌∷◌, if◌then◌else◌, Bool-cases, Option-cases, arith,
}
use stats.Base.Text.{Bytes, same, same_iff_eq, same_refl, contains}
use stats.Metric.{MetricType, counter, gauge, histogram}
use stats.Prometheus.Registry.{
  lookup, is_some, same_type, FamilyEntry, FamilyRegistry, new_registry, series_names, family_name,
  any_taken, own, register_new, register,
}

pub same_type_eq : (a b : MetricType) → same_type a b ≡ true → a ≡ b
same_type_eq counter counter h = refl
same_type_eq gauge gauge h = refl
same_type_eq histogram histogram h = refl
same_type_eq counter gauge h = cc
same_type_eq counter histogram h = cc
same_type_eq gauge counter h = cc
same_type_eq gauge histogram h = cc
same_type_eq histogram counter h = cc
same_type_eq histogram gauge h = cc

-- The registry with a new family.
abbrev pub added : FamilyRegistry → Bytes → Bytes → MetricType → FamilyRegistry
added r family source type = record {
  families = (family, record { source = source; type = type }) ∷ r.families;
  series = own family (series_names family type) r.series;
}

none_of : {A : Type 0} (o : Option A) → is_some o ≡ false → o ≡ none
none_of none h = refl
none_of (some a) h = cc

-- A registration fails and changes nothing, or meets its own entry, or adds a family.
pub register-cases :
    (r : FamilyRegistry) (source : Bytes) (type : MetricType)
    → (register r source type ≡ (none, r))
      ⊎ ((e : FamilyEntry) × (lookup (family_name source type) r.families ≡ some e)
          × (e.type ≡ type)
          × (register r source type ≡ (some (family_name source type), r)))
      ⊎ ((lookup (family_name source type) r.families ≡ none)
          × (lookup (family_name source type) r.series ≡ none)
          × (any_taken r (series_names (family_name source type) type) ≡ false)
          × (register r source type
              ≡ (some (family_name source type), added r (family_name source type) source type)))
unfolding register
register-cases r source type =
    let family = family_name source type in
    elim (Option-cases (lookup family r.families)) [
      | inr (e, here) ↦ elim (Bool-cases (same e.source source && same_type e.type type)) [
        | inl own_entry ↦
            inr (inl (e, here, same_type_eq e.type type (ground arith), rw (here, own_entry) refl))
        | inr other ↦ inl (rw (here, other) refl)
      ]
      | inl free ↦
          elim (Bool-cases
            (is_some (lookup family r.series) || any_taken r (series_names family type))) [
              | inl taken ↦ inl (rw (free, register_new, taken) refl)
              | inr not_taken ↦ inr (
                  inr (
                    free,
                    none_of (lookup family r.series) (ground arith),
                    ground arith,
                    rw (free, register_new, not_taken) refl,
                  ))
            ]
    ]

own-lookup :
    (s family : Bytes) (names : List Bytes) (series : List (Bytes × Bytes))
    → lookup s (own family names series)
      ≡ (if contains s names then some family else lookup s series)
own-lookup s family [] series = refl
own-lookup s family (n ∷ names) series =
    own-lookup s family names ((n, family) ∷ series) ∙ ground arith

any_taken-contains :
    (r : FamilyRegistry) (s : Bytes) (names : List Bytes)
    → any_taken r names ≡ false
    → contains s names ≡ true
    → (lookup s r.families ≡ none) × (lookup s r.series ≡ none)
any_taken-contains r s [] h k = cc
any_taken-contains r s (n ∷ names) h k = elim (Bool-cases (same s n)) [
  | inl here ↦ rw (same_iff_eq s n here) (none_of _ (ground arith), none_of _ (ground arith))
  | inr later ↦ any_taken-contains r s names (ground arith) (ground arith)
]

-- Every series name of a family is its own, and a name of a family is not the series of another.
pub record IsConsistent (r : FamilyRegistry) : Type 0 where
  pub owned :
      (family s : Bytes) (e : FamilyEntry)
      → lookup family r.families ≡ some e
      → contains s (series_names family e.type) ≡ true
      → lookup s r.series ≡ some family
  pub heads :
      (family owner : Bytes) (e : FamilyEntry)
      → lookup family r.families ≡ some e
      → lookup family r.series ≡ some owner
      → family ≡ owner

new_registry-IsConsistent : IsConsistent new_registry
new_registry-IsConsistent = record {
  owned = λ family s e h k. cc;
  heads = λ family owner e h k. cc;
}

module _ (r : FamilyRegistry) (c : IsConsistent r) (n source : Bytes) (type : MetricType)
    (free : lookup n r.families ≡ none) (unowned : lookup n r.series ≡ none)
    (untaken : any_taken r (series_names n type) ≡ false) where
  added-owned :
      (family s : Bytes) (e : FamilyEntry)
      → lookup family (added r n source type).families ≡ some e
      → contains s (series_names family e.type) ≡ true
      → lookup s (added r n source type).series ≡ some family
  added-owned family s e h k = elim (Bool-cases (same family n)) [
    | inl new_one ↦
        let family_n = same_iff_eq family n new_one in
        let entry : record { source = source; type = type } ≡ e = some_inj (rw new_one at h) in
        let k1 =
          subst (λ (x : FamilyEntry). contains s (series_names family x.type) ≡ true) (sym entry)
            k in
        let k2 = subst (λ x. contains s (series_names x type) ≡ true) family_n k1 in
        own-lookup s n (series_names n type) r.series ∙ rw (k2, family_n) refl
    | inr old ↦
        let before = c.owned family s e (rw old at h) k in
        elim (Bool-cases (contains s (series_names n type))) [
          | inl inside ↦
              cc ((any_taken-contains r s (series_names n type) untaken inside).1, before)
          | inr outside ↦ own-lookup s n (series_names n type) r.series ∙ rw outside before
        ]
  ]

  added-heads :
      (family owner : Bytes) (e : FamilyEntry)
      → lookup family (added r n source type).families ≡ some e
      → lookup family (added r n source type).series ≡ some owner
      → family ≡ owner
  added-heads family owner e h k = elim (Bool-cases (same family n)) [
    | inl new_one ↦
        let family_n = same_iff_eq family n new_one in
        let k0 = sym (own-lookup family n (series_names n type) r.series) ∙ k in
        elim (Bool-cases (contains family (series_names n type))) [
          | inl inside ↦ family_n ∙ some_inj (rw inside at k0)
          | inr outside ↦
              let unowned' = ap (λ x. lookup x r.series) family_n ∙ unowned in
              cc (rw outside at k0, unowned')
        ]
    | inr old ↦
        let k0 = sym (own-lookup family n (series_names n type) r.series) ∙ k in
        elim (Bool-cases (contains family (series_names n type))) [
          | inl inside ↦
              cc ((any_taken-contains r family (series_names n type) untaken inside).0, rw old at h)
          | inr outside ↦ c.heads family owner e (rw old at h) (rw outside at k0)
        ]
  ]

  added-IsConsistent : IsConsistent (added r n source type)
  added-IsConsistent = record { owned = added-owned; heads = added-heads }

pub register-IsConsistent :
    (r : FamilyRegistry) (source : Bytes) (type : MetricType)
    → IsConsistent r
    → IsConsistent (register r source type).1
register-IsConsistent r source type c = elim (register-cases r source type) [
  | inl failed ↦ rw failed c
  | inr done ↦ elim done [
    | inl (e, here, typed, kept) ↦ rw kept c
    | inr (free, unowned, untaken, new_one) ↦
        rw new_one
          (added-IsConsistent r c (family_name source type) source type free unowned untaken)
  ]
]

-- A registration that succeeds has its entry, of its type.
pub register-entry :
    (r : FamilyRegistry) (source : Bytes) (type : MetricType) (family : Bytes)
    → (register r source type).0 ≡ some family
    → (e : FamilyEntry) × (lookup family (register r source type).1.families ≡ some e)
      × (e.type ≡ type)
register-entry r source type family h = elim (register-cases r source type) [
  | inl failed ↦ cc (rw failed at h)
  | inr done ↦ elim done [
    | inl (e, here, typed, kept) ↦
        let name = some_inj (rw kept at h) in (e, rw (kept, ← name) here, typed)
    | inr (free, unowned, untaken, new_one) ↦
        let name = some_inj (rw new_one at h) in
        (
          record { source = source; type = type },
          rw (new_one, ← name, same_refl (family_name source type)) refl,
          refl,
        )
  ]
]

-- An entry is never changed.
pub register-keeps :
    (r : FamilyRegistry) (source : Bytes) (type : MetricType) (family : Bytes) (e : FamilyEntry)
    → lookup family r.families ≡ some e
    → lookup family (register r source type).1.families ≡ some e
register-keeps r source type family e h = elim (register-cases r source type) [
  | inl failed ↦ rw failed h
  | inr done ↦ elim done [
    | inl (e', here, typed, kept) ↦ rw kept h
    | inr (free, unowned, untaken, new_one) ↦
        elim (Bool-cases (same family (family_name source type))) [
          | inl equal ↦ cc (ap (λ x. lookup x r.families) (same_iff_eq _ _ equal), free, h)
          | inr other ↦ rw (new_one, other) h
        ]
  ]
]

unfoldable pub register_all : FamilyRegistry → List (Bytes × MetricType) → FamilyRegistry
register_all r [] = r
register_all r ((source, type) ∷ more) = register_all (register r source type).1 more

register_all-IsConsistent :
    (r : FamilyRegistry) (more : List (Bytes × MetricType))
    → IsConsistent r
    → IsConsistent (register_all r more)
unfolding register_all
register_all-IsConsistent r [] c = c
register_all-IsConsistent r ((source, type) ∷ more) c =
    register_all-IsConsistent (register r source type).1 more
      (register-IsConsistent r source type c)

-- The family is registered, and `s` is its name or one of its series.
abbrev pub Exposes : FamilyRegistry → Bytes → Bytes → Type 0
Exposes r family s =
    (e : FamilyEntry) × (lookup family r.families ≡ some e)
    × ((s ≡ family) ⊎ (contains s (series_names family e.type) ≡ true))

Exposes-once :
    (r : FamilyRegistry) (s f g : Bytes) → IsConsistent r → Exposes r f s → Exposes r g s → f ≡ g
Exposes-once r s f g c (e, here, inl s_f) (e', there, inl s_g) = sym s_f ∙ s_g
Exposes-once r s f g c (e, here, inl s_f) (e', there, inr k) =
    c.heads f g e here (ap (λ x. lookup x r.series) (sym s_f) ∙ c.owned g s e' there k)
Exposes-once r s f g c (e, here, inr k) (e', there, inl s_g) =
    sym (c.heads g f e' there (ap (λ x. lookup x r.series) (sym s_g) ∙ c.owned f s e here k))
Exposes-once r s f g c (e, here, inr k) (e', there, inr k') =
    some_inj (sym (c.owned f s e here k) ∙ c.owned g s e' there k')

-- After any registrations, the families that are registered share no name: neither the name of a
-- family nor that of a series.
pub registered_once :
    (more : List (Bytes × MetricType)) (s f g : Bytes)
    → Exposes (register_all new_registry more) f s
    → Exposes (register_all new_registry more) g s
    → f ≡ g
registered_once more s f g =
    Exposes-once (register_all new_registry more) s f g
      (register_all-IsConsistent new_registry more new_registry-IsConsistent)
