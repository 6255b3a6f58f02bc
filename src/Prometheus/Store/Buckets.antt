-- ===== src/Prometheus/Store/Buckets.antt =====
-- The invariant of the store: the buckets of histograms.
use stats.Base.{
  ◌+◌, ◌≡◌, refl, sym, ap, subst, ◌∙◌, inl, inr, true, Option, none, some, some_inj, List, [], ◌∷◌,
  All, length, length-set, length-replicate, Bool-cases, Option-cases,
}
use stats.Base.Int.{ℤ}
use stats.Base.Float.{Float64}
use stats.Base.Text.{Bytes, same, same_iff_eq}
use stats.Metric.{Metric, MetricType, counter, gauge, histogram, Attributes}
use stats.Prometheus.{Label, exposed_labels}
use stats.Prometheus.Registry.{FamilyEntry, FamilyRegistry, lookup, register}
use stats.Prometheus.Registry.Disjoint.{register-entry, register-keeps}
use stats.Prometheus.Store.{
  StoreSeries, StoreFamily, StoreState, Handler, trim_name, put, labels_key, valid_buckets,
  is_after, named_buckets, new_family, family_of, series_of, fold_value, observe_in, observe_at,
  observe_registered, observe_labeled, is_nan_histogram, observe, export_metrics,
}

module _ {V : Type 0} (P : Bytes × V → Type 0) where
  pub All-lookup :
      (k : Bytes) (v : V) (m : List (Bytes × V)) → All P m → lookup k m ≡ some v → P (k, v)
  All-lookup k v [] h e = cc
  All-lookup k v ((j, w) ∷ m) h e = elim (Bool-cases (same k j)) [
    | inl here ↦
        let value = some_inj (rw here at e) in
        subst (λ x. P (k, x)) value (subst (λ x. P (x, w)) (sym (same_iff_eq k j here)) h.0)
    | inr later ↦ All-lookup k v m h.1 (rw later at e)
  ]

  pub All-put : (k : Bytes) (v : V) (m : List (Bytes × V)) → All P m → P (k, v) → All P (put k v m)
  All-put k v [] h p = (p, tt)
  All-put k v ((j, w) ∷ m) h p = elim (Bool-cases (same k j)) [
    | inl here ↦ rw here (subst (λ x. P (x, v)) (same_iff_eq k j here) p, h.1)
    | inr later ↦ rw later (h.0, All-put k v m h.1 p)
  ]

module _ {F : Type 0} (f : Float64 F) where
  abbrev pub IsSized : List F → Bytes × StoreSeries F → Type 0
  IsSized bounds entry = length entry.1.counts ≡ length bounds + 1

  -- A histogram has increasing bounds, and each of its series a count for every bucket.
  abbrev pub HasBuckets : MetricType → List F → List (Bytes × StoreSeries F) → Type 0
  HasBuckets counter bounds series = Unit {0}
  HasBuckets gauge bounds series = Unit {0}
  HasBuckets histogram bounds series = (valid_buckets f bounds ≡ true) × All (IsSized bounds) series

  -- The registry has the family, of that type.
  abbrev pub IsRegistered : FamilyRegistry → Bytes → MetricType → Type 0
  IsRegistered r name type = (e : FamilyEntry) × (lookup name r.families ≡ some e) × (e.type ≡ type)

  abbrev pub IsStored : FamilyRegistry → Bytes × StoreFamily F → Type 0
  IsStored r entry =
      HasBuckets entry.1.type entry.1.bounds entry.1.series × IsRegistered r entry.0 entry.1.type

  abbrev pub IsStore : StoreState F → Type 0
  IsStore st = All (IsStored st.registry) st.families

  registered_keeps :
      (r : FamilyRegistry) (source : Bytes) (type : MetricType)
      (families : List (Bytes × StoreFamily F))
      → All (IsStored r) families
      → All (IsStored (register r source type).1) families
  registered_keeps r source type [] h = tt
  registered_keeps r source type ((name, fam) ∷ families) h =
      let (buckets, (e, here, typed)) = h.0 in
      (
        (buckets, (e, register-keeps r source type name e here, typed)),
        registered_keeps r source type families h.1,
      )

  module _ {V : Type 0} where
    series_of-IsSized :
        (m : Metric F V) (labels : List Label) (fam : StoreFamily F)
        → m.type ≡ histogram
        → All (IsSized fam.bounds) fam.series
        → length (series_of f m labels fam (lookup (labels_key labels) fam.series)).counts
          ≡ length fam.bounds + 1
    series_of-IsSized m labels fam typed h =
        elim (Option-cases (lookup (labels_key labels) fam.series)) [
          | inl missing ↦ rw (missing, typed) (length-replicate (length fam.bounds + 1) 0)
          | inr (s, found) ↦
              rw found (All-lookup (IsSized fam.bounds) (labels_key labels) s fam.series h found)
        ]

    fold_value-length :
        (m : Metric F V) (fam : StoreFamily F) (type : MetricType) (s : StoreSeries F)
        → length (fold_value f m fam type s).counts ≡ length s.counts
    fold_value-length m fam counter s = refl
    fold_value-length m fam gauge s = elim (Bool-cases (is_after m.timestamp s.gauge_time)) [
      | inl newer ↦ rw newer refl
      | inr older ↦ rw older refl
    ]
    fold_value-length m fam histogram s = length-set s.counts _ _

    -- One bucket is incremented, or the series is a new one: the number of buckets stays.
    observe_in-HasBuckets :
        (m : Metric F V) (now : ℤ) (labels : List Label) (fam : StoreFamily F) (type : MetricType)
        → fam.type ≡ type
        → m.type ≡ type
        → HasBuckets type fam.bounds fam.series
        → HasBuckets type fam.bounds (observe_in f m now labels fam).series
    unfolding observe_in
    observe_in-HasBuckets m now labels fam counter e e' b = tt
    observe_in-HasBuckets m now labels fam gauge e e' b = tt
    observe_in-HasBuckets m now labels fam histogram e e' (valid, sized) =
        let key = labels_key labels in
        let s = series_of f m labels fam (lookup key fam.series) in
        let s' = fold_value f m fam m.type (record s { updated = now }) in
        let kept : length s'.counts ≡ length s.counts =
          fold_value-length m fam m.type (record s { updated = now }) in
        (
          valid,
          All-put (IsSized fam.bounds) key s' fam.series sized
              (kept ∙ series_of-IsSized m labels fam e' sized),
        )

  abbrev IsNew : MetricType → StoreFamily F → Type 0
  IsNew type fam = HasBuckets fam.type fam.bounds fam.series × (fam.type ≡ type)

  module _ (default_buckets : List F) (h : Handler F) {V : Type 0} where
    new_family-HasBuckets :
        (m : Metric F V) (type : MetricType) (fam : StoreFamily F)
        → new_family f default_buckets h m type ≡ some fam
        → IsNew type fam
    new_family-HasBuckets m counter fam e = subst (IsNew counter) (some_inj e) (tt, refl)
    new_family-HasBuckets m gauge fam e = subst (IsNew gauge) (some_inj e) (tt, refl)
    new_family-HasBuckets m histogram fam e =
        let bounds = named_buckets f default_buckets h.buckets m.name in
        elim (Bool-cases (valid_buckets f bounds)) [
          | inl valid ↦ subst (IsNew histogram) (some_inj (rw valid at e)) ((valid, tt), refl)
          | inr bad ↦ cc (rw bad at e)
        ]

    -- The family of an observation is stored, or new; it has the type of the metric.
    family_of-IsNew :
        (r : FamilyRegistry) (families : List (Bytes × StoreFamily F)) (m : Metric F V)
        (name : Bytes) (fam : StoreFamily F)
        → All (IsStored r) families
        → IsRegistered r name m.type
        → family_of f default_buckets h m (lookup name families) ≡ some fam
        → IsNew m.type fam
    family_of-IsNew r families m name fam stored (entry, here, typed) e =
        elim (Option-cases (lookup name families)) [
          | inl missing ↦ new_family-HasBuckets m m.type fam (rw missing at e)
          | inr (old, found) ↦
              let same_fam : old ≡ fam = some_inj (rw found at e) in
              let (buckets, (entry', here', typed')) =
                All-lookup (IsStored r) name old families stored found in
              let entries : entry' ≡ entry = some_inj (sym here' ∙ here) in
              subst (IsNew m.type) same_fam
                (buckets, sym typed' ∙ ap (λ (x : FamilyEntry). x.type) entries ∙ typed)
        ]

    observe_at-IsStore :
        (st : StoreState F) (m : Metric F V) (now : ℤ) (labels : List Label) (name : Bytes)
        (fam? : Option (StoreFamily F))
        → IsStore st
        → IsRegistered st.registry name m.type
        → ((fam : StoreFamily F) → fam? ≡ some fam → IsNew m.type fam)
        → IsStore (observe_at f default_buckets h st m now labels name fam?).1
    unfolding observe_in
    observe_at-IsStore st m now labels name none stored reg new_one = stored
    observe_at-IsStore st m now labels name (some fam) stored reg new_one =
        let (buckets, typed) = new_one fam refl in
        All-put (IsStored st.registry) name (observe_in f m now labels fam) st.families stored (
          observe_in-HasBuckets m now labels fam fam.type refl (sym typed) buckets,
          subst (IsRegistered st.registry name) (sym typed) reg,
        )

    observe_registered-IsStore :
        (st : StoreState F) (m : Metric F V) (now : ℤ) (labels : List Label) (source : Bytes)
        (result : Option Bytes)
        → IsStore st
        → (register st.registry source m.type).0 ≡ result
        → IsStore
            (observe_registered f default_buckets h st m now labels
              (result, (register st.registry source m.type).1)).1
    observe_registered-IsStore st m now labels source none stored e =
        registered_keeps st.registry source m.type st.families stored
    observe_registered-IsStore st m now labels source (some name) stored e =
        let r = (register st.registry source m.type).1 in
        let stored' = registered_keeps st.registry source m.type st.families stored in
        let reg = register-entry st.registry source m.type name e in
        observe_at-IsStore (record st { registry = r }) m now labels name _ stored' reg
          (λ fam found. family_of-IsNew r st.families m name fam stored' reg found)

    module _ (show : V → Bytes) (to_set : Attributes V → Attributes V) where
      observe_labeled-IsStore :
          (st : StoreState F) (m : Metric F V) (now : ℤ) (labels : Option (List Label))
          → IsStore st
          → IsStore (observe_labeled f default_buckets h show to_set st m now labels).1
      observe_labeled-IsStore st m now none stored = stored
      observe_labeled-IsStore st m now (some labels) stored =
          observe_registered-IsStore st m now labels (trim_name h.trim_prefix m.name) _ stored refl

      pub observe-IsStore :
          (st : StoreState F) (m : Metric F V) (now : ℤ)
          → IsStore st
          → IsStore (observe f default_buckets h show to_set st m now).1
      unfolding observe
      observe-IsStore st m now stored = elim (Bool-cases (is_nan_histogram f m.type m.value)) [
        | inl nan ↦ rw nan stored
        | inr number ↦ rw number (
            observe_labeled-IsStore st m now (exposed_labels show m.type (to_set m.attributes))
              stored)
      ]

      pub export_metrics-IsStore :
          (st : StoreState F) (metrics : List (Metric F V)) (now : ℤ)
          → IsStore st
          → IsStore (export_metrics f default_buckets h show to_set st metrics now).1
      unfolding export_metrics
      export_metrics-IsStore st [] now stored = stored
      export_metrics-IsStore st (m ∷ metrics) now stored =
          export_metrics-IsStore (observe f default_buckets h show to_set st m now).1 metrics now
            (observe-IsStore st m now stored)
