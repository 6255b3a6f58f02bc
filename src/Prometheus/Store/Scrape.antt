-- ===== src/Prometheus/Store/Scrape.antt =====
-- A scrape renders whatever was exported.
use stats.Base.{
  ◌+◌, ◌≡◌, refl, sym, subst, inl, inr, Bool, true, Option, none, some, List, [], ◌∷◌, ◌++◌, All,
  length, Bool-cases, arith, eq→==,
}
use stats.Base.Int.{ℤ, ◌-ℤ◌, ltb_ℤ}
use stats.Base.Float.{Float64, FloatText}
use stats.Base.Text.{Bytes}
use stats.Metric.{Metric, MetricType, counter, gauge, histogram, Attributes}
use stats.Prometheus.Registry.{FamilyRegistry}
use stats.Prometheus.Store.{
  StoreSeries, StoreFamily, StoreState, Handler, new_store, HistogramData, Series, Family,
  valid_after, valid_buckets, timeout, live, data_of, series_copies, keep_family, snapshot_families,
  snapshot, export_metrics,
}
use stats.Prometheus.Write.{
  insert_by, sort_by, less_labels, increasing, write_histogram, write_one, joined, write_all,
  write_family, write_each, write_families,
}
use stats.Prometheus.Store.Buckets.{IsSized, HasBuckets, IsStored, IsStore, export_metrics-IsStore}

-- A stable sort keeps what holds of all.
module _ {A : Type 0} (P : A → Type 0) (lt : A → A → Bool) where
  insert_by-All : (x : A) (ys : List A) → P x → All P ys → All P (insert_by lt x ys)
  insert_by-All x [] p h = (p, tt)
  insert_by-All x (y ∷ ys) p h = elim (Bool-cases (lt x y)) [
    | inl before ↦ rw before (p, h)
    | inr behind ↦ rw behind (h.0, insert_by-All x ys p h.1)
  ]

  sort_by-All : (sorted xs : List A) → All P sorted → All P xs → All P (sort_by lt sorted xs)
  sort_by-All sorted [] h k = h
  sort_by-All sorted (x ∷ xs) h k =
      sort_by-All (insert_by lt x sorted) xs (insert_by-All x sorted k.0 h) k.1

module _ {F : Type 0} (f : Float64 F) (t : FloatText F) where
  -- A text is rendered.
  abbrev Renders : Option Bytes → Type 0
  Renders o = (text : Bytes) × (o ≡ some text)

  joined-Renders : (a b : Option Bytes) → Renders a → Renders b → Renders (joined f t a b)
  joined-Renders none b (x, e) h = cc
  joined-Renders (some x) none h (y, e) = cc
  joined-Renders (some x) (some y) h k = (x ++ y, refl)

  valid_after-increasing :
      (b : F) (bs : List F) → valid_after f b bs ≡ true → increasing f t (b ∷ bs) ≡ true
  valid_after-increasing b [] h = refl
  valid_after-increasing b (c ∷ bs) h = ground (arith, valid_after-increasing c bs)

  valid_buckets-increasing : (bs : List F) → valid_buckets f bs ≡ true → increasing f t bs ≡ true
  valid_buckets-increasing [] h = cc
  valid_buckets-increasing (b ∷ bs) h = valid_after-increasing b bs (ground arith)

  -- The data of a series of a histogram.
  abbrev IsData : Option (HistogramData F) → Type 0
  IsData none = ⊥
  IsData (some d) =
      (increasing f t d.data_bounds ≡ true) × (length d.data_counts ≡ length d.data_bounds + 1)

  abbrev IsWritable : MetricType → Series F → Type 0
  IsWritable counter s = Unit {0}
  IsWritable gauge s = Unit {0}
  IsWritable histogram s = IsData s.series_histogram

  write_histogram-Renders :
      (name : Bytes) (s : Series F) (d : Option (HistogramData F))
      → IsData d
      → Renders (write_histogram f t name s d)
  unfolding write_histogram
  write_histogram-Renders name s none h = elim h [ ]
  write_histogram-Renders name s (some d) (inc, size) = rw (eq→== _ _ size, inc) (_, refl)

  write_one-Renders :
      (name : Bytes) (type : MetricType) (s : Series F)
      → IsWritable type s
      → Renders (write_one f t name type s)
  write_one-Renders name counter s h = (_, refl)
  write_one-Renders name gauge s h = (_, refl)
  write_one-Renders name histogram s h = write_histogram-Renders name s s.series_histogram h

  write_all-Renders :
      (name : Bytes) (type : MetricType) (ss : List (Series F))
      → All (IsWritable type) ss
      → Renders (write_all f t name type ss)
  write_all-Renders name type [] h = (_, refl)
  write_all-Renders name type (s ∷ ss) h =
      joined-Renders _ _ (write_one-Renders name type s h.0) (write_all-Renders name type ss h.1)

  abbrev IsWritableFamily : Family F → Type 0
  IsWritableFamily fam = All (IsWritable fam.family_type) fam.family_series

  write_family-Renders : (fam : Family F) → IsWritableFamily fam → Renders (write_family f t fam)
  unfolding write_family
  write_family-Renders fam h =
      let sorted =
        sort_by-All (IsWritable fam.family_type)
          (λ a b. less_labels a.series_labels b.series_labels) [] fam.family_series tt h in
      let (text, e) = write_all-Renders fam.exposed fam.family_type _ sorted in rw e (_, refl)

  write_each-Renders :
      (fams : List (Family F)) → All IsWritableFamily fams → Renders (write_each f t fams)
  write_each-Renders [] h = (_, refl)
  write_each-Renders (fam ∷ fams) h =
      joined-Renders _ _ (write_family-Renders fam h.0) (write_each-Renders fams h.1)

  live-All :
      (P : Bytes × StoreSeries F → Type 0) (cutoff : ℤ) (m : List (Bytes × StoreSeries F))
      → All P m
      → All P (live cutoff m)
  live-All P cutoff [] h = tt
  live-All P cutoff ((k, s) ∷ m) h = elim (Bool-cases (ltb_ℤ s.updated cutoff)) [
    | inl stale ↦ rw stale (live-All P cutoff m h.1)
    | inr fresh ↦ rw fresh (h.0, live-All P cutoff m h.1)
  ]

  live-HasBuckets :
      (type : MetricType) (bounds : List F) (cutoff : ℤ) (m : List (Bytes × StoreSeries F))
      → HasBuckets f type bounds m
      → HasBuckets f type bounds (live cutoff m)
  live-HasBuckets counter bounds cutoff m h = tt
  live-HasBuckets gauge bounds cutoff m h = tt
  live-HasBuckets histogram bounds cutoff m (valid, sized) =
      (valid, live-All (IsSized f bounds) cutoff m sized)

  series_copies-IsWritable :
      (fam : StoreFamily F) (type : MetricType) (m : List (Bytes × StoreSeries F))
      → fam.type ≡ type
      → HasBuckets f type fam.bounds m
      → All (IsWritable type) (series_copies fam m)
  series_copies-IsWritable fam type [] e h = tt
  series_copies-IsWritable fam counter ((k, s) ∷ m) e h =
      (tt, series_copies-IsWritable fam counter m e tt)
  series_copies-IsWritable fam gauge ((k, s) ∷ m) e h =
      (tt, series_copies-IsWritable fam gauge m e tt)
  series_copies-IsWritable fam histogram ((k, s) ∷ m) e (valid, sized) = (
    subst (λ x. IsData (data_of fam x s)) (sym e)
        (valid_buckets-increasing fam.bounds valid, sized.0),
    series_copies-IsWritable fam histogram m e (valid, sized.1),
  )

  keep_family-All :
      (name : Bytes) (type : MetricType) (ss : List (Series F)) (out : List (Family F))
      → All (IsWritable type) ss
      → All IsWritableFamily out
      → All IsWritableFamily (keep_family name type ss out)
  keep_family-All name type [] out h k = k
  keep_family-All name type (s ∷ ss) out h k = (h, k)

  snapshot_families-Renders :
      (r : FamilyRegistry) (cutoff : ℤ) (families : List (Bytes × StoreFamily F))
      → All (IsStored f r) families
      → All IsWritableFamily (snapshot_families cutoff families).0
        × All (IsStored f r) (snapshot_families cutoff families).1
  unfolding snapshot_families
  snapshot_families-Renders r cutoff [] h = (tt, tt)
  snapshot_families-Renders r cutoff ((name, fam) ∷ families) ((buckets, registered), h) =
      let (out, kept) = snapshot_families-Renders r cutoff families h in
      let fresh = live-HasBuckets fam.type fam.bounds cutoff fam.series buckets in
      (
        keep_family-All name fam.type (series_copies fam (live cutoff fam.series)) _
            (series_copies-IsWritable fam fam.type (live cutoff fam.series) refl fresh) out,
        ((fresh, registered), kept),
      )

  snapshot-IsStore :
      (h : Handler F) (st : StoreState F) (now : ℤ)
      → IsStore f st
      → All IsWritableFamily (snapshot h st now).0 × IsStore f (snapshot h st now).1
  unfolding snapshot
  snapshot-IsStore h st now stored =
      snapshot_families-Renders st.registry (now -ℤ timeout h.metric_timeout) st.families stored

  -- What happens to a store: an export at a time, or a scrape.
  pub data Op (V : Type 0) : Type 0 where
    exports : List (Metric F V) → ℤ → Op V
    scrapes : ℤ → Op V

  module _ (default_buckets : List F) (h : Handler F) {V : Type 0} (show : V → Bytes)
      (to_set : Attributes V → Attributes V) where
    unfoldable pub run : StoreState F → List (Op V) → StoreState F
    run st [] = st
    run st (exports metrics now ∷ ops) =
        run (export_metrics f default_buckets h show to_set st metrics now).1 ops
    run st (scrapes now ∷ ops) = run (snapshot h st now).1 ops

    run-IsStore : (st : StoreState F) (ops : List (Op V)) → IsStore f st → IsStore f (run st ops)
    unfolding run
    run-IsStore st [] stored = stored
    run-IsStore st (exports metrics now ∷ ops) stored =
        run-IsStore (export_metrics f default_buckets h show to_set st metrics now).1 ops
          (export_metrics-IsStore f default_buckets h show to_set st metrics now stored)
    run-IsStore st (scrapes now ∷ ops) stored =
        run-IsStore (snapshot h st now).1 ops (snapshot-IsStore h st now stored).1

    -- After any exports and scrapes, whatever the metrics and the bounds that are configured, the
    -- snapshot of a scrape is rendered: no family is invalid.
    pub scrape_renders :
        (ops : List (Op V)) (now : ℤ)
        → (text : Bytes) × (write_families f t (snapshot h (run new_store ops) now).0 ≡ some text)
    unfolding write_families
    scrape_renders ops now = write_each-Renders _ (
        sort_by-All IsWritableFamily _ [] (snapshot h (run new_store ops) now).0 tt
          (snapshot-IsStore h (run new_store ops) now (run-IsStore new_store ops tt)).0)
