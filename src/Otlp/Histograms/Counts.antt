-- ===== src/Otlp/Histograms/Counts.antt =====
-- What the histograms of a batch count.
use stats.Base.{
  ℕ, zero, suc, ◌+◌, ◌%◌, ◌≤◌, ◌<◌, ◌≡◌, refl, sym, subst, ◌∙◌, Bool, List, [], ◌∷◌, All, length,
  replicate, get_or, if◌then◌else◌, length-replicate, length-set, Bool-cases, inl, inr, arith,
}
use stats.Base.Word.{word, add64}
use stats.Base.Float.{Float64, FloatText}
use stats.Base.Text.{Bytes, same, same_iff_eq}
use stats.Base.Assoc.{find, insert}
use stats.Metric.{Metric, Attributes}
use stats.Prometheus.Store.Observation.{total, total-set}
use stats.Buckets.{buckets_for}
use stats.Otlp.{HistogramTotals, Point}
use stats.Otlp.Histograms.{
  BucketSettings, is_explicit, bucket_of, new_point, observe_value, observe_in_points, points_of,
  observe_histogram, explicit_histograms,
}

total-zeros : (n : ℕ) → total (replicate n 0) ≡ 0
total-zeros zero = refl
total-zeros (suc n) = omega (arith, total-zeros n)

module _ {F D : Type 0} where
  -- The counts of points, and of all histograms.
  abbrev pub counted : List (Point D (HistogramTotals F)) → ℕ
  counted [] = 0
  counted (p ∷ ps) = p.content.total_count + counted ps

  abbrev pub counted_all : List (Bytes × List (Point D (HistogramTotals F))) → ℕ
  counted_all [] = 0
  counted_all ((name, ps) ∷ rest) = counted ps + counted_all rest

  -- A point has the bounds, a bucket for each and one more, and its buckets hold its count.
  abbrev pub IsCounted : List F → Point D (HistogramTotals F) → Type 0
  IsCounted bounds p =
      (p.content.total_bounds ≡ bounds)
      × (length p.content.bucket_counts ≡ length bounds + 1)
      × (total p.content.bucket_counts % word ≡ p.content.total_count % word)

  counted_all-insert :
      (name : Bytes) (ps : List (Point D (HistogramTotals F)))
      → (m : List (Bytes × List (Point D (HistogramTotals F))))
      → counted_all (insert same name ps m) + counted (points_of (find same name m))
        ≡ counted_all m + counted ps
  counted_all-insert name ps [] = omega arith
  counted_all-insert name ps ((j, qs) ∷ m) = elim (Bool-cases (same name j)) [
    | inl e ↦ rw e (omega arith)
    | inr e ↦ rw e (omega (arith, counted_all-insert name ps m))
  ]

module _ {F : Type 0} (config : BucketSettings F) where
  -- The bounds of a name.
  abbrev pub bounds_of : Bytes → List F
  bounds_of name =
      buckets_for config.default_buckets config.buckets_by_name config.global_bounds name

  -- Each point has the bounds of its name, and its buckets hold its count.
  abbrev pub AreCounted : {D : Type 0} → List (Bytes × List (Point D (HistogramTotals F))) → Type 0
  AreCounted = All (λ (name, ps). All (IsCounted (bounds_of name)) ps)

  -- The number of the observations that are taken.
  abbrev pub observations : {V : Type 0} → List (Metric F V) → ℕ
  observations [] = 0
  observations (m ∷ ms) =
      if is_explicit config m m.type then 1 + observations ms else observations ms

module _ {F D V : Type 0} (f : Float64 F) (t : FloatText F) (same_attributes : D → D → Bool)
    (new_set : Attributes V → D) where
  bucket_of-le :
      (bounds : List F) (v : F) → bucket_of f t same_attributes new_set bounds v ≤ length bounds
  unfolding bucket_of
  bucket_of-le [] v = omega arith
  bucket_of-le (b ∷ bs) v = ground (arith, bucket_of-le bs v)

  observe_value-IsCounted :
      (m : Metric F V) (bounds : List F) (p : Point D (HistogramTotals F))
      → IsCounted bounds p
      → let p' = observe_value f t same_attributes new_set m bounds p in
        IsCounted bounds p' × (p'.content.total_count ≡ add64 p.content.total_count 1)
  unfolding observe_value
  observe_value-IsCounted m bounds p (own, size, tally) =
      let counts = p.content.bucket_counts in
      let k = bucket_of f t same_attributes new_set bounds m.value in
      let n = add64 (get_or counts k 0) 1 in
      let inside : k < length counts = omega (arith, bucket_of-le bounds m.value) in
      ((own, length-set counts k n ∙ size, omega (arith, total-set counts k n inside)), refl)

  new_point-IsCounted :
      (m : Metric F V) (d : D) (bounds : List F)
      → IsCounted bounds (new_point f t same_attributes new_set m d bounds)
  new_point-IsCounted m d bounds =
      (refl, length-replicate (length bounds + 1) 0, rw (total-zeros (length bounds + 1)) refl)

  observe_in_points-IsCounted :
      (m : Metric F V) (d : D) (bounds : List F) (ps : List (Point D (HistogramTotals F)))
      → All (IsCounted bounds) ps
      → let ps' = observe_in_points f t same_attributes new_set m d bounds ps in
        All (IsCounted bounds) ps' × (counted ps' % word ≡ (counted ps + 1) % word)
  unfolding observe_in_points
  observe_in_points-IsCounted m d bounds [] h =
      let (own, one) =
        observe_value-IsCounted m bounds (new_point f t same_attributes new_set m d bounds)
          (new_point-IsCounted m d bounds) in
      ((own, tt), omega (arith, one))
  observe_in_points-IsCounted m d bounds (p ∷ ps) h =
      let (own, one) = observe_value-IsCounted m bounds p h.0 in
      let (rest, more) = observe_in_points-IsCounted m d bounds ps h.1 in
      elim (Bool-cases (same_attributes p.point_attributes d)) [
        | inl e ↦ rw e ((own, h.1), omega (arith, one))
        | inr e ↦ rw e ((h.0, rest), omega (arith, more))
      ]

  module _ (config : BucketSettings F) where
    points_of-AreCounted :
        (name : Bytes) (hs : List (Bytes × List (Point D (HistogramTotals F))))
        → AreCounted config hs
        → All (IsCounted (bounds_of config name)) (points_of (find same name hs))
    points_of-AreCounted name [] h = tt
    points_of-AreCounted name ((j, ps) ∷ hs) h = elim (Bool-cases (same name j)) [
      | inl e ↦
          rw e
            (subst (λ n. All (IsCounted (bounds_of config n)) ps) (sym (same_iff_eq name j e)) h.0)
      | inr e ↦ rw e (points_of-AreCounted name hs h.1)
    ]

    insert-AreCounted :
        (name : Bytes) (ps : List (Point D (HistogramTotals F)))
        → (hs : List (Bytes × List (Point D (HistogramTotals F))))
        → All (IsCounted (bounds_of config name)) ps
        → AreCounted config hs
        → AreCounted config (insert same name ps hs)
    insert-AreCounted name ps [] new h = (new, tt)
    insert-AreCounted name ps ((j, qs) ∷ hs) new h = elim (Bool-cases (same name j)) [
      | inl e ↦
          rw e
            (subst (λ n. All (IsCounted (bounds_of config n)) ps) (same_iff_eq name j e) new, h.1)
      | inr e ↦ rw e (h.0, insert-AreCounted name ps hs new h.1)
    ]

    observe_histogram-AreCounted :
        (m : Metric F V) (hs : List (Bytes × List (Point D (HistogramTotals F))))
        → AreCounted config hs
        → let hs' = observe_histogram f t same_attributes new_set config m hs in
          AreCounted config hs' × (counted_all hs' % word ≡ (counted_all hs + 1) % word)
    unfolding observe_histogram
    observe_histogram-AreCounted m hs h =
        let old = points_of (find same m.name hs) in
        let ps =
          observe_in_points f t same_attributes new_set m (new_set m.attributes)
            (bounds_of config m.name) old in
        let (own, more) =
          observe_in_points-IsCounted m (new_set m.attributes) (bounds_of config m.name) old
            (points_of-AreCounted m.name hs h) in
        (insert-AreCounted m.name ps hs own h, omega (arith, more, counted_all-insert m.name ps hs))

    -- A batch that is added to counted histograms leaves counted ones: each point has the bounds of
    -- its name, one bucket more than these, and buckets whose sum is its count modulo 2^64. All points
    -- together count one for each observation that is taken, modulo 2^64.
    pub explicit_histograms-AreCounted :
        (ms : List (Metric F V)) (hs : List (Bytes × List (Point D (HistogramTotals F))))
        → AreCounted config hs
        → let hs' = explicit_histograms f t same_attributes new_set config ms hs in
          AreCounted config hs'
          × (counted_all hs' % word ≡ (counted_all hs + observations config ms) % word)
    unfolding explicit_histograms
    explicit_histograms-AreCounted [] hs h = (h, omega arith)
    explicit_histograms-AreCounted (m ∷ ms) hs h =
        let (now, one) = observe_histogram-AreCounted m hs h in
        let (taken, more) =
          explicit_histograms-AreCounted ms
            (observe_histogram f t same_attributes new_set config m hs) now in
        let (left, others) = explicit_histograms-AreCounted ms hs h in
        elim (Bool-cases (is_explicit config m m.type)) [
          | inl e ↦ rw e (taken, omega (arith, one, more))
          | inr e ↦ rw e (left, omega (arith, others))
        ]
