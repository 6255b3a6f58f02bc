-- ===== src/Prometheus/Store/Observation.antt =====
-- What one observation does to a series of a histogram.
use stats.Base.{
  ℕ, zero, suc, ◌+◌, ◌%◌, ◌<◌, ◌≤◌, ◌≡◌, ◌≢◌, refl, ap, true, false, List, [], ◌∷◌, length, get_or,
  set, Bool-cases, inl, inr, arith,
}
use stats.Base.Word.{word, add64}
use stats.Base.Float.{Float64}
use stats.Metric.{Metric, histogram}
use stats.Prometheus.Store.{StoreSeries, StoreFamily, search_bounds, fold_value}

abbrev pub total : List ℕ → ℕ
total [] = 0
total (c ∷ cs) = c + total cs

pub total-set :
    (counts : List ℕ) (i n : ℕ)
    → i < length counts
    → total (set counts i n) + get_or counts i 0 ≡ total counts + n
total-set [] i n h = elim h [ ]
total-set (c ∷ cs) zero n h = omega arith
total-set (c ∷ cs) (suc i) n h = omega (arith, total-set cs i n (omega arith))

get_or-set_ne :
    (counts : List ℕ) (k i n : ℕ) → i ≢ k → get_or (set counts k n) i 0 ≡ get_or counts i 0
get_or-set_ne [] k i n h = refl
get_or-set_ne (c ∷ cs) zero zero n h = absurd (h refl)
get_or-set_ne (c ∷ cs) zero (suc i) n h = refl
get_or-set_ne (c ∷ cs) (suc k) zero n h = refl
get_or-set_ne (c ∷ cs) (suc k) (suc i) n h = get_or-set_ne cs k i n (λ e. h (ap suc e))

module _ {F : Type 0} (f : Float64 F) where
  search_bounds-le : (bounds : List F) (v : F) → search_bounds f bounds v ≤ length bounds
  unfolding search_bounds
  search_bounds-le [] v = omega arith
  search_bounds-le (b ∷ bs) v = ground (arith, search_bounds-le bs v)

  below_next :
      (b : F) (bs : List F) (v d : F)
      → f.lt b v ≡ true
      → ((i : ℕ) → i < search_bounds f bs v → f.lt (get_or bs i d) v ≡ true)
      → (i : ℕ) → i < suc (search_bounds f bs v)
      → f.lt (get_or (b ∷ bs) i d) v ≡ true
  below_next b bs v d lower below zero h = lower
  below_next b bs v d lower below (suc i) h = below i (omega arith)

  -- The bounds before the bucket are below the value, and its own is not.
  search_bounds_lem :
      (bounds : List F) (v d : F)
      → ((i : ℕ) → i < search_bounds f bounds v → f.lt (get_or bounds i d) v ≡ true)
        × (search_bounds f bounds v < length bounds
            → f.lt (get_or bounds (search_bounds f bounds v) d) v ≡ false)
  unfolding search_bounds
  search_bounds_lem [] v d = ((λ i h. elim h [ ]), (λ h. elim h [ ]))
  search_bounds_lem (b ∷ bs) v d =
      let (below, own) = search_bounds_lem bs v d in
      elim (Bool-cases (f.lt b v)) [
        | inl lower ↦
            rw lower ((λ i h. below_next b bs v d lower below i h), λ h. own (omega arith))
        | inr reached ↦ rw reached ((λ i h. elim h [ ]), λ h. reached)
      ]

  -- An observation of a histogram counts in one bucket, the first whose bound is not below the value,
  -- or the last: all buckets together count one more, modulo 2^64, and the others stay.
  pub fold_value-histogram :
      {V : Type 0} (m : Metric F V) (fam : StoreFamily F) (s : StoreSeries F) (d : F)
      → length s.counts ≡ length fam.bounds + 1
      → let s' = fold_value f m fam histogram s in
        let k = search_bounds f fam.bounds m.value in
        (total s'.counts % word ≡ (total s.counts + 1) % word)
        × ((i : ℕ) → i ≢ k → get_or s'.counts i 0 ≡ get_or s.counts i 0)
        × ((i : ℕ) → i < k → f.lt (get_or fam.bounds i d) m.value ≡ true)
        × (k < length fam.bounds → f.lt (get_or fam.bounds k d) m.value ≡ false)
  fold_value-histogram m fam s d size =
      let k = search_bounds f fam.bounds m.value in
      let (below, own) = search_bounds_lem fam.bounds m.value d in
      let inside : k < length s.counts = omega (arith, search_bounds-le fam.bounds m.value) in
      (
        omega (arith, total-set s.counts k (add64 (get_or s.counts k 0) 1) inside),
        (λ i other. get_or-set_ne s.counts k i (add64 (get_or s.counts k 0) 1) other),
        below,
        own,
      )
