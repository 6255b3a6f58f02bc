-- ===== src/Otlp/Kinds.antt =====
-- Series that change their kind.
use stats.Base.{
  ℕ, ◌≤◌, ◌<◌, ◌≡◌, ◌⊎◌, ◌↔◌, refl, Bool, true, none, some, List, [], ◌∷◌, length, Bool-cases, inl,
  inr, arith,
}
use stats.Base.Word.{add64}
use stats.Base.Float.{Float64}
use stats.Otlp.{HistogramTotals, Point, SeriesMeta, Accumulation, add_counts, add_histogram}
use stats.Otlp.Accumulate.{key_of, state_of, histogram_point}

some-ne : {A : Type 0} {a : A} → some a ≡ none → ⊥
some-ne h = cc

add_counts-cases :
    (counts previous : List ℕ)
    → (add_counts counts previous ≡ none) × (length previous < length counts)
      ⊎ (sums : List ℕ) × (add_counts counts previous ≡ some sums)
        × (length counts ≤ length previous)
unfolding add_counts
add_counts-cases [] previous = inr ([], refl, omega arith)
add_counts-cases (c ∷ counts) [] = inl (refl, omega arith)
add_counts-cases (c ∷ counts) (p ∷ previous) = elim (add_counts-cases counts previous) [
  | inl (e, few) ↦ inl (rw e refl, omega arith)
  | inr (sums, e, enough) ↦ inr (add64 c p ∷ sums, rw e refl, omega arith)
]

module _ {F D : Type 0} (f : Float64 F) (same_attributes : D → D → Bool) where
  -- The series exists and has fewer buckets than the point.
  abbrev pub LacksBuckets : Accumulation F D → SeriesMeta → Point D (HistogramTotals F) → Type 0
  LacksBuckets a meta p =
      let (s, existed) =
        state_of f same_attributes a (key_of f same_attributes meta p.point_attributes) p.time in
      (a.is_cumulative ≡ true)
      × (existed ≡ true)
      × (length s.histogram.bucket_counts < length p.content.bucket_counts)

  -- The point of a histogram panics in a cumulative export of a series that exists, if the series has
  -- fewer buckets than the point, as one has that is new as a histogram; and never otherwise.
  pub histogram_point-panics :
      (a : Accumulation F D) (meta : SeriesMeta) (p : Point D (HistogramTotals F))
      → (histogram_point f same_attributes a meta p ≡ none) ↔ LacksBuckets a meta p
  unfolding histogram_point add_histogram
  histogram_point-panics a meta p =
      let (s, existed) =
        state_of f same_attributes a (key_of f same_attributes meta p.point_attributes) p.time in
      elim (Bool-cases a.is_cumulative) [
        | inr delta ↦ (λ e. absurd (some-ne (rw delta at e)), λ (c, x, few). absurd cc)
        | inl cumulative ↦ elim (Bool-cases existed) [
          | inr new ↦ (λ e. absurd (some-ne (rw (new, cumulative) at e)), λ (c, x, few). absurd cc)
          | inl old ↦ elim (add_counts-cases p.content.bucket_counts s.histogram.bucket_counts) [
            | inl (e, few) ↦ (λ h. (cumulative, old, few), λ h. rw (old, e, cumulative) refl)
            | inr (sums, e, enough) ↦ (
              λ h. absurd (some-ne (rw (old, e, cumulative) at h)),
              λ (c, x, few). absurd (omega arith),
            )
          ]
        ]
      ]
