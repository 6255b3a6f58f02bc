-- ===== src/Otlp/Totals.antt =====
-- The points of one series in an export, which become one.
use stats.Base.{
  ◌≡◌, refl, sym, ap, ◌∙◌, subst, Bool, true, false, List, [], ◌∷◌, All, if◌then◌else◌, Bool-cases,
  inl, inr,
}
use stats.Base.Float.{Float64}
use stats.Otlp.{
  Instant, Point, SeriesState, Temporality, cumulative, delta, SeriesMeta, Accumulation,
}
use stats.Otlp.Accumulate.{
  key_of, keep, state_of, times, sum_point, merge_point, add_sum_point, sum_points,
}
use stats.Otlp.Points.{
  if-true, summed, sum_point-cumulative, sum_point-delta, times-cumulative, times-state,
  state_of-keep,
}

module _ {F D : Type 0} (f : Float64 F) where
  -- The values of the points, added to a sum in their order.
  abbrev pub added : F → List (Point D F) → F
  added sum [] = sum
  added sum (p ∷ ps) = added (f.add sum p.content) ps

  -- The same with the operands in the order of `addSumPoint`.
  abbrev pub gathered : F → List (Point D F) → F
  gathered sum [] = sum
  gathered sum (p ∷ ps) = gathered (f.add p.content sum) ps

abbrev pub temporality_of : Bool → Temporality
temporality_of true = cumulative
temporality_of false = delta

module _ {F D : Type 0} (f : Float64 F) (same_attributes : D → D → Bool)
    (refl_attributes : (d : D) → same_attributes d d ≡ true) where
  merged_one :
      (t : Temporality) (q p : Point D F)
      → q.point_attributes ≡ p.point_attributes
      → add_sum_point f same_attributes t (q ∷ []) p ≡ merge_point f same_attributes t q p ∷ []
  unfolding add_sum_point
  merged_one t q p e =
      if-true _
        (ap (same_attributes q.point_attributes) (sym e) ∙ refl_attributes q.point_attributes)

  -- A further point of the series.
  sum_points-next :
      (a : Accumulation F D) (meta : SeriesMeta) (t : Temporality) (q p p' : Point D F)
      (ps : List (Point D F))
      → (a' : Accumulation F D) → sum_point f same_attributes a meta p ≡ (p', a')
      → q.point_attributes ≡ p'.point_attributes
      → (sum_points f same_attributes a meta t (q ∷ []) (p ∷ ps)).0
        ≡ (sum_points f same_attributes a' meta t (merge_point f same_attributes t q p' ∷ []) ps).0
  unfolding sum_points
  sum_points-next a meta t q p p' ps a' one e =
      ap
        (λ x.
          (sum_points f same_attributes x.1 meta t (add_sum_point f same_attributes t (q ∷ []) x.0)
            ps).0)
        one
      ∙ ap (λ m. (sum_points f same_attributes a' meta t m ps).0) (merged_one t q p' e)

  cumulative_rest :
      (a : Accumulation F D) (meta : SeriesMeta) (q : Point D F) (ps : List (Point D F))
      (s : SeriesState F D) (d : D)
      → a.is_cumulative ≡ true
      → ((observed : Instant)
          → (state_of f same_attributes a (key_of f same_attributes meta d) observed).0 ≡ s)
      → s.sum ≡ q.content
      → s.start ≡ q.start_time
      → q.point_attributes ≡ d
      → All (λ p. p.point_attributes ≡ d) ps
      → (r : Point D F) × ((sum_points f same_attributes a meta cumulative (q ∷ []) ps).0 ≡ r ∷ [])
        × (r.content ≡ added f q.content ps)
        × (r.start_time ≡ q.start_time)
  unfolding sum_points
  cumulative_rest a meta q [] s d c known total begun e h = (q, refl, refl, refl)
  cumulative_rest a meta q (p ∷ ps) s d c known total begun e h =
      let key = key_of f same_attributes meta p.point_attributes in
      let moved =
        times f same_attributes a key (summed f same_attributes refl_attributes a meta p) p.time in
      let s' = moved.2 in
      let a' = keep f same_attributes a key s' in
      let p' = record p { start_time = moved.0; time = moved.1; content = s'.sum } in
      let old =
        ap (λ x. (state_of f same_attributes a (key_of f same_attributes meta x) p.time).0) h.0
        ∙ known p.time in
      let (sum', start', time') =
        times-state f same_attributes refl_attributes a key
          (summed f same_attributes refl_attributes a meta p) p.time in
      let start =
        times-cumulative f same_attributes refl_attributes a key
          (summed f same_attributes refl_attributes a meta p) p.time c in
      let (r, one, content, begins) =
        cumulative_rest a' meta p' ps s' d c
          (λ observed.
            ap (λ x. x.0)
              (state_of-keep f same_attributes refl_attributes a key
                (key_of f same_attributes meta d) s' observed (ap (λ x. (meta.meta_name, x)) h.0)))
          refl (start' ∙ sym start) h.0 h.1 in
      (
        r,
        sum_points-next a meta cumulative q p p' ps a'
              (sum_point-cumulative f same_attributes refl_attributes a meta p c) (e ∙ sym h.0)
            ∙ one,
        content
            ∙ ap (λ x. added f x ps)
                (sum' ∙ ap (λ x. f.add x.sum p.content) old ∙ ap (λ x. f.add x p.content) total),
        begins ∙ start ∙ ap (λ x. x.start) old ∙ begun,
      )

  delta_rest :
      (a : Accumulation F D) (meta : SeriesMeta) (q : Point D F) (ps : List (Point D F)) (d : D)
      → a.is_cumulative ≡ false
      → q.point_attributes ≡ d
      → All (λ p. p.point_attributes ≡ d) ps
      → (r : Point D F) × ((sum_points f same_attributes a meta delta (q ∷ []) ps).0 ≡ r ∷ [])
        × (r.content ≡ gathered f q.content ps)
        × (r.start_time ≡ q.start_time)
  unfolding sum_points
  delta_rest a meta q [] d c e h = (q, refl, refl, refl)
  delta_rest a meta q (p ∷ ps) d c e h =
      let key = key_of f same_attributes meta p.point_attributes in
      let moved =
        times f same_attributes a key (summed f same_attributes refl_attributes a meta p) p.time in
      let a' = keep f same_attributes a key (record (moved.2) { sum = f.nought }) in
      let p' = record p { start_time = moved.0; time = moved.1 } in
      let (r, one, content, begins) =
        delta_rest a' meta (merge_point f same_attributes delta q p') ps d c h.0 h.1 in
      (
        r,
        sum_points-next a meta delta q p p' ps a'
              (sum_point-delta f same_attributes refl_attributes a meta p c) (e ∙ sym h.0)
            ∙ one,
        content,
        begins,
      )

  -- What `sum_points` gives for points of one series, in an export of each kind.
  abbrev pub IsOne : Bool → Accumulation F D → SeriesMeta → Point D F → List (Point D F) → Type 0
  IsOne b a meta p ps =
      let s =
        (state_of f same_attributes a (key_of f same_attributes meta p.point_attributes)
          p.time).0 in
      let first = (sum_point f same_attributes a meta p).0 in
      (r : Point D F) × ((sum_points f same_attributes a meta (temporality_of b) [] (p ∷ ps)).0
        ≡ r ∷ [])
      × (r.content ≡ (if b then added f s.sum (p ∷ ps) else gathered f p.content ps))
      × (r.start_time ≡ first.start_time)

  IsOne-cumulative :
      (a : Accumulation F D) (meta : SeriesMeta) (p : Point D F) (ps : List (Point D F))
      → a.is_cumulative ≡ true
      → All (λ q. q.point_attributes ≡ p.point_attributes) ps
      → IsOne true a meta p ps
  unfolding sum_points add_sum_point
  IsOne-cumulative a meta p ps c h =
      let key = key_of f same_attributes meta p.point_attributes in
      let s = summed f same_attributes refl_attributes a meta p in
      let moved = times f same_attributes a key s p.time in
      let p' = record p { start_time = moved.0; time = moved.1; content = moved.2.sum } in
      let (sum', start', time') = times-state f same_attributes refl_attributes a key s p.time in
      let start = times-cumulative f same_attributes refl_attributes a key s p.time c in
      let first = sum_point-cumulative f same_attributes refl_attributes a meta p c in
      let (r, one, content, begins) =
        cumulative_rest (keep f same_attributes a key moved.2) meta p' ps moved.2 p.point_attributes
          c
          (λ observed.
            ap (λ x. x.0)
              (state_of-keep f same_attributes refl_attributes a key key moved.2 observed refl))
          refl (start' ∙ sym start) refl h in
      (
        r,
        ap (λ x. (sum_points f same_attributes x.1 meta cumulative (x.0 ∷ []) ps).0) first ∙ one,
        content ∙ ap (λ x. added f x ps) sum',
        begins ∙ sym (ap (λ x. x.0.start_time) first),
      )

  IsOne-delta :
      (a : Accumulation F D) (meta : SeriesMeta) (p : Point D F) (ps : List (Point D F))
      → a.is_cumulative ≡ false
      → All (λ q. q.point_attributes ≡ p.point_attributes) ps
      → IsOne false a meta p ps
  unfolding sum_points add_sum_point
  IsOne-delta a meta p ps c h =
      let key = key_of f same_attributes meta p.point_attributes in
      let moved =
        times f same_attributes a key (summed f same_attributes refl_attributes a meta p) p.time in
      let p' = record p { start_time = moved.0; time = moved.1 } in
      let first = sum_point-delta f same_attributes refl_attributes a meta p c in
      let (r, one, content, begins) =
        delta_rest (keep f same_attributes a key (record (moved.2) { sum = f.nought })) meta p' ps
          p.point_attributes c refl h in
      (
        r,
        ap (λ x. (sum_points f same_attributes x.1 meta delta (x.0 ∷ []) ps).0) first ∙ one,
        content,
        begins ∙ sym (ap (λ x. x.0.start_time) first),
      )

  -- The points of one series in an export become one. Its value is their sum in a delta export, and
  -- in a cumulative one all of them added to the sum that the series had; it starts where the first would.
  pub sum_points-series :
      (a : Accumulation F D) (meta : SeriesMeta) (p : Point D F) (ps : List (Point D F))
      → All (λ q. q.point_attributes ≡ p.point_attributes) ps
      → IsOne a.is_cumulative a meta p ps
  sum_points-series a meta p ps h = elim (Bool-cases a.is_cumulative) [
    | inl c ↦ subst (λ b. IsOne b a meta p ps) (sym c) (IsOne-cumulative a meta p ps c h)
    | inr c ↦ subst (λ b. IsOne b a meta p ps) (sym c) (IsOne-delta a meta p ps c h)
  ]
