-- ===== src/Expo/Points/RoundTrip.antt =====
-- `snapshot` and `expoHistogramFromPoint`: a histogram, its data point, and back.
use stats.Base.{
  ℕ, ◌-◌, ◌%◌, ◌^◌, ◌≡◌, refl, sym, ap, subst, ◌∙◌, Bool, Bool-cases, inl, inr, List, [], ◌∷◌,
  arith, if◌then◌else◌, ◌==◌,
}
use stats.Base.Int.{ℤ, pos, negsuc, ◌+ℤ◌, ◌≤ℤ◌}
use stats.Base.Word.{word}
use stats.Base.Shift.{◌>>ℤ◌, diff}
use stats.Base.Float.{Float64}
use stats.Expo.{
  ExpoBuckets, ExpoHistogram, Side, positive, negative, expo_min_scale, expo_max_scale, add_count,
  new,
}
use stats.Expo.Merging.{replay_from, replay}
use stats.Expo.Points.{rebuild_from, bucket_offset, snapshot_buckets, snapshot, from_point}
use stats.Expo.Tally.{tally}
use stats.Expo.Recording.{coarser}
use stats.Expo.Merging.Sums.{Gains, replay-Gains, coarser_on, fresh_tally}

module _ {F : Type 0} where
  ignores_zero :
      (h : ExpoHistogram F) (side : Side) (index : ℤ) (c : ℕ)
      → add_count h side index c ≡ (if c == 0 then h else add_count h side index c)
  unfolding add_count
  ignores_zero h side index c = elim (Bool-cases (c == 0)) [
    | inl none_here ↦ rw none_here refl
    | inr some_here ↦ rw some_here refl
  ]

  -- The test for a zero count in `replay` is one that `addCount` makes.
  rebuild-replay :
      (h : ExpoHistogram F) (side : Side) (at : ℤ) (cs : List ℕ) (s : ℤ)
      → rebuild_from h side at cs s ≡ replay_from h side at cs s
  unfolding rebuild_from replay_from
  rebuild-replay h side at [] s = refl
  rebuild-replay h side at (c ∷ cs) s =
      rebuild-replay (add_count h side (at >>ℤ diff s h.scale) c) side (at +ℤ pos 1) cs s
      ∙ ap (λ t. replay_from t side (at +ℤ pos 1) cs s)
          (ignores_zero h side (at >>ℤ diff s h.scale) c)

  rebuild-Gains :
      (h : ExpoHistogram F) (side : Side) (src : ExpoBuckets) (s : ℤ)
      → h.scale ≤ℤ s
      → let h' = rebuild_from h side src.offset src.counts s in
        Gains h h' side (λ P. tally (coarser (diff s h'.scale) P) src)
  unfolding replay
  rebuild-Gains h side src s le =
      subst (λ t. Gains h t side (λ P. tally (coarser (diff s t.scale) P) src))
        (sym (rebuild-replay h side src.offset src.counts s)) (replay-Gains h side src s le)

-- The offset fits an int32.
abbrev pub IsNarrow : ExpoBuckets → Type 0
IsNarrow b = (negsuc (2 ^ 31 - 1) ≤ℤ b.offset) × (b.offset ≤ℤ pos (2 ^ 31 - 1))

keeps_offset : (b : ExpoBuckets) → IsNarrow b → snapshot_buckets b ≡ b
unfolding bucket_offset
keeps_offset b h = ap (λ o. record b { offset = o }) (ground arith)

module _ {F : Type 0} (f : Float64 F) where
  same_scale :
      (max_size : ℕ) (scale : ℤ)
      → expo_min_scale ≤ℤ scale
      → scale ≤ℤ expo_max_scale
      → (new f max_size scale).scale ≡ scale
  unfolding new
  same_scale max_size scale low high = ground arith

  -- The two loops of `expoHistogramFromPoint`, over the buckets of a histogram.
  abbrev rebuilt : ExpoHistogram F → ExpoBuckets → ExpoBuckets → ExpoHistogram F
  rebuilt h above below =
      rebuild_from (rebuild_from h positive above.offset above.counts h.scale) negative below.offset
        below.counts h.scale

  rebuilt_lem :
      (max_size : ℕ) (scale : ℤ) (above below : ExpoBuckets)
      → let h = new f max_size scale in
        let h' = rebuilt h above below in
        (h'.scale ≤ℤ h.scale)
        × ((P : ℤ → Bool)
            → tally P h'.above % word ≡ tally (coarser (diff h.scale h'.scale) P) above % word)
        × ((P : ℤ → Bool)
            → tally P h'.below % word ≡ tally (coarser (diff h.scale h'.scale) P) below % word)
  rebuilt_lem max_size scale above below =
      let h = new f max_size scale in
      let h1 = rebuild_from h positive above.offset above.counts h.scale in
      let h2 = rebuild_from h1 negative below.offset below.counts h.scale in
      let g1 = rebuild-Gains h positive above h.scale (omega arith) in
      let g2 = rebuild-Gains h1 negative below h.scale g1.lower in
      (
        omega (arith, g1.lower, g2.lower),
        λ P.
            let Q = coarser (diff h1.scale h2.scale) P in
            omega (
              arith,
              g2.other P,
              g1.mine Q,
              (fresh_tally f max_size scale positive (coarser (diff h.scale h1.scale) Q)).0,
              ap (λ R. tally R above) (coarser_on h.scale h1.scale h2.scale P g1.lower g2.lower),
            ),
        λ P.
            let Q = coarser (diff h1.scale h2.scale) P in
            omega (
              arith,
              g2.mine P,
              g1.other Q,
              (fresh_tally f max_size scale negative (coarser (diff h.scale h1.scale) Q)).0,
            ),
      )

  -- A histogram rebuilt from its data point, with any size, is at a scale that is not finer. Every
  -- bucket count is at its coarser index, modulo 2^64, and the counts are the same, if the bucket
  -- offsets fit an int32 and the scale is one that `newExpoHistogram` allows.
  pub from_point-snapshot :
      (h : ExpoHistogram F) (max_size : ℕ)
      → expo_min_scale ≤ℤ h.scale
      → h.scale ≤ℤ expo_max_scale
      → IsNarrow h.above
      → IsNarrow h.below
      → let h' = from_point f (snapshot h) max_size in
        (h'.scale ≤ℤ h.scale)
        × ((P : ℤ → Bool)
            → tally P h'.above % word ≡ tally (coarser (diff h.scale h'.scale) P) h.above % word)
        × ((P : ℤ → Bool)
            → tally P h'.below % word ≡ tally (coarser (diff h.scale h'.scale) P) h.below % word)
        × (h'.count ≡ h.count)
        × (h'.zero_count ≡ h.zero_count)
  unfolding from_point snapshot
  from_point-snapshot h max_size low high narrow_above narrow_below =
      let (lower, up, down) =
        rebuilt_lem max_size h.scale (snapshot_buckets h.above) (snapshot_buckets h.below) in
      let h' =
        rebuilt (new f max_size h.scale) (snapshot_buckets h.above) (snapshot_buckets h.below) in
      let same = same_scale max_size h.scale low high in
      (
        subst (λ s. h'.scale ≤ℤ s) same lower,
        λ P.
            up P
            ∙ ap (λ s. tally (coarser (diff s h'.scale) P) (snapshot_buckets h.above) % word) same
            ∙ ap (λ b. tally (coarser (diff h.scale h'.scale) P) b % word)
                (keeps_offset h.above narrow_above),
        λ P.
            down P
            ∙ ap (λ s. tally (coarser (diff s h'.scale) P) (snapshot_buckets h.below) % word) same
            ∙ ap (λ b. tally (coarser (diff h.scale h'.scale) P) b % word)
                (keeps_offset h.below narrow_below),
        refl,
        refl,
      )
