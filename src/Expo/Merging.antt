-- ===== src/Expo/Merging.antt =====
-- exporters/otlp/exponential_merge.go: merging two histograms into a third.
pub mod Sums
use stats.Base.{
  ℕ, zero, suc, ◌+◌, ◌-◌, ◌*◌, ◌^◌, max, min, ◌&&◌, Bool, true, false, ◌||◌, Option, none, some,
  List, [], ◌∷◌, ◌++◌, ltb, leb, ◌==◌, if◌then◌else◌,
}
use stats.Base.Int.{ℤ, pos, negsuc, ◌+ℤ◌, ltb_ℤ}
use stats.Base.Shift.{◌>>ℤ◌, diff}
use stats.Base.Word.{add64}
use stats.Base.Float.{Float64}
use stats.Expo.{ExpoBuckets, ExpoHistogram, Side, positive, negative, min_ℤ, add_count, new}

-- The loop of `replay`, at the bucket with index `at`.
unfoldable pub replay_from :
    {F : Type 0} → ExpoHistogram F → Side → ℤ → List ℕ → ℤ → ExpoHistogram F
replay_from h side at [] src_scale = h
replay_from h side at (c ∷ cs) src_scale =
    let h' = if c == 0 then h else add_count h side (at >>ℤ diff src_scale h.scale) c in
    replay_from h' side (at +ℤ pos 1) cs src_scale

unfoldable pub replay : {F : Type 0} → ExpoHistogram F → Side → ExpoBuckets → ℤ → ExpoHistogram F
unfolding replay_from
replay h side src src_scale = replay_from h side src.offset src.counts src_scale

module _ {F : Type 0} (f : Float64 F) where
  -- The body of the loop of `mergeExpo`.
  merge_in : ExpoHistogram F → ExpoHistogram F → ExpoHistogram F
  merge_in h src =
      let h' = replay (replay h positive src.above src.scale) negative src.below src.scale in
      let count = add64 h'.count src.count in
      let any = ltb 0 src.count in
      let only = count == src.count in
      record h' {
        zero_count = add64 h'.zero_count src.zero_count;
        count = count;
        sum = f.add h'.sum src.sum;
        least = if any && (only || f.lt src.least h'.least) then src.least else h'.least;
        greatest =
            if any && (only || f.lt h'.greatest src.greatest) then src.greatest else h'.greatest;
      }

  pub merge_expo : ExpoHistogram F → ExpoHistogram F → ExpoHistogram F
  unfolding merge_in
  merge_expo a b =
      let h = new f (min a.max_size b.max_size) (min_ℤ a.scale b.scale) in merge_in (merge_in h a) b
