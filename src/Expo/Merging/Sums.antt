-- ===== src/Expo/Merging/Sums.antt =====
-- `replay` and `mergeExpo`: where the counts of two histograms are behind a merge.
use mathlib.Core.Path.{fun_ext}
use stats.Base.{
  ℕ, ◌+◌, ◌%◌, min, ◌<◌, ◌≡◌, refl, ap, ◌∙◌, inl, inr, Bool, true, Bool-cases, List, [], ◌∷◌, arith,
  if◌then◌else◌, ◌==◌,
}
use stats.Base.Int.{ℤ, pos, ◌+ℤ◌, ◌-ℤ◌, ◌≤ℤ◌, int_laws}
use stats.Base.Word.{word, add64}
use stats.Base.Shift.{◌>>ℤ◌, diff, >>ℤ_>>ℤ}
use stats.Base.Float.{Float64}
use stats.Expo.{
  ExpoBuckets, ExpoHistogram, Side, positive, negative, range, min_ℤ, expo_min_scale, add_count,
  new,
}
use stats.Expo.Merging.{replay_from, replay, merge_in, merge_expo}
use stats.Expo.Tally.{tally, tally_from}
use stats.Expo.Recording.{
  coarser, coarser_zero, change_of, other_side, add_count-tally, add_count-tallied,
}

coarser-coarser : (j k : ℕ) (P : ℤ → Bool) → coarser j (coarser k P) ≡ coarser (j + k) P
coarser-coarser j k P = fun_ext (λ i. ap P (>>ℤ_>>ℤ i j k))

no_change : (a : ℤ) (P : ℤ → Bool) → coarser (diff a a) P ≡ P
no_change a P = ap (λ (k : ℕ). coarser k P) (omega arith) ∙ coarser_zero P

drop_by : (a : ℤ) (k : ℕ) → (a -ℤ pos k ≤ℤ a) × (diff a (a -ℤ pos k) ≡ k)
drop_by a k = (omega int_laws, omega int_laws)

shifted_on : (at s a b : ℤ) → a ≤ℤ s → b ≤ℤ a → at >>ℤ diff s a >>ℤ diff a b ≡ at >>ℤ diff s b
shifted_on at s a b h k = >>ℤ_>>ℤ at (diff s a) (diff a b) ∙ ap (λ (n : ℕ). at >>ℤ n) (omega arith)

pub coarser_on :
    (s a b : ℤ) (P : ℤ → Bool)
    → a ≤ℤ s
    → b ≤ℤ a
    → coarser (diff s a) (coarser (diff a b) P) ≡ coarser (diff s b) P
coarser_on s a b P h k =
    coarser-coarser (diff s a) (diff a b) P ∙ ap (λ (n : ℕ). coarser n P) (omega arith)

module _ {F : Type 0} where
  -- What one range gains, and the other does not, while the scale goes down.
  pub record Gains (h h' : ExpoHistogram F) (side : Side) (gain : (ℤ → Bool) → ℕ) : Type 0 where
    pub lower : h'.scale ≤ℤ h.scale
    pub mine :
        (P : ℤ → Bool)
        → tally P (range h' side) % word
          ≡ (tally (coarser (diff h.scale h'.scale) P) (range h side) + gain P) % word
    pub count_kept : h'.count ≡ h.count
    pub other :
        (P : ℤ → Bool)
        → tally P (range h' (other_side side)) % word
          ≡ tally (coarser (diff h.scale h'.scale) P) (range h (other_side side)) % word

  stays :
      (h : ExpoHistogram F) (side : Side) (gain : (ℤ → Bool) → ℕ)
      → ((P : ℤ → Bool) → gain P ≡ 0)
      → Gains h h side gain
  stays h side gain none = record {
    lower = omega arith;
    mine = λ P. rw (no_change h.scale P, none P) (omega arith);
    count_kept = refl;
    other = λ P. rw (no_change h.scale P) refl;
  }

  regain :
      (h h' : ExpoHistogram F) (side : Side) (gain gain' : (ℤ → Bool) → ℕ)
      → Gains h h' side gain
      → ((P : ℤ → Bool) → gain P ≡ gain' P)
      → Gains h h' side gain'
  regain h h' side gain gain' g e = record {
    lower = g.lower;
    mine = λ P. omega (arith, g.mine P, e P);
    count_kept = g.count_kept;
    other = g.other;
  }

  added :
      (h : ExpoHistogram F) (side : Side) (index : ℤ) (c : ℕ)
      → 0 < c
      → let h' = add_count h side index c in
        Gains h h' side (λ P. if P (index >>ℤ diff h.scale h'.scale) then c else 0)
  added h side index c some_count =
      let k = change_of h side index in
      let h' = add_count h side index c in
      let scale : h'.scale ≡ h.scale -ℤ pos k =
        (add_count-tally h index c side (λ i. true) some_count).2 in
      let (below, by_k) = drop_by h.scale k in
      let change : diff h.scale h'.scale ≡ k = ap (diff h.scale) scale ∙ by_k in
      record {
        lower = rw scale below;
        mine = λ P. rw change ((add_count-tally h index c side P some_count).0);
        count_kept = (add_count-tallied h side index c some_count).1;
        other = λ P. rw change ((add_count-tally h index c side P some_count).1);
      }

  after :
      (h h1 h2 : ExpoHistogram F) (side : Side) (g1 g2 : (ℤ → Bool) → ℕ)
      → Gains h h1 side g1
      → Gains h1 h2 side g2
      → Gains h h2 side (λ P. g1 (coarser (diff h1.scale h2.scale) P) + g2 P)
  after h h1 h2 side g1 g2 a b =
      let whole : diff h.scale h1.scale + diff h1.scale h2.scale ≡ diff h.scale h2.scale =
        omega (arith, a.lower, b.lower) in
      let through : (P : ℤ → Bool)
          → coarser (diff h.scale h1.scale) (coarser (diff h1.scale h2.scale) P)
            ≡ coarser (diff h.scale h2.scale) P =
        λ P.
          coarser-coarser (diff h.scale h1.scale) (diff h1.scale h2.scale) P
          ∙ ap (λ (n : ℕ). coarser n P) whole in
      record {
        lower = omega (arith, a.lower, b.lower);
        mine = λ P. omega (
          arith,
          b.mine P,
          a.mine (coarser (diff h1.scale h2.scale) P),
          ap (λ Q. tally Q (range h side)) (through P),
        );
        count_kept = b.count_kept ∙ a.count_kept;
        other = λ P. omega (
          arith,
          b.other P,
          a.other (coarser (diff h1.scale h2.scale) P),
          ap (λ Q. tally Q (range h (other_side side))) (through P),
        );
      }

  one_bucket :
      (h : ExpoHistogram F) (side : Side) (at : ℤ) (c : ℕ) (s : ℤ)
      → h.scale ≤ℤ s
      → let h' = if c == 0 then h else add_count h side (at >>ℤ diff s h.scale) c in
        Gains h h' side (λ P. if P (at >>ℤ diff s h'.scale) then c else 0)
  one_bucket h side at c s le = elim (Bool-cases (c == 0)) [
    | inl none ↦ rw none (stays h side _ (λ P. ground (arith, none)))
    | inr some_count ↦
        let index = at >>ℤ diff s h.scale in
        let h' = add_count h side index c in
        let g = added h side index c (ground (arith, some_count)) in
        rw some_count (
          regain h h' side _ _ g
            (λ P. ap (λ i. if P i then c else 0) (shifted_on at s h.scale h'.scale le g.lower)))
  ]

  replays :
      (h : ExpoHistogram F) (side : Side) (at : ℤ) (cs : List ℕ) (s : ℤ)
      → h.scale ≤ℤ s
      → let h' = replay_from h side at cs s in
        Gains h h' side (λ P. tally_from (coarser (diff s h'.scale) P) at cs)
  unfolding replay_from
  replays h side at [] s le = stays h side _ (λ P. refl)
  replays h side at (c ∷ cs) s le =
      let h1 : ExpoHistogram F = if c == 0 then h else add_count h side (at >>ℤ diff s h.scale) c in
      let first = one_bucket h side at c s le in
      let rest = replays h1 side (at +ℤ pos 1) cs s (omega (arith, first.lower, le)) in
      let h2 = replay_from h1 side (at +ℤ pos 1) cs s in
      regain h h2 side _ _ (after h h1 h2 side _ _ first rest) (λ P.
        ap (λ i. (if P i then c else 0) + tally_from (coarser (diff s h2.scale) P) (at +ℤ pos 1) cs)
          (shifted_on at s h1.scale h2.scale (omega (arith, first.lower, le)) rest.lower))

  -- Replaying a range with its indexes at the scale `s` into a histogram of no finer scale only
  -- lowers the scale. Behind it a test tallies, on that side, what the test of the coarser index
  -- tallied in the histogram and in the source, modulo 2^64, and on the other side only the former.
  pub replay-Gains :
      (h : ExpoHistogram F) (side : Side) (src : ExpoBuckets) (s : ℤ)
      → h.scale ≤ℤ s
      → let h' = replay h side src s in
        Gains h h' side (λ P. tally (coarser (diff s h'.scale) P) src)
  unfolding replay
  replay-Gains h side src s le = replays h side src.offset src.counts s le

  -- What a merge into a histogram adds up.
  pub record Merges (h h' src : ExpoHistogram F) : Type 0 where
    pub lower : h'.scale ≤ℤ h.scale
    pub sums :
        (side : Side) (P : ℤ → Bool)
        → tally P (range h' side) % word
          ≡ (tally (coarser (diff h.scale h'.scale) P) (range h side)
              + tally (coarser (diff src.scale h'.scale) P) (range src side))
            % word
    pub counts : h'.count ≡ add64 h.count src.count

module _ {F : Type 0} (f : Float64 F) where
  merge_in-Merges :
      (h src : ExpoHistogram F) → h.scale ≤ℤ src.scale → Merges h (merge_in f h src) src
  unfolding merge_in
  merge_in-Merges h src le =
      let h1 = replay h positive src.above src.scale in
      let h2 = replay h1 negative src.below src.scale in
      let g1 = replay-Gains h positive src.above src.scale le in
      let g2 = replay-Gains h1 negative src.below src.scale (omega (arith, g1.lower, le)) in
      let over_h : (P : ℤ → Bool)
          → coarser (diff h.scale h1.scale) (coarser (diff h1.scale h2.scale) P)
            ≡ coarser (diff h.scale h2.scale) P =
        λ P. coarser_on h.scale h1.scale h2.scale P g1.lower g2.lower in
      let over_src : (P : ℤ → Bool)
          → coarser (diff src.scale h1.scale) (coarser (diff h1.scale h2.scale) P)
            ≡ coarser (diff src.scale h2.scale) P =
        λ P. coarser_on src.scale h1.scale h2.scale P (omega (arith, g1.lower, le)) g2.lower in
      record {
        lower = omega (arith, g1.lower, g2.lower);
        sums = λ side.
            elim side
              as (λ side.
                (P : ℤ → Bool)
                → tally P (range h2 side) % word
                  ≡ (tally (coarser (diff h.scale h2.scale) P) (range h side)
                      + tally (coarser (diff src.scale h2.scale) P) (range src side))
                    % word) [
                      | positive ↦ λ P.
                          let Q = coarser (diff h1.scale h2.scale) P in
                          omega (
                            arith,
                            g2.other P,
                            g1.mine Q,
                            ap (λ R. tally R h.above) (over_h P),
                            ap (λ R. tally R src.above) (over_src P),
                          )
                      | negative ↦ λ P.
                          let Q = coarser (diff h1.scale h2.scale) P in
                          omega (arith, g2.mine P, g1.other Q, ap (λ R. tally R h.below) (over_h P))
                    ];
        counts = ap (λ (n : ℕ). add64 n src.count) (g2.count_kept ∙ g1.count_kept);
      }

  fresh_scale :
      (max_size : ℕ) (a b : ℤ)
      → expo_min_scale ≤ℤ a
      → expo_min_scale ≤ℤ b
      → ((new f max_size (min_ℤ a b)).scale ≤ℤ a) × ((new f max_size (min_ℤ a b)).scale ≤ℤ b)
  unfolding new
  fresh_scale max_size a b low_a low_b = (ground arith, ground arith)

  pub fresh_tally :
      (max_size : ℕ) (scale : ℤ) (side : Side) (P : ℤ → Bool)
      → (tally P (range (new f max_size scale) side) ≡ 0) × ((new f max_size scale).count ≡ 0)
  unfolding new
  fresh_tally max_size scale positive P = (refl, refl)
  fresh_tally max_size scale negative P = (refl, refl)

  -- The merge of two histograms is at a scale that is not above either. For both signs a test
  -- tallies in it what the tests of the coarser indexes tally in the two, and `count` is the sum,
  -- modulo 2^64: no observation is lost or moved to a wrong bucket.
  pub merge_expo_lem :
      (a b : ExpoHistogram F)
      → expo_min_scale ≤ℤ a.scale
      → expo_min_scale ≤ℤ b.scale
      → let m = merge_expo f a b in
        (m.scale ≤ℤ a.scale)
        × (m.scale ≤ℤ b.scale)
        × ((side : Side) (P : ℤ → Bool)
            → tally P (range m side) % word
              ≡ (tally (coarser (diff a.scale m.scale) P) (range a side)
                  + tally (coarser (diff b.scale m.scale) P) (range b side))
                % word)
        × (m.count ≡ add64 a.count b.count)
  unfolding merge_expo
  merge_expo_lem a b low_a low_b =
      let size = min a.max_size b.max_size in
      let h0 = new f size (min_ℤ a.scale b.scale) in
      let h1 = merge_in f h0 a in
      let m = merge_in f h1 b in
      let (under_a, under_b) = fresh_scale size a.scale b.scale low_a low_b in
      let first = merge_in-Merges h0 a under_a in
      let second = merge_in-Merges h1 b (omega (arith, first.lower, under_b)) in
      (
        omega (arith, first.lower, second.lower, under_a),
        omega (arith, first.lower, second.lower, under_b),
        λ side P.
            let Q = coarser (diff h1.scale m.scale) P in
            let (empty_range, _) =
              fresh_tally size (min_ℤ a.scale b.scale) side (coarser (diff h0.scale h1.scale) Q) in
            omega (
              arith,
              second.sums side P,
              first.sums side Q,
              empty_range,
              ap (λ R. tally R (range a side))
                  (coarser_on a.scale h1.scale m.scale P (omega (arith, first.lower, under_a))
                    second.lower),
            ),
        second.counts
            ∙ ap (λ (n : ℕ). add64 n b.count)
                (first.counts
                  ∙ ap (λ (n : ℕ). add64 n a.count)
                      (fresh_tally size (min_ℤ a.scale b.scale) positive (λ i. true)).1)
            ∙ omega arith,
      )
