-- ===== src/Expo/Adding.antt =====
-- `add` and `downscale` of `expoBuckets`: where the counts are behind them.
use stats.Base.{
  ℕ, ◌+◌, ◌-◌, ◌%◌, ◌<◌, ◌≡◌, refl, ap, ◌∙◌, Bool, List, [], ◌∷◌, ◌++◌, arith, length,
  length-append, length-set, length-replicate, get_or, replicate, if◌then◌else◌,
}
use stats.Base.Int.{ℤ, pos, ◌+ℤ◌, ◌≤ℤ◌, int_laws}
use stats.Base.Word.{word, add64}
use stats.Base.Shift.{◌>>ℤ◌, diff, >>ℤ_mono}
use stats.Expo.{ExpoBuckets, bump, grow, add, regroup, downscale}
use stats.Expo.Tally.{
  tally, tally_from, tally_from-append, tally_from-noughts, tally_from-bump, next_place,
}

abbrev pub buckets : ℤ → List ℕ → ExpoBuckets
buckets offset counts = record { offset = offset; counts = counts }

-- `grow` makes a place for the index, in front of which or behind which it puts zeros only.
grow_place :
    (offset : ℤ) (cs : List ℕ) (index : ℤ)
    → let b' = grow (buckets offset cs) index in
      (b'.offset ≤ℤ index) × (diff index b'.offset < length b'.counts)
unfolding grow
grow_place offset [] index = omega arith
grow_place offset (c ∷ cs) index =
    let gap = diff offset index in
    let more = diff index offset - length (c ∷ cs) + 1 in
    ground (
      arith,
      length-append (replicate gap 0) (c ∷ cs),
      length-append (c ∷ cs) (replicate more 0),
      length-replicate {A = ℕ} gap 0,
      length-replicate {A = ℕ} more 0,
    )

pub back_to : (a b : ℤ) → a ≤ℤ b → a +ℤ pos (diff b a) ≡ b
back_to a b h = omega int_laws

tally-front :
    (P : ℤ → Bool) (offset index : ℤ) (cs : List ℕ)
    → index ≤ℤ offset
    → tally_from P index (replicate (diff offset index) 0 ++ cs) ≡ tally_from P offset cs
tally-front P offset index cs h =
    tally_from-append P index (replicate (diff offset index) 0) cs
    ∙ rw
        (
          tally_from-noughts P index (diff offset index),
          length-replicate {A = ℕ} (diff offset index) 0,
          back_to index offset h,
        )
        (omega arith)

tally-behind :
    (P : ℤ → Bool) (offset : ℤ) (cs : List ℕ) (n : ℕ)
    → tally_from P offset (cs ++ replicate n 0) ≡ tally_from P offset cs
tally-behind P offset cs n =
    tally_from-append P offset cs (replicate n 0)
    ∙ rw (tally_from-noughts P (offset +ℤ pos (length cs)) n) (omega arith)

tally-grow :
    (P : ℤ → Bool) (offset : ℤ) (cs : List ℕ) (index : ℤ)
    → tally P (grow (buckets offset cs) index) ≡ tally_from P offset cs
unfolding grow
tally-grow P offset [] index = ground arith
tally-grow P offset (c ∷ cs) index =
    let more = diff index offset - length (c ∷ cs) + 1 in
    ground (arith, tally-front P offset index (c ∷ cs), tally-behind P offset (c ∷ cs) more)

-- `add` raises the tallies of the tests that its index satisfies by the count, and no others.
pub tally-add :
    (P : ℤ → Bool) (b : ExpoBuckets) (index : ℤ) (count : ℕ)
    → tally P (add b index count) % word ≡ (tally P b + (if P index then count else 0)) % word
unfolding add
tally-add P b index count =
    let (low, inside) = grow_place b.offset b.counts index in
    let b' = grow b index in
    let place = tally_from-bump P b'.offset b'.counts (diff index b'.offset) count inside in
    let here = back_to b'.offset index low in
    rw (← tally-grow P b.offset b.counts index) (rw here at place)

-- The bucket that a count goes to is in the new range.
in_range :
    (offset first at last : ℤ) (k : ℕ)
    → offset ≡ first >>ℤ k
    → first ≤ℤ at
    → at ≤ℤ last
    → (offset ≤ℤ at >>ℤ k) × (diff (at >>ℤ k) offset < diff (last >>ℤ k) offset + 1)
in_range offset first at last k e low high =
    let below = >>ℤ_mono first at k low in let above = >>ℤ_mono at last k high in rw e (omega arith)

regroup_lem :
    (P : ℤ → Bool) (k : ℕ) (offset first last at : ℤ) (cs out : List ℕ)
    → offset ≡ first >>ℤ k
    → first ≤ℤ at
    → at +ℤ pos (length cs) ≤ℤ last +ℤ pos 1
    → length out ≡ diff (last >>ℤ k) offset + 1
    → tally_from P offset (regroup k offset at cs out) % word
      ≡ (tally_from P offset out + tally_from (λ i. P (i >>ℤ k)) at cs) % word
unfolding regroup
regroup_lem P k offset first last at [] out e low high size = omega arith
regroup_lem P k offset first last at (c ∷ cs) out e low high size =
    let i = diff (at >>ℤ k) offset in
    let high' : at +ℤ pos 1 +ℤ pos (length cs) ≤ℤ last +ℤ pos 1 =
      rw (next_place at (length cs)) high in
    let (above, inside) = in_range offset first at last k e low (omega int_laws) in
    let rest =
      regroup_lem P k offset first last (at +ℤ pos 1) cs (bump out i c) e (omega int_laws) high'
        (length-set out i (add64 (get_or out i 0) c) ∙ size) in
    let place = tally_from-bump P offset out i c (omega arith) in
    let here : offset +ℤ pos i ≡ at >>ℤ k = back_to offset (at >>ℤ k) above in
    omega (arith, rest, rw here at place)

tally-downscale_at :
    (P : ℤ → Bool) (k : ℕ) (offset : ℤ) (cs : List ℕ)
    → tally P (downscale k (buckets offset cs)) % word
      ≡ tally_from (λ i. P (i >>ℤ k)) offset cs % word
unfolding downscale
tally-downscale_at P k offset [] = refl
tally-downscale_at P k offset (c ∷ cs) =
    let last = offset +ℤ pos (length (c ∷ cs) - 1) in
    let n = diff (last >>ℤ k) (offset >>ℤ k) + 1 in
    let moved =
      regroup_lem P k (offset >>ℤ k) offset last offset (c ∷ cs) (replicate n 0) refl (omega arith)
        (omega int_laws) (length-replicate {A = ℕ} n 0) in
    moved ∙ ap (λ (t : ℕ). t % word) (omega (arith, tally_from-noughts P (offset >>ℤ k) n))

-- `downscale` by `k` moves every count to its index shifted by `k`, modulo 2^64: a test tallies
-- behind it what the test of the shifted index tallied before.
pub tally-downscale :
    (P : ℤ → Bool) (k : ℕ) (b : ExpoBuckets)
    → tally P (downscale k b) % word ≡ tally (λ i. P (i >>ℤ k)) b % word
tally-downscale P k b = tally-downscale_at P k b.offset b.counts
