-- ===== src/Expo/Width.antt =====
-- How many buckets a range has behind `scaleChange`, `downscale` and `add`.
use stats.Base.{
  ℕ, zero, suc, ◌+◌, ◌-◌, ◌≤◌, ◌<◌, ◌≡◌, refl, sym, ap, subst, ◌∙◌, ◌⊎◌, inl, inr, true, false,
  Bool-cases, List, [], ◌∷◌, ◌++◌, arith, length, length-append, length-set, length-replicate,
  replicate, if◌then◌else◌, leb,
}
use stats.Base.Int.{ℤ, pos, negsuc, ◌+ℤ◌, +ℤ_parts, int_laws, ltb_ℤ}
use stats.Base.Shift.{◌>>ℤ◌, diff, >>ℤ_mono, >>ℤ_>>ℤ}
use stats.Expo.{
  ExpoBuckets, min_ℤ, max_ℤ, grow, add, regroup, downscale, change_loop, scale_change, lowest,
  highest, expo_min_scale,
}
use stats.Expo.Index.{min->>ℤ, max->>ℤ}
use stats.Expo.Adding.{buckets}

abbrev pub Settled : ℕ → ℕ → ℤ → ℤ → ℕ → Type 0
Settled max_size room low high k =
    (k ≤ room)
    × ((diff (high >>ℤ k) (low >>ℤ k) < max_size) ⊎ (k ≡ room))
    × ((j : ℕ) → j < k → max_size ≤ diff (high >>ℤ j) (low >>ℤ j))

pub >>ℤ_zero : (a : ℤ) → a >>ℤ 0 ≡ a
unfolding ◌>>ℤ◌
>>ℤ_zero (pos n) = ap pos (omega arith)
>>ℤ_zero (negsuc n) = ap negsuc (omega arith)

>>ℤ_suc : (a : ℤ) (k : ℕ) → a >>ℤ suc k ≡ a >>ℤ 1 >>ℤ k
>>ℤ_suc a k = ap (λ (t : ℕ). a >>ℤ t) (omega arith) ∙ sym (>>ℤ_>>ℤ a 1 k)

widest_before :
    (max_size : ℕ) (low high : ℤ) (k : ℕ)
    → max_size ≤ diff high low
    → ((j : ℕ) → j < k → max_size ≤ diff (high >>ℤ 1 >>ℤ j) (low >>ℤ 1 >>ℤ j))
    → (j : ℕ) → j < suc k
    → max_size ≤ diff (high >>ℤ j) (low >>ℤ j)
widest_before max_size low high k first rest zero h = rw (>>ℤ_zero high, >>ℤ_zero low) first
widest_before max_size low high k first rest (suc j) h =
    rw (>>ℤ_suc high j, >>ℤ_suc low j) (rest j (omega arith))

-- The loop stops at the first change whose span fits, or when there is no room left.
pub change_loop_lem :
    (max_size room : ℕ) (low high : ℤ) (change : ℕ)
    → (k : ℕ) × (change_loop max_size room low high change ≡ change + k)
      × Settled max_size room low high k
unfolding change_loop
change_loop_lem max_size zero low high change =
    (0, omega arith, (omega arith, inr refl, λ j h. absurd (omega arith)))
change_loop_lem max_size (suc room) low high change =
    elim (Bool-cases (leb max_size (diff high low))) [
      | inl wide ↦
          let (k, count, (le, ends, before)) =
            change_loop_lem max_size room (low >>ℤ 1) (high >>ℤ 1) (change + 1) in
          (
            suc k,
            ground (arith, count),
            (
              omega arith,
              rw (>>ℤ_suc high k, >>ℤ_suc low k) (omega (arith, ends)),
              widest_before max_size low high k (ground arith) before,
            ),
          )
      | inr narrow ↦ (
        0,
        rw narrow (omega arith),
        (
          omega arith,
          inl (rw (>>ℤ_zero high, >>ℤ_zero low) (ground arith)),
          λ j h. absurd (omega arith),
        ),
      )
    ]

-- A shift does not widen a span.
span_half : (a b : ℤ) → diff (a >>ℤ 1) (b >>ℤ 1) ≤ diff a b
unfolding ◌>>ℤ◌
span_half a b = ground arith

pub span_shift : (k : ℕ) (a b : ℤ) → diff (a >>ℤ k) (b >>ℤ k) ≤ diff a b
span_shift zero a b = rw (>>ℤ_zero a, >>ℤ_zero b) (omega arith)
span_shift (suc k) a b =
    rw (>>ℤ_suc a k, >>ℤ_suc b k) (omega (arith, span_half a b, span_shift k (a >>ℤ 1) (b >>ℤ 1)))

abbrev pub last_index : ℤ → List ℕ → ℤ
last_index offset cs = offset +ℤ pos (length cs - 1)

span_front :
    (offset index : ℤ) (n : ℕ)
    → ltb_ℤ index offset ≡ true
    → diff offset index + suc n ≡ diff (max_ℤ (offset +ℤ pos n) index) index + 1
span_front offset index n h = ground (arith, +ℤ_parts offset (pos n))

span_behind :
    (offset index : ℤ) (n : ℕ)
    → ltb_ℤ index offset ≡ false
    → (if leb (suc n) (diff index offset) then suc n + (diff index offset - suc n + 1) else suc n)
      ≡ diff (max_ℤ (offset +ℤ pos n) index) offset + 1
span_behind offset index n h = ground (arith, +ℤ_parts offset (pos n))

length-pad_front : (n : ℕ) (cs : List ℕ) → length (replicate n 0 ++ cs) ≡ n + length cs
length-pad_front n cs =
    length-append (replicate n 0) cs ∙ ap (λ (t : ℕ). t + length cs) (length-replicate n 0)

length-pad_behind : (cs : List ℕ) (n : ℕ) → length (cs ++ replicate n 0) ≡ length cs + n
length-pad_behind cs n =
    length-append cs (replicate n 0) ∙ ap (λ (t : ℕ). length cs + t) (length-replicate n 0)

length-grow :
    (offset : ℤ) (c : ℕ) (cs : List ℕ) (index : ℤ)
    → length (grow (buckets offset (c ∷ cs)) index).counts
      ≡ diff (max_ℤ (offset +ℤ pos (length cs)) index) (min_ℤ offset index) + 1
unfolding grow
length-grow offset c cs index =
    let more = diff index offset - length (c ∷ cs) + 1 in
    elim (Bool-cases (ltb_ℤ index offset)) [
      | inl front ↦ rw front (
          length-pad_front (diff offset index) (c ∷ cs) ∙ span_front offset index (length cs) front)
      | inr behind ↦ rw behind (
          ground
            (arith, length-pad_behind (c ∷ cs) more, span_behind offset index (length cs) behind))
    ]

abbrev span : ℤ → ℤ → ℤ → ℕ
span start last index = diff (max_ℤ last index) (min_ℤ start index) + 1

length-grow_any :
    (offset : ℤ) (cs : List ℕ) (index : ℤ)
    → 0 < length cs
    → length (grow (buckets offset cs) index).counts ≡ span offset (last_index offset cs) index
length-grow_any offset [] index h = absurd (omega arith)
length-grow_any offset (c ∷ cs) index h =
    length-grow offset c cs index
    ∙ ap (λ (t : ℕ). span offset (offset +ℤ pos t) index) (omega arith)

pub length-add :
    (b : ExpoBuckets) (index : ℤ) (count : ℕ)
    → 0 < length b.counts
    → length (add b index count).counts ≡ span b.offset (last_index b.offset b.counts) index
unfolding add
length-add b index count h =
    length-set (grow b index).counts _ _ ∙ length-grow_any b.offset b.counts index h

length-regroup :
    (k : ℕ) (offset at : ℤ) (cs out : List ℕ) → length (regroup k offset at cs out) ≡ length out
unfolding regroup
length-regroup k offset at [] out = refl
length-regroup k offset at (c ∷ cs) out =
    length-regroup k offset (at +ℤ pos 1) cs _ ∙ length-set out _ _

pub length-downscale :
    (k : ℕ) (offset : ℤ) (cs : List ℕ)
    → 0 < length cs
    → let b' = downscale k (buckets offset cs) in
      (b'.offset ≡ offset >>ℤ k)
      × (length b'.counts ≡ diff (last_index offset cs >>ℤ k) (offset >>ℤ k) + 1)
      × (last_index b'.offset b'.counts ≡ last_index offset cs >>ℤ k)
unfolding downscale
length-downscale k offset [] h = absurd (omega arith)
length-downscale k offset (c ∷ cs) h =
    let last = last_index offset (c ∷ cs) in
    let n = diff (last >>ℤ k) (offset >>ℤ k) + 1 in
    let size =
      length-regroup k (offset >>ℤ k) offset (c ∷ cs) (replicate n 0)
      ∙ length-replicate {A = ℕ} n 0 in
    let order = >>ℤ_mono offset last k (omega int_laws) in
    (refl, size, ap (λ (t : ℕ). (offset >>ℤ k) +ℤ pos (t - 1)) size ∙ omega int_laws)

-- The number of buckets when a range is made coarser by `k` and takes up the index.
pub length-add-downscale :
    (k : ℕ) (b : ExpoBuckets) (index : ℤ) (count : ℕ)
    → 0 < length b.counts
    → length (add (downscale k b) (index >>ℤ k) count).counts
      ≡ diff (highest b index >>ℤ k) (lowest b index >>ℤ k) + 1
length-add-downscale k b index count h =
    let (start, size, last) = length-downscale k b.offset b.counts h in
    length-add (downscale k b) (index >>ℤ k) count (omega arith)
    ∙ ap (λ t. span (downscale k b).offset t (index >>ℤ k)) last
    ∙ ap (λ t. span t (last_index b.offset b.counts >>ℤ k) (index >>ℤ k)) start
    ∙ sym (rw (max->>ℤ (last_index b.offset b.counts) index k, min->>ℤ b.offset index k) refl)

-- `scaleChange` settles the span of the range with the index.
pub scale_change_lem :
    (max_size : ℕ) (scale : ℤ) (offset : ℤ) (cs : List ℕ) (index : ℤ)
    → 0 < length cs
    → let b = buckets offset cs in
      Settled max_size
        (diff scale expo_min_scale)
        (lowest b index)
        (highest b index)
        (scale_change max_size scale b index)
unfolding scale_change
scale_change_lem max_size scale offset [] index h = absurd (omega arith)
scale_change_lem max_size scale offset (c ∷ cs) index h =
    let b = buckets offset (c ∷ cs) in
    let low = lowest b index in
    let high = highest b index in
    let room = diff scale expo_min_scale in
    let (k, found, settled) = change_loop_lem max_size room low high 0 in
    subst (Settled max_size room low high) (omega (arith, found)) settled

pub scale_change-empty :
    (max_size : ℕ) (scale offset : ℤ) (cs : List ℕ) (index : ℤ)
    → length cs ≡ 0
    → scale_change max_size scale (buckets offset cs) index ≡ 0
unfolding scale_change
scale_change-empty max_size scale offset [] index h = refl
scale_change-empty max_size scale offset (c ∷ cs) index h = absurd (omega arith)

pub length-add_empty :
    (offset : ℤ) (cs : List ℕ) (index : ℤ) (count : ℕ)
    → length cs ≡ 0
    → length (add (buckets offset cs) index count).counts ≡ 1
unfolding add grow
length-add_empty offset [] index count h = ground arith
length-add_empty offset (c ∷ cs) index count h = absurd (omega arith)

pub length-downscale_empty :
    (k : ℕ) (offset : ℤ) (cs : List ℕ)
    → length cs ≡ 0
    → length (downscale k (buckets offset cs)).counts ≡ 0
unfolding downscale
length-downscale_empty k offset [] h = refl
length-downscale_empty k offset (c ∷ cs) h = absurd (omega arith)
