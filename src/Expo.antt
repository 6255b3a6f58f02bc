-- ===== src/Expo.antt =====
-- exporters/otlp/exponential.go: the exponential histogram of the OTLP exporter.
-- Bucket indexes and scales are integers. Counts are uint64 and wrap. `h.positive` and `h.negative`
-- are updated in place in the source; here an update names its range by a `Side`.
pub mod Index
pub mod Tally
pub mod Width
pub mod Adding
pub mod Recording
pub mod Totals
pub mod Merging
pub mod Points
mod Tests
use stats.Base.{
  ℕ, zero, suc, ◌+◌, ◌-◌, ◌*◌, ◌^◌, max, min, ◌&&◌, Bool, true, false, ◌||◌, Option, none, some,
  List, [], ◌∷◌, ◌++◌, length, get_or, set, replicate, ltb, leb, ◌==◌, if◌then◌else◌,
}
use stats.Base.Int.{ℤ, pos, negsuc, ◌+ℤ◌, ◌-ℤ◌, ltb_ℤ, pos_part, neg_part}
use stats.Base.Shift.{◌>>ℤ◌, ◌<<ℤ◌, diff}
use stats.Base.Word.{add64}
use stats.Base.Float.{Float64}

abbrev pub min_ℤ : ℤ → ℤ → ℤ
min_ℤ a b = if ltb_ℤ b a then b else a

abbrev pub max_ℤ : ℤ → ℤ → ℤ
max_ℤ a b = if ltb_ℤ a b then b else a

abbrev pub expo_min_scale : ℤ
expo_min_scale = negsuc 9

abbrev pub expo_max_scale : ℤ
expo_max_scale = pos 20

abbrev pub expo_min_size : ℕ
expo_min_size = 2

-- counts[i] belongs to the bucket with index offset + i.
pub record ExpoBuckets : Type 0 where
  pub offset : ℤ
  pub counts : List ℕ

abbrev pub no_buckets : ExpoBuckets
no_buckets = record { offset = pos 0; counts = [] }

pub data Side : Type 0 where
  positive negative : Side

pub record ExpoHistogram (F : Type 0) : Type 0 where
  pub max_size : ℕ
  pub scale : ℤ
  pub count : ℕ
  pub zero_count : ℕ
  pub sum : F
  pub least : F
  pub greatest : F
  pub above : ExpoBuckets
  pub below : ExpoBuckets

-- `expoIndex`, from the significand and the exponent of the value. The power of two is frac = 1/2.
coarse_index : ℕ → ℤ → ℤ
coarse_index m exp = if m == 2 ^ 52 then exp -ℤ pos 1 -ℤ pos 1 else exp -ℤ pos 1

fine_index : (ℕ → ℕ → ℤ) → ℕ → ℤ → ℕ → ℤ
fine_index log2_ceil m exp s =
    let least = (exp -ℤ pos 1) <<ℤ s in
    if m == 2 ^ 52
    then least -ℤ pos 1
    else min_ℤ (max_ℤ (exp <<ℤ s +ℤ log2_ceil m s -ℤ pos 1) least) (exp <<ℤ s -ℤ pos 1)

index_at : (ℕ → ℕ → ℤ) → ℕ → ℤ → ℤ → ℤ
index_at log2_ceil m exp scale =
    if ltb_ℤ (pos 0) scale
    then fine_index log2_ceil m exp (pos_part scale)
    else coarse_index m exp >>ℤ neg_part scale

-- `counts[i] += count`.
abbrev pub bump : List ℕ → ℕ → ℕ → List ℕ
bump counts i count = set counts i (add64 (get_or counts i 0) count)

abbrev pub is_empty : List ℕ → Bool
is_empty [] = true
is_empty (c ∷ cs) = false

-- Growing the range to `index`. The `copy` into a longer zero slice puts zeros in front.
grow : ExpoBuckets → ℤ → ExpoBuckets
grow b index =
    if is_empty b.counts
    then record { offset = index; counts = 0 ∷ [] }
    else if ltb_ℤ index b.offset
    then record { offset = index; counts = replicate (diff b.offset index) 0 ++ b.counts }
    else if leb (length b.counts) (diff index b.offset)
    then record b { counts = b.counts ++ replicate (diff index b.offset - length b.counts + 1) 0 }
    else b

pub add : ExpoBuckets → ℤ → ℕ → ExpoBuckets
unfolding grow
add b index count =
    let b' = grow b index in record b' { counts = bump b'.counts (diff index b'.offset) count }

-- The loop of `downscale`: `at` is the index of the next source bucket.
regroup : ℕ → ℤ → ℤ → List ℕ → List ℕ → List ℕ
regroup change offset at [] out = out
regroup change offset at (c ∷ cs) out =
    regroup change offset (at +ℤ pos 1) cs (bump out (diff (at >>ℤ change) offset) c)

pub downscale : ℕ → ExpoBuckets → ExpoBuckets
unfolding regroup
downscale change b =
    if is_empty b.counts
    then b
    else (let offset = b.offset >>ℤ change in
        let last = (b.offset +ℤ pos (length b.counts - 1)) >>ℤ change in
        record {
          offset = offset;
          counts = regroup change offset b.offset b.counts (replicate (diff last offset + 1) 0);
        })

-- The loop of `scaleChange`. Its number `room` is `h.scale - change - expoMinScale`, so the test of
-- the scale is that it is not 0 yet.
pub change_loop : ℕ → ℕ → ℤ → ℤ → ℕ → ℕ
change_loop max_size zero low high change = change
change_loop max_size (suc room) low high change =
    if leb max_size (diff high low)
    then change_loop max_size room (low >>ℤ 1) (high >>ℤ 1) (change + 1)
    else change

abbrev pub lowest : ExpoBuckets → ℤ → ℤ
lowest b index = min_ℤ b.offset index

abbrev pub highest : ExpoBuckets → ℤ → ℤ
highest b index = max_ℤ (b.offset +ℤ pos (length b.counts - 1)) index

pub scale_change : ℕ → ℤ → ExpoBuckets → ℤ → ℕ
unfolding change_loop
scale_change max_size scale b index =
    if is_empty b.counts
    then 0
    else change_loop max_size (diff scale expo_min_scale) (lowest b index) (highest b index) 0

module _ {F : Type 0} where
  abbrev pub range : ExpoHistogram F → Side → ExpoBuckets
  range h positive = h.above
  range h negative = h.below

  abbrev pub set_range : ExpoHistogram F → Side → ExpoBuckets → ExpoHistogram F
  set_range h positive b = record h { above = b }
  set_range h negative b = record h { below = b }

  rescale : ℕ → ExpoHistogram F → ExpoHistogram F
  rescale change h = record h {
    scale = h.scale -ℤ pos change;
    above = downscale change h.above;
    below = downscale change h.below;
  }

  pub add_count : ExpoHistogram F → Side → ℤ → ℕ → ExpoHistogram F
  unfolding rescale
  add_count h side index count =
      let change = scale_change h.max_size h.scale (range h side) index in
      let h' = if ltb 0 change then rescale change h else h in
      let index' = if ltb 0 change then index >>ℤ change else index in
      if count == 0 then h else set_range h' side (add (range h' side) index' count)

module _ {F : Type 0} (f : Float64 F) where
  -- An int32 size that is not positive is 0 here.
  pub new : ℕ → ℤ → ExpoHistogram F
  new max_size max_scale = record {
    max_size = max max_size expo_min_size;
    scale = min_ℤ (max_ℤ max_scale expo_min_scale) expo_max_scale;
    count = 0;
    zero_count = 0;
    sum = f.nought;
    least = f.nought;
    greatest = f.nought;
    above = no_buckets;
    below = no_buckets;
  }

  pub expo_index : F → ℤ → ℤ
  unfolding index_at
  expo_index v scale = let (m, exp) = f.frexp v in index_at f.log2_ceil m exp scale

  -- The statements of `record` in front of its `switch`.
  count_in : ExpoHistogram F → F → ExpoHistogram F
  count_in h v = record h {
    least = if h.count == 0 || f.lt v h.least then v else h.least;
    greatest = if h.count == 0 || f.lt h.greatest v then v else h.greatest;
    count = add64 h.count 1;
    sum = f.add h.sum v;
  }

  pub record_value : ExpoHistogram F → F → ExpoHistogram F
  unfolding count_in
  record_value h v =
      let h' = count_in h v in
      if f.is_nan v || f.is_inf v
      then h
      else if f.lt f.nought v
      then add_count h' positive (expo_index v h'.scale) 1
      else if f.lt v f.nought
      then add_count h' negative (expo_index (f.neg v) h'.scale) 1
      else record h' { zero_count = add64 h'.zero_count 1 }
