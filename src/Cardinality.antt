-- ===== src/Cardinality.antt =====
-- cardinality.go: validation of tags, and the limit on the series of a metric name.
-- A string is the list of its bytes. An attribute set of the OTel library, as a map key, is a
-- parameter with its equality.
pub mod TagKey
pub mod Series
pub mod Limit
mod Tests
use stats.Base.{
  ℕ, zero, suc, ◌+◌, ◌-◌, Bool, true, false, ◌&&◌, ◌||◌, not, Option, none, some, List, [], ◌∷◌,
  ◌++◌, ltb, leb, ◌==◌, if◌then◌else◌,
}
use stats.Base.Word.{add64}

abbrev pub is_letter : ℕ → Bool
is_letter c = c == 95 || (leb 97 c && leb c 122) || (leb 65 c && leb c 90)

abbrev pub is_digit : ℕ → Bool
is_digit c = leb 48 c && leb c 57

-- The loop of `validTagKey` at index `i`.
valid_from : ℕ → ℕ → List ℕ → Bool
valid_from i segment_start [] = ltb segment_start i
valid_from i segment_start (c ∷ cs) =
    if is_letter c
    then valid_from (suc i) segment_start cs
    else if is_digit c && ltb segment_start i
    then valid_from (suc i) segment_start cs
    else if c == 46 && ltb segment_start i
    then valid_from (suc i) (suc i) cs
    else false

pub valid_tag_key : List ℕ → Bool
unfolding valid_from
valid_tag_key key = valid_from 0 0 key

-- `admitKeys`: whether it returns nil. An attribute is its key and a value.
pub admit_keys : {V : Type 0} → List (List ℕ × V) → Bool
admit_keys [] = true
admit_keys ((key, value) ∷ attrs) = if valid_tag_key key then admit_keys attrs else false

pub data DropReason : Type 0 where
  label_limit series_limit : DropReason

-- The counters of `cardinalityLimiter`.
pub record Drops : Type 0 where
  pub pending_labels : ℕ
  pub pending_series : ℕ
  pub total : ℕ

pub drop : Drops → DropReason → ℕ → Drops
drop d label_limit n = record d {
  pending_labels = add64 d.pending_labels n;
  total = add64 d.total n;
}
drop d series_limit n = record d {
  pending_series = add64 d.pending_series n;
  total = add64 d.total n;
}

abbrev counter_of : DropReason → ℕ → List (DropReason × ℕ)
counter_of reason n = if n == 0 then [] else (reason, n) ∷ []

-- The observations that `appendDropCounters` appends to a batch.
pub take_drop_counters : Drops → List (DropReason × ℕ) × Drops
take_drop_counters d = (
  counter_of label_limit d.pending_labels ++ counter_of series_limit d.pending_series,
  record d { pending_labels = 0; pending_series = 0 },
)

-- `metricSeries`. `reserved` is a Go map: a missing key reads as 0.
pub record MetricSeries (K : Type 0) : Type 0 where
  pub admitted : List K
  pub count : ℕ
  pub reserved : List (K × ℕ)

module _ {K : Type 0} (same : K → K → Bool) where
  abbrev pub has : K → List K → Bool
  has k [] = false
  has k (x ∷ xs) = same k x || has k xs

  abbrev pub value_at : K → List (K × ℕ) → ℕ
  value_at k [] = 0
  value_at k ((x, n) ∷ m) = if same k x then n else value_at k m

  -- `m[k] = n`
  abbrev pub put : K → ℕ → List (K × ℕ) → List (K × ℕ)
  put k n [] = (k, n) ∷ []
  put k n ((x, i) ∷ m) = if same k x then (x, n) ∷ m else (x, i) ∷ put k n m

  abbrev pub remove : K → List (K × ℕ) → List (K × ℕ)
  remove k [] = []
  remove k ((x, i) ∷ m) = if same k x then m else (x, i) ∷ remove k m

  abbrev pub store : K → List K → List K
  store k ks = if has k ks then ks else k ∷ ks

  unreserve : MetricSeries K → K → MetricSeries K
  unreserve s k =
      let n = value_at k s.reserved - 1 in
      record s { reserved = if n == 0 then remove k s.reserved else put k n s.reserved }

  -- What `admit` does to the series of a name: whether an admission holds a reserved slot, or
  -- `none` for `ErrCardinalityLimit`.
  pub reserve : ℕ → MetricSeries K → K → Option Bool × MetricSeries K
  reserve limit s k =
      if has k s.admitted
      then (some false, s)
      else if value_at k s.reserved == 0
      then if leb limit s.count
        then (none, s)
        else (some true, record s { count = s.count + 1; reserved = put k 1 s.reserved })
      else (some true, record s { reserved = put k (value_at k s.reserved + 1) s.reserved })

  pub commit : MetricSeries K → K → MetricSeries K
  unfolding unreserve
  commit s k = unreserve (record s { admitted = store k s.admitted }) k

  pub release : MetricSeries K → K → MetricSeries K
  unfolding unreserve
  release s k =
      let s' = unreserve s k in
      if not (has k s'.admitted) && value_at k s'.reserved == 0
      then record s' { count = s'.count - 1 }
      else s'
