-- ===== src/Buckets.antt =====
-- models/otlp_config.go: the bounds of the buckets of a histogram, by the name of its metric.
-- The map from names to bounds is a function, that gives no bounds for a missing key; an empty list of bounds counts as none.
pub mod Suffixes
mod Tests
use stats.Base.{Bool, true, false, Option, none, some, List, [], ◌∷◌, ◌==◌, if◌then◌else◌}
use stats.Base.Text.{Bytes}

-- `UnprefixedBucketsKey`.
abbrev pub unprefixed_buckets_key : Bytes → Bytes
unprefixed_buckets_key name = b'*' ∷ b'.' ∷ name

module _ {F : Type 0} where
  abbrev pub or_else : List F → List F → List F
  or_else [] others = others
  or_else (b ∷ bs) others = b ∷ bs

  -- The loop of `unprefixedBuckets`; the first argument says whether a name starts here.
  unfoldable pub unprefixed_from : (Bytes → List F) → Bool → Bytes → List F
  unprefixed_from by_name true [] = by_name (unprefixed_buckets_key [])
  unprefixed_from by_name false [] = []
  unprefixed_from by_name true (c ∷ name) =
      or_else (by_name (unprefixed_buckets_key (c ∷ name)))
        (unprefixed_from by_name (c == b'.') name)
  unprefixed_from by_name false (c ∷ name) = unprefixed_from by_name (c == b'.') name

  unfoldable pub unprefixed_buckets : (Bytes → List F) → Bytes → List F
  unfolding unprefixed_from
  unprefixed_buckets by_name name = unprefixed_from by_name true name

  abbrev some_bounds : List F → Option (List F)
  some_bounds [] = none
  some_bounds (b ∷ bs) = some (b ∷ bs)

  -- `NamedBuckets`.
  unfoldable pub named_buckets : (Bytes → List F) → Bytes → Option (List F)
  unfolding unprefixed_buckets
  named_buckets by_name name =
      some_bounds (or_else (by_name name) (unprefixed_buckets by_name name))

  abbrev pub or_global : List F → List F → Option (List F) → List F
  or_global default_buckets global none = or_else global default_buckets
  or_global default_buckets global (some bounds) = bounds

  -- `BucketsFor`, with the bounds of `DefaultHistogramBuckets`.
  unfoldable pub buckets_for : List F → (Bytes → List F) → List F → Bytes → List F
  unfolding named_buckets
  buckets_for default_buckets by_name global name =
      or_global default_buckets global (named_buckets by_name name)
