-- ===== src/Buckets/Tests.antt =====
-- Bounds for names that end in one name.
use stats.Base.{ℕ, ◌≡◌, ◌≢◌, ◌⊎◌, refl, List, [], ◌∷◌, if◌then◌else◌}
use stats.Base.Text.{Bytes, same}
use stats.Samples.{bytes}
use stats.Buckets.{
  unprefixed_buckets_key, unprefixed_buckets, named_buckets, unprefixed_from, buckets_for,
}
use stats.Buckets.Suffixes.{IsSuffix, IsLongest, unprefixed_buckets-cases}

abbrev durations : Bytes → List ℕ
durations key =
    if same key (bytes "*.duration")
    then 1 ∷ 2 ∷ []
    else if same key (bytes "plain")
    then 7 ∷ []
    else []

-- A plain entry serves its own name, another one each name that ends in its name behind a point.
buckets_for_test :
    (buckets_for (5 ∷ []) durations [] (bytes "app.request.duration") ≡ 1 ∷ 2 ∷ [])
    × (buckets_for (5 ∷ []) durations (6 ∷ []) (bytes "app.plain") ≡ 6 ∷ [])
    × (buckets_for (5 ∷ []) durations [] (bytes "plain") ≡ 7 ∷ [])
    × (buckets_for (5 ∷ []) durations [] (bytes "requestduration") ≡ 5 ∷ [])
unfolding buckets_for named_buckets unprefixed_buckets unprefixed_from same
buckets_for_test = (refl, refl, refl, refl)

unprefixed_buckets-cases_example :
    let bounds = unprefixed_buckets durations (bytes "app.duration") in
    (bounds ≡ [])
      × ((s : Bytes)
          → IsSuffix (bytes "app.duration") s
          → durations (unprefixed_buckets_key s) ≡ [])
    ⊎ (s : Bytes) × IsSuffix (bytes "app.duration") s
      × (durations (unprefixed_buckets_key s) ≡ bounds)
      × (bounds ≢ [])
      × IsLongest durations (bytes "app.duration") s
unprefixed_buckets-cases_example = unprefixed_buckets-cases durations (bytes "app.duration")
