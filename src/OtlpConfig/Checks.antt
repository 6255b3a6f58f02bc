-- ===== src/OtlpConfig/Checks.antt =====
-- What a configuration that passes the checks promises.
use stats.Base.{◌≡◌, ◌⊎◌, refl, true, false, Option, none, some, [], All, if◌then◌else◌}
use stats.Base.Int.{pos, negsuc, ltb_ℤ, ◌≤ℤ◌}
use stats.Base.Float.{Float64}
use stats.Base.Text.{Bytes}
use stats.Samples.{bytes}
use stats.Prometheus.Store.{valid_buckets}
use stats.OtlpConfig.{
  ConfigError, ExponentialSettings, Retry, OtlpConfig, ◌next◌, resolved, is_blank,
}

-- Empty or one of two words.
abbrev pub IsWord : Bytes → Bytes → Bytes → Type 0
IsWord s a b = (s ≡ []) ⊎ (s ≡ a) ⊎ (s ≡ b)

abbrev pub IsExponential : ExponentialSettings → Type 0
IsExponential s =
    let r = resolved s in
    (pos 2 ≤ℤ r.max_size) × (negsuc 9 ≤ℤ r.max_scale) × (r.max_scale ≤ℤ pos 20)

-- Intervals that are positive and do not shrink.
abbrev pub IsRetry : Retry → Type 0
IsRetry r =
    (ltb_ℤ (pos 0) r.initial_interval ≡ true)
    × (r.initial_interval ≤ℤ r.max_interval)
    × (ltb_ℤ (pos 0) r.max_elapsed_time ≡ true)

abbrev pub IfSet : {X : Type 0} → Option X → (X → Type 0) → Type 0
IfSet none P = Unit
IfSet (some x) P = P x

split : {a b : Option ConfigError} → (a next b) ≡ none → (a ≡ none) × (b ≡ none)
unfolding ◌next◌
split {a = none} h = (refl, h)
split {a = some e} h = absurd cc

-- An endpoint, a known protocol or none, and a client certificate with its key or neither.
abbrev pub IsEnabled : {F : Type 0} → OtlpConfig F → Type 0
IsEnabled c =
    (is_blank c.endpoint ≡ false)
    × IsWord c.protocol (bytes "grpc") (bytes "http")
    × (is_blank c.client_cert_file ≡ is_blank c.client_key_file)

module _ {F : Type 0} (f : Float64 F) where
  -- The bounds, the exponential settings with their defaults, the retry policy and the words.
  abbrev pub IsValid : OtlpConfig F → Type 0
  IsValid c =
      IsWord c.temporality (bytes "cumulative") (bytes "delta")
      × IsWord c.compression (bytes "gzip") (bytes "none")
      × (pos 0 ≤ℤ c.export_timeout)
      × IfSet c.histogram_buckets (λ bounds. valid_buckets f bounds ≡ true)
      × All (λ (name, bounds). valid_buckets f bounds ≡ true) c.buckets_by_name
      × IfSet c.exponential_histogram IsExponential
      × IfSet c.retry IsRetry
      × (if c.enabled then IsEnabled c else Unit)
