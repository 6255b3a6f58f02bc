-- ===== src/OtlpConfig.antt =====
-- models/otlp_config.go: the validation of the configuration of the OTLP exporter.
-- The fields that are checked; whether an HTTP client or dial options are set is a test. The map of the bounds
-- by name is an association list, so that of several invalid entries the first one gives the error.
pub mod Checks
mod Tests
use stats.Base.{
  ℕ, zero, suc, ◌+◌, ◌*◌, Bool, true, false, ◌&&◌, ◌||◌, not, Option, none, some, List, [], ◌∷◌,
  if◌then◌else◌,
}
use stats.Base.Int.{ℤ, pos, negsuc, ltb_ℤ, eq_ℤ}
use stats.Base.Float.{Float64}
use stats.Base.Text.{Bytes, same}
use stats.Samples.{bytes}
use stats.Prometheus.Store.{valid_buckets}

pub data ConfigError : Type 0 where
  unsupported_temporality unsupported_compression negative_timeout : ConfigError
  invalid_buckets max_size_too_small max_scale_outside : ConfigError
  retry_initial retry_max retry_elapsed : ConfigError
  half_key_pair client_needs_http dial_needs_grpc no_endpoint unsupported_protocol : ConfigError

-- `OTLPExponentialHistogram`.
pub record ExponentialSettings : Type 0 where
  pub max_size : ℤ
  pub max_scale : ℤ

-- `OTLPRetry`, in nanoseconds.
pub record Retry : Type 0 where
  pub initial_interval : ℤ
  pub max_interval : ℤ
  pub max_elapsed_time : ℤ

pub record OtlpConfig (F : Type 0) : Type 0 where
  pub enabled : Bool
  pub endpoint : Bytes
  pub temporality : Bytes
  pub protocol : Bytes
  pub compression : Bytes
  pub export_timeout : ℤ
  pub histogram_buckets : Option (List F)
  pub buckets_by_name : List (Bytes × List F)
  pub retry : Option Retry
  pub exponential_histogram : Option ExponentialSettings
  pub client_cert_file : Bytes
  pub client_key_file : Bytes
  pub has_http_client : Bool
  pub has_dial_options : Bool

-- An `if` that returns an error, and what comes behind it.
unfoldable pub when : Bool → ConfigError → Option ConfigError
when true e = some e
when false e = none

infixr 3 ◌next◌
unfoldable pub ◌next◌ : Option ConfigError → Option ConfigError → Option ConfigError
none next rest = rest
(some e) next rest = some e

-- `Resolved`.
unfoldable pub resolved : ExponentialSettings → ExponentialSettings
resolved s = record {
  max_size = if eq_ℤ s.max_size (pos 0) then pos 160 else s.max_size;
  max_scale = if eq_ℤ s.max_scale (pos 0) then pos 20 else s.max_scale;
}

unfoldable pub validate_exponential : ExponentialSettings → Option ConfigError
unfolding resolved
validate_exponential s =
    let r = resolved s in
    when (ltb_ℤ r.max_size (pos 2)) max_size_too_small
    next when (ltb_ℤ r.max_scale (negsuc 9) || ltb_ℤ (pos 20) r.max_scale) max_scale_outside

unfoldable pub validate_retry : Retry → Option ConfigError
validate_retry r =
    when (not (ltb_ℤ (pos 0) r.initial_interval)) retry_initial
    next when (ltb_ℤ r.max_interval r.initial_interval) retry_max
    next when (not (ltb_ℤ (pos 0) r.max_elapsed_time)) retry_elapsed

unfoldable pub if_set : {X : Type 0} → Option X → (X → Option ConfigError) → Option ConfigError
if_set none check = none
if_set (some x) check = check x

abbrev pub is_blank : Bytes → Bool
is_blank s = same s []

module _ {F : Type 0} (f : Float64 F) where
  abbrev pub validate_each : List (Bytes × List F) → Option ConfigError
  validate_each [] = none
  validate_each ((name, bounds) ∷ rest) =
      when (not (valid_buckets f bounds)) invalid_buckets next validate_each rest

  unfoldable pub validate_histograms : OtlpConfig F → Option ConfigError
  unfolding validate_exponential
  validate_histograms c =
      if_set c.histogram_buckets (λ bounds. when (not (valid_buckets f bounds)) invalid_buckets)
      next validate_each c.buckets_by_name
      next if_set c.exponential_histogram validate_exponential

  -- The checks behind `Enabled`.
  abbrev pub validate_enabled : OtlpConfig F → Option ConfigError
  validate_enabled c =
      when
        (not (is_blank c.client_cert_file) && is_blank c.client_key_file
          || is_blank c.client_cert_file && not (is_blank c.client_key_file))
        half_key_pair
      next when (c.has_http_client && not (same c.protocol (bytes "http"))) client_needs_http
      next when (c.has_dial_options && same c.protocol (bytes "http")) dial_needs_grpc
      next when (is_blank c.endpoint) no_endpoint
      next when
          (not (
            is_blank c.protocol
            || same c.protocol (bytes "grpc")
            || same c.protocol (bytes "http")))
          unsupported_protocol

  -- `OTLPConfig.Validate`.
  unfoldable pub validate : OtlpConfig F → Option ConfigError
  unfolding validate_histograms validate_retry
  validate c =
      when
        (not (is_blank c.temporality)
          && not (same c.temporality (bytes "cumulative"))
          && not (same c.temporality (bytes "delta")))
        unsupported_temporality
      next when
          (not (
            is_blank c.compression
            || same c.compression (bytes "gzip")
            || same c.compression (bytes "none")))
          unsupported_compression
      next when (ltb_ℤ c.export_timeout (pos 0)) negative_timeout
      next validate_histograms c
      next if_set c.retry validate_retry
      next (if c.enabled then validate_enabled c else none)
