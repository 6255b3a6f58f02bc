-- ===== src/OtlpConfig/Tests.antt =====
-- A configuration that passes, and ones that do not.
use stats.Base.{ℕ, ◌≡◌, refl, true, false, none, some, [], ◌∷◌}
use stats.Base.Int.{pos, negsuc}
use stats.Base.Text.{same}
use stats.Samples.{bytes, naturals}
use stats.OtlpConfig.{
  OtlpConfig, unsupported_temporality, max_size_too_small, no_endpoint, when, ◌next◌, if_set,
  resolved, validate_exponential, validate_retry, validate_histograms, validate,
}

abbrev exporting : OtlpConfig ℕ
exporting = record {
  enabled = true;
  endpoint = bytes "localhost:4317";
  temporality = bytes "delta";
  protocol = [];
  compression = bytes "gzip";
  export_timeout = pos 0;
  histogram_buckets = none;
  buckets_by_name = (bytes "size", 1 ∷ 10 ∷ []) ∷ [];
  retry =
      some (record { initial_interval = pos 1; max_interval = pos 5; max_elapsed_time = pos 9 });
  exponential_histogram = some (record { max_size = pos 0; max_scale = negsuc 9 });
  client_cert_file = [];
  client_key_file = [];
  has_http_client = false;
  has_dial_options = false;
}

refused_test :
    (validate naturals (record exporting { temporality = bytes "gauge" })
      ≡ some unsupported_temporality)
    × (validate naturals (record exporting { endpoint = [] }) ≡ some no_endpoint)
    × (validate naturals (record exporting { endpoint = []; enabled = false }) ≡ none)
    × (validate naturals (record exporting {
      exponential_histogram = some (record { max_size = pos 1; max_scale = pos 0 });
    })
        ≡ some max_size_too_small)
unfolding validate validate_histograms validate_retry validate_exponential resolved when ◌next◌
    if_set same
refused_test = (refl, refl, refl, refl)
