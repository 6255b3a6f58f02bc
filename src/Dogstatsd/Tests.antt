-- ===== src/Dogstatsd/Tests.antt =====
-- The theorems at lines of metrics and events.

use stats.Base.{
  ℕ, ◌+◌, ◌-◌, ◌^◌, ◌<◌, ◌≡◌, ◌≢◌, refl, Bool, true, false, Option, none, some, List, [], ◌∷◌, ◌++◌,
  length, drop, ltb, ◌==◌, ==_iff, arith, All, inl, inr,
}
use stats.Base.Int.{pos}
use stats.Base.Text.{Bytes, before, after, split, same, has_prefix}
use stats.Base.Decimal.{
  format_nat, unsigned, unsigned-format_nat, format_nat-IsDigit, IsDigit, parse_int,
}
use stats.Samples.{bytes, naturals, decimals, exact}
use stats.Metric.{Metric, histogram}
use stats.Dogstatsd.{WireMetric, WireEvent, Time, zero_time, parse_metric}
use stats.Dogstatsd.Event.{Outcome, ok, rejected, panics, parse_event, cut_header}
use stats.Dogstatsd.Format.{format_metric, format_event}
use stats.Dogstatsd.Serializer.{
  Serializer, DatadogEvent, new_serializer, with_tag_filters, with_distribution_prefixes,
  serialize_metric, serialize_event,
}
use stats.Dogstatsd.Metrics.{reparse_metric}
use stats.Dogstatsd.Events.{IsWireEvent}
use stats.Dogstatsd.EventPackets.{wire_event, serialize_event-format_event}
use stats.Dogstatsd.Reparse.{reparse_event}

abbrev requests : WireMetric ℕ
requests = record {
  name = bytes "requests";
  value = 5;
  type = bytes "c";
  tags = bytes "env:dev" ∷ bytes "host" ∷ [];
  sample_rate = 1;
}

requests_test :
    parse_metric naturals decimals (bytes "requests:5|c|x|#env:dev,,host") ≡ some requests
unfolding parse_metric before after split unsigned stats.Dogstatsd.split_tags
requests_test = refl

reparse_metric_example :
    parse_metric naturals decimals (format_metric naturals decimals requests) ≡ some requests
reparse_metric_example =
    reparse_metric naturals decimals exact (bytes "requests:5|c|x|#env:dev,,host") requests
      requests_test

-- The tag "secret" is filtered, and names with the prefix "lat" are distributions.
abbrev serializer : Serializer
serializer = record {
  global_tags = bytes "env:dev" ∷ [];
  distributions = false;
  distribution_prefixes = bytes "lat" ∷ [];
  filters = bytes "secret" ∷ [];
}

serializer_test :
    new_serializer
      (bytes "env:dev" ∷ [])
      (with_distribution_prefixes (bytes "lat" ∷ []) ∷ with_tag_filters (bytes "secret" ∷ []) ∷ [])
    ≡ serializer
unfolding new_serializer
serializer_test = refl

abbrev latency : Metric ℕ Bytes
latency = record {
  name = bytes "latency";
  type = histogram;
  value = 20;
  attributes = (bytes "secret", bytes "x") ∷ (bytes "route", bytes "home") ∷ [];
  timestamp = none;
  priority = pos 0;
  trace_id = [];
  span_id = [];
  description = [];
  unit = [];
}

latency_test :
    serialize_metric (λ v. v) decimals serializer latency ≡ bytes "latency:20|d|#env:dev,route:home"
unfolding serialize_metric stats.Dogstatsd.Serializer.write_tags
    stats.Dogstatsd.Serializer.write_globals stats.Dogstatsd.Serializer.write_attrs
    stats.Dogstatsd.Serializer.filtered stats.Dogstatsd.Serializer.is_distribution same has_prefix
    before format_nat
latency_test = refl

abbrev deploy : DatadogEvent Bytes
deploy = record {
  title = bytes "deploy";
  text = bytes "a\nb";
  timestamp = record { unix = pos 90; nanos = 7 };
  host = bytes "h1";
  priority = bytes "low";
  alert_type = [];
  aggregation_key = [];
  source_type_name = [];
  tags = (bytes "secret", bytes "x") ∷ [];
}

deploy_test :
    serialize_event (λ v. v) serializer deploy
    ≡ bytes "_e{6,4}:deploy|a\\nb|d:90|h:h1|p:low|#env:dev"
unfolding serialize_event stats.Dogstatsd.Serializer.write_tags
    stats.Dogstatsd.Serializer.write_globals stats.Dogstatsd.Serializer.write_attrs
    stats.Dogstatsd.Serializer.filtered same before stats.Dogstatsd.Format.escape
    stats.Base.Decimal.format_int format_nat
deploy_test = refl

serialize_event-format_event_example :
    serialize_event (λ v. v) serializer deploy
    ≡ format_event (wire_event (λ v. v) serializer deploy)
serialize_event-format_event_example = serialize_event-format_event (λ v. v) serializer deploy

deploy-IsWireEvent : IsWireEvent (wire_event (λ (v : Bytes). v) serializer deploy)
unfolding stats.Dogstatsd.Serializer.filtered same before
deploy-IsWireEvent = record {
  titled = refl;
  title = ground arith;
  text = ground arith;
  fields = record {
    seconds = omega arith;
    host = omega arith;
    priority = omega arith;
    alert_type = tt;
    aggregation_key = tt;
    source_type_name = tt;
    tags = ((refl, omega arith, omega arith), tt);
  };
}

abbrev crash : WireEvent
crash = record {
  title = bytes "down";
  text = [];
  timestamp = zero_time;
  host = [];
  priority = [];
  alert_type = bytes "error";
  aggregation_key = [];
  source_type_name = [];
  tags = [];
}

crash_test : parse_event (bytes "_e{4,0}:down||t:error|z") ≡ ok crash
unfolding parse_event cut_header before after split has_prefix parse_int
    stats.Dogstatsd.Event.set_fields stats.Dogstatsd.Event.set_field stats.Dogstatsd.Event.unescape
    stats.Dogstatsd.Event.with_header stats.Dogstatsd.Event.with_lengths
crash_test = refl

reparse_event_example : parse_event (format_event crash) ≡ ok crash
unfolding stats.Dogstatsd.Format.escape
reparse_event_example =
    reparse_event (bytes "_e{4,0}:down||t:error|z") crash crash_test (omega arith)

panic_test : parse_event (bytes "_e{9223372036854775807,1}:a|b") ≡ panics
unfolding parse_event cut_header before after has_prefix parse_int stats.Dogstatsd.Event.with_header
    stats.Dogstatsd.Event.with_lengths
panic_test = refl
