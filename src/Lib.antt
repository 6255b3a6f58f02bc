-- ===== src/Lib.antt =====
-- Models of the metrics library: the core of its recording path and of its exporters, and what is
-- proved of it.
--
-- An observation whose tags are valid and whose series is within the limit (cardinality.go)
-- becomes a metric (models/metric.go) that the pipeline (pipeline.go) puts into the lock-free
-- ring buffer (transport/buffer.go), from which workers take it in batches and hand it to the
-- exporters; a flush drains the buffer (drain.go). A writer buffer (exporters/buffer.go) collects
-- the lines of the DogStatsD serializer (serializers/dogstatsd.go) for a socket, and the test
-- server (statstest) parses them. The Prometheus handler (exporters/prometheus) keeps cumulative
-- series for a scrape. A backend stands behind a circuit breaker (transport/circuit.go), which
-- cuts it off while it fails. The OTLP exporter can aggregate observations into exponential
-- histograms (exporters/otlp/exponential.go).
--
-- Where things are:
--
-- - Base: names of the standard library, Boolean tests, lists measured by native numbers,
--   integers, shifts, machine words, and the operations of `float64` that are parameters
--   (Base/Float).
-- - Queue: the bounded first-in first-out queue that the ring promises.
-- - Ring: transport/buffer.go, one function for each method (`push` for `Push`,
--   `push_drop_oldest` for `PushDropOldest`, `pop` for `Pop` and `TryPop`, `pop_batch` for
--   `PopBatch`). `Ring.Invariant.Holds` says when a ring holds a queue; Capacity, Fresh, Refine,
--   Evict, Release and Runs prove what the methods do to it.
-- - Circuit: transport/circuit.go, one function for each method (`allow_request` for
--   `allowRequest`, and so on). Graph has the transition diagram, Invariant what holds between
--   events, Admission who gets through.
-- - Cardinality: cardinality.go (`reserve`, `commit` and `release` for what `admit`, `commit` and
--   `release` do to the series of a name, `valid_tag_key` for `validTagKey`). TagKey has the
--   grammar of keys, Series the maps, Limit the admissions in flight.
--
-- - Metric: models/metric.go, the metric and `EstimateSize`.
--
-- - Pipeline: pipeline.go and drain.go (`enqueue`, `append_popped`, `process_batch` for
--   `processBatchWith`, `drain`). Buffer is the interface that it uses of its buffer, and the
--   ring as an implementation; Memory and Drain use only the laws of the interface.
--
-- - Taskstats: runtimemetrics/taskstats_parse.go (`find_attr` for `findAttr`, `find_reply` for
--   `findReply`, and so on). Total is about the loops, Attributes about the layout of the kernel.
--
-- - WriterBuffer: exporters/buffer.go (`handle`, `flush`, `export` for `Handle`, `Flush`,
--   `Export`). Lines is about what is written.
--
-- - RateLimit: ratelimit.go (`allow`, `allow_n`, `wait`, `limiter_stats` for `Allow`, `AllowN`,
--   `Wait`, `Stats`).
--
-- - Exporters: exporters/multi.go and exporters/filtered.go, exporters made of others.
--
-- - Dogstatsd: statstest/dogstatsd_parse.go (`parse_metric` for `parseDogStatsDMetric`; Event has
--   `parse_event` for `parseDogStatsDEvent`, Datagram `dispatch_datagram`),
--   statstest/dogstatsd_format.go in Format, and serializers/dogstatsd.go and dogstatsd_event.go
--   in Serializer. Sections, Metrics, Packets and Batches are about lines of metrics, Escapes,
--   Fields, Events, EventPackets and Reparse about events, Panics about lengths that overflow.
--   Base/Text and Base/Decimal model the functions of Go's `strings` and `strconv` that these
--   use.
--
-- - Prometheus: exporters/prometheus/exposition.go; Registry has exposition_registry.go, Store
--   store.go (`observe`, `export_metrics`, `snapshot` for `observe`, `Export`, `snapshot`), Write
--   exposition_write.go. Names and Labels are about what is exposed, Registry/Disjoint about the
--   names of families, Store/Keys, Store/Observation, Store/Buckets and Store/Scrape about the
--   store. Base/Utf8 has the runes of a string.
--
-- - Samples: the bytes of a literal, and data for the tests.
--
-- - Otlp: exporters/otlp/accumulator.go and reexport.go (`point_time`, `add_histogram`,
--   `append_unobserved` for `pointTime`, `addHistogram`, `appendUnobserved`); Accumulate has the
--   steps of an export (`sum_point`, `histogram_point`, `exponential_point`, `gauge_point`,
--   `unobserved` and `accumulate`). Points, Totals and Times are about sums and times, Kinds
--   about series that change their kind. Base/Assoc is a Go map as an association list.
--
-- - Buckets: models/otlp_config.go, the bounds for a name (`buckets_for`, `named_buckets`,
--   `unprefixed_buckets` for `BucketsFor`, `NamedBuckets`, `unprefixedBuckets`); Suffixes is
--   about the entry that is taken. Otlp/Histograms has exporters/otlp/histogram.go
--   (`explicit_histograms`), Otlp/Histograms/Counts is about what it counts.
--
-- - OtlpConfig: models/otlp_config.go, the validation of the configuration (`validate`,
--   `validate_histograms`, `resolved` for `Validate`, `validateHistograms`, `Resolved`);
--   OtlpConfig/Checks is about what passes it.
--
-- - Expo: exporters/otlp/exponential.go (`record_value` for `record`, `add_count` for `addCount`,
--   `expo_index` for `expoIndex`). Index is about the bucket of a value, Tally and Adding about
--   where the counts are, Width about the number of buckets, Recording and Totals about the
--   histogram, Merging about exporters/otlp/exponential_merge.go, Points about the data points.
--
-- Loops on atomics run on fuel: a round that another goroutine spoils is tried again. With no
-- other goroutine one round is enough, which the theorems show by giving a result for every fuel
-- but 0. Every other loop is structural; `scaleChange` counts the room above scale -10 down.
--
-- Counters and positions of the ring wrap at 2^64 and the counts of the breaker at 2^32, as they
-- do in Go. An `int` of the exponential histogram is an unbounded integer. Times are numbers of
-- nanoseconds that the caller reads.
--
-- Not modelled: network and file access, the HTTP, network and runtime collectors, configuration
-- from the environment, the OTel SDK, and the interleaving of goroutines inside one method.
pub mod Base
pub mod Buckets
pub mod Cardinality
pub mod Circuit
pub mod Dogstatsd
pub mod Expo
pub mod Exporters
pub mod Metric
pub mod Otlp
pub mod OtlpConfig
pub mod Pipeline
pub mod Prometheus
pub mod Queue
pub mod RateLimit
pub mod Ring
pub mod Samples
pub mod Taskstats
pub mod WriterBuffer
