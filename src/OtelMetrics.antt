-- ===== src/OtelMetrics.antt =====
-- src/telemetry/otel_metrics.rs: the accumulator of the metrics that the function emits.
pub mod TimeSeriesId
pub mod TimeSeries
pub mod Inflation
pub mod Gaps
pub mod Deduplication
pub mod DataPoints
pub mod Accumulator
pub mod Exports
