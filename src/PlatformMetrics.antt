-- ===== src/PlatformMetrics.antt =====
-- src/telemetry/processor/platform_metrics: the metrics that the exporter makes itself.
pub mod Instruments
pub mod Counter
pub mod Summary
pub mod MaxGauge
pub mod V1
pub mod V2
pub mod Mode
pub mod Reporting
