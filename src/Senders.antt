-- ===== src/Senders.antt =====
-- src/coralogix, src/firehose and src/telemetry/telemetry_sender.rs: sending batches of telemetry.
pub mod Errors
pub mod Retry
pub mod Conservation
pub mod Pillars
pub mod Composite
