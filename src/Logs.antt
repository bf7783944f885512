-- ===== src/Logs.antt =====
-- src/telemetry/processor/log_maker.rs and log_processor.rs: making log records.
pub mod Timestamp
pub mod Truncation
pub mod Json
pub mod Metadata
pub mod Records
