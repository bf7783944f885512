-- ===== src/Processor.antt =====
-- src/telemetry/processor/telemetry_processor.rs: the handling of single events.
pub mod Epsagon
pub mod Steps
pub mod Telemetry
pub mod Degraded
pub mod Outcomes
pub mod Errors
pub mod Items
pub mod Delay
pub mod Relations
pub mod Traces
pub mod Growth
pub mod Interface
