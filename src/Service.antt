-- ===== src/Service.antt =====
-- src/telemetry/telemetry_service.rs: the service that joins the invocations with their telemetry.
pub mod Wrappers
pub mod State
pub mod Queue
pub mod Rounds
pub mod Order
pub mod Sending
pub mod Signals
pub mod Deadlines
pub mod Reachable
pub mod Counts
pub mod Growth
pub mod Lifecycle
