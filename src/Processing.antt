-- ===== src/Processing.antt =====
-- src/telemetry: the state of processing and the events' handlers.
pub mod State
