-- ===== src/Examples.antt =====
-- The theorems at concrete inputs.
mod Metrics
mod Senders
mod Records
mod Service
mod Settings
mod Spans
mod Processor
mod Endings
