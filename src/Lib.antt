-- ===== src/Lib.antt =====
-- The Coralogix telemetry exporter for AWS Lambda: an extension that gathers the logs, spans and
-- metrics of a lambda function and of its platform, and sends them to Coralogix.
--
-- Parts, and the files that model them (paths from the repository's root):
--   src/telemetry/otel_metrics.rs: the metrics that the function itself produces are gathered by metric
--     and by time series, points that bring no change are dropped, and an export injects the points
--     that a rate needs. OtelMetrics/TimeSeries holds one series, OtelMetrics/TimeSeriesId its identity,
--     OtelMetrics/DataPoints the three kinds of points, OtelMetrics/Accumulator the accumulators
--     of one metric and of all of them.
--   src/telemetry/processor/platform_metrics: the metrics of the platform, made of counters,
--     summaries and gauges (PlatformMetrics/Instruments, Counter, Summary, MaxGauge), in the
--     two modes of v1.rs and v2.rs (V1, V2) and their choice (Mode).
--   src/coralogix, src/firehose, src/telemetry/telemetry_sender.rs: the senders. They all keep one batch
--     for one retry: Senders/Retry is this code over the type of a batch, Senders/Pillars its three
--     instances, Senders/Errors the reading of a call's outcome, Senders/Composite the split of a
--     batch by pillar.
--   src/telemetry/processor/span_processor.rs: Spans, the categories of the function's spans and the capture
--     of those of the invocation; Spans/Emission, the emission of the captured ones; Spans/Platform,
--     the spans made of the platform's events.
--   src/telemetry/processor/log_maker.rs and log_processor.rs: Logs/Truncation, Logs/Timestamp, Logs/Metadata and
--     Logs/Records; any_value.rs is Logs/Json.
--   src/telemetry/processor/telemetry_processor.rs: the handling of single events. Processor/Steps holds what
--     the handlers share, Processor/Telemetry the handlers for an invocation, Processor/Degraded those without
--     one, Processor/Interface the processor as the service uses it; epsagon_trace_processor.rs is
--     Processor/Epsagon. Processor/Errors, Items, Delay, Relations, Traces and Growth hold the proofs.
--   src/telemetry/lambda_function_arn.rs: LambdaFunctionArn.
--   src/telemetry/mod.rs: the events (Events) and the state of an invocation (Processing/State).
--   src/config: Config, the types and the strategies; Config/Environment, the reading of the environment and
--     the errors; Config/Names, the parsers of names; Config/Targets, the targets and the telemetry interval;
--     Config/Modes and Config/Attributes; Config/Load, the whole, with its proofs in Config/Load/Soundness.
--   src/telemetry/telemetry_service.rs: the service that joins invocations with their telemetry. Service/State
--     holds its state and buffers, Service/Queue the loop over the events, Service/Signals
--     the handlers and the times by which to send, Service/Sending the batches, Service/Lifecycle
--     the handlers of invoke and shutdown events between their waits; otlp_wrappers.rs
--     is Service/Wrappers. Service/Rounds, Order, Reachable, Deadlines, Counts, Growth and
--     Lifecycle/Endings hold the proofs.
-- The handlers put events into the service's queues; it hands them to the processor, which fills the
-- buffers and the metrics; a batch of these goes to the senders. The processor is an interface of the
-- service's model (Processor), with laws (Service/Growth) that Processor/Interface fills. The loop over the events has as much fuel as events wait, and two
-- more rounds: one for the PlatformStart that is put back, one to end.
--
-- Conventions: a u64 or i64 is its 64 bits, a natural number below 2 ^ 64, with the wrap-around of a
-- release build written out; a point in time is whole nanoseconds since the epoch; an f64 is its bits,
-- with the operations as arguments (FloatOps); a HashMap is the list of its entries in the order of
-- their insertion, one of the orders in which it may be walked; a panic is the error `panic`. Code
-- of other crates is an argument: the X-Ray parser's regular expression, the range of the time
-- crate, the random bytes, to_lowercase, what the environment holds (Environment), the service's answers. Loops are recursion on their list; the
-- search of a character boundary is recursion on the position; the digits of a number are made
-- on twenty steps of fuel, since a u64 has at most twenty digits.
--
-- The state of the service also keeps the signals in its channel, the times at which spawned tasks wake
-- up, the events handed to the processor and the number of random draws. The `join!` of a retry and of
-- the new batch is the retry, then the new batch. Not modelled: the
-- start-up (src/main.rs), the HTTP and gRPC servers and clients, logging, and the secrets and tags
-- obtained from AWS, which are input and output. The derived
-- serialization of the log structs is serde's, and an argument.
mod Prelude
pub mod Proto
pub mod OtelMetrics
pub mod PlatformMetrics
pub mod Events
pub mod Config
pub mod Senders
pub mod LambdaFunctionArn
pub mod Logs
pub mod Processing
pub mod Spans
pub mod Service
mod Examples
pub mod Processor
