-- ===== src/Senders/Composite.antt =====
-- src/telemetry/telemetry_sender.rs: `CompositeTelemetrySender` splits a batch between the senders of
-- the single pillars and the main one. What it does is the list of calls that it makes of them.
use coralogix_aws_lambda_tel.Prelude.{
  String, ◌≡◌, Bool, true, false, ◌||◌, List, [], ◌∷◌, ◌++◌, append-nil, arith,
}
use coralogix_aws_lambda_tel.Prelude.{if◌then◌else◌}
use coralogix_aws_lambda_tel.Proto.{ResourceSpans, ResourceMetrics, ResourceLogs}
use coralogix_aws_lambda_tel.Senders.Pillars.{TelemetryBatch}

-- which of the four senders are configured
pub record CompositeTelemetrySender : Type 0 where
  pub logs : Bool
  pub traces : Bool
  pub metrics : Bool
  pub main : Bool

pub data Delivery : Type 0 where
  to_logs : List ResourceLogs → Delivery
  to_traces : List ResourceSpans → Delivery
  to_metrics : List ResourceMetrics → Delivery
  to_main : TelemetryBatch → Delivery

send_logs : Bool → TelemetryBatch → List Delivery × TelemetryBatch
send_logs true batch = (to_logs batch.logs ∷ [], record batch { logs = [] })
send_logs false batch = ([], batch)

send_traces : Bool → TelemetryBatch → List Delivery × TelemetryBatch
send_traces true batch = (to_traces batch.spans ∷ [], record batch { spans = [] })
send_traces false batch = ([], batch)

send_metrics : Bool → TelemetryBatch → List Delivery × TelemetryBatch
send_metrics true batch = (to_metrics batch.metrics ∷ [], record batch { metrics = [] })
send_metrics false batch = ([], batch)

unfoldable pub send_telemetry : CompositeTelemetrySender → TelemetryBatch → List Delivery
unfolding send_logs send_traces send_metrics
send_telemetry s batch =
    let (logs, batch) = send_logs s.logs batch in
    let (traces, batch) = send_traces s.traces batch in
    let (metrics, batch) = send_metrics s.metrics batch in
    logs ++ (traces ++ (metrics ++ (if s.main then to_main batch ∷ [] else [])))

-- what all the deliveries hold of each pillar
abbrev pub logs_of : List Delivery → List ResourceLogs
logs_of [] = []
logs_of (to_logs l ∷ ds) = l ++ logs_of ds
logs_of (to_main b ∷ ds) = b.logs ++ logs_of ds
logs_of (_ ∷ ds) = logs_of ds

abbrev pub spans_of : List Delivery → List ResourceSpans
spans_of [] = []
spans_of (to_traces l ∷ ds) = l ++ spans_of ds
spans_of (to_main b ∷ ds) = b.spans ++ spans_of ds
spans_of (_ ∷ ds) = spans_of ds

abbrev pub metrics_of : List Delivery → List ResourceMetrics
metrics_of [] = []
metrics_of (to_metrics l ∷ ds) = l ++ metrics_of ds
metrics_of (to_main b ∷ ds) = b.metrics ++ metrics_of ds
metrics_of (_ ∷ ds) = metrics_of ds

abbrev pub traces_of : List Delivery → List String
traces_of [] = []
traces_of (to_main b ∷ ds) = b.epsagon_traces ++ traces_of ds
traces_of (_ ∷ ds) = traces_of ds

-- Each pillar of a batch is handed on exactly once where its own sender or the main one is
-- configured, and not at all otherwise; epsagon traces go to the main sender only.
pub send_telemetry-once :
    (s : CompositeTelemetrySender) (batch : TelemetryBatch)
    → let ds = send_telemetry s batch in
      (logs_of ds ≡ (if s.logs || s.main then batch.logs else []))
      × (spans_of ds ≡ (if s.traces || s.main then batch.spans else []))
      × (metrics_of ds ≡ (if s.metrics || s.main then batch.metrics else []))
      × (traces_of ds ≡ (if s.main then batch.epsagon_traces else []))
unfolding send_telemetry
send_telemetry-once s batch = ground (
  arith,
  append-nil batch.logs,
  append-nil batch.spans,
  append-nil batch.metrics,
  append-nil batch.epsagon_traces,
)
