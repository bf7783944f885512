-- ===== src/Senders/Pillars.antt =====
-- src/coralogix/coralogix_sender.rs, combined_telemetry_sender.rs and
-- src/firehose/firehose_telemetry_sender.rs: the three senders, and how their batches are counted
-- (src/telemetry/telemetry_sender.rs).
use coralogix_aws_lambda_tel.Prelude.{ℕ, ◌+◌, String, true, Option, List, [], ◌∷◌}
use coralogix_aws_lambda_tel.Prelude.{length}
use coralogix_aws_lambda_tel.Proto.{
  ScopeSpans, ResourceSpans, ScopeMetrics, ResourceMetrics, ScopeLogs, ResourceLogs,
}
use coralogix_aws_lambda_tel.Senders.Retry.{Sender, Service, send_telemetry}
use coralogix_aws_lambda_tel.Senders.Errors.{OtlpError, is_retryable}

pub record TelemetryBatch : Type 0 where
  pub logs : List ResourceLogs
  pub spans : List ResourceSpans
  pub metrics : List ResourceMetrics
  pub epsagon_traces : List String

abbrev sum_by {ℓ} : {A : Type ℓ} → (A → ℕ) → List A → ℕ
sum_by f [] = 0
sum_by f (a ∷ r) = f a + sum_by f r

-- `ItemCount::item_count` of a `Vec`, for the three kinds of resources
unfoldable pub count_logs : List ResourceLogs → ℕ
count_logs =
    sum_by (λ (r : ResourceLogs). sum_by (λ (s : ScopeLogs). length s.log_records) r.scope_logs)

unfoldable pub count_spans : List ResourceSpans → ℕ
count_spans =
    sum_by (λ (r : ResourceSpans). sum_by (λ (s : ScopeSpans). length s.spans) r.scope_spans)

unfoldable pub count_metrics : List ResourceMetrics → ℕ
count_metrics =
    sum_by
      (λ (r : ResourceMetrics). sum_by (λ (s : ScopeMetrics). length s.metrics) r.scope_metrics)

-- OtlpPillarTelemetrySender
unfoldable pub pillar_service :
    {T : Type 0} → (List T → ℕ) → (ℕ → Option OtlpError) → Service (List T) OtlpError
pillar_service count respond = record {
  item_count = count;
  respond = respond;
  is_retryable = is_retryable;
}

-- CombinedTelemetrySender: the batch goes out without its epsagon traces
unfoldable pub combined_batch : TelemetryBatch → TelemetryBatch
combined_batch batch = record batch { epsagon_traces = [] }

unfoldable pub combined_service : (ℕ → Option OtlpError) → Service TelemetryBatch OtlpError
combined_service respond = record {
  item_count = λ t. count_logs t.logs + count_spans t.spans + count_metrics t.metrics;
  respond = respond;
  is_retryable = is_retryable;
}

unfoldable pub combined_send :
    (ℕ → Option OtlpError)
    → TelemetryBatch
    → Sender TelemetryBatch OtlpError
    → Sender TelemetryBatch OtlpError
unfolding combined_service combined_batch
combined_send respond batch = send_telemetry (combined_service respond) (combined_batch batch)

-- FirehoseTelemetrySender: every error is retried
unfoldable pub firehose_service : {E : Type 0} → (ℕ → Option E) → Service TelemetryBatch E
firehose_service respond = record {
  item_count = λ t.
      count_logs t.logs + count_spans t.spans + count_metrics t.metrics + length t.epsagon_traces;
  respond = respond;
  is_retryable = λ _. true;
}

-- CoralogixTelemetrySender: one sender for each pillar; epsagon traces go to a sender that does
-- nothing
pub record CoralogixTelemetrySender : Type 0 where
  pub logs : Sender (List ResourceLogs) OtlpError
  pub spans : Sender (List ResourceSpans) OtlpError
  pub metrics : Sender (List ResourceMetrics) OtlpError

pub record Responses : Type 0 where
  pub logs : ℕ → Option OtlpError
  pub spans : ℕ → Option OtlpError
  pub metrics : ℕ → Option OtlpError

unfoldable pub coralogix_send :
    Responses → TelemetryBatch → CoralogixTelemetrySender → CoralogixTelemetrySender
unfolding pillar_service
coralogix_send r batch s = record {
  logs = send_telemetry (pillar_service count_logs r.logs) batch.logs s.logs;
  spans = send_telemetry (pillar_service count_spans r.spans) batch.spans s.spans;
  metrics = send_telemetry (pillar_service count_metrics r.metrics) batch.metrics s.metrics;
}
