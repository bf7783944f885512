-- ===== src/Examples/Senders.antt =====
-- The senders: examples with a service that fails at first, and with three configured pillars.
use coralogix_aws_lambda_tel.Prelude.{
  ℕ, zero, suc, ◌+◌, ◌≤◌, String, ◌≡◌, ◌↔◌, true, false, Option, none, some, List, [], ◌∷◌,
}
use coralogix_aws_lambda_tel.Prelude.{length}
use coralogix_aws_lambda_tel.Proto.{string_value, with_value, LogRecord, ScopeLogs, ResourceLogs}
use coralogix_aws_lambda_tel.Senders.Retry.{Service, new_sender, send_all}
use coralogix_aws_lambda_tel.Senders.Errors.{
  Code, unavailable, OtlpError, unavailable_error, bad_request, failed, send_result,
  failure_is_retryable, is_transient, send_result-is_retryable,
}
use coralogix_aws_lambda_tel.Senders.Conservation.{
  delivered, lost, pending, nonempty, send_all-conserves,
}
use coralogix_aws_lambda_tel.Senders.Pillars.{TelemetryBatch, pillar_service, count_logs}
use coralogix_aws_lambda_tel.Senders.Composite
use coralogix_aws_lambda_tel.Senders.Composite.{
  CompositeTelemetrySender, logs_of, spans_of, metrics_of, traces_of, send_telemetry-once,
}

send_result-is_retryable_example :
    (failure_is_retryable (send_result "https://ingress" (failed unavailable "down")) ≡ true) ↔ (
      (code : Code) × (s : String) × (failed unavailable "down" ≡ failed code s)
      × (is_transient code ≡ true))
send_result-is_retryable_example =
    send_result-is_retryable "https://ingress" (failed unavailable "down")

abbrev record_of : String → LogRecord
record_of s = record {
  time_unix_nano = 1;
  observed_time_unix_nano = 2;
  severity_number = 9;
  severity_text = "";
  body = some (with_value (string_value s));
  attributes = [];
  dropped_attributes_count = 0;
  flags = 0;
  trace_id = [];
  span_id = [];
}

abbrev logs_with : String → List ResourceLogs
logs_with s =
    (let r : ResourceLogs = record {
      resource = none;
      scope_logs =
          (let l : ScopeLogs = record {
            scope = none;
            log_records = record_of s ∷ [];
            schema_url = "";
          } in
            l)
          ∷ [];
      schema_url = "";
    } in
      r)
    ∷ []

-- the first call and its retry fail
abbrev respond : ℕ → Option OtlpError
respond zero = some (unavailable_error "https://ingress" "down")
respond (suc zero) = some (bad_request "no")
respond _ = none

abbrev ingress : Service (List ResourceLogs) OtlpError
ingress = pillar_service count_logs respond

abbrev batches : List (List ResourceLogs)
batches = logs_with "a" ∷ [] ∷ logs_with "b" ∷ []

send_all-conserves_example :
    let s = send_all ingress batches (new_sender ingress) in
    (delivered s + lost ingress s + pending s ≡ nonempty ingress batches)
    × (length s.calls + pending s ≤ nonempty ingress batches + nonempty ingress batches)
send_all-conserves_example = send_all-conserves ingress batches

abbrev two_senders : CompositeTelemetrySender
two_senders = record { logs = true; traces = false; metrics = false; main = true }

abbrev small_batch : TelemetryBatch
small_batch = record { logs = logs_with "a"; spans = []; metrics = []; epsagon_traces = "e" ∷ [] }

send_telemetry-once_example :
    let ds = Composite.send_telemetry two_senders small_batch in
    (logs_of ds ≡ logs_with "a")
    × (spans_of ds ≡ [])
    × (metrics_of ds ≡ [])
    × (traces_of ds ≡ "e" ∷ [])
send_telemetry-once_example = send_telemetry-once two_senders small_batch
