-- ===== src/Examples/Endings.antt =====
-- src/telemetry/telemetry_service.rs: an invocation whose end was processed while its handler waits.
use coralogix_aws_lambda_tel.Prelude.{◌≤◌, ◌≡◌, refl, ◌↔◌, true, false, none, some, [], ◌∷◌, arith}
use coralogix_aws_lambda_tel.Service.State.{should_send_signal, TelemetryServiceState}
use coralogix_aws_lambda_tel.Events.{ok}
use coralogix_aws_lambda_tel.Examples.Metrics.{floats}
use coralogix_aws_lambda_tel.OtelMetrics.TimeSeriesId.{plain}
use coralogix_aws_lambda_tel.Examples.Service.{setting, context, waiting, full_buffers}
use coralogix_aws_lambda_tel.Service.Sending.{records_in, spans_in, IsFlushed}
use coralogix_aws_lambda_tel.Service.Signals.{after_processing}
use coralogix_aws_lambda_tel.Service.Lifecycle.{finished, sleep_for, resume_invoke_event}
use coralogix_aws_lambda_tel.Service.Lifecycle.Endings.{
  gathered, spans_of, resume_invoke_event-sends, sleep_for-bounds,
}

-- a signal of the spans is left from before
abbrev buffered : TelemetryServiceState
buffered = record waiting { output_buffers = full_buffers; signals = should_send_signal ∷ [] }

resume_invoke_event-sends_example :
    let (phase, batches, s') =
      resume_invoke_event setting floats plain context
        (λ n. 7)
        (after_processing setting (ok true) buffered) in
    (phase ≡ finished)
    × (gathered (λ b. records_in b.logs) batches ≡ buffered.output_buffers.logs_buffer)
    × (gathered (λ b. spans_in b.spans) batches ≡ spans_of buffered.output_buffers)
    × IsFlushed s'.output_buffers
    × (s'.should_send ≡ false)
    × (s'.should_send_by ≡ none)
    × (s'.signals ≡ [])
resume_invoke_event-sends_example =
    resume_invoke_event-sends setting floats plain context (λ n. 7) buffered refl refl

sleep_for-bounds_example : (50 ≤ 2000) ↔ (sleep_for (some 2000) ≤ 2000)
sleep_for-bounds_example = sleep_for-bounds 2000 (omega arith)

-- with 49 milliseconds left
sleep_tests : sleep_for (some 49) ≡ 18446744073709551615
unfolding sleep_for
sleep_tests = refl
