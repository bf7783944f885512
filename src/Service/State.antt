-- ===== src/Service/State.antt =====
-- src/telemetry/telemetry_service.rs: the service's buffers and state, and what it uses of the
-- processor (src/telemetry/processor/telemetry_processor.rs).
use coralogix_aws_lambda_tel.Prelude.{ℕ, String, Bool, false, Option, none, List, [], ◌∷◌, ◌++◌}
use coralogix_aws_lambda_tel.Prelude.{length}
use coralogix_aws_lambda_tel.Prelude.{add64}
use coralogix_aws_lambda_tel.Proto.{Span, ScopeSpans, ResourceSpans, ResourceMetrics, LogRecord}
use coralogix_aws_lambda_tel.Events.{LambdaTelemetry, Error}
use coralogix_aws_lambda_tel.Config.{TelemetryServiceConfig}
use coralogix_aws_lambda_tel.Processing.State.{
  XRayTraceContext, InvokeEventDataWithSpans, Random, InvocationProcessingState,
  DegradedProcessingState,
}
use coralogix_aws_lambda_tel.PlatformMetrics.Mode
use coralogix_aws_lambda_tel.OtelMetrics.Accumulator.{OtelMetricsAccumulator, empty_accumulator}

pub record OutputBuffers : Type 0 where
  pub logs_buffer : List LogRecord
  pub spans_buffer : List Span
  pub function_metrics_buffer : List ResourceMetrics
  pub function_spans_buffer : List ScopeSpans
  pub function_spans_count : ℕ
  pub epsagon_traces_buffer : List String

abbrev pub empty_buffers : OutputBuffers
empty_buffers = record {
  logs_buffer = [];
  spans_buffer = [];
  function_metrics_buffer = [];
  function_spans_buffer = [];
  function_spans_count = 0;
  epsagon_traces_buffer = [];
}

unfoldable pub add_function_scope_spans : List ScopeSpans → OutputBuffers → OutputBuffers
add_function_scope_spans [] o = o
add_function_scope_spans (ss ∷ r) o = add_function_scope_spans r (record o {
  function_spans_count = add64 o.function_spans_count (length ss.spans);
  function_spans_buffer = o.function_spans_buffer ++ ss ∷ [];
})

unfoldable pub add_function_resource_spans : List ResourceSpans → OutputBuffers → OutputBuffers
unfolding add_function_scope_spans
add_function_resource_spans [] o = o
add_function_resource_spans (rs ∷ r) o =
    add_function_resource_spans r (add_function_scope_spans rs.scope_spans o)

unfoldable pub take_function_spans : OutputBuffers → List ScopeSpans × OutputBuffers
take_function_spans o =
    (o.function_spans_buffer, record o { function_spans_count = 0; function_spans_buffer = [] })

pub data Signal : Type 0 where
  should_send_signal invocation_done_signal : Signal

-- Points in time are nanoseconds of the monotonic clock. The last four fields are not the code's:
-- the signals in the channel, the times at which the spawned tasks wake up, the events handed to the
-- processor so far, in order, and the number of random draws.
pub record TelemetryServiceState : Type 0 where
  pub invoke_event_queue : List InvokeEventDataWithSpans
  pub telemetry_event_queue : List LambdaTelemetry
  pub function_spans_buffer : List ResourceSpans
  pub half_processed_event_buffer : List LambdaTelemetry
  pub init_handling_started : Bool
  pub init_handled : Bool
  pub shutdown_flush_started : Bool
  pub invocation_state : Option InvocationProcessingState
  pub metrics_state : Mode.PlatformMetricsState
  pub metrics_accumulator : OtelMetricsAccumulator
  pub output_buffers : OutputBuffers
  pub should_send_by : Option ℕ
  pub should_send : Bool
  pub received_first_invocation : Bool
  pub should_not_receive_otel_now : Bool
  pub signals : List Signal
  pub wake_ups : List ℕ
  pub handled : List LambdaTelemetry
  pub draws : ℕ

-- What the service uses of the processor. Each function changes its arguments also where it fails.
pub record Processor : Type 0 where
  pub process_function_spans :
      InvocationProcessingState
      → List ResourceSpans
      → OutputBuffers
      → Option Error × InvocationProcessingState × OutputBuffers
  pub process_telemetry :
      LambdaTelemetry
      → InvocationProcessingState
      → Mode.PlatformMetricsState
      → OutputBuffers
      → Option Error × InvocationProcessingState × Mode.PlatformMetricsState × OutputBuffers
  pub process_telemetry_in_degraded_mode :
      LambdaTelemetry
      → DegradedProcessingState
      → Mode.PlatformMetricsState
      → OutputBuffers
      → Option Error × DegradedProcessingState × Mode.PlatformMetricsState × OutputBuffers
  pub process_function_metrics :
      List ResourceMetrics
      → OtelMetricsAccumulator
      → OutputBuffers
      → OtelMetricsAccumulator × OutputBuffers

-- what the service is made with
pub record Setting : Type 0 where
  pub config : TelemetryServiceConfig
  pub processor : Processor
  pub rng : Random
  pub parse_xray : String → Option XRayTraceContext

-- `TelemetryService::new`; `now` is the time for the metrics
unfoldable pub new_service_state : TelemetryServiceConfig → ℕ → TelemetryServiceState
new_service_state config now = record {
  invoke_event_queue = [];
  telemetry_event_queue = [];
  function_spans_buffer = [];
  half_processed_event_buffer = [];
  init_handling_started = false;
  init_handled = false;
  shutdown_flush_started = false;
  invocation_state = none;
  metrics_state = Mode.for_mode config.processor_config.platform_metrics_mode now;
  metrics_accumulator = empty_accumulator;
  output_buffers = empty_buffers;
  should_send_by = none;
  should_send = false;
  received_first_invocation = false;
  should_not_receive_otel_now = false;
  signals = [];
  wake_ups = [];
  handled = [];
  draws = 0;
}
