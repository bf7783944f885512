-- ===== src/Examples/Service.antt =====
-- src/telemetry/telemetry_service.rs: examples with a processor that keeps spans and metrics and lets all
-- events pass.
use coralogix_aws_lambda_tel.Prelude.{
  ℕ, ◌≡◌, refl, true, false, none, some, List, [], ◌∷◌, ◌++◌, arith,
}
use coralogix_aws_lambda_tel.Prelude.{pos}
use coralogix_aws_lambda_tel.Proto.{Span, ScopeSpans, ResourceSpans}
use coralogix_aws_lambda_tel.Events.{
  LambdaTelemetryRecord, function, platform_init_start, platform_start, LambdaTelemetry, ok,
}
use coralogix_aws_lambda_tel.Processing.State.{
  FunctionContext, InvokeEventDataWithSpans, make_invocation_context, new_invocation_state,
}
use coralogix_aws_lambda_tel.Service.State.{
  OutputBuffers, empty_buffers, add_function_resource_spans, TelemetryServiceState, Setting,
}
use coralogix_aws_lambda_tel.Service.Queue.{process_loop, process_telemetry_events}
use coralogix_aws_lambda_tel.Config
use coralogix_aws_lambda_tel.Config.{
  TelemetryServiceConfig, TelemetryProcessorConfig, AttributeConfig, BuiltInAttributeSet,
  report_after_invocation,
}
use coralogix_aws_lambda_tel.Examples.Metrics.{floats}
use coralogix_aws_lambda_tel.Examples.Records.{arn}
use coralogix_aws_lambda_tel.OtelMetrics.TimeSeriesId.{plain}
use coralogix_aws_lambda_tel.Service.State.{new_service_state}
use coralogix_aws_lambda_tel.Service.Rounds.{arrivals, IsSettled, IsDrained, early-IsSettled}
use coralogix_aws_lambda_tel.Service.Order.{
  process_loop-total, process_telemetry_events-IsSettled, process_telemetry_events-in_order,
}
use coralogix_aws_lambda_tel.Service.Sending.{
  send_telemetry, records_in, spans_in, scoped_spans, IsFlushed, send_telemetry-flushes,
}
use coralogix_aws_lambda_tel.Service.Signals.{signal_should_send_by, wake_up}
use coralogix_aws_lambda_tel.Service.Deadlines.{IsWatched, asked, woken, stay, step, Run-IsWatched}
use coralogix_aws_lambda_tel.Service.Reachable.{
  Event, incoming, invoked, sent, handle_all, handle_all-IsSettled,
}
use coralogix_aws_lambda_tel.Service.Counts.{IsAdded, add_function_resource_spans-IsAdded}

abbrev all_attributes : AttributeConfig
all_attributes = record {
  built_in = record {
    service_name = true;
    cloud_provider = true;
    cloud_account_id = true;
    cloud_region = true;
    faas_name = true;
    faas_id = true;
    faas_instance_cx_id = true;
  };
  extra = [];
}

abbrev pub processing : TelemetryProcessorConfig
processing = record {
  logs_metadata_mode = Config.LogsMetadataMode.disabled;
  log_mode = Config.LogMode.structured;
  platform_log_set = record { start = true; runtime_done = true; report = true };
  platform_logs = record { include_request_id = true; hide_default_values = false };
  platform_metrics_mode = Config.PlatformMetricsMode.platform_v2;
  otel_metrics_mode = Config.OtelMetricsMode.processed;
  tracing_mode = Config.TracingMode.otel_instrumentation;
  trace_sampling_mode = Config.TraceSamplingMode.all_traces;
  message_size_limit = 32000;
  excluded_span_attributes = Config.AttributeExclusionMode.predefined;
  resource_attributes = record {
    logs = all_attributes;
    traces = all_attributes;
    metrics = all_attributes;
  };
}

abbrev settings : TelemetryServiceConfig
settings = record {
  reporting_strategy = report_after_invocation;
  reporting_delay = 30000000000;
  max_shutdown_flush_delay = 500000000;
  span_sending_threshold = 100;
  processor_config = processing;
}

abbrev pub setting : Setting
setting = record {
  config = settings;
  processor = record {
    process_function_spans = λ inv spans o. (none, inv, add_function_resource_spans spans o);
    process_telemetry = λ e inv m o. (none, inv, m, o);
    process_telemetry_in_degraded_mode = λ e d m o. (none, d, m, o);
    process_function_metrics = λ metrics acc o.
        (acc, record o { function_metrics_buffer = o.function_metrics_buffer ++ metrics });
  };
  rng = record { draw = λ k n. [] };
  parse_xray = λ s. none;
}

abbrev pub context : FunctionContext
context = record {
  arn = arn;
  version_arn = arn;
  application_name = "shop";
  subsystem_name = "cart";
  service_name = "f";
  lambda_function_version = "7";
  lambda_instance_coralogix_id = "i";
  tags = none;
}

abbrev invocation : InvokeEventDataWithSpans
invocation = record {
  deadline_ms = 1700000009000;
  request_id = "r1";
  invoked_function_arn = "arn:aws:lambda:eu-west-1:123:function:f:7";
  tracing_type = "";
  tracing_value = "";
  spans = [];
  function_context = context;
}

abbrev pub event_at : ℕ → LambdaTelemetryRecord → LambdaTelemetry
event_at t e = record { time_millis = pos t; event = e }

-- a log of an earlier instance, the initialisation, and the beginning of the invocation
abbrev events : List LambdaTelemetry
events =
    event_at 1 (function "before")
    ∷ event_at 2 (platform_init_start "on-demand" "init" none none)
    ∷ event_at 3 (function "loading")
    ∷ event_at 4 (platform_start "r1" none none)
    ∷ event_at 5 (function "working")
    ∷ []

abbrev pub waiting : TelemetryServiceState
waiting = record (new_service_state settings 5) {
  invoke_event_queue = invocation ∷ [];
  telemetry_event_queue = events;
}

waiting-IsSettled : IsSettled waiting
unfolding new_service_state
waiting-IsSettled = early-IsSettled waiting refl

process_loop-total_example :
    process_loop setting 7 false waiting ≡ some (process_telemetry_events setting waiting)
process_loop-total_example = process_loop-total setting waiting waiting-IsSettled

process_telemetry_events-IsSettled_example : IsSettled (process_telemetry_events setting waiting).1
process_telemetry_events-IsSettled_example =
    process_telemetry_events-IsSettled setting waiting waiting-IsSettled

waiting-ok : (process_telemetry_events setting waiting).0 ≡ ok false
unfolding process_telemetry_events new_service_state make_invocation_context
    coralogix_aws_lambda_tel.LambdaFunctionArn.parse new_invocation_state
waiting-ok = refl

process_telemetry_events-in_order_example :
    let s' = (process_telemetry_events setting waiting).1 in
    (arrivals s' ≡ arrivals waiting) × IsDrained s'
process_telemetry_events-in_order_example =
    process_telemetry_events-in_order setting waiting false waiting-IsSettled waiting-ok

abbrev calls : List Event
calls = invoked invocation ∷ incoming 3 (λ e. some 9) events ∷ sent context ∷ []

handle_all-IsSettled_example :
    IsSettled (handle_all setting floats plain calls (new_service_state settings 5))
handle_all-IsSettled_example = handle_all-IsSettled setting floats plain settings 5 calls

abbrev pub a_span : Span
a_span = record {
  trace_id = [];
  span_id = [];
  trace_state = "";
  parent_span_id = [];
  name = "work";
  kind = 1;
  start_time_unix_nano = 1;
  end_time_unix_nano = 2;
  attributes = [];
  dropped_attributes_count = 0;
  events = [];
  dropped_events_count = 0;
  links = [];
  dropped_links_count = 0;
  status = none;
}

abbrev pub some_spans : List ResourceSpans
some_spans =
    (let r : ResourceSpans = record {
      resource = none;
      scope_spans =
          (let s : ScopeSpans = record {
            scope = none;
            spans = a_span ∷ a_span ∷ [];
            schema_url = "";
          } in
            s)
          ∷ [];
      schema_url = "";
    } in
      r)
    ∷ []

abbrev pub full_buffers : OutputBuffers
full_buffers = record (add_function_resource_spans some_spans empty_buffers) {
  spans_buffer = a_span ∷ [];
  epsagon_traces_buffer = "t" ∷ [];
}

abbrev ready_to_send : TelemetryServiceState
ready_to_send = record waiting {
  output_buffers = full_buffers;
  should_send = true;
  should_send_by = some 9;
}

send_telemetry-flushes_example :
    let (batch, s') = send_telemetry processing floats plain context ready_to_send in
    let o = full_buffers in
    (records_in batch.logs ≡ o.logs_buffer)
    × (spans_in batch.spans ≡ scoped_spans o.function_spans_buffer ++ o.spans_buffer)
    × (batch.epsagon_traces ≡ o.epsagon_traces_buffer)
    × IsFlushed s'.output_buffers
    × (s'.should_send ≡ false)
    × (s'.should_send_by ≡ none)
send_telemetry-flushes_example =
    send_telemetry-flushes processing floats plain context ready_to_send

-- a time is asked for, and then an earlier one, whose task wakes up
abbrev asked_twice : TelemetryServiceState
asked_twice = signal_should_send_by 1 50 (signal_should_send_by 0 90 waiting)

Run-IsWatched_example : IsWatched (wake_up 51 50 asked_twice)
Run-IsWatched_example =
    Run-IsWatched setting floats plain waiting (wake_up 51 50 asked_twice)
      (step (asked 0 90 waiting) (
        step (asked 1 50 (signal_should_send_by 0 90 waiting))
          (step (woken 51 50 asked_twice (omega arith)) (stay (wake_up 51 50 asked_twice)))))
      (unfold new_service_state in refl)

add_function_resource_spans-IsAdded_example :
    IsAdded
      (a_span ∷ a_span ∷ [])
      empty_buffers
      (add_function_resource_spans some_spans empty_buffers)
add_function_resource_spans-IsAdded_example =
    add_function_resource_spans-IsAdded some_spans empty_buffers refl
