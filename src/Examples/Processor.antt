-- ===== src/Examples/Processor.antt =====
-- src/telemetry/processor: examples with an invocation whose spans are made of events, and with one
-- whose logs are delayed.
use coralogix_aws_lambda_tel.Prelude.{◌≡◌, refl, inl, inr, true, none, some, List, [], ◌∷◌, str_eq}
use coralogix_aws_lambda_tel.Prelude.{if◌then◌else◌}
use coralogix_aws_lambda_tel.Prelude.{pos, f64_thousand}
use coralogix_aws_lambda_tel.Proto.{Bytes}
use coralogix_aws_lambda_tel.Events.{
  success, PlatformRuntimeDoneData, function, platform_start, platform_runtime_done,
  LambdaTelemetry,
}
use coralogix_aws_lambda_tel.Config.{TracingMode, TelemetryProcessorConfig}
use coralogix_aws_lambda_tel.Prelude.{pos}
use coralogix_aws_lambda_tel.OtelMetrics.TimeSeriesId.{plain}
use coralogix_aws_lambda_tel.Examples.Metrics.{floats}
use coralogix_aws_lambda_tel.Examples.Records.{arn}
use coralogix_aws_lambda_tel.Examples.Service.{
  processing, context, setting, waiting, event_at, a_span, some_spans,
}
use coralogix_aws_lambda_tel.Examples.Spans.{tools as span_tools, fresh}
use coralogix_aws_lambda_tel.Logs.Json
use coralogix_aws_lambda_tel.Logs.Json.{Number, Json, Numbers, from_json}
use coralogix_aws_lambda_tel.Logs.Json.RoundTrip.{to_json, to_json-from_json}
use coralogix_aws_lambda_tel.Processing.State.{
  invocation_span, InvocationProcessingState, DegradedProcessingState,
}
use coralogix_aws_lambda_tel.PlatformMetrics.Mode
use coralogix_aws_lambda_tel.Spans.Emission.{
  emitted_ids, emit_trigger_and_invocation_spans, emit_trigger_and_invocation_spans-ids,
}
use coralogix_aws_lambda_tel.Service.State.{empty_buffers, Setting}
use coralogix_aws_lambda_tel.Service.Queue.{process_telemetry_events}
use coralogix_aws_lambda_tel.Service.Growth.{Grows}
use coralogix_aws_lambda_tel.Processor.Steps.{ProcessorTools, Work}
use coralogix_aws_lambda_tel.Processor.Telemetry.{process_telemetry, process_function_spans}
use coralogix_aws_lambda_tel.Processor.Degraded.{process_telemetry_in_degraded_mode}
use coralogix_aws_lambda_tel.Processor.Outcomes.{FailsOnlyWith, Succeeds, Leaves}
use coralogix_aws_lambda_tel.Processor.Errors.{IsExplained, process_telemetry-IsExplained}
use coralogix_aws_lambda_tel.Processor.Relations.{process_all}
use coralogix_aws_lambda_tel.Processor.Traces.{IsTraced, process_all-IsTraced}
use coralogix_aws_lambda_tel.Processor.Delay.{arrived, waiting as waiting_items, Delivers}
use coralogix_aws_lambda_tel.Processor.Delay.Flushing.{
  process_telemetry-Delivers, process_function_spans-Delivers,
}
use coralogix_aws_lambda_tel.Processor.Interface.{telemetry_processor, service-Grows}

abbrev one : Number
one = record { text = "1" }

-- the number 1, and half of it
abbrev numbers : Numbers
numbers = record {
  as_i64 = λ n. if str_eq n.text "1" then some 1 else none;
  as_f64 = λ n. some f64_thousand;
}

abbrev a_value : Json
a_value = Json.object (
    Json.member "a" (Json.array (Json.element (Json.number one) Json.no_elements))
      (Json.member "b" (Json.number (record { text = "1000.0" })) Json.no_members))

to_json-from_json_example :
    to_json (λ i. one) (λ f. record { text = "1000.0" }) (from_json numbers a_value) ≡ a_value
to_json-from_json_example =
    to_json-from_json (λ i. one) (λ f. record { text = "1000.0" }) numbers a_value
      ((inl (1, refl, refl), tt), (inr (refl, (f64_thousand, refl, refl)), tt))

abbrev pub tools : ProcessorTools
tools = record {
  logs = record {
    from_str = λ s. none;
    to_value = λ b. some Json.null;
    numbers = numbers;
    hex_encode = λ b. "";
    to_lowercase = λ s. s;
  };
  epsagon = record { trim = λ s. s; decode = λ s. none; from_utf8 = λ b. none };
  spans = span_tools;
  fl = floats;
  to_i128 = λ x. pos 0;
  in_range = λ t. true;
  value_format = plain;
}

-- the server span without marks is known
abbrev an_invocation : InvocationProcessingState
an_invocation = record {
  function_context = context;
  invocation_context = record {
    invoked_arn = arn;
    request_id = "r1";
    trace_id = 7 ∷ [];
    invocation_span_id = 8 ∷ [];
    sampled = true;
  };
  root_span_id = 9 ∷ [];
  init_span_id = none;
  init_start_data = none;
  init_runtime_done_data = none;
  init_report_data = none;
  start_data = none;
  runtime_done_data = none;
  report_data = none;
  delaying_logs = true;
  logs = [];
  tracing_state = record fresh {
    generic_invocation_span = some (record { span = a_span; scope = none });
  };
  last_log_state = record { last_log_timestamp = pos 0; last_log_subindex = 0 };
}

abbrev ended : PlatformRuntimeDoneData
ended = record {
  time = pos 5000000;
  request_id = "r1";
  status = success;
  error_type = none;
  metrics = none;
  spans = [];
  tracing = none;
}

abbrev after_end : InvocationProcessingState
after_end = record an_invocation { runtime_done_data = some ended }

emit_trigger_and_invocation_spans-ids_example :
    emitted_ids (emit_trigger_and_invocation_spans after_end) ≡ ([], []) ∷ []
unfolding invocation_span
emit_trigger_and_invocation_spans-ids_example =
    emit_trigger_and_invocation_spans-ids after_end ended refl

abbrev pub a_work : Work InvocationProcessingState
a_work = record {
  state = an_invocation;
  metrics_state = Mode.disabled;
  output_buffers = empty_buffers;
}

abbrev a_degraded_work : Work DegradedProcessingState
a_degraded_work = record {
  state = record {
    function_context = context;
    trace_id = [];
    span_id = [];
    init_runtime_done_data = none;
    init_report_data = none;
    runtime_done_data = none;
    report_data = none;
    last_log_state = record { last_log_timestamp = pos 0; last_log_subindex = 0 };
  };
  metrics_state = Mode.disabled;
  output_buffers = empty_buffers;
}

abbrev a_log : LambdaTelemetry
a_log = event_at 5 (function "working")

process_telemetry-IsExplained_example :
    FailsOnlyWith (IsExplained tools a_log) (process_telemetry tools processing [] a_log a_work)
    × FailsOnlyWith
        (IsExplained tools a_log)
        (process_telemetry_in_degraded_mode tools processing a_log a_degraded_work)
process_telemetry-IsExplained_example =
    process_telemetry-IsExplained tools a_log processing [] a_work a_degraded_work

process_telemetry-Delivers_example :
    Succeeds
      (Delivers tools processing
        (arrived tools processing
          (pos 5000000)
          (function "working")
          (waiting_items tools processing an_invocation))
        a_work)
      (process_telemetry tools processing [] a_log a_work)
process_telemetry-Delivers_example =
    process_telemetry-Delivers tools processing [] a_log a_work (λ h. cc) tt

process_function_spans-Delivers_example :
    Succeeds
      (Delivers tools processing (waiting_items tools processing an_invocation) a_work)
      (process_function_spans tools processing some_spans a_work)
process_function_spans-Delivers_example =
    process_function_spans-Delivers tools processing some_spans a_work (λ h. cc)

abbrev by_events : TelemetryProcessorConfig
by_events = record processing { tracing_mode = TracingMode.telemetry_api }

abbrev a_run : List (Bytes × LambdaTelemetry)
a_run =
    ([], event_at 4 (platform_start "r1" none none))
    ∷ ([], a_log)
    ∷ ([], event_at 6 (platform_runtime_done "r1" success none none [] none))
    ∷ []

process_all-IsTraced_example : Leaves (IsTraced a_work) (process_all tools by_events a_run a_work)
process_all-IsTraced_example = process_all-IsTraced tools by_events refl a_run a_work

service-Grows_example :
    let used : Setting = record setting {
      processor = telemetry_processor tools (λ e s. []) setting.config.processor_config;
    } in
    Grows waiting.output_buffers (process_telemetry_events used waiting).1.output_buffers
service-Grows_example = service-Grows tools (λ e s. []) setting waiting
