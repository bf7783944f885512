-- ===== src/Processor/Telemetry.antt =====
-- src/telemetry/processor/telemetry_processor.rs: the handling of the events of an invocation.
use coralogix_aws_lambda_tel.Prelude.{
  Bool, false, not, ◌&&◌, Option, none, some, List, [], ◌∷◌, ◌++◌,
}
use coralogix_aws_lambda_tel.Prelude.{◌==◌, if◌then◌else◌, is_some, map_option}
use coralogix_aws_lambda_tel.Prelude.{ℤ}
use coralogix_aws_lambda_tel.Proto.{
  Bytes, Status, Span, ResourceSpans, ScopeMetrics, ResourceMetrics,
}
use coralogix_aws_lambda_tel.Events.{
  PlatformInitStartData, PlatformInitReportData, PlatformStartData, PlatformRuntimeDoneData,
  PlatformReportData, LambdaTelemetryRecord, function, extension, platform_init_start,
  platform_init_runtime_done, platform_init_report, platform_start, platform_runtime_done,
  platform_report, platform_extension, platform_telemetry_subscription, platform_logs_dropped,
  LambdaTelemetry, event_timestamp,
}
use coralogix_aws_lambda_tel.Config.{
  is_structured, OtelMetricsMode, TracingMode, TelemetryProcessorConfig,
}
use coralogix_aws_lambda_tel.Logs.Metadata.{of_invocation}
use coralogix_aws_lambda_tel.Processing.State.{
  InvocationProcessingState, RawFunctionLog, is_otel, is_telemetry_api, invocation_span,
}
use coralogix_aws_lambda_tel.Service.State.{
  OutputBuffers, add_function_scope_spans, add_function_resource_spans,
}
use coralogix_aws_lambda_tel.Processor.Steps.{
  ProcessorTools, Work, Outcome, ◌>>>◌, with_state, with_output, timed, append_spans,
  update_init_report_metrics, update_runtime_done_metrics, update_report_metrics,
  update_metrics_after_report, emit_function_log, emit_start_log, emit_runtime_done_log,
  emit_report_log, on_function,
}
use coralogix_aws_lambda_tel.OtelMetrics.Accumulator
use coralogix_aws_lambda_tel.OtelMetrics.Accumulator.{OtelMetricsAccumulator}
use coralogix_aws_lambda_tel.Spans
use coralogix_aws_lambda_tel.Spans.Emission.{emit_trigger_and_invocation_spans}
use coralogix_aws_lambda_tel.Spans.Platform.{
  make_spans_after_invocation_in_otel_mode, make_spans_after_invocation, make_spans_after_report,
}

abbrev State : Type 0
State = InvocationProcessingState

-- the status of the invocation's span where it is an error
unfoldable pub error_status : Option Span → Option Status
error_status none = none
error_status (some span) = elim span.status [
  | none ↦ none
  | some status ↦ if status.code == 2 then some status else none
]

module _ (tools : ProcessorTools) (config : TelemetryProcessorConfig) where
  abbrev pub emits_start_logs : Bool
  emits_start_logs = is_structured config.log_mode && config.platform_log_set.start

  -- the loop over `take(&mut state.logs)`, over the logs taken
  unfoldable pub emit_function_logs : List RawFunctionLog → Work State → Outcome State
  emit_function_logs [] w = (none, w)
  emit_function_logs (log ∷ r) w =
      emit_function_log tools config of_invocation log w >>> λ (w : Work State).
      emit_function_logs r w

  unfoldable pub emit_taken_logs : Work State → Outcome State
  unfolding emit_function_logs
  emit_taken_logs w =
      let s : State = w.state in emit_function_logs s.logs (with_state (record s { logs = [] }) w)

  unfoldable pub emit_known_start : Option PlatformStartData → Work State → Outcome State
  emit_known_start none w = (none, w)
  emit_known_start (some d) w =
      if config.platform_log_set.start
      then emit_start_log tools config of_invocation d w
      else (none, w)

  unfoldable pub process_delayed_logs : Work State → Outcome State
  unfolding emit_known_start emit_taken_logs
  process_delayed_logs w =
      let s : State = w.state in
      emit_known_start s.start_data w >>> λ (w : Work State). emit_taken_logs w

  -- the delay ends
  unfoldable pub conclude_delay : Work State → Outcome State
  unfolding process_delayed_logs
  conclude_delay w =
      let s : State = w.state in
      process_delayed_logs (with_state (record s { delaying_logs = false }) w)

  -- `Function`, for a log that is no trace of Epsagon
  unfoldable pub delay_or_emit : RawFunctionLog → Work State → Outcome State
  delay_or_emit log w =
      let s : State = w.state in
      if s.delaying_logs
      then (none, with_state (record s { logs = s.logs ++ log ∷ [] }) w)
      else emit_function_log tools config of_invocation log w

  -- `PlatformStart`
  unfoldable pub on_start : PlatformStartData → Work State → Outcome State
  on_start d w =
      let s : State = w.state in
      let emitted =
        if emits_start_logs && not s.delaying_logs
        then emit_start_log tools config of_invocation d w
        else (none, w) in
      emitted >>> λ (w : Work State).
      let s : State = w.state in (none, with_state (record s { start_data = some d }) w)

  unfoldable pub otel_spans : State → OutputBuffers → OutputBuffers
  unfolding append_spans
  otel_spans s o =
      append_spans (make_spans_after_invocation_in_otel_mode s)
        (add_function_scope_spans (emit_trigger_and_invocation_spans s) o)

  unfoldable pub spans_for : TracingMode → State → OutputBuffers → OutputBuffers
  unfolding otel_spans append_spans
  spans_for TracingMode.otel_instrumentation s o = otel_spans s o
  spans_for TracingMode.telemetry_api s o = append_spans (make_spans_after_invocation s) o
  spans_for TracingMode.disabled s o = o

  unfoldable pub emit_invocation_spans : State → OutputBuffers → OutputBuffers
  unfolding spans_for
  emit_invocation_spans s o =
      if s.tracing_state.should_produce_spans then spans_for config.tracing_mode s o else o

  -- the part of `PlatformRuntimeDone` after its log
  unfoldable pub conclude_runtime : PlatformRuntimeDoneData → Work State → Work State
  unfolding emit_invocation_spans
  conclude_runtime d w =
      let w' : Work State = update_runtime_done_metrics tools.fl d w in
      let s : State = w'.state in
      let s' : State = record s { runtime_done_data = some d } in
      with_output (emit_invocation_spans s' w'.output_buffers) (with_state s' w')

  -- `PlatformRuntimeDone`
  unfoldable pub on_runtime_done : PlatformRuntimeDoneData → Work State → Outcome State
  unfolding conclude_delay conclude_runtime
  on_runtime_done d w =
      let s : State = w.state in
      let flushed =
        if is_structured config.log_mode && s.delaying_logs then conclude_delay w else (none, w) in
      let logged = flushed >>> λ (w : Work State).
      let status = error_status (invocation_span w.state) in
      emit_runtime_done_log tools config of_invocation d
        (map_option (λ (x : Status). "error") status)
        (map_option (λ (x : Status). x.message) status) w in
      logged >>> λ (w : Work State). (none, conclude_runtime d w)

  unfoldable pub emit_report_spans : State → OutputBuffers → OutputBuffers
  unfolding append_spans
  emit_report_spans s o =
      if s.tracing_state.should_produce_spans && is_telemetry_api config.tracing_mode
      then append_spans (make_spans_after_report tools.fl tools.to_i128 s) o
      else o

  -- the part of `PlatformReport` after its logs
  unfoldable pub conclude_report : PlatformReportData → Work State → Outcome State
  unfolding emit_report_spans
  conclude_report d w =
      let w' : Work State = update_report_metrics tools.fl d w in
      let s : State = w'.state in
      let s' : State = record s { report_data = some d } in
      update_metrics_after_report tools.fl of_invocation
        (with_output (emit_report_spans s' w'.output_buffers) (with_state s' w'))

  -- `PlatformReport`
  unfoldable pub on_report : PlatformReportData → Work State → Outcome State
  unfolding emit_taken_logs conclude_report
  on_report d w =
      let taken = if is_structured config.log_mode then emit_taken_logs w else (none, w) in
      let logged = taken >>> λ (w : Work State). emit_report_log tools config of_invocation d w in
      logged >>> λ (w : Work State). conclude_report d w

  unfoldable pub on_init_start : Bytes → PlatformInitStartData → Work State → Work State
  on_init_start drawn d w =
      let s : State = w.state in
      with_state (record s { init_span_id = some drawn; init_start_data = some d }) w

  unfoldable pub on_init_report : PlatformInitReportData → Work State → Work State
  on_init_report d w =
      let w' : Work State = update_init_report_metrics tools.fl d w in
      let s : State = w'.state in with_state (record s { init_report_data = some d }) w'

  -- the `match` on the record; `drawn` is the random id for the span of an initialisation
  unfoldable pub handle_record : Bytes → ℤ → LambdaTelemetryRecord → Work State → Outcome State
  unfolding delay_or_emit on_start on_runtime_done on_report on_init_start on_init_report
  handle_record drawn time (function log_text) w =
      on_function tools config of_invocation delay_or_emit time log_text w
  handle_record drawn time (extension log_text) w = (none, w)
  handle_record drawn time (platform_init_start kind phase runtime_version arn) w = (
    none,
    on_init_start drawn
        (record {
          time = time;
          initialization_type = kind;
          phase = phase;
          runtime_version = runtime_version;
          runtime_version_arn = arn;
        })
        w,
  )
  handle_record drawn time (platform_init_runtime_done kind phase status error_type spans) w =
      let s : State = w.state in
      (
        none,
        with_state
            (record s {
              init_runtime_done_data = some (record {
                time = time;
                initialization_type = kind;
                phase = phase;
                status = status;
                error_type = error_type;
                spans = spans;
              });
            })
            w,
      )
  handle_record drawn time (platform_init_report kind phase metrics spans) w = (
    none,
    on_init_report
        (record {
          time = time;
          initialization_type = kind;
          phase = phase;
          metrics = metrics;
          spans = spans;
        })
        w,
  )
  handle_record drawn time (platform_start request_id version tracing) w =
      on_start
        (record { time = time; request_id = request_id; version = version; tracing = tracing }) w
  handle_record drawn time
        (platform_runtime_done request_id status error_type metrics spans tracing) w =
      on_runtime_done
        (record {
          time = time;
          request_id = request_id;
          status = status;
          error_type = error_type;
          metrics = metrics;
          spans = spans;
          tracing = tracing;
        })
        w
  handle_record drawn time (platform_report request_id status error_type metrics spans tracing) w =
      on_report
        (record {
          time = time;
          request_id = request_id;
          status = status;
          error_type = error_type;
          metrics = metrics;
          spans = spans;
          tracing = tracing;
        })
        w
  handle_record drawn time platform_extension w = (none, w)
  handle_record drawn time platform_telemetry_subscription w = (none, w)
  handle_record drawn time platform_logs_dropped w = (none, w)

  unfoldable pub process_telemetry : Bytes → LambdaTelemetry → Work State → Outcome State
  unfolding handle_record timed
  process_telemetry drawn e w =
      timed (λ (time : ℤ). handle_record drawn time e.event) (event_timestamp tools.in_range e) w

  -- the part of `process_function_spans` before the logs
  unfoldable pub store_function_spans : List ResourceSpans → Work State → Work State
  store_function_spans function_spans w =
      let s : State = w.state in
      let (tracing_state, rest) =
        Spans.process_function_spans tools.spans config function_spans s.tracing_state in
      let o =
        if tracing_state.should_produce_spans && is_otel config.tracing_mode
        then add_function_resource_spans rest w.output_buffers
        else w.output_buffers in
      with_output o (with_state (record s { tracing_state = tracing_state }) w)

  unfoldable pub process_function_spans : List ResourceSpans → Work State → Outcome State
  unfolding store_function_spans conclude_delay
  process_function_spans function_spans w =
      let w' : Work State = store_function_spans function_spans w in
      let s : State = w'.state in
      if is_structured config.log_mode
        && (s.delaying_logs && is_some s.tracing_state.cx_early_invocation_span)
      then conclude_delay w'
      else (none, w')

  accumulate_scopes : List ScopeMetrics → OtelMetricsAccumulator → OtelMetricsAccumulator
  accumulate_scopes [] acc = acc
  accumulate_scopes (sm ∷ r) acc =
      accumulate_scopes r (Accumulator.accumulate tools.fl tools.value_format sm.metrics acc)

  accumulate_resources : List ResourceMetrics → OtelMetricsAccumulator → OtelMetricsAccumulator
  unfolding accumulate_scopes
  accumulate_resources [] acc = acc
  accumulate_resources (rm ∷ r) acc =
      accumulate_resources r (accumulate_scopes rm.scope_metrics acc)

  unfoldable pub metrics_for :
      OtelMetricsMode
      → List ResourceMetrics
      → OtelMetricsAccumulator
      → OutputBuffers
      → OtelMetricsAccumulator × OutputBuffers
  unfolding accumulate_resources
  metrics_for OtelMetricsMode.disabled function_metrics acc o = (acc, o)
  metrics_for OtelMetricsMode.direct function_metrics acc o =
      (acc, record o { function_metrics_buffer = o.function_metrics_buffer ++ function_metrics })
  metrics_for OtelMetricsMode.processed function_metrics acc o =
      (accumulate_resources function_metrics acc, o)

  unfoldable pub process_function_metrics :
      List ResourceMetrics
      → OtelMetricsAccumulator
      → OutputBuffers
      → OtelMetricsAccumulator × OutputBuffers
  unfolding metrics_for
  process_function_metrics function_metrics acc o =
      metrics_for config.otel_metrics_mode function_metrics acc o
