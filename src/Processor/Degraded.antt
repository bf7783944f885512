-- ===== src/Processor/Degraded.antt =====
-- src/telemetry/processor/telemetry_processor.rs: the handling of events without an invocation.
use coralogix_aws_lambda_tel.Prelude.{Bool, true, false, ◌&&◌, none, some}
use coralogix_aws_lambda_tel.Prelude.{if◌then◌else◌}
use coralogix_aws_lambda_tel.Prelude.{ℤ}
use coralogix_aws_lambda_tel.Events.{
  PlatformInitReportData, PlatformStartData, PlatformReportData, LambdaTelemetryRecord, function,
  platform_init_runtime_done, platform_init_report, platform_start, platform_runtime_done,
  platform_report, LambdaTelemetry, event_timestamp,
}
use coralogix_aws_lambda_tel.Config.{is_structured, TracingMode, TelemetryProcessorConfig}
use coralogix_aws_lambda_tel.Logs.Metadata.{of_degraded}
use coralogix_aws_lambda_tel.Processing.State.{DegradedProcessingState}
use coralogix_aws_lambda_tel.Processor.Steps.{
  ProcessorTools, Work, Outcome, ◌>>>◌, with_state, with_output, timed, append_spans,
  update_report_metrics, update_metrics_after_report, emit_function_log, emit_start_log,
  emit_runtime_done_log, emit_report_log, on_function,
}
use coralogix_aws_lambda_tel.Spans.Platform.{make_degraded_spans_after_init}

abbrev State : Type 0
State = DegradedProcessingState

abbrev pub is_traced : TracingMode → Bool
is_traced TracingMode.disabled = false
is_traced _ = true

module _ (tools : ProcessorTools) (config : TelemetryProcessorConfig) where
  -- `PlatformInitReport`
  unfoldable pub on_init_report : PlatformInitReportData → Work State → Work State
  unfolding append_spans
  on_init_report d w =
      let s : State = w.state in
      let s' : State = record s { init_report_data = some d } in
      let o =
        if is_traced config.tracing_mode
        then append_spans (make_degraded_spans_after_init tools.fl s') w.output_buffers
        else w.output_buffers in
      with_output o (with_state s' w)

  -- `PlatformStart`
  unfoldable pub on_start : PlatformStartData → Work State → Outcome State
  on_start d w =
      if is_structured config.log_mode && config.platform_log_set.start
      then emit_start_log tools config of_degraded d w
      else (none, w)

  -- `PlatformReport`
  unfoldable pub on_report : PlatformReportData → Work State → Outcome State
  on_report d w = emit_report_log tools config of_degraded d w >>> λ (w : Work State).
      let w' : Work State = update_report_metrics tools.fl d w in
      let s : State = w'.state in
      update_metrics_after_report tools.fl of_degraded
        (with_state (record s { report_data = some d }) w')

  unfoldable pub handle_record : ℤ → LambdaTelemetryRecord → Work State → Outcome State
  unfolding on_init_report on_start on_report
  handle_record time (function log_text) w =
      on_function tools config of_degraded (emit_function_log tools config of_degraded) time
        log_text w
  handle_record time (platform_init_runtime_done kind phase status error_type spans) w =
      let s : State = w.state in
      (
        none,
        with_state
            (record s {
              init_runtime_done_data = some (record {
                time = time;
                initialization_type = kind;
                phase = phase;
                status = status;
                error_type = error_type;
                spans = spans;
              });
            })
            w,
      )
  handle_record time (platform_init_report kind phase metrics spans) w = (
    none,
    on_init_report
        (record {
          time = time;
          initialization_type = kind;
          phase = phase;
          metrics = metrics;
          spans = spans;
        })
        w,
  )
  handle_record time (platform_start request_id version tracing) w =
      on_start
        (record { time = time; request_id = request_id; version = version; tracing = tracing }) w
  handle_record time (platform_runtime_done request_id status error_type metrics spans tracing) w =
      emit_runtime_done_log tools config of_degraded
        (record {
          time = time;
          request_id = request_id;
          status = status;
          error_type = error_type;
          metrics = metrics;
          spans = spans;
          tracing = tracing;
        })
        none none w
  handle_record time (platform_report request_id status error_type metrics spans tracing) w =
      on_report
        (record {
          time = time;
          request_id = request_id;
          status = status;
          error_type = error_type;
          metrics = metrics;
          spans = spans;
          tracing = tracing;
        })
        w
  handle_record time _ w = (none, w)

  unfoldable pub process_telemetry_in_degraded_mode : LambdaTelemetry → Work State → Outcome State
  unfolding handle_record timed
  process_telemetry_in_degraded_mode e w =
      timed (λ (time : ℤ). handle_record time e.event) (event_timestamp tools.in_range e) w
