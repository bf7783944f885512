-- ===== src/Processor/Steps.antt =====
-- src/telemetry/processor/telemetry_processor.rs: what the handling of an event is made of. The
-- processing of an event changes a state, the platform metrics and the buffers, and may fail.
use coralogix_aws_lambda_tel.Prelude.{String, Bool, ◌&&◌, Option, none, some, List, [], ◌∷◌, ◌++◌}
use coralogix_aws_lambda_tel.Prelude.{if◌then◌else◌}
use coralogix_aws_lambda_tel.Prelude.{ℤ, F64, FloatOps}
use coralogix_aws_lambda_tel.Proto.{Span, LogRecord}
use coralogix_aws_lambda_tel.Events.{
  PlatformInitReportData, PlatformStartData, PlatformRuntimeDoneData, PlatformReportData, Error,
  Result, ok, err,
}
use coralogix_aws_lambda_tel.Config.{is_structured, TelemetryProcessorConfig}
use coralogix_aws_lambda_tel.Logs.Metadata.{ProcessingState}
use coralogix_aws_lambda_tel.Logs.Records.{
  LogTools, make_function_log, make_platform_start_log, make_platform_runtime_done_log,
  make_platform_report_log,
}
use coralogix_aws_lambda_tel.Processing.State.{RawFunctionLog}
use coralogix_aws_lambda_tel.Service.State.{OutputBuffers}
use coralogix_aws_lambda_tel.PlatformMetrics.Mode
use coralogix_aws_lambda_tel.PlatformMetrics.Mode.{PlatformMetricsState, v1, v2}
use coralogix_aws_lambda_tel.PlatformMetrics.V1
use coralogix_aws_lambda_tel.PlatformMetrics.V2
use coralogix_aws_lambda_tel.Processor.Epsagon.{
  EpsagonTools, EpsagonTraceDetectionResult, regular_log, epsagon_trace_json, detect_epsagon_trace,
}
use coralogix_aws_lambda_tel.Spans.{SpanTools}
use coralogix_aws_lambda_tel.OtelMetrics.TimeSeriesId.{ValueFormat}

-- the code of other crates: `to_i128` is the cast of an f64, `in_range` the range of `OffsetDateTime`,
-- `value_format` the printing of values in the identity of a series
pub record ProcessorTools : Type 0 where
  pub logs : LogTools
  pub epsagon : EpsagonTools
  pub spans : SpanTools
  pub fl : FloatOps
  pub to_i128 : F64 → ℤ
  pub in_range : ℤ → Bool
  pub value_format : ValueFormat

-- what the functions change through their `&mut` arguments
pub record Work (S : Type 0) : Type 0 where
  pub state : S
  pub metrics_state : PlatformMetricsState
  pub output_buffers : OutputBuffers

-- Changes made before an error stay.
abbrev pub Outcome : Type 0 → Type 0
Outcome S = Option Error × Work S

-- `?`: go on unless there was an error
infixl 5 ◌>>>◌
unfoldable pub ◌>>>◌ : {S : Type 0} → Outcome S → (Work S → Outcome S) → Outcome S
(none, w) >>> f = f w
(some e, w) >>> f = (some e, w)

-- `if let PlatformMetricsState::V2(metrics_state)`
abbrev in_v2 :
    (V2.PlatformMetricsState → V2.PlatformMetricsState)
    → PlatformMetricsState
    → PlatformMetricsState
in_v2 f (v2 m) = v2 (f m)
in_v2 f (v1 m) = v1 m
in_v2 f Mode.disabled = Mode.disabled

-- `spans_buffer.append`
unfoldable pub append_spans : List Span → OutputBuffers → OutputBuffers
append_spans spans o = record o { spans_buffer = o.spans_buffer ++ spans }

module _ (fl : FloatOps) where
  abbrev updated :
      V1.PlatformMetricsState → Result V1.PlatformMetricsState → Option Error × PlatformMetricsState
  updated old (ok m) = (none, v1 m)
  updated old (err e) = (some e, v1 old)

  -- the first mode reads the report and the end of the runtime from the state
  unfoldable pub metrics_after_report :
      Option PlatformReportData
      → Option PlatformRuntimeDoneData
      → PlatformMetricsState
      → Option Error × PlatformMetricsState
  metrics_after_report o done_data (v1 m) =
      updated m (V1.update_metrics_after_report fl o done_data m)
  metrics_after_report o done_data (v2 m) = (none, v2 m)
  metrics_after_report o done_data Mode.disabled = (none, Mode.disabled)

module _ {S : Type 0} where
  -- what follows `let time = event_timestamp(&event)?`
  unfoldable pub timed : (ℤ → Work S → Outcome S) → Result ℤ → Work S → Outcome S
  timed f (ok time) w = f time w
  timed f (err e) w = (some e, w)

  abbrev pub with_state : S → Work S → Work S
  with_state state w = record w { state = state }

  abbrev pub with_output : OutputBuffers → Work S → Work S
  with_output output w = record w { output_buffers = output }

  -- `logs_buffer.push(log?)`
  unfoldable pub push_log : Result LogRecord × S → Work S → Outcome S
  push_log (ok log, state) w =
      let o : OutputBuffers = w.output_buffers in
      (
        none,
        record w {
          state = state;
          output_buffers = record o { logs_buffer = o.logs_buffer ++ log ∷ [] };
        },
      )
  push_log (err e, state) w = (some e, with_state state w)

  unfoldable pub push_epsagon_trace : String → Work S → Work S
  push_epsagon_trace trace w =
      let o : OutputBuffers = w.output_buffers in
      with_output (record o { epsagon_traces_buffer = o.epsagon_traces_buffer ++ trace ∷ [] }) w

  module _ (fl : FloatOps) where
    unfoldable pub update_init_report_metrics : PlatformInitReportData → Work S → Work S
    update_init_report_metrics d w = record w {
      metrics_state = in_v2 (V2.update_metrics_with_init_report fl d) w.metrics_state;
    }

    unfoldable pub update_runtime_done_metrics : PlatformRuntimeDoneData → Work S → Work S
    update_runtime_done_metrics d w = record w {
      metrics_state = in_v2 (V2.update_metrics_with_runtime_done fl d) w.metrics_state;
    }

    unfoldable pub update_report_metrics : PlatformReportData → Work S → Work S
    update_report_metrics d w = record w {
      metrics_state = in_v2 (V2.update_metrics_with_report fl d) w.metrics_state;
    }

    unfoldable pub update_metrics_after_report : ProcessingState S → Work S → Outcome S
    unfolding metrics_after_report
    update_metrics_after_report P w =
        let (e, m) =
          metrics_after_report fl (P.get_report_data w.state) (P.get_runtime_done_data w.state)
            w.metrics_state in
        (e, record w { metrics_state = m })

module _ (tools : ProcessorTools) (config : TelemetryProcessorConfig) {S : Type 0}
    (P : ProcessingState S) where
  unfoldable pub emit_function_log : RawFunctionLog → Work S → Outcome S
  unfolding push_log
  emit_function_log log w = push_log (make_function_log tools.logs P config log w.state) w

  unfoldable pub emit_start_log : PlatformStartData → Work S → Outcome S
  unfolding push_log
  emit_start_log d w = push_log (make_platform_start_log tools.logs P config d w.state) w

  -- where the configuration asks for this log
  unfoldable pub emit_runtime_done_log :
      PlatformRuntimeDoneData → Option String → Option String → Work S → Outcome S
  unfolding push_log
  emit_runtime_done_log d handler_status description w =
      if is_structured config.log_mode && config.platform_log_set.runtime_done
      then push_log
          (make_platform_runtime_done_log tools.logs P config d handler_status description w.state)
          w
      else (none, w)

  unfoldable pub emit_report_log : PlatformReportData → Work S → Outcome S
  unfolding push_log
  emit_report_log d w =
      if is_structured config.log_mode && config.platform_log_set.report
      then push_log (make_platform_report_log tools.logs P config d w.state) w
      else (none, w)

  -- the branch `Function`, over what is done with a log that is no trace of Epsagon
  unfoldable pub detected :
      (RawFunctionLog → Work S → Outcome S) → ℤ → EpsagonTraceDetectionResult → Work S → Outcome S
  unfolding push_epsagon_trace
  detected regular time (epsagon_trace_json trace) w = (none, push_epsagon_trace trace w)
  detected regular time (regular_log log_text) w =
      regular (record { log_text = log_text; time = time }) w

  unfoldable pub on_function :
      (RawFunctionLog → Work S → Outcome S) → ℤ → String → Work S → Outcome S
  unfolding detected
  on_function regular time log_text w =
      if is_structured config.log_mode
      then detected regular time (detect_epsagon_trace tools.epsagon log_text) w
      else (none, w)
