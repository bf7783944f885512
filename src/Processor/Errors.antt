-- ===== src/Processor/Errors.antt =====
-- src/telemetry/processor/telemetry_processor.rs: what makes the processing of an event fail.
use coralogix_aws_lambda_tel.Prelude.{
  String, ◌≡◌, refl, inl, inr, false, not, ◌&&◌, Option, none, some, List, [], ◌∷◌,
}
use coralogix_aws_lambda_tel.Prelude.{Bool-cases}
use coralogix_aws_lambda_tel.Prelude.{ℤ, FloatOps}
use coralogix_aws_lambda_tel.Proto.{Bytes, ResourceSpans, LogRecord}
use coralogix_aws_lambda_tel.Events.{
  PlatformStartData, PlatformRuntimeDoneData, PlatformReportData, LambdaTelemetryRecord, function,
  extension, platform_init_start, platform_init_runtime_done, platform_init_report, platform_start,
  platform_runtime_done, platform_report, platform_extension, platform_telemetry_subscription,
  platform_logs_dropped, LambdaTelemetry, Error, component_range, serialization, invalid_arn, panic,
  Result, ok, err, millis_to_nanos, event_timestamp,
}
use coralogix_aws_lambda_tel.Config.{is_structured, TelemetryProcessorConfig}
use coralogix_aws_lambda_tel.Logs.Metadata.{ProcessingState, of_invocation, of_degraded}
use coralogix_aws_lambda_tel.Logs.Records.{LogBody}
use coralogix_aws_lambda_tel.Processing.State.{
  InvocationProcessingState, DegradedProcessingState, RawFunctionLog,
}
use coralogix_aws_lambda_tel.PlatformMetrics.Mode
use coralogix_aws_lambda_tel.PlatformMetrics.Mode.{PlatformMetricsState, v1, v2}
use coralogix_aws_lambda_tel.PlatformMetrics.V1
use coralogix_aws_lambda_tel.Processor.Steps.{
  ProcessorTools, Work, Outcome, push_log, timed, metrics_after_report, update_metrics_after_report,
  emit_function_log, emit_start_log, emit_runtime_done_log, emit_report_log, detected, on_function,
}
use coralogix_aws_lambda_tel.Processor.Telemetry.{
  emits_start_logs, emit_function_logs, emit_taken_logs, emit_known_start, process_delayed_logs,
  conclude_delay, delay_or_emit, on_start, on_runtime_done, conclude_report, on_report,
  handle_record, process_telemetry, store_function_spans, process_function_spans,
}
use coralogix_aws_lambda_tel.Processor.Outcomes.{
  OnError, FailsOnlyWith, FailsOnlyWith-then, if_branches,
}
use coralogix_aws_lambda_tel.Logs.Records.Failures.{
  FailsUnserialized, make_function_log-FailsUnserialized, make_platform_start_log-FailsUnserialized,
  make_platform_runtime_done_log-FailsUnserialized, make_platform_report_log-FailsUnserialized,
}
use coralogix_aws_lambda_tel.Processor.Degraded
use coralogix_aws_lambda_tel.Processor.Degraded.{process_telemetry_in_degraded_mode}
use coralogix_aws_lambda_tel.Processor.Epsagon.{
  EpsagonTraceDetectionResult, regular_log, epsagon_trace_json, detect_epsagon_trace,
}

-- The time of the event is out of range, or something to be logged could not be serialized.
abbrev pub IsExplained : ProcessorTools → LambdaTelemetry → Error → Type 0
IsExplained tools e component_range = tools.in_range (millis_to_nanos e.time_millis) ≡ false
IsExplained tools e serialization = (body : LogBody) × (tools.logs.to_value body ≡ none)
IsExplained tools e _ = ⊥

metrics_after_report_lem :
    (fl : FloatOps) (P : Error → Type 0) {S : Type 0} (d : PlatformReportData)
    (o : Option PlatformReportData) (r : Option PlatformRuntimeDoneData)
    → o ≡ some d
    → (m : PlatformMetricsState) (w : Work S) → OnError P ((metrics_after_report fl o r m).0, w)
unfolding metrics_after_report V1.update_metrics_after_report
metrics_after_report_lem fl P d o r h (v1 m) w = rw h tt
metrics_after_report_lem fl P d o r h (v2 m) w = tt
metrics_after_report_lem fl P d o r h Mode.disabled w = tt

module _ (tools : ProcessorTools) (e : LambdaTelemetry) where
  abbrev IsFine : {S : Type 0} → Outcome S → Type 0
  IsFine o = FailsOnlyWith (IsExplained tools e) o

  module _ {S : Type 0} where
    done_IsFine : (w : Work S) → IsFine (none, w)
    done_IsFine w = record { known = tt }

    push_log-IsFine :
        (r : Result LogRecord) (s : S) (w : Work S)
        → FailsUnserialized tools.logs r
        → IsFine (push_log (r, s) w)
    unfolding push_log
    push_log-IsFine (ok log) s w h = record { known = tt }
    push_log-IsFine (err serialization) s w h = record { known = h }
    push_log-IsFine (err component_range) s w h = elim h [ ]
    push_log-IsFine (err (invalid_arn _)) s w h = elim h [ ]
    push_log-IsFine (err panic) s w h = elim h [ ]

    -- Once the report is stored, the update of the metrics does not panic.
    update_metrics_after_report-IsFine :
        (P : ProcessingState S) (w : Work S) (d : PlatformReportData)
        → P.get_report_data w.state ≡ some d
        → IsFine (update_metrics_after_report tools.fl P w)
    unfolding update_metrics_after_report
    update_metrics_after_report-IsFine P w d h = record {
      known = metrics_after_report_lem tools.fl (IsExplained tools e) d _ _ h w.metrics_state _;
    }

    module _ (config : TelemetryProcessorConfig) (P : ProcessingState S) where
      emit_function_log-IsFine :
          (log : RawFunctionLog) (w : Work S) → IsFine (emit_function_log tools config P log w)
      unfolding emit_function_log
      emit_function_log-IsFine log w =
          push_log-IsFine _ _ w
            (make_function_log-FailsUnserialized tools.logs P config log w.state)

      emit_start_log-IsFine :
          (d : PlatformStartData) (w : Work S) → IsFine (emit_start_log tools config P d w)
      unfolding emit_start_log
      emit_start_log-IsFine d w =
          push_log-IsFine _ _ w
            (make_platform_start_log-FailsUnserialized tools.logs P config d w.state)

      emit_runtime_done_log-IsFine :
          (d : PlatformRuntimeDoneData) (a b : Option String) (w : Work S)
          → IsFine (emit_runtime_done_log tools config P d a b w)
      unfolding emit_runtime_done_log
      emit_runtime_done_log-IsFine d a b w =
          if_branches IsFine (is_structured config.log_mode && config.platform_log_set.runtime_done)
            (push_log-IsFine _ _ w
              (make_platform_runtime_done_log-FailsUnserialized tools.logs P config d a b w.state))
            (done_IsFine w)

      emit_report_log-IsFine :
          (d : PlatformReportData) (w : Work S) → IsFine (emit_report_log tools config P d w)
      unfolding emit_report_log
      emit_report_log-IsFine d w =
          if_branches IsFine (is_structured config.log_mode && config.platform_log_set.report)
            (push_log-IsFine _ _ w
              (make_platform_report_log-FailsUnserialized tools.logs P config d w.state))
            (done_IsFine w)

      detected-IsFine :
          (regular : RawFunctionLog → Work S → Outcome S) (time : ℤ)
          (r : EpsagonTraceDetectionResult) (w : Work S)
          → ((log : RawFunctionLog) → IsFine (regular log w))
          → IsFine (detected tools config P regular time r w)
      unfolding detected
      detected-IsFine regular time (epsagon_trace_json trace) w h = done_IsFine _
      detected-IsFine regular time (regular_log text) w h = h _

      on_function-IsFine :
          (regular : RawFunctionLog → Work S → Outcome S) (time : ℤ) (text : String) (w : Work S)
          → ((log : RawFunctionLog) → IsFine (regular log w))
          → IsFine (on_function tools config P regular time text w)
      unfolding on_function
      on_function-IsFine regular time text w h =
          if_branches IsFine (is_structured config.log_mode)
            (detected-IsFine regular time (detect_epsagon_trace tools.epsagon text) w h)
            (done_IsFine w)

    timed-IsFine :
        (f : ℤ → Work S → Outcome S) (w : Work S)
        → ((time : ℤ) → IsFine (f time w))
        → IsFine (timed f (event_timestamp tools.in_range e) w)
    unfolding timed event_timestamp
    timed-IsFine f w h = elim (Bool-cases (tools.in_range (millis_to_nanos e.time_millis))) [
      | inl inside ↦ rw inside (h _)
      | inr outside ↦ rw outside (record { known = outside })
    ]

  module _ (config : TelemetryProcessorConfig) where
    emit_function_logs-IsFine :
        (logs : List RawFunctionLog) (w : Work InvocationProcessingState)
        → IsFine (emit_function_logs tools config logs w)
    unfolding emit_function_logs
    emit_function_logs-IsFine [] w = done_IsFine w
    emit_function_logs-IsFine (log ∷ r) w =
        FailsOnlyWith-then (emit_function_log-IsFine config of_invocation log w)
          (λ w. emit_function_logs-IsFine r w)

    emit_taken_logs-IsFine :
        (w : Work InvocationProcessingState) → IsFine (emit_taken_logs tools config w)
    unfolding emit_taken_logs
    emit_taken_logs-IsFine w = emit_function_logs-IsFine _ _

    emit_known_start-IsFine :
        (o : Option PlatformStartData) (w : Work InvocationProcessingState)
        → IsFine (emit_known_start tools config o w)
    unfolding emit_known_start
    emit_known_start-IsFine none w = done_IsFine w
    emit_known_start-IsFine (some d) w =
        if_branches IsFine config.platform_log_set.start
          (emit_start_log-IsFine config of_invocation d w) (done_IsFine w)

    conclude_delay-IsFine :
        (w : Work InvocationProcessingState) → IsFine (conclude_delay tools config w)
    unfolding conclude_delay process_delayed_logs
    conclude_delay-IsFine w =
        FailsOnlyWith-then (emit_known_start-IsFine _ _) (λ w. emit_taken_logs-IsFine w)

    on_start-IsFine :
        (d : PlatformStartData) (w : Work InvocationProcessingState)
        → IsFine (on_start tools config d w)
    unfolding on_start
    on_start-IsFine d w =
        FailsOnlyWith-then
          (if_branches IsFine (emits_start_logs tools config && not w.state.delaying_logs)
            (emit_start_log-IsFine config of_invocation d w) (done_IsFine w))
          (λ w. done_IsFine _)

    on_runtime_done-IsFine :
        (d : PlatformRuntimeDoneData) (w : Work InvocationProcessingState)
        → IsFine (on_runtime_done tools config d w)
    unfolding on_runtime_done
    on_runtime_done-IsFine d w =
        FailsOnlyWith-then
          (FailsOnlyWith-then
            (if_branches IsFine (is_structured config.log_mode && w.state.delaying_logs)
              (conclude_delay-IsFine w) (done_IsFine w))
            (λ w. emit_runtime_done_log-IsFine config of_invocation d _ _ w))
          (λ w. done_IsFine _)

    on_report-IsFine :
        (d : PlatformReportData) (w : Work InvocationProcessingState)
        → IsFine (on_report tools config d w)
    unfolding on_report conclude_report
    on_report-IsFine d w =
        FailsOnlyWith-then
          (FailsOnlyWith-then
            (if_branches IsFine (is_structured config.log_mode) (emit_taken_logs-IsFine w)
              (done_IsFine w))
            (λ w. emit_report_log-IsFine config of_invocation d w))
          (λ w. update_metrics_after_report-IsFine of_invocation _ d refl)

    delay_or_emit-IsFine :
        (log : RawFunctionLog) (w : Work InvocationProcessingState)
        → IsFine (delay_or_emit tools config log w)
    unfolding delay_or_emit
    delay_or_emit-IsFine log w =
        if_branches IsFine w.state.delaying_logs (done_IsFine _)
          (emit_function_log-IsFine config of_invocation log w)

    handle_record-IsFine :
        (drawn : Bytes) (time : ℤ) (r : LambdaTelemetryRecord) (w : Work InvocationProcessingState)
        → IsFine (handle_record tools config drawn time r w)
    unfolding handle_record
    handle_record-IsFine drawn time (function text) w =
        on_function-IsFine config of_invocation _ time text w (λ log. delay_or_emit-IsFine log w)
    handle_record-IsFine drawn time (extension text) w = done_IsFine w
    handle_record-IsFine drawn time (platform_init_start _ _ _ _) w = done_IsFine _
    handle_record-IsFine drawn time (platform_init_runtime_done _ _ _ _ _) w = done_IsFine _
    handle_record-IsFine drawn time (platform_init_report _ _ _ _) w = done_IsFine _
    handle_record-IsFine drawn time (platform_start _ _ _) w = on_start-IsFine _ w
    handle_record-IsFine drawn time (platform_runtime_done _ _ _ _ _ _) w =
        on_runtime_done-IsFine _ w
    handle_record-IsFine drawn time (platform_report _ _ _ _ _ _) w = on_report-IsFine _ w
    handle_record-IsFine drawn time platform_extension w = done_IsFine w
    handle_record-IsFine drawn time platform_telemetry_subscription w = done_IsFine w
    handle_record-IsFine drawn time platform_logs_dropped w = done_IsFine w

    degraded-IsFine :
        (time : ℤ) (r : LambdaTelemetryRecord) (w : Work DegradedProcessingState)
        → IsFine (Degraded.handle_record tools config time r w)
    unfolding Degraded.handle_record Degraded.on_start Degraded.on_report
    degraded-IsFine time (function text) w =
        on_function-IsFine config of_degraded _ time text w
          (λ log. emit_function_log-IsFine config of_degraded log w)
    degraded-IsFine time (extension text) w = done_IsFine w
    degraded-IsFine time (platform_init_start _ _ _ _) w = done_IsFine w
    degraded-IsFine time (platform_init_runtime_done _ _ _ _ _) w = done_IsFine _
    degraded-IsFine time (platform_init_report _ _ _ _) w = done_IsFine _
    degraded-IsFine time (platform_start _ _ _) w =
        if_branches IsFine (is_structured config.log_mode && config.platform_log_set.start)
          (emit_start_log-IsFine config of_degraded _ w) (done_IsFine w)
    degraded-IsFine time (platform_runtime_done _ _ _ _ _ _) w =
        emit_runtime_done_log-IsFine config of_degraded _ _ _ w
    degraded-IsFine time (platform_report _ _ _ _ _ _) w =
        FailsOnlyWith-then (emit_report_log-IsFine config of_degraded _ w)
          (λ w. update_metrics_after_report-IsFine of_degraded _ _ refl)
    degraded-IsFine time platform_extension w = done_IsFine w
    degraded-IsFine time platform_telemetry_subscription w = done_IsFine w
    degraded-IsFine time platform_logs_dropped w = done_IsFine w

    -- With an invocation or without one, the processing of an event fails only where the time of the event
    -- is out of range, or where something to be logged could not be serialized; so it never panics.
    pub process_telemetry-IsExplained :
        (drawn : Bytes) (w : Work InvocationProcessingState) (w' : Work DegradedProcessingState)
        → FailsOnlyWith (IsExplained tools e) (process_telemetry tools config drawn e w)
          × FailsOnlyWith
              (IsExplained tools e)
              (process_telemetry_in_degraded_mode tools config e w')
    unfolding process_telemetry process_telemetry_in_degraded_mode
    process_telemetry-IsExplained drawn w w' = (
      timed-IsFine _ w (λ time. handle_record-IsFine drawn time e.event w),
      timed-IsFine _ w' (λ time. degraded-IsFine time e.event w'),
    )

    process_function_spans-IsFine :
        (spans : List ResourceSpans) (w : Work InvocationProcessingState)
        → IsFine (process_function_spans tools config spans w)
    unfolding process_function_spans
    process_function_spans-IsFine spans w =
        if_branches IsFine _ (conclude_delay-IsFine (store_function_spans tools config spans w))
          (done_IsFine _)
