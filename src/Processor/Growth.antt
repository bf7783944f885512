-- ===== src/Processor/Growth.antt =====
-- src/telemetry/processor/telemetry_processor.rs: nothing is taken from the buffers.
use coralogix_aws_lambda_tel.Prelude.{
  String, ◌≡◌, refl, sym, subst, inl, inr, ◌&&◌, none, List, [], ◌∷◌, ◌++◌,
}
use coralogix_aws_lambda_tel.Prelude.{Bool-cases, is_some}
use coralogix_aws_lambda_tel.Prelude.{ℤ}
use coralogix_aws_lambda_tel.Proto.{Span, ScopeSpans, ResourceSpans, ResourceMetrics, LogRecord}
use coralogix_aws_lambda_tel.Events.{
  LambdaTelemetryRecord, function, extension, platform_init_start, platform_init_runtime_done,
  platform_init_report, platform_start, platform_runtime_done, platform_report, platform_extension,
  platform_telemetry_subscription, platform_logs_dropped, LambdaTelemetry, Result, ok, err,
  millis_to_nanos, event_timestamp,
}
use coralogix_aws_lambda_tel.Config.{
  is_structured, OtelMetricsMode, TracingMode, TelemetryProcessorConfig,
}
use coralogix_aws_lambda_tel.Logs.Metadata.{of_degraded}
use coralogix_aws_lambda_tel.Processing.State.{
  InvocationProcessingState, DegradedProcessingState, is_otel, is_telemetry_api,
}
use coralogix_aws_lambda_tel.Service.State.{
  OutputBuffers, add_function_scope_spans, add_function_resource_spans,
}
use coralogix_aws_lambda_tel.Processor.Steps.{
  ProcessorTools, Work, Outcome, push_log, timed, push_epsagon_trace, append_spans,
  update_report_metrics, update_metrics_after_report, emit_function_log, emit_start_log,
  emit_runtime_done_log, emit_report_log, detected, on_function,
}
use coralogix_aws_lambda_tel.Processor.Telemetry.{
  otel_spans, spans_for, emit_invocation_spans, emit_report_spans, store_function_spans,
  process_function_spans, process_function_metrics,
}
use coralogix_aws_lambda_tel.Processor.Outcomes.{Leaves, Leaves-then, if_branches}
use coralogix_aws_lambda_tel.Processor.Degraded
use coralogix_aws_lambda_tel.Processor.Degraded.{process_telemetry_in_degraded_mode}
use coralogix_aws_lambda_tel.Processor.Epsagon.{
  EpsagonTraceDetectionResult, regular_log, epsagon_trace_json, detect_epsagon_trace,
}
use coralogix_aws_lambda_tel.Processor.Relations.{RelationLaws, conclude_delay-Follows}
use coralogix_aws_lambda_tel.Service.Growth.{
  IsPrefix, IsPrefix-refl, Grows, Grows-refl, Grows-trans,
}
use coralogix_aws_lambda_tel.OtelMetrics.Accumulator
use coralogix_aws_lambda_tel.Processor.Telemetry.{metrics_for}

abbrev State : Type 0
State = InvocationProcessingState

appended_prefix : {A : Type 0} (xs ys : List A) → IsPrefix xs (xs ++ ys)
appended_prefix xs ys = (ys, refl)

add_function_scope_spans-Grows :
    (r : List ScopeSpans) (o : OutputBuffers) → Grows o (add_function_scope_spans r o)
unfolding add_function_scope_spans
add_function_scope_spans-Grows [] o = Grows-refl o
add_function_scope_spans-Grows (ss ∷ r) o =
    Grows-trans
      (record {
        logs = IsPrefix-refl _;
        spans = IsPrefix-refl _;
        function_metrics = IsPrefix-refl _;
        function_spans = appended_prefix _ _;
        epsagon_traces = IsPrefix-refl _;
      })
      (add_function_scope_spans-Grows r _)

add_function_resource_spans-Grows :
    (r : List ResourceSpans) (o : OutputBuffers) → Grows o (add_function_resource_spans r o)
unfolding add_function_resource_spans
add_function_resource_spans-Grows [] o = Grows-refl o
add_function_resource_spans-Grows (rs ∷ r) o =
    Grows-trans (add_function_scope_spans-Grows rs.scope_spans o)
      (add_function_resource_spans-Grows r _)

append_spans-Grows : (spans : List Span) (o : OutputBuffers) → Grows o (append_spans spans o)
unfolding append_spans
append_spans-Grows spans o = record {
  logs = IsPrefix-refl _;
  spans = appended_prefix _ _;
  function_metrics = IsPrefix-refl _;
  function_spans = IsPrefix-refl _;
  epsagon_traces = IsPrefix-refl _;
}

abbrev with_log : OutputBuffers → LogRecord → OutputBuffers
with_log o log = record o { logs_buffer = o.logs_buffer ++ log ∷ [] }

log-Grows : (log : LogRecord) (o : OutputBuffers) → Grows o (with_log o log)
log-Grows log o = record {
  logs = appended_prefix _ _;
  spans = IsPrefix-refl _;
  function_metrics = IsPrefix-refl _;
  function_spans = IsPrefix-refl _;
  epsagon_traces = IsPrefix-refl _;
}

epsagon-Grows :
    {S : Type 0} (trace : String) (w : Work S)
    → Grows w.output_buffers (push_epsagon_trace trace w).output_buffers
unfolding push_epsagon_trace
epsagon-Grows trace w = record {
  logs = IsPrefix-refl _;
  spans = IsPrefix-refl _;
  function_metrics = IsPrefix-refl _;
  function_spans = IsPrefix-refl _;
  epsagon_traces = appended_prefix _ _;
}

same-Grows : {o o' : OutputBuffers} → o' ≡ o → Grows o o'
same-Grows {o} e = subst (λ p. Grows o p) (sym e) (Grows-refl o)

abbrev pub WorkGrows : {S : Type 0} → Work S → Work S → Type 0
WorkGrows w w' = Grows w.output_buffers w'.output_buffers

module _ (tools : ProcessorTools) (config : TelemetryProcessorConfig) where
  spans_for-Grows :
      (mode : TracingMode) (s : State) (o : OutputBuffers)
      → Grows o (spans_for tools config mode s o)
  unfolding spans_for otel_spans
  spans_for-Grows TracingMode.otel_instrumentation s o =
      Grows-trans (add_function_scope_spans-Grows _ o) (append_spans-Grows _ _)
  spans_for-Grows TracingMode.telemetry_api s o = append_spans-Grows _ o
  spans_for-Grows TracingMode.disabled s o = Grows-refl o

  emit_invocation_spans-Grows :
      (s : State) (o : OutputBuffers) → Grows o (emit_invocation_spans tools config s o)
  unfolding emit_invocation_spans
  emit_invocation_spans-Grows s o =
      if_branches (Grows o) s.tracing_state.should_produce_spans
        (spans_for-Grows config.tracing_mode s o) (Grows-refl o)

  emit_report_spans-Grows :
      (s : State) (o : OutputBuffers) → Grows o (emit_report_spans tools config s o)
  unfolding emit_report_spans
  emit_report_spans-Grows s o =
      if_branches (Grows o)
        (s.tracing_state.should_produce_spans && is_telemetry_api config.tracing_mode)
        (append_spans-Grows _ o) (Grows-refl o)

  pub WorkGrows-laws : RelationLaws tools config WorkGrows
  WorkGrows-laws = record {
    trans = λ h k. Grows-trans h k;
    quiet = λ w w' e same. same-Grows e;
    logged = λ w log. log-Grows log w.output_buffers;
    epsagon = λ w trace. epsagon-Grows trace w;
    at_runtime_done = λ w. emit_invocation_spans-Grows w.state w.output_buffers;
    at_report = λ w. emit_report_spans-Grows w.state w.output_buffers;
  }

  pub process_function_spans-Grows :
      (spans : List ResourceSpans) (w : Work State)
      → Leaves (WorkGrows w) (process_function_spans tools config spans w)
  unfolding process_function_spans store_function_spans
  process_function_spans-Grows spans w =
      let v : Work State = store_function_spans tools config spans w in
      let stored : WorkGrows w v =
        if_branches (Grows w.output_buffers)
          (v.state.tracing_state.should_produce_spans && is_otel config.tracing_mode)
          (add_function_resource_spans-Grows _ w.output_buffers) (Grows-refl _) in
      if_branches (Leaves (WorkGrows w))
        (is_structured config.log_mode
          && (v.state.delaying_logs && is_some v.state.tracing_state.cx_early_invocation_span))
        (record { known = Grows-trans stored (conclude_delay-Follows WorkGrows-laws v).known })
        (record { known = stored })

  metrics_for-Grows :
      (m : OtelMetricsMode) (r : List ResourceMetrics) (acc : Accumulator.OtelMetricsAccumulator)
      (o : OutputBuffers)
      → Grows o (metrics_for tools config m r acc o).1
  unfolding metrics_for
  metrics_for-Grows OtelMetricsMode.disabled r acc o = Grows-refl o
  metrics_for-Grows OtelMetricsMode.processed r acc o = Grows-refl o
  metrics_for-Grows OtelMetricsMode.direct r acc o = record {
    logs = IsPrefix-refl _;
    spans = IsPrefix-refl _;
    function_metrics = appended_prefix _ _;
    function_spans = IsPrefix-refl _;
    epsagon_traces = IsPrefix-refl _;
  }

  pub process_function_metrics-Grows :
      (r : List ResourceMetrics) (acc : Accumulator.OtelMetricsAccumulator) (o : OutputBuffers)
      → Grows o (process_function_metrics tools config r acc o).1
  unfolding process_function_metrics
  process_function_metrics-Grows r acc o = metrics_for-Grows config.otel_metrics_mode r acc o

  -- the degraded mode
  abbrev LeavesMore : Work DegradedProcessingState → Outcome DegradedProcessingState → Type 0
  LeavesMore w o = Leaves (WorkGrows w) o

  push_log-Grows :
      (r : Result LogRecord × DegradedProcessingState) (w : Work DegradedProcessingState)
      → LeavesMore w (push_log r w)
  unfolding push_log
  push_log-Grows (ok log, s) w = record { known = log-Grows log w.output_buffers }
  push_log-Grows (err e, s) w = record { known = Grows-refl _ }

  still : (w : Work DegradedProcessingState) → LeavesMore w (none, w)
  still w = record { known = Grows-refl _ }

  detected_degraded :
      (time : ℤ) (r : EpsagonTraceDetectionResult) (w : Work DegradedProcessingState)
      → LeavesMore w
          (detected tools config of_degraded (emit_function_log tools config of_degraded) time r w)
  unfolding detected emit_function_log
  detected_degraded time (epsagon_trace_json t) w = record { known = epsagon-Grows t w }
  detected_degraded time (regular_log t) w = push_log-Grows _ w

  degraded-Grows :
      (time : ℤ) (r : LambdaTelemetryRecord) (w : Work DegradedProcessingState)
      → LeavesMore w (Degraded.handle_record tools config time r w)
  unfolding Degraded.handle_record Degraded.on_init_report Degraded.on_start Degraded.on_report
      on_function emit_start_log emit_runtime_done_log emit_report_log update_report_metrics
      update_metrics_after_report
  degraded-Grows time (function text) w =
      if_branches (LeavesMore w) (is_structured config.log_mode)
        (detected_degraded time (detect_epsagon_trace tools.epsagon text) w) (still w)
  degraded-Grows time (extension text) w = still w
  degraded-Grows time (platform_init_start _ _ _ _) w = still w
  degraded-Grows time (platform_init_runtime_done _ _ _ _ _) w = record { known = Grows-refl _ }
  degraded-Grows time (platform_init_report _ _ _ _) w = record {
    known =
        if_branches (Grows w.output_buffers) (Degraded.is_traced config.tracing_mode)
          (append_spans-Grows _ _) (Grows-refl _);
  }
  degraded-Grows time (platform_start _ _ _) w =
      if_branches (LeavesMore w) (is_structured config.log_mode && config.platform_log_set.start)
        (push_log-Grows _ w) (still w)
  degraded-Grows time (platform_runtime_done _ _ _ _ _ _) w =
      if_branches (LeavesMore w)
        (is_structured config.log_mode && config.platform_log_set.runtime_done) (push_log-Grows _ w)
        (still w)
  degraded-Grows time (platform_report _ _ _ _ _ _) w =
      Leaves-then
        (if_branches (LeavesMore w)
          (is_structured config.log_mode && config.platform_log_set.report) (push_log-Grows _ w)
          (still w))
        (λ v h. h) (λ v h. record { known = h })
  degraded-Grows time platform_extension w = still w
  degraded-Grows time platform_telemetry_subscription w = still w
  degraded-Grows time platform_logs_dropped w = still w

  pub process_telemetry_in_degraded_mode-Grows :
      (e : LambdaTelemetry) (w : Work DegradedProcessingState)
      → LeavesMore w (process_telemetry_in_degraded_mode tools config e w)
  unfolding process_telemetry_in_degraded_mode timed event_timestamp
  process_telemetry_in_degraded_mode-Grows e w =
      elim (Bool-cases (tools.in_range (millis_to_nanos e.time_millis))) [
        | inl inside ↦ rw inside (degraded-Grows _ e.event w)
        | inr outside ↦ rw outside (record { known = Grows-refl _ })
      ]
