-- ===== src/Service/Lifecycle.antt =====
-- src/telemetry/telemetry_service.rs: the handlers of an invoke event and of the shutdown. While the first
-- waits for a signal, other handlers run: each stretch between two waits is a function of the state.
use coralogix_aws_lambda_tel.Prelude.{
  ℕ, zero, suc, ◌+◌, ◌-◌, ◌*◌, ◌/◌, ◌%◌, ◌≤◌, ◌<◌, min, max, String, ◌≡◌, refl, sym, ap, ◌∙◌, subst,
  fun_ext, ◌≢◌, ◌↔◌, ◌⊎◌, inl, inr, Bool, true, false, not, ◌&&◌, ◌||◌, Option, none, some, List,
  [], ◌∷◌, ◌++◌, map, append_assoc, append-nil, arith, str_eq, str_eq_iff,
}
use coralogix_aws_lambda_tel.Prelude.{
  ltb, leb, ◌==◌, if◌then◌else◌, ltb→lt, lt→ltb, leb→le, ==_iff, tests, Bool-cases, Option-cases,
  length, all, is_empty, is_some, is_none, or_option, unwrap_or, last_or, keep, length-append,
  map_option, and_then, All, All-append,
}
use coralogix_aws_lambda_tel.Prelude.{
  u64_mod, u64_max, i64_sign, add64, mul64, le_i64, max_i64, ℤ, pos, negsuc, eq_ℤ, as_u64, F64,
  FloatOps, f64_zero, f64_thousand, f64_million, find, modify_entry, ◌<>◌, show_u64, show_i64, join,
}
use coralogix_aws_lambda_tel.Proto.{
  Bytes, Value, string_value, bool_value, int_value, double_value, array_value, kvlist_value,
  bytes_value, AnyValue, unset, with_value, AnyValues, nil, cons, KeyValues, end, bare, pair,
  KeyValue, NumberValue, as_double, as_int, NumberDataPoint, HistogramDataPoint, ValueAtQuantile,
  SummaryDataPoint, MetricData, gauge, sum, histogram, summary, exponential_histogram, Metric,
  cumulative, InstrumentationScope, Resource, Status, Span, ScopeSpans, ResourceSpans, ScopeMetrics,
  ResourceMetrics, LogRecord, ScopeLogs, ResourceLogs,
}
use coralogix_aws_lambda_tel.Config
use coralogix_aws_lambda_tel.Config.{
  LogMode, is_structured, PlatformMetricsMode, OtelMetricsMode, TracingMode, TraceSamplingMode,
  TelemetryReportingStrategy, low_overhead, report_after_invocation,
  report_during_and_after_invocation, send_after_invocation, send_after_delay, PlatformEventLogSet,
  PlatformLogsConfig, LogMetadataConfig, LogsMetadataMode, BuiltInAttributeSet, AttributeConfig,
  AttributeConfigs, AttributeExclusionMode, exclusion_regex, TelemetryProcessorConfig,
  TelemetryServiceConfig,
}
use coralogix_aws_lambda_tel.Processing.State.{
  FunctionContext, XRayTraceContext, InvokeEventDataWithSpans, InvocationContext, Random,
  random_trace_id, random_span_id, make_invocation_context, InvocationProcessingState,
  new_invocation_state, DegradedProcessingState, new_degraded_state,
}
use coralogix_aws_lambda_tel.PlatformMetrics.Mode
use coralogix_aws_lambda_tel.OtelMetrics.Accumulator.{OtelMetricsAccumulator, export}
use coralogix_aws_lambda_tel.Service.State.{
  OutputBuffers, empty_buffers, add_function_scope_spans, add_function_resource_spans,
  take_function_spans, Signal, should_send_signal, invocation_done_signal, TelemetryServiceState,
  Processor, Setting,
}
use coralogix_aws_lambda_tel.OtelMetrics.TimeSeriesId.{ValueFormat}
use coralogix_aws_lambda_tel.Processing.State.{FunctionContext, InvokeEventDataWithSpans}
use coralogix_aws_lambda_tel.Senders.Pillars.{TelemetryBatch}
use coralogix_aws_lambda_tel.Service.Sending.{send_telemetry}
use coralogix_aws_lambda_tel.Service.Signals.{
  should_send_by_now, receive_invoke_event, flush_enqueued_telemetry,
}
pub mod Endings

-- where the handler of an invoke event stands
pub data Phase : Type 0 where
  awaiting_signal finished : Phase

abbrev low_overhead_only : {A : Type 0} → TelemetryReportingStrategy → A → A → A
low_overhead_only low_overhead a b = a
low_overhead_only report_after_invocation a b = b
low_overhead_only report_during_and_after_invocation a b = b

-- `remaining_time_ms`: the whole milliseconds up to the deadline, as a `u64`; the division rounds towards zero
remaining_ms : ℕ → ℕ → Option ℕ
remaining_ms now deadline =
    if leb now deadline
    then some ((deadline - now) / 1000000)
    else if ltb (now - deadline) 1000000
    then some 0
    else none

-- `deadline_in_range` says whether the `time` crate has the time of the deadline
unfoldable pub remaining_time_ms : (ℕ → Bool) → ℕ → ℕ → Option ℕ
unfolding remaining_ms
remaining_time_ms in_range now deadline_ms =
    if in_range (deadline_ms * 1000000) then remaining_ms now (deadline_ms * 1000000) else none

-- `max(remaining - 50, 0)` of a `u64`, or 0
unfoldable pub sleep_for : Option ℕ → ℕ
sleep_for none = 0
sleep_for (some remaining) = max ((remaining + u64_mod - 50) % u64_mod) 0

module _ (setting : Setting) (fl : FloatOps) (f : ValueFormat) (c : FunctionContext) where
  send_when : Bool → TelemetryServiceState → List TelemetryBatch × TelemetryServiceState
  send_when false s = ([], s)
  send_when true s =
      let (batch, s') = send_telemetry setting.config.processor_config fl f c s in (batch ∷ [], s')

  unfoldable pub send_if_due :
      ℕ → TelemetryServiceState → List TelemetryBatch × TelemetryServiceState
  unfolding send_when
  send_if_due now s = send_when (s.should_send || should_send_by_now now s) s

  -- the loop, from a wait on, over the signals that are in the channel; `clock` gives the time of each check
  unfoldable pub await_signals :
      (ℕ → ℕ)
      → ℕ
      → List Signal
      → TelemetryServiceState
      → Phase × List TelemetryBatch × TelemetryServiceState
  unfolding send_if_due
  await_signals clock n [] s = (awaiting_signal, [], record s { signals = [] })
  await_signals clock n (invocation_done_signal ∷ r) s = (finished, [], record s { signals = r })
  await_signals clock n (should_send_signal ∷ r) s =
      let (sent, s1) = send_if_due (clock n) s in
      let (phase, later, s2) = await_signals clock (suc n) r s1 in (phase, sent ++ later, s2)

  -- the handler, where it waits for a signal
  unfoldable pub resume_invoke_event :
      (ℕ → ℕ) → TelemetryServiceState → Phase × List TelemetryBatch × TelemetryServiceState
  unfolding await_signals
  resume_invoke_event clock s = await_signals clock 0 s.signals s

  send_and_await :
      (ℕ → ℕ) → TelemetryServiceState → Phase × List TelemetryBatch × TelemetryServiceState
  unfolding await_signals send_if_due
  send_and_await clock s =
      let (sent, s1) = send_if_due (clock 0) s in
      let (phase, later, s2) = await_signals clock 1 s1.signals s1 in (phase, sent ++ later, s2)

  -- `handle_invoke_event` up to its first wait, or to the end of its loop
  unfoldable pub handle_invoke_event :
      (ℕ → ℕ)
      → InvokeEventDataWithSpans
      → TelemetryServiceState
      → Phase × List TelemetryBatch × TelemetryServiceState
  unfolding send_and_await send_if_due
  handle_invoke_event clock e s0 =
      let s = receive_invoke_event setting e s0 in
      let (sent, s1) = send_if_due (clock 0) s in
      low_overhead_only setting.config.reporting_strategy (finished, sent, s1)
        (send_and_await clock s)

  -- `handle_shutdown_event`: whether it sleeps first, and what it does then; where no context was obtained, `c` is
  -- the degraded one
  unfoldable pub waits_for_telemetry : TelemetryServiceState → Bool
  waits_for_telemetry s =
      low_overhead_only setting.config.reporting_strategy true false
      || not s.received_first_invocation

  unfoldable pub flush_on_shutdown : TelemetryServiceState → TelemetryBatch × TelemetryServiceState
  flush_on_shutdown s =
      send_telemetry setting.config.processor_config fl f c (flush_enqueued_telemetry setting c s)

-- around the awaiting of the sends in flight, at the end of `handle_invoke_event`
unfoldable pub set_otel_expected : Setting → Bool → TelemetryServiceState → TelemetryServiceState
set_otel_expected setting b s =
    low_overhead_only setting.config.reporting_strategy s
      (record s { should_not_receive_otel_now = b })
