-- ===== src/Spans/Platform.antt =====
-- src/telemetry/processor/span_processor.rs: the spans made of the platform's events.
pub mod Trees
use coralogix_aws_lambda_tel.Prelude.{
  ℕ, zero, suc, ◌+◌, ◌-◌, ◌*◌, ◌/◌, ◌%◌, ◌≤◌, ◌<◌, min, max, String, ◌≡◌, refl, sym, ap, ◌∙◌, subst,
  fun_ext, ◌≢◌, ◌↔◌, ◌⊎◌, inl, inr, Bool, true, false, not, ◌&&◌, ◌||◌, Option, none, some, List,
  [], ◌∷◌, ◌++◌, map, append_assoc, append-nil, arith, str_eq, str_eq_iff,
}
use coralogix_aws_lambda_tel.Prelude.{
  ltb, leb, ◌==◌, if◌then◌else◌, ltb→lt, lt→ltb, leb→le, ==_iff, tests, Bool-cases, Option-cases,
  length, all, is_empty, is_some, is_none, or_option, unwrap_or, last_or, keep, length-append,
  map_option, and_then, All, All-append,
}
use coralogix_aws_lambda_tel.Prelude.{
  u64_mod, u64_max, i64_sign, add64, mul64, le_i64, max_i64, ℤ, pos, negsuc, eq_ℤ, as_u64, F64,
  FloatOps, f64_zero, f64_thousand, f64_million, find, modify_entry, ◌<>◌, show_u64, show_i64, join,
}
use coralogix_aws_lambda_tel.Proto.{
  Bytes, Value, string_value, bool_value, int_value, double_value, array_value, kvlist_value,
  bytes_value, AnyValue, unset, with_value, AnyValues, nil, cons, KeyValues, end, bare, pair,
  KeyValue, NumberValue, as_double, as_int, NumberDataPoint, HistogramDataPoint, ValueAtQuantile,
  SummaryDataPoint, MetricData, gauge, sum, histogram, summary, exponential_histogram, Metric,
  cumulative, InstrumentationScope, Resource, Status, Span, ScopeSpans, ResourceSpans, ScopeMetrics,
  ResourceMetrics, LogRecord, ScopeLogs, ResourceLogs,
}
use coralogix_aws_lambda_tel.Events.{
  EventStatus, success, error, failure, timeout, is_success, is_error, EventSpan, TraceContext,
  InitReportMetrics, RuntimeDoneMetrics, ReportMetrics, PlatformInitStartData,
  PlatformInitRuntimeDoneData, PlatformInitReportData, PlatformStartData, PlatformRuntimeDoneData,
  PlatformReportData, LambdaTelemetryRecord, function, extension, platform_init_start,
  platform_init_runtime_done, platform_init_report, platform_start, platform_runtime_done,
  platform_report, platform_extension, platform_telemetry_subscription, platform_logs_dropped,
  LambdaTelemetry, Error, component_range, serialization, invalid_arn, panic, Result, ok, err,
  ◌>>=◌, millis_to_nanos, event_timestamp, is_out_of_memory,
}
use coralogix_aws_lambda_tel.LambdaFunctionArn.{LambdaFunctionArn}
use coralogix_aws_lambda_tel.Processing.State.{
  FunctionContext, InvocationContext, InvocationProcessingState, DegradedProcessingState,
  invocation_span, current_trace_id, current_span_id,
}
use coralogix_aws_lambda_tel.Service.Wrappers.{string_attribute}

-- `StatusCode::Ok` is 1, `StatusCode::Error` is 2
unfoldable pub translate_status : EventStatus → Option String → Status
translate_status success error_type = record { message = "OK"; code = 1 }
translate_status timeout error_type = record { message = unwrap_or error_type "timeout"; code = 2 }
translate_status error error_type = record { message = unwrap_or error_type "error"; code = 2 }
translate_status failure error_type = record { message = unwrap_or error_type "failure"; code = 2 }

unfoldable pub make_span_attributes : InvocationContext → List KeyValue
unfolding string_attribute
make_span_attributes context = string_attribute "faas.execution" context.request_id ∷ []

abbrev f64_attribute : String → F64 → KeyValue
f64_attribute key value = record { key = key; value = some (with_value (double_value value)) }

-- `SpanKind`
abbrev pub internal : ℕ
internal = 1

abbrev pub server : ℕ
server = 2

-- The span of these ids, parent, name, kind, times, attributes and status; the other fields are empty.
platform_span : Bytes → Bytes → Bytes → String → ℕ → ℕ → ℕ → List KeyValue → Status → Span
platform_span trace_id span_id parent_span_id name kind began ended attributes status = record {
  trace_id = trace_id;
  span_id = span_id;
  trace_state = "";
  parent_span_id = parent_span_id;
  name = name;
  kind = kind;
  start_time_unix_nano = began;
  end_time_unix_nano = ended;
  attributes = attributes;
  dropped_attributes_count = 0;
  events = [];
  dropped_events_count = 0;
  links = [];
  dropped_links_count = 0;
  status = some status;
}

init_name : FunctionContext → String
init_name c = let arn : LambdaFunctionArn = c.arn in arn.function_name <> " init"

-- The span of the initialisation, where all its four parts are known.
unfoldable pub init_span :
    InvocationProcessingState
    → Bytes
    → Bytes
    → Option Bytes
    → Option PlatformInitStartData
    → Option PlatformInitRuntimeDoneData
    → Option PlatformInitReportData
    → List Span
unfolding platform_span init_name translate_status make_span_attributes
init_span state trace_id parent (some id) (some start) (some done_data) (some report) =
    platform_span trace_id id parent (init_name state.function_context) internal (as_u64 start.time)
      (as_u64 report.time) (make_span_attributes state.invocation_context)
      (translate_status done_data.status done_data.error_type)
    ∷ []
init_span state trace_id parent _ _ _ _ = []

unfoldable pub make_spans_after_invocation_in_otel_mode : InvocationProcessingState → List Span
unfolding invocation_span
make_spans_after_invocation_in_otel_mode state =
    let parent =
      unwrap_or (map_option (λ (s : Span). s.parent_span_id) (invocation_span state)) [] in
    init_span state (current_trace_id state) parent state.init_span_id state.init_start_data
      state.init_runtime_done_data state.init_report_data

-- the first span of that name
find_duration : String → List EventSpan → Option F64
find_duration name [] = none
find_duration name (s ∷ r) =
    let rest = find_duration name r in if str_eq s.name name then some s.duration_ms else rest

optional_f64 : String → Option F64 → List KeyValue
optional_f64 key none = []
optional_f64 key (some x) = f64_attribute key x ∷ []

runtime_span :
    InvocationProcessingState
    → Option PlatformStartData
    → Option PlatformRuntimeDoneData
    → List Span
unfolding platform_span find_duration optional_f64 translate_status make_span_attributes
runtime_span state (some start) (some done_data) =
    let attributes =
      make_span_attributes state.invocation_context
      ++ (optional_f64 "response.latency_ms" (find_duration "responseLatency" done_data.spans)
          ++ optional_f64 "response.duration_ms"
              (find_duration "responseDuration" done_data.spans)) in
    let context : FunctionContext = state.function_context in
    platform_span (current_trace_id state) (current_span_id state) state.root_span_id
      (context.arn.function_name <> " invocation") internal (as_u64 start.time)
      (as_u64 done_data.time) attributes (translate_status done_data.status done_data.error_type)
    ∷ []
runtime_span state _ _ = []

unfoldable pub make_spans_after_invocation : InvocationProcessingState → List Span
unfolding runtime_span
make_spans_after_invocation state =
    init_span state (current_trace_id state) state.root_span_id state.init_span_id
      state.init_start_data state.init_runtime_done_data state.init_report_data
    ++ runtime_span state state.start_data state.runtime_done_data

minus_ℕ : ℕ → ℕ → ℤ
minus_ℕ a b = if leb b a then pos (a - b) else negsuc (b - a - 1)

-- the difference of two i128; its wrap-around is one of 2 ^ 64 too, and the result is cast to u64
minus_ℤ : ℤ → ℤ → ℤ
unfolding minus_ℕ
minus_ℤ (pos a) (pos b) = minus_ℕ a b
minus_ℤ (pos a) (negsuc b) = pos (a + b + 1)
minus_ℤ (negsuc a) (pos b) = negsuc (a + b)
minus_ℤ (negsuc a) (negsuc b) = minus_ℕ b a

-- over the operations of f64, with the cast to i128
module _ (fl : FloatOps) (to_i128 : F64 → ℤ) where
  init_began : Option PlatformInitReportData → Option ℕ
  unfolding minus_ℤ
  init_began none = none
  init_began (some d) =
      some (as_u64 (minus_ℤ d.time (to_i128 (fl.mul d.metrics.duration_ms f64_million))))

  context_span :
      InvocationProcessingState
      → Option PlatformStartData
      → Option PlatformRuntimeDoneData
      → Option PlatformReportData
      → List Span
  unfolding platform_span init_began translate_status make_span_attributes
  context_span state (some start) (some done_data) (some report) =
      let start_time =
        unwrap_or
          (or_option
            (map_option (λ (d : PlatformInitStartData). as_u64 d.time) state.init_start_data)
            (init_began state.init_report_data))
          (as_u64 start.time) in
      let context : InvocationContext = state.invocation_context in
      platform_span (current_trace_id state) state.root_span_id []
        (context.invoked_arn.function_name <> " context") server start_time (as_u64 report.time)
        (make_span_attributes state.invocation_context)
        (translate_status report.status (or_option report.error_type done_data.error_type))
      ∷ []
  context_span state _ _ _ = []

  unfoldable pub make_spans_after_report : InvocationProcessingState → List Span
  unfolding context_span
  make_spans_after_report state =
      context_span state state.start_data state.runtime_done_data state.report_data

module _ (fl : FloatOps) where
  degraded_span :
      DegradedProcessingState
      → Option PlatformInitRuntimeDoneData
      → Option PlatformInitReportData
      → List Span
  unfolding platform_span init_name translate_status
  degraded_span state (some done_data) (some report) =
      let end_time = as_u64 report.time in
      let duration = fl.to_u64 (fl.mul report.metrics.duration_ms f64_million) in
      let start_time = add64 end_time (u64_mod - duration % u64_mod) in
      platform_span state.trace_id state.span_id [] (init_name state.function_context) internal
        start_time end_time [] (translate_status done_data.status done_data.error_type)
      ∷ []
  degraded_span state _ _ = []

  unfoldable pub make_degraded_spans_after_init : DegradedProcessingState → List Span
  unfolding degraded_span
  make_degraded_spans_after_init state =
      degraded_span state state.init_runtime_done_data state.init_report_data
