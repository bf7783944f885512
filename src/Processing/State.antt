-- ===== src/Processing/State.antt =====
-- src/telemetry/mod.rs: the state of processing, for an invocation and in degraded mode.
use coralogix_aws_lambda_tel.Prelude.{
  ℕ, ◌+◌, String, Bool, true, false, ◌&&◌, Option, none, some, List, [], ◌∷◌,
}
use coralogix_aws_lambda_tel.Prelude.{
  if◌then◌else◌, is_some, is_none, or_option, unwrap_or, map_option,
}
use coralogix_aws_lambda_tel.Prelude.{ℤ}
use coralogix_aws_lambda_tel.Proto.{
  Bytes, Value, InstrumentationScope, Span, ScopeSpans, ResourceSpans,
}
use coralogix_aws_lambda_tel.Events.{
  PlatformInitStartData, PlatformInitRuntimeDoneData, PlatformInitReportData, PlatformStartData,
  PlatformRuntimeDoneData, PlatformReportData, invalid_arn, Result, ok, err,
}
use coralogix_aws_lambda_tel.Config.{TracingMode, TraceSamplingMode}
use coralogix_aws_lambda_tel.LambdaFunctionArn.{LambdaFunctionArn, parse}
use coralogix_aws_lambda_tel.Logs.Timestamp.{LastLogState, default_log_state}

-- function_context.rs; the tags are the entries of a `HashMap`
pub record FunctionContext : Type 0 where
  pub arn : LambdaFunctionArn
  pub version_arn : LambdaFunctionArn
  pub application_name : String
  pub subsystem_name : String
  pub service_name : String
  pub lambda_function_version : String
  pub lambda_instance_coralogix_id : String
  pub tags : Option (List (String × String))

pub record XRayTraceContext : Type 0 where
  pub root : Bytes
  pub parent : Bytes
  pub sampled : Bool

pub record SpanWithScope : Type 0 where
  pub span : Span
  pub scope : Option InstrumentationScope

unfoldable pub into_scope_spans : SpanWithScope → ScopeSpans
into_scope_spans s = record { scope = s.scope; spans = s.span ∷ []; schema_url = "" }

pub record RawFunctionLog : Type 0 where
  pub log_text : String
  pub time : ℤ

pub record InvokeEventDataWithSpans : Type 0 where
  pub deadline_ms : ℕ
  pub request_id : String
  pub invoked_function_arn : String
  pub tracing_type : String
  pub tracing_value : String
  pub spans : List ResourceSpans
  pub function_context : FunctionContext

pub record InvocationContext : Type 0 where
  pub invoked_arn : LambdaFunctionArn
  pub request_id : String
  pub trace_id : Bytes
  pub invocation_span_id : Bytes
  pub sampled : Bool

-- `fastrand`: the n-th draw of so many bytes
pub record Random : Type 0 where
  pub draw : ℕ → ℕ → Bytes

abbrev pub random_trace_id : Random → ℕ → Bytes
random_trace_id r n = r.draw 16 n

abbrev pub random_span_id : Random → ℕ → Bytes
random_span_id r n = r.draw 8 n

-- `InvocationContext::try_from`; the parser of the X-Ray header, which rests on a regular
-- expression, is an argument. The two fallback ids are the draws n and n + 1.
unfoldable pub make_invocation_context :
    Random
    → (String → Option XRayTraceContext)
    → ℕ
    → InvokeEventDataWithSpans
    → Result InvocationContext
make_invocation_context rng parse_xray n e =
    let fallback : XRayTraceContext = record {
      root = random_trace_id rng n;
      parent = random_span_id rng (n + 1);
      sampled = true;
    } in
    let xray = unwrap_or (parse_xray e.tracing_value) fallback in
    elim (parse e.invoked_function_arn) [
      | none ↦ err (invalid_arn e.invoked_function_arn)
      | some arn ↦ ok (record {
        invoked_arn = arn;
        request_id = e.request_id;
        trace_id = xray.root;
        invocation_span_id = xray.parent;
        sampled = xray.sampled;
      })
    ]

pub record InvocationTracingState : Type 0 where
  pub should_produce_spans : Bool
  pub processed_function_spans : ℕ
  pub language : Option Value
  pub cx_early_trigger_span : Option SpanWithScope
  pub cx_trigger_span : Option SpanWithScope
  pub cx_early_invocation_span : Option SpanWithScope
  pub cx_invocation_span : Option SpanWithScope
  pub generic_invocation_span : Option SpanWithScope

should_produce : TraceSamplingMode → Bool → Bool
should_produce TraceSamplingMode.all_traces sampled = true
should_produce TraceSamplingMode.follow_xray sampled = sampled

unfoldable pub new_tracing_state : TraceSamplingMode → InvocationContext → InvocationTracingState
unfolding should_produce
new_tracing_state mode context = record {
  should_produce_spans = should_produce mode context.sampled;
  processed_function_spans = 0;
  language = none;
  cx_early_trigger_span = none;
  cx_trigger_span = none;
  cx_early_invocation_span = none;
  cx_invocation_span = none;
  generic_invocation_span = none;
}

pub record InvocationProcessingState : Type 0 where
  pub function_context : FunctionContext
  pub invocation_context : InvocationContext
  pub root_span_id : Bytes
  pub init_span_id : Option Bytes
  pub init_start_data : Option PlatformInitStartData
  pub init_runtime_done_data : Option PlatformInitRuntimeDoneData
  pub init_report_data : Option PlatformInitReportData
  pub start_data : Option PlatformStartData
  pub runtime_done_data : Option PlatformRuntimeDoneData
  pub report_data : Option PlatformReportData
  pub delaying_logs : Bool
  pub logs : List RawFunctionLog
  pub tracing_state : InvocationTracingState
  pub last_log_state : LastLogState

abbrev pub is_otel : TracingMode → Bool
is_otel TracingMode.otel_instrumentation = true
is_otel _ = false

abbrev pub is_telemetry_api : TracingMode → Bool
is_telemetry_api TracingMode.telemetry_api = true
is_telemetry_api _ = false

unfoldable pub new_invocation_state :
    Bytes
    → FunctionContext
    → InvocationContext
    → TraceSamplingMode
    → TracingMode
    → InvocationProcessingState
unfolding new_tracing_state default_log_state
new_invocation_state root_span_id function_context context sampling tracing_mode = record {
  function_context = function_context;
  invocation_context = context;
  root_span_id = root_span_id;
  init_span_id = none;
  init_start_data = none;
  init_runtime_done_data = none;
  init_report_data = none;
  start_data = none;
  runtime_done_data = none;
  report_data = none;
  delaying_logs = is_otel tracing_mode;
  logs = [];
  tracing_state = new_tracing_state sampling context;
  last_log_state = default_log_state;
}

unfoldable pub invocation_span : InvocationProcessingState → Option Span
invocation_span s =
    let t = s.tracing_state in
    map_option (λ (x : SpanWithScope). x.span)
      (or_option t.cx_invocation_span
        (or_option t.cx_early_invocation_span t.generic_invocation_span))

unfoldable pub current_trace_id : InvocationProcessingState → Bytes
unfolding invocation_span
current_trace_id s =
    unwrap_or (map_option (λ (x : Span). x.trace_id) (invocation_span s))
      s.invocation_context.trace_id

unfoldable pub current_span_id : InvocationProcessingState → Bytes
unfolding invocation_span
current_span_id s =
    if is_some s.init_start_data && is_none s.init_report_data
    then unwrap_or s.init_span_id s.invocation_context.invocation_span_id
    else unwrap_or (map_option (λ (x : Span). x.span_id) (invocation_span s))
        s.invocation_context.invocation_span_id

pub record SpanRef : Type 0 where
  pub trace_id : Bytes
  pub span_id : Bytes

pub record DegradedProcessingState : Type 0 where
  pub function_context : FunctionContext
  pub trace_id : Bytes
  pub span_id : Bytes
  pub init_runtime_done_data : Option PlatformInitRuntimeDoneData
  pub init_report_data : Option PlatformInitReportData
  pub runtime_done_data : Option PlatformRuntimeDoneData
  pub report_data : Option PlatformReportData
  pub last_log_state : LastLogState

unfoldable pub new_degraded_state : Bytes → Bytes → FunctionContext → DegradedProcessingState
unfolding default_log_state
new_degraded_state trace_id span_id function_context = record {
  function_context = function_context;
  trace_id = trace_id;
  span_id = span_id;
  init_runtime_done_data = none;
  init_report_data = none;
  runtime_done_data = none;
  report_data = none;
  last_log_state = default_log_state;
}
