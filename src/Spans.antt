-- ===== src/Spans.antt =====
-- src/telemetry/processor/span_processor.rs: the spans of the function, among which those of the
-- invocation are captured.
pub mod Conservation
pub mod Attributes
pub mod Platform
pub mod Emission
use coralogix_aws_lambda_tel.Prelude.{
  ℕ, zero, suc, ◌+◌, ◌-◌, ◌*◌, ◌/◌, ◌%◌, ◌≤◌, ◌<◌, min, max, String, ◌≡◌, refl, sym, ap, ◌∙◌, subst,
  fun_ext, ◌≢◌, ◌↔◌, ◌⊎◌, inl, inr, Bool, true, false, not, ◌&&◌, ◌||◌, Option, none, some, List,
  [], ◌∷◌, ◌++◌, map, append_assoc, append-nil, arith, str_eq, str_eq_iff,
}
use coralogix_aws_lambda_tel.Prelude.{
  ltb, leb, ◌==◌, if◌then◌else◌, ltb→lt, lt→ltb, leb→le, ==_iff, tests, Bool-cases, Option-cases,
  length, all, is_empty, is_some, is_none, or_option, unwrap_or, last_or, keep, length-append,
  map_option, and_then, All, All-append,
}
use coralogix_aws_lambda_tel.Prelude.{
  u64_mod, u64_max, i64_sign, add64, mul64, le_i64, max_i64, ℤ, pos, negsuc, eq_ℤ, as_u64, F64,
  FloatOps, f64_zero, f64_thousand, f64_million, find, modify_entry, ◌<>◌, show_u64, show_i64, join,
}
use coralogix_aws_lambda_tel.Proto.{
  Bytes, Value, string_value, bool_value, int_value, double_value, array_value, kvlist_value,
  bytes_value, AnyValue, unset, with_value, AnyValues, nil, cons, KeyValues, end, bare, pair,
  KeyValue, NumberValue, as_double, as_int, NumberDataPoint, HistogramDataPoint, ValueAtQuantile,
  SummaryDataPoint, MetricData, gauge, sum, histogram, summary, exponential_histogram, Metric,
  cumulative, InstrumentationScope, Resource, Status, Span, ScopeSpans, ResourceSpans, ScopeMetrics,
  ResourceMetrics, LogRecord, ScopeLogs, ResourceLogs,
}
use coralogix_aws_lambda_tel.Config.{TelemetryProcessorConfig, exclusion_regex}
use coralogix_aws_lambda_tel.Processing.State.{InvocationTracingState, SpanWithScope}

pub data SpanCategorization : Type 0 where
  cx_early_trigger cx_early_invocation cx_trigger cx_invocation cx_warmup generic_invocation other :
      SpanCategorization

-- `hex::decode`, and `Regex::is_match` of the regular expression with the given text
pub record SpanTools : Type 0 where
  pub hex_decode : String → Option Bytes
  pub is_match : String → String → Bool

-- the variables of the loop over the attributes
pub record Marks : Type 0 where
  pub span_role : Option String
  pub is_early_span : Bool
  pub extra_span_id : Option String
  pub extra_trace_id : Option String
  pub has_faas_trigger : Bool
  pub new_attributes : List KeyValue

abbrev string_of : Value → Option String
string_of (string_value s) = some s
string_of _ = none

abbrev value_of : AnyValue → Option String
value_of unset = none
value_of (with_value v) = string_of v

unfoldable pub get_string_value : KeyValue → Option String
get_string_value a = and_then a.value value_of

unfoldable pub read_attribute : KeyValue → Marks → Marks
unfolding get_string_value
read_attribute a m =
    if str_eq a.key "cx.internal.span.role"
    then record m { span_role = get_string_value a }
    else if str_eq a.key "cx.internal.span.state"
    then record m {
      is_early_span = m.is_early_span || str_eq (unwrap_or (get_string_value a) "") "early";
    }
    else if str_eq a.key "cx.internal.span.id"
    then record m { extra_span_id = get_string_value a }
    else if str_eq a.key "cx.internal.trace.id"
    then record m { extra_trace_id = get_string_value a }
    else record m {
      has_faas_trigger = m.has_faas_trigger || str_eq a.key "faas.trigger";
      new_attributes = m.new_attributes ++ a ∷ [];
    }

unfoldable pub read_attributes : List KeyValue → Marks → Marks
unfolding read_attribute
read_attributes [] m = m
read_attributes (a ∷ r) m = read_attributes r (read_attribute a m)

abbrev no_marks : Marks
no_marks = record {
  span_role = none;
  is_early_span = false;
  extra_span_id = none;
  extra_trace_id = none;
  has_faas_trigger = false;
  new_attributes = [];
}

early_category : String → SpanCategorization
early_category role =
    if str_eq role "trigger"
    then cx_early_trigger
    else if str_eq role "invocation"
    then cx_early_invocation
    else if str_eq role "warmup"
    then cx_warmup
    else other

late_category : String → SpanCategorization
late_category role =
    if str_eq role "trigger"
    then cx_trigger
    else if str_eq role "invocation"
    then cx_invocation
    else if str_eq role "warmup"
    then cx_warmup
    else other

module _ (tools : SpanTools) where
  abbrev decoded : Option String → Bytes → Bytes
  decoded none old = old
  decoded (some s) old = unwrap_or (tools.hex_decode s) old

  -- `SpanKind::Server` is 2, `SpanKind::Consumer` is 5
  categorize : Marks → Option String → Span → Span × SpanCategorization
  unfolding early_category late_category
  categorize m (some role) span =
      if m.is_early_span
      then (
        record span {
          span_id = decoded m.extra_span_id span.span_id;
          trace_id = decoded m.extra_trace_id span.trace_id;
        },
        early_category role,
      )
      else (span, late_category role)
  categorize m none span =
      if (span.kind == 2 || span.kind == 5) && not m.has_faas_trigger
      then (span, generic_invocation)
      else (span, other)

  unfoldable pub process_and_categorize_span : Span → Span × SpanCategorization
  unfolding read_attributes categorize
  process_and_categorize_span span =
      let m = read_attributes span.attributes no_marks in
      categorize m m.span_role (record span { attributes = m.new_attributes })

  abbrev retained : Option String → List KeyValue → List KeyValue
  retained none attributes = attributes
  retained (some regex) attributes =
      keep (λ (a : KeyValue). not (tools.is_match regex a.key)) attributes

  unfoldable pub filter_span_attributes : TelemetryProcessorConfig → Span → Span
  filter_span_attributes config span = record span {
    attributes = retained (exclusion_regex config.excluded_span_attributes) span.attributes;
  }

  -- the slot after `try_capture_span`, and the span where the slot was taken before
  unfoldable pub try_capture_span :
      Option SpanWithScope → Span → Option InstrumentationScope → Option SpanWithScope × List Span
  try_capture_span none span scope = (some (record { span = span; scope = scope }), [])
  try_capture_span (some x) span scope = (some x, span ∷ [])

  -- the state after a categorized span, and the span if it stays in its scope
  unfoldable pub place :
      SpanCategorization
      → Span
      → Option InstrumentationScope
      → InvocationTracingState
      → InvocationTracingState × List Span
  unfolding try_capture_span
  place cx_early_trigger span scope s =
      let (o, r) = try_capture_span s.cx_early_trigger_span span scope in
      (record s { cx_early_trigger_span = o }, r)
  place cx_early_invocation span scope s =
      let (o, r) = try_capture_span s.cx_early_invocation_span span scope in
      (record s { cx_early_invocation_span = o }, r)
  place cx_trigger span scope s =
      let (o, r) = try_capture_span s.cx_trigger_span span scope in
      (record s { cx_trigger_span = o }, r)
  place cx_invocation span scope s =
      let (o, r) = try_capture_span s.cx_invocation_span span scope in
      (record s { cx_invocation_span = o }, r)
  place generic_invocation span scope s =
      let (o, r) = try_capture_span s.generic_invocation_span span scope in
      (record s { generic_invocation_span = o }, r)
  place cx_warmup span scope s = (s, [])
  place other span scope s = (s, span ∷ [])

  module _ (config : TelemetryProcessorConfig) where
    -- the loop over the spans of one scope
    unfoldable pub process_scope :
        Option InstrumentationScope
        → List Span
        → InvocationTracingState
        → InvocationTracingState × List Span
    unfolding process_and_categorize_span filter_span_attributes place
    process_scope scope [] s = (s, [])
    process_scope scope (x ∷ xs) s =
        let (span, category) = process_and_categorize_span x in
        let (s', stays) = place category (filter_span_attributes config span) scope s in
        let (s'', rest) = process_scope scope xs s' in (s'', stays ++ rest)

    unfoldable pub process_scopes :
        List ScopeSpans → InvocationTracingState → InvocationTracingState × List ScopeSpans
    unfolding process_scope
    process_scopes [] s = (s, [])
    process_scopes (ss ∷ r) s =
        let (s', spans) = process_scope ss.scope ss.spans (record s {
          processed_function_spans = add64 s.processed_function_spans (length ss.spans);
        }) in
        let (s'', rest) = process_scopes r s' in
        (s'', if is_empty spans then rest else record ss { spans = spans } ∷ rest)

    unfoldable pub process_spans :
        List ResourceSpans → InvocationTracingState → InvocationTracingState × List ResourceSpans
    unfolding process_scopes
    process_spans [] s = (s, [])
    process_spans (rs ∷ r) s =
        let (s', scope_spans) = process_scopes rs.scope_spans s in
        let (s'', rest) = process_spans r s' in
        (s'', record rs { scope_spans = scope_spans } ∷ rest)

-- `find_attribute`
unfoldable pub find_attribute : List KeyValue → String → Option Value
find_attribute [] key = none
find_attribute (a ∷ r) key =
    let rest = find_attribute r key in
    if str_eq a.key key then and_then a.value plain_value else rest
  where
    plain_value : AnyValue → Option Value
    plain_value unset = none
    plain_value (with_value v) = some v

-- `find_map` over the resources
unfoldable pub find_language : List ResourceSpans → Option Value
unfolding find_attribute
find_language [] = none
find_language (rs ∷ r) =
    or_option
      (and_then rs.resource
        (λ (x : Resource). find_attribute x.attributes "telemetry.sdk.language"))
      (find_language r)

unfoldable pub detect_language :
    List ResourceSpans → InvocationTracingState → InvocationTracingState
unfolding find_language
detect_language spans s = record s { language = or_option s.language (find_language spans) }

unfoldable pub process_function_spans :
    SpanTools
    → TelemetryProcessorConfig
    → List ResourceSpans
    → InvocationTracingState
    → InvocationTracingState × List ResourceSpans
unfolding detect_language process_spans
process_function_spans tools config spans s =
    process_spans tools config spans (detect_language spans s)

-- the number of captured spans
abbrev pub captured : InvocationTracingState → ℕ
captured s =
    (if is_some s.cx_early_trigger_span then 1 else 0)
    + (if is_some s.cx_trigger_span then 1 else 0)
    + (if is_some s.cx_early_invocation_span then 1 else 0)
    + (if is_some s.cx_invocation_span then 1 else 0)
    + (if is_some s.generic_invocation_span then 1 else 0)

abbrev pub is_warmup : SpanCategorization → Bool
is_warmup cx_warmup = true
is_warmup _ = false
