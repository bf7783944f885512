-- ===== src/Processor/Delay.antt =====
-- src/telemetry/processor/telemetry_processor.rs: the logs that are delayed until the span of the
-- invocation is known.
pub mod Flushing
use coralogix_aws_lambda_tel.Prelude.{
  ℕ, zero, suc, ◌+◌, ◌-◌, ◌*◌, ◌/◌, ◌%◌, ◌≤◌, ◌<◌, min, max, String, ◌≡◌, refl, sym, ap, ◌∙◌, subst,
  fun_ext, ◌≢◌, ◌↔◌, ◌⊎◌, inl, inr, Bool, true, false, not, ◌&&◌, ◌||◌, Option, none, some, List,
  [], ◌∷◌, ◌++◌, map, append_assoc, append-nil, arith, str_eq, str_eq_iff,
}
use coralogix_aws_lambda_tel.Prelude.{
  ltb, leb, ◌==◌, if◌then◌else◌, ltb→lt, lt→ltb, leb→le, ==_iff, tests, Bool-cases, Option-cases,
  length, all, is_empty, is_some, is_none, or_option, unwrap_or, last_or, keep, length-append,
  map_option, and_then, All, All-append,
}
use coralogix_aws_lambda_tel.Prelude.{
  u64_mod, u64_max, i64_sign, add64, mul64, le_i64, max_i64, ℤ, pos, negsuc, eq_ℤ, as_u64, F64,
  FloatOps, f64_zero, f64_thousand, f64_million, find, modify_entry, ◌<>◌, show_u64, show_i64, join,
}
use coralogix_aws_lambda_tel.Proto.{
  Bytes, Value, string_value, bool_value, int_value, double_value, array_value, kvlist_value,
  bytes_value, AnyValue, unset, with_value, AnyValues, nil, cons, KeyValues, end, bare, pair,
  KeyValue, NumberValue, as_double, as_int, NumberDataPoint, HistogramDataPoint, ValueAtQuantile,
  SummaryDataPoint, MetricData, gauge, sum, histogram, summary, exponential_histogram, Metric,
  cumulative, InstrumentationScope, Resource, Status, Span, ScopeSpans, ResourceSpans, ScopeMetrics,
  ResourceMetrics, LogRecord, ScopeLogs, ResourceLogs,
}
use coralogix_aws_lambda_tel.Events.{
  EventStatus, success, error, failure, timeout, is_success, is_error, EventSpan, TraceContext,
  InitReportMetrics, RuntimeDoneMetrics, ReportMetrics, PlatformInitStartData,
  PlatformInitRuntimeDoneData, PlatformInitReportData, PlatformStartData, PlatformRuntimeDoneData,
  PlatformReportData, LambdaTelemetryRecord, function, extension, platform_init_start,
  platform_init_runtime_done, platform_init_report, platform_start, platform_runtime_done,
  platform_report, platform_extension, platform_telemetry_subscription, platform_logs_dropped,
  LambdaTelemetry, Error, component_range, serialization, invalid_arn, panic, Result, ok, err,
  ◌>>=◌, millis_to_nanos, event_timestamp, is_out_of_memory,
}
use coralogix_aws_lambda_tel.Config
use coralogix_aws_lambda_tel.Config.{
  LogMode, is_structured, PlatformMetricsMode, OtelMetricsMode, TracingMode, TraceSamplingMode,
  TelemetryReportingStrategy, low_overhead, report_after_invocation,
  report_during_and_after_invocation, send_after_invocation, send_after_delay, PlatformEventLogSet,
  PlatformLogsConfig, LogMetadataConfig, LogsMetadataMode, BuiltInAttributeSet, AttributeConfig,
  AttributeConfigs, AttributeExclusionMode, exclusion_regex, TelemetryProcessorConfig,
  TelemetryServiceConfig,
}
use coralogix_aws_lambda_tel.Logs.Timestamp.{LastLogState, make_log_timestamp}
use coralogix_aws_lambda_tel.Logs.Truncation.{
  SeverityNumber, severity_code, infer_severity, truncate_with_annotation_if_too_long,
}
use coralogix_aws_lambda_tel.Logs.Metadata.{
  ProcessingState, of_invocation, of_degraded, LogMetadata, RuntimeDoneLogMetrics, ReportLogMetrics,
  PlatformEventLog, start, runtime_done, report, then_some, status_to_string, status_to_severity,
  log_metadata,
}
use coralogix_aws_lambda_tel.Logs.Records.{
  LogTools, LogBody, make_function_log, make_platform_start_log, make_platform_runtime_done_log,
  make_platform_report_log,
}
use coralogix_aws_lambda_tel.Processing.State.{
  InvocationTracingState, InvocationProcessingState, DegradedProcessingState, RawFunctionLog,
  is_otel, is_telemetry_api, invocation_span, current_trace_id, current_span_id,
}
use coralogix_aws_lambda_tel.Service.State.{
  OutputBuffers, add_function_scope_spans, add_function_resource_spans,
}
use coralogix_aws_lambda_tel.PlatformMetrics.Mode
use coralogix_aws_lambda_tel.PlatformMetrics.Mode.{PlatformMetricsState, v1, v2}
use coralogix_aws_lambda_tel.PlatformMetrics.V1
use coralogix_aws_lambda_tel.PlatformMetrics.V2
use coralogix_aws_lambda_tel.Processor.Steps.{
  ProcessorTools, Work, Outcome, ◌>>>◌, with_state, with_output, push_log, timed,
  push_epsagon_trace, append_spans, update_init_report_metrics, update_runtime_done_metrics,
  update_report_metrics, metrics_after_report, update_metrics_after_report, emit_function_log,
  emit_start_log, emit_runtime_done_log, emit_report_log, detected, on_function,
}
use coralogix_aws_lambda_tel.Processor.Telemetry
use coralogix_aws_lambda_tel.Processor.Telemetry.{
  error_status, emits_start_logs, emit_function_logs, emit_taken_logs, emit_known_start,
  process_delayed_logs, conclude_delay, delay_or_emit, on_start, emit_invocation_spans,
  conclude_runtime, on_runtime_done, emit_report_spans, conclude_report, on_report, on_init_start,
  on_init_report, handle_record, process_telemetry, store_function_spans, process_function_spans,
  process_function_metrics,
}
use coralogix_aws_lambda_tel.Processor.Outcomes.{
  FailsOnlyWith, Succeeds, Leaves, FailsOnlyWith-then, Succeeds-then, Leaves-then, Succeeds-map,
  if_branches, if_known,
}
use coralogix_aws_lambda_tel.Processor.Items.{
  LogItem, start_item, function_item, runtime_done_item, report_item, if_both, IsRecordOf,
  AreRecordsOf, Emits, Reaches, Stays, Reaches-none, Reaches-trans, emit_function_log-Stays,
  emit_start_log-Stays, emit_runtime_done_log-Stays, emit_report_log-Stays,
}
use coralogix_aws_lambda_tel.Processor.Epsagon.{
  EpsagonTraceDetectionResult, regular_log, epsagon_trace_json, detect_epsagon_trace,
}

abbrev State : Type 0
State = InvocationProcessingState

abbrev optional_item : Bool → LogItem → List LogItem
optional_item b i = if b then i ∷ [] else []

abbrev start_items : Bool → Option PlatformStartData → List LogItem
start_items b none = []
start_items b (some d) = optional_item b (start_item d)

-- A start at the front is dropped.
abbrev without_start : List LogItem → List LogItem
without_start (start_item d ∷ r) = r
without_start r = r

abbrev function_items : EpsagonTraceDetectionResult → ℤ → List LogItem
function_items (epsagon_trace_json t) time = []
function_items (regular_log text) time =
    function_item (record { log_text = text; time = time }) ∷ []

-- No log is kept once logs are not delayed.
abbrev pub IsFlushed : State → Type 0
IsFlushed s = s.delaying_logs ≡ false → s.logs ≡ []

-- What is emitted at the start and what waits then are the new start, and what waited but for another start.
start_accounted :
    (e delaying : Bool) (d : PlatformStartData) (o : Option PlatformStartData)
    (l : List RawFunctionLog)
    → (if e && not delaying then start_item d ∷ [] else [])
        ++ (start_items (delaying && e) (some d) ++ map function_item l)
      ≡ (if e
          then start_item d ∷ without_start (start_items (delaying && e) o ++ map function_item l)
          else start_items (delaying && e) o ++ map function_item l)
start_accounted true true d none [] = refl
start_accounted true true d none (x ∷ l) = refl
start_accounted true true d (some _) l = refl
start_accounted true false d none [] = refl
start_accounted true false d none (x ∷ l) = refl
start_accounted true false d (some _) [] = refl
start_accounted true false d (some _) (x ∷ l) = refl
start_accounted false true d none l = refl
start_accounted false true d (some _) l = refl
start_accounted false false d none l = refl
start_accounted false false d (some _) l = refl

module _ (tools : ProcessorTools) (config : TelemetryProcessorConfig) where
  waiting_of : Bool → List RawFunctionLog → Option PlatformStartData → List LogItem
  waiting_of delaying logs o =
      start_items (delaying && emits_start_logs tools config) o ++ map function_item logs

  -- What waits to be emitted: the start of the invocation, before the logs of the function.
  unfoldable pub waiting : State → List LogItem
  unfolding waiting_of
  waiting s = waiting_of s.delaying_logs s.logs s.start_data

  -- What is to be emitted after an event, given what is before: the logs of the function and those of
  -- the platform come last. A start is put before all that waits, also before the logs that came earlier, and takes
  -- the place of a start that waits: `start_data` has room for one, and the record of the other is never made.
  unfoldable pub arrived : ℤ → LambdaTelemetryRecord → List LogItem → List LogItem
  arrived time (function text) items =
      if is_structured config.log_mode
      then items ++ function_items (detect_epsagon_trace tools.epsagon text) time
      else items
  arrived time (platform_start request_id version tracing) items =
      if emits_start_logs tools config
      then start_item
          (record { time = time; request_id = request_id; version = version; tracing = tracing })
        ∷ without_start items
      else items
  arrived time (platform_runtime_done request_id status error_type metrics spans tracing) items =
      items
      ++ optional_item (is_structured config.log_mode && config.platform_log_set.runtime_done) (
          runtime_done_item (record {
            time = time;
            request_id = request_id;
            status = status;
            error_type = error_type;
            metrics = metrics;
            spans = spans;
            tracing = tracing;
          }))
  arrived time (platform_report request_id status error_type metrics spans tracing) items =
      items
      ++ optional_item (is_structured config.log_mode && config.platform_log_set.report) (
          report_item (record {
            time = time;
            request_id = request_id;
            status = status;
            error_type = error_type;
            metrics = metrics;
            spans = spans;
            tracing = tracing;
          }))
  arrived time _ items = items

  -- Records are emitted, one for each item and in their order; these and what waits then are the
  -- expected, and no log is kept where logs are not delayed.
  pub record Delivers (expected : List LogItem) (w w' : Work State) : Type 0 where
    pub items : List LogItem
    pub emits : Emits tools config items w w'
    pub accounted : items ++ waiting w'.state ≡ expected
    pub flushed : IsFlushed w'.state

  abbrev Goes : List LogItem → Work State → Work State → Type 0
  Goes items w w' = Stays tools config items w w'

  -- the same, with what it reaches spelled in another way
  respelled :
      {is js : List LogItem} {w u : Work State} {d d' : Bool} {l l' : List RawFunctionLog}
      {o o' : Option PlatformStartData}
      → Reaches tools config is w d l o u
      → is ≡ js
      → d ≡ d'
      → l ≡ l'
      → o ≡ o'
      → Reaches tools config js w d' l' o' u
  respelled {w} {u} h i a b c = record {
    emits = subst (λ items. Emits tools config items w u) i h.emits;
    delaying = h.delaying ∙ a;
    logs = h.logs ∙ b;
    start_data = h.start_data ∙ c;
  }

  Stays-trans :
      {is js : List LogItem} {w v u : Work State} {d : Bool} {l : List RawFunctionLog}
      {o : Option PlatformStartData}
      → Reaches tools config is w d l o v
      → Goes js v u
      → Reaches tools config (is ++ js) w d l o u
  Stays-trans h k = Reaches-trans tools config h (respelled k refl h.delaying h.logs h.start_data)

  emit_function_logs-Stays :
      (logs : List RawFunctionLog) (w : Work State)
      → Succeeds (Goes (map function_item logs) w) (emit_function_logs tools config logs w)
  unfolding emit_function_logs
  emit_function_logs-Stays [] w = record { known = Reaches-none tools config w w refl }
  emit_function_logs-Stays (log ∷ r) w =
      Succeeds-then (emit_function_log-Stays tools config log w)
        (λ v h. Succeeds-map (emit_function_logs-Stays r v) (λ u k. Stays-trans h k))

  emit_taken_logs-Reaches :
      (w : Work State)
      → Succeeds
          (Reaches tools config
            (map function_item w.state.logs)
            w
            w.state.delaying_logs
            []
            w.state.start_data)
          (emit_taken_logs tools config w)
  unfolding emit_taken_logs
  emit_taken_logs-Reaches w =
      let v : Work State = with_state (record w.state { logs = [] }) w in
      Succeeds-map (emit_function_logs-Stays w.state.logs v)
        (λ u k. Reaches-trans tools config (Reaches-none tools config w v refl) k)

  emit_known_start-Stays :
      (o : Option PlatformStartData) (w : Work State)
      → Succeeds
          (Goes (start_items config.platform_log_set.start o) w)
          (emit_known_start tools config o w)
  unfolding emit_known_start
  emit_known_start-Stays none w = record { known = Reaches-none tools config w w refl }
  emit_known_start-Stays (some d) w =
      if_both (λ (o : Outcome State) items. Succeeds (Goes items w) o) config.platform_log_set.start
        (emit_start_log-Stays tools config d w)
        (record { known = Reaches-none tools config w w refl })

  conclude_delay-Reaches :
      (w : Work State)
      → Succeeds
          (Reaches tools config
            (start_items config.platform_log_set.start w.state.start_data
              ++ map function_item w.state.logs)
            w
            false
            []
            w.state.start_data)
          (conclude_delay tools config w)
  unfolding conclude_delay process_delayed_logs
  conclude_delay-Reaches w =
      let v : Work State = with_state (record w.state { delaying_logs = false }) w in
      Succeeds-then (emit_known_start-Stays w.state.start_data v) (λ u h.
        Succeeds-map (emit_taken_logs-Reaches u) (λ t k.
          Reaches-trans tools config
            (Reaches-trans tools config (Reaches-none tools config w v refl) h)
            (respelled k (ap (map function_item) h.logs) h.delaying refl h.start_data)))

  -- what is reached, as what is delivered
  delivered :
      {items expected : List LogItem} {w u : Work State} {d : Bool} {l : List RawFunctionLog}
      {o : Option PlatformStartData}
      → Reaches tools config items w d l o u
      → items ++ waiting_of d l o ≡ expected
      → (d ≡ false → l ≡ [])
      → Delivers expected w u
  unfolding waiting
  delivered {items} h e f = record {
    items = items;
    emits = h.emits;
    accounted = cc (h.delaying, h.logs, h.start_data, e);
    flushed = λ z. h.logs ∙ f (sym h.delaying ∙ z);
  }

  -- nothing but other parts of the state changes
  unmoved :
      (w u : Work State)
      → IsFlushed w.state
      → u.output_buffers.logs_buffer ≡ w.output_buffers.logs_buffer
      → u.state.delaying_logs ≡ w.state.delaying_logs
      → u.state.logs ≡ w.state.logs
      → u.state.start_data ≡ w.state.start_data
      → Delivers (waiting w.state) w u
  unfolding waiting
  unmoved w u f e a b c = delivered (respelled (Reaches-none tools config w u e) refl a b c) refl f

  map-append_one :
      (l : List RawFunctionLog) (x : RawFunctionLog)
      → map function_item (l ++ x ∷ []) ≡ map function_item l ++ function_item x ∷ []
  map-append_one [] x = refl
  map-append_one (y ∷ l) x = ap (λ r. function_item y ∷ r) (map-append_one l x)

  waiting_of-append :
      (d : Bool) (l : List RawFunctionLog) (x : RawFunctionLog) (o : Option PlatformStartData)
      → waiting_of d (l ++ x ∷ []) o ≡ waiting_of d l o ++ function_item x ∷ []
  unfolding waiting_of
  waiting_of-append d l x o =
      ap (λ r. start_items (d && emits_start_logs tools config) o ++ r) (map-append_one l x)
      ∙ sym (
          append_assoc (start_items (d && emits_start_logs tools config) o) (map function_item l)
            (function_item x ∷ []))

  waiting_of-idle :
      (d : Bool) (l : List RawFunctionLog) (o : Option PlatformStartData)
      → d ≡ false
      → l ≡ []
      → waiting_of d l o ≡ []
  unfolding waiting_of
  waiting_of-idle d l none h k = rw k refl
  waiting_of-idle d l (some x) h k = rw (h, k) refl

  idle : (w : Work State) → IsFlushed w.state → w.state.delaying_logs ≡ false → waiting w.state ≡ []
  unfolding waiting
  idle w f h = waiting_of-idle w.state.delaying_logs w.state.logs w.state.start_data h (f h)

  one_commutes : (i : LogItem) {l : List LogItem} → l ≡ [] → i ∷ l ≡ l ++ i ∷ []
  one_commutes i e = ap (λ r. i ∷ r) e ∙ sym (ap (λ r. r ++ i ∷ []) e)

  delay_or_emit-Delivers :
      (log : RawFunctionLog) (w : Work State)
      → IsFlushed w.state
      → Succeeds
          (Delivers (waiting w.state ++ function_item log ∷ []) w)
          (delay_or_emit tools config log w)
  unfolding delay_or_emit waiting
  delay_or_emit-Delivers log w f =
      if_known (λ o. Succeeds (Delivers (waiting w.state ++ function_item log ∷ []) w) o)
        w.state.delaying_logs
        (λ on. record {
          known =
              delivered (Reaches-none tools config w _ refl)
                (waiting_of-append w.state.delaying_logs w.state.logs log w.state.start_data)
                (λ z. cc (on, z));
        })
        (λ off.
          Succeeds-map (emit_function_log-Stays tools config log w)
            (λ u h. delivered h (one_commutes (function_item log) (idle w f off)) f))

  detected-Delivers :
      (time : ℤ) (r : EpsagonTraceDetectionResult) (w : Work State)
      → IsFlushed w.state
      → Succeeds
          (Delivers (waiting w.state ++ function_items r time) w)
          (detected tools config of_invocation (delay_or_emit tools config) time r w)
  unfolding detected push_epsagon_trace
  detected-Delivers time (epsagon_trace_json t) w f = record {
    known =
        subst (λ items. Delivers items w (push_epsagon_trace t w)) (sym (append-nil _))
          (unmoved w (push_epsagon_trace t w) f refl refl refl refl);
  }
  detected-Delivers time (regular_log t) w f = delay_or_emit-Delivers _ w f

  function-Delivers :
      (time : ℤ) (text : String) (w : Work State)
      → IsFlushed w.state
      → Succeeds
          (Delivers (arrived time (function text) (waiting w.state)) w)
          (on_function tools config of_invocation (delay_or_emit tools config) time text w)
  unfolding on_function arrived
  function-Delivers time text w f =
      if_both (λ (o : Outcome State) items. Succeeds (Delivers items w) o)
        (is_structured config.log_mode)
        (detected-Delivers time (detect_epsagon_trace tools.epsagon text) w f)
        (record { known = unmoved w w f refl refl refl refl })

  start_expected : PlatformStartData → List LogItem → List LogItem
  start_expected d items =
      if emits_start_logs tools config then start_item d ∷ without_start items else items

  on_start-Delivers :
      (d : PlatformStartData) (w : Work State)
      → IsFlushed w.state
      → Succeeds (Delivers (start_expected d (waiting w.state)) w) (on_start tools config d w)
  unfolding on_start waiting waiting_of start_expected
  on_start-Delivers d w f =
      Succeeds-then
        (if_both (λ (o : Outcome State) items. Succeeds (Goes items w) o)
          (emits_start_logs tools config && not w.state.delaying_logs)
          (emit_start_log-Stays tools config d w)
          (record { known = Reaches-none tools config w w refl }))
        (λ u h. record {
          known =
              delivered (Stays-start h)
                (start_accounted (emits_start_logs tools config) w.state.delaying_logs d
                  w.state.start_data w.state.logs)
                f;
        })
    where
      Stays-start :
          {items : List LogItem} {u : Work State}
          → Goes items w u
          → Reaches tools config items w w.state.delaying_logs w.state.logs
              (some d)
              (with_state (record u.state { start_data = some d }) u)
      Stays-start {items} h = record {
        emits = record {
          records = h.emits.records;
          made = h.emits.made;
          appended = h.emits.appended;
        };
        delaying = h.delaying;
        logs = h.logs;
        start_data = refl;
      }
