-- ===== src/Logs/Records.antt =====
-- src/telemetry/processor/log_maker.rs and log_processor.rs: the log records.
pub mod Failures
use coralogix_aws_lambda_tel.Prelude.{
  ℕ, zero, suc, ◌+◌, ◌-◌, ◌*◌, ◌/◌, ◌%◌, ◌≤◌, ◌<◌, min, max, String, ◌≡◌, refl, sym, ap, ◌∙◌, subst,
  fun_ext, ◌≢◌, ◌↔◌, ◌⊎◌, inl, inr, Bool, true, false, not, ◌&&◌, ◌||◌, Option, none, some, List,
  [], ◌∷◌, ◌++◌, map, append_assoc, append-nil, arith, str_eq, str_eq_iff,
}
use coralogix_aws_lambda_tel.Prelude.{
  ltb, leb, ◌==◌, if◌then◌else◌, ltb→lt, lt→ltb, leb→le, ==_iff, tests, Bool-cases, Option-cases,
  length, all, is_empty, is_some, is_none, or_option, unwrap_or, last_or, keep, length-append,
  map_option, and_then, All, All-append,
}
use coralogix_aws_lambda_tel.Prelude.{
  u64_mod, u64_max, i64_sign, add64, mul64, le_i64, max_i64, ℤ, pos, negsuc, eq_ℤ, as_u64, F64,
  FloatOps, f64_zero, f64_thousand, f64_million, find, modify_entry, ◌<>◌, show_u64, show_i64, join,
}
use coralogix_aws_lambda_tel.Proto.{
  Bytes, Value, string_value, bool_value, int_value, double_value, array_value, kvlist_value,
  bytes_value, AnyValue, unset, with_value, AnyValues, nil, cons, KeyValues, end, bare, pair,
  KeyValue, NumberValue, as_double, as_int, NumberDataPoint, HistogramDataPoint, ValueAtQuantile,
  SummaryDataPoint, MetricData, gauge, sum, histogram, summary, exponential_histogram, Metric,
  cumulative, InstrumentationScope, Resource, Status, Span, ScopeSpans, ResourceSpans, ScopeMetrics,
  ResourceMetrics, LogRecord, ScopeLogs, ResourceLogs,
}
use coralogix_aws_lambda_tel.Events.{
  EventStatus, success, error, failure, timeout, is_success, is_error, EventSpan, TraceContext,
  InitReportMetrics, RuntimeDoneMetrics, ReportMetrics, PlatformInitStartData,
  PlatformInitRuntimeDoneData, PlatformInitReportData, PlatformStartData, PlatformRuntimeDoneData,
  PlatformReportData, LambdaTelemetryRecord, function, extension, platform_init_start,
  platform_init_runtime_done, platform_init_report, platform_start, platform_runtime_done,
  platform_report, platform_extension, platform_telemetry_subscription, platform_logs_dropped,
  LambdaTelemetry, Error, component_range, serialization, invalid_arn, panic, Result, ok, err,
  ◌>>=◌, millis_to_nanos, event_timestamp, is_out_of_memory,
}
use coralogix_aws_lambda_tel.Config
use coralogix_aws_lambda_tel.Config.{
  LogMode, is_structured, PlatformMetricsMode, OtelMetricsMode, TracingMode, TraceSamplingMode,
  TelemetryReportingStrategy, low_overhead, report_after_invocation,
  report_during_and_after_invocation, send_after_invocation, send_after_delay, PlatformEventLogSet,
  PlatformLogsConfig, LogMetadataConfig, LogsMetadataMode, BuiltInAttributeSet, AttributeConfig,
  AttributeConfigs, AttributeExclusionMode, exclusion_regex, TelemetryProcessorConfig,
  TelemetryServiceConfig,
}
use coralogix_aws_lambda_tel.Logs.Timestamp.{LastLogState, make_log_timestamp}
use coralogix_aws_lambda_tel.Logs.Truncation.{
  SeverityNumber, severity_code, infer_severity, truncate_with_annotation_if_too_long,
}
use coralogix_aws_lambda_tel.Logs.Metadata.{
  ProcessingState, of_invocation, of_degraded, LogMetadata, RuntimeDoneLogMetrics, ReportLogMetrics,
  PlatformEventLog, start, runtime_done, report, then_some, status_to_string, status_to_severity,
  log_metadata,
}
use coralogix_aws_lambda_tel.Logs.Json.{Json, object, Members, Numbers, from_json}
use coralogix_aws_lambda_tel.Processing.State.{SpanRef, RawFunctionLog}

-- what is serialized: `JsonLogWithMetadata` and its three siblings
pub data LogBody : Type 0 where
  json_log : Option LogMetadata → Members → LogBody
  text_log : Option LogMetadata → String → LogBody
  platform_log : Option LogMetadata → PlatformEventLog → LogBody
  platform_log_v2 : Option LogMetadata → PlatformEventLog → LogBody

-- `serde_json::from_str` and `to_value`, where an error is `none`, its numbers, `hex::encode`, and
-- `str::to_lowercase`
pub record LogTools : Type 0 where
  pub from_str : String → Option Json
  pub to_value : LogBody → Option Json
  pub numbers : Numbers
  pub hex_encode : Bytes → String
  pub to_lowercase : String → String

module _ (tools : LogTools) where
  record_of : Option Json → SeverityNumber → ℕ → SpanRef → Result LogRecord
  record_of none severity timestamp span_ref = err serialization
  record_of (some body) severity timestamp span_ref = ok (record {
    time_unix_nano = timestamp;
    observed_time_unix_nano = 0;
    severity_number = severity_code severity;
    severity_text = "";
    body = some (from_json tools.numbers body);
    attributes = [];
    dropped_attributes_count = 0;
    flags = 0;
    trace_id = span_ref.trace_id;
    span_id = span_ref.span_id;
  })

  body_of : Option LogMetadata → String → Option Json → LogBody
  body_of metadata log_text (some (object json)) = json_log metadata json
  body_of metadata log_text _ = text_log metadata log_text

  unfoldable pub make_function_log_record :
      ℕ → String → Option LogMetadata → ℕ → SpanRef → Result LogRecord
  unfolding record_of body_of
  make_function_log_record message_size_limit log_text metadata timestamp span_ref =
      let log_text = truncate_with_annotation_if_too_long log_text message_size_limit in
      let severity = infer_severity tools.to_lowercase log_text in
      let body = body_of metadata log_text (tools.from_str log_text) in
      record_of (tools.to_value body) severity timestamp span_ref

  -- `make_platform_log_record`, and `make_platform_log_record_v2` where default values are hidden
  unfoldable pub make_platform_log_record :
      Bool → PlatformEventLog → SeverityNumber → Option LogMetadata → ℕ → SpanRef → Result LogRecord
  unfolding record_of
  make_platform_log_record false event severity metadata timestamp span_ref =
      record_of (tools.to_value (platform_log metadata event)) severity timestamp span_ref
  make_platform_log_record true event severity metadata timestamp span_ref =
      record_of (tools.to_value (platform_log_v2 metadata event)) severity timestamp span_ref

  -- The operations give the record, or the error, and the state with the next timestamp.
  module _ {S : Type 0} (P : ProcessingState S) (config : TelemetryProcessorConfig) where
    stamped : (Option LogMetadata → ℕ → SpanRef → Result LogRecord) → ℤ → S → Result LogRecord × S
    stamped make time state =
        let metadata = log_metadata tools.hex_encode P config state in
        let (timestamp, last) = make_log_timestamp (P.last_log_state state) time in
        let state' = P.with_last_log_state last state in
        (make metadata timestamp (P.current_span_ref state'), state')

    unfoldable pub make_function_log : RawFunctionLog → S → Result LogRecord × S
    unfolding stamped
    make_function_log log state =
        stamped (make_function_log_record config.message_size_limit log.log_text) log.time state

    abbrev request_id_of : String → Option String
    request_id_of id = then_some config.platform_logs.include_request_id id

    abbrev platform_record :
        PlatformEventLog → SeverityNumber → Option LogMetadata → ℕ → SpanRef → Result LogRecord
    platform_record = make_platform_log_record config.platform_logs.hide_default_values

    unfoldable pub make_platform_start_log : PlatformStartData → S → Result LogRecord × S
    unfolding stamped
    make_platform_start_log d state =
        let event = start (request_id_of d.request_id) d.version in
        stamped (platform_record event SeverityNumber.info) d.time state

    -- the two last arguments of the event are the status of the handler and its description
    unfoldable pub make_platform_runtime_done_log :
        PlatformRuntimeDoneData → Option String → Option String → S → Result LogRecord × S
    unfolding stamped
    make_platform_runtime_done_log d handler_status handler_status_description state =
        let metrics : RuntimeDoneLogMetrics = record {
          duration_ms = map_option (λ (m : RuntimeDoneMetrics). m.duration_ms) d.metrics;
          produced_bytes = and_then d.metrics (λ (m : RuntimeDoneMetrics). m.produced_bytes);
        } in
        let event =
          runtime_done (request_id_of d.request_id) (status_to_string d.status) d.error_type
            handler_status handler_status_description metrics in
        stamped (platform_record event (status_to_severity d.status)) d.time state

    abbrev produced_bytes_of : Option PlatformRuntimeDoneData → Option ℕ
    produced_bytes_of o = and_then o (λ (d : PlatformRuntimeDoneData).
        and_then d.metrics (λ (m : RuntimeDoneMetrics). m.produced_bytes))

    unfoldable pub make_platform_report_log : PlatformReportData → S → Result LogRecord × S
    unfolding stamped
    make_platform_report_log d state =
        let m : ReportMetrics = d.metrics in
        let metrics : ReportLogMetrics = record {
          duration_ms = m.duration_ms;
          billed_duration_ms = m.billed_duration_ms;
          memory_size_mb = m.memory_size_mb;
          max_memory_used_mb = m.max_memory_used_mb;
          init_duration_ms = m.init_duration_ms;
          restore_duration_ms = m.restore_duration_ms;
          produced_bytes = produced_bytes_of (P.get_runtime_done_data state);
        } in
        let event =
          report (request_id_of d.request_id) (status_to_string d.status) d.error_type
            (is_out_of_memory d) metrics in
        stamped (platform_record event (status_to_severity d.status)) d.time state
