-- ===== src/PlatformMetrics/V1.antt =====
-- src/telemetry/processor/platform_metrics/v1.rs: the metrics of the mode `PlatformReport`.
pub mod Accounting
use coralogix_aws_lambda_tel.Prelude.{
  ℕ, zero, suc, ◌+◌, ◌-◌, ◌*◌, ◌/◌, ◌%◌, ◌≤◌, ◌<◌, min, max, String, ◌≡◌, refl, sym, ap, ◌∙◌, subst,
  fun_ext, ◌≢◌, ◌↔◌, ◌⊎◌, inl, inr, Bool, true, false, not, ◌&&◌, ◌||◌, Option, none, some, List,
  [], ◌∷◌, ◌++◌, map, append_assoc, append-nil, arith, str_eq, str_eq_iff,
}
use coralogix_aws_lambda_tel.Prelude.{
  ltb, leb, ◌==◌, if◌then◌else◌, ltb→lt, lt→ltb, leb→le, ==_iff, tests, Bool-cases, Option-cases,
  length, all, is_empty, is_some, is_none, or_option, unwrap_or, last_or, keep, length-append,
  map_option, and_then, All, All-append,
}
use coralogix_aws_lambda_tel.Prelude.{
  u64_mod, u64_max, i64_sign, add64, mul64, le_i64, max_i64, ℤ, pos, negsuc, eq_ℤ, as_u64, F64,
  FloatOps, f64_zero, f64_thousand, f64_million, find, modify_entry, ◌<>◌, show_u64, show_i64, join,
}
use coralogix_aws_lambda_tel.Proto.{
  Bytes, Value, string_value, bool_value, int_value, double_value, array_value, kvlist_value,
  bytes_value, AnyValue, unset, with_value, AnyValues, nil, cons, KeyValues, end, bare, pair,
  KeyValue, NumberValue, as_double, as_int, NumberDataPoint, HistogramDataPoint, ValueAtQuantile,
  SummaryDataPoint, MetricData, gauge, sum, histogram, summary, exponential_histogram, Metric,
  cumulative, InstrumentationScope, Resource, Status, Span, ScopeSpans, ResourceSpans, ScopeMetrics,
  ResourceMetrics, LogRecord, ScopeLogs, ResourceLogs,
}
use coralogix_aws_lambda_tel.Events.{
  EventStatus, success, error, failure, timeout, is_success, is_error, EventSpan, TraceContext,
  InitReportMetrics, RuntimeDoneMetrics, ReportMetrics, PlatformInitStartData,
  PlatformInitRuntimeDoneData, PlatformInitReportData, PlatformStartData, PlatformRuntimeDoneData,
  PlatformReportData, LambdaTelemetryRecord, function, extension, platform_init_start,
  platform_init_runtime_done, platform_init_report, platform_start, platform_runtime_done,
  platform_report, platform_extension, platform_telemetry_subscription, platform_logs_dropped,
  LambdaTelemetry, Error, component_range, serialization, invalid_arn, panic, Result, ok, err,
  ◌>>=◌, millis_to_nanos, event_timestamp, is_out_of_memory,
}
use coralogix_aws_lambda_tel.PlatformMetrics.Counter
use coralogix_aws_lambda_tel.PlatformMetrics.Counter.{Counter}
use coralogix_aws_lambda_tel.PlatformMetrics.Summary
use coralogix_aws_lambda_tel.PlatformMetrics.Summary.{Summary}
use coralogix_aws_lambda_tel.PlatformMetrics.MaxGauge
use coralogix_aws_lambda_tel.PlatformMetrics.MaxGauge.{MaxGauge}
use coralogix_aws_lambda_tel.PlatformMetrics.Instruments.{
  Descriptor, is_late, injected_timestamp, number_point,
}
use coralogix_aws_lambda_tel.PlatformMetrics.Instruments.{reported, descriptor}

pub record PlatformMetrics : Type 0 where
  pub coldstarts : Counter
  pub executions : Counter
  pub errors : Counter
  pub ooms : Counter
  pub timeouts : Counter
  pub init_duration_millis : Summary
  pub restore_duration_millis : Summary
  pub invoke_duration_millis : Summary
  pub overhead_duration_millis : Summary
  pub result_size_bytes : Summary
  pub max_memory_used_mb : MaxGauge
  pub memory_size_mb : MaxGauge

unfoldable pub default : PlatformMetrics
default = record {
  coldstarts = Counter.new (descriptor "faas.coldstarts" "Number of coldstarts" "");
  executions = Counter.new (descriptor "faas.executions" "Number of executions" "");
  errors = Counter.new (descriptor "faas.errors" "Number of errors" "");
  ooms = Counter.new (descriptor "faas.ooms" "Number of Out of Memory errors" "");
  timeouts = Counter.new (descriptor "faas.timeouts" "Number of timeouts" "");
  init_duration_millis = Summary.new (
      descriptor "faas.init_duration" "Duration of Lambda execution environment initialization"
        "ms");
  restore_duration_millis = Summary.new (
      descriptor "faas.restore_duration" "Duration of Lambda execution environment restoration"
        "ms");
  invoke_duration_millis =
      Summary.new
        (descriptor "faas.invoke_duration" "Duration of Lambda function code execution" "ms");
  overhead_duration_millis = Summary.new (
      descriptor "faas.overhead_duration"
        "Duration of Lambda extension code execution after Lambda function code execution finished"
        "ms");
  result_size_bytes =
      Summary.new (descriptor "faas.result_size" "Size of result produced by Lambda Function" "B");
  max_memory_used_mb = MaxGauge.new (
      descriptor "faas.mem_usage"
        "Largest amount of memory used by the lambda function (and lambda extensions)" "MB");
  memory_size_mb =
      MaxGauge.new
        (descriptor "faas.mem_limit" "Size of memory configured for the lambda function" "MB");
}

pub record PlatformMetricsState : Type 0 where
  pub start_timestamp_nanos : ℕ
  pub latest_data_timestamp_nanos : ℕ
  pub metrics : PlatformMetrics

-- `now_nanos()` is the argument
unfoldable pub new : ℕ → PlatformMetricsState
unfolding default
new now = record {
  start_timestamp_nanos = now;
  latest_data_timestamp_nanos = now;
  metrics = default;
}

module _ (fl : FloatOps) where
  add_some : Option F64 → Summary → Summary
  add_some none s = s
  add_some (some d) s = Summary.add fl s d

  unfoldable pub update_coldstarts_metric : ReportMetrics → PlatformMetrics → PlatformMetrics
  update_coldstarts_metric r m =
      if is_some r.init_duration_ms || is_some r.restore_duration_ms
      then record m { coldstarts = Counter.add m.coldstarts 1 }
      else m

  count_status : EventStatus → Bool → PlatformMetrics → PlatformMetrics
  count_status success oom m = m
  count_status error true m = record m { ooms = Counter.add m.ooms 1 }
  count_status error false m = record m { errors = Counter.add m.errors 1 }
  count_status failure oom m = record m { errors = Counter.add m.errors 1 }
  count_status timeout oom m = record m { timeouts = Counter.add m.timeouts 1 }

  unfoldable pub update_executions_and_status_metrics :
      EventStatus → Bool → PlatformMetrics → PlatformMetrics
  unfolding count_status
  update_executions_and_status_metrics status out_of_memory m =
      count_status status out_of_memory (record m { executions = Counter.add m.executions 1 })

  unfoldable pub update_duration_metrics :
      Option RuntimeDoneMetrics → ReportMetrics → PlatformMetrics → PlatformMetrics
  unfolding add_some
  update_duration_metrics runtime r m =
      let runtime_ms = map_option (λ (x : RuntimeDoneMetrics). x.duration_ms) runtime in
      record m {
        init_duration_millis = add_some r.init_duration_ms m.init_duration_millis;
        restore_duration_millis = add_some r.restore_duration_ms m.restore_duration_millis;
        invoke_duration_millis = add_some runtime_ms m.invoke_duration_millis;
        overhead_duration_millis =
            Summary.add fl m.overhead_duration_millis
              (fl.sub r.duration_ms (unwrap_or runtime_ms f64_zero));
      }

  unfoldable pub update_result_size_metric :
      Option RuntimeDoneMetrics → PlatformMetrics → PlatformMetrics
  unfolding add_some
  update_result_size_metric runtime m =
      let bytes = and_then runtime (λ (x : RuntimeDoneMetrics). x.produced_bytes) in
      record m { result_size_bytes = add_some (map_option fl.of_u64 bytes) m.result_size_bytes }

  unfoldable pub update_memory_metrics : ReportMetrics → PlatformMetrics → PlatformMetrics
  update_memory_metrics r m = record m {
    max_memory_used_mb = MaxGauge.add m.max_memory_used_mb r.max_memory_used_mb;
    memory_size_mb = MaxGauge.add m.memory_size_mb r.memory_size_mb;
  }

  update_with :
      PlatformReportData → Option RuntimeDoneMetrics → PlatformMetricsState → PlatformMetricsState
  update_with report runtime state =
      let m = update_coldstarts_metric report.metrics state.metrics in
      let m = update_executions_and_status_metrics report.status (is_out_of_memory report) m in
      let m = update_duration_metrics runtime report.metrics m in
      let m = update_result_size_metric runtime m in
      let m = update_memory_metrics report.metrics m in
      record state { metrics = m; latest_data_timestamp_nanos = as_u64 report.time }

  -- over `get_report_data` and `get_runtime_done_data` of the processing state
  unfoldable pub update_metrics_after_report :
      Option PlatformReportData
      → Option PlatformRuntimeDoneData
      → PlatformMetricsState
      → Result PlatformMetricsState
  unfolding update_with
  update_metrics_after_report none runtime_done state = err panic
  update_metrics_after_report (some report) runtime_done state = ok (
      update_with report (and_then runtime_done (λ (d : PlatformRuntimeDoneData). d.metrics)) state)

unfoldable pub make_metrics_report : PlatformMetricsState → List Metric × PlatformMetricsState
make_metrics_report state =
    let start = state.start_timestamp_nanos in
    let timestamp = state.latest_data_timestamp_nanos in
    let metrics = state.metrics in
    let (coldstarts_metric, coldstarts') = Counter.report metrics.coldstarts start timestamp in
    let (executions_metric, executions') = Counter.report metrics.executions start timestamp in
    let (errors_metric, errors') = Counter.report metrics.errors start timestamp in
    let (ooms_metric, ooms') = Counter.report metrics.ooms start timestamp in
    let (timeouts_metric, timeouts') = Counter.report metrics.timeouts start timestamp in
    let (init_duration_millis_metric, init_duration_millis') =
      Summary.report metrics.init_duration_millis start timestamp in
    let (restore_duration_millis_metric, restore_duration_millis') =
      Summary.report metrics.restore_duration_millis start timestamp in
    let (invoke_duration_millis_metric, invoke_duration_millis') =
      Summary.report metrics.invoke_duration_millis start timestamp in
    let (overhead_duration_millis_metric, overhead_duration_millis') =
      Summary.report metrics.overhead_duration_millis start timestamp in
    let (result_size_bytes_metric, result_size_bytes') =
      Summary.report metrics.result_size_bytes start timestamp in
    let (max_memory_used_mb_metric, max_memory_used_mb') =
      MaxGauge.report metrics.max_memory_used_mb start timestamp in
    let (memory_size_mb_metric, memory_size_mb') =
      MaxGauge.report metrics.memory_size_mb start timestamp in
    (
      reported (
          coldstarts_metric ∷ executions_metric ∷ errors_metric ∷ ooms_metric ∷ timeouts_metric
          ∷ init_duration_millis_metric ∷ restore_duration_millis_metric
          ∷ invoke_duration_millis_metric ∷ overhead_duration_millis_metric
          ∷ result_size_bytes_metric ∷ max_memory_used_mb_metric ∷ memory_size_mb_metric ∷ []),
      record state {
        metrics = record {
          coldstarts = coldstarts';
          executions = executions';
          errors = errors';
          ooms = ooms';
          timeouts = timeouts';
          init_duration_millis = init_duration_millis';
          restore_duration_millis = restore_duration_millis';
          invoke_duration_millis = invoke_duration_millis';
          overhead_duration_millis = overhead_duration_millis';
          result_size_bytes = result_size_bytes';
          max_memory_used_mb = max_memory_used_mb';
          memory_size_mb = memory_size_mb';
        };
      },
    )
