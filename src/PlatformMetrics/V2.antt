-- ===== src/PlatformMetrics/V2.antt =====
-- src/telemetry/processor/platform_metrics/v2.rs: the metrics of the mode `PlatformV2`.
use coralogix_aws_lambda_tel.Prelude.{ℕ, ◌&&◌, Option, none, some, List, [], ◌∷◌}
use coralogix_aws_lambda_tel.Prelude.{if◌then◌else◌}
use coralogix_aws_lambda_tel.Prelude.{mul64, as_u64, F64, FloatOps, f64_thousand}
use coralogix_aws_lambda_tel.Proto.{Metric}
use coralogix_aws_lambda_tel.Events.{
  EventStatus, success, error, failure, timeout, is_error, RuntimeDoneMetrics,
  PlatformInitReportData, PlatformRuntimeDoneData, PlatformReportData, is_out_of_memory,
}
use coralogix_aws_lambda_tel.PlatformMetrics.Counter
use coralogix_aws_lambda_tel.PlatformMetrics.Counter.{Counter}
use coralogix_aws_lambda_tel.PlatformMetrics.Summary
use coralogix_aws_lambda_tel.PlatformMetrics.Summary.{Summary}
use coralogix_aws_lambda_tel.PlatformMetrics.MaxGauge
use coralogix_aws_lambda_tel.PlatformMetrics.MaxGauge.{MaxGauge}
use coralogix_aws_lambda_tel.PlatformMetrics.Instruments.{reported, descriptor}

pub record PlatformMetrics : Type 0 where
  pub errors : Counter
  pub probable_ooms : Counter
  pub timeouts : Counter
  pub init_duration_seconds : Summary
  pub invoke_duration_seconds : Summary
  pub billed_duration_seconds : Summary
  pub memory_used_bytes : MaxGauge
  pub memory_limit_bytes : MaxGauge

unfoldable pub default : PlatformMetrics
default = record {
  errors = Counter.new (descriptor "faas.errors" "Number of errors" "");
  probable_ooms = Counter.new (
      descriptor "faas.probable_ooms"
        "Number of Errors, that are likely to have been caused by running out of memory" "");
  timeouts = Counter.new (descriptor "faas.timeouts" "Number of timeouts" "");
  init_duration_seconds = Summary.new (
      descriptor "faas.init_duration_seconds"
        "Duration of Lambda execution environment initialization" "");
  invoke_duration_seconds =
      Summary.new
        (descriptor "faas.invoke_duration_seconds" "Duration of Lambda function code execution" "");
  billed_duration_seconds = Summary.new (
      descriptor "faas.billed_duration_seconds"
        "Duration of Lambda function execution that is billed" "");
  memory_used_bytes = MaxGauge.new (
      descriptor "faas.mem_usage_bytes"
        "Largest amount of memory used by the lambda function (and lambda extensions)" "");
  memory_limit_bytes =
      MaxGauge.new
        (descriptor "faas.mem_limit_bytes" "Size of memory configured for the lambda function" "");
}

pub record PlatformMetricsState : Type 0 where
  pub start_timestamp_nanos : ℕ
  pub latest_data_timestamp_nanos : ℕ
  pub metrics : PlatformMetrics

-- `now_nanos()` is the argument
unfoldable pub new : ℕ → PlatformMetricsState
unfolding default
new now = record {
  start_timestamp_nanos = now;
  latest_data_timestamp_nanos = now;
  metrics = default;
}

module _ (fl : FloatOps) where
  seconds : F64 → F64
  seconds ms = fl.div ms f64_thousand

  unfoldable pub update_metrics_with_init_report :
      PlatformInitReportData → PlatformMetricsState → PlatformMetricsState
  unfolding seconds
  update_metrics_with_init_report init_report state =
      let m = state.metrics in
      record state {
        metrics = record m {
          init_duration_seconds =
              Summary.add fl m.init_duration_seconds (seconds init_report.metrics.duration_ms);
        };
      }

  add_duration : Option RuntimeDoneMetrics → PlatformMetrics → PlatformMetrics
  add_duration none m = m
  add_duration (some r) m = record m {
    invoke_duration_seconds = Summary.add fl m.invoke_duration_seconds (seconds r.duration_ms);
  }

  count_status : EventStatus → PlatformMetrics → PlatformMetrics
  count_status success m = m
  count_status error m = record m { errors = Counter.add m.errors 1 }
  count_status failure m = record m { errors = Counter.add m.errors 1 }
  count_status timeout m = record m { timeouts = Counter.add m.timeouts 1 }

  unfoldable pub update_metrics_with_runtime_done :
      PlatformRuntimeDoneData → PlatformMetricsState → PlatformMetricsState
  unfolding add_duration count_status seconds
  update_metrics_with_runtime_done done state = record state {
    metrics = count_status done.status (add_duration done.metrics state.metrics);
    latest_data_timestamp_nanos = as_u64 done.time;
  }

  unfoldable pub update_metrics_with_report :
      PlatformReportData → PlatformMetricsState → PlatformMetricsState
  unfolding seconds
  update_metrics_with_report report state =
      let m = state.metrics in
      record state {
        metrics = record m {
          memory_used_bytes =
              MaxGauge.add m.memory_used_bytes
                (mul64 (mul64 report.metrics.max_memory_used_mb 1024) 1024);
          memory_limit_bytes =
              MaxGauge.add m.memory_limit_bytes
                (mul64 (mul64 report.metrics.memory_size_mb 1024) 1024);
          billed_duration_seconds =
              Summary.add fl m.billed_duration_seconds
                (seconds (fl.of_u64 report.metrics.billed_duration_ms));
          probable_ooms =
              if is_error report.status && is_out_of_memory report
              then Counter.add m.probable_ooms 1
              else m.probable_ooms;
        };
      }

unfoldable pub make_metrics_report : PlatformMetricsState → List Metric × PlatformMetricsState
make_metrics_report state =
    let start = state.start_timestamp_nanos in
    let timestamp = state.latest_data_timestamp_nanos in
    let metrics = state.metrics in
    let (errors_metric, errors') = Counter.report metrics.errors start timestamp in
    let (probable_ooms_metric, probable_ooms') =
      Counter.report metrics.probable_ooms start timestamp in
    let (timeouts_metric, timeouts') = Counter.report metrics.timeouts start timestamp in
    let (init_duration_seconds_metric, init_duration_seconds') =
      Summary.report metrics.init_duration_seconds start timestamp in
    let (invoke_duration_seconds_metric, invoke_duration_seconds') =
      Summary.report metrics.invoke_duration_seconds start timestamp in
    let (billed_duration_seconds_metric, billed_duration_seconds') =
      Summary.report metrics.billed_duration_seconds start timestamp in
    let (memory_used_bytes_metric, memory_used_bytes') =
      MaxGauge.report metrics.memory_used_bytes start timestamp in
    let (memory_limit_bytes_metric, memory_limit_bytes') =
      MaxGauge.report metrics.memory_limit_bytes start timestamp in
    (
      reported (
          errors_metric ∷ probable_ooms_metric ∷ timeouts_metric ∷ init_duration_seconds_metric
          ∷ invoke_duration_seconds_metric ∷ billed_duration_seconds_metric
          ∷ memory_used_bytes_metric ∷ memory_limit_bytes_metric ∷ []),
      record state {
        metrics = record {
          errors = errors';
          probable_ooms = probable_ooms';
          timeouts = timeouts';
          init_duration_seconds = init_duration_seconds';
          invoke_duration_seconds = invoke_duration_seconds';
          billed_duration_seconds = billed_duration_seconds';
          memory_used_bytes = memory_used_bytes';
          memory_limit_bytes = memory_limit_bytes';
        };
      },
    )
