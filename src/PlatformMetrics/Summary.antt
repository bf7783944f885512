-- ===== src/PlatformMetrics/Summary.antt =====
-- src/telemetry/processor/platform_metrics/instruments.rs: `Summary`.
use coralogix_aws_lambda_tel.Prelude.{ℕ, not, Option, none, some, List, [], ◌∷◌}
use coralogix_aws_lambda_tel.Prelude.{◌==◌, if◌then◌else◌}
use coralogix_aws_lambda_tel.Prelude.{add64, F64, FloatOps, f64_zero}
use coralogix_aws_lambda_tel.Proto.{SummaryDataPoint, summary, Metric}
use coralogix_aws_lambda_tel.PlatformMetrics.Instruments.{
  Descriptor, describe, is_late, injected_timestamp,
}

pub record Summary : Type 0 where
  pub descriptor : Descriptor
  pub sum : F64
  pub count : ℕ
  pub last_sum : F64
  pub last_count : ℕ
  pub last_report_timestamp_nanos : ℕ

abbrev summary_point : ℕ → ℕ → ℕ → F64 → SummaryDataPoint
summary_point start timestamp count total = record {
  attributes = [];
  start_time_unix_nano = start;
  time_unix_nano = timestamp;
  flags = 0;
  count = count;
  sum = total;
  quantile_values = [];
}

unfoldable pub new : Descriptor → Summary
new d = record {
  descriptor = d;
  sum = f64_zero;
  count = 0;
  last_sum = f64_zero;
  last_count = 0;
  last_report_timestamp_nanos = 0;
}

unfoldable pub add : FloatOps → Summary → F64 → Summary
add fl s value = record s { sum = fl.add s.sum value; count = add64 s.count 1 }

unfoldable pub points : Summary → ℕ → ℕ → List SummaryDataPoint
points s start timestamp =
    let this = summary_point start timestamp s.count s.sum in
    if is_late s.last_report_timestamp_nanos timestamp
    then summary_point start (injected_timestamp timestamp) s.last_count s.last_sum ∷ this ∷ []
    else this ∷ []

unfoldable pub report : Summary → ℕ → ℕ → Option Metric × Summary
unfolding points
report s start timestamp =
    if not (s.count == s.last_count)
    then (
      some (describe s.descriptor (summary (points s start timestamp))),
      record s { last_sum = s.sum; last_count = s.count; last_report_timestamp_nanos = timestamp },
    )
    else (none, s)
