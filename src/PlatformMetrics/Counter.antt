-- ===== src/PlatformMetrics/Counter.antt =====
-- src/telemetry/processor/platform_metrics/instruments.rs: `Counter`.
use coralogix_aws_lambda_tel.Prelude.{ℕ, true, not, Option, none, some, List, [], ◌∷◌}
use coralogix_aws_lambda_tel.Prelude.{◌==◌, if◌then◌else◌}
use coralogix_aws_lambda_tel.Prelude.{add64}
use coralogix_aws_lambda_tel.Proto.{NumberDataPoint, sum, Metric, cumulative}
use coralogix_aws_lambda_tel.PlatformMetrics.Instruments.{
  Descriptor, describe, is_late, injected_timestamp, number_point,
}

pub record Counter : Type 0 where
  pub descriptor : Descriptor
  pub count : ℕ
  pub last_count : ℕ
  pub last_report_timestamp_nanos : ℕ

unfoldable pub new : Descriptor → Counter
new d = record { descriptor = d; count = 0; last_count = 0; last_report_timestamp_nanos = 0 }

-- `self.count += value` on i64
unfoldable pub add : Counter → ℕ → Counter
add c value = record c { count = add64 c.count value }

unfoldable pub points : Counter → ℕ → ℕ → List NumberDataPoint
points c start timestamp =
    let this = number_point start timestamp c.count in
    if is_late c.last_report_timestamp_nanos timestamp
    then number_point start (injected_timestamp timestamp) c.last_count ∷ this ∷ []
    else this ∷ []

unfoldable pub report : Counter → ℕ → ℕ → Option Metric × Counter
unfolding points
report c start timestamp =
    if not (c.count == c.last_count)
    then (
      some (describe c.descriptor (sum (points c start timestamp) cumulative true)),
      record c { last_count = c.count; last_report_timestamp_nanos = timestamp },
    )
    else (none, c)
