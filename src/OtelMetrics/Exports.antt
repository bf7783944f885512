-- ===== src/OtelMetrics/Exports.antt =====
-- src/telemetry/otel_metrics.rs: an export takes every gathered point.
use coralogix_aws_lambda_tel.Prelude.{◌≡◌, Bool, true, Option, none, some, List, []}
use coralogix_aws_lambda_tel.Prelude.{is_empty}
use coralogix_aws_lambda_tel.Proto.{
  MetricData, gauge, sum, histogram, summary, exponential_histogram, Metric,
}
use coralogix_aws_lambda_tel.OtelMetrics.TimeSeries.{TimeSeries}
use coralogix_aws_lambda_tel.OtelMetrics.TimeSeriesId.{TimeSeriesId}

abbrev pub has_no_points : Option MetricData → Bool
has_no_points none = true
has_no_points (some (gauge points)) = is_empty points
has_no_points (some (sum points temporality is_monotonic)) = is_empty points
has_no_points (some (histogram points temporality)) = is_empty points
has_no_points (some (summary points)) = is_empty points
has_no_points (some (exponential_histogram points)) = is_empty points

abbrev pub IsEmptyMetric : Metric → Type 0
IsEmptyMetric m = has_no_points m.body ≡ true

-- A step that finds nothing the second time.
abbrev pub IsSettling : {DP : Type 0} → (TimeSeries DP → List DP × TimeSeries DP) → Type 0
IsSettling {DP} step =
    (ts : TimeSeries DP) → ◌≡◌ {A = List DP × TimeSeries DP} (step (step ts).1) ([], (step ts).1)

-- An accumulator that exports an empty metric the second time.
abbrev IsSettled : {A : Type 0} → (A → Metric × A) → Type 0
IsSettled {A} one = (a : A) → IsEmptyMetric (one (one a).1).0 × ((one (one a).1).1 ≡ (one a).1)
