-- ===== src/PlatformMetrics/Mode.antt =====
-- src/telemetry/processor/platform_metrics/mod.rs: the platform metrics of the configured mode.
use coralogix_aws_lambda_tel.Prelude.{ℕ, List, []}
use coralogix_aws_lambda_tel.Proto.{Metric}
use coralogix_aws_lambda_tel.Config.{PlatformMetricsMode}
use coralogix_aws_lambda_tel.PlatformMetrics.V1
use coralogix_aws_lambda_tel.PlatformMetrics.V2

pub data PlatformMetricsState : Type 0 where
  disabled : PlatformMetricsState
  v1 : V1.PlatformMetricsState → PlatformMetricsState
  v2 : V2.PlatformMetricsState → PlatformMetricsState

unfoldable pub for_mode : PlatformMetricsMode → ℕ → PlatformMetricsState
for_mode PlatformMetricsMode.disabled now = disabled
for_mode PlatformMetricsMode.platform_report now = v1 (V1.new now)
for_mode PlatformMetricsMode.platform_v2 now = v2 (V2.new now)

unfoldable pub make_metrics_report : PlatformMetricsState → List Metric × PlatformMetricsState
make_metrics_report disabled = ([], disabled)
make_metrics_report (v1 state) =
    let (report, state') = V1.make_metrics_report state in (report, v1 state')
make_metrics_report (v2 state) =
    let (report, state') = V2.make_metrics_report state in (report, v2 state')
