-- ===== src/PlatformMetrics/MaxGauge.antt =====
-- src/telemetry/processor/platform_metrics/instruments.rs: `MaxGauge`.
use coralogix_aws_lambda_tel.Prelude.{ℕ, Option, none, some, [], ◌∷◌}
use coralogix_aws_lambda_tel.Prelude.{map_option}
use coralogix_aws_lambda_tel.Prelude.{max_i64}
use coralogix_aws_lambda_tel.Proto.{gauge, Metric}
use coralogix_aws_lambda_tel.PlatformMetrics.Instruments.{Descriptor, describe, number_point}

pub record MaxGauge : Type 0 where
  pub descriptor : Descriptor
  pub maximum : Option ℕ

unfoldable pub new : Descriptor → MaxGauge
new d = record { descriptor = d; maximum = none }

higher : Option ℕ → ℕ → ℕ
higher none value = value
higher (some current) value = max_i64 current value

unfoldable pub add : MaxGauge → ℕ → MaxGauge
unfolding higher
add g value = record g { maximum = some (higher g.maximum value) }

unfoldable pub report : MaxGauge → ℕ → ℕ → Option Metric × MaxGauge
report g start timestamp = (
  map_option (λ value. describe g.descriptor (gauge (number_point start timestamp value ∷ [])))
      g.maximum,
  g,
)
