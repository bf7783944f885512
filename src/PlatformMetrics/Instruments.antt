-- ===== src/PlatformMetrics/Instruments.antt =====
-- src/telemetry/processor/platform_metrics/instruments.rs: counters, summaries and gauges. `report`
-- returns the metric, if there is one, and the instrument afterwards.
use coralogix_aws_lambda_tel.Prelude.{
  ℕ, ◌+◌, ◌-◌, ◌%◌, String, Bool, Option, none, some, List, [], ◌∷◌,
}
use coralogix_aws_lambda_tel.Prelude.{ltb}
use coralogix_aws_lambda_tel.Prelude.{u64_mod, add64}
use coralogix_aws_lambda_tel.Proto.{as_int, NumberDataPoint, MetricData, Metric}
use coralogix_aws_lambda_tel.OtelMetrics.TimeSeries.{
  max_time_between_data_nanos, report_last_time_nanos,
}

pub record Descriptor : Type 0 where
  pub name : String
  pub description : String
  pub unit : String

abbrev pub describe : Descriptor → MetricData → Metric
describe d body = record {
  name = d.name;
  description = d.description;
  unit = d.unit;
  body = some body;
}

-- `timestamp_nanos > last_report + MAX_TIME_BETWEEN_DATA_NANOS`
abbrev pub is_late : ℕ → ℕ → Bool
is_late last_report timestamp = ltb (add64 last_report max_time_between_data_nanos) timestamp

-- `timestamp_nanos - REPORT_LAST_TIME_NANOS` on u64
abbrev pub injected_timestamp : ℕ → ℕ
injected_timestamp timestamp = (timestamp + u64_mod - report_last_time_nanos) % u64_mod

abbrev pub number_point : ℕ → ℕ → ℕ → NumberDataPoint
number_point start timestamp value = record {
  attributes = [];
  start_time_unix_nano = start;
  time_unix_nano = timestamp;
  exemplars = [];
  flags = 0;
  value = some (as_int value);
}

abbrev add_reported : Option Metric → List Metric → List Metric
add_reported none r = r
add_reported (some m) r = m ∷ r

-- `filter_map(|i| i.report(…)).collect()`
abbrev pub reported : List (Option Metric) → List Metric
reported [] = []
reported (o ∷ os) = add_reported o (reported os)

abbrev pub descriptor : String → String → String → Descriptor
descriptor name description unit = record { name = name; description = description; unit = unit }
