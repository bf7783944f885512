-- ===== src/Examples/Metrics.antt =====
-- src/telemetry/otel_metrics.rs and src/telemetry/processor/platform_metrics: examples with a series
-- of number points, and with the reports of a few invocations.
use coralogix_aws_lambda_tel.Prelude.{
  ℕ, ◌+◌, ◌-◌, ◌/◌, ◌≤◌, ◌≡◌, refl, true, none, some, List, [], ◌∷◌, ◌++◌, arith,
}
use coralogix_aws_lambda_tel.Prelude.{◌==◌}
use coralogix_aws_lambda_tel.Prelude.{add64, mul64, pos, F64, FloatOps}
use coralogix_aws_lambda_tel.Proto.{as_int, NumberDataPoint, sum, Metric, cumulative}
use coralogix_aws_lambda_tel.OtelMetrics.TimeSeries.{
  DataPoint, TimeSeries, take_and_inflate_data_points,
}
use coralogix_aws_lambda_tel.OtelMetrics.DataPoints.{number_data_point, number_data_point-laws}
use coralogix_aws_lambda_tel.Events.{EventStatus, success, error, timeout, PlatformReportData, ok}
use coralogix_aws_lambda_tel.PlatformMetrics.Counter
use coralogix_aws_lambda_tel.PlatformMetrics.Counter.{Counter}
use coralogix_aws_lambda_tel.PlatformMetrics.Summary
use coralogix_aws_lambda_tel.PlatformMetrics.Summary.{Summary}
use coralogix_aws_lambda_tel.OtelMetrics.TimeSeriesId.{plain}
use coralogix_aws_lambda_tel.OtelMetrics.Inflation.{
  Inserted, receive, take_and_inflate_data_points-Inserted, export_twice,
}
use coralogix_aws_lambda_tel.OtelMetrics.Gaps.{
  IsBridgedFrom, take_and_inflate_data_points-IsBridgedFrom,
}
use coralogix_aws_lambda_tel.OtelMetrics.Deduplication.{
  IsChangingFrom, push_all_if_different, push_all_if_different-IsChangingFrom, points_of,
  without_repeats, push_all_if_different-without_repeats,
}
use coralogix_aws_lambda_tel.PlatformMetrics.V1.{new, PlatformMetricsState}
use coralogix_aws_lambda_tel.PlatformMetrics.V1.Accounting.{
  Reported, update_all, successes, update_all-counts,
}
use coralogix_aws_lambda_tel.PlatformMetrics.Reporting.{
  IsRateable, counter_points-IsRateable, summary_points-IsRateable, number_time, number_value,
  summary_time, summary_value,
}
use coralogix_aws_lambda_tel.PlatformMetrics.Instruments.{descriptor}

-- floats whose arithmetic is that of their bits
abbrev pub floats : FloatOps
floats = record {
  add = λ x y. let z : F64 = record { bits = add64 x.bits y.bits } in z;
  sub = λ x y. let z : F64 = record { bits = x.bits - y.bits } in z;
  div = λ x y. let z : F64 = record { bits = x.bits / y.bits } in z;
  mul = λ x y. let z : F64 = record { bits = mul64 x.bits y.bits } in z;
  eq = λ x y. x.bits == y.bits;
  of_u64 = λ n. let z : F64 = record { bits = n } in z;
  to_u64 = λ x. x.bits;
}

abbrev numbers : DataPoint NumberDataPoint
numbers = number_data_point floats plain

abbrev number_at : ℕ → ℕ → NumberDataPoint
number_at t v = record {
  attributes = [];
  start_time_unix_nano = 0;
  time_unix_nano = t;
  exemplars = [];
  flags = 0;
  value = some (as_int v);
}

-- a change after a minute without points
abbrev series : TimeSeries NumberDataPoint
series = record {
  previous_point = some (number_at 100000000000 3);
  new_points = number_at 160000000000 5 ∷ number_at 170000000000 6 ∷ [];
}

take_and_inflate_data_points-Inserted_example :
    Inserted series.new_points (take_and_inflate_data_points numbers series).0
take_and_inflate_data_points-Inserted_example = take_and_inflate_data_points-Inserted numbers series

export_twice_example :
    let (first, ts') = take_and_inflate_data_points numbers series in
    let (second, ts'') =
      take_and_inflate_data_points numbers (receive ts' (number_at 230000000000 7 ∷ [])) in
    ◌≡◌ {A = List NumberDataPoint × TimeSeries NumberDataPoint}
      (first ++ second, ts'')
      (take_and_inflate_data_points numbers (receive series (number_at 230000000000 7 ∷ [])))
export_twice_example = export_twice numbers series (number_at 230000000000 7 ∷ [])

take_and_inflate_data_points-IsBridgedFrom_example :
    IsBridgedFrom numbers series.previous_point (take_and_inflate_data_points numbers series).0
take_and_inflate_data_points-IsBridgedFrom_example =
    take_and_inflate_data_points-IsBridgedFrom numbers (number_data_point-laws floats refl plain)
      series (unfold number_data_point in omega arith)
      (unfold number_data_point in (omega arith, (omega arith, tt)))

push_all_if_different-IsChangingFrom_example :
    let ts =
      push_all_if_different numbers
        (number_at 180000000000 6 ∷ number_at 190000000000 8 ∷ [])
        series in
    IsChangingFrom numbers ts.previous_point ts.new_points
push_all_if_different-IsChangingFrom_example =
    push_all_if_different-IsChangingFrom numbers series
      (number_at 180000000000 6 ∷ number_at 190000000000 8 ∷ [])
      (unfold number_data_point in (refl, (refl, tt)))

-- the second point repeats the first, the last one the exported point
abbrev incoming_points : List NumberDataPoint
incoming_points =
    number_at 180000000000 6
    ∷ number_at 190000000000 6
    ∷ number_at 200000000000 8
    ∷ number_at 210000000000 5
    ∷ []

push_all_if_different-without_repeats_example :
    points_of numbers (
      push_all_if_different numbers incoming_points
        (record { previous_point = some (number_at 170000000000 5); new_points = [] }))
    ≡ without_repeats numbers (
        points_of numbers (record {
          previous_point = some (number_at 170000000000 5);
          new_points = incoming_points;
        }))
push_all_if_different-without_repeats_example =
    push_all_if_different-without_repeats numbers (some (number_at 170000000000 5)) incoming_points

abbrev requests : Metric
requests = record {
  name = "requests";
  description = "";
  unit = "";
  body = some (sum (number_at 160000000000 5 ∷ number_at 170000000000 6 ∷ []) cumulative true);
}

abbrev report_of : EventStatus → PlatformReportData
report_of s = record {
  time = pos 1700000000000000000;
  request_id = "r";
  status = s;
  error_type = none;
  metrics = record {
    duration_ms = record { bits = 9 };
    billed_duration_ms = 10;
    memory_size_mb = 128;
    max_memory_used_mb = 100;
    init_duration_ms = some (record { bits = 4 });
    restore_duration_ms = none;
  };
  spans = [];
  tracing = none;
}

abbrev reports : List Reported
reports = (report_of success, none) ∷ (report_of timeout, none) ∷ (report_of error, none) ∷ []

update_all-counts_example :
    (s : PlatformMetricsState) × (update_all floats reports (new 5) ≡ ok s)
    × (s.metrics.executions.count ≡ 3)
    × (s.metrics.errors.count + s.metrics.ooms.count + s.metrics.timeouts.count + successes reports
        ≡ 3)
    × (s.metrics.coldstarts.count ≤ 3)
update_all-counts_example = update_all-counts floats 5 reports (omega arith)

abbrev counted : Counter
counted = record {
  descriptor = descriptor "faas.errors" "" "";
  count = 4;
  last_count = 2;
  last_report_timestamp_nanos = 100000000000;
}

counter_points-IsRateable_example :
    IsRateable number_time number_value 100000000000
      (some (as_int 2))
      (Counter.points counted 5 160000000000)
counter_points-IsRateable_example =
    counter_points-IsRateable counted 5 160000000000 (omega arith) (omega arith) (omega arith)

abbrev summed : Summary
summed = record {
  descriptor = descriptor "faas.invoke_duration" "" "ms";
  sum = record { bits = 40 };
  count = 4;
  last_sum = record { bits = 20 };
  last_count = 2;
  last_report_timestamp_nanos = 100000000000;
}

summary_points-IsRateable_example :
    IsRateable summary_time summary_value 100000000000
      (2, summed.last_sum)
      (Summary.points summed 5 160000000000)
summary_points-IsRateable_example =
    summary_points-IsRateable summed 5 160000000000 (omega arith) (omega arith) (omega arith)
