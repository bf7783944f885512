-- ===== src/OtelMetrics/Accumulator.antt =====
-- src/telemetry/otel_metrics.rs: the accumulators of one metric and of all metrics.
use coralogix_aws_lambda_tel.Prelude.{
  ℕ, String, Bool, Option, none, some, List, [], ◌∷◌, ◌++◌, str_eq,
}
use coralogix_aws_lambda_tel.Prelude.{◌==◌, if◌then◌else◌, length}
use coralogix_aws_lambda_tel.Prelude.{add64, FloatOps, modify_entry}
use coralogix_aws_lambda_tel.Proto.{
  NumberDataPoint, HistogramDataPoint, SummaryDataPoint, MetricData, gauge, sum, histogram, summary,
  exponential_histogram, Metric, cumulative,
}
use coralogix_aws_lambda_tel.OtelMetrics.TimeSeries.{
  DataPoint, TimeSeries, new_time_series, push, push_if_different, take_and_inflate_data_points,
  take_new_points,
}
use coralogix_aws_lambda_tel.OtelMetrics.DataPoints.{
  number_data_point, histogram_data_point, summary_data_point,
}
use coralogix_aws_lambda_tel.OtelMetrics.TimeSeriesId.{ValueFormat, TimeSeriesId, eq_id}

pub record MetricAccumulator (M DP : Type 0) : Type 0 where
  pub name : String
  pub description : String
  pub unit : String
  pub metadata : M
  pub time_series : List (TimeSeriesId × TimeSeries DP)

pub record GaugeMetadata : Type 0 where

pub record SumMetadata : Type 0 where
  pub aggregation_temporality : ℕ
  pub is_monotonic : Bool

pub record HistogramMetadata : Type 0 where
  pub aggregation_temporality : ℕ

pub record SummaryMetadata : Type 0 where

-- `self.time_series.iter_mut().flat_map(…)` with a step that also changes the series
unfoldable pub drain_series :
    {DP : Type 0}
    → (TimeSeries DP → List DP × TimeSeries DP)
    → List (TimeSeriesId × TimeSeries DP)
    → List DP × List (TimeSeriesId × TimeSeries DP)
drain_series step [] = ([], [])
drain_series step ((id, ts) ∷ m) =
    let (points, ts') = step ts in
    let (rest, m') = drain_series step m in (points ++ rest, (id, ts') ∷ m')

module _ {M DP : Type 0} (dp : DataPoint DP) where
  unfoldable pub accumulate_as_is : List DP → MetricAccumulator M DP → MetricAccumulator M DP
  accumulate_as_is [] ma = ma
  accumulate_as_is (p ∷ ps) ma = accumulate_as_is ps (record ma {
    time_series = modify_entry eq_id (dp.time_series_id p) new_time_series (push p) ma.time_series;
  })

  unfoldable pub accumulate_if_different : List DP → MetricAccumulator M DP → MetricAccumulator M DP
  accumulate_if_different [] ma = ma
  accumulate_if_different (p ∷ ps) ma = accumulate_if_different ps (record ma {
    time_series =
        modify_entry eq_id (dp.time_series_id p) new_time_series (push_if_different dp p)
          ma.time_series;
  })

  unfoldable pub take_as_is : MetricAccumulator M DP → List DP × MetricAccumulator M DP
  take_as_is ma =
      let (points, m) = drain_series (take_new_points dp) ma.time_series in
      (points, record ma { time_series = m })

  unfoldable pub take_inflated : MetricAccumulator M DP → List DP × MetricAccumulator M DP
  take_inflated ma =
      let (points, m) = drain_series (take_and_inflate_data_points dp) ma.time_series in
      (points, record ma { time_series = m })

abbrev new_accumulator : {M DP : Type 0} → Metric → M → MetricAccumulator M DP
new_accumulator m metadata = record {
  name = m.name;
  description = m.description;
  unit = m.unit;
  metadata = metadata;
  time_series = [];
}

abbrev GaugeAccumulator : Type 0
GaugeAccumulator = MetricAccumulator GaugeMetadata NumberDataPoint

abbrev SumAccumulator : Type 0
SumAccumulator = MetricAccumulator SumMetadata NumberDataPoint

abbrev HistogramAccumulator : Type 0
HistogramAccumulator = MetricAccumulator HistogramMetadata HistogramDataPoint

abbrev SummaryAccumulator : Type 0
SummaryAccumulator = MetricAccumulator SummaryMetadata SummaryDataPoint

pub record OtelMetricsAccumulator : Type 0 where
  pub dropped_datapoints : ℕ
  pub gauges : List (String × MetricAccumulator GaugeMetadata NumberDataPoint)
  pub sums : List (String × MetricAccumulator SumMetadata NumberDataPoint)
  pub histograms : List (String × MetricAccumulator HistogramMetadata HistogramDataPoint)
  pub summaries : List (String × MetricAccumulator SummaryMetadata SummaryDataPoint)

abbrev pub empty_accumulator : OtelMetricsAccumulator
empty_accumulator = record {
  dropped_datapoints = 0;
  gauges = [];
  sums = [];
  histograms = [];
  summaries = [];
}

module _ (fl : FloatOps) (f : ValueFormat) where
  accumulate_data : Metric → Option MetricData → OtelMetricsAccumulator → OtelMetricsAccumulator
  accumulate_data m (some (gauge points)) acc = record acc {
    gauges =
        modify_entry str_eq m.name (new_accumulator m (record {}))
          (accumulate_as_is (number_data_point fl f) points) acc.gauges;
  }
  accumulate_data m (some (sum points temporality is_monotonic)) acc = record acc {
    sums =
        modify_entry str_eq m.name
          (new_accumulator m
            (record { aggregation_temporality = temporality; is_monotonic = is_monotonic }))
          (if temporality == cumulative
            then accumulate_if_different (number_data_point fl f) points
            else accumulate_as_is (number_data_point fl f) points)
          acc.sums;
  }
  accumulate_data m (some (histogram points temporality)) acc = record acc {
    histograms =
        modify_entry str_eq m.name
          (new_accumulator m (record { aggregation_temporality = temporality }))
          (if temporality == cumulative
            then accumulate_if_different (histogram_data_point fl f) points
            else accumulate_as_is (histogram_data_point fl f) points)
          acc.histograms;
  }
  accumulate_data m (some (summary points)) acc = record acc {
    summaries =
        modify_entry str_eq m.name (new_accumulator m (record {}))
          (accumulate_if_different (summary_data_point fl f) points) acc.summaries;
  }
  accumulate_data m (some (exponential_histogram points)) acc = record acc {
    dropped_datapoints = add64 acc.dropped_datapoints (length points);
  }
  accumulate_data m none acc = acc

  unfoldable pub accumulate_metric : Metric → OtelMetricsAccumulator → OtelMetricsAccumulator
  unfolding accumulate_data
  accumulate_metric m acc = accumulate_data m m.body acc

  unfoldable pub accumulate : List Metric → OtelMetricsAccumulator → OtelMetricsAccumulator
  unfolding accumulate_metric
  accumulate [] acc = acc
  accumulate (m ∷ ms) acc = accumulate ms (accumulate_metric m acc)

  make_metric : {M DP : Type 0} → MetricAccumulator M DP → MetricData → Metric
  make_metric ma body = record {
    name = ma.name;
    description = ma.description;
    unit = ma.unit;
    body = some body;
  }

  unfoldable pub export_gauge : GaugeAccumulator → Metric × GaugeAccumulator
  unfolding make_metric
  export_gauge ma =
      let (points, ma') = take_as_is (number_data_point fl f) ma in
      (make_metric ma (gauge points), ma')

  unfoldable pub export_sum : SumAccumulator → Metric × SumAccumulator
  unfolding make_metric
  export_sum ma =
      let (points, ma') =
        if ma.metadata.aggregation_temporality == cumulative
        then take_inflated (number_data_point fl f) ma
        else take_as_is (number_data_point fl f) ma in
      (
        make_metric ma (sum points ma.metadata.aggregation_temporality ma.metadata.is_monotonic),
        ma',
      )

  unfoldable pub export_histogram : HistogramAccumulator → Metric × HistogramAccumulator
  unfolding make_metric
  export_histogram ma =
      let (points, ma') =
        if ma.metadata.aggregation_temporality == cumulative
        then take_inflated (histogram_data_point fl f) ma
        else take_as_is (histogram_data_point fl f) ma in
      (make_metric ma (histogram points ma.metadata.aggregation_temporality), ma')

  unfoldable pub export_summary : SummaryAccumulator → Metric × SummaryAccumulator
  unfolding make_metric
  export_summary ma =
      let (points, ma') = take_inflated (summary_data_point fl f) ma in
      (make_metric ma (summary points), ma')

  -- `iter_mut().map(…)` over one kind of metric
  unfoldable pub export_all :
      {A : Type 0} → (A → Metric × A) → List (String × A) → List Metric × List (String × A)
  export_all one [] = ([], [])
  export_all one ((name, ma) ∷ m) =
      let (metric, ma') = one ma in
      let (rest, m') = export_all one m in (metric ∷ rest, (name, ma') ∷ m')

  unfoldable pub export : OtelMetricsAccumulator → List Metric × OtelMetricsAccumulator
  unfolding export_all export_gauge export_sum export_histogram export_summary
  export acc =
      let (g, gauges) = export_all export_gauge acc.gauges in
      let (s, sums) = export_all export_sum acc.sums in
      let (h, histograms) = export_all export_histogram acc.histograms in
      let (u, summaries) = export_all export_summary acc.summaries in
      (
        g ++ (s ++ (h ++ u)),
        record acc { gauges = gauges; sums = sums; histograms = histograms; summaries = summaries },
      )
