-- ===== src/PlatformMetrics/Reporting.antt =====
-- src/telemetry/processor/platform_metrics/instruments.rs: what a counter and a summary report.
use coralogix_aws_lambda_tel.Prelude.{
  ℕ, ◌+◌, ◌≤◌, ◌<◌, ◌≡◌, refl, ◌⊎◌, inl, inr, true, Option, some, List, [], ◌∷◌, arith,
}
use coralogix_aws_lambda_tel.Prelude.{Bool-cases}
use coralogix_aws_lambda_tel.Prelude.{u64_mod, F64}
use coralogix_aws_lambda_tel.Proto.{NumberValue, as_int, NumberDataPoint, SummaryDataPoint}
use coralogix_aws_lambda_tel.PlatformMetrics.Counter
use coralogix_aws_lambda_tel.PlatformMetrics.Counter.{Counter}
use coralogix_aws_lambda_tel.PlatformMetrics.Summary
use coralogix_aws_lambda_tel.PlatformMetrics.Summary.{Summary}
use coralogix_aws_lambda_tel.PlatformMetrics.Instruments.{is_late, injected_timestamp}
use coralogix_aws_lambda_tel.OtelMetrics.TimeSeries.{max_time_between_data_nanos}

-- The points after a report at time `last` of the value `old`: the times grow, and where more than
-- `max_time_between_data_nanos` lies between two points the value is the same.
module _ {DP V : Type 0} (time : DP → ℕ) (value : DP → V) where
  abbrev pub IsRateable : ℕ → V → List DP → Type 0
  IsRateable last old [] = Unit
  IsRateable last old (p ∷ ps) =
      (last < time p)
      × ((time p ≤ last + max_time_between_data_nanos) ⊎ (value p ≡ old))
      × IsRateable (time p) (value p) ps

abbrev pub number_time : NumberDataPoint → ℕ
number_time p = p.time_unix_nano

abbrev pub number_value : NumberDataPoint → Option NumberValue
number_value p = p.value

abbrev pub summary_time : SummaryDataPoint → ℕ
summary_time p = p.time_unix_nano

abbrev pub summary_value : SummaryDataPoint → ℕ × F64
summary_value p = (p.count, p.sum)

injected_timestamp-lt :
    (last t : ℕ)
    → is_late last t ≡ true
    → last + max_time_between_data_nanos < u64_mod
    → t < u64_mod
    → (last < injected_timestamp t)
      × (injected_timestamp t < t)
      × (t ≤ injected_timestamp t + max_time_between_data_nanos)
injected_timestamp-lt last t h b c = ground arith

-- At a later time than the last report, the reported points of a counter let a rate be computed: no
-- subtraction wraps, and every change of the value lies in a gap that is short enough.
pub counter_points-IsRateable :
    (c : Counter) (start t : ℕ)
    → c.last_report_timestamp_nanos + max_time_between_data_nanos < u64_mod
    → t < u64_mod
    → c.last_report_timestamp_nanos < t
    → IsRateable number_time number_value c.last_report_timestamp_nanos
        (some (as_int c.last_count))
        (Counter.points c start t)
unfolding Counter.points
counter_points-IsRateable c start t b k h =
    elim (Bool-cases (is_late c.last_report_timestamp_nanos t)) [
      | inl late ↦
          let (l, m, n) = injected_timestamp-lt c.last_report_timestamp_nanos t late b k in
          rw late ((l, inr refl, (m, inl n, tt)))
      | inr soon ↦ rw soon (h, inl (ground arith), tt)
    ]

-- The same of a summary.
pub summary_points-IsRateable :
    (s : Summary) (start t : ℕ)
    → s.last_report_timestamp_nanos + max_time_between_data_nanos < u64_mod
    → t < u64_mod
    → s.last_report_timestamp_nanos < t
    → IsRateable summary_time summary_value s.last_report_timestamp_nanos
        (s.last_count, s.last_sum)
        (Summary.points s start t)
unfolding Summary.points
summary_points-IsRateable s start t b k h =
    elim (Bool-cases (is_late s.last_report_timestamp_nanos t)) [
      | inl late ↦
          let (l, m, n) = injected_timestamp-lt s.last_report_timestamp_nanos t late b k in
          rw late ((l, inr refl, (m, inl n, tt)))
      | inr soon ↦ rw soon (h, inl (ground arith), tt)
    ]
