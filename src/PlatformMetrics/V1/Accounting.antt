-- ===== src/PlatformMetrics/V1/Accounting.antt =====
-- src/telemetry/processor/platform_metrics/v1.rs: the counters add up.
use coralogix_aws_lambda_tel.Prelude.{
  ℕ, ◌+◌, ◌≤◌, ◌<◌, ◌≡◌, refl, ap, ◌∙◌, Bool, Option, some, List, [], ◌∷◌, arith,
}
use coralogix_aws_lambda_tel.Prelude.{if◌then◌else◌, length, and_then}
use coralogix_aws_lambda_tel.Prelude.{u64_mod, FloatOps}
use coralogix_aws_lambda_tel.Events.{
  EventStatus, is_success, RuntimeDoneMetrics, ReportMetrics, PlatformRuntimeDoneData,
  PlatformReportData, Result, ok, ◌>>=◌, is_out_of_memory,
}
use coralogix_aws_lambda_tel.PlatformMetrics.Counter
use coralogix_aws_lambda_tel.PlatformMetrics.Counter.{Counter}
use coralogix_aws_lambda_tel.PlatformMetrics.V1.{
  PlatformMetrics, PlatformMetricsState, default, new, update_with, update_coldstarts_metric,
  update_executions_and_status_metrics, update_duration_metrics, update_result_size_metric,
  update_memory_metrics, update_metrics_after_report,
}

-- a report, and what is known of the runtime's end
abbrev pub Reported : Type 0
Reported = PlatformReportData × Option PlatformRuntimeDoneData

-- the metrics after the reports of several invocations
abbrev pub update_all :
    FloatOps → List Reported → PlatformMetricsState → Result PlatformMetricsState
update_all fl [] state = ok state
update_all fl ((report, runtime_done) ∷ rs) state =
    update_metrics_after_report fl (some report) runtime_done state >>= update_all fl rs

abbrev pub successes : List Reported → ℕ
successes [] = 0
successes ((report, runtime_done) ∷ rs) = (if is_success report.status then 1 else 0) + successes rs

abbrev failures : PlatformMetrics → ℕ
failures m = m.errors.count + m.ooms.count + m.timeouts.count

-- What `seen` reports with `won` successes among them have left in the counters.
record IsAccounted (m : PlatformMetrics) (seen won : ℕ) : Type 0 where
  executions_seen : m.executions.count ≡ seen
  statuses_seen : failures m + won ≡ seen
  coldstarts_seen : m.coldstarts.count ≤ seen

module _ (fl : FloatOps) where
  coldstarts-IsAccounted :
      (r : ReportMetrics) (m : PlatformMetrics)
      → let m' = update_coldstarts_metric fl r m in
        (m'.executions ≡ m.executions)
        × (failures m' ≡ failures m)
        × (m.coldstarts.count + 1 < u64_mod → m'.coldstarts.count ≤ m.coldstarts.count + 1)
  unfolding update_coldstarts_metric Counter.add
  coldstarts-IsAccounted r m = ground arith

  status-IsAccounted :
      (status : EventStatus) (oom : Bool) (m : PlatformMetrics) (n : ℕ)
      → m.executions.count ≡ n
      → failures m ≤ n
      → n + 1 < u64_mod
      → let m' = update_executions_and_status_metrics fl status oom m in
        (m'.executions.count ≡ n + 1)
        × (failures m' + (if is_success status then 1 else 0) ≡ failures m + 1)
        × (m'.coldstarts ≡ m.coldstarts)
  unfolding update_executions_and_status_metrics Counter.add
  status-IsAccounted status oom m n e f b = ground arith

  update_with-IsAccounted :
      (report : PlatformReportData) (runtime : Option RuntimeDoneMetrics)
      (state : PlatformMetricsState) (seen won : ℕ)
      → IsAccounted state.metrics seen won
      → seen + 1 < u64_mod
      → IsAccounted
          (update_with fl report runtime state).metrics
          (seen + 1)
          ((if is_success report.status then 1 else 0) + won)
  unfolding update_with update_duration_metrics update_result_size_metric update_memory_metrics
  update_with-IsAccounted report runtime state seen won h b =
      let m1 : PlatformMetrics = update_coldstarts_metric fl report.metrics state.metrics in
      let oom : Bool = is_out_of_memory report in
      let (e1, f1, c1) = coldstarts-IsAccounted report.metrics state.metrics in
      let (e2, f2, c2) =
        status-IsAccounted report.status oom m1 seen
          (ap (λ (c : Counter). c.count) e1 ∙ h.executions_seen)
          (omega (arith, f1, h.statuses_seen)) b in
      record {
        executions_seen = e2;
        statuses_seen = omega (arith, f2, f1, h.statuses_seen);
        coldstarts_seen =
            let c2' : (update_executions_and_status_metrics fl report.status oom
                  m1).coldstarts.count
                ≡ m1.coldstarts.count =
              ap (λ (c : Counter). c.count) c2 in
            omega (arith, c2', c1 (omega (arith, h.coldstarts_seen)), h.coldstarts_seen);
      }

  update_all-IsAccounted :
      (rs : List Reported) (state : PlatformMetricsState) (seen won : ℕ)
      → IsAccounted state.metrics seen won
      → seen + length rs < u64_mod
      → (s : PlatformMetricsState) × (update_all fl rs state ≡ ok s)
        × IsAccounted s.metrics (seen + length rs) (successes rs + won)
  unfolding update_metrics_after_report
  update_all-IsAccounted [] state seen won h b =
      (state, refl, omega (arith, h.executions_seen, h.statuses_seen, h.coldstarts_seen))
  update_all-IsAccounted ((report, runtime_done) ∷ rs) state seen won h b =
      let runtime : Option RuntimeDoneMetrics =
        and_then runtime_done (λ (d : PlatformRuntimeDoneData). d.metrics) in
      let (s, e, k) =
        update_all-IsAccounted rs (update_with fl report runtime state) (seen + 1) _
          (update_with-IsAccounted report runtime state seen won h (omega arith)) (omega arith) in
      (s, e, omega (arith, k.executions_seen, k.statuses_seen, k.coldstarts_seen))

  -- From a fresh state, and for fewer than 2 ^ 64 reports, no update panics; every report is counted as one
  -- execution, every report but the successful ones as one error, one out-of-memory error or one
  -- timeout, and there are at most as many cold starts as reports.
  pub update_all-counts :
      (now : ℕ) (rs : List Reported)
      → length rs < u64_mod
      → (s : PlatformMetricsState) × (update_all fl rs (new now) ≡ ok s)
        × (s.metrics.executions.count ≡ length rs)
        × (s.metrics.errors.count + s.metrics.ooms.count + s.metrics.timeouts.count + successes rs
            ≡ length rs)
        × (s.metrics.coldstarts.count ≤ length rs)
  unfolding new default Counter.new
  update_all-counts now rs b =
      let (s, e, k) =
        update_all-IsAccounted rs (new now) 0 0
          (record {
            executions_seen = refl;
            statuses_seen = omega arith;
            coldstarts_seen = omega arith;
          })
          (omega arith) in
      (
        s,
        e,
        omega (arith, k.executions_seen),
        omega (arith, k.statuses_seen),
        omega (arith, k.coldstarts_seen),
      )
