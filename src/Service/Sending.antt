-- ===== src/Service/Sending.antt =====
-- src/telemetry/telemetry_service.rs: how a batch is made of the buffers. What `send_telemetry` hands
-- to the sending supervisor (src/telemetry/sending_supervisor.rs) is its result.
use coralogix_aws_lambda_tel.Prelude.{
  ◌≡◌, refl, sym, ap, ◌∙◌, Bool, true, false, not, none, List, [], ◌∷◌, ◌++◌, append_assoc,
  append-nil,
}
use coralogix_aws_lambda_tel.Prelude.{if◌then◌else◌, is_empty, keep}
use coralogix_aws_lambda_tel.Prelude.{FloatOps}
use coralogix_aws_lambda_tel.Proto.{
  Metric, Span, ScopeSpans, ResourceSpans, ScopeMetrics, ResourceMetrics, LogRecord, ScopeLogs,
  ResourceLogs,
}
use coralogix_aws_lambda_tel.Processing.State.{FunctionContext}
use coralogix_aws_lambda_tel.PlatformMetrics.Mode
use coralogix_aws_lambda_tel.OtelMetrics.Accumulator.{export}
use coralogix_aws_lambda_tel.Service.State.{
  OutputBuffers, take_function_spans, TelemetryServiceState,
}
use coralogix_aws_lambda_tel.Config.{OtelMetricsMode, PlatformMetricsMode, TelemetryProcessorConfig}
use coralogix_aws_lambda_tel.OtelMetrics.TimeSeriesId.{ValueFormat}
use coralogix_aws_lambda_tel.Senders.Pillars.{TelemetryBatch}
use coralogix_aws_lambda_tel.Service.Wrappers.{
  wrap_logs_in_scope, wrap_logs_in_resource, wrap_spans_in_scope, wrap_spans_in_resource,
  wrap_metrics_in_scope, wrap_metrics_in_resource,
}

abbrev platform_metrics_off : PlatformMetricsMode → Bool
platform_metrics_off PlatformMetricsMode.disabled = true
platform_metrics_off _ = false

-- `flat_map(|rm| rm.scope_metrics)` and the filter of the empty ones
abbrev filled_scopes : List ScopeMetrics → List ScopeMetrics
filled_scopes = keep (λ (m : ScopeMetrics). not (is_empty m.metrics))

abbrev function_scopes : List ResourceMetrics → List ScopeMetrics
function_scopes [] = []
function_scopes (rm ∷ r) = filled_scopes rm.scope_metrics ++ function_scopes r

-- a scope for the metrics, unless there are none
abbrev in_scope : List Metric → List ScopeMetrics
in_scope [] = []
in_scope (m ∷ ms) = wrap_metrics_in_scope (m ∷ ms) ∷ []

module _ (config : TelemetryProcessorConfig) where
  unfoldable pub prepare_logs : FunctionContext → OutputBuffers → List ResourceLogs × OutputBuffers
  prepare_logs c o = (
    wrap_logs_in_resource (wrap_logs_in_scope o.logs_buffer c ∷ []) c
          config.resource_attributes.logs
        ∷ [],
    record o { logs_buffer = [] },
  )

  in_resource : FunctionContext → List ScopeSpans → List ResourceSpans
  in_resource c [] = []
  in_resource c (ss ∷ r) = wrap_spans_in_resource (ss ∷ r) c config.resource_attributes.traces ∷ []

  unfoldable pub prepare_spans :
      FunctionContext → OutputBuffers → List ResourceSpans × OutputBuffers
  unfolding in_resource
  prepare_spans c o =
      let (scope_spans, o') = take_function_spans o in
      let platform_spans =
        if is_empty o'.spans_buffer then [] else wrap_spans_in_scope o'.spans_buffer c ∷ [] in
      (in_resource c (scope_spans ++ platform_spans), record o' { spans_buffer = [] })

  platform_report : Mode.PlatformMetricsState → List ScopeMetrics × Mode.PlatformMetricsState
  platform_report m =
      if platform_metrics_off config.platform_metrics_mode
      then ([], m)
      else (let (metrics, m') = Mode.make_metrics_report m in (in_scope metrics, m'))

  metrics_resource : FunctionContext → List ScopeMetrics → List ResourceMetrics
  metrics_resource c [] = []
  metrics_resource c (m ∷ r) =
      wrap_metrics_in_resource (m ∷ r) c config.resource_attributes.metrics ∷ []

  module _ (fl : FloatOps) (f : ValueFormat) where
    function_report :
        OtelMetricsMode → TelemetryServiceState → List ScopeMetrics × TelemetryServiceState
    function_report OtelMetricsMode.disabled s = ([], s)
    function_report OtelMetricsMode.direct s =
        let o = s.output_buffers in
        (
          function_scopes o.function_metrics_buffer,
          record s { output_buffers = record o { function_metrics_buffer = [] } },
        )
    function_report OtelMetricsMode.processed s =
        let (metrics, acc) = export fl f s.metrics_accumulator in
        (in_scope metrics, record s { metrics_accumulator = acc })

    unfoldable pub prepare_metrics :
        FunctionContext → TelemetryServiceState → List ResourceMetrics × TelemetryServiceState
    unfolding platform_report metrics_resource function_report
    prepare_metrics c s =
        let (platform, m) = platform_report s.metrics_state in
        let (own, s') = function_report config.otel_metrics_mode (record s { metrics_state = m }) in
        (metrics_resource c (platform ++ own), s')

    unfoldable pub prepare_telemetry_batch :
        FunctionContext → TelemetryServiceState → TelemetryBatch × TelemetryServiceState
    unfolding prepare_logs prepare_spans prepare_metrics
    prepare_telemetry_batch c s =
        let (logs, o1) = prepare_logs c s.output_buffers in
        let (spans, o2) = prepare_spans c o1 in
        let (metrics, s') = prepare_metrics c (record s { output_buffers = o2 }) in
        let o3 = s'.output_buffers in
        (
          record {
            logs = logs;
            spans = spans;
            metrics = metrics;
            epsagon_traces = o3.epsagon_traces_buffer;
          },
          record s' { output_buffers = record o3 { epsagon_traces_buffer = [] } },
        )

    unfoldable pub send_telemetry :
        FunctionContext → TelemetryServiceState → TelemetryBatch × TelemetryServiceState
    unfolding prepare_telemetry_batch
    send_telemetry c s =
        prepare_telemetry_batch c (record s { should_send = false; should_send_by = none })

-- all the records and all the spans of a batch
abbrev pub records_in : List ResourceLogs → List LogRecord
records_in [] = []
records_in (r ∷ rs) = go r.scope_logs ++ records_in rs
  where
    go : List ScopeLogs → List LogRecord
    go [] = []
    go (s ∷ ss) = s.log_records ++ go ss

abbrev pub scoped_spans : List ScopeSpans → List Span
scoped_spans [] = []
scoped_spans (s ∷ ss) = s.spans ++ scoped_spans ss

abbrev pub spans_in : List ResourceSpans → List Span
spans_in [] = []
spans_in (r ∷ rs) = scoped_spans r.scope_spans ++ spans_in rs

pub scoped_spans-append :
    (xs ys : List ScopeSpans) → scoped_spans (xs ++ ys) ≡ scoped_spans xs ++ scoped_spans ys
scoped_spans-append [] ys = refl
scoped_spans-append (x ∷ xs) ys =
    ap (λ (l : List Span). x.spans ++ l) (scoped_spans-append xs ys)
    ∙ sym (append_assoc x.spans (scoped_spans xs) (scoped_spans ys))

spans_in-in_resource :
    (config : TelemetryProcessorConfig) (c : FunctionContext) (ss : List ScopeSpans)
    → spans_in (in_resource config c ss) ≡ scoped_spans ss
unfolding in_resource wrap_spans_in_resource
spans_in-in_resource config c [] = refl
spans_in-in_resource config c (s ∷ ss) = append-nil (s.spans ++ scoped_spans ss)

-- the spans of the platform, in a scope unless there are none
scoped_spans-platform :
    (c : FunctionContext) (ps : List Span)
    → scoped_spans (if is_empty ps then [] else wrap_spans_in_scope ps c ∷ []) ≡ ps
unfolding wrap_spans_in_scope
scoped_spans-platform c [] = refl
scoped_spans-platform c (p ∷ ps) = append-nil (p ∷ ps)

abbrev pub IsFlushed : OutputBuffers → Type 0
IsFlushed o =
    (o.logs_buffer ≡ [])
    × (o.spans_buffer ≡ [])
    × (o.function_spans_buffer ≡ [])
    × (o.function_spans_count ≡ 0)
    × (o.epsagon_traces_buffer ≡ [])

module _ (config : TelemetryProcessorConfig) (fl : FloatOps) (f : ValueFormat) where
  function_report-init :
      (mode : OtelMetricsMode) (s : TelemetryServiceState)
      → let s' = (function_report config fl f mode s).1 in
        (s'.init_handled ≡ s.init_handled)
        × (s'.init_handling_started ≡ s.init_handling_started)
        × (s'.half_processed_event_buffer ≡ s.half_processed_event_buffer)
  unfolding function_report
  function_report-init OtelMetricsMode.disabled s = (refl, refl, refl)
  function_report-init OtelMetricsMode.direct s = (refl, refl, refl)
  function_report-init OtelMetricsMode.processed s = (refl, refl, refl)

  -- Sending leaves the handling of the initialisation alone.
  pub send_telemetry-init :
      (c : FunctionContext) (s : TelemetryServiceState)
      → let s' = (send_telemetry config fl f c s).1 in
        (s'.init_handled ≡ s.init_handled)
        × (s'.init_handling_started ≡ s.init_handling_started)
        × (s'.half_processed_event_buffer ≡ s.half_processed_event_buffer)
  unfolding send_telemetry prepare_telemetry_batch prepare_metrics
  send_telemetry-init c s = function_report-init config.otel_metrics_mode _

  -- What the report of the function's metrics leaves alone.
  record IsSpared (s s' : TelemetryServiceState) : Type 0 where
    logs : s'.output_buffers.logs_buffer ≡ s.output_buffers.logs_buffer
    spans : s'.output_buffers.spans_buffer ≡ s.output_buffers.spans_buffer
    scopes : s'.output_buffers.function_spans_buffer ≡ s.output_buffers.function_spans_buffer
    count : s'.output_buffers.function_spans_count ≡ s.output_buffers.function_spans_count
    traces : s'.output_buffers.epsagon_traces_buffer ≡ s.output_buffers.epsagon_traces_buffer
    due : s'.should_send ≡ s.should_send
    due_by : s'.should_send_by ≡ s.should_send_by

  function_report-IsSpared :
      (mode : OtelMetricsMode) (s : TelemetryServiceState)
      → IsSpared s (function_report config fl f mode s).1
  unfolding function_report
  function_report-IsSpared OtelMetricsMode.disabled s = record {
    logs = refl;
    spans = refl;
    scopes = refl;
    count = refl;
    traces = refl;
    due = refl;
    due_by = refl;
  }
  function_report-IsSpared OtelMetricsMode.direct s = record {
    logs = refl;
    spans = refl;
    scopes = refl;
    count = refl;
    traces = refl;
    due = refl;
    due_by = refl;
  }
  function_report-IsSpared OtelMetricsMode.processed s = record {
    logs = refl;
    spans = refl;
    scopes = refl;
    count = refl;
    traces = refl;
    due = refl;
    due_by = refl;
  }

  -- A batch holds every buffered log, every buffered span (the function's before the platform's) and every
  -- epsagon trace, once and in their order; afterwards these buffers are empty, and no sending is due.
  pub send_telemetry-flushes :
      (c : FunctionContext) (s : TelemetryServiceState)
      → let (batch, s') = send_telemetry config fl f c s in
        let o = s.output_buffers in
        (records_in batch.logs ≡ o.logs_buffer)
        × (spans_in batch.spans ≡ scoped_spans o.function_spans_buffer ++ o.spans_buffer)
        × (batch.epsagon_traces ≡ o.epsagon_traces_buffer)
        × IsFlushed s'.output_buffers
        × (s'.should_send ≡ false)
        × (s'.should_send_by ≡ none)
  unfolding send_telemetry prepare_telemetry_batch prepare_logs prepare_spans prepare_metrics
      take_function_spans wrap_logs_in_scope wrap_logs_in_resource
  send_telemetry-flushes c s =
      let o = s.output_buffers in
      let emptied : TelemetryServiceState = record s {
        should_send = false;
        should_send_by = none;
        metrics_state = (platform_report config s.metrics_state).1;
        output_buffers = record o {
          logs_buffer = [];
          spans_buffer = [];
          function_spans_count = 0;
          function_spans_buffer = [];
        };
      } in
      let k = function_report-IsSpared config.otel_metrics_mode emptied in
      let platform =
        if is_empty o.spans_buffer then [] else wrap_spans_in_scope o.spans_buffer c ∷ [] in
      (
        append-nil (o.logs_buffer ++ []) ∙ append-nil o.logs_buffer,
        spans_in-in_resource config c (o.function_spans_buffer ++ platform)
            ∙ scoped_spans-append o.function_spans_buffer platform
            ∙ ap (λ (l : List Span). scoped_spans o.function_spans_buffer ++ l)
                (scoped_spans-platform c o.spans_buffer),
        k.traces,
        (k.logs, k.spans, k.scopes, k.count, refl),
        k.due,
        k.due_by,
      )
