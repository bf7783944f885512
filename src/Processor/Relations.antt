-- ===== src/Processor/Relations.antt =====
-- src/telemetry/processor/telemetry_processor.rs: what holds between the states before and after any events
-- of an invocation, whether one of them fails or not.
use coralogix_aws_lambda_tel.Prelude.{
  String, ◌≡◌, refl, inl, inr, false, not, ◌&&◌, Option, none, some, List, [], ◌∷◌, ◌++◌,
}
use coralogix_aws_lambda_tel.Prelude.{Bool-cases}
use coralogix_aws_lambda_tel.Prelude.{ℤ}
use coralogix_aws_lambda_tel.Proto.{Bytes, LogRecord}
use coralogix_aws_lambda_tel.Events.{
  PlatformStartData, PlatformRuntimeDoneData, PlatformReportData, LambdaTelemetryRecord, function,
  extension, platform_init_start, platform_init_runtime_done, platform_init_report, platform_start,
  platform_runtime_done, platform_report, platform_extension, platform_telemetry_subscription,
  platform_logs_dropped, LambdaTelemetry, Result, ok, err, millis_to_nanos, event_timestamp,
}
use coralogix_aws_lambda_tel.Config.{is_structured, TelemetryProcessorConfig}
use coralogix_aws_lambda_tel.Logs.Metadata.{of_invocation}
use coralogix_aws_lambda_tel.Logs.Records.{
  make_function_log, make_platform_start_log, make_platform_runtime_done_log,
  make_platform_report_log,
}
use coralogix_aws_lambda_tel.Processing.State.{InvocationProcessingState, RawFunctionLog}
use coralogix_aws_lambda_tel.Processor.Steps.{
  ProcessorTools, Work, Outcome, ◌>>>◌, with_state, with_output, push_log, timed,
  push_epsagon_trace, update_init_report_metrics, update_runtime_done_metrics,
  update_report_metrics, update_metrics_after_report, emit_function_log, emit_start_log,
  emit_runtime_done_log, emit_report_log, detected, on_function,
}
use coralogix_aws_lambda_tel.Processor.Telemetry.{
  emits_start_logs, emit_function_logs, emit_taken_logs, emit_known_start, process_delayed_logs,
  conclude_delay, delay_or_emit, on_start, emit_invocation_spans, conclude_runtime, on_runtime_done,
  emit_report_spans, conclude_report, on_report, on_init_start, on_init_report, handle_record,
  process_telemetry,
}
use coralogix_aws_lambda_tel.Processor.Outcomes.{Leaves, Leaves-then, if_branches}
use coralogix_aws_lambda_tel.Processor.Epsagon.{
  EpsagonTraceDetectionResult, regular_log, epsagon_trace_json, detect_epsagon_trace,
}

abbrev State : Type 0
State = InvocationProcessingState

-- The events of an invocation, one after another, up to the first that fails; with each comes the
-- random id that is drawn for the span of an initialisation.
unfoldable pub process_all :
    ProcessorTools
    → TelemetryProcessorConfig
    → List (Bytes × LambdaTelemetry)
    → Work InvocationProcessingState
    → Outcome InvocationProcessingState
process_all tools config [] w = (none, w)
process_all tools config ((drawn, e) ∷ r) w =
    process_telemetry tools config drawn e w >>> λ (w : Work InvocationProcessingState).
    process_all tools config r w

-- what determines the trace
pub record IsSameTrace (s s' : State) : Type 0 where
  pub root : s'.root_span_id ≡ s.root_span_id
  pub context : s'.invocation_context ≡ s.invocation_context
  pub tracing : s'.tracing_state ≡ s.tracing_state

-- What a relation has to satisfy: it holds over a change of other things than the buffers and the
-- trace, over a log or a trace of Epsagon, and over the spans of the two places that emit them.
pub record RelationLaws (tools : ProcessorTools) (config : TelemetryProcessorConfig)
    (R : Work State → Work State → Type 0) : Type 0 where
  pub trans : {w v u : Work State} → R w v → R v u → R w u
  pub quiet :
      (w w' : Work State)
      → w'.output_buffers ≡ w.output_buffers
      → IsSameTrace w.state w'.state
      → R w w'
  pub logged :
      (w : Work State) (log : LogRecord)
      → R w (
          with_output
            (record w.output_buffers { logs_buffer = w.output_buffers.logs_buffer ++ log ∷ [] })
            w)
  pub epsagon : (w : Work State) (trace : String) → R w (push_epsagon_trace trace w)
  pub at_runtime_done :
      (w : Work State)
      → R w (with_output (emit_invocation_spans tools config w.state w.output_buffers) w)
  pub at_report :
      (w : Work State)
      → R w (with_output (emit_report_spans tools config w.state w.output_buffers) w)

module _ {tools : ProcessorTools} {config : TelemetryProcessorConfig}
    {R : Work State → Work State → Type 0} (laws : RelationLaws tools config R) where
  abbrev Follows : Work State → Outcome State → Type 0
  Follows w o = Leaves (R w) o

  quiet :
      (w w' : Work State)
      → w'.output_buffers ≡ w.output_buffers
      → w'.state.root_span_id ≡ w.state.root_span_id
      → w'.state.invocation_context ≡ w.state.invocation_context
      → w'.state.tracing_state ≡ w.state.tracing_state
      → R w w'
  quiet w w' e a b c = laws.quiet w w' e (record { root = a; context = b; tracing = c })

  Follows-then :
      {w : Work State} {o : Outcome State} {f : Work State → Outcome State}
      → Follows w o
      → ((v : Work State) → Follows v (f v))
      → Follows w (o >>> f)
  Follows-then h k = Leaves-then h (λ v p. p) (λ v p. record { known = laws.trans p (k v).known })

  push_log-Follows :
      (r : Result LogRecord) (s : State) (w : Work State)
      → IsSameTrace w.state s
      → Follows w (push_log (r, s) w)
  unfolding push_log
  push_log-Follows (ok log) s w h = record {
    known = laws.trans (laws.quiet w (with_state s w) refl h) (laws.logged _ log);
  }
  push_log-Follows (err e) s w h = record { known = laws.quiet w _ refl h }

  emit_function_log-Follows :
      (log : RawFunctionLog) (w : Work State)
      → Follows w (emit_function_log tools config of_invocation log w)
  unfolding emit_function_log make_function_log
  emit_function_log-Follows log w =
      push_log-Follows _ _ w (record { root = refl; context = refl; tracing = refl })

  emit_start_log-Follows :
      (d : PlatformStartData) (w : Work State)
      → Follows w (emit_start_log tools config of_invocation d w)
  unfolding emit_start_log make_platform_start_log
  emit_start_log-Follows d w =
      push_log-Follows _ _ w (record { root = refl; context = refl; tracing = refl })

  unchanged : (w : Work State) → Follows w (none, w)
  unchanged w = record { known = quiet w w refl refl refl refl }

  emit_runtime_done_log-Follows :
      (d : PlatformRuntimeDoneData) (a b : Option String) (w : Work State)
      → Follows w (emit_runtime_done_log tools config of_invocation d a b w)
  unfolding emit_runtime_done_log make_platform_runtime_done_log
  emit_runtime_done_log-Follows d a b w =
      if_branches (Follows w)
        (is_structured config.log_mode && config.platform_log_set.runtime_done)
        (push_log-Follows _ _ w (record { root = refl; context = refl; tracing = refl }))
        (unchanged w)

  emit_report_log-Follows :
      (d : PlatformReportData) (w : Work State)
      → Follows w (emit_report_log tools config of_invocation d w)
  unfolding emit_report_log make_platform_report_log
  emit_report_log-Follows d w =
      if_branches (Follows w) (is_structured config.log_mode && config.platform_log_set.report)
        (push_log-Follows _ _ w (record { root = refl; context = refl; tracing = refl }))
        (unchanged w)

  emit_function_logs-Follows :
      (logs : List RawFunctionLog) (w : Work State)
      → Follows w (emit_function_logs tools config logs w)
  unfolding emit_function_logs
  emit_function_logs-Follows [] w = unchanged w
  emit_function_logs-Follows (log ∷ r) w =
      Follows-then (emit_function_log-Follows log w) (λ v. emit_function_logs-Follows r v)

  -- a change that does not concern spans, and then what follows
  after_change : {w v : Work State} {o : Outcome State} → R w v → Follows v o → Follows w o
  after_change h k = record { known = laws.trans h k.known }

  emit_taken_logs-Follows : (w : Work State) → Follows w (emit_taken_logs tools config w)
  unfolding emit_taken_logs
  emit_taken_logs-Follows w =
      after_change (quiet w (with_state (record w.state { logs = [] }) w) refl refl refl refl)
        (emit_function_logs-Follows _ _)

  emit_known_start-Follows :
      (o : Option PlatformStartData) (w : Work State)
      → Follows w (emit_known_start tools config o w)
  unfolding emit_known_start
  emit_known_start-Follows none w = unchanged w
  emit_known_start-Follows (some d) w =
      if_branches (Follows w) config.platform_log_set.start (emit_start_log-Follows d w)
        (unchanged w)

  pub conclude_delay-Follows : (w : Work State) → Follows w (conclude_delay tools config w)
  unfolding conclude_delay process_delayed_logs
  conclude_delay-Follows w =
      let v : Work State = with_state (record w.state { delaying_logs = false }) w in
      after_change (quiet w v refl refl refl refl) (
        Follows-then (emit_known_start-Follows v.state.start_data v)
          (λ u. emit_taken_logs-Follows u))

  delay_or_emit-Follows :
      (log : RawFunctionLog) (w : Work State) → Follows w (delay_or_emit tools config log w)
  unfolding delay_or_emit
  delay_or_emit-Follows log w =
      if_branches (Follows w) w.state.delaying_logs
        (record { known = quiet w _ refl refl refl refl }) (emit_function_log-Follows log w)

  detected-Follows :
      (time : ℤ) (r : EpsagonTraceDetectionResult) (w : Work State)
      → Follows w (detected tools config of_invocation (delay_or_emit tools config) time r w)
  unfolding detected push_epsagon_trace
  detected-Follows time (epsagon_trace_json t) w = record { known = laws.epsagon w t }
  detected-Follows time (regular_log t) w = delay_or_emit-Follows _ w

  on_function-Follows :
      (time : ℤ) (text : String) (w : Work State)
      → Follows w (on_function tools config of_invocation (delay_or_emit tools config) time text w)
  unfolding on_function
  on_function-Follows time text w =
      if_branches (Follows w) (is_structured config.log_mode)
        (detected-Follows time (detect_epsagon_trace tools.epsagon text) w) (unchanged w)

  on_start-Follows :
      (d : PlatformStartData) (w : Work State) → Follows w (on_start tools config d w)
  unfolding on_start
  on_start-Follows d w =
      Follows-then
        (if_branches (Follows w) (emits_start_logs tools config && not w.state.delaying_logs)
          (emit_start_log-Follows d w) (unchanged w))
        (λ v. record { known = quiet v _ refl refl refl refl })

  on_runtime_done-Follows :
      (d : PlatformRuntimeDoneData) (w : Work State) → Follows w (on_runtime_done tools config d w)
  unfolding on_runtime_done conclude_runtime update_runtime_done_metrics
  on_runtime_done-Follows d w =
      Follows-then
        (Follows-then
          (if_branches (Follows w) (is_structured config.log_mode && w.state.delaying_logs)
            (conclude_delay-Follows w) (unchanged w))
          (λ v. emit_runtime_done_log-Follows d _ _ v))
        (λ v.
          let u : Work State =
            with_state (record v.state { runtime_done_data = some d })
              (update_runtime_done_metrics tools.fl d v) in
          record { known = laws.trans (quiet v u refl refl refl refl) (laws.at_runtime_done u) })

  on_report-Follows :
      (d : PlatformReportData) (w : Work State) → Follows w (on_report tools config d w)
  unfolding on_report conclude_report update_report_metrics update_metrics_after_report
  on_report-Follows d w =
      Follows-then
        (Follows-then
          (if_branches (Follows w) (is_structured config.log_mode) (emit_taken_logs-Follows w)
            (unchanged w))
          (λ v. emit_report_log-Follows d v))
        (λ v.
          let u : Work State =
            with_state (record v.state { report_data = some d })
              (update_report_metrics tools.fl d v) in
          let t : Work State =
            with_output (emit_report_spans tools config u.state u.output_buffers) u in
          record {
            known =
                laws.trans (quiet v u refl refl refl refl)
                  (laws.trans (laws.at_report u) (quiet t _ refl refl refl refl));
          })

  handle_record-Follows :
      (drawn : Bytes) (time : ℤ) (r : LambdaTelemetryRecord) (w : Work State)
      → Follows w (handle_record tools config drawn time r w)
  unfolding handle_record on_init_start on_init_report update_init_report_metrics
  handle_record-Follows drawn time (function text) w = on_function-Follows time text w
  handle_record-Follows drawn time (extension text) w = unchanged w
  handle_record-Follows drawn time (platform_init_start _ _ _ _) w = record {
    known = quiet w _ refl refl refl refl;
  }
  handle_record-Follows drawn time (platform_init_runtime_done _ _ _ _ _) w = record {
    known = quiet w _ refl refl refl refl;
  }
  handle_record-Follows drawn time (platform_init_report _ _ _ _) w = record {
    known = quiet w _ refl refl refl refl;
  }
  handle_record-Follows drawn time (platform_start _ _ _) w = on_start-Follows _ w
  handle_record-Follows drawn time (platform_runtime_done _ _ _ _ _ _) w =
      on_runtime_done-Follows _ w
  handle_record-Follows drawn time (platform_report _ _ _ _ _ _) w = on_report-Follows _ w
  handle_record-Follows drawn time platform_extension w = unchanged w
  handle_record-Follows drawn time platform_telemetry_subscription w = unchanged w
  handle_record-Follows drawn time platform_logs_dropped w = unchanged w

  pub process_telemetry-Follows :
      (drawn : Bytes) (e : LambdaTelemetry) (w : Work State)
      → Follows w (process_telemetry tools config drawn e w)
  unfolding process_telemetry timed event_timestamp
  process_telemetry-Follows drawn e w =
      elim (Bool-cases (tools.in_range (millis_to_nanos e.time_millis))) [
        | inl inside ↦ rw inside (handle_record-Follows drawn _ e.event w)
        | inr outside ↦ rw outside (record { known = quiet w w refl refl refl refl })
      ]

  pub process_all-Follows :
      (events : List (Bytes × LambdaTelemetry)) (w : Work State)
      → Leaves (R w) (process_all tools config events w)
  unfolding process_all
  process_all-Follows [] w = unchanged w
  process_all-Follows ((drawn, e) ∷ r) w =
      Follows-then (process_telemetry-Follows drawn e w) (λ v. process_all-Follows r v)
