-- ===== src/Service/Signals.antt =====
-- src/telemetry/telemetry_service.rs: what makes the service send, and the handlers of incoming
-- telemetry. The readings of the clocks are arguments.
use coralogix_aws_lambda_tel.Prelude.{
  ℕ, ◌+◌, ◌-◌, Bool, true, false, not, Option, none, some, List, [], ◌∷◌, ◌++◌,
}
use coralogix_aws_lambda_tel.Prelude.{leb, ◌==◌, if◌then◌else◌, is_some}
use coralogix_aws_lambda_tel.Proto.{ResourceSpans, ResourceMetrics}
use coralogix_aws_lambda_tel.Events.{LambdaTelemetry, Error, Result, ok, err}
use coralogix_aws_lambda_tel.Processing.State.{
  FunctionContext, InvokeEventDataWithSpans, InvocationProcessingState,
}
use coralogix_aws_lambda_tel.Service.State.{
  should_send_signal, invocation_done_signal, TelemetryServiceState, Setting,
}
use coralogix_aws_lambda_tel.Service.Queue.{process_in_degraded_mode, process_telemetry_events}
use coralogix_aws_lambda_tel.Config.{
  TelemetryReportingStrategy, low_overhead, send_after_invocation, send_after_delay,
}

unfoldable pub signal_should_send : TelemetryServiceState → TelemetryServiceState
signal_should_send s = record s {
  should_send = true;
  signals = s.signals ++ should_send_signal ∷ [];
}

unfoldable pub signal_invocation_done : TelemetryServiceState → TelemetryServiceState
signal_invocation_done s = record s { signals = s.signals ++ invocation_done_signal ∷ [] }

unfoldable pub is_due : ℕ → Option ℕ → Bool
is_due now none = false
is_due now (some by) = leb by now

unfoldable pub should_send_by_now : ℕ → TelemetryServiceState → Bool
unfolding is_due
should_send_by_now now s = is_due now s.should_send_by

-- `is_none_or(|x| time <= x)`
unfoldable pub is_earlier : ℕ → Option ℕ → Bool
is_earlier time none = true
is_earlier time (some by) = leb time by

-- `now` is the time of the second reading of the clock; where there is time to sleep, a task is spawned
unfoldable pub signal_should_send_by : ℕ → ℕ → TelemetryServiceState → TelemetryServiceState
unfolding signal_should_send is_earlier
signal_should_send_by now time s =
    if not (is_earlier time s.should_send_by)
    then s
    else if time - now == 0
    then signal_should_send (record s { should_send_by = none })
    else record s { should_send_by = some time; wake_ups = s.wake_ups ++ time ∷ [] }

unfoldable pub without : ℕ → List ℕ → List ℕ
without t [] = []
without t (u ∷ us) = let rest = without t us in if u == t then us else u ∷ rest

-- the spawned task that sleeps until `time`, at its end, which is at `now`
unfoldable pub wake_up : ℕ → ℕ → TelemetryServiceState → TelemetryServiceState
unfolding should_send_by_now signal_should_send without
wake_up now time s =
    let s' : TelemetryServiceState = record s { wake_ups = without time s.wake_ups } in
    if should_send_by_now now s'
    then signal_should_send (record s' { should_send_by = none })
    else s'

abbrev is_low_overhead : TelemetryReportingStrategy → Bool
is_low_overhead low_overhead = true
is_low_overhead _ = false

module _ (setting : Setting) where
  -- the two readings of the clock are `now` and `later`
  unfoldable pub signal_should_send_after_delay :
      ℕ → ℕ → TelemetryServiceState → TelemetryServiceState
  unfolding signal_should_send_by
  signal_should_send_after_delay now later s =
      signal_should_send_by later (now + setting.config.reporting_delay) s

  -- the result with the flag `invocation_done`
  unfoldable pub after_processing : Result Bool → TelemetryServiceState → TelemetryServiceState
  unfolding signal_should_send signal_invocation_done
  after_processing (err reason) s = signal_invocation_done s
  after_processing (ok false) s = s
  after_processing (ok true) s =
      signal_invocation_done (
        if send_after_invocation setting.config.reporting_strategy then signal_should_send s else s)

  -- `handle_telemetry`, with `try_processing_telemetry`
  unfoldable pub handle_telemetry : TelemetryServiceState → TelemetryServiceState
  unfolding after_processing
  handle_telemetry s =
      if s.shutdown_flush_started
      then s
      else (let (r, s') = process_telemetry_events setting s in after_processing r s')

  -- `flush_enqueued_telemetry`; its error is only logged
  unfoldable pub flush_enqueued_telemetry :
      FunctionContext → TelemetryServiceState → TelemetryServiceState
  unfolding process_in_degraded_mode
  flush_enqueued_telemetry c s =
      (process_in_degraded_mode setting c s.telemetry_event_queue
        (record s { shutdown_flush_started = true; telemetry_event_queue = [] })).1

  -- `handle_otlp_metrics`
  unfoldable pub handle_otlp_metrics :
      ℕ → ℕ → List ResourceMetrics → TelemetryServiceState → TelemetryServiceState
  unfolding signal_should_send_after_delay
  handle_otlp_metrics now later resource_metrics s =
      let s' : TelemetryServiceState =
        if send_after_delay setting.config.reporting_strategy
        then signal_should_send_after_delay now later s
        else s in
      let (acc, o) =
        setting.processor.process_function_metrics resource_metrics s'.metrics_accumulator
          s'.output_buffers in
      record s' { metrics_accumulator = acc; output_buffers = o }

  -- the end of `handle_otlp_spans`, once the spans are processed
  unfoldable pub signal_for_spans : ℕ → ℕ → TelemetryServiceState → TelemetryServiceState
  unfolding signal_should_send signal_should_send_after_delay
  signal_for_spans now later s =
      if leb setting.config.span_sending_threshold s.output_buffers.function_spans_count
      then signal_should_send s
      else if send_after_delay setting.config.reporting_strategy
      then signal_should_send_after_delay now later s
      else s

  add_to_last :
      List ResourceSpans
      → InvokeEventDataWithSpans
      → List InvokeEventDataWithSpans
      → List InvokeEventDataWithSpans
  add_to_last spans e [] = record e { spans = e.spans ++ spans } ∷ []
  add_to_last spans e (d ∷ q) = e ∷ add_to_last spans d q

  -- `handle_otlp_spans`, by the invocation that the spans belong to
  unfoldable pub give_to_invocation :
      ℕ
      → ℕ
      → List ResourceSpans
      → Option InvocationProcessingState
      → TelemetryServiceState
      → Option Error × TelemetryServiceState
  unfolding signal_for_spans
  give_to_invocation now later spans none s =
      (none, record s { function_spans_buffer = s.function_spans_buffer ++ spans })
  give_to_invocation now later spans (some inv) s =
      if is_some inv.runtime_done_data
      then (none, record s { function_spans_buffer = s.function_spans_buffer ++ spans })
      else (let (x, inv', o) =
            setting.processor.process_function_spans inv spans s.output_buffers in
          let s' : TelemetryServiceState = record s {
            invocation_state = some inv';
            output_buffers = o;
          } in
          elim x [ some reason ↦ (some reason, s') | none ↦ (none, signal_for_spans now later s') ])

  unfoldable pub give_to_queue :
      ℕ
      → ℕ
      → List ResourceSpans
      → List InvokeEventDataWithSpans
      → TelemetryServiceState
      → Option Error × TelemetryServiceState
  unfolding give_to_invocation add_to_last
  give_to_queue now later spans [] s = give_to_invocation now later spans s.invocation_state s
  give_to_queue now later spans (e ∷ q) s =
      (none, record s { invoke_event_queue = add_to_last spans e q })

  unfoldable pub handle_otlp_spans :
      ℕ → ℕ → List ResourceSpans → TelemetryServiceState → Option Error × TelemetryServiceState
  unfolding give_to_queue
  handle_otlp_spans now later spans s = give_to_queue now later spans s.invoke_event_queue s

  -- `handle_incoming_telemetry`; `time_for` is `time_for_sending_event`, which reads two clocks, and
  -- `none` where it fails
  unfoldable pub signal_from_event :
      ℕ
      → (LambdaTelemetry → Option ℕ)
      → List LambdaTelemetry
      → TelemetryServiceState
      → TelemetryServiceState
  unfolding signal_should_send_by
  signal_from_event now time_for [] s = s
  signal_from_event now time_for (oldest ∷ es) s = elim (time_for oldest) [
    | none ↦ s
    | some time ↦
        if send_after_delay setting.config.reporting_strategy
        then signal_should_send_by now time s
        else s
  ]

  unfoldable pub handle_incoming_telemetry :
      ℕ
      → (LambdaTelemetry → Option ℕ)
      → List LambdaTelemetry
      → TelemetryServiceState
      → TelemetryServiceState
  unfolding signal_from_event handle_telemetry
  handle_incoming_telemetry now time_for es s =
      let s1 = signal_from_event now time_for es s in
      handle_telemetry (record s1 { telemetry_event_queue = s1.telemetry_event_queue ++ es })

  -- the beginning of `handle_invoke_event`, up to the sending; the strategy with low overhead drains
  -- the signals first
  abbrev pub enqueue_invoke_event :
      InvokeEventDataWithSpans → TelemetryServiceState → TelemetryServiceState
  enqueue_invoke_event e s = record s {
    signals = if is_low_overhead setting.config.reporting_strategy then [] else s.signals;
    received_first_invocation = true;
    invoke_event_queue = s.invoke_event_queue ++ e ∷ [];
  }

  unfoldable pub receive_invoke_event :
      InvokeEventDataWithSpans → TelemetryServiceState → TelemetryServiceState
  unfolding handle_telemetry
  receive_invoke_event e s = handle_telemetry (enqueue_invoke_event e s)
