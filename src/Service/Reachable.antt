-- ===== src/Service/Reachable.antt =====
-- src/telemetry/telemetry_service.rs: what holds of the service however its handlers are called.
use coralogix_aws_lambda_tel.Prelude.{
  ℕ, ◌+◌, ◌≡◌, refl, sym, ◌∙◌, inl, inr, Bool, true, false, Option, none, some, List, [], ◌∷◌, ◌++◌,
  arith,
}
use coralogix_aws_lambda_tel.Prelude.{Option-cases, is_some}
use coralogix_aws_lambda_tel.Prelude.{FloatOps}
use coralogix_aws_lambda_tel.Proto.{ResourceSpans, ResourceMetrics}
use coralogix_aws_lambda_tel.Events.{LambdaTelemetry, Error, Result, ok, err}
use coralogix_aws_lambda_tel.Processing.State.{
  FunctionContext, InvokeEventDataWithSpans, random_trace_id, random_span_id,
  InvocationProcessingState, new_degraded_state,
}
use coralogix_aws_lambda_tel.Service.State.{TelemetryServiceState, Setting}
use coralogix_aws_lambda_tel.Service.Queue.{
  handle_degraded, process_in_degraded_mode, process_telemetry_events,
}
use coralogix_aws_lambda_tel.Config.{TelemetryServiceConfig}
use coralogix_aws_lambda_tel.OtelMetrics.TimeSeriesId.{ValueFormat}
use coralogix_aws_lambda_tel.Service.State.{new_service_state}
use coralogix_aws_lambda_tel.Service.Rounds.{
  if_cases, IsSettled, IsHandedOver, handle_degraded-IsHandedOver,
}
use coralogix_aws_lambda_tel.Service.Order.{process_telemetry_events-IsSettled}
use coralogix_aws_lambda_tel.Service.Sending.{send_telemetry, send_telemetry-init}
use coralogix_aws_lambda_tel.Service.Signals.{
  signal_should_send, signal_invocation_done, signal_should_send_by, wake_up,
  signal_should_send_after_delay, after_processing, handle_telemetry, flush_enqueued_telemetry,
  handle_otlp_metrics, signal_for_spans, give_to_invocation, give_to_queue, handle_otlp_spans,
  signal_from_event, handle_incoming_telemetry, enqueue_invoke_event, receive_invoke_event,
}

-- The calls of the handlers, and the ends of the tasks that sleep.
pub data Event : Type 0 where
  incoming : (now : ℕ) (time_for : LambdaTelemetry → Option ℕ) (es : List LambdaTelemetry) → Event
  invoked : (e : InvokeEventDataWithSpans) → Event
  spans_received : (now later : ℕ) (spans : List ResourceSpans) → Event
  metrics_received : (now later : ℕ) (metrics : List ResourceMetrics) → Event
  woken : (now time : ℕ) → Event
  flushed sent : (c : FunctionContext) → Event

module _ (setting : Setting) (fl : FloatOps) (f : ValueFormat) where
  abbrev pub handle : Event → TelemetryServiceState → TelemetryServiceState
  handle (incoming now time_for es) s = handle_incoming_telemetry setting now time_for es s
  handle (invoked e) s = receive_invoke_event setting e s
  handle (spans_received now later spans) s = (handle_otlp_spans setting now later spans s).1
  handle (metrics_received now later metrics) s = handle_otlp_metrics setting now later metrics s
  handle (woken now time) s = wake_up now time s
  handle (flushed c) s = flush_enqueued_telemetry setting c s
  handle (sent c) s = (send_telemetry setting.config.processor_config fl f c s).1

  abbrev pub handle_all : List Event → TelemetryServiceState → TelemetryServiceState
  handle_all [] s = s
  handle_all (e ∷ es) s = handle_all es (handle e s)

-- what `IsSettled` speaks of is the same
abbrev IsSame : TelemetryServiceState → TelemetryServiceState → Type 0
IsSame s s' =
    (s'.init_handled ≡ s.init_handled)
    × (s'.init_handling_started ≡ s.init_handling_started)
    × (s'.half_processed_event_buffer ≡ s.half_processed_event_buffer)

IsSettled-same : (s s' : TelemetryServiceState) → IsSame s s' → IsSettled s → IsSettled s'
IsSettled-same s s' (over, begun, half) h = record {
  begun = λ e. begun ∙ h.begun (sym over ∙ e);
  unbuffered = λ e. half ∙ h.unbuffered (sym over ∙ e);
}

signal_should_send_by-IsSame :
    (now time : ℕ) (s : TelemetryServiceState) → IsSame s (signal_should_send_by now time s)
unfolding signal_should_send_by signal_should_send
signal_should_send_by-IsSame now time s = ground arith

wake_up-IsSame : (now time : ℕ) (s : TelemetryServiceState) → IsSame s (wake_up now time s)
unfolding wake_up signal_should_send
wake_up-IsSame now time s = ground arith

module _ (setting : Setting) where
  after_processing-IsSame :
      (r : Result Bool) (s : TelemetryServiceState) → IsSame s (after_processing setting r s)
  unfolding after_processing signal_should_send signal_invocation_done
  after_processing-IsSame (err reason) s = (refl, refl, refl)
  after_processing-IsSame (ok false) s = (refl, refl, refl)
  after_processing-IsSame (ok true) s = ground arith

  handle_telemetry-IsSettled :
      (s : TelemetryServiceState) → IsSettled s → IsSettled (handle_telemetry setting s)
  unfolding handle_telemetry
  handle_telemetry-IsSettled s h =
      let r = process_telemetry_events setting s in
      if_cases (λ (t : TelemetryServiceState). IsSettled t) s.shutdown_flush_started _ _ (λ _. h)
        (λ _.
          IsSettled-same r.1 (after_processing setting r.0 r.1) (after_processing-IsSame r.0 r.1)
            (process_telemetry_events-IsSettled setting s h))

  handed_over-IsSettled :
      (es : List LambdaTelemetry) (s : TelemetryServiceState) (x : Option Error)
      (s' : TelemetryServiceState)
      → IsHandedOver es s x s'
      → IsSettled s
      → IsSettled s'
  handed_over-IsSettled es s none s' (a, _) h = IsSettled-same s s' (a.over, a.begun, a.half) h
  handed_over-IsSettled es s (some reason) s' a h = IsSettled-same s s' (a.over, a.begun, a.half) h

  flush_enqueued_telemetry-IsSettled :
      (c : FunctionContext) (s : TelemetryServiceState)
      → IsSettled s
      → IsSettled (flush_enqueued_telemetry setting c s)
  unfolding flush_enqueued_telemetry process_in_degraded_mode
  flush_enqueued_telemetry-IsSettled c s h =
      let s0 : TelemetryServiceState = record s {
        shutdown_flush_started = true;
        telemetry_event_queue = [];
        draws = s.draws + 2;
      } in
      let d =
        new_degraded_state (random_trace_id setting.rng s.draws)
          (random_span_id setting.rng (s.draws + 1)) c in
      let r = handle_degraded setting s.telemetry_event_queue d s0 in
      handed_over-IsSettled s.telemetry_event_queue s0 r.0 r.1
        (handle_degraded-IsHandedOver setting s.telemetry_event_queue d s0)
        (IsSettled-same s s0 (refl, refl, refl) h)

  signal_from_event-IsSame :
      (now : ℕ) (time_for : LambdaTelemetry → Option ℕ) (es : List LambdaTelemetry)
      (s : TelemetryServiceState)
      → IsSame s (signal_from_event setting now time_for es s)
  unfolding signal_from_event signal_should_send_by signal_should_send
  signal_from_event-IsSame now time_for [] s = (refl, refl, refl)
  signal_from_event-IsSame now time_for (e ∷ es) s = elim (Option-cases (time_for e)) [
    | inl h ↦ rw (IsSame, signal_from_event, h) (refl, refl, refl)
    | inr (time, h) ↦ rw (IsSame, signal_from_event, h) (ground arith)
  ]

  signal_for_spans-IsSame :
      (now later : ℕ) (s : TelemetryServiceState) → IsSame s (signal_for_spans setting now later s)
  unfolding signal_for_spans signal_should_send signal_should_send_after_delay signal_should_send_by
  signal_for_spans-IsSame now later s = ground arith

  handle_otlp_metrics-IsSame :
      (now later : ℕ) (metrics : List ResourceMetrics) (s : TelemetryServiceState)
      → IsSame s (handle_otlp_metrics setting now later metrics s)
  unfolding handle_otlp_metrics signal_should_send_after_delay signal_should_send_by
      signal_should_send
  handle_otlp_metrics-IsSame now later metrics s = ground arith

  give_to_invocation-IsSame :
      (now later : ℕ) (spans : List ResourceSpans) (o : Option InvocationProcessingState)
      (s : TelemetryServiceState)
      → IsSame s (give_to_invocation setting now later spans o s).1
  unfolding give_to_invocation
  give_to_invocation-IsSame now later spans none s = (refl, refl, refl)
  give_to_invocation-IsSame now later spans (some inv) s =
      let (x, inv', out) = setting.processor.process_function_spans inv spans s.output_buffers in
      let s' : TelemetryServiceState = record s {
        invocation_state = some inv';
        output_buffers = out;
      } in
      if_cases (λ (r : Option Error × TelemetryServiceState). IsSame s r.1)
        (is_some inv.runtime_done_data) _ _ (λ _. (refl, refl, refl))
        (λ _. processed x s s' (refl, refl, refl))
    where
      processed :
          (x : Option Error) (s s' : TelemetryServiceState)
          → IsSame s s'
          → let r : Option Error × TelemetryServiceState = elim x [
            | some reason ↦ (some reason, s')
            | none ↦ (none, signal_for_spans setting now later s')
          ] in
            IsSame s r.1
      processed none s s' (a, b, c) =
          let (a', b', c') = signal_for_spans-IsSame now later s' in (a' ∙ a, b' ∙ b, c' ∙ c)
      processed (some reason) s s' k = k

  handle_otlp_spans-IsSame :
      (now later : ℕ) (spans : List ResourceSpans) (s : TelemetryServiceState)
      → IsSame s (handle_otlp_spans setting now later spans s).1
  unfolding handle_otlp_spans give_to_queue
  handle_otlp_spans-IsSame now later spans s = go s.invoke_event_queue
    where
      go :
          (q : List InvokeEventDataWithSpans)
          → IsSame s (give_to_queue setting now later spans q s).1
      go [] = give_to_invocation-IsSame now later spans s.invocation_state s
      go (e ∷ q) = (refl, refl, refl)

module _ (setting : Setting) (fl : FloatOps) (f : ValueFormat) where
  handle-IsSettled :
      (e : Event) (s : TelemetryServiceState) → IsSettled s → IsSettled (handle setting fl f e s)
  unfolding handle_incoming_telemetry receive_invoke_event
  handle-IsSettled (incoming now time_for es) s h =
      let s1 = signal_from_event setting now time_for es s in
      handle_telemetry-IsSettled setting _ (
        IsSettled-same s (record s1 { telemetry_event_queue = s1.telemetry_event_queue ++ es })
          (signal_from_event-IsSame setting now time_for es s) h)
  handle-IsSettled (invoked e) s h =
      handle_telemetry-IsSettled setting (enqueue_invoke_event setting e s)
        (record { begun = h.begun; unbuffered = h.unbuffered })
  handle-IsSettled (spans_received now later spans) s h =
      IsSettled-same s _ (handle_otlp_spans-IsSame setting now later spans s) h
  handle-IsSettled (metrics_received now later metrics) s h =
      IsSettled-same s _ (handle_otlp_metrics-IsSame setting now later metrics s) h
  handle-IsSettled (woken now time) s h = IsSettled-same s _ (wake_up-IsSame now time s) h
  handle-IsSettled (flushed c) s h = flush_enqueued_telemetry-IsSettled setting c s h
  handle-IsSettled (sent c) s h =
      IsSettled-same s _ (send_telemetry-init setting.config.processor_config fl f c s) h

  handle_all-IsSettled_from :
      (es : List Event) (s : TelemetryServiceState)
      → IsSettled s
      → IsSettled (handle_all setting fl f es s)
  handle_all-IsSettled_from [] s h = h
  handle_all-IsSettled_from (e ∷ es) s h = handle_all-IsSettled_from es _ (handle-IsSettled e s h)

  -- However the handlers are called, from a fresh service on, the service stays settled: once the awaited
  -- `PlatformStart` was seen, the handling of the initialisation had begun, and no event is left half processed.
  pub handle_all-IsSettled :
      (config : TelemetryServiceConfig) (now : ℕ) (es : List Event)
      → IsSettled (handle_all setting fl f es (new_service_state config now))
  unfolding new_service_state
  handle_all-IsSettled config now es =
      handle_all-IsSettled_from es _ (record { begun = λ k. cc; unbuffered = λ k. cc })
