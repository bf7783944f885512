-- ===== src/Service/Queue.antt =====
-- src/telemetry/telemetry_service.rs: `process_telemetry_events`, which works off the queues.
use coralogix_aws_lambda_tel.Prelude.{
  ℕ, zero, suc, ◌+◌, String, Bool, true, false, not, ◌||◌, Option, none, some, List, [], ◌∷◌, ◌++◌,
  str_eq,
}
use coralogix_aws_lambda_tel.Prelude.{if◌then◌else◌, length, is_empty, is_some, unwrap_or}
use coralogix_aws_lambda_tel.Events.{
  LambdaTelemetryRecord, platform_init_start, platform_start, platform_runtime_done,
  LambdaTelemetry, Error, panic, Result, ok, err,
}
use coralogix_aws_lambda_tel.Processing.State.{
  FunctionContext, InvokeEventDataWithSpans, random_trace_id, random_span_id,
  make_invocation_context, InvocationProcessingState, new_invocation_state, DegradedProcessingState,
  new_degraded_state,
}
use coralogix_aws_lambda_tel.Service.State.{TelemetryServiceState, Setting}

pub data Ready : Type 0 where
  idle : Ready
  refused : Error → TelemetryServiceState → Ready
  ready : InvocationProcessingState → TelemetryServiceState → Ready

-- how a round of the loop ends; `continues` says whether it processed a `PlatformRuntimeDone`
pub data Progress : Type 0 where
  finished : Progress
  stopped : Error → Progress
  continues : Bool → Progress

abbrev pub is_init_start : LambdaTelemetryRecord → Bool
is_init_start (platform_init_start k p v a) = true
is_init_start _ = false

abbrev pub is_runtime_done : LambdaTelemetryRecord → Bool
is_runtime_done (platform_runtime_done r s e m p t) = true
is_runtime_done _ = false

abbrev pub started_request : LambdaTelemetryRecord → Option String
started_request (platform_start request_id v t) = some request_id
started_request _ = none

abbrev pub buffer : LambdaTelemetry → TelemetryServiceState → TelemetryServiceState
buffer e s = record s { half_processed_event_buffer = s.half_processed_event_buffer ++ e ∷ [] }

-- `init_handling_started` is set where the round did not fail
unfoldable pub started : Progress × TelemetryServiceState → Progress × TelemetryServiceState
started (continues d, s) = (continues d, record s { init_handling_started = true })
started (other, s) = (other, s)

module _ (setting : Setting) where
  -- one call of `process_telemetry`, on the service's invocation state
  unfoldable pub handle_one :
      LambdaTelemetry
      → InvocationProcessingState
      → TelemetryServiceState
      → Option Error × InvocationProcessingState × TelemetryServiceState
  handle_one e inv s =
      let (x, inv', m, o) =
        setting.processor.process_telemetry e inv s.metrics_state s.output_buffers in
      (
        x,
        inv',
        record s {
          invocation_state = some inv';
          metrics_state = m;
          output_buffers = o;
          handled = s.handled ++ e ∷ [];
        },
      )

  unfoldable pub handle_events :
      List LambdaTelemetry
      → InvocationProcessingState
      → TelemetryServiceState
      → Option Error × TelemetryServiceState
  unfolding handle_one
  handle_events [] inv s = (none, s)
  handle_events (e ∷ es) inv s =
      let (x, inv', s') = handle_one e inv s in
      elim x [ none ↦ handle_events es inv' s' | some reason ↦ (some reason, s') ]

  unfoldable pub handle_degraded :
      List LambdaTelemetry
      → DegradedProcessingState
      → TelemetryServiceState
      → Option Error × TelemetryServiceState
  handle_degraded [] d s = (none, s)
  handle_degraded (e ∷ es) d s =
      let (x, d', m, o) =
        setting.processor.process_telemetry_in_degraded_mode e d s.metrics_state s.output_buffers in
      let s' : TelemetryServiceState = record s {
        metrics_state = m;
        output_buffers = o;
        handled = s.handled ++ e ∷ [];
      } in
      elim x [ none ↦ handle_degraded es d' s' | some reason ↦ (some reason, s') ]

  unfoldable pub process_in_degraded_mode :
      FunctionContext
      → List LambdaTelemetry
      → TelemetryServiceState
      → Option Error × TelemetryServiceState
  unfolding handle_degraded
  process_in_degraded_mode context events s =
      handle_degraded events
        (new_degraded_state (random_trace_id setting.rng s.draws)
          (random_span_id setting.rng (s.draws + 1)) context)
        (record s { draws = s.draws + 2 })

  -- the processing of a new invocation begins with the function's spans that came before
  unfoldable pub give_spans :
      InvokeEventDataWithSpans → InvocationProcessingState → TelemetryServiceState → Ready
  give_spans e inv s =
      let (x, inv1, o1) =
        setting.processor.process_function_spans inv s.function_spans_buffer s.output_buffers in
      let s1 : TelemetryServiceState = record s {
        function_spans_buffer = [];
        output_buffers = o1;
      } in
      elim x [
        | some reason ↦ refused reason s1
        | none ↦
            let (y, inv2, o2) = setting.processor.process_function_spans inv1 e.spans o1 in
            let s2 : TelemetryServiceState = record s1 { output_buffers = o2 } in
            elim y [
              | some reason ↦ refused reason s2
              | none ↦ ready inv2 (record s2 { invocation_state = some inv2 })
            ]
      ]

  unfoldable pub begin_invocation : InvokeEventDataWithSpans → TelemetryServiceState → Ready
  unfolding give_spans
  begin_invocation e s =
      let p = setting.config.processor_config in
      let s1 : TelemetryServiceState = record s { draws = s.draws + 3 } in
      elim (make_invocation_context setting.rng setting.parse_xray s.draws e) [
        | err reason ↦ refused reason s1
        | ok context ↦
            give_spans e
              (new_invocation_state (random_span_id setting.rng (s.draws + 2)) e.function_context
                context p.trace_sampling_mode p.tracing_mode)
              s1
      ]

  unfoldable pub next_invocation : List InvokeEventDataWithSpans → TelemetryServiceState → Ready
  unfolding begin_invocation
  next_invocation [] s = idle
  next_invocation (e ∷ q) s = begin_invocation e (record s { invoke_event_queue = q })

  unfoldable pub current_invocation : TelemetryServiceState → Ready
  unfolding next_invocation
  current_invocation s = elim s.invocation_state [
    | some inv ↦ ready inv s
    | none ↦ next_invocation s.invoke_event_queue s
  ]

  -- a `PlatformInitStart`: the events before it go through in degraded mode
  unfoldable pub restart_init :
      LambdaTelemetry
      → InvocationProcessingState
      → TelemetryServiceState
      → Progress × TelemetryServiceState
  unfolding process_in_degraded_mode
  restart_init e inv s =
      let (x, s') =
        process_in_degraded_mode inv.function_context s.half_processed_event_buffer
          (record s { half_processed_event_buffer = [] }) in
      elim x [ some reason ↦ (stopped reason, s') | none ↦ (continues false, buffer e s') ]

  unfoldable pub before_init :
      LambdaTelemetry
      → InvocationProcessingState
      → TelemetryServiceState
      → Progress × TelemetryServiceState
  unfolding restart_init started
  before_init e inv s =
      if not (is_init_start e.event)
      then (continues false, buffer e s)
      else if is_empty s.half_processed_event_buffer
      then (continues false, record (buffer e s) { init_handling_started = true })
      else started (restart_init e inv s)

  -- the awaited `PlatformStart`: the buffered events are processed, and it is put back
  unfoldable pub conclude_init :
      LambdaTelemetry
      → InvocationProcessingState
      → TelemetryServiceState
      → Progress × TelemetryServiceState
  unfolding handle_events
  conclude_init e inv s =
      let (x, s') = handle_events s.half_processed_event_buffer inv (record s {
        init_handled = true;
        telemetry_event_queue = e ∷ s.telemetry_event_queue;
        half_processed_event_buffer = [];
      }) in
      elim x [ some reason ↦ (stopped reason, s') | none ↦ (continues false, s') ]

  unfoldable pub during_init :
      LambdaTelemetry
      → InvocationProcessingState
      → TelemetryServiceState
      → Progress × TelemetryServiceState
  unfolding restart_init conclude_init
  during_init e inv s =
      if is_init_start e.event then restart_init e inv s else elim (started_request e.event) [
        | none ↦ (continues false, buffer e s)
        | some request_id ↦
            if str_eq request_id inv.invocation_context.request_id
            then conclude_init e inv s
            else (continues false, buffer e s)
      ]

  unfoldable pub after_init :
      LambdaTelemetry
      → InvocationProcessingState
      → TelemetryServiceState
      → Progress × TelemetryServiceState
  unfolding handle_one
  after_init e inv s =
      let (x, inv', s') = handle_one e inv s in
      elim x [
        | some reason ↦ (stopped reason, s')
        | none ↦ (
          continues (is_runtime_done e.event),
          if is_some inv'.report_data then record s' { invocation_state = none } else s',
        )
      ]

  unfoldable pub take_event :
      List LambdaTelemetry
      → InvocationProcessingState
      → TelemetryServiceState
      → Progress × TelemetryServiceState
  unfolding before_init during_init after_init
  take_event [] inv s = (finished, s)
  take_event (e ∷ q) inv s =
      let s' : TelemetryServiceState = record s { telemetry_event_queue = q } in
      if not s.init_handling_started
      then before_init e inv s'
      else if not s.init_handled
      then during_init e inv s'
      else after_init e inv s'

  unfoldable pub iterate : TelemetryServiceState → Progress × TelemetryServiceState
  unfolding current_invocation take_event
  iterate s = elim (current_invocation s) [
    | idle ↦ (finished, s)
    | refused reason s' ↦ (stopped reason, s')
    | ready inv s' ↦ take_event s'.telemetry_event_queue inv s'
  ]

  -- the loop, on fuel; `none` where the fuel runs out
  unfoldable pub process_loop :
      ℕ → Bool → TelemetryServiceState → Option (Result Bool × TelemetryServiceState)
  unfolding iterate
  process_loop zero invocation_done s = none
  process_loop (suc n) invocation_done s =
      let (progress, s') = iterate s in
      elim progress [
        | finished ↦ some (ok invocation_done, s')
        | stopped reason ↦ some (err reason, s')
        | continues d ↦ process_loop n (invocation_done || d) s'
      ]

  -- a round for each event, one more for the `PlatformStart` that is put back, and the last one
  unfoldable pub process_telemetry_events :
      TelemetryServiceState → Result Bool × TelemetryServiceState
  unfolding process_loop
  process_telemetry_events s =
      unwrap_or (process_loop (length s.telemetry_event_queue + 2) false s) (err panic, s)
