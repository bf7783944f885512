-- ===== src/Service/Growth.antt =====
-- src/telemetry/telemetry_service.rs: nothing is taken from the buffers but by a sending.
use coralogix_aws_lambda_tel.Prelude.{
  ℕ, zero, suc, ◌+◌, String, ◌≡◌, sym, ap, ◌∙◌, inl, inr, Bool, true, false, not, ◌||◌, Option,
  none, some, List, [], ◌∷◌, ◌++◌, append_assoc, append-nil, str_eq,
}
use coralogix_aws_lambda_tel.Prelude.{
  if◌then◌else◌, Option-cases, length, is_empty, is_some, unwrap_or,
}
use coralogix_aws_lambda_tel.Proto.{ResourceSpans, ResourceMetrics}
use coralogix_aws_lambda_tel.Events.{LambdaTelemetry, Error, panic, Result, ok, err}
use coralogix_aws_lambda_tel.Processing.State.{
  InvokeEventDataWithSpans, InvocationContext, random_trace_id, random_span_id,
  make_invocation_context, InvocationProcessingState, new_invocation_state, DegradedProcessingState,
  new_degraded_state,
}
use coralogix_aws_lambda_tel.PlatformMetrics.Mode
use coralogix_aws_lambda_tel.OtelMetrics.Accumulator.{OtelMetricsAccumulator}
use coralogix_aws_lambda_tel.Service.State.{
  OutputBuffers, TelemetryServiceState, Processor, Setting,
}
use coralogix_aws_lambda_tel.Service.Rounds.{if_cases}
use coralogix_aws_lambda_tel.Service.Queue.{
  Ready, idle, refused, ready, Progress, finished, stopped, continues, is_init_start,
  started_request, buffer, handle_one, handle_events, handle_degraded, process_in_degraded_mode,
  give_spans, begin_invocation, next_invocation, current_invocation, restart_init, started,
  before_init, conclude_init, during_init, after_init, take_event, iterate, process_loop,
  process_telemetry_events,
}

-- what the list holds, with more after it
abbrev pub IsPrefix : {A : Type 0} → List A → List A → Type 0
IsPrefix {A} xs ys = (zs : List A) × (ys ≡ xs ++ zs)

pub IsPrefix-refl : {A : Type 0} (xs : List A) → IsPrefix xs xs
IsPrefix-refl xs = ([], sym (append-nil xs))

pub IsPrefix-trans :
    {A : Type 0} (xs ys zs : List A) → IsPrefix xs ys → IsPrefix ys zs → IsPrefix xs zs
IsPrefix-trans xs ys zs (a, h) (b, k) = (a ++ b, k ∙ (ap (λ l. l ++ b) h ∙ append_assoc xs a b))

-- Each buffer holds what it held, in order, and maybe more after it.
pub record Grows (o o' : OutputBuffers) : Type 0 where
  pub logs : IsPrefix o.logs_buffer o'.logs_buffer
  pub spans : IsPrefix o.spans_buffer o'.spans_buffer
  pub function_metrics : IsPrefix o.function_metrics_buffer o'.function_metrics_buffer
  pub function_spans : IsPrefix o.function_spans_buffer o'.function_spans_buffer
  pub epsagon_traces : IsPrefix o.epsagon_traces_buffer o'.epsagon_traces_buffer

pub Grows-refl : (o : OutputBuffers) → Grows o o
Grows-refl o = record {
  logs = IsPrefix-refl _;
  spans = IsPrefix-refl _;
  function_metrics = IsPrefix-refl _;
  function_spans = IsPrefix-refl _;
  epsagon_traces = IsPrefix-refl _;
}

pub Grows-trans : {o p q : OutputBuffers} → Grows o p → Grows p q → Grows o q
Grows-trans h k = record {
  logs = IsPrefix-trans _ _ _ h.logs k.logs;
  spans = IsPrefix-trans _ _ _ h.spans k.spans;
  function_metrics = IsPrefix-trans _ _ _ h.function_metrics k.function_metrics;
  function_spans = IsPrefix-trans _ _ _ h.function_spans k.function_spans;
  epsagon_traces = IsPrefix-trans _ _ _ h.epsagon_traces k.epsagon_traces;
}

-- What a processor promises of the buffers, whether it fails or not.
pub record ProcessorLaws (p : Processor) : Type 0 where
  pub process_function_spans :
      (inv : InvocationProcessingState) (spans : List ResourceSpans) (o : OutputBuffers)
      → Grows o (p.process_function_spans inv spans o).2
  pub process_telemetry :
      (e : LambdaTelemetry) (inv : InvocationProcessingState) (m : Mode.PlatformMetricsState)
      (o : OutputBuffers)
      → Grows o (p.process_telemetry e inv m o).3
  pub process_telemetry_in_degraded_mode :
      (e : LambdaTelemetry) (d : DegradedProcessingState) (m : Mode.PlatformMetricsState)
      (o : OutputBuffers)
      → Grows o (p.process_telemetry_in_degraded_mode e d m o).3
  pub process_function_metrics :
      (r : List ResourceMetrics) (acc : OtelMetricsAccumulator) (o : OutputBuffers)
      → Grows o (p.process_function_metrics r acc o).1

-- the property, over the two branches of a possible error
pub either :
    {A : Type 0} (P : A → Type 0) (x : Option Error) {y : A} {f : Error → A}
    → P y
    → ((e : Error) → P (f e))
    → P (elim x [ none ↦ y | some e ↦ f e ])
either P none h k = h
either P (some e) h k = k e

module _ (setting : Setting) (laws : ProcessorLaws setting.processor) where
  abbrev GrowsTo : TelemetryServiceState → TelemetryServiceState → Type 0
  GrowsTo s s' = Grows s.output_buffers s'.output_buffers

  handle_events-Grows :
      (es : List LambdaTelemetry) (inv : InvocationProcessingState) (s : TelemetryServiceState)
      → GrowsTo s (handle_events setting es inv s).1
  unfolding handle_events
  handle_events-Grows [] inv s = Grows-refl _
  handle_events-Grows (e ∷ es) inv s =
      let r = handle_one setting e inv s in
      either (λ (q : Option Error × TelemetryServiceState). GrowsTo s q.1) r.0
        (Grows-trans (laws.process_telemetry e inv s.metrics_state s.output_buffers)
          (handle_events-Grows es r.1 r.2))
        (λ x. laws.process_telemetry e inv s.metrics_state s.output_buffers)

  handle_degraded-Grows :
      (es : List LambdaTelemetry) (d : DegradedProcessingState) (s : TelemetryServiceState)
      → GrowsTo s (handle_degraded setting es d s).1
  unfolding handle_degraded
  handle_degraded-Grows [] d s = Grows-refl _
  handle_degraded-Grows (e ∷ es) d s =
      let law = laws.process_telemetry_in_degraded_mode e d s.metrics_state s.output_buffers in
      either (λ (q : Option Error × TelemetryServiceState). GrowsTo s q.1) _
        (Grows-trans law (handle_degraded-Grows es _ _)) (λ x. law)

  abbrev GrowsReady : TelemetryServiceState → Ready → Type 0
  GrowsReady s idle = Unit
  GrowsReady s (refused e s') = GrowsTo s s'
  GrowsReady s (ready inv s') = GrowsTo s s'

  give_spans-Grows :
      (e : InvokeEventDataWithSpans) (inv : InvocationProcessingState) (s : TelemetryServiceState)
      → GrowsReady s (give_spans setting e inv s)
  unfolding give_spans
  give_spans-Grows e inv s =
      let r =
        setting.processor.process_function_spans inv s.function_spans_buffer s.output_buffers in
      let law = laws.process_function_spans inv s.function_spans_buffer s.output_buffers in
      let q = setting.processor.process_function_spans r.1 e.spans r.2 in
      let law' = Grows-trans law (laws.process_function_spans r.1 e.spans r.2) in
      elim (Option-cases r.0) [
        | inr (x, h) ↦ rw (GrowsReady, h) law
        | inl h ↦ elim (Option-cases q.0) [
          | inr (x, k) ↦ rw (GrowsReady, h, k) law'
          | inl k ↦ rw (GrowsReady, h, k) law'
        ]
      ]

  of_context :
      (e : InvokeEventDataWithSpans) (s : TelemetryServiceState) (r : Result InvocationContext)
      → GrowsReady s (elim r [
        | err reason ↦ refused reason (record s { draws = s.draws + 3 })
        | ok context ↦
            give_spans setting e
              (new_invocation_state
                (random_span_id setting.rng (s.draws + 2))
                e.function_context
                context
                setting.config.processor_config.trace_sampling_mode
                setting.config.processor_config.tracing_mode)
              (record s { draws = s.draws + 3 })
      ])
  of_context e s (err reason) = Grows-refl _
  of_context e s (ok context) = moved _ (give_spans-Grows e _ (record s { draws = s.draws + 3 }))
    where
      moved : (r : Ready) → GrowsReady (record s { draws = s.draws + 3 }) r → GrowsReady s r
      moved idle h = tt
      moved (refused x s') h = h
      moved (ready inv s') h = h

  next_invocation-Grows :
      (q : List InvokeEventDataWithSpans) (s : TelemetryServiceState)
      → GrowsReady s (next_invocation setting q s)
  unfolding next_invocation begin_invocation
  next_invocation-Grows [] s = tt
  next_invocation-Grows (e ∷ q) s =
      moved _ (of_context e s' (make_invocation_context setting.rng setting.parse_xray s'.draws e))
    where
      s' : TelemetryServiceState
      s' = record s { invoke_event_queue = q }

      moved : (r : Ready) → GrowsReady s' r → GrowsReady s r
      moved idle h = tt
      moved (refused x s') h = h
      moved (ready inv s') h = h

  current_of :
      (s : TelemetryServiceState) (o : Option InvocationProcessingState)
      → GrowsReady s (elim o [
        | some inv ↦ ready inv s
        | none ↦ next_invocation setting s.invoke_event_queue s
      ])
  current_of s none = next_invocation-Grows s.invoke_event_queue s
  current_of s (some inv) = Grows-refl _

  current_invocation-Grows :
      (s : TelemetryServiceState) → GrowsReady s (current_invocation setting s)
  unfolding current_invocation
  current_invocation-Grows s = current_of s s.invocation_state

  abbrev Ends : TelemetryServiceState → Progress × TelemetryServiceState → Type 0
  Ends s q = GrowsTo s q.1

  restart_init-Grows :
      (e : LambdaTelemetry) (inv : InvocationProcessingState) (s : TelemetryServiceState)
      → Ends s (restart_init setting e inv s)
  unfolding restart_init process_in_degraded_mode
  restart_init-Grows e inv s =
      let law =
        handle_degraded-Grows s.half_processed_event_buffer
          (new_degraded_state (random_trace_id setting.rng s.draws)
            (random_span_id setting.rng (s.draws + 1)) inv.function_context)
          (record s { half_processed_event_buffer = []; draws = s.draws + 2 }) in
      either (Ends s) _ law (λ x. law)

  started-Grows :
      (s : TelemetryServiceState) (q : Progress × TelemetryServiceState)
      → Ends s q
      → Ends s (started q)
  unfolding started
  started-Grows s (finished, s') h = h
  started-Grows s (stopped x, s') h = h
  started-Grows s (continues d, s') h = h

  before_init-Grows :
      (e : LambdaTelemetry) (inv : InvocationProcessingState) (s : TelemetryServiceState)
      → Ends s (before_init setting e inv s)
  unfolding before_init
  before_init-Grows e inv s =
      if_cases (Ends s) (not (is_init_start e.event)) _ _ (λ _. Grows-refl _)
        (λ _.
          if_cases (Ends s) (is_empty s.half_processed_event_buffer) _ _ (λ _. Grows-refl _)
            (λ _. started-Grows s _ (restart_init-Grows e inv s)))

  conclude_init-Grows :
      (e : LambdaTelemetry) (inv : InvocationProcessingState) (s : TelemetryServiceState)
      → Ends s (conclude_init setting e inv s)
  unfolding conclude_init
  conclude_init-Grows e inv s =
      let law = handle_events-Grows s.half_processed_event_buffer inv (record s {
        init_handled = true;
        telemetry_event_queue = e ∷ s.telemetry_event_queue;
        half_processed_event_buffer = [];
      }) in
      either (Ends s) _ law (λ x. law)

  during_of :
      (e : LambdaTelemetry) (inv : InvocationProcessingState) (s : TelemetryServiceState)
      (o : Option String)
      → Ends s (elim o [
        | none ↦ (continues false, buffer e s)
        | some request_id ↦
            if str_eq request_id inv.invocation_context.request_id
            then conclude_init setting e inv s
            else (continues false, buffer e s)
      ])
  during_of e inv s none = Grows-refl _
  during_of e inv s (some id) =
      if_cases (Ends s) (str_eq id inv.invocation_context.request_id) _ _
        (λ _. conclude_init-Grows e inv s) (λ _. Grows-refl _)

  during_init-Grows :
      (e : LambdaTelemetry) (inv : InvocationProcessingState) (s : TelemetryServiceState)
      → Ends s (during_init setting e inv s)
  unfolding during_init
  during_init-Grows e inv s =
      if_cases (Ends s) (is_init_start e.event) _ _ (λ _. restart_init-Grows e inv s)
        (λ _. during_of e inv s (started_request e.event))

  after_init-Grows :
      (e : LambdaTelemetry) (inv : InvocationProcessingState) (s : TelemetryServiceState)
      → Ends s (after_init setting e inv s)
  unfolding after_init
  after_init-Grows e inv s =
      let law = laws.process_telemetry e inv s.metrics_state s.output_buffers in
      let r = handle_one setting e inv s in
      either (Ends s) r.0 (if_cases (GrowsTo s) (is_some r.1.report_data) _ _ (λ _. law) (λ _. law))
        (λ x. law)

  take_event-Grows :
      (q : List LambdaTelemetry) (inv : InvocationProcessingState) (s : TelemetryServiceState)
      → Ends s (take_event setting q inv s)
  unfolding take_event
  take_event-Grows [] inv s = Grows-refl _
  take_event-Grows (e ∷ q) inv s =
      let s' : TelemetryServiceState = record s { telemetry_event_queue = q } in
      if_cases (Ends s) (not s.init_handling_started) _ _ (λ _. before_init-Grows e inv s')
        (λ _.
          if_cases (Ends s) (not s.init_handled) _ _ (λ _. during_init-Grows e inv s')
            (λ _. after_init-Grows e inv s'))

  round_of :
      (s : TelemetryServiceState) (r : Ready)
      → GrowsReady s r
      → Ends s (elim r [
        | idle ↦ (finished, s)
        | refused reason s' ↦ (stopped reason, s')
        | ready inv s' ↦ take_event setting s'.telemetry_event_queue inv s'
      ])
  round_of s idle h = Grows-refl _
  round_of s (refused x s') h = h
  round_of s (ready inv s') h = Grows-trans h (take_event-Grows s'.telemetry_event_queue inv s')

  iterate-Grows : (s : TelemetryServiceState) → Ends s (iterate setting s)
  unfolding iterate
  iterate-Grows s = round_of s (current_invocation setting s) (current_invocation-Grows s)

  abbrev GrowsIn : TelemetryServiceState → Option (Result Bool × TelemetryServiceState) → Type 0
  GrowsIn s none = Unit
  GrowsIn s (some q) = GrowsTo s q.1

  GrowsIn-after :
      (s s' : TelemetryServiceState)
      → GrowsTo s s'
      → (o : Option (Result Bool × TelemetryServiceState)) → GrowsIn s' o
      → GrowsIn s o
  GrowsIn-after s s' h none k = tt
  GrowsIn-after s s' h (some q) k = Grows-trans h k

  progress_of :
      (n : ℕ) (d : Bool) (s : TelemetryServiceState)
      → ((d : Bool) (s : TelemetryServiceState) → GrowsIn s (process_loop setting n d s))
      → (p : Progress) (s' : TelemetryServiceState) → GrowsTo s s'
      → GrowsIn s (elim p [
        | finished ↦ some (ok d, s')
        | stopped reason ↦ some (err reason, s')
        | continues more ↦ process_loop setting n (d || more) s'
      ])
  progress_of n d s rest finished s' h = h
  progress_of n d s rest (stopped x) s' h = h
  progress_of n d s rest (continues more) s' h = GrowsIn-after s s' h _ (rest (d || more) s')

  process_loop-Grows :
      (n : ℕ) (d : Bool) (s : TelemetryServiceState) → GrowsIn s (process_loop setting n d s)
  unfolding process_loop
  process_loop-Grows zero d s = tt
  process_loop-Grows (suc n) d s =
      let r = iterate setting s in
      progress_of n d s (λ d s. process_loop-Grows n d s) r.0 r.1 (iterate-Grows s)

  result_of :
      (s : TelemetryServiceState) (o : Option (Result Bool × TelemetryServiceState))
      → GrowsIn s o
      → GrowsTo s (unwrap_or o (err panic, s)).1
  result_of s none h = Grows-refl _
  result_of s (some q) h = h

  -- With a processor that only appends to the buffers, the processing of the queues takes nothing from
  -- the buffers, in any state and whether it succeeds or fails: each of the five holds what it held,
  -- in order, and maybe more after it.
  pub process_telemetry_events-Grows :
      (s : TelemetryServiceState)
      → Grows s.output_buffers (process_telemetry_events setting s).1.output_buffers
  unfolding process_telemetry_events
  process_telemetry_events-Grows s =
      result_of s _ (process_loop-Grows (length s.telemetry_event_queue + 2) false s)
