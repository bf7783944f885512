-- ===== src/Service/Rounds.antt =====
-- src/telemetry/telemetry_service.rs: what each round of `process_telemetry_events` does with the
-- queues.
use coralogix_aws_lambda_tel.Prelude.{
  ℕ, ◌+◌, ◌<◌, ◌≡◌, refl, sym, ap, ◌∙◌, subst, ◌⊎◌, inl, inr, Bool, true, false, not, Option, none,
  some, List, [], ◌∷◌, ◌++◌, append_assoc, append-nil, arith, str_eq,
}
use coralogix_aws_lambda_tel.Prelude.{
  if◌then◌else◌, Bool-cases, Option-cases, length, is_empty, is_some,
}
use coralogix_aws_lambda_tel.Events.{LambdaTelemetry, Error, Result, ok, err}
use coralogix_aws_lambda_tel.Processing.State.{
  InvokeEventDataWithSpans, InvocationContext, random_trace_id, random_span_id,
  make_invocation_context, InvocationProcessingState, new_invocation_state, DegradedProcessingState,
  new_degraded_state,
}
use coralogix_aws_lambda_tel.Service.State.{TelemetryServiceState, Setting}
use coralogix_aws_lambda_tel.Service.Queue.{
  Ready, idle, refused, ready, Progress, finished, stopped, continues, is_init_start,
  started_request, buffer, handle_one, handle_events, handle_degraded, process_in_degraded_mode,
  give_spans, begin_invocation, next_invocation, current_invocation, restart_init, started,
  before_init, conclude_init, during_init, after_init, take_event, iterate,
}

-- All the events that came, in their order: handed to the processor, half processed, and waiting.
abbrev pub arrivals : TelemetryServiceState → List LambdaTelemetry
arrivals s = s.handled ++ (s.half_processed_event_buffer ++ s.telemetry_event_queue)

-- Once the initialisation is handled, no event is half processed.
pub record IsSettled (s : TelemetryServiceState) : Type 0 where
  pub begun : s.init_handled ≡ true → s.init_handling_started ≡ true
  pub unbuffered : s.init_handled ≡ true → s.half_processed_event_buffer ≡ []

-- the rounds that are left at most
abbrev pub weight : TelemetryServiceState → ℕ
weight s = length s.telemetry_event_queue + (if s.init_handled then 0 else 1)

-- The queues and flags are the same.
pub record IsAligned (s s' : TelemetryServiceState) : Type 0 where
  pub queue : s'.telemetry_event_queue ≡ s.telemetry_event_queue
  pub half : s'.half_processed_event_buffer ≡ s.half_processed_event_buffer
  pub begun : s'.init_handling_started ≡ s.init_handling_started
  pub over : s'.init_handled ≡ s.init_handled

IsAligned-refl : (s : TelemetryServiceState) → IsAligned s s
IsAligned-refl s = record { queue = refl; half = refl; begun = refl; over = refl }

IsAligned-trans : (a b c : TelemetryServiceState) → IsAligned a b → IsAligned b c → IsAligned a c
IsAligned-trans a b c h k = record {
  queue = k.queue ∙ h.queue;
  half = k.half ∙ h.half;
  begun = k.begun ∙ h.begun;
  over = k.over ∙ h.over;
}

-- No event waits, or there is no invocation that it could belong to.
abbrev pub IsDrained : TelemetryServiceState → Type 0
IsDrained s =
    (s.telemetry_event_queue ≡ []) ⊎ ((s.invocation_state ≡ none) × (s.invoke_event_queue ≡ []))

-- What a round that does not fail keeps.
abbrev pub IsKept : TelemetryServiceState → TelemetryServiceState → Type 0
IsKept s s' = (arrivals s' ≡ arrivals s) × IsSettled s'

abbrev pub IsRound : TelemetryServiceState → Progress → TelemetryServiceState → Type 0
IsRound s finished s' = IsKept s s' × IsDrained s'
IsRound s (stopped reason) s' = IsSettled s'
IsRound s (continues d) s' = (weight s' < weight s) × IsKept s s'

abbrev pub IsHandedOver :
    List LambdaTelemetry → TelemetryServiceState → Option Error → TelemetryServiceState → Type 0
IsHandedOver es s none s' = IsAligned s s' × (s'.handled ≡ s.handled ++ es)
IsHandedOver es s (some reason) s' = IsAligned s s'

abbrev IsReady : TelemetryServiceState → Ready → Type 0
IsReady s idle = (s.invocation_state ≡ none) × (s.invoke_event_queue ≡ [])
IsReady s (refused reason s') = IsAligned s s'
IsReady s (ready inv s') = IsAligned s s' × (s'.handled ≡ s.handled)

-- the state before the event was taken from the queue
abbrev unpop : LambdaTelemetry → TelemetryServiceState → TelemetryServiceState
unpop e s = record s { telemetry_event_queue = e ∷ s.telemetry_event_queue }

extend :
    (e : LambdaTelemetry) (es : List LambdaTelemetry) (s s1 : TelemetryServiceState)
    → IsAligned s s1
    → s1.handled ≡ s.handled ++ e ∷ []
    → (x : Option Error) (s' : TelemetryServiceState) → IsHandedOver es s1 x s'
    → IsHandedOver (e ∷ es) s x s'
extend e es s s1 a h none s' (b, k) = (
  IsAligned-trans s s1 s' a b,
  k ∙ ap (λ (l : List LambdaTelemetry). l ++ es) h ∙ append_assoc s.handled (e ∷ []) es,
)
extend e es s s1 a h (some reason) s' k = IsAligned-trans s s1 s' a k

-- An event that is put into the buffer, after the events before it were buffered or handled.
buffer-IsRound :
    (e : LambdaTelemetry) (s s' : TelemetryServiceState)
    → s.init_handled ≡ false
    → s'.init_handled ≡ false
    → s'.telemetry_event_queue ≡ s.telemetry_event_queue
    → s'.handled ++ s'.half_processed_event_buffer ≡ s.handled ++ s.half_processed_event_buffer
    → IsRound (unpop e s) (continues false) (buffer e s')
buffer-IsRound e s s' early early' queue seen = (
  rw (early, early', queue) (omega arith),
  (
    rw (queue, append_assoc s'.half_processed_event_buffer (e ∷ []) s.telemetry_event_queue)
        (sym (append_assoc s'.handled s'.half_processed_event_buffer (e ∷ s.telemetry_event_queue))
          ∙ ap (λ (l : List LambdaTelemetry). l ++ e ∷ s.telemetry_event_queue) seen
          ∙ append_assoc s.handled s.half_processed_event_buffer (e ∷ s.telemetry_event_queue)),
    record {
      begun = λ h. absurd (open_closed s' early' h);
      unbuffered = λ h. absurd (open_closed s' early' h);
    },
  ),
)
  where
    open_closed : (t : TelemetryServiceState) → t.init_handled ≡ false → t.init_handled ≡ true → ⊥
    open_closed t h k = cc

-- The event of a round is put into the buffer of the handled state.
restarted :
    (e : LambdaTelemetry) (s s' : TelemetryServiceState)
    → s.init_handled ≡ false
    → IsAligned (record s { half_processed_event_buffer = [] }) s'
    → s'.handled ≡ s.handled ++ s.half_processed_event_buffer
    → IsRound (unpop e s) (continues false) (buffer e s')
restarted e s s' early a h =
    buffer-IsRound e s s' early (a.over ∙ early) a.queue (rw a.half (append-nil s'.handled ∙ h))

-- The cases of a test, for a predicate on its result.
pub if_cases :
    {A : Type 0} (P : A → Type 0) (b : Bool) (t f : A)
    → (b ≡ true → P t)
    → (b ≡ false → P f)
    → P (if b then t else f)
if_cases P true t f h k = h refl
if_cases P false t f h k = k refl

-- A round may be counted from an aligned state.
IsRound-IsAligned-refl :
    (s s1 : TelemetryServiceState)
    → IsAligned s s1
    → s1.handled ≡ s.handled
    → (p : Progress) (s' : TelemetryServiceState) → IsRound s1 p s'
    → IsRound s p s'
IsRound-IsAligned-refl s s1 a h finished s' ((k, l), w) = ((k ∙ arrivals_aligned s s1 a h, l), w)
  where
    arrivals_aligned :
        (s s1 : TelemetryServiceState)
        → IsAligned s s1
        → s1.handled ≡ s.handled
        → arrivals s1 ≡ arrivals s
    arrivals_aligned s s1 a h = rw (h, a.half, a.queue) refl
IsRound-IsAligned-refl s s1 a h (stopped reason) s' k = k
IsRound-IsAligned-refl s s1 a h (continues d) s' (w, (k, l)) = (
  subst (λ (n : ℕ). weight s' < n) (rw (a.queue, a.over) refl) w,
  (k ∙ rw (h, a.half, a.queue) refl, l),
)

-- What the beginning of an invocation makes ready.
abbrev IsBegun : TelemetryServiceState → Ready → Type 0
IsBegun s idle = ⊥
IsBegun s (refused reason s') = IsAligned s s'
IsBegun s (ready inv s') = IsAligned s s' × (s'.handled ≡ s.handled)

IsBegun-IsAligned-refl :
    (s s1 : TelemetryServiceState)
    → IsAligned s s1
    → s1.handled ≡ s.handled
    → (r : Ready) → IsBegun s1 r
    → IsBegun s r
IsBegun-IsAligned-refl s s1 a h idle k = k
IsBegun-IsAligned-refl s s1 a h (refused reason s') k = IsAligned-trans s s1 s' a k
IsBegun-IsAligned-refl s s1 a h (ready inv s') (b, k) = (IsAligned-trans s s1 s' a b, k ∙ h)

begun-IsReady : (s : TelemetryServiceState) (r : Ready) → IsBegun s r → IsReady s r
begun-IsReady s idle k = absurd k
begun-IsReady s (refused reason s') k = k
begun-IsReady s (ready inv s') k = k

pub early-IsSettled : (s : TelemetryServiceState) → s.init_handled ≡ false → IsSettled s
early-IsSettled s h = record { begun = λ k. cc; unbuffered = λ k. cc }

started-IsRound :
    (s : TelemetryServiceState) (p : Progress) (s' : TelemetryServiceState)
    → IsRound s p s'
    → let (p', s'') = started (p, s') in IsRound s p' s''
unfolding started
started-IsRound s finished s' k = k
started-IsRound s (stopped reason) s' k = k
started-IsRound s (continues d) s' (w, (k, l)) =
    (w, (k, record { begun = λ _. refl; unbuffered = l.unbuffered }))

IsSettled-IsAligned-refl :
    (s s1 : TelemetryServiceState) → IsAligned s s1 → IsSettled s → IsSettled s1
IsSettled-IsAligned-refl s s1 a h = record {
  begun = λ e. a.begun ∙ h.begun (sym a.over ∙ e);
  unbuffered = λ e. a.half ∙ h.unbuffered (sym a.over ∙ e);
}

module _ (setting : Setting) where
  handle_events-IsHandedOver :
      (es : List LambdaTelemetry) (inv : InvocationProcessingState) (s : TelemetryServiceState)
      → let (x, s') = handle_events setting es inv s in IsHandedOver es s x s'
  unfolding handle_events
  handle_events-IsHandedOver [] inv s = (IsAligned-refl s, sym (append-nil s.handled))
  handle_events-IsHandedOver (e ∷ es) inv s =
      let r = handle_one setting e inv s in
      elim (Option-cases r.0) [
        | inl h ↦
            rw (IsHandedOver, handle_events, h)
              (extend e es s r.2 (record { queue = refl; half = refl; begun = refl; over = refl })
                refl _ _ (handle_events-IsHandedOver es r.1 r.2))
        | inr (reason, h) ↦
            rw (IsHandedOver, handle_events, h)
              (record { queue = refl; half = refl; begun = refl; over = refl })
      ]

  pub handle_degraded-IsHandedOver :
      (es : List LambdaTelemetry) (d : DegradedProcessingState) (s : TelemetryServiceState)
      → let (x, s') = handle_degraded setting es d s in IsHandedOver es s x s'
  unfolding handle_degraded
  handle_degraded-IsHandedOver [] d s = (IsAligned-refl s, sym (append-nil s.handled))
  handle_degraded-IsHandedOver (e ∷ es) d s =
      let r =
        setting.processor.process_telemetry_in_degraded_mode e d s.metrics_state s.output_buffers in
      let s1 : TelemetryServiceState = record s {
        metrics_state = r.2;
        output_buffers = r.3;
        handled = s.handled ++ e ∷ [];
      } in
      elim (Option-cases r.0) [
        | inl h ↦
            rw (IsHandedOver, handle_degraded, h)
              (extend e es s s1 (record { queue = refl; half = refl; begun = refl; over = refl })
                refl _ _ (handle_degraded-IsHandedOver es r.1 s1))
        | inr (reason, h) ↦
            rw (IsHandedOver, handle_degraded, h)
              (record { queue = refl; half = refl; begun = refl; over = refl })
      ]

  give_spans-IsBegun :
      (e : InvokeEventDataWithSpans) (inv : InvocationProcessingState) (s : TelemetryServiceState)
      → IsBegun s (give_spans setting e inv s)
  unfolding give_spans
  give_spans-IsBegun e inv s =
      let r =
        setting.processor.process_function_spans inv s.function_spans_buffer s.output_buffers in
      let q = setting.processor.process_function_spans r.1 e.spans r.2 in
      elim (Option-cases r.0) [
        | inr (reason, h) ↦
            rw (IsBegun, h) (record { queue = refl; half = refl; begun = refl; over = refl })
        | inl h ↦ elim (Option-cases q.0) [
          | inr (reason, k) ↦
              rw (IsBegun, h, k) (record { queue = refl; half = refl; begun = refl; over = refl })
          | inl k ↦
              rw (IsBegun, h, k)
                (record { queue = refl; half = refl; begun = refl; over = refl }, refl)
        ]
      ]

  restart_init-IsRound :
      (e : LambdaTelemetry) (inv : InvocationProcessingState) (s : TelemetryServiceState)
      → s.init_handled ≡ false
      → let (p, s') = restart_init setting e inv s in IsRound (unpop e s) p s'
  unfolding restart_init process_in_degraded_mode
  restart_init-IsRound e inv s early =
      let s0 : TelemetryServiceState = record s {
        half_processed_event_buffer = [];
        draws = s.draws + 2;
      } in
      let d =
        new_degraded_state (random_trace_id setting.rng s.draws)
          (random_span_id setting.rng (s.draws + 1)) inv.function_context in
      let r = handle_degraded setting s.half_processed_event_buffer d s0 in
      elim (Option-cases r.0) [
        | inr (reason, h) ↦
            let a =
              subst (λ (x : Option Error). IsHandedOver s.half_processed_event_buffer s0 x r.1) h
                (handle_degraded-IsHandedOver s.half_processed_event_buffer d s0) in
            rw (IsRound, restart_init, process_in_degraded_mode, h)
              (early-IsSettled r.1 (a.over ∙ early))
        | inl h ↦
            let (a, k) =
              subst (λ (x : Option Error). IsHandedOver s.half_processed_event_buffer s0 x r.1) h
                (handle_degraded-IsHandedOver s.half_processed_event_buffer d s0) in
            rw (IsRound, restart_init, process_in_degraded_mode, h)
              (restarted e s r.1 early
                (record { queue = a.queue; half = a.half; begun = a.begun; over = a.over }) k)
      ]

  begin_invocation-IsBegun :
      (e : InvokeEventDataWithSpans) (s : TelemetryServiceState)
      → IsBegun s (begin_invocation setting e s)
  unfolding begin_invocation
  begin_invocation-IsBegun e s =
      go (make_invocation_context setting.rng setting.parse_xray s.draws e)
    where
      go :
          (r : Result InvocationContext)
          → IsBegun s (elim r [
            | err reason ↦ refused reason (record s { draws = s.draws + 3 })
            | ok context ↦
                give_spans setting e
                  (new_invocation_state
                    (random_span_id setting.rng (s.draws + 2))
                    e.function_context
                    context
                    setting.config.processor_config.trace_sampling_mode
                    setting.config.processor_config.tracing_mode)
                  (record s { draws = s.draws + 3 })
          ])
      go (err reason) = record { queue = refl; half = refl; begun = refl; over = refl }
      go (ok context) =
          IsBegun-IsAligned-refl s (record s { draws = s.draws + 3 })
            (record { queue = refl; half = refl; begun = refl; over = refl }) refl
            (give_spans setting e
              (new_invocation_state (random_span_id setting.rng (s.draws + 2)) e.function_context
                context setting.config.processor_config.trace_sampling_mode
                setting.config.processor_config.tracing_mode)
              (record s { draws = s.draws + 3 }))
            (give_spans-IsBegun e _ (record s { draws = s.draws + 3 }))

  current_invocation-IsReady :
      (s : TelemetryServiceState) → IsReady s (current_invocation setting s)
  unfolding current_invocation
  current_invocation-IsReady s = go s.invocation_state refl s.invoke_event_queue refl
    where
      go :
          (o : Option InvocationProcessingState)
          → s.invocation_state ≡ o
          → (q : List InvokeEventDataWithSpans) → s.invoke_event_queue ≡ q
          → IsReady s (elim o [ some inv ↦ ready inv s | none ↦ next_invocation setting q s ])
      go (some inv) h q k = (IsAligned-refl s, refl)
      go none h [] k = (h, k)
      go none h (e ∷ q) k =
          let s1 : TelemetryServiceState = record s { invoke_event_queue = q } in
          begun-IsReady s (begin_invocation setting e s1) (
            IsBegun-IsAligned-refl s s1
              (record { queue = refl; half = refl; begun = refl; over = refl }) refl
              (begin_invocation setting e s1) (begin_invocation-IsBegun e s1))

  before_init-IsRound :
      (e : LambdaTelemetry) (inv : InvocationProcessingState) (s : TelemetryServiceState)
      → s.init_handled ≡ false
      → let (p, s') = before_init setting e inv s in IsRound (unpop e s) p s'
  unfolding before_init
  before_init-IsRound e inv s early =
      if_cases (λ (r : Progress × TelemetryServiceState). IsRound (unpop e s) r.0 r.1)
        (not (is_init_start e.event)) _ _ (λ _. buffer-IsRound e s s early early refl refl)
        (λ _.
          if_cases (λ (r : Progress × TelemetryServiceState). IsRound (unpop e s) r.0 r.1)
            (is_empty s.half_processed_event_buffer) _ _
            (λ _.
              started-IsRound (unpop e s) (continues false) (buffer e s)
                (buffer-IsRound e s s early early refl refl))
            (λ _.
              let r = restart_init setting e inv s in
              started-IsRound (unpop e s) r.0 r.1 (restart_init-IsRound e inv s early)))

  conclude_init-IsRound :
      (e : LambdaTelemetry) (inv : InvocationProcessingState) (s : TelemetryServiceState)
      → s.init_handled ≡ false
      → s.init_handling_started ≡ true
      → let (p, s') = conclude_init setting e inv s in IsRound (unpop e s) p s'
  unfolding conclude_init
  conclude_init-IsRound e inv s early begun =
      let s1 : TelemetryServiceState = record s {
        init_handled = true;
        telemetry_event_queue = e ∷ s.telemetry_event_queue;
        half_processed_event_buffer = [];
      } in
      let r = handle_events setting s.half_processed_event_buffer inv s1 in
      elim (Option-cases r.0) [
        | inr (reason, h) ↦
            let a =
              subst (λ (x : Option Error). IsHandedOver s.half_processed_event_buffer s1 x r.1) h
                (handle_events-IsHandedOver s.half_processed_event_buffer inv s1) in
            rw (IsRound, conclude_init, h)
              (record { begun = λ _. a.begun ∙ begun; unbuffered = λ _. a.half })
        | inl h ↦
            let (a, k) =
              subst (λ (x : Option Error). IsHandedOver s.half_processed_event_buffer s1 x r.1) h
                (handle_events-IsHandedOver s.half_processed_event_buffer inv s1) in
            rw (IsRound, conclude_init, h)
              (
                rw (a.queue, a.over, early) (omega arith),
                (
                  rw (k, a.half, a.queue)
                      (append_assoc s.handled s.half_processed_event_buffer
                        (e ∷ s.telemetry_event_queue)),
                  record { begun = λ _. a.begun ∙ begun; unbuffered = λ _. a.half },
                ),
              )
      ]

  during_init-IsRound :
      (e : LambdaTelemetry) (inv : InvocationProcessingState) (s : TelemetryServiceState)
      → s.init_handled ≡ false
      → s.init_handling_started ≡ true
      → let (p, s') = during_init setting e inv s in IsRound (unpop e s) p s'
  unfolding during_init
  during_init-IsRound e inv s early begun = elim (Bool-cases (is_init_start e.event)) [
    | inl first ↦ rw (IsRound, during_init, first) (restart_init-IsRound e inv s early)
    | inr other ↦ elim (Option-cases (started_request e.event)) [
      | inl h ↦ rw (IsRound, during_init, other, h) (buffer-IsRound e s s early early refl refl)
      | inr (request_id, h) ↦
          elim (Bool-cases (str_eq request_id inv.invocation_context.request_id)) [
            | inl same ↦
                rw (IsRound, during_init, other, h, same)
                  (conclude_init-IsRound e inv s early begun)
            | inr different ↦
                rw (IsRound, during_init, other, h, different)
                  (buffer-IsRound e s s early early refl refl)
          ]
    ]
  ]

  handled_round :
      (e : LambdaTelemetry) (s s' : TelemetryServiceState)
      → s.init_handled ≡ true
      → IsSettled s
      → IsAligned s s'
      → s'.handled ≡ s.handled ++ e ∷ []
      → (weight s' < weight (unpop e s)) × IsKept (unpop e s) s'
  handled_round e s s' over settled a h = (
    rw (a.queue, a.over) (omega arith),
    (
      rw (h, a.half, a.queue, settled.unbuffered over)
          (append_assoc s.handled (e ∷ []) s.telemetry_event_queue),
      IsSettled-IsAligned-refl s s' a settled,
    ),
  )

  after_init-IsRound :
      (e : LambdaTelemetry) (inv : InvocationProcessingState) (s : TelemetryServiceState)
      → s.init_handled ≡ true
      → IsSettled s
      → let (p, s') = after_init setting e inv s in IsRound (unpop e s) p s'
  unfolding after_init handle_one
  after_init-IsRound e inv s over settled =
      let r = handle_one setting e inv s in
      elim (Option-cases r.0) [
        | inr (reason, h) ↦
            rw (IsRound, after_init, handle_one, h)
              (IsSettled-IsAligned-refl s r.2
                (record { queue = refl; half = refl; begun = refl; over = refl }) settled)
        | inl h ↦ elim (Bool-cases (is_some r.1.report_data)) [
          | inl reported ↦
              rw (IsRound, after_init, handle_one, h, reported)
                (handled_round e s (record r.2 { invocation_state = none }) over settled
                  (record { queue = refl; half = refl; begun = refl; over = refl }) refl)
          | inr unreported ↦
              rw (IsRound, after_init, handle_one, h, unreported)
                (handled_round e s r.2 over settled
                  (record { queue = refl; half = refl; begun = refl; over = refl }) refl)
        ]
      ]

  take_event-IsRound :
      (q : List LambdaTelemetry) (inv : InvocationProcessingState) (s : TelemetryServiceState)
      → IsSettled (record s { telemetry_event_queue = q })
      → let (p, s') = take_event setting q inv (record s { telemetry_event_queue = q }) in
        IsRound (record s { telemetry_event_queue = q }) p s'
  unfolding take_event
  take_event-IsRound [] inv s h = ((refl, h), inl refl)
  take_event-IsRound (e ∷ q) inv s h =
      let s' : TelemetryServiceState = record s { telemetry_event_queue = q } in
      if_cases (λ (r : Progress × TelemetryServiceState). IsRound (unpop e s') r.0 r.1)
        (not s.init_handling_started) _ _
        (λ unbegun. before_init-IsRound e inv s' (elim (Bool-cases s.init_handled) [
          | inl over ↦ cc (h.begun over, unbegun)
          | inr early ↦ early
        ]))
        (λ begun.
          if_cases (λ (r : Progress × TelemetryServiceState). IsRound (unpop e s') r.0 r.1)
            (not s.init_handled) _ _
            (λ early. during_init-IsRound e inv s' (ground (arith, early)) (ground (arith, begun)))
            (λ over.
              after_init-IsRound e inv s' (ground (arith, over))
                (record { begun = h.begun; unbuffered = h.unbuffered })))

  pub iterate-IsRound :
      (s : TelemetryServiceState) → IsSettled s → let (p, s') = iterate setting s in IsRound s p s'
  unfolding iterate
  iterate-IsRound s h = go (current_invocation setting s) (current_invocation-IsReady s)
    where
      go :
          (r : Ready)
          → IsReady s r
          → let result : Progress × TelemetryServiceState = elim r [
            | idle ↦ (finished, s)
            | refused reason s' ↦ (stopped reason, s')
            | ready inv s' ↦ take_event setting s'.telemetry_event_queue inv s'
          ] in
            IsRound s result.0 result.1
      go idle k = ((refl, h), inr k)
      go (refused reason s') a = IsSettled-IsAligned-refl s s' a h
      go (ready inv s') (a, k) =
          IsRound-IsAligned-refl s s' a k _ _
            (take_event-IsRound s'.telemetry_event_queue inv s' (IsSettled-IsAligned-refl s s' a h))
