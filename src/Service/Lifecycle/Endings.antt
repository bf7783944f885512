-- ===== src/Service/Lifecycle/Endings.antt =====
-- src/telemetry/telemetry_service.rs: the end of an invocation, and the time left for the shutdown.
use coralogix_aws_lambda_tel.Prelude.{
  ℕ, suc, ◌≤◌, ◌<◌, ◌≡◌, refl, sym, ap, ◌∙◌, subst, ◌↔◌, ◌⊎◌, inl, inr, Bool, true, false, ◌||◌,
  none, some, List, [], ◌∷◌, ◌++◌, append_assoc, append-nil, arith,
}
use coralogix_aws_lambda_tel.Prelude.{if◌then◌else◌}
use coralogix_aws_lambda_tel.Prelude.{u64_mod, FloatOps}
use coralogix_aws_lambda_tel.Proto.{Span}
use coralogix_aws_lambda_tel.Config.{send_after_invocation}
use coralogix_aws_lambda_tel.Processing.State.{FunctionContext}
use coralogix_aws_lambda_tel.Service.State.{
  OutputBuffers, Signal, should_send_signal, invocation_done_signal, TelemetryServiceState, Setting,
}
use coralogix_aws_lambda_tel.OtelMetrics.TimeSeriesId.{ValueFormat}
use coralogix_aws_lambda_tel.Processing.State.{FunctionContext}
use coralogix_aws_lambda_tel.Senders.Pillars.{TelemetryBatch}
use coralogix_aws_lambda_tel.Events.{ok}
use coralogix_aws_lambda_tel.Service.Sending.{
  send_telemetry, records_in, spans_in, scoped_spans, IsFlushed, send_telemetry-flushes,
}
use coralogix_aws_lambda_tel.Service.Signals.{
  should_send_by_now, signal_should_send, signal_invocation_done, after_processing,
}
use coralogix_aws_lambda_tel.Service.Lifecycle.{
  Phase, finished, sleep_for, send_when, send_if_due, await_signals, resume_invoke_event,
}

-- what a list of batches holds
abbrev pub gathered : {A : Type 0} → (TelemetryBatch → List A) → List TelemetryBatch → List A
gathered part [] = []
gathered part (b ∷ bs) = part b ++ gathered part bs

gathered-append :
    {A : Type 0} (part : TelemetryBatch → List A) (xs ys : List TelemetryBatch)
    → gathered part (xs ++ ys) ≡ gathered part xs ++ gathered part ys
gathered-append part [] ys = refl
gathered-append part (x ∷ xs) ys =
    ap (λ l. part x ++ l) (gathered-append part xs ys)
    ∙ sym (append_assoc (part x) (gathered part xs) (gathered part ys))

-- no signal of an ended invocation is left in the channel
abbrev pub no_invocation_done : List Signal → Bool
no_invocation_done [] = true
no_invocation_done (invocation_done_signal ∷ r) = false
no_invocation_done (should_send_signal ∷ r) = no_invocation_done r

abbrev pub spans_of : OutputBuffers → List Span
spans_of o = scoped_spans o.function_spans_buffer ++ o.spans_buffer

-- nothing waits to be sent
record IsIdle (s : TelemetryServiceState) : Type 0 where
  flushed : IsFlushed s.output_buffers
  not_due : s.should_send ≡ false
  no_time : s.should_send_by ≡ none

-- what is sent between two states, the second of which has nothing left
record AllSent (s : TelemetryServiceState) (batches : List TelemetryBatch)
    (s' : TelemetryServiceState) : Type 0 where
  logs_sent : gathered (λ b. records_in b.logs) batches ≡ s.output_buffers.logs_buffer
  spans_sent : gathered (λ b. spans_in b.spans) batches ≡ spans_of s.output_buffers
  idle : IsIdle s'

-- Nothing is sent of what is idle, which leaves it so.
idle-AllSent : (s : TelemetryServiceState) → IsIdle s → AllSent s [] s
idle-AllSent s i =
    let (logs, spans, scopes, _, _) = i.flushed in
    record {
      logs_sent = sym logs;
      spans_sent = sym (ap (λ l. scoped_spans l ++ s.output_buffers.spans_buffer) scopes ∙ spans);
      idle = i;
    }

-- What an idle state sends later adds nothing.
then-AllSent :
    (s s1 s2 : TelemetryServiceState) (xs ys : List TelemetryBatch)
    → AllSent s xs s1
    → AllSent s1 ys s2
    → AllSent s (xs ++ ys) s2
then-AllSent s s1 s2 xs ys a b =
    let (logs, spans, scopes, _, _) = (a.idle).flushed in
    let no_spans = ap (λ l. scoped_spans l ++ s1.output_buffers.spans_buffer) scopes ∙ spans in
    record {
      logs_sent =
          gathered-append (λ x. records_in x.logs) xs ys
          ∙ ap (λ l. gathered (λ x. records_in x.logs) xs ++ l) (b.logs_sent ∙ logs)
          ∙ append-nil (gathered (λ x. records_in x.logs) xs)
          ∙ a.logs_sent;
      spans_sent =
          gathered-append (λ x. spans_in x.spans) xs ys
          ∙ ap (λ l. gathered (λ x. spans_in x.spans) xs ++ l) (b.spans_sent ∙ no_spans)
          ∙ append-nil (gathered (λ x. spans_in x.spans) xs)
          ∙ a.spans_sent;
      idle = b.idle;
    }

without_signals-AllSent :
    {s : TelemetryServiceState} {xs : List TelemetryBatch} (s1 : TelemetryServiceState)
    → AllSent s xs s1
    → AllSent s xs (record s1 { signals = [] })
without_signals-AllSent s1 a = record {
  logs_sent = a.logs_sent;
  spans_sent = a.spans_sent;
  idle = record {
    flushed = (a.idle).flushed;
    not_due = (a.idle).not_due;
    no_time = (a.idle).no_time;
  };
}

module _ (setting : Setting) (fl : FloatOps) (f : ValueFormat) (c : FunctionContext) where
  send_telemetry-AllSent :
      (s : TelemetryServiceState)
      → let (batch, s') = send_telemetry setting.config.processor_config fl f c s in
        AllSent s (batch ∷ []) s'
  send_telemetry-AllSent s =
      let (logs, spans, _, flushed, not_due, no_time) =
        send_telemetry-flushes setting.config.processor_config fl f c s in
      record {
        logs_sent = append-nil _ ∙ logs;
        spans_sent = append-nil _ ∙ spans;
        idle = record { flushed = flushed; not_due = not_due; no_time = no_time };
      }

  -- Where a sending was asked for, or nothing waits, the check leaves nothing to send.
  send_when-AllSent :
      (due : Bool) (s : TelemetryServiceState)
      → (due ≡ true) ⊎ IsIdle s
      → AllSent s (send_when setting fl f c due s).0 (send_when setting fl f c due s).1
  unfolding send_when
  send_when-AllSent true s k = send_telemetry-AllSent s
  send_when-AllSent false s (inl e) = absurd (cc e)
  send_when-AllSent false s (inr idle) = idle-AllSent s idle

  send_if_due-AllSent :
      (now : ℕ) (s : TelemetryServiceState)
      → (s.should_send ≡ true) ⊎ IsIdle s
      → AllSent s (send_if_due setting fl f c now s).0 (send_if_due setting fl f c now s).1
  unfolding send_if_due
  send_if_due-AllSent now s (inl e) =
      send_when-AllSent (s.should_send || should_send_by_now now s) s
        (inl (ap (λ b. b || should_send_by_now now s) e))
  send_if_due-AllSent now s (inr idle) =
      send_when-AllSent (s.should_send || should_send_by_now now s) s (inr idle)

  await_signals-AllSent :
      (clock : ℕ → ℕ) (n : ℕ) (before : List Signal) (s : TelemetryServiceState)
      → no_invocation_done before ≡ true
      → (s.should_send ≡ true) ⊎ IsIdle s
      → let (phase, batches, s') =
          await_signals setting fl f c clock n
            (before ++ should_send_signal ∷ invocation_done_signal ∷ [])
            s in
        (phase ≡ finished) × AllSent s batches s' × (s'.signals ≡ [])
  unfolding await_signals
  await_signals-AllSent clock n [] s h k =
      let a = send_if_due-AllSent (clock n) s k in
      (refl, then-AllSent s _ _ _ [] a (without_signals-AllSent _ (idle-AllSent _ a.idle)), refl)
  await_signals-AllSent clock n (should_send_signal ∷ r) s h k =
      let a = send_if_due-AllSent (clock n) s k in
      let (ended, later, none_left) = await_signals-AllSent clock (suc n) r _ h (inr a.idle) in
      (ended, then-AllSent s _ _ _ _ a later, none_left)
  await_signals-AllSent clock n (invocation_done_signal ∷ r) s h k = absurd (cc h)

  -- All that a state had buffered is sent, and the handler's loop has ended.
  abbrev EndsWith :
      TelemetryServiceState → Phase × List TelemetryBatch × TelemetryServiceState → Type 0
  EndsWith s r =
      (r.0 ≡ finished)
      × (gathered (λ b. records_in b.logs) r.1 ≡ s.output_buffers.logs_buffer)
      × (gathered (λ b. spans_in b.spans) r.1 ≡ spans_of s.output_buffers)
      × IsFlushed r.2.output_buffers
      × (r.2.should_send ≡ false)
      × (r.2.should_send_by ≡ none)
      × (r.2.signals ≡ [])

  after_processing-done :
      (s : TelemetryServiceState)
      → send_after_invocation setting.config.reporting_strategy ≡ true
      → after_processing setting (ok true) s ≡ signal_invocation_done (signal_should_send s)
  unfolding after_processing
  after_processing-done s after =
      ap (λ (b : Bool). signal_invocation_done (if b then signal_should_send s else s)) after

  done-EndsWith :
      (clock : ℕ → ℕ) (s : TelemetryServiceState)
      → no_invocation_done s.signals ≡ true
      → EndsWith s
          (resume_invoke_event setting fl f c clock (signal_invocation_done (signal_should_send s)))
  unfolding resume_invoke_event signal_should_send signal_invocation_done
  done-EndsWith clock s h =
      let ended = signal_invocation_done (signal_should_send s) in
      let (over, sent, none_left) = await_signals-AllSent clock 0 s.signals ended h (inl refl) in
      subst (λ l. EndsWith s (await_signals setting fl f c clock 0 l ended))
        (sym (append_assoc s.signals (should_send_signal ∷ []) (invocation_done_signal ∷ [])))
        (
          over,
          sent.logs_sent,
          sent.spans_sent,
          (sent.idle).flushed,
          (sent.idle).not_due,
          (sent.idle).no_time,
          none_left,
        )

  -- With a strategy that sends after an invocation: once the end of the runtime was processed, and where no signal
  -- of an ended invocation was left, the handler of the invoke event that waits ends its loop. What it has sent is
  -- all that was buffered, the logs and the spans in their order, and nothing is left: no record, no time and no signal.
  pub resume_invoke_event-sends :
      (clock : ℕ → ℕ) (s : TelemetryServiceState)
      → send_after_invocation setting.config.reporting_strategy ≡ true
      → no_invocation_done s.signals ≡ true
      → let (phase, batches, s') =
          resume_invoke_event setting fl f c clock (after_processing setting (ok true) s) in
        (phase ≡ finished)
        × (gathered (λ b. records_in b.logs) batches ≡ s.output_buffers.logs_buffer)
        × (gathered (λ b. spans_in b.spans) batches ≡ spans_of s.output_buffers)
        × IsFlushed s'.output_buffers
        × (s'.should_send ≡ false)
        × (s'.should_send_by ≡ none)
        × (s'.signals ≡ [])
  resume_invoke_event-sends clock s after h =
      subst (λ t. EndsWith s (resume_invoke_event setting fl f c clock t))
        (sym (after_processing-done s after)) (done-EndsWith clock s h)

-- The sleep before the last moment of a shutdown is no longer than the time left exactly where at least 50
-- milliseconds are left; where less is left, the subtraction wraps around, and the sleep is longer.
pub sleep_for-bounds :
    (remaining : ℕ)
    → remaining < u64_mod
    → (50 ≤ remaining) ↔ (sleep_for (some remaining) ≤ remaining)
unfolding sleep_for
sleep_for-bounds r h = ground arith
