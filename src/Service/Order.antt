-- ===== src/Service/Order.antt =====
-- src/telemetry/telemetry_service.rs: the events are processed once each, in the order in which they
-- come, and the loop over them ends.
use coralogix_aws_lambda_tel.Prelude.{
  ℕ, zero, suc, ◌+◌, ◌<◌, ◌≡◌, refl, ◌∙◌, subst, Bool, false, ◌||◌, Option, some, arith,
}
use coralogix_aws_lambda_tel.Prelude.{length}
use coralogix_aws_lambda_tel.Events.{Result, ok, err}
use coralogix_aws_lambda_tel.Service.State.{TelemetryServiceState, Setting}
use coralogix_aws_lambda_tel.Service.Queue.{
  Progress, finished, stopped, continues, iterate, process_loop, process_telemetry_events,
}
use coralogix_aws_lambda_tel.Service.Rounds.{
  arrivals, IsSettled, IsDrained, weight, IsKept, IsRound, iterate-IsRound,
}

abbrev IsOutcome : TelemetryServiceState → Result Bool → TelemetryServiceState → Type 0
IsOutcome s (ok d) s' = IsKept s s' × IsDrained s'
IsOutcome s (err reason) s' = IsSettled s'

IsOutcome-after :
    (s s' : TelemetryServiceState)
    → arrivals s' ≡ arrivals s
    → (r : Result Bool) (s'' : TelemetryServiceState) → IsOutcome s' r s''
    → IsOutcome s r s''
IsOutcome-after s s' k (ok d) s'' ((a, b), c) = ((a ∙ k, b), c)
IsOutcome-after s s' k (err reason) s'' o = o

outcome-IsSettled :
    (s : TelemetryServiceState) (r : Result Bool) (s' : TelemetryServiceState)
    → IsOutcome s r s'
    → IsSettled s'
outcome-IsSettled s (ok d) s' ((a, b), c) = b
outcome-IsSettled s (err reason) s' o = o

module _ (setting : Setting) where
  process_loop-IsOutcome :
      (n : ℕ) (invocation_done : Bool) (s : TelemetryServiceState)
      → IsSettled s
      → weight s < n
      → (r : Result Bool) × (s' : TelemetryServiceState) × (process_loop setting n invocation_done s
          ≡ some (r, s'))
        × IsOutcome s r s'
  unfolding process_loop
  process_loop-IsOutcome zero invocation_done s h w = absurd (omega (arith, w))
  process_loop-IsOutcome (suc n) invocation_done s h w =
      go (λ d s' l less. process_loop-IsOutcome n (invocation_done || d) s' l less)
        (iterate setting s).0 (iterate setting s).1 (iterate-IsRound setting s h)
    where
      go :
          ((d : Bool) (s' : TelemetryServiceState)
            → IsSettled s'
            → weight s' < n
            → (r : Result Bool) × (s'' : TelemetryServiceState) × (process_loop setting n
                  (invocation_done || d)
                  s'
                ≡ some (r, s''))
              × IsOutcome s' r s'')
          → (p : Progress) (s' : TelemetryServiceState) → IsRound s p s'
          → (r : Result Bool) × (s'' : TelemetryServiceState) × (◌≡◌
              {A = Option (Result Bool × TelemetryServiceState)}
              (elim p [
                | finished ↦ some (ok invocation_done, s')
                | stopped reason ↦ some (err reason, s')
                | continues d ↦ process_loop setting n (invocation_done || d) s'
              ])
              (some (r, s'')))
            × IsOutcome s r s''
      go rest finished s' k = (ok invocation_done, s', refl, k)
      go rest (stopped reason) s' k = (err reason, s', refl, k)
      go rest (continues d) s' (less, (k, l)) =
          let (r, s'', e, o) = rest d s' l (omega (arith, less, w)) in
          (r, s'', e, IsOutcome-after s s' k r s'' o)

  weight-lt : (s : TelemetryServiceState) → weight s < length s.telemetry_event_queue + 2
  weight-lt s = ground arith

  process_telemetry_events-IsOutcome :
      (s : TelemetryServiceState)
      → IsSettled s
      → let (r, s') = process_telemetry_events setting s in
        (process_loop setting (length s.telemetry_event_queue + 2) false s ≡ some (r, s'))
        × IsOutcome s r s'
  unfolding process_telemetry_events
  process_telemetry_events-IsOutcome s h =
      let (r, s', e, o) =
        process_loop-IsOutcome (length s.telemetry_event_queue + 2) false s h (weight-lt s) in
      rw (process_telemetry_events, e) (refl, o)

  -- The loop ends: in a state that is settled, a round for each waiting event and two more are enough.
  pub process_loop-total :
      (s : TelemetryServiceState)
      → IsSettled s
      → process_loop setting (length s.telemetry_event_queue + 2) false s
        ≡ some (process_telemetry_events setting s)
  process_loop-total s h = (process_telemetry_events-IsOutcome s h).0

  -- Processing the queues of a settled state leaves a settled state, whether it succeeds or fails.
  pub process_telemetry_events-IsSettled :
      (s : TelemetryServiceState) → IsSettled s → IsSettled (process_telemetry_events setting s).1
  process_telemetry_events-IsSettled s h =
      let (r, s') = process_telemetry_events setting s in
      outcome-IsSettled s r s' (process_telemetry_events-IsOutcome s h).1

  -- When processing the queues of a settled state succeeds, the events handed to the processor, those that
  -- are half processed and those that wait are together the events that came, in the order in
  -- which they came: none is lost, doubled or overtaken. Then no event waits, unless there is no invocation.
  pub process_telemetry_events-in_order :
      (s : TelemetryServiceState) (d : Bool)
      → IsSettled s
      → (process_telemetry_events setting s).0 ≡ ok d
      → let s' = (process_telemetry_events setting s).1 in (arrivals s' ≡ arrivals s) × IsDrained s'
  process_telemetry_events-in_order s d h e =
      let s' = (process_telemetry_events setting s).1 in
      let ((a, b), c) =
        subst (λ (r : Result Bool). IsOutcome s r s') e
          (process_telemetry_events-IsOutcome s h).1 in
      (a, c)
