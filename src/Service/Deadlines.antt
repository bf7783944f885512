-- ===== src/Service/Deadlines.antt =====
-- src/telemetry/telemetry_service.rs: a time by which the service has to send is not forgotten.
use coralogix_aws_lambda_tel.Prelude.{
  ℕ, ◌≤◌, ◌<◌, ◌≡◌, refl, inl, inr, Bool, true, false, ◌||◌, Option, none, some, List, [], ◌∷◌,
  ◌++◌, arith,
}
use coralogix_aws_lambda_tel.Prelude.{leb, ◌==◌, Bool-cases}
use coralogix_aws_lambda_tel.Prelude.{FloatOps}
use coralogix_aws_lambda_tel.Processing.State.{FunctionContext}
use coralogix_aws_lambda_tel.Service.State.{TelemetryServiceState, Setting}
use coralogix_aws_lambda_tel.OtelMetrics.TimeSeriesId.{ValueFormat}
use coralogix_aws_lambda_tel.Service.Sending.{send_telemetry, send_telemetry-flushes}
use coralogix_aws_lambda_tel.Service.Signals.{
  signal_should_send, is_due, should_send_by_now, signal_should_send_by, without, wake_up,
}

abbrev pub contains : ℕ → List ℕ → Bool
contains t [] = false
contains t (u ∷ us) = u == t || contains t us

-- A task will wake up at the time by which the service has to send.
abbrev is_watched : Option ℕ → List ℕ → Bool
is_watched none us = true
is_watched (some by) us = contains by us

abbrev pub IsWatched : TelemetryServiceState → Type 0
IsWatched s = is_watched s.should_send_by s.wake_ups ≡ true

-- The operations on the time by which the service has to send.
pub data Step (setting : Setting) (fl : FloatOps) (f : ValueFormat)
    : TelemetryServiceState → TelemetryServiceState → Type 0 where
  asked :
      (now time : ℕ) (s : TelemetryServiceState)
      → Step setting fl f s (signal_should_send_by now time s)
  woken :
      (now time : ℕ) (s : TelemetryServiceState)
      → time ≤ now
      → Step setting fl f s (wake_up now time s)
  sent :
      (c : FunctionContext) (s : TelemetryServiceState)
      → Step setting fl f s (send_telemetry setting.config.processor_config fl f c s).1

pub data Run (setting : Setting) (fl : FloatOps) (f : ValueFormat)
    : TelemetryServiceState → TelemetryServiceState → Type 0 where
  stay : (s : TelemetryServiceState) → Run setting fl f s s
  step :
      {s s' s'' : TelemetryServiceState}
      → Step setting fl f s s'
      → Run setting fl f s' s''
      → Run setting fl f s s''

contains-last : (t : ℕ) (us : List ℕ) → contains t (us ++ t ∷ []) ≡ true
contains-last t [] = ground arith
contains-last t (u ∷ us) = ground (arith, contains-last t us)

contains-without :
    (t by : ℕ) (us : List ℕ) → t < by → contains by us ≡ true → contains by (without t us) ≡ true
unfolding without
contains-without t by [] h k = k
contains-without t by (u ∷ us) h k = ground (arith, contains-without t by us h)

asked-IsWatched :
    (now time : ℕ) (s : TelemetryServiceState)
    → IsWatched s
    → IsWatched (signal_should_send_by now time s)
unfolding signal_should_send_by signal_should_send
asked-IsWatched now time s h = ground (arith, contains-last time s.wake_ups)

woken-IsWatched :
    (now time : ℕ) (s : TelemetryServiceState)
    → time ≤ now
    → IsWatched s
    → IsWatched (wake_up now time s)
unfolding wake_up signal_should_send should_send_by_now is_due
woken-IsWatched now time s h k = go s.should_send_by k
  where
    go :
        (o : Option ℕ)
        → is_watched o s.wake_ups ≡ true
        → let s0 : TelemetryServiceState = record s { should_send_by = o } in
          is_watched (wake_up now time s0).should_send_by (wake_up now time s0).wake_ups ≡ true
    go none e = refl
    go (some by) e = elim (Bool-cases (leb by now)) [
      | inl due ↦ rw due refl
      | inr later ↦ rw later (contains-without time by s.wake_ups (ground arith) e)
    ]

Step-IsWatched :
    (setting : Setting) (fl : FloatOps) (f : ValueFormat) (s s' : TelemetryServiceState)
    → Step setting fl f s s'
    → IsWatched s
    → IsWatched s'
Step-IsWatched setting fl f s s' (asked now time _) h = asked-IsWatched now time s h
Step-IsWatched setting fl f s s' (woken now time _ k) h = woken-IsWatched now time s k h
Step-IsWatched setting fl f s s' (sent c _) h =
    let (_, _, _, _, _, none_due) =
      send_telemetry-flushes setting.config.processor_config fl f c s in
    rw none_due refl

-- Whatever times are asked for, and whenever tasks wake up and batches are sent: as long as there is a
-- time by which the service has to send, a task is asleep that will wake up at that time.
pub Run-IsWatched :
    (setting : Setting) (fl : FloatOps) (f : ValueFormat) (s s' : TelemetryServiceState)
    → Run setting fl f s s'
    → IsWatched s
    → IsWatched s'
Run-IsWatched setting fl f s s' (stay _) h = h
Run-IsWatched setting fl f s s' (step {s' = t} first rest) h =
    Run-IsWatched setting fl f t s' rest (Step-IsWatched setting fl f s t first h)
