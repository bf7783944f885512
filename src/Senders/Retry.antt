-- ===== src/Senders/Retry.antt =====
-- The senders that keep one batch to retry: `OtlpPillarTelemetrySender`, `CombinedTelemetrySender`
-- and `FirehoseTelemetrySender` are this code at three types of batches. `item_count` is what each of them counts
-- before it calls the service, `respond n` the outcome of the n-th call (`none` is success), and `is_retryable` the errors
-- that are retried.
use coralogix_aws_lambda_tel.Prelude.{ℕ, Bool, true, false, Option, none, some, List, [], ◌∷◌, ◌++◌}
use coralogix_aws_lambda_tel.Prelude.{◌==◌, if◌then◌else◌, length}

pub record Call (B E : Type 0) : Type 0 where
  pub batch : B
  pub is_retry : Bool
  pub outcome : Option E

-- the sender's state, with the calls that it has made of the service
pub record Sender (B E : Type 0) : Type 0 where
  pub to_retry : Option B
  pub calls : List (Call B E)

pub record Service (B E : Type 0) : Type 0 where
  pub item_count : B → ℕ
  pub respond : ℕ → Option E
  pub is_retryable : E → Bool

module _ {B E : Type 0} (service : Service B E) where
  -- `send`: an empty batch succeeds without a call
  unfoldable pub send : B → Bool → Sender B E → Option E × Sender B E
  send b is_retry s = if service.item_count b == 0 then (none, s) else (
    service.respond (length s.calls),
    record s {
      calls =
          s.calls
          ++ record { batch = b; is_retry = is_retry; outcome = service.respond (length s.calls) }
            ∷ [];
    },
  )

  unfoldable pub resend : Option B → Sender B E → Option E × Sender B E
  unfolding send
  resend none s = (none, s)
  resend (some b) s = send b true s

  -- the state after the new batch's outcome is known
  unfoldable pub store_for_retry : B → Option E → Sender B E → Sender B E
  store_for_retry b none s = s
  store_for_retry b (some e) s =
      if service.is_retryable e then record s { to_retry = some b } else s

  unfoldable pub send_telemetry : B → Sender B E → Sender B E
  unfolding send resend store_for_retry
  send_telemetry b s =
      let (retry_result, s') = resend s.to_retry (record s { to_retry = none }) in
      let (result, s'') = send b false s' in store_for_retry b result s''

  unfoldable pub new_sender : Sender B E
  new_sender = record { to_retry = none; calls = [] }

  -- sending one batch after another
  unfoldable pub send_all : List B → Sender B E → Sender B E
  send_all [] s = s
  send_all (b ∷ bs) s = send_all bs (send_telemetry b s)
