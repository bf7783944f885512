-- ===== src/Senders/Conservation.antt =====
-- Every batch that is given to a sender is delivered once, lost once, or waits for its retry.
use coralogix_aws_lambda_tel.Prelude.{
  ℕ, ◌+◌, ◌≤◌, ◌≡◌, refl, Bool, true, false, not, ◌||◌, Option, none, some, List, [], ◌∷◌, ◌++◌,
  arith,
}
use coralogix_aws_lambda_tel.Prelude.{◌==◌, if◌then◌else◌, length, is_some, is_none, length-append}
use coralogix_aws_lambda_tel.Senders.Retry.{
  Call, Sender, Service, send, resend, store_for_retry, send_telemetry, new_sender, send_all,
}

module _ {B E : Type 0} where
  abbrev pub tally : (Call B E → Bool) → List (Call B E) → ℕ
  tally p [] = 0
  tally p (c ∷ cs) = (if p c then 1 else 0) + tally p cs

  tally-append :
      (p : Call B E → Bool) (xs ys : List (Call B E)) → tally p (xs ++ ys) ≡ tally p xs + tally p ys
  tally-append p [] ys = omega arith
  tally-append p (x ∷ xs) ys = omega (arith, tally-append p xs ys)

  abbrev pub is_delivered : Call B E → Bool
  is_delivered c = is_none c.outcome

  abbrev pub pending : Sender B E → ℕ
  pending s = if is_some s.to_retry then 1 else 0

  abbrev pub delivered : Sender B E → ℕ
  delivered s = tally is_delivered s.calls

module _ {B E : Type 0} (service : Service B E) where
  abbrev final_failure : Bool → Option E → Bool
  final_failure is_retry none = false
  final_failure is_retry (some e) = is_retry || not (service.is_retryable e)

  -- a call after which the batch is given up
  abbrev pub is_lost : Call B E → Bool
  is_lost c = final_failure c.is_retry c.outcome

  abbrev pub lost : Sender B E → ℕ
  lost s = tally is_lost s.calls

  abbrev pub nonempty : List B → ℕ
  nonempty [] = 0
  nonempty (b ∷ bs) = (if service.item_count b == 0 then 0 else 1) + nonempty bs

  -- `n` batches have come in
  record IsConserved (s : Sender B E) (n : ℕ) : Type 0 where
    total : delivered s + lost s + pending s ≡ n
    calls_bounded : length s.calls + pending s ≤ n + n
    waiting_nonempty : (b : B) → s.to_retry ≡ some b → (service.item_count b == 0) ≡ false

  resend-IsConserved :
      (o : Option B) (cs : List (Call B E))
      → ((b : B) → o ≡ some b → (service.item_count b == 0) ≡ false)
      → let w : ℕ = if is_some o then 1 else 0 in
        let s' = (resend service o (record { to_retry = none; calls = cs })).1 in
        (s'.to_retry ≡ none)
        × (tally is_delivered s'.calls + tally is_lost s'.calls
            ≡ tally is_delivered cs + tally is_lost cs + w)
        × (length s'.calls ≡ length cs + w)
  unfolding resend send
  resend-IsConserved none cs h = (refl, omega arith, omega arith)
  resend-IsConserved (some b) cs h =
      let c : Call B E = record {
        batch = b;
        is_retry = true;
        outcome = service.respond (length cs);
      } in
      ground (
        arith,
        h b refl,
        tally-append is_delivered cs (c ∷ []),
        tally-append is_lost cs (c ∷ []),
        length-append cs (c ∷ []),
      )

  send-IsConserved :
      (b : B) (s : Sender B E)
      → s.to_retry ≡ none
      → let (result, s'') = send service b false s in
        let s' = store_for_retry service b result s'' in
        let n : ℕ = if service.item_count b == 0 then 0 else 1 in
        (delivered s' + lost s' + pending s' ≡ delivered s + lost s + n)
        × (length s'.calls ≡ length s.calls + n)
        × (pending s' ≤ n)
        × ((d : B) → s'.to_retry ≡ some d → (service.item_count d == 0) ≡ false)
  unfolding send store_for_retry
  send-IsConserved b s h =
      let c : Call B E = record {
        batch = b;
        is_retry = false;
        outcome = service.respond (length s.calls);
      } in
      (
        ground (
          arith,
          tally-append is_delivered s.calls (c ∷ []),
          tally-append is_lost s.calls (c ∷ []),
        ),
        ground (arith, length-append s.calls (c ∷ [])),
        ground arith,
        λ d e. ground arith,
      )

  send_telemetry-IsConserved :
      (b : B) (s : Sender B E) (n : ℕ)
      → IsConserved s n
      → IsConserved (send_telemetry service b s) (n + (if service.item_count b == 0 then 0 else 1))
  unfolding send_telemetry
  send_telemetry-IsConserved b s n h =
      let (idle, total', calls') = resend-IsConserved s.to_retry s.calls h.waiting_nonempty in
      let (total'', calls'', pending'', waiting) =
        send-IsConserved b
          (resend service s.to_retry (record { to_retry = none; calls = s.calls })).1 idle in
      record {
        total = omega (arith, total', total'', h.total);
        calls_bounded = omega (arith, calls', calls'', pending'', h.calls_bounded);
        waiting_nonempty = waiting;
      }

  send_all-IsConserved :
      (bs : List B) (s : Sender B E) (n : ℕ)
      → IsConserved s n
      → IsConserved (send_all service bs s) (n + nonempty bs)
  unfolding send_all
  send_all-IsConserved [] s n h = record {
    total = omega (arith, h.total);
    calls_bounded = omega (arith, h.calls_bounded);
    waiting_nonempty = h.waiting_nonempty;
  }
  send_all-IsConserved (b ∷ bs) s n h =
      let k =
        send_all-IsConserved bs (send_telemetry service b s) _
          (send_telemetry-IsConserved b s n h) in
      record {
        total = omega (arith, k.total);
        calls_bounded = omega (arith, k.calls_bounded);
        waiting_nonempty = k.waiting_nonempty;
      }

  -- However the service answers, after any batches, one sent after another: the batches that have items are as
  -- many as the successful calls, the batches given up and the one that waits for its retry together; and there
  -- are at most two calls for each batch that has items.
  pub send_all-conserves :
      (bs : List B)
      → let s = send_all service bs (new_sender service) in
        (delivered s + lost s + pending s ≡ nonempty bs)
        × (length s.calls + pending s ≤ nonempty bs + nonempty bs)
  unfolding new_sender
  send_all-conserves bs =
      let h =
        send_all-IsConserved bs (new_sender service) 0
          (record { total = refl; calls_bounded = omega arith; waiting_nonempty = λ b e. cc }) in
      (omega (arith, h.total), omega (arith, h.calls_bounded))
