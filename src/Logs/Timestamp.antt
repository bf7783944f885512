-- ===== src/Logs/Timestamp.antt =====
-- src/telemetry/processor/log_processor.rs: the timestamps of log records.
use coralogix_aws_lambda_tel.Prelude.{
  ℕ, ◌+◌, ◌*◌, ◌%◌, ◌≤◌, ◌<◌, min, ◌≡◌, subst, inl, inr, List, [], ◌∷◌, map, arith,
}
use coralogix_aws_lambda_tel.Prelude.{ltb, if◌then◌else◌, Bool-cases, length}
use coralogix_aws_lambda_tel.Prelude.{u64_mod, u64_max, add64, ℤ, pos, negsuc, eq_ℤ}

pub record LastLogState : Type 0 where
  pub last_log_timestamp : ℤ
  pub last_log_subindex : ℕ

unfoldable pub default_log_state : LastLogState
default_log_state = record { last_log_timestamp = pos 0; last_log_subindex = 0 }

clamp_u64 : ℤ → ℕ
clamp_u64 (negsuc n) = 0
clamp_u64 (pos n) = if ltb u64_max n then u64_max else n

-- `last_log_subindex` is a u32; the last addition is on u64
unfoldable pub make_log_timestamp : LastLogState → ℤ → ℕ × LastLogState
unfolding clamp_u64
make_log_timestamp state timestamp =
    let nanos = clamp_u64 timestamp in
    let next = (state.last_log_subindex + 1) % 4294967296 in
    if eq_ℤ timestamp state.last_log_timestamp
    then (add64 nanos (min next 999999), record state { last_log_subindex = next })
    else (nanos, record { last_log_timestamp = timestamp; last_log_subindex = 0 })

-- the timestamps of several logs, one after another
unfoldable pub make_log_timestamps : LastLogState → List ℤ → List ℕ
make_log_timestamps state [] = []
make_log_timestamps state (t ∷ ts) =
    let (nanos, state') = make_log_timestamp state t in nanos ∷ make_log_timestamps state' ts

-- The times come in whole milliseconds that do not go back, after the one of `state`.
abbrev pub IsForward : ℕ → List ℕ → Type 0
IsForward last [] = Unit
IsForward last (m ∷ ms) = (last ≤ m) × (m * 1000000 + 1000000 < u64_mod) × IsForward m ms

abbrev pub IsIncreasing : ℕ → List ℕ → Type 0
IsIncreasing last [] = Unit
IsIncreasing last (n ∷ ns) = (last < n) × IsIncreasing n ns

-- the timestamp in its millisecond
abbrev pub AreWithin : List ℕ → List ℕ → Type 0
AreWithin [] [] = Unit
AreWithin (m ∷ ms) (n ∷ ns) = (m * 1000000 ≤ n) × (n < m * 1000000 + 1000000) × AreWithin ms ns
AreWithin _ _ = ⊥

abbrev pub millis : ℕ → ℤ
millis m = pos (m * 1000000)

abbrev pub at : ℕ → ℕ → LastLogState
at last sub = record { last_log_timestamp = millis last; last_log_subindex = sub }

make_log_timestamp-same :
    (sub m : ℕ)
    → sub < 999999
    → m * 1000000 + 1000000 < u64_mod
    → make_log_timestamp (at m sub) (millis m) ≡ (m * 1000000 + (sub + 1), at m (sub + 1))
unfolding make_log_timestamp
make_log_timestamp-same sub m h b = ground arith

make_log_timestamp-later :
    (last sub m : ℕ)
    → last < m
    → m * 1000000 + 1000000 < u64_mod
    → make_log_timestamp (at last sub) (millis m) ≡ (m * 1000000, at m 0)
unfolding make_log_timestamp
make_log_timestamp-later last sub m h b = ground arith

-- For times in whole milliseconds that do not go back, and fewer than a million logs, the timestamps
-- of the logs increase strictly, so that their order is kept, and each stays within its millisecond.
pub make_log_timestamps-IsIncreasing :
    (ms : List ℕ) (last sub : ℕ)
    → sub + length ms < 1000000
    → IsForward last ms
    → let ns = make_log_timestamps (at last sub) (map millis ms) in
      IsIncreasing (last * 1000000 + sub) ns × AreWithin ms ns
unfolding make_log_timestamps
make_log_timestamps-IsIncreasing [] last sub h f = (tt, tt)
make_log_timestamps-IsIncreasing (m ∷ ms) last sub h (k, b, f) = elim (Bool-cases (ltb last m)) [
  | inl later ↦
      let (inc, within) = make_log_timestamps-IsIncreasing ms m 0 (omega arith) f in
      rw (make_log_timestamp-later last sub m (ground arith) b) (
        (
          ground arith,
          subst (λ (n : ℕ). IsIncreasing n (make_log_timestamps (at m 0) (map millis ms)))
              (omega arith) inc,
        ),
        (omega arith, omega arith, within),
      )
  | inr same ↦
      let (inc, within) = make_log_timestamps-IsIncreasing ms m (sub + 1) (omega arith) f in
      let e : last ≡ m = ground arith in
      rw (e, make_log_timestamp-same sub m (omega arith) b)
        ((omega arith, inc), (omega arith, omega arith, within))
]
