-- ===== src/OtelMetrics/Gaps.antt =====
-- src/telemetry/otel_metrics.rs: the exported points let a rate be computed over every change.
use coralogix_aws_lambda_tel.Prelude.{
  ℕ, ◌+◌, ◌≤◌, ◌<◌, ◌≡◌, refl, ◌⊎◌, inl, inr, true, false, Option, none, some, List, [], ◌∷◌, arith,
}
use coralogix_aws_lambda_tel.Prelude.{Bool-cases, All}
use coralogix_aws_lambda_tel.Prelude.{u64_mod}
use coralogix_aws_lambda_tel.OtelMetrics.TimeSeries.{
  max_time_between_data_nanos, DataPoint, DataPointLaws, TimeSeries, before, is_gap, inflate, taken,
  take_and_inflate_data_points,
}

module _ {DP : Type 0} (dp : DataPoint DP) where
  -- Between two neighbours of an exported series: the later point is a copy of the earlier one, or
  -- it comes at most `max_time_between_data_nanos` after it.
  abbrev pub IsBridge : DP → DP → Type 0
  IsBridge a b =
      (dp.get_time_unix_nano b ≤ dp.get_time_unix_nano a + max_time_between_data_nanos)
      ⊎ ((t : ℕ) × (b ≡ dp.clone_with_timestamp a t))

  abbrev pub IsBridged : DP → List DP → Type 0
  IsBridged a [] = Unit
  IsBridged a (b ∷ r) = IsBridge a b × IsBridged b r

  -- A series with no point before it begins at a zero point.
  abbrev pub IsBridgedFrom : Option DP → List DP → Type 0
  IsBridgedFrom (some pp) r = IsBridged pp r
  IsBridgedFrom none [] = Unit
  IsBridgedFrom none (a ∷ r) = (dp.is_zero a ≡ true) × IsBridged a r

  -- the addition of the largest gap does not wrap
  abbrev pub IsTimely : DP → Type 0
  IsTimely p = dp.get_time_unix_nano p + max_time_between_data_nanos < u64_mod

  abbrev pub IsTimely? : Option DP → Type 0
  IsTimely? none = Unit
  IsTimely? (some p) = IsTimely p

module _ {DP : Type 0} (dp : DataPoint DP) (laws : DataPointLaws dp) where
  near-IsBridge : (a b : DP) → IsTimely dp a → is_gap dp a b ≡ false → IsBridge dp a b
  near-IsBridge a b h e = inl (ground arith)

  injected-IsBridge : (a b : DP) → IsBridge dp (dp.clone_with_timestamp a (before dp b)) b
  injected-IsBridge a b = inl (rw (laws.get_time-clone a (before dp b)) (omega arith))

  inflate-IsBridged :
      (prev : DP) (xs : List DP)
      → IsTimely dp prev
      → All (IsTimely dp) xs
      → IsBridged dp prev (inflate dp prev xs)
  unfolding inflate
  inflate-IsBridged prev [] h hs = tt
  inflate-IsBridged prev (x ∷ xs) h (k, hs) = elim (Bool-cases (is_gap dp prev x)) [
    | inl gap ↦
        rw gap (inr (before dp x, refl), (injected-IsBridge prev x, inflate-IsBridged x xs k hs))
    | inr near ↦ rw near (near-IsBridge prev x h near, inflate-IsBridged x xs k hs)
  ]

  zero-IsBridge : (a : DP) → IsBridge dp (dp.to_zero a (before dp a)) a
  zero-IsBridge a = inl (rw (laws.get_time-to_zero a (before dp a)) (omega arith))

  -- An export of points whose times do not overflow yields a series in which a gap longer than
  -- `max_time_between_data_nanos` stands only between a point and a copy of it, and which begins at
  -- a zero point if nothing was exported before.
  pub take_and_inflate_data_points-IsBridgedFrom :
      (ts : TimeSeries DP)
      → IsTimely? dp ts.previous_point
      → All (IsTimely dp) ts.new_points
      → IsBridgedFrom dp ts.previous_point (take_and_inflate_data_points dp ts).0
  unfolding take_and_inflate_data_points
  take_and_inflate_data_points-IsBridgedFrom ts = go ts.previous_point ts.new_points
    where
      go :
          (pp : Option DP) (ps : List DP)
          → IsTimely? dp pp
          → All (IsTimely dp) ps
          → IsBridgedFrom dp pp (taken dp (record { previous_point = pp; new_points = ps }) ps).0
      go none [] h hs = tt
      go (some pp) [] h hs = tt
      go (some pp) (p ∷ ps) h hs = inflate-IsBridged pp (p ∷ ps) h hs
      go none (p ∷ ps) h (k, hs) = elim (Bool-cases (dp.is_zero p)) [
        | inl zero_point ↦ rw zero_point (zero_point, inflate-IsBridged p ps k hs)
        | inr other ↦
            rw other
              (laws.is_zero-to_zero p (before dp p), (zero-IsBridge p, inflate-IsBridged p ps k hs))
      ]
