-- ===== src/OtelMetrics/Inflation.antt =====
-- src/telemetry/otel_metrics.rs: what inflation adds to the points of a time series, and what the
-- moments of the exports change.
use coralogix_aws_lambda_tel.Prelude.{
  ◌≡◌, refl, inl, inr, Option, none, some, List, [], ◌∷◌, ◌++◌, append-nil, arith,
}
use coralogix_aws_lambda_tel.Prelude.{Bool-cases, last_or}
use coralogix_aws_lambda_tel.OtelMetrics.TimeSeries.{
  DataPoint, TimeSeries, is_gap, inflate, inflated, taken, take_and_inflate_data_points,
}

-- `Inserted xs ys`: `ys` is `xs` with further points put in between.
pub data Inserted {DP : Type 0} : List DP → List DP → Type 0 where
  done : Inserted [] []
  kept : (p : DP) {xs ys : List DP} → Inserted xs ys → Inserted (p ∷ xs) (p ∷ ys)
  injected : (p : DP) {xs ys : List DP} → Inserted xs ys → Inserted xs (p ∷ ys)

-- The series after more points came in.
abbrev pub receive : {DP : Type 0} → TimeSeries DP → List DP → TimeSeries DP
receive ts ps = record ts { new_points = ts.new_points ++ ps }

module _ {DP : Type 0} (dp : DataPoint DP) where
  inflate-Inserted : (prev : DP) (xs : List DP) → Inserted xs (inflate dp prev xs)
  unfolding inflate
  inflate-Inserted prev [] = done
  inflate-Inserted prev (x ∷ xs) = elim (Bool-cases (is_gap dp prev x)) [
    | inl gap ↦ rw gap (injected _ (kept x (inflate-Inserted x xs)))
    | inr near ↦ rw near (kept x (inflate-Inserted x xs))
  ]

  -- The points that an export yields are the gathered points, all of them and in their order, with
  -- injected points between them.
  pub take_and_inflate_data_points-Inserted :
      (ts : TimeSeries DP) → Inserted ts.new_points (take_and_inflate_data_points dp ts).0
  unfolding take_and_inflate_data_points
  take_and_inflate_data_points-Inserted ts = go ts.previous_point ts.new_points
    where
      go :
          (pp : Option DP) (ps : List DP)
          → Inserted ps (taken dp (record { previous_point = pp; new_points = ps }) ps).0
      go pp [] = done
      go (some pp) (p ∷ ps) = inflate-Inserted pp (p ∷ ps)
      go none (p ∷ ps) = elim (Bool-cases (dp.is_zero p)) [
        | inl zero_point ↦ rw zero_point (kept p (inflate-Inserted p ps))
        | inr other ↦ rw other (injected _ (kept p (inflate-Inserted p ps)))
      ]

  last_or-inflate :
      (d prev : DP) (x : DP) (xs : List DP) → last_or d (inflate dp prev (x ∷ xs)) ≡ last_or x xs
  unfolding inflate
  last_or-inflate d prev x [] = ground arith
  last_or-inflate d prev x (y ∷ xs) = elim (Bool-cases (is_gap dp prev x)) [
    | inl gap ↦ rw gap (last_or-inflate x x y xs)
    | inr near ↦ rw near (last_or-inflate x x y xs)
  ]

  inflate-append :
      (prev : DP) (xs ys : List DP)
      → inflate dp prev (xs ++ ys) ≡ inflate dp prev xs ++ inflate dp (last_or prev xs) ys
  unfolding inflate
  inflate-append prev [] ys = refl
  inflate-append prev (x ∷ xs) ys = ground (arith, inflate-append x xs ys)

  last_or-inflated :
      (d : DP) (pp : Option DP) (x : DP) (xs : List DP)
      → last_or d (inflated dp pp x xs) ≡ last_or x xs
  unfolding inflated
  last_or-inflated d (some pp) x xs = last_or-inflate d pp x xs
  last_or-inflated d none x [] = ground arith
  last_or-inflated d none x (y ∷ xs) = elim (Bool-cases (dp.is_zero x)) [
    | inl zero_point ↦ rw zero_point (last_or-inflate x x y xs)
    | inr other ↦ rw other (last_or-inflate x x y xs)
  ]

  inflated-append :
      (pp : Option DP) (x : DP) (xs ys : List DP)
      → inflated dp pp x (xs ++ ys) ≡ inflated dp pp x xs ++ inflate dp (last_or x xs) ys
  unfolding inflated
  inflated-append (some pp) x xs ys = inflate-append pp (x ∷ xs) ys
  inflated-append none x xs ys = ground (arith, inflate-append x xs ys)

  last_or-append : (d x : DP) (xs ys : List DP) → last_or d (xs ++ x ∷ ys) ≡ last_or x ys
  last_or-append d x [] ys = refl
  last_or-append d x (z ∷ xs) ys = last_or-append z x xs ys

  export_twice_from :
      (pp : Option DP) (ps more : List DP)
      → let ts : TimeSeries DP = record { previous_point = pp; new_points = ps } in
        let (first, ts') = taken dp ts ps in
        let (second, ts'') = taken dp (receive ts' more) (ts'.new_points ++ more) in
        ◌≡◌ {A = List DP × TimeSeries DP}
          (first ++ second, ts'')
          (taken dp (receive ts more) (ps ++ more))
  unfolding taken
  export_twice_from pp [] more = refl
  export_twice_from pp (p ∷ ps) [] = rw (append-nil ps, append-nil (inflated dp pp p ps))
  export_twice_from pp (p ∷ ps) (m ∷ ms) =
      rw
        (
          last_or-inflated p pp p ps,
          last_or-inflated p pp p (ps ++ m ∷ ms),
          last_or-append p m ps ms,
        )
        (unfold inflated in
          rw (inflated-append pp p ps (m ∷ ms), last_or-inflate m (last_or p ps) m ms))

  -- When the points `more` come in after an export, the two exports together yield the points, and
  -- leave the series, of one export of all the points: it does not matter when exports happen.
  pub export_twice :
      (ts : TimeSeries DP) (more : List DP)
      → let (first, ts') = take_and_inflate_data_points dp ts in
        let (second, ts'') = take_and_inflate_data_points dp (receive ts' more) in
        ◌≡◌ {A = List DP × TimeSeries DP}
          (first ++ second, ts'')
          (take_and_inflate_data_points dp (receive ts more))
  unfolding take_and_inflate_data_points
  export_twice ts more = export_twice_from ts.previous_point ts.new_points more
