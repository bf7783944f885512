-- ===== src/OtelMetrics/TimeSeries.antt =====
-- src/telemetry/otel_metrics.rs: the interface of a data point, a time series of such points, and
-- how the points gathered since the last export are taken and inflated.
use coralogix_aws_lambda_tel.Prelude.{
  ℕ, ◌-◌, ◌≡◌, Bool, true, Option, none, some, List, [], ◌∷◌, ◌++◌,
}
use coralogix_aws_lambda_tel.Prelude.{ltb, if◌then◌else◌, or_option, last_or}
use coralogix_aws_lambda_tel.Prelude.{add64}
use coralogix_aws_lambda_tel.OtelMetrics.TimeSeriesId.{TimeSeriesId}

-- processor/platform_metrics/mod.rs
abbrev pub max_time_between_data_nanos : ℕ
max_time_between_data_nanos = 35000000000

abbrev pub report_last_time_nanos : ℕ
report_last_time_nanos = 30000000000

pub record DataPoint (DP : Type 0) : Type 0 where
  pub get_time_unix_nano : DP → ℕ
  pub clone_with_timestamp : DP → ℕ → DP
  pub is_equivalent : DP → DP → Bool
  pub time_series_id : DP → TimeSeriesId
  pub is_zero : DP → Bool
  pub to_zero : DP → ℕ → DP

-- What the implementations keep: a copy has the time that it is given.
pub record DataPointLaws {DP : Type 0} (dp : DataPoint DP) : Type 0 where
  pub get_time-clone : (p : DP) (t : ℕ) → dp.get_time_unix_nano (dp.clone_with_timestamp p t) ≡ t
  pub get_time-to_zero : (p : DP) (t : ℕ) → dp.get_time_unix_nano (dp.to_zero p t) ≡ t
  pub is_zero-to_zero : (p : DP) (t : ℕ) → dp.is_zero (dp.to_zero p t) ≡ true

pub record TimeSeries (DP : Type 0) : Type 0 where
  pub previous_point : Option DP
  pub new_points : List DP

abbrev pub new_time_series : {DP : Type 0} → TimeSeries DP
new_time_series = record { previous_point = none; new_points = [] }

module _ {DP : Type 0} where
  unfoldable pub last? : List DP → Option DP
  last? [] = none
  last? (p ∷ ps) = some (last_or p ps)

  unfoldable pub last_point : TimeSeries DP → Option DP
  unfolding last?
  last_point ts = or_option (last? ts.new_points) ts.previous_point

  -- `ts.new_points.push(dp)`
  unfoldable pub push : DP → TimeSeries DP → TimeSeries DP
  push p ts = record ts { new_points = ts.new_points ++ p ∷ [] }

module _ {DP : Type 0} (dp : DataPoint DP) where
  -- one round of `accumulate_if_different`
  unfoldable pub push_if_different : DP → TimeSeries DP → TimeSeries DP
  unfolding push last_point
  push_if_different p ts = elim (last_point ts) [
    | none ↦ push p ts
    | some q ↦ if dp.is_equivalent q p then ts else push p ts
  ]

  -- the timestamp of an injected point: `saturating_sub`
  abbrev pub before : DP → ℕ
  before p = dp.get_time_unix_nano p - report_last_time_nanos

  abbrev pub is_gap : DP → DP → Bool
  is_gap prev this =
      ltb (add64 (dp.get_time_unix_nano prev) max_time_between_data_nanos)
        (dp.get_time_unix_nano this)

  -- the loop over the points; `prev` is the last point of the output so far
  unfoldable pub inflate : DP → List DP → List DP
  inflate prev [] = []
  inflate prev (this ∷ rest) =
      let tail = inflate this rest in
      if is_gap prev this
      then dp.clone_with_timestamp prev (before this) ∷ this ∷ tail
      else this ∷ tail

  unfoldable pub first_points : DP → List DP → List DP
  first_points first rest =
      if dp.is_zero first then first ∷ rest else dp.to_zero first (before first) ∷ first ∷ rest

  unfoldable pub inflated : Option DP → DP → List DP → List DP
  unfolding inflate first_points
  inflated (some pp) this rest = inflate pp (this ∷ rest)
  inflated none first rest = first_points first (inflate first rest)

  unfoldable pub taken : TimeSeries DP → List DP → List DP × TimeSeries DP
  unfolding inflated
  taken ts [] = ([], ts)
  taken ts (p ∷ ps) =
      let output = inflated ts.previous_point p ps in
      (output, record { previous_point = some (last_or p output); new_points = [] })

  unfoldable pub take_and_inflate_data_points : TimeSeries DP → List DP × TimeSeries DP
  unfolding taken
  take_and_inflate_data_points ts = taken ts ts.new_points

  -- the series of one `flat_map` round of `take_as_is`
  unfoldable pub take_new_points : TimeSeries DP → List DP × TimeSeries DP
  take_new_points ts = (ts.new_points, record ts { new_points = [] })
