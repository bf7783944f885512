-- ===== src/OtelMetrics/DataPoints.antt =====
-- src/telemetry/otel_metrics.rs: the three kinds of data points, as implementations of `DataPoint`.
use coralogix_aws_lambda_tel.Prelude.{
  ℕ, ◌≡◌, refl, Bool, true, false, ◌&&◌, Option, none, some, List, [], ◌∷◌, map, arith,
}
use coralogix_aws_lambda_tel.Prelude.{◌==◌, all, map_option}
use coralogix_aws_lambda_tel.Prelude.{F64, FloatOps, f64_zero}
use coralogix_aws_lambda_tel.Proto.{
  NumberValue, as_double, as_int, NumberDataPoint, HistogramDataPoint, ValueAtQuantile,
  SummaryDataPoint,
}
use coralogix_aws_lambda_tel.OtelMetrics.TimeSeries.{DataPoint, DataPointLaws}
use coralogix_aws_lambda_tel.OtelMetrics.TimeSeriesId.{ValueFormat, from_attributes}

module _ (fl : FloatOps) where
  abbrev is_zero_float : F64 → Bool
  is_zero_float x = fl.eq x f64_zero

  abbrev none_or_zero : Option F64 → Bool
  none_or_zero none = true
  none_or_zero (some x) = is_zero_float x

  abbrev eq_number : NumberValue → NumberValue → Bool
  eq_number (as_int a) (as_int b) = a == b
  eq_number (as_double a) (as_double b) = fl.eq a b
  eq_number _ _ = false

  abbrev eq_option {ℓ} : {A : Type ℓ} → (A → A → Bool) → Option A → Option A → Bool
  eq_option eq none none = true
  eq_option eq (some a) (some b) = eq a b
  eq_option eq _ _ = false

  abbrev eq_list {ℓ} : {A : Type ℓ} → (A → A → Bool) → List A → List A → Bool
  eq_list eq [] [] = true
  eq_list eq (a ∷ r) (b ∷ q) = eq a b && eq_list eq r q
  eq_list eq _ _ = false

  abbrev eq_quantile : ValueAtQuantile → ValueAtQuantile → Bool
  eq_quantile a b = fl.eq a.quantile b.quantile && fl.eq a.value b.value

  number_is_zero : Option NumberValue → Bool
  number_is_zero (some (as_int i)) = i == 0
  number_is_zero (some (as_double d)) = is_zero_float d
  number_is_zero none = true

  number_to_zero : Option NumberValue → Option NumberValue
  number_to_zero (some (as_int i)) = some (as_int 0)
  number_to_zero (some (as_double d)) = some (as_double f64_zero)
  number_to_zero none = none

  unfoldable pub number_data_point : ValueFormat → DataPoint NumberDataPoint
  unfolding number_is_zero number_to_zero
  number_data_point f = record {
    get_time_unix_nano = λ p. p.time_unix_nano;
    clone_with_timestamp = λ p t. record p { time_unix_nano = t };
    is_equivalent = λ p q. eq_option eq_number p.value q.value && p.flags == q.flags;
    time_series_id = λ p. from_attributes f p.attributes;
    is_zero = λ p. number_is_zero p.value;
    to_zero = λ p t. record p { value = number_to_zero p.value; time_unix_nano = t };
  }

  unfoldable pub histogram_data_point : ValueFormat → DataPoint HistogramDataPoint
  histogram_data_point f = record {
    get_time_unix_nano = λ p. p.time_unix_nano;
    clone_with_timestamp = λ p t. record p { time_unix_nano = t };
    is_equivalent = λ p q.
        eq_list (λ a b. a == b) p.bucket_counts q.bucket_counts
        && (eq_list fl.eq p.explicit_bounds q.explicit_bounds
            && (eq_option fl.eq p.sum q.sum
                && (p.count == q.count
                    && (eq_option fl.eq p.minimum q.minimum
                        && (eq_option fl.eq p.maximum q.maximum && p.flags == q.flags)))));
    time_series_id = λ p. from_attributes f p.attributes;
    is_zero = λ p.
        none_or_zero p.sum
        && (p.count == 0
            && (none_or_zero p.minimum
                && (none_or_zero p.maximum && all (λ c. c == 0) p.bucket_counts)));
    to_zero = λ p t. record p {
      sum = map_option (λ _. f64_zero) p.sum;
      count = 0;
      minimum = map_option (λ _. f64_zero) p.minimum;
      maximum = map_option (λ _. f64_zero) p.maximum;
      bucket_counts = map (λ _. 0) p.bucket_counts;
      time_unix_nano = t;
    };
  }

  unfoldable pub summary_data_point : ValueFormat → DataPoint SummaryDataPoint
  summary_data_point f = record {
    get_time_unix_nano = λ p. p.time_unix_nano;
    clone_with_timestamp = λ p t. record p { time_unix_nano = t };
    is_equivalent = λ p q.
        eq_list eq_quantile p.quantile_values q.quantile_values
        && (fl.eq p.sum q.sum && (p.count == q.count && p.flags == q.flags));
    time_series_id = λ p. from_attributes f p.attributes;
    is_zero = λ p.
        is_zero_float p.sum
        && (p.count == 0 && all (λ (q : ValueAtQuantile). is_zero_float q.value) p.quantile_values);
    to_zero = λ p t. record p {
      sum = f64_zero;
      count = 0;
      quantile_values =
          map
            (λ (q : ValueAtQuantile).
              let z : ValueAtQuantile = record { quantile = q.quantile; value = f64_zero } in z)
            p.quantile_values;
      time_unix_nano = t;
    };
  }

  number_to_zero-is_zero :
      fl.eq f64_zero f64_zero ≡ true
      → (v : Option NumberValue) → number_is_zero (number_to_zero v) ≡ true
  unfolding number_is_zero number_to_zero
  number_to_zero-is_zero h none = refl
  number_to_zero-is_zero h (some (as_int i)) = refl
  number_to_zero-is_zero h (some (as_double d)) = h

  none_or_zero-map :
      fl.eq f64_zero f64_zero ≡ true
      → (o : Option F64) → none_or_zero (map_option (λ _. f64_zero) o) ≡ true
  none_or_zero-map h none = refl
  none_or_zero-map h (some x) = h

  all-zero : (cs : List ℕ) → all (λ c. c == 0) (map (λ _. 0) cs) ≡ true
  all-zero [] = refl
  all-zero (c ∷ cs) = ground (arith, all-zero cs)

  all-zero_quantiles :
      fl.eq f64_zero f64_zero ≡ true
      → (qs : List ValueAtQuantile)
      → all
          (λ (q : ValueAtQuantile). is_zero_float q.value)
          (map
            (λ (q : ValueAtQuantile).
              let z : ValueAtQuantile = record { quantile = q.quantile; value = f64_zero } in z)
            qs)
        ≡ true
  all-zero_quantiles h [] = refl
  all-zero_quantiles h (q ∷ qs) = ground (arith, all-zero_quantiles h qs)

  -- The laws, where 0.0 equals itself, as IEEE 754 has it.
  module _ (zero_eq : fl.eq f64_zero f64_zero ≡ true) (f : ValueFormat) where
    pub number_data_point-laws : DataPointLaws (number_data_point f)
    unfolding number_data_point
    number_data_point-laws = record {
      get_time-clone = λ p t. refl;
      get_time-to_zero = λ p t. refl;
      is_zero-to_zero = λ p t. number_to_zero-is_zero zero_eq p.value;
    }

    pub histogram_data_point-laws : DataPointLaws (histogram_data_point f)
    unfolding histogram_data_point
    histogram_data_point-laws = record {
      get_time-clone = λ p t. refl;
      get_time-to_zero = λ p t. refl;
      is_zero-to_zero = λ p t. ground (
        arith,
        none_or_zero-map zero_eq p.sum,
        none_or_zero-map zero_eq p.minimum,
        none_or_zero-map zero_eq p.maximum,
        all-zero p.bucket_counts,
      );
    }

    pub summary_data_point-laws : DataPointLaws (summary_data_point f)
    unfolding summary_data_point
    summary_data_point-laws = record {
      get_time-clone = λ p t. refl;
      get_time-to_zero = λ p t. refl;
      is_zero-to_zero = λ p t. ground (arith, all-zero_quantiles zero_eq p.quantile_values);
    }
