-- ===== src/Logs/Json.antt =====
-- src/telemetry/processor/any_value.rs: JSON values as values of log records.
pub mod RoundTrip
use coralogix_aws_lambda_tel.Prelude.{
  ℕ, zero, suc, ◌+◌, ◌-◌, ◌*◌, ◌/◌, ◌%◌, ◌≤◌, ◌<◌, min, max, String, ◌≡◌, refl, sym, ap, ◌∙◌, subst,
  fun_ext, ◌≢◌, ◌↔◌, ◌⊎◌, inl, inr, Bool, true, false, not, ◌&&◌, ◌||◌, Option, none, some, List,
  [], ◌∷◌, ◌++◌, map, append_assoc, append-nil, arith, str_eq, str_eq_iff,
}
use coralogix_aws_lambda_tel.Prelude.{
  ltb, leb, ◌==◌, if◌then◌else◌, ltb→lt, lt→ltb, leb→le, ==_iff, tests, Bool-cases, Option-cases,
  length, all, is_empty, is_some, is_none, or_option, unwrap_or, last_or, keep, length-append,
  map_option, and_then, All, All-append,
}
use coralogix_aws_lambda_tel.Prelude.{
  u64_mod, u64_max, i64_sign, add64, mul64, le_i64, max_i64, ℤ, pos, negsuc, eq_ℤ, as_u64, F64,
  FloatOps, f64_zero, f64_thousand, f64_million, find, modify_entry, ◌<>◌, show_u64, show_i64, join,
}
use coralogix_aws_lambda_tel.Proto.{
  Bytes, Value, string_value, bool_value, int_value, double_value, array_value, kvlist_value,
  bytes_value, AnyValue, unset, with_value, AnyValues, nil, cons, KeyValues, end, bare, pair,
  KeyValue, NumberValue, as_double, as_int, NumberDataPoint, HistogramDataPoint, ValueAtQuantile,
  SummaryDataPoint, MetricData, gauge, sum, histogram, summary, exponential_histogram, Metric,
  cumulative, InstrumentationScope, Resource, Status, Span, ScopeSpans, ResourceSpans, ScopeMetrics,
  ResourceMetrics, LogRecord, ScopeLogs, ResourceLogs,
}

-- `serde_json::Number`, held as its text
pub record Number : Type 0 where
  pub text : String

-- `serde_json::Value`
mutual
  pub data Json : Type 0 where
    null : Json
    bool : Bool → Json
    number : Number → Json
    string : String → Json
    array : Elements → Json
    object : Members → Json

  pub data Elements : Type 0 where
    no_elements : Elements
    element : Json → Elements → Elements

  pub data Members : Type 0 where
    no_members : Members
    member : String → Json → Members → Members

-- what serde_json says of a number
pub record Numbers : Type 0 where
  pub as_i64 : Number → Option ℕ
  pub as_f64 : Number → Option F64

module _ (n : Numbers) where
  number_value : Option ℕ → Option F64 → Number → Value
  number_value (some i) f x = int_value i
  number_value none (some f) x = double_value f
  number_value none none x = string_value x.text

  -- `AnyValue::from`
  unfoldable mutual
    unfolding number_value

    pub from_json : Json → AnyValue
    from_json null = unset
    from_json (bool b) = with_value (bool_value b)
    from_json (number x) = with_value (number_value (n.as_i64 x) (n.as_f64 x) x)
    from_json (string s) = with_value (string_value s)
    from_json (array a) = with_value (array_value (from_elements a))
    from_json (object o) = with_value (kvlist_value (from_members o))

    pub from_elements : Elements → AnyValues
    from_elements no_elements = nil
    from_elements (element j r) = cons (from_json j) (from_elements r)

    pub from_members : Members → KeyValues
    from_members no_members = end
    from_members (member k j r) = pair k (from_json j) (from_members r)
