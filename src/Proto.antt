-- ===== src/Proto.antt =====
-- The OpenTelemetry messages of the protocol buffers, with the fields that the exporter reads or
-- writes. Their Rust types are generated by the build. Events, links and exemplars, which the exporter only carries along,
-- are held as encoded bytes.
use coralogix_aws_lambda_tel.Prelude.{ℕ, String, Bool, Option, List, F64}

abbrev pub Bytes : Type 0
Bytes = List ℕ

mutual
  pub data Value : Type 0 where
    string_value : String → Value
    bool_value : Bool → Value
    int_value : ℕ → Value
    double_value : F64 → Value
    array_value : AnyValues → Value
    kvlist_value : KeyValues → Value
    bytes_value : List ℕ → Value

  pub data AnyValue : Type 0 where
    unset : AnyValue
    with_value : Value → AnyValue

  pub data AnyValues : Type 0 where
    nil : AnyValues
    cons : AnyValue → AnyValues → AnyValues

  -- the entry `bare k` has no value
  pub data KeyValues : Type 0 where
    end : KeyValues
    bare : String → KeyValues → KeyValues
    pair : String → AnyValue → KeyValues → KeyValues

pub record KeyValue : Type 0 where
  pub key : String
  pub value : Option AnyValue

pub data NumberValue : Type 0 where
  as_double : F64 → NumberValue
  as_int : ℕ → NumberValue

pub record NumberDataPoint : Type 0 where
  pub attributes : List KeyValue
  pub start_time_unix_nano : ℕ
  pub time_unix_nano : ℕ
  pub exemplars : List Bytes
  pub flags : ℕ
  pub value : Option NumberValue

pub record HistogramDataPoint : Type 0 where
  pub attributes : List KeyValue
  pub start_time_unix_nano : ℕ
  pub time_unix_nano : ℕ
  pub count : ℕ
  pub sum : Option F64
  pub bucket_counts : List ℕ
  pub explicit_bounds : List F64
  pub exemplars : List Bytes
  pub flags : ℕ
  pub minimum : Option F64
  pub maximum : Option F64

pub record ValueAtQuantile : Type 0 where
  pub quantile : F64
  pub value : F64

pub record SummaryDataPoint : Type 0 where
  pub attributes : List KeyValue
  pub start_time_unix_nano : ℕ
  pub time_unix_nano : ℕ
  pub count : ℕ
  pub sum : F64
  pub quantile_values : List ValueAtQuantile
  pub flags : ℕ

-- `gauge points`, `sum points aggregation_temporality is_monotonic`,
-- `histogram points aggregation_temporality`, `summary points`, `exponential_histogram points`
pub data MetricData : Type 0 where
  gauge : List NumberDataPoint → MetricData
  sum : List NumberDataPoint → ℕ → Bool → MetricData
  histogram : List HistogramDataPoint → ℕ → MetricData
  summary : List SummaryDataPoint → MetricData
  exponential_histogram : List Bytes → MetricData

pub record Metric : Type 0 where
  pub name : String
  pub description : String
  pub unit : String
  pub body : Option MetricData

-- `AggregationTemporality::Cumulative as i32`
abbrev pub cumulative : ℕ
cumulative = 2

pub record InstrumentationScope : Type 0 where
  pub name : String
  pub version : String
  pub attributes : List KeyValue
  pub dropped_attributes_count : ℕ

pub record Resource : Type 0 where
  pub attributes : List KeyValue
  pub dropped_attributes_count : ℕ

pub record Status : Type 0 where
  pub message : String
  pub code : ℕ

pub record Span : Type 0 where
  pub trace_id : Bytes
  pub span_id : Bytes
  pub trace_state : String
  pub parent_span_id : Bytes
  pub name : String
  pub kind : ℕ
  pub start_time_unix_nano : ℕ
  pub end_time_unix_nano : ℕ
  pub attributes : List KeyValue
  pub dropped_attributes_count : ℕ
  pub events : List Bytes
  pub dropped_events_count : ℕ
  pub links : List Bytes
  pub dropped_links_count : ℕ
  pub status : Option Status

pub record ScopeSpans : Type 0 where
  pub scope : Option InstrumentationScope
  pub spans : List Span
  pub schema_url : String

pub record ResourceSpans : Type 0 where
  pub resource : Option Resource
  pub scope_spans : List ScopeSpans
  pub schema_url : String

pub record ScopeMetrics : Type 0 where
  pub scope : Option InstrumentationScope
  pub metrics : List Metric
  pub schema_url : String

pub record ResourceMetrics : Type 0 where
  pub resource : Option Resource
  pub scope_metrics : List ScopeMetrics
  pub schema_url : String

pub record LogRecord : Type 0 where
  pub time_unix_nano : ℕ
  pub observed_time_unix_nano : ℕ
  pub severity_number : ℕ
  pub severity_text : String
  pub body : Option AnyValue
  pub attributes : List KeyValue
  pub dropped_attributes_count : ℕ
  pub flags : ℕ
  pub trace_id : Bytes
  pub span_id : Bytes

pub record ScopeLogs : Type 0 where
  pub scope : Option InstrumentationScope
  pub log_records : List LogRecord
  pub schema_url : String

pub record ResourceLogs : Type 0 where
  pub resource : Option Resource
  pub scope_logs : List ScopeLogs
  pub schema_url : String
