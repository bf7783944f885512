-- ===== src/Events.antt =====
-- src/telemetry/mod.rs: the data kept of the platform events. The events themselves are types of the
-- `lambda_extension` crate, with the variants and fields that the exporter names; the fields that it
-- only carries along (the kind and phase of an initialisation) are texts.
use coralogix_aws_lambda_tel.Prelude.{
  ℕ, ◌+◌, ◌*◌, String, Bool, true, false, ◌&&◌, ◌||◌, Option, List, str_eq,
}
use coralogix_aws_lambda_tel.Prelude.{leb, if◌then◌else◌, unwrap_or, map_option}
use coralogix_aws_lambda_tel.Prelude.{ℤ, pos, negsuc, F64}

-- `lambda_extension::Status`
pub data EventStatus : Type 0 where
  success error failure timeout : EventStatus

abbrev pub is_success : EventStatus → Bool
is_success success = true
is_success _ = false

abbrev pub is_error : EventStatus → Bool
is_error error = true
is_error _ = false

pub record EventSpan : Type 0 where
  pub name : String
  pub duration_ms : F64

pub record TraceContext : Type 0 where
  pub value : String

pub record InitReportMetrics : Type 0 where
  pub duration_ms : F64

pub record RuntimeDoneMetrics : Type 0 where
  pub duration_ms : F64
  pub produced_bytes : Option ℕ

pub record ReportMetrics : Type 0 where
  pub duration_ms : F64
  pub billed_duration_ms : ℕ
  pub memory_size_mb : ℕ
  pub max_memory_used_mb : ℕ
  pub init_duration_ms : Option F64
  pub restore_duration_ms : Option F64

pub record PlatformInitStartData : Type 0 where
  pub time : ℤ
  pub initialization_type : String
  pub phase : String
  pub runtime_version : Option String
  pub runtime_version_arn : Option String

pub record PlatformInitRuntimeDoneData : Type 0 where
  pub time : ℤ
  pub initialization_type : String
  pub phase : Option String
  pub status : EventStatus
  pub error_type : Option String
  pub spans : List EventSpan

pub record PlatformInitReportData : Type 0 where
  pub time : ℤ
  pub initialization_type : String
  pub phase : String
  pub metrics : InitReportMetrics
  pub spans : List EventSpan

pub record PlatformStartData : Type 0 where
  pub time : ℤ
  pub request_id : String
  pub version : Option String
  pub tracing : Option TraceContext

pub record PlatformRuntimeDoneData : Type 0 where
  pub time : ℤ
  pub request_id : String
  pub status : EventStatus
  pub error_type : Option String
  pub metrics : Option RuntimeDoneMetrics
  pub spans : List EventSpan
  pub tracing : Option TraceContext

pub record PlatformReportData : Type 0 where
  pub time : ℤ
  pub request_id : String
  pub status : EventStatus
  pub error_type : Option String
  pub metrics : ReportMetrics
  pub spans : List EventSpan
  pub tracing : Option TraceContext

-- `LambdaTelemetryRecord`; the fields of each variant stand in the order in which the exporter's
-- patterns name them
pub data LambdaTelemetryRecord : Type 0 where
  function : (log_text : String) → LambdaTelemetryRecord
  extension : (log_text : String) → LambdaTelemetryRecord
  platform_init_start :
      (initialization_type phase : String) (runtime_version runtime_version_arn : Option String)
      → LambdaTelemetryRecord
  platform_init_runtime_done :
      (initialization_type : String) (phase : Option String) (status : EventStatus)
      (error_type : Option String) (spans : List EventSpan)
      → LambdaTelemetryRecord
  platform_init_report :
      (initialization_type phase : String) (metrics : InitReportMetrics) (spans : List EventSpan)
      → LambdaTelemetryRecord
  platform_start :
      (request_id : String) (version : Option String) (tracing : Option TraceContext)
      → LambdaTelemetryRecord
  platform_runtime_done :
      (request_id : String) (status : EventStatus) (error_type : Option String)
      (metrics : Option RuntimeDoneMetrics) (spans : List EventSpan) (tracing : Option TraceContext)
      → LambdaTelemetryRecord
  platform_report :
      (request_id : String) (status : EventStatus) (error_type : Option String)
      (metrics : ReportMetrics) (spans : List EventSpan) (tracing : Option TraceContext)
      → LambdaTelemetryRecord
  platform_extension platform_telemetry_subscription platform_logs_dropped : LambdaTelemetryRecord

-- `LambdaTelemetry`: the time is in milliseconds since the epoch
pub record LambdaTelemetry : Type 0 where
  pub time_millis : ℤ
  pub event : LambdaTelemetryRecord

-- What makes processing fail; `panic` stands for a panic of the code. `from_unix_timestamp_nanos` of the `time` crate refuses a time out of its range
pub data Error : Type 0 where
  component_range : Error
  serialization : Error
  invalid_arn : String → Error
  panic : Error

pub data Result (A : Type 0) : Type 0 where
  ok : A → Result A
  err : Error → Result A

infixl 5 ◌>>=◌
abbrev pub ◌>>=◌ : {A B : Type 0} → Result A → (A → Result B) → Result B
ok a >>= f = f a
err e >>= f = err e

abbrev pub millis_to_nanos : ℤ → ℤ
millis_to_nanos (pos n) = pos (n * 1000000)
millis_to_nanos (negsuc n) = negsuc (n * 1000000 + 999999)

-- `event_timestamp`, over the range test of the `time` crate
unfoldable pub event_timestamp : (ℤ → Bool) → LambdaTelemetry → Result ℤ
event_timestamp in_range e =
    let nanos = millis_to_nanos e.time_millis in
    if in_range nanos then ok nanos else err component_range

-- is_out_of_memory (processor/mod.rs)
unfoldable pub is_out_of_memory : PlatformReportData → Bool
is_out_of_memory report =
    let explicitly_oomed =
      unwrap_or (map_option (λ t. str_eq t "Runtime.OutOfMemory") report.error_type) false in
    let used_all_mem = leb report.metrics.memory_size_mb report.metrics.max_memory_used_mb in
    explicitly_oomed || (used_all_mem && is_error report.status)
