-- ===== src/Config.antt =====
-- src/config/app_config.rs: the configuration that the other parts read.
pub mod Environment
pub mod Targets
pub mod Names
pub mod Attributes
pub mod Modes
pub mod Load
use coralogix_aws_lambda_tel.Prelude.{ℕ, String, Bool, true, false, Option, none, some, List}

pub data LogMode : Type 0 where
  disabled structured : LogMode

pub data PlatformMetricsMode : Type 0 where
  disabled platform_report platform_v2 : PlatformMetricsMode

pub data OtelMetricsMode : Type 0 where
  disabled direct processed : OtelMetricsMode

pub data TracingMode : Type 0 where
  disabled telemetry_api otel_instrumentation : TracingMode

pub data TraceSamplingMode : Type 0 where
  all_traces follow_xray : TraceSamplingMode

pub data TelemetryReportingStrategy : Type 0 where
  low_overhead report_after_invocation report_during_and_after_invocation :
      TelemetryReportingStrategy

abbrev pub send_after_invocation : TelemetryReportingStrategy → Bool
send_after_invocation low_overhead = false
send_after_invocation report_after_invocation = true
send_after_invocation report_during_and_after_invocation = true

abbrev pub send_after_delay : TelemetryReportingStrategy → Bool
send_after_delay low_overhead = true
send_after_delay report_after_invocation = false
send_after_delay report_during_and_after_invocation = true

abbrev pub is_structured : LogMode → Bool
is_structured LogMode.structured = true
is_structured LogMode.disabled = false

pub record PlatformEventLogSet : Type 0 where
  pub start : Bool
  pub runtime_done : Bool
  pub report : Bool

pub record PlatformLogsConfig : Type 0 where
  pub include_request_id : Bool
  pub hide_default_values : Bool

pub record LogMetadataConfig : Type 0 where
  pub include_trace_ref : Bool
  pub include_execution : Bool
  pub include_invocation_id : Bool

pub data LogsMetadataMode : Type 0 where
  disabled : LogsMetadataMode
  enabled : LogMetadataConfig → LogsMetadataMode

pub record BuiltInAttributeSet : Type 0 where
  pub service_name : Bool
  pub cloud_provider : Bool
  pub cloud_account_id : Bool
  pub cloud_region : Bool
  pub faas_name : Bool
  pub faas_id : Bool
  pub faas_instance_cx_id : Bool

pub record AttributeConfig : Type 0 where
  pub built_in : BuiltInAttributeSet
  pub extra : List (String × String)

pub record AttributeConfigs : Type 0 where
  pub logs : AttributeConfig
  pub traces : AttributeConfig
  pub metrics : AttributeConfig

-- `Regex` is the `regex` crate's: here the source text of the expression
pub data AttributeExclusionMode : Type 0 where
  disabled predefined : AttributeExclusionMode
  regex : String → AttributeExclusionMode

abbrev pub predefined_attribute_exclusion_regex : String
predefined_attribute_exclusion_regex =
    "http\\.request\\.header\\.x-api-key|http\\.request\\.header\\.authorization"

-- `AttributeExclusionMode::regex`
abbrev pub exclusion_regex : AttributeExclusionMode → Option String
exclusion_regex AttributeExclusionMode.disabled = none
exclusion_regex predefined = some predefined_attribute_exclusion_regex
exclusion_regex (regex r) = some r

pub record TelemetryProcessorConfig : Type 0 where
  pub logs_metadata_mode : LogsMetadataMode
  pub log_mode : LogMode
  pub platform_log_set : PlatformEventLogSet
  pub platform_logs : PlatformLogsConfig
  pub platform_metrics_mode : PlatformMetricsMode
  pub otel_metrics_mode : OtelMetricsMode
  pub tracing_mode : TracingMode
  pub trace_sampling_mode : TraceSamplingMode
  pub message_size_limit : ℕ
  pub excluded_span_attributes : AttributeExclusionMode
  pub resource_attributes : AttributeConfigs

-- durations in nanoseconds
pub record TelemetryServiceConfig : Type 0 where
  pub reporting_strategy : TelemetryReportingStrategy
  pub reporting_delay : ℕ
  pub max_shutdown_flush_delay : ℕ
  pub span_sending_threshold : ℕ
  pub processor_config : TelemetryProcessorConfig
