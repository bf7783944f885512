-- ===== src/Config/Names.antt =====
-- src/config/app_config.rs: the names of modes and sets, as they are read from a variable.

use coralogix_aws_lambda_tel.Prelude.{
  String, true, false, ◌||◌, Option, none, some, List, [], ◌∷◌, map, str_eq,
}
use coralogix_aws_lambda_tel.Prelude.{if◌then◌else◌}
use coralogix_aws_lambda_tel.Config.{
  LogMode, PlatformMetricsMode, OtelMetricsMode, TracingMode, TraceSamplingMode,
  TelemetryReportingStrategy, low_overhead, report_after_invocation,
  report_during_and_after_invocation, PlatformEventLogSet, BuiltInAttributeSet,
  AttributeExclusionMode,
}
use coralogix_aws_lambda_tel.Prelude.{split, replace}
use coralogix_aws_lambda_tel.Config.Environment.{
  Environment, AppConfigError, invalid_log_mode, invalid_platform_event_log, invalid_metrics_mode,
  invalid_otel_metrics_mode, invalid_tracing_mode, invalid_trace_sampling_mode,
  invalid_built_in_attribute, invalid_attribute_exclusion_mode, invalid_reporting_strategy, Checked,
  accepted, rejected, ◌>>=◌,
}

-- the arms of a `match` on a text
choose : {A : Type 0} → String → List (String × A) → Option A
choose t [] = none
choose t ((name, a) ∷ r) = let rest = choose t r in if str_eq t name then some a else rest

-- the arm, or the error
named : {A : Type 0} → AppConfigError → Option A → Checked A
named e none = rejected e
named e (some a) = accepted a

unfoldable pub empty_attributes : BuiltInAttributeSet
empty_attributes = record {
  service_name = false;
  cloud_provider = false;
  cloud_account_id = false;
  cloud_region = false;
  faas_name = false;
  faas_id = false;
  faas_instance_cx_id = false;
}

unfoldable pub all_attributes : BuiltInAttributeSet
all_attributes = record {
  service_name = true;
  cloud_provider = true;
  cloud_account_id = true;
  cloud_region = true;
  faas_name = true;
  faas_id = true;
  faas_instance_cx_id = true;
}

unfoldable pub empty_log_set : PlatformEventLogSet
empty_log_set = record { start = false; runtime_done = false; report = false }

unfoldable pub all_logs : PlatformEventLogSet
all_logs = record { start = true; runtime_done = true; report = true }

-- the set after a name, or nothing for an unknown name
unfoldable pub set_attribute : String → BuiltInAttributeSet → Option BuiltInAttributeSet
unfolding choose
set_attribute t s = choose t (
    ("", s)
    ∷ ("service_name", record s { service_name = true })
    ∷ ("1", record s { service_name = true })
    ∷ ("cloud_provider", record s { cloud_provider = true })
    ∷ ("2", record s { cloud_provider = true })
    ∷ ("cloud_account_id", record s { cloud_account_id = true })
    ∷ ("3", record s { cloud_account_id = true })
    ∷ ("cloud_region", record s { cloud_region = true })
    ∷ ("4", record s { cloud_region = true })
    ∷ ("faas_name", record s { faas_name = true })
    ∷ ("5", record s { faas_name = true })
    ∷ ("faas_id", record s { faas_id = true })
    ∷ ("6", record s { faas_id = true })
    ∷ ("faas_instance_cx_id", record s { faas_instance_cx_id = true })
    ∷ ("7", record s { faas_instance_cx_id = true })
    ∷ [])

unfoldable pub set_log : String → PlatformEventLogSet → Option PlatformEventLogSet
unfolding choose
set_log t s = choose t (
    ("start", record s { start = true })
    ∷ ("1", record s { start = true })
    ∷ ("runtime_done", record s { runtime_done = true })
    ∷ ("2", record s { runtime_done = true })
    ∷ ("report", record s { report = true })
    ∷ ("3", record s { report = true })
    ∷ [])

-- a loop over names, which ends at the first unknown one
unfoldable pub read_names :
    {A : Type 0} → (String → A → Option A) → (String → AppConfigError) → List String → A → Checked A
unfolding named
read_names set unknown [] s = accepted s
read_names set unknown (t ∷ r) s = named (unknown t) (set t s) >>= λ s. read_names set unknown r s

module _ (env : Environment) where
  abbrev lowered : String → String
  lowered s = env.to_lowercase (env.trim s)

  unfoldable pub reporting_strategy_from_str : String → Checked TelemetryReportingStrategy
  unfolding choose named
  reporting_strategy_from_str s = named (invalid_reporting_strategy s) (
      choose (lowered s) (
        ("low_overhead", low_overhead)
        ∷ ("1", low_overhead)
        ∷ ("report_after_invocation", report_after_invocation)
        ∷ ("2", report_after_invocation)
        ∷ ("report_during_and_after_invocation", report_during_and_after_invocation)
        ∷ ("3", report_during_and_after_invocation)
        ∷ []))

  unfoldable pub built_in_attributes_from_str : String → Checked BuiltInAttributeSet
  unfolding read_names set_attribute empty_attributes
  built_in_attributes_from_str s =
      read_names set_attribute invalid_built_in_attribute
        (map (λ t. replace b'.' "_" (lowered t)) (split b',' s)) empty_attributes

  unfoldable pub log_mode_from_str : String → Checked LogMode
  unfolding choose named
  log_mode_from_str s = named (invalid_log_mode (lowered s)) (
      choose (lowered s) (
        ("disabled", LogMode.disabled)
        ∷ ("1", LogMode.disabled)
        ∷ ("structured", LogMode.structured)
        ∷ ("2", LogMode.structured)
        ∷ []))

  unfoldable pub platform_logs_from_str : String → Checked PlatformEventLogSet
  unfolding read_names set_log empty_log_set
  platform_logs_from_str s =
      let t = lowered s in
      if str_eq t "disabled" || (str_eq t "0" || str_eq t "")
      then accepted empty_log_set
      else read_names set_log invalid_platform_event_log (map env.trim (split b',' t)) empty_log_set

  unfoldable pub platform_metrics_mode_from_str : String → Checked PlatformMetricsMode
  unfolding choose named
  platform_metrics_mode_from_str s = named (invalid_metrics_mode (lowered s)) (
      choose (lowered s) (
        ("disabled", PlatformMetricsMode.disabled)
        ∷ ("1", PlatformMetricsMode.disabled)
        ∷ ("platform_report", PlatformMetricsMode.platform_report)
        ∷ ("2", PlatformMetricsMode.platform_report)
        ∷ ("platform_v2", PlatformMetricsMode.platform_v2)
        ∷ ("3", PlatformMetricsMode.platform_v2)
        ∷ []))

  unfoldable pub otel_metrics_mode_from_str : String → Checked OtelMetricsMode
  unfolding choose named
  otel_metrics_mode_from_str s = named (invalid_otel_metrics_mode (lowered s)) (
      choose (lowered s) (
        ("disabled", OtelMetricsMode.disabled)
        ∷ ("1", OtelMetricsMode.disabled)
        ∷ ("direct", OtelMetricsMode.direct)
        ∷ ("2", OtelMetricsMode.direct)
        ∷ ("processed", OtelMetricsMode.processed)
        ∷ ("3", OtelMetricsMode.processed)
        ∷ []))

  unfoldable pub tracing_mode_from_str : String → Checked TracingMode
  unfolding choose named
  tracing_mode_from_str s = named (invalid_tracing_mode (lowered s)) (
      choose (lowered s) (
        ("disabled", TracingMode.disabled)
        ∷ ("1", TracingMode.disabled)
        ∷ ("telemetry_api", TracingMode.telemetry_api)
        ∷ ("2", TracingMode.telemetry_api)
        ∷ ("otel", TracingMode.otel_instrumentation)
        ∷ ("opentelemetry_instrumentation", TracingMode.otel_instrumentation)
        ∷ ("3", TracingMode.otel_instrumentation)
        ∷ []))

  unfoldable pub trace_sampling_mode_from_str : String → Checked TraceSamplingMode
  unfolding choose named
  trace_sampling_mode_from_str s = named (invalid_trace_sampling_mode (lowered s)) (
      choose (lowered s) (
        ("all", TraceSamplingMode.all_traces)
        ∷ ("1", TraceSamplingMode.all_traces)
        ∷ ("follow_xray", TraceSamplingMode.follow_xray)
        ∷ ("2", TraceSamplingMode.follow_xray)
        ∷ []))

  unfoldable pub attribute_exclusion_mode_from_str : String → Checked AttributeExclusionMode
  attribute_exclusion_mode_from_str s =
      let t = lowered s in
      if str_eq t "disabled" || str_eq t "1"
      then accepted AttributeExclusionMode.disabled
      else if str_eq t "predefined" || str_eq t "2"
      then accepted AttributeExclusionMode.predefined
      else if env.is_regex (env.trim s)
      then accepted (AttributeExclusionMode.regex (env.trim s))
      else rejected (invalid_attribute_exclusion_mode s)
