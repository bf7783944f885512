-- ===== src/Examples/Settings.antt =====
-- src/config: an environment of logs and metrics, with a domain, a key and a target for metrics.
use coralogix_aws_lambda_tel.Prelude.{
  String, ◌≡◌, refl, true, false, none, some, List, [], ◌∷◌, str_eq,
}
use coralogix_aws_lambda_tel.Prelude.{if◌then◌else◌}
use coralogix_aws_lambda_tel.Prelude.{find, modify_entry}
use coralogix_aws_lambda_tel.Config.{
  LogMode, PlatformMetricsMode, OtelMetricsMode, TracingMode, TraceSamplingMode, low_overhead,
  LogsMetadataMode, BuiltInAttributeSet, AttributeConfig, AttributeConfigs, AttributeExclusionMode,
}
use coralogix_aws_lambda_tel.Prelude.{split, replace}
use coralogix_aws_lambda_tel.Config.Environment.{
  Environment, accepted, ◌>>=◌, get_string_option, get_string, get_bool_option, get_usize_option,
  get_i64_option, get_duration_ms, get_parsable,
}
use coralogix_aws_lambda_tel.Config.Names.{
  all_logs, reporting_strategy_from_str, built_in_attributes_from_str,
}
use coralogix_aws_lambda_tel.Config.Targets.{
  TargetConfigs, coralogix, otel, otlp, env_var, lacks_target, set_count, extract_target_configs,
  extract_aws_telemetry_interval, extract_target_configs-covers,
}
use coralogix_aws_lambda_tel.Config.Attributes.{extract_attribute_configs, with_faas_instance}
use coralogix_aws_lambda_tel.Config.Modes.{
  extract_tracing_mode, extract_platform_metrics_mode, extract_logs_metadata_mode,
}
use coralogix_aws_lambda_tel.Config.Load.{AppConfig, load}
use coralogix_aws_lambda_tel.Config.Load.Soundness.{IsSound, load-IsSound, load-log_only}

abbrev entries : List (String × String)
entries =
    ("CX_DOMAIN", "eu2.coralogix.com")
    ∷ ("CX_API_KEY", "k")
    ∷ ("CX_OTEL_METRICS_URL", "http://localhost")
    ∷ ("CORALOGIX_AWS_TELEMETRY_INTERVAL_MS", "100")
    ∷ ("CX_REPORTING_STRATEGY", "low_overhead")
    ∷ ("CX_LOG_ONLY", "true")
    ∷ ("CX_RESOURCE_BUILT_IN_ATTRIBUTES", "1,cloud.region")
    ∷ ("CX_LOGS_RESOURCE_EXTRA_ATTRIBUTES", "team=core,lonely")
    ∷ []

abbrev environment : Environment
environment = record {
  var = λ key. find str_eq key entries;
  trim = λ s. s;
  to_lowercase = λ s. s;
  parse_usize = λ s. if str_eq s "100" then some 100 else none;
  parse_u64 = λ s. none;
  parse_i64 = λ s. none;
  is_regex = λ s. false;
  file_exists = λ s. false;
}

abbrev targets : TargetConfigs
targets = record {
  logs = none;
  traces = none;
  metrics = some (otel "http://localhost");
  main = some (otlp (coralogix "eu2.coralogix.com" (env_var "k")));
  alpn_enabled = false;
  combined_telemetry_enabled = false;
}

abbrev built_in_read : BuiltInAttributeSet
built_in_read = record {
  service_name = true;
  cloud_provider = false;
  cloud_account_id = false;
  cloud_region = true;
  faas_name = false;
  faas_id = false;
  faas_instance_cx_id = false;
}

abbrev attributes_read : AttributeConfig
attributes_read = record { built_in = built_in_read; extra = [] }

abbrev attributes : AttributeConfigs
attributes = record {
  logs = record { built_in = built_in_read; extra = ("team", "core") ∷ [] };
  traces = attributes_read;
  metrics = with_faas_instance attributes_read;
}

abbrev configuration : AppConfig
configuration = record {
  target = targets;
  aws_telemetry_interval_ms = 100;
  otlp_server_enabled = true;
  tags_enabled = false;
  telemetry_service_config = record {
    reporting_strategy = low_overhead;
    reporting_delay = 15000000000;
    max_shutdown_flush_delay = 600000000;
    span_sending_threshold = 2048;
    processor_config = record {
      logs_metadata_mode = LogsMetadataMode.enabled (record {
        include_trace_ref = true;
        include_execution = true;
        include_invocation_id = false;
      });
      log_mode = LogMode.structured;
      platform_log_set = record { start = true; runtime_done = true; report = true };
      platform_logs = record { include_request_id = true; hide_default_values = false };
      platform_metrics_mode = PlatformMetricsMode.disabled;
      otel_metrics_mode = OtelMetricsMode.processed;
      tracing_mode = TracingMode.disabled;
      trace_sampling_mode = TraceSamplingMode.all_traces;
      message_size_limit = 30000;
      excluded_span_attributes = AttributeExclusionMode.disabled;
      resource_attributes = attributes;
    };
  };
  function_context_provider_config = record {
    configured_application = none;
    configured_subsystem = none;
    configured_service_name = none;
    tag_cache_validity = 300000;
  };
}

attributes_are_read : extract_attribute_configs environment ≡ accepted attributes
unfolding extract_attribute_configs ◌>>=◌ find get_string_option built_in_attributes_from_str split
    replace modify_entry
attributes_are_read = refl

configuration_is_read : load environment ≡ accepted configuration
unfolding load ◌>>=◌ find get_string_option get_string reporting_strategy_from_str get_parsable
    extract_tracing_mode get_bool_option extract_platform_metrics_mode extract_target_configs
    extract_aws_telemetry_interval get_usize_option get_duration_ms extract_logs_metadata_mode
    extract_attribute_configs built_in_attributes_from_str split replace get_i64_option all_logs
    modify_entry
configuration_is_read = refl

extract_target_configs-covers_example :
    (lacks_target true targets.main targets.logs ≡ false)
    × (lacks_target true targets.main targets.traces ≡ false)
    × (lacks_target true targets.main targets.metrics ≡ false)
    × (set_count
          (get_string_option environment "FIREHOSE")
          (get_string_option environment "DOMAIN")
          (get_string_option environment "OTEL_URL")
        ≡ 1)
extract_target_configs-covers_example =
    extract_target_configs-covers environment true true true targets (
      unfold extract_target_configs in
      unfold ◌>>=◌ in
      unfold get_string_option in
      unfold get_bool_option in unfold get_usize_option in unfold find in refl)

load-IsSound_example : IsSound configuration
load-IsSound_example = load-IsSound environment configuration configuration_is_read

load-log_only_example :
    (configuration.telemetry_service_config.processor_config.tracing_mode ≡ TracingMode.disabled)
    × (configuration.telemetry_service_config.processor_config.platform_metrics_mode
        ≡ PlatformMetricsMode.disabled)
load-log_only_example =
    load-log_only environment configuration (unfold get_bool_option in unfold find in refl)
      configuration_is_read
