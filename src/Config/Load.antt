-- ===== src/Config/Load.antt =====
-- src/config/app_config.rs: `AppConfig::load`, the whole configuration from the environment.
pub mod Soundness
use coralogix_aws_lambda_tel.Prelude.{
  ℕ, zero, suc, ◌+◌, ◌-◌, ◌*◌, ◌/◌, ◌%◌, ◌≤◌, ◌<◌, min, max, String, ◌≡◌, refl, sym, ap, ◌∙◌, subst,
  fun_ext, ◌≢◌, ◌↔◌, ◌⊎◌, inl, inr, Bool, true, false, not, ◌&&◌, ◌||◌, Option, none, some, List,
  [], ◌∷◌, ◌++◌, map, append_assoc, append-nil, arith, str_eq, str_eq_iff,
}
use coralogix_aws_lambda_tel.Prelude.{
  ltb, leb, ◌==◌, if◌then◌else◌, ltb→lt, lt→ltb, leb→le, ==_iff, tests, Bool-cases, Option-cases,
  length, all, is_empty, is_some, is_none, or_option, unwrap_or, last_or, keep, length-append,
  map_option, and_then, All, All-append,
}
use coralogix_aws_lambda_tel.Prelude.{
  u64_mod, u64_max, i64_sign, add64, mul64, le_i64, max_i64, ℤ, pos, negsuc, eq_ℤ, as_u64, F64,
  FloatOps, f64_zero, f64_thousand, f64_million, find, modify_entry, ◌<>◌, show_u64, show_i64, join,
}
use coralogix_aws_lambda_tel.Config
use coralogix_aws_lambda_tel.Config.{
  LogMode, is_structured, PlatformMetricsMode, OtelMetricsMode, TracingMode, TraceSamplingMode,
  TelemetryReportingStrategy, low_overhead, report_after_invocation,
  report_during_and_after_invocation, send_after_invocation, send_after_delay, PlatformEventLogSet,
  PlatformLogsConfig, LogMetadataConfig, LogsMetadataMode, BuiltInAttributeSet, AttributeConfig,
  AttributeConfigs, AttributeExclusionMode, exclusion_regex, TelemetryProcessorConfig,
  TelemetryServiceConfig,
}
use coralogix_aws_lambda_tel.Config.Environment.{
  Environment, AppConfigError, metrics_mode_conflict, log_only_metrics_conflict,
  log_only_tracing_conflict, Checked, accepted, rejected, ◌>>=◌, bind_accepted, accepted-inj,
  Accepts, accepted-Accepts, bind-Accepts, get_env_var_with_prefix, get_string_option, get_string,
  get_bool_option, get_usize_option, get_u64_option, get_i64_option, get_duration_ms, get_parsable,
}
use coralogix_aws_lambda_tel.Config.Names.{
  empty_attributes, all_attributes, empty_log_set, all_logs, reporting_strategy_from_str,
  built_in_attributes_from_str, log_mode_from_str, platform_logs_from_str,
  platform_metrics_mode_from_str, otel_metrics_mode_from_str, tracing_mode_from_str,
  trace_sampling_mode_from_str, attribute_exclusion_mode_from_str,
}
use coralogix_aws_lambda_tel.Config.Targets.{
  TargetConfigs, lacks_target, extract_target_configs, extract_aws_telemetry_interval,
  extract_target_configs-covers, extract_aws_telemetry_interval-bounds,
}
use coralogix_aws_lambda_tel.Config.Attributes.{
  extract_attribute_config, extract_attribute_configs, extract_attribute_configs-mandatory,
}
use coralogix_aws_lambda_tel.Config.Modes.{
  extract_logs_metadata_mode, extract_platform_metrics_mode, extract_tracing_mode, is_log_only,
  extract_platform_metrics_mode-log_only, extract_tracing_mode-log_only,
}

-- the validity in milliseconds, an `i64`
pub record FunctionContextProviderConfig : Type 0 where
  pub configured_application : Option String
  pub configured_subsystem : Option String
  pub configured_service_name : Option String
  pub tag_cache_validity : ℕ

pub record AppConfig : Type 0 where
  pub target : TargetConfigs
  pub aws_telemetry_interval_ms : ℕ
  pub otlp_server_enabled : Bool
  pub tags_enabled : Bool
  pub telemetry_service_config : TelemetryServiceConfig
  pub function_context_provider_config : FunctionContextProviderConfig

-- what `load` reads first: the strategy and the modes of the three pillars
pub record Modes : Type 0 where
  pub reporting_strategy : TelemetryReportingStrategy
  pub log_mode : LogMode
  pub tracing_mode : TracingMode
  pub platform_metrics_mode : PlatformMetricsMode
  pub otel_metrics_mode : OtelMetricsMode

abbrev pub traces_enabled : TracingMode → Bool
traces_enabled TracingMode.disabled = false
traces_enabled TracingMode.telemetry_api = true
traces_enabled TracingMode.otel_instrumentation = true

abbrev pub metrics_enabled : PlatformMetricsMode → OtelMetricsMode → Bool
metrics_enabled PlatformMetricsMode.disabled OtelMetricsMode.disabled = false
metrics_enabled PlatformMetricsMode.disabled OtelMetricsMode.direct = true
metrics_enabled PlatformMetricsMode.disabled OtelMetricsMode.processed = true
metrics_enabled PlatformMetricsMode.platform_report o = true
metrics_enabled PlatformMetricsMode.platform_v2 o = true

-- the warnings of `check_for_known_configuration_issues`
pub data ConfigurationIssue : Type 0 where
  short_flush_delay long_flush_delay : (max_shutdown_flush_ms : ℕ) → ConfigurationIssue
  reporting_delay_without_effect : ConfigurationIssue

abbrev is_report_after_invocation : TelemetryReportingStrategy → Bool
is_report_after_invocation low_overhead = false
is_report_after_invocation report_after_invocation = true
is_report_after_invocation report_during_and_after_invocation = false

module _ (env : Environment) where
  unfoldable pub check_for_known_configuration_issues : AppConfig → List ConfigurationIssue
  check_for_known_configuration_issues config =
      let service = config.telemetry_service_config in
      let flush_ms = service.max_shutdown_flush_delay / 1000000 in
      (if leb flush_ms config.aws_telemetry_interval_ms
        then short_flush_delay flush_ms ∷ []
        else [])
      ++ (if leb 2000 flush_ms then long_flush_delay flush_ms ∷ [] else [])
      ++ (if is_report_after_invocation service.reporting_strategy
            && is_some (get_env_var_with_prefix env "REPORTING_DELAY_MS")
          then reporting_delay_without_effect ∷ []
          else [])

  abbrev bool_or : String → Bool → Checked Bool
  bool_or key b = get_bool_option env key >>= λ o. accepted (unwrap_or o b)

  load_modes : Checked Modes
  load_modes = get_string env "REPORTING_STRATEGY" >>= λ name.
      reporting_strategy_from_str env name >>= λ strategy.
      get_parsable env (log_mode_from_str env) "LOG_MODE" LogMode.structured >>= λ log_mode.
      extract_tracing_mode env >>= λ tracing. extract_platform_metrics_mode env >>= λ platform.
      get_parsable env (otel_metrics_mode_from_str env) "OTEL_METRICS_MODE"
        OtelMetricsMode.processed
      >>= λ otel_mode. accepted (record {
        reporting_strategy = strategy;
        log_mode = log_mode;
        tracing_mode = tracing;
        platform_metrics_mode = platform;
        otel_metrics_mode = otel_mode;
      })

  load_processor_config : Modes → Checked TelemetryProcessorConfig
  load_processor_config m = extract_logs_metadata_mode env >>= λ metadata.
      get_parsable env (platform_logs_from_str env) "PLATFORM_LOGS" all_logs >>= λ log_set.
      bool_or "PLATFORM_LOGS_INCLUDE_REQUEST_ID" true >>= λ include.
      bool_or "PLATFORM_LOGS_HIDE_DEFAULT_VALUES" false >>= λ hide.
      get_parsable env (trace_sampling_mode_from_str env) "TRACE_SAMPLING_MODE"
        TraceSamplingMode.all_traces
      >>= λ sampling. get_usize_option env "MESSAGE_SIZE_LIMIT" >>= λ size.
          get_parsable env (attribute_exclusion_mode_from_str env) "EXCLUDED_SPAN_ATTRIBUTES"
            AttributeExclusionMode.disabled
          >>= λ excluded. extract_attribute_configs env >>= λ attributes. accepted (record {
            logs_metadata_mode = metadata;
            log_mode = m.log_mode;
            platform_log_set = log_set;
            platform_logs = record { include_request_id = include; hide_default_values = hide };
            platform_metrics_mode = m.platform_metrics_mode;
            otel_metrics_mode = m.otel_metrics_mode;
            tracing_mode = m.tracing_mode;
            trace_sampling_mode = sampling;
            message_size_limit = unwrap_or size 30000;
            excluded_span_attributes = excluded;
            resource_attributes = attributes;
          })

  load_service_config : Modes → Checked TelemetryServiceConfig
  unfolding load_processor_config
  load_service_config m = get_duration_ms env "REPORTING_DELAY_MS" 15000 >>= λ delay.
      get_duration_ms env "MAX_SHUTDOWN_FLUSH_DELAY_MS" 600 >>= λ flush_delay.
      get_usize_option env "SPAN_SENDING_THRESHOLD" >>= λ threshold.
      load_processor_config m >>= λ processor. accepted (record {
        reporting_strategy = m.reporting_strategy;
        reporting_delay = delay;
        max_shutdown_flush_delay = flush_delay;
        span_sending_threshold = unwrap_or threshold 2048;
        processor_config = processor;
      })

  load_provider_config : Checked FunctionContextProviderConfig
  load_provider_config = get_i64_option env "TAG_CACHE_VALIDITY_MS" >>= λ validity.
      accepted (record {
        configured_application = get_string_option env "APPLICATION";
        configured_subsystem = get_string_option env "SUBSYSTEM";
        configured_service_name = get_string_option env "SERVICE_NAME";
        tag_cache_validity = unwrap_or validity (5 * 60000);
      })

  load_with : Modes → Checked AppConfig
  unfolding load_service_config load_provider_config
  load_with m =
      extract_target_configs env (is_structured m.log_mode) (traces_enabled m.tracing_mode)
        (metrics_enabled m.platform_metrics_mode m.otel_metrics_mode)
      >>= λ target. extract_aws_telemetry_interval env m.reporting_strategy >>= λ interval.
          bool_or "OTLP_SERVER_ENABLED" true >>= λ server. bool_or "TAGS_ENABLED" false >>= λ tags.
          load_service_config m >>= λ service. load_provider_config >>= λ provider.
          accepted (record {
            target = target;
            aws_telemetry_interval_ms = interval;
            otlp_server_enabled = server;
            tags_enabled = tags;
            telemetry_service_config = service;
            function_context_provider_config = provider;
          })

  unfoldable pub load : Checked AppConfig
  unfolding load_modes load_with
  load = load_modes >>= load_with
