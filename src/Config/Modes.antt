-- ===== src/Config/Modes.antt =====
-- src/config/app_config.rs: the modes that several variables decide together.
use coralogix_aws_lambda_tel.Prelude.{
  String, ◌≡◌, sym, ap, ◌∙◌, subst, Bool, true, false, ◌&&◌, Option, none, some, arith, str_eq,
}
use coralogix_aws_lambda_tel.Prelude.{if◌then◌else◌, unwrap_or}
use coralogix_aws_lambda_tel.Config.{PlatformMetricsMode, TracingMode, LogsMetadataMode}
use coralogix_aws_lambda_tel.Config.Environment.{
  Environment, metrics_mode_conflict, log_only_metrics_conflict, log_only_tracing_conflict, Checked,
  accepted, rejected, ◌>>=◌, bind_accepted, get_string_option, get_bool_option,
}
use coralogix_aws_lambda_tel.Config.Names.{platform_metrics_mode_from_str, tracing_mode_from_str}

-- a mode, where its name is given
optional : {A : Type 0} → (String → Checked A) → Option String → Checked (Option A)
optional from_str none = accepted none
optional from_str (some s) = from_str s >>= λ a. accepted (some a)

-- by CX_METRICS_MODE, CX_METRICS_ENABLED and CX_LOG_ONLY
metrics_mode_of : Option PlatformMetricsMode → Option Bool → Bool → Checked PlatformMetricsMode
metrics_mode_of none none false = accepted PlatformMetricsMode.platform_report
metrics_mode_of none (some true) false = accepted PlatformMetricsMode.platform_report
metrics_mode_of none (some false) false = accepted PlatformMetricsMode.disabled
metrics_mode_of (some mode) none false = accepted mode
metrics_mode_of (some mode) (some b) log_only = rejected metrics_mode_conflict
metrics_mode_of none none true = accepted PlatformMetricsMode.disabled
metrics_mode_of (some PlatformMetricsMode.disabled) none true =
    accepted PlatformMetricsMode.disabled
metrics_mode_of (some PlatformMetricsMode.platform_report) none true =
    rejected log_only_metrics_conflict
metrics_mode_of (some PlatformMetricsMode.platform_v2) none true =
    rejected log_only_metrics_conflict
metrics_mode_of none (some false) true = accepted PlatformMetricsMode.disabled
metrics_mode_of none (some true) true = rejected log_only_metrics_conflict

abbrev is_otel_handler : Option String → Bool
is_otel_handler none = false
is_otel_handler (some s) = str_eq s "/opt/otel-handler"

-- by CX_TRACING_MODE, CX_LOG_ONLY, whether the wrapper of the function is the handler of OpenTelemetry, and
-- whether its file is there
tracing_mode_of : Option TracingMode → Bool → Bool → Bool → Checked TracingMode
tracing_mode_of none true wrapped file = accepted TracingMode.disabled
tracing_mode_of none false wrapped file =
    accepted
      (if wrapped && file then TracingMode.otel_instrumentation else TracingMode.telemetry_api)
tracing_mode_of (some TracingMode.disabled) true wrapped file = accepted TracingMode.disabled
tracing_mode_of (some TracingMode.telemetry_api) true wrapped file =
    rejected log_only_tracing_conflict
tracing_mode_of (some TracingMode.otel_instrumentation) true wrapped file =
    rejected log_only_tracing_conflict
tracing_mode_of (some mode) false wrapped file = accepted mode

metadata_mode_of : Bool → Option Bool → Option Bool → Option Bool → LogsMetadataMode
metadata_mode_of false trace_ref execution invocation_id = LogsMetadataMode.disabled
metadata_mode_of true trace_ref execution invocation_id = LogsMetadataMode.enabled (record {
  include_trace_ref = unwrap_or trace_ref true;
  include_execution = unwrap_or execution true;
  include_invocation_id = unwrap_or invocation_id false;
})

module _ (env : Environment) where
  -- the second variable is read only where the first is not set
  logs_metadata_enabled : Option Bool → Checked Bool
  logs_metadata_enabled (some b) = accepted b
  logs_metadata_enabled none =
      get_bool_option env "LOG_METADATA_ENABLED" >>= λ b. accepted (unwrap_or b true)

  unfoldable pub extract_logs_metadata_mode : Checked LogsMetadataMode
  unfolding logs_metadata_enabled metadata_mode_of
  extract_logs_metadata_mode = get_bool_option env "LOGS_METADATA_ENABLED" >>= λ first.
      logs_metadata_enabled first >>= λ enabled.
      get_bool_option env "LOGS_METADATA_INCLUDE_TRACE_REF" >>= λ trace_ref.
      get_bool_option env "LOGS_METADATA_INCLUDE_EXECUTION" >>= λ execution.
      get_bool_option env "LOGS_METADATA_INCLUDE_INVOCATION_ID" >>= λ invocation_id.
      accepted (metadata_mode_of enabled trace_ref execution invocation_id)

  unfoldable pub extract_platform_metrics_mode : Checked PlatformMetricsMode
  unfolding optional metrics_mode_of
  extract_platform_metrics_mode =
      optional (platform_metrics_mode_from_str env) (get_string_option env "METRICS_MODE")
      >>= λ mode. get_bool_option env "METRICS_ENABLED" >>= λ enabled.
          get_bool_option env "LOG_ONLY" >>= λ log_only.
          metrics_mode_of mode enabled (unwrap_or log_only false)

  unfoldable pub extract_tracing_mode : Checked TracingMode
  unfolding optional tracing_mode_of
  extract_tracing_mode =
      optional (tracing_mode_from_str env) (get_string_option env "TRACING_MODE") >>= λ mode.
      get_bool_option env "LOG_ONLY" >>= λ log_only.
      tracing_mode_of mode (unwrap_or log_only false)
        (is_otel_handler (env.var "AWS_LAMBDA_EXEC_WRAPPER")) (env.file_exists "/opt/otel-handler")

  -- With CX_LOG_ONLY=true no mode of the metrics is accepted but the disabled one.
  metrics_mode_of-log_only :
      (mode : Option PlatformMetricsMode) (enabled : Option Bool) (m : PlatformMetricsMode)
      → metrics_mode_of mode enabled true ≡ accepted m
      → m ≡ PlatformMetricsMode.disabled
  unfolding metrics_mode_of
  metrics_mode_of-log_only none none m e = ground arith
  metrics_mode_of-log_only none (some true) m e = ground arith
  metrics_mode_of-log_only none (some false) m e = ground arith
  metrics_mode_of-log_only (some PlatformMetricsMode.disabled) none m e = ground arith
  metrics_mode_of-log_only (some PlatformMetricsMode.platform_report) none m e = ground arith
  metrics_mode_of-log_only (some PlatformMetricsMode.platform_v2) none m e = ground arith
  metrics_mode_of-log_only (some x) (some b) m e = ground arith

  tracing_mode_of-log_only :
      (mode : Option TracingMode) (wrapped file : Bool) (m : TracingMode)
      → tracing_mode_of mode true wrapped file ≡ accepted m
      → m ≡ TracingMode.disabled
  unfolding tracing_mode_of
  tracing_mode_of-log_only none w f m e = ground arith
  tracing_mode_of-log_only (some TracingMode.disabled) w f m e = ground arith
  tracing_mode_of-log_only (some TracingMode.telemetry_api) w f m e = ground arith
  tracing_mode_of-log_only (some TracingMode.otel_instrumentation) w f m e = ground arith

  abbrev pub is_log_only : Bool
  is_log_only = elim (get_bool_option env "LOG_ONLY") [
    | accepted b ↦ unwrap_or b false
    | rejected x ↦ false
  ]

  log_only_accepted :
      (b : Option Bool)
      → get_bool_option env "LOG_ONLY" ≡ accepted b
      → is_log_only ≡ unwrap_or b false
  log_only_accepted b e =
      ap
        (λ (c : Checked (Option Bool)). elim c [
          | accepted o ↦ unwrap_or o false
          | rejected x ↦ false
        ])
        e

  pub extract_platform_metrics_mode-log_only :
      (m : PlatformMetricsMode)
      → is_log_only ≡ true
      → extract_platform_metrics_mode ≡ accepted m
      → m ≡ PlatformMetricsMode.disabled
  unfolding extract_platform_metrics_mode
  extract_platform_metrics_mode-log_only m only e =
      let (mode, _, e1) =
        bind_accepted
          (optional (platform_metrics_mode_from_str env) (get_string_option env "METRICS_MODE")) _ m
          e in
      let (enabled, _, e2) = bind_accepted (get_bool_option env "METRICS_ENABLED") _ m e1 in
      let (b, be, e3) = bind_accepted (get_bool_option env "LOG_ONLY") _ m e2 in
      metrics_mode_of-log_only mode enabled m (
        subst (λ o. metrics_mode_of mode enabled o ≡ accepted m)
          (sym (log_only_accepted b be) ∙ only) e3)

  pub extract_tracing_mode-log_only :
      (m : TracingMode)
      → is_log_only ≡ true
      → extract_tracing_mode ≡ accepted m
      → m ≡ TracingMode.disabled
  unfolding extract_tracing_mode
  extract_tracing_mode-log_only m only e =
      let (mode, _, e1) =
        bind_accepted (optional (tracing_mode_from_str env) (get_string_option env "TRACING_MODE"))
          _ m e in
      let (b, be, e2) = bind_accepted (get_bool_option env "LOG_ONLY") _ m e1 in
      let wrapped = is_otel_handler (env.var "AWS_LAMBDA_EXEC_WRAPPER") in
      let file = env.file_exists "/opt/otel-handler" in
      tracing_mode_of-log_only mode wrapped file m (
        subst (λ o. tracing_mode_of mode o wrapped file ≡ accepted m)
          (sym (log_only_accepted b be) ∙ only) e2)
