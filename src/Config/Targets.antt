-- ===== src/Config/Targets.antt =====
-- src/config/app_config.rs: where the telemetry is sent, and the interval at which AWS delivers it.
use coralogix_aws_lambda_tel.Prelude.{
  ℕ, ◌+◌, ◌≤◌, String, ◌≡◌, sym, subst, Bool, false, not, ◌&&◌, Option, none, some, arith,
}
use coralogix_aws_lambda_tel.Prelude.{
  leb, if◌then◌else◌, is_some, is_none, or_option, unwrap_or, map_option,
}
use coralogix_aws_lambda_tel.Prelude.{◌<>◌}
use coralogix_aws_lambda_tel.Config.Environment.{
  Environment, firehose_conflict, url_conflict, key_source_conflict, missing_key_source,
  missing_target, invalid_telemetry_interval, Checked, accepted, rejected, ◌>>=◌, bind_accepted,
  get_string_option, get_bool_option, get_usize_option,
}
use coralogix_aws_lambda_tel.Config.{
  TelemetryReportingStrategy, low_overhead, report_after_invocation,
  report_during_and_after_invocation,
}

pub data KeySourceConfig : Type 0 where
  env_var : (key : String) → KeySourceConfig
  secrets_manager : (secret_id : String) → KeySourceConfig

pub data OtlpTargetConfig : Type 0 where
  coralogix : (domain : String) → KeySourceConfig → OtlpTargetConfig
  otel : (url : String) → OtlpTargetConfig

pub data TargetConfig : Type 0 where
  otlp : OtlpTargetConfig → TargetConfig
  firehose : (delivery_stream_name : String) → TargetConfig

pub record TargetConfigs : Type 0 where
  pub logs : Option OtlpTargetConfig
  pub traces : Option OtlpTargetConfig
  pub metrics : Option OtlpTargetConfig
  pub main : Option TargetConfig
  pub alpn_enabled : Bool
  pub combined_telemetry_enabled : Bool

key_source : Option String → Option String → Checked KeySourceConfig
key_source (some key) none = accepted (env_var key)
key_source none (some secret_id) = accepted (secrets_manager secret_id)
key_source (some key) (some secret_id) = rejected key_source_conflict
key_source none none = rejected missing_key_source

abbrev pub lacks_target : Bool → Option TargetConfig → Option OtlpTargetConfig → Bool
lacks_target enabled main own = enabled && (is_none main && is_none own)

check_targets : Bool → Bool → Bool → TargetConfigs → Checked TargetConfigs
check_targets logs_enabled traces_enabled metrics_enabled c =
    if lacks_target logs_enabled c.main c.logs
    then rejected (missing_target "LOGS")
    else if lacks_target traces_enabled c.main c.traces
    then rejected (missing_target "TRACES")
    else if lacks_target metrics_enabled c.main c.metrics
    then rejected (missing_target "METRICS")
    else accepted c

default_interval : TelemetryReportingStrategy → ℕ
default_interval low_overhead = 500
default_interval report_after_invocation = 25
default_interval report_during_and_after_invocation = 500

interval_of : Option ℕ → TelemetryReportingStrategy → Checked ℕ
unfolding default_interval
interval_of none strategy = accepted (default_interval strategy)
interval_of (some ms) strategy =
    if not (leb 25 ms && leb ms 30000)
    then rejected (invalid_telemetry_interval ms)
    else accepted ms

-- How many of three variables are set.
abbrev pub set_count : Option String → Option String → Option String → ℕ
set_count a b c =
    (if is_some a then 1 else 0) + ((if is_some b then 1 else 0) + (if is_some c then 1 else 0))

check_targets-accepted :
    (l t m : Bool) (c c' : TargetConfigs)
    → check_targets l t m c ≡ accepted c'
    → (c' ≡ c)
      × (lacks_target l c.main c.logs ≡ false)
      × (lacks_target t c.main c.traces ≡ false)
      × (lacks_target m c.main c.metrics ≡ false)
unfolding check_targets
check_targets-accepted l t m c c' e = ground arith

interval_of-bounds :
    (o : Option ℕ) (strategy : TelemetryReportingStrategy) (ms : ℕ)
    → interval_of o strategy ≡ accepted ms
    → (25 ≤ ms) × (ms ≤ 30000)
unfolding interval_of default_interval
interval_of-bounds none low_overhead ms e = ground arith
interval_of-bounds none report_after_invocation ms e = ground arith
interval_of-bounds none report_during_and_after_invocation ms e = ground arith
interval_of-bounds (some n) strategy ms e = ground arith

module _ (env : Environment) where
  unfoldable pub extract_key_source_config : Checked KeySourceConfig
  unfolding key_source
  extract_key_source_config =
      key_source (or_option (get_string_option env "API_KEY") (get_string_option env "PRIVATE_KEY"))
        (get_string_option env "SECRET")

  -- by the variables FIREHOSE, DOMAIN and OTEL_URL
  main_target : Option String → Option String → Option String → Checked (Option TargetConfig)
  unfolding extract_key_source_config
  main_target none (some domain) none =
      extract_key_source_config >>= λ k. accepted (some (otlp (coralogix domain k)))
  main_target none none (some url) = accepted (some (otlp (otel url)))
  main_target (some delivery_stream_name) none none =
      accepted (some (firehose delivery_stream_name))
  main_target (some f) d (some u) = rejected firehose_conflict
  main_target (some f) (some d) none = rejected firehose_conflict
  main_target none (some d) (some u) = rejected url_conflict
  main_target none none none = accepted none

  unfoldable pub extract_target_config : String → Option OtlpTargetConfig
  extract_target_config pillar =
      map_option otel (get_string_option env ("OTEL_" <> pillar <> "_URL"))

  unfoldable pub extract_target_configs : Bool → Bool → Bool → Checked TargetConfigs
  unfolding main_target extract_target_config check_targets
  extract_target_configs logs_enabled traces_enabled metrics_enabled =
      get_bool_option env "OTEL_ALPN_ENABLED" >>= λ alpn.
      get_bool_option env "COMBINED_TELEMETRY_ENABLED" >>= λ combined.
      main_target (get_string_option env "FIREHOSE") (get_string_option env "DOMAIN")
        (get_string_option env "OTEL_URL")
      >>= λ main. check_targets logs_enabled traces_enabled metrics_enabled (record {
        logs = extract_target_config "LOGS";
        traces = extract_target_config "TRACES";
        metrics = extract_target_config "METRICS";
        main = main;
        alpn_enabled = unwrap_or alpn false;
        combined_telemetry_enabled = unwrap_or combined false;
      })

  unfoldable pub extract_aws_telemetry_interval : TelemetryReportingStrategy → Checked ℕ
  unfolding interval_of
  extract_aws_telemetry_interval strategy =
      get_usize_option env "AWS_TELEMETRY_INTERVAL_MS" >>= λ ms. interval_of ms strategy

  main_target-count :
      (a b c : Option String) (m : Option TargetConfig)
      → main_target a b c ≡ accepted m
      → set_count a b c ≡ (if is_some m then 1 else 0)
  unfolding main_target
  main_target-count none (some d) none m e =
      let (k, _, e') = bind_accepted extract_key_source_config _ m e in ground arith
  main_target-count none none (some u) m e = ground arith
  main_target-count (some f) none none m e = ground arith
  main_target-count (some f) none (some u) m e = ground arith
  main_target-count (some f) (some d) (some u) m e = ground arith
  main_target-count (some f) (some d) none m e = ground arith
  main_target-count none (some d) (some u) m e = ground arith
  main_target-count none none none m e = ground arith

  -- When the configuration of the targets is accepted, every enabled pillar has its own target or the main
  -- one, and at most one of the three variables of the main target is set: exactly one where there is a main target.
  pub extract_target_configs-covers :
      (logs_enabled traces_enabled metrics_enabled : Bool) (c : TargetConfigs)
      → extract_target_configs logs_enabled traces_enabled metrics_enabled ≡ accepted c
      → (lacks_target logs_enabled c.main c.logs ≡ false)
        × (lacks_target traces_enabled c.main c.traces ≡ false)
        × (lacks_target metrics_enabled c.main c.metrics ≡ false)
        × (set_count
              (get_string_option env "FIREHOSE")
              (get_string_option env "DOMAIN")
              (get_string_option env "OTEL_URL")
            ≡ (if is_some c.main then 1 else 0))
  unfolding extract_target_configs
  extract_target_configs-covers l t m c e =
      let (alpn, _, e1) = bind_accepted (get_bool_option env "OTEL_ALPN_ENABLED") _ c e in
      let (combined, _, e2) =
        bind_accepted (get_bool_option env "COMBINED_TELEMETRY_ENABLED") _ c e1 in
      let (main, main_accepted, e3) =
        bind_accepted
          (main_target (get_string_option env "FIREHOSE") (get_string_option env "DOMAIN")
            (get_string_option env "OTEL_URL"))
          _ c e2 in
      let (same, no_logs, no_traces, no_metrics) = check_targets-accepted l t m _ c e3 in
      let counted =
        main_target-count (get_string_option env "FIREHOSE") (get_string_option env "DOMAIN")
          (get_string_option env "OTEL_URL") main main_accepted in
      subst
        (λ (c' : TargetConfigs).
          (lacks_target l c'.main c'.logs ≡ false)
          × (lacks_target t c'.main c'.traces ≡ false)
          × (lacks_target m c'.main c'.metrics ≡ false)
          × (set_count (get_string_option env "FIREHOSE") (get_string_option env "DOMAIN")
                (get_string_option env "OTEL_URL")
              ≡ (if is_some c'.main then 1 else 0)))
        (sym same) (no_logs, no_traces, no_metrics, counted)

  -- An accepted interval lies between 25 and 30000 milliseconds, whether it was set or is the strategy's own.
  pub extract_aws_telemetry_interval-bounds :
      (strategy : TelemetryReportingStrategy) (ms : ℕ)
      → extract_aws_telemetry_interval strategy ≡ accepted ms
      → (25 ≤ ms) × (ms ≤ 30000)
  unfolding extract_aws_telemetry_interval
  extract_aws_telemetry_interval-bounds strategy ms e =
      let (o, _, k) = bind_accepted (get_usize_option env "AWS_TELEMETRY_INTERVAL_MS") _ ms e in
      interval_of-bounds o strategy ms k
