-- ===== src/Config/Load/Soundness.antt =====
-- src/config/app_config.rs: what an accepted configuration ensures.
use coralogix_aws_lambda_tel.Prelude.{◌≤◌, ◌≡◌, refl, sym, ap, ◌∙◌, subst, true, false}
use coralogix_aws_lambda_tel.Config.{
  is_structured, PlatformMetricsMode, TracingMode, AttributeConfig, AttributeConfigs,
  TelemetryProcessorConfig, TelemetryServiceConfig,
}
use coralogix_aws_lambda_tel.Config.Environment.{
  Environment, accepted, bind_accepted, Accepts, accepted-Accepts, bind-Accepts,
}
use coralogix_aws_lambda_tel.Config.Targets.{
  lacks_target, extract_target_configs-covers, extract_aws_telemetry_interval-bounds,
}
use coralogix_aws_lambda_tel.Config.Attributes.{
  extract_attribute_configs, extract_attribute_configs-mandatory,
}
use coralogix_aws_lambda_tel.Config.Modes.{
  is_log_only, extract_platform_metrics_mode-log_only, extract_tracing_mode-log_only,
}
use coralogix_aws_lambda_tel.Config.Load.{
  AppConfig, Modes, traces_enabled, metrics_enabled, load_modes, load_processor_config,
  load_service_config, load_with, load,
}

-- The interval is one that AWS accepts, each enabled pillar has a target, and the attributes without which
-- traces and metrics are no use are on.
pub record IsSound (c : AppConfig) : Type 0 where
  pub interval : (25 ≤ c.aws_telemetry_interval_ms) × (c.aws_telemetry_interval_ms ≤ 30000)
  pub logs :
      lacks_target
        (is_structured c.telemetry_service_config.processor_config.log_mode)
        c.target.main
        c.target.logs
      ≡ false
  pub traces :
      lacks_target
        (traces_enabled c.telemetry_service_config.processor_config.tracing_mode)
        c.target.main
        c.target.traces
      ≡ false
  pub metrics :
      lacks_target
        (metrics_enabled c.telemetry_service_config.processor_config.platform_metrics_mode
          c.telemetry_service_config.processor_config.otel_metrics_mode)
        c.target.main
        c.target.metrics
      ≡ false
  pub traces_named :
      c.telemetry_service_config.processor_config.resource_attributes.traces.built_in.service_name
      ≡ true
  pub metrics_told_apart :
      c.telemetry_service_config.processor_config.resource_attributes.metrics.built_in.faas_instance_cx_id
      ≡ true

-- A processor's configuration with the modes that were read first, and with the mandatory attributes.
record FitsModes (m : Modes) (p : TelemetryProcessorConfig) : Type 0 where
  log_mode_kept : m.log_mode ≡ p.log_mode
  tracing_mode_kept : m.tracing_mode ≡ p.tracing_mode
  platform_mode_kept : m.platform_metrics_mode ≡ p.platform_metrics_mode
  otel_mode_kept : m.otel_metrics_mode ≡ p.otel_metrics_mode
  service_named : p.resource_attributes.traces.built_in.service_name ≡ true
  instance_named : p.resource_attributes.metrics.built_in.faas_instance_cx_id ≡ true

module _ (env : Environment) where
  mandatory_attributes :
      (c : AttributeConfigs)
      → extract_attribute_configs env ≡ accepted c
      → (c.traces.built_in.service_name ≡ true) × (c.metrics.built_in.faas_instance_cx_id ≡ true)
  mandatory_attributes c e =
      let (t, m, _, _, _, traces, metrics) = extract_attribute_configs-mandatory env c e in
      (
        ap (λ (a : AttributeConfig). a.built_in.service_name) traces,
        ap (λ (a : AttributeConfig). a.built_in.faas_instance_cx_id) metrics,
      )

  load_processor_config-Fits : (m : Modes) → Accepts (FitsModes m) (load_processor_config env m)
  unfolding load_processor_config
  load_processor_config-Fits m = bind-Accepts _ _ _ (λ _ _. bind-Accepts _ _ _ (λ _ _.
      bind-Accepts _ _ _ (λ _ _. bind-Accepts _ _ _ (λ _ _. bind-Accepts _ _ _ (λ _ _.
        bind-Accepts _ _ _ (λ _ _. bind-Accepts _ _ _ (λ _ _. bind-Accepts _ _ _ (λ attributes e.
          let (named, told_apart) = mandatory_attributes attributes e in
          accepted-Accepts _ _ (record {
            log_mode_kept = refl;
            tracing_mode_kept = refl;
            platform_mode_kept = refl;
            otel_mode_kept = refl;
            service_named = named;
            instance_named = told_apart;
          })))))))))

  load_service_config-Fits :
      (m : Modes)
      → Accepts
          (λ (s : TelemetryServiceConfig). FitsModes m s.processor_config)
          (load_service_config env m)
  unfolding load_service_config
  load_service_config-Fits m = bind-Accepts _ _ _ (λ _ _. bind-Accepts _ _ _ (λ _ _.
      bind-Accepts _ _ _ (λ _ _.
        bind-Accepts _ _ _
          (λ p e. accepted-Accepts _ _ ((load_processor_config-Fits m).known p e)))))

  load_with-IsSound : (m : Modes) → Accepts IsSound (load_with env m)
  unfolding load_with
  load_with-IsSound m = bind-Accepts _ _ _ (λ target te. bind-Accepts _ _ _ (λ interval ie.
      bind-Accepts _ _ _ (λ _ _. bind-Accepts _ _ _ (λ _ _. bind-Accepts _ _ _ (λ service se.
        bind-Accepts _ _ _ (λ _ _.
          let (no_logs, no_traces, no_metrics, _) =
            extract_target_configs-covers env _ _ _ target te in
          let fits = (load_service_config-Fits m).known service se in
          accepted-Accepts _ _ (record {
            interval = extract_aws_telemetry_interval-bounds env _ interval ie;
            logs =
                subst (λ l. lacks_target (is_structured l) target.main target.logs ≡ false)
                  fits.log_mode_kept no_logs;
            traces =
                subst (λ t. lacks_target (traces_enabled t) target.main target.traces ≡ false)
                  fits.tracing_mode_kept no_traces;
            metrics =
                subst
                  (λ o.
                    lacks_target (metrics_enabled service.processor_config.platform_metrics_mode o)
                      target.main target.metrics
                    ≡ false)
                  fits.otel_mode_kept
                  (subst
                    (λ p.
                      lacks_target (metrics_enabled p m.otel_metrics_mode) target.main
                        target.metrics
                      ≡ false)
                    fits.platform_mode_kept no_metrics);
            traces_named = fits.service_named;
            metrics_told_apart = fits.instance_named;
          })))))))

  -- A configuration that is accepted has an interval between 25 and 30000 milliseconds, a target for every pillar
  -- that it enables, the service name among the attributes of the traces and the instance's id among those of the metrics.
  pub load-IsSound : (c : AppConfig) → load env ≡ accepted c → IsSound c
  unfolding load
  load-IsSound c e = (bind-Accepts _ _ _ (λ m _. load_with-IsSound m)).known c e

  IsQuiet : TracingMode → PlatformMetricsMode → Type 0
  IsQuiet t p = (t ≡ TracingMode.disabled) × (p ≡ PlatformMetricsMode.disabled)

  load_modes-IsQuiet :
      is_log_only env ≡ true
      → Accepts (λ (m : Modes). IsQuiet m.tracing_mode m.platform_metrics_mode) (load_modes env)
  unfolding load_modes IsQuiet
  load_modes-IsQuiet only = bind-Accepts _ _ _ (λ _ _. bind-Accepts _ _ _ (λ _ _.
      bind-Accepts _ _ _ (λ _ _. bind-Accepts _ _ _ (λ t te. bind-Accepts _ _ _ (λ p pe.
        bind-Accepts _ _ _ (λ _ _. accepted-Accepts _ _ (
          extract_tracing_mode-log_only env t only te,
          extract_platform_metrics_mode-log_only env p only pe,
        )))))))

  load_with-keeps :
      (m : Modes)
      → Accepts
          (λ (c : AppConfig). FitsModes m c.telemetry_service_config.processor_config)
          (load_with env m)
  unfolding load_with
  load_with-keeps m = bind-Accepts _ _ _ (λ _ _. bind-Accepts _ _ _ (λ _ _.
      bind-Accepts _ _ _ (λ _ _. bind-Accepts _ _ _ (λ _ _. bind-Accepts _ _ _ (λ service se.
        bind-Accepts _ _ _
          (λ _ _. accepted-Accepts _ _ ((load_service_config-Fits m).known service se)))))))

  -- With CX_LOG_ONLY=true, an accepted configuration has neither traces nor platform metrics, whatever modes the
  -- other variables name.
  pub load-log_only :
      (c : AppConfig)
      → is_log_only env ≡ true
      → load env ≡ accepted c
      → (c.telemetry_service_config.processor_config.tracing_mode ≡ TracingMode.disabled)
        × (c.telemetry_service_config.processor_config.platform_metrics_mode
            ≡ PlatformMetricsMode.disabled)
  unfolding load IsQuiet
  load-log_only c only e =
      let (m, me, ce) = bind_accepted (load_modes env) (load_with env) c e in
      let (quiet_traces, quiet_metrics) = (load_modes-IsQuiet only).known m me in
      let fits = (load_with-keeps m).known c ce in
      (sym fits.tracing_mode_kept ∙ quiet_traces, sym fits.platform_mode_kept ∙ quiet_metrics)
