-- ===== src/Processor/Interface.antt =====
-- src/telemetry/processor/telemetry_processor.rs: the processor as the service uses it.
use coralogix_aws_lambda_tel.Proto.{Bytes}
use coralogix_aws_lambda_tel.Events.{LambdaTelemetry}
use coralogix_aws_lambda_tel.Config.{TelemetryProcessorConfig}
use coralogix_aws_lambda_tel.Processing.State.{InvocationProcessingState}
use coralogix_aws_lambda_tel.Service.State.{OutputBuffers}
use coralogix_aws_lambda_tel.PlatformMetrics.Mode
use coralogix_aws_lambda_tel.PlatformMetrics.Mode.{PlatformMetricsState, v1, v2}
use coralogix_aws_lambda_tel.Processor.Steps.{ProcessorTools, Work}
use coralogix_aws_lambda_tel.Processor.Telemetry
use coralogix_aws_lambda_tel.Processor.Degraded
use coralogix_aws_lambda_tel.Processor.Relations.{process_telemetry-Follows}
use coralogix_aws_lambda_tel.Processor.Growth.{
  WorkGrows-laws, process_function_spans-Grows, process_function_metrics-Grows,
  process_telemetry_in_degraded_mode-Grows,
}
use coralogix_aws_lambda_tel.Service.State.{Processor, Setting, TelemetryServiceState}
use coralogix_aws_lambda_tel.Service.Queue.{process_telemetry_events}
use coralogix_aws_lambda_tel.Service.Growth.{Grows, ProcessorLaws, process_telemetry_events-Grows}

abbrev work : {S : Type 0} → S → PlatformMetricsState → OutputBuffers → Work S
work s m o = record { state = s; metrics_state = m; output_buffers = o }

-- The functions of the processor; `draw` gives the random id for the span of an initialisation. The
-- processing of spans does not read the platform's metrics.
unfoldable pub telemetry_processor :
    ProcessorTools
    → (LambdaTelemetry → InvocationProcessingState → Bytes)
    → TelemetryProcessorConfig
    → Processor
telemetry_processor tools draw config = record {
  process_function_spans = λ inv spans o.
      let (x, w) = Telemetry.process_function_spans tools config spans (work inv Mode.disabled o) in
      (x, w.state, w.output_buffers);
  process_telemetry = λ e inv m o.
      let (x, w) = Telemetry.process_telemetry tools config (draw e inv) e (work inv m o) in
      (x, w.state, w.metrics_state, w.output_buffers);
  process_telemetry_in_degraded_mode = λ e d m o.
      let (x, w) = Degraded.process_telemetry_in_degraded_mode tools config e (work d m o) in
      (x, w.state, w.metrics_state, w.output_buffers);
  process_function_metrics = λ r acc o. Telemetry.process_function_metrics tools config r acc o;
}

module _ (tools : ProcessorTools) (draw : LambdaTelemetry → InvocationProcessingState → Bytes) where
  -- The processor fills the interface of the service: whatever it is given, and whether it fails or not,
  -- each of its functions only appends to the buffers.
  pub telemetry_processor-laws :
      (config : TelemetryProcessorConfig) → ProcessorLaws (telemetry_processor tools draw config)
  unfolding telemetry_processor
  telemetry_processor-laws config = record {
    process_function_spans = λ inv spans o.
        (process_function_spans-Grows tools config spans (work inv Mode.disabled o)).known;
    process_telemetry = λ e inv m o.
        (process_telemetry-Follows (WorkGrows-laws tools config) (draw e inv) e
          (work inv m o)).known;
    process_telemetry_in_degraded_mode =
        λ e d m o. (process_telemetry_in_degraded_mode-Grows tools config e (work d m o)).known;
    process_function_metrics = λ r acc o. process_function_metrics-Grows tools config r acc o;
  }

  -- So the service, with this processor, takes nothing from the buffers while it processes its queues.
  pub service-Grows :
      (setting : Setting) (s : TelemetryServiceState)
      → let used : Setting = record setting {
        processor = telemetry_processor tools draw setting.config.processor_config;
      } in
        Grows s.output_buffers (process_telemetry_events used s).1.output_buffers
  service-Grows setting s =
      process_telemetry_events-Grows
        (record setting {
          processor = telemetry_processor tools draw setting.config.processor_config;
        })
        (telemetry_processor-laws setting.config.processor_config) s
