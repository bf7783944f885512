-- ===== src/Logs/Metadata.antt =====
-- src/telemetry/processor/mod.rs and log_processor.rs: the metadata and the platform's events that go
-- into log records. The maps of attributes and tags are lists of entries.
use coralogix_aws_lambda_tel.Prelude.{ℕ, String, Bool, true, false, Option, none, some, List}
use coralogix_aws_lambda_tel.Prelude.{if◌then◌else◌}
use coralogix_aws_lambda_tel.Prelude.{F64}
use coralogix_aws_lambda_tel.Proto.{Bytes}
use coralogix_aws_lambda_tel.Events.{
  EventStatus, success, error, failure, timeout, is_success, PlatformRuntimeDoneData,
  PlatformReportData,
}
use coralogix_aws_lambda_tel.Config.{
  LogMetadataConfig, LogsMetadataMode, BuiltInAttributeSet, AttributeConfig,
  TelemetryProcessorConfig,
}
use coralogix_aws_lambda_tel.LambdaFunctionArn.{LambdaFunctionArn, to_string}
use coralogix_aws_lambda_tel.Processing.State.{
  FunctionContext, InvocationProcessingState, DegradedProcessingState, SpanRef, current_trace_id,
  current_span_id,
}
use coralogix_aws_lambda_tel.Logs.Timestamp.{LastLogState}
use coralogix_aws_lambda_tel.Logs.Truncation.{SeverityNumber}

-- `ProcessingState`: what the processing with and without an invocation have in common
pub record ProcessingState (S : Type 0) : Type 0 where
  pub get_runtime_done_data : S → Option PlatformRuntimeDoneData
  pub get_report_data : S → Option PlatformReportData
  pub current_span_ref : S → SpanRef
  pub request_id : S → Option String
  pub function_context : S → FunctionContext
  pub last_log_state : S → LastLogState
  pub with_last_log_state : LastLogState → S → S

abbrev pub of_invocation : ProcessingState InvocationProcessingState
of_invocation = record {
  get_runtime_done_data = λ s. s.runtime_done_data;
  get_report_data = λ s. s.report_data;
  current_span_ref = λ s. record { trace_id = current_trace_id s; span_id = current_span_id s };
  request_id = λ s. some s.invocation_context.request_id;
  function_context = λ s. s.function_context;
  last_log_state = λ s. s.last_log_state;
  with_last_log_state = λ l s. record s { last_log_state = l };
}

abbrev pub of_degraded : ProcessingState DegradedProcessingState
of_degraded = record {
  get_runtime_done_data = λ s. s.runtime_done_data;
  get_report_data = λ s. s.report_data;
  current_span_ref = λ s. record { trace_id = s.trace_id; span_id = s.span_id };
  request_id = λ s. none;
  function_context = λ s. s.function_context;
  last_log_state = λ s. s.last_log_state;
  with_last_log_state = λ l s. record s { last_log_state = l };
}

pub record LogMetadata : Type 0 where
  pub trace_id : Option String
  pub span_id : Option String
  pub cloud_provider : Option String
  pub cloud_account_id : Option String
  pub cloud_region : Option String
  pub faas_name : Option String
  pub faas_id : Option String
  pub faas_instance_cx_id : Option String
  pub faas_execution : Option String
  pub faas_invocation_id : Option String
  pub extra_attributes : List (String × String)
  pub tags : Option (List (String × String))

pub record RuntimeDoneLogMetrics : Type 0 where
  pub duration_ms : Option F64
  pub produced_bytes : Option ℕ

pub record ReportLogMetrics : Type 0 where
  pub duration_ms : F64
  pub billed_duration_ms : ℕ
  pub memory_size_mb : ℕ
  pub max_memory_used_mb : ℕ
  pub init_duration_ms : Option F64
  pub restore_duration_ms : Option F64
  pub produced_bytes : Option ℕ

-- `PlatformEventLog`; `PlatformEventLogV2` has the same fields and is serialized in another way
pub data PlatformEventLog : Type 0 where
  start : (request_id version : Option String) → PlatformEventLog
  runtime_done :
      (request_id : Option String) (aws_status : String) (aws_error_type : Option String)
      (handler_status handler_status_description : Option String) (metrics : RuntimeDoneLogMetrics)
      → PlatformEventLog
  report :
      (request_id : Option String) (status : String) (error_type : Option String)
      (out_of_memory : Bool) (metrics : ReportLogMetrics)
      → PlatformEventLog

abbrev pub then_some {ℓ} : {A : Type ℓ} → Bool → A → Option A
then_some true a = some a
then_some false a = none

abbrev pub status_to_string : EventStatus → String
status_to_string success = "success"
status_to_string error = "error"
status_to_string failure = "failure"
status_to_string timeout = "timeout"

abbrev pub status_to_severity : EventStatus → SeverityNumber
status_to_severity status = if is_success status then SeverityNumber.info else SeverityNumber.error

-- `hex::encode` is an argument
module _ (hex_encode : Bytes → String) {S : Type 0} (P : ProcessingState S) where
  metadata_of : LogMetadataConfig → AttributeConfig → S → LogMetadata
  metadata_of c logs state =
      let span_ref = P.current_span_ref state in
      let b : BuiltInAttributeSet = logs.built_in in
      let function_context = P.function_context state in
      let arn : LambdaFunctionArn = function_context.arn in
      record {
        trace_id = then_some c.include_trace_ref (hex_encode span_ref.trace_id);
        span_id = then_some c.include_trace_ref (hex_encode span_ref.span_id);
        cloud_provider = then_some b.cloud_provider "aws";
        cloud_account_id = then_some b.cloud_account_id arn.account_id;
        cloud_region = then_some b.cloud_region arn.region;
        faas_name = then_some b.faas_name arn.function_name;
        faas_id = then_some b.faas_id (to_string function_context.version_arn);
        faas_instance_cx_id =
            then_some b.faas_instance_cx_id function_context.lambda_instance_coralogix_id;
        faas_execution = if c.include_execution then P.request_id state else none;
        faas_invocation_id = if c.include_invocation_id then P.request_id state else none;
        extra_attributes = logs.extra;
        tags = function_context.tags;
      }

  unfoldable pub log_metadata : TelemetryProcessorConfig → S → Option LogMetadata
  unfolding metadata_of
  log_metadata config state = elim config.logs_metadata_mode [
    | LogsMetadataMode.disabled ↦ none
    | LogsMetadataMode.enabled c ↦ some (metadata_of c config.resource_attributes.logs state)
  ]
