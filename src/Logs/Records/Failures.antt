-- ===== src/Logs/Records/Failures.antt =====
-- src/telemetry/processor/log_maker.rs: what makes the making of a log record fail.
use coralogix_aws_lambda_tel.Prelude.{ℕ, String, ◌≡◌, refl, Bool, true, false, Option, none, some}
use coralogix_aws_lambda_tel.Proto.{LogRecord}
use coralogix_aws_lambda_tel.Events.{
  PlatformStartData, PlatformRuntimeDoneData, PlatformReportData, serialization, Result, ok, err,
}
use coralogix_aws_lambda_tel.Config.{TelemetryProcessorConfig}
use coralogix_aws_lambda_tel.Logs.Truncation.{SeverityNumber}
use coralogix_aws_lambda_tel.Logs.Metadata.{ProcessingState, LogMetadata, PlatformEventLog}
use coralogix_aws_lambda_tel.Logs.Records.{
  LogTools, LogBody, make_function_log, make_platform_start_log, make_platform_runtime_done_log,
  make_platform_report_log,
}
use coralogix_aws_lambda_tel.Processing.State.{RawFunctionLog}
use coralogix_aws_lambda_tel.Logs.Records.{
  record_of, make_function_log_record, make_platform_log_record,
}
use coralogix_aws_lambda_tel.Logs.Json.{Json}
use coralogix_aws_lambda_tel.Processing.State.{SpanRef}

-- There is a record, or some body could not be serialized.
abbrev pub FailsUnserialized : LogTools → Result LogRecord → Type 0
FailsUnserialized tools (ok log) = Unit
FailsUnserialized tools (err serialization) = (body : LogBody) × (tools.to_value body ≡ none)
FailsUnserialized tools (err _) = ⊥

module _ (tools : LogTools) where
  record_of-FailsUnserialized :
      (body : LogBody) (o : Option Json) (severity : SeverityNumber) (timestamp : ℕ) (r : SpanRef)
      → tools.to_value body ≡ o
      → FailsUnserialized tools (record_of tools o severity timestamp r)
  unfolding record_of
  record_of-FailsUnserialized body none severity timestamp r e = (body, e)
  record_of-FailsUnserialized body (some j) severity timestamp r e = tt

  platform_record-FailsUnserialized :
      (hide : Bool) (event : PlatformEventLog) (severity : SeverityNumber) (m : Option LogMetadata)
      (timestamp : ℕ) (r : SpanRef)
      → FailsUnserialized tools (make_platform_log_record tools hide event severity m timestamp r)
  unfolding make_platform_log_record
  platform_record-FailsUnserialized false event severity m timestamp r =
      let body = LogBody.platform_log m event in
      record_of-FailsUnserialized body (tools.to_value body) severity timestamp r refl
  platform_record-FailsUnserialized true event severity m timestamp r =
      let body = LogBody.platform_log_v2 m event in
      record_of-FailsUnserialized body (tools.to_value body) severity timestamp r refl

  module _ {S : Type 0} (P : ProcessingState S) (config : TelemetryProcessorConfig) where
    pub make_function_log-FailsUnserialized :
        (log : RawFunctionLog) (s : S)
        → FailsUnserialized tools (make_function_log tools P config log s).0
    unfolding make_function_log make_function_log_record
    make_function_log-FailsUnserialized log s = record_of-FailsUnserialized _ _ _ _ _ refl

    pub make_platform_start_log-FailsUnserialized :
        (d : PlatformStartData) (s : S)
        → FailsUnserialized tools (make_platform_start_log tools P config d s).0
    unfolding make_platform_start_log
    make_platform_start_log-FailsUnserialized d s = platform_record-FailsUnserialized _ _ _ _ _ _

    pub make_platform_runtime_done_log-FailsUnserialized :
        (d : PlatformRuntimeDoneData) (a b : Option String) (s : S)
        → FailsUnserialized tools (make_platform_runtime_done_log tools P config d a b s).0
    unfolding make_platform_runtime_done_log
    make_platform_runtime_done_log-FailsUnserialized d a b s =
        platform_record-FailsUnserialized _ _ _ _ _ _

    pub make_platform_report_log-FailsUnserialized :
        (d : PlatformReportData) (s : S)
        → FailsUnserialized tools (make_platform_report_log tools P config d s).0
    unfolding make_platform_report_log
    make_platform_report_log-FailsUnserialized d s = platform_record-FailsUnserialized _ _ _ _ _ _
