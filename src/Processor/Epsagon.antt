-- ===== src/Processor/Epsagon.antt =====
-- src/telemetry/processor/epsagon_trace_processor.rs: traces of Epsagon among the logs.
use Prim.Native.String.{len, slice}
use text.Mathlib.Text.{starts_with}
use coralogix_aws_lambda_tel.Prelude.{String, Option, none, some}
use coralogix_aws_lambda_tel.Prelude.{if◌then◌else◌, and_then}
use coralogix_aws_lambda_tel.Proto.{Bytes}

pub data EpsagonTraceDetectionResult : Type 0 where
  regular_log : String → EpsagonTraceDetectionResult
  epsagon_trace_json : String → EpsagonTraceDetectionResult

-- `str::trim`, the standard base64 decoding of `base64_simd`, and `String::from_utf8`
pub record EpsagonTools : Type 0 where
  pub trim : String → String
  pub decode : String → Option Bytes
  pub from_utf8 : Bytes → Option String

abbrev epsagon_trace_prefix : String
epsagon_trace_prefix = "EPSAGON_TRACE: "

-- `str::strip_prefix`
unfoldable pub strip_prefix : String → String → Option String
strip_prefix text start =
    if starts_with text start then some (slice text (len start) (len text)) else none

module _ (tools : EpsagonTools) where
  unfoldable pub decode_base64_to_string : String → Option String
  decode_base64_to_string text = and_then (tools.decode (tools.trim text)) tools.from_utf8

  detected : String → Option String → EpsagonTraceDetectionResult
  detected log_text none = regular_log log_text
  detected log_text (some trace) = epsagon_trace_json trace

  unfoldable pub detect_epsagon_trace : String → EpsagonTraceDetectionResult
  unfolding strip_prefix decode_base64_to_string detected
  detect_epsagon_trace log_text = detected log_text (
      and_then (strip_prefix log_text epsagon_trace_prefix)
        (λ (text : String). decode_base64_to_string (tools.trim text)))
