-- ===== src/Senders/Errors.antt =====
-- src/coralogix/mod.rs and the `OtlpSender`s: how the outcome of a gRPC call is read. The status of
-- a failed call is kept as its message.
use coralogix_aws_lambda_tel.Prelude.{
  ℕ, String, ◌≡◌, refl, ◌↔◌, Bool, true, false, Option, none, some, arith, str_eq,
}
use coralogix_aws_lambda_tel.Prelude.{◌==◌, if◌then◌else◌}

-- the codes of `tonic::Code` that the exporter names, and all others
pub data Code : Type 0 where
  unauthenticated resource_exhausted invalid_argument internal deadline_exceeded unavailable
        permission_denied other_code :
      Code

pub data OtlpError : Type 0 where
  unauthenticated_error bad_request quota_exceeded permission_denied_error : String → OtlpError
  unavailable_error : String → String → OtlpError
  unexpected_response internal_error : String → OtlpError

unfoldable pub is_retryable : OtlpError → Bool
is_retryable (unauthenticated_error s) = false
is_retryable (bad_request s) = false
is_retryable (quota_exceeded s) = false
is_retryable (permission_denied_error s) = false
is_retryable (unavailable_error uri s) = true
is_retryable (unexpected_response s) = true
is_retryable (internal_error s) = false

unfoldable pub handle_service_error : String → Code → String → OtlpError
handle_service_error uri unauthenticated s = unauthenticated_error s
handle_service_error uri resource_exhausted s = quota_exceeded s
handle_service_error uri invalid_argument s = bad_request s
handle_service_error uri internal s = unavailable_error uri s
handle_service_error uri deadline_exceeded s = unavailable_error uri s
handle_service_error uri unavailable s = unavailable_error uri s
handle_service_error uri permission_denied s = permission_denied_error s
handle_service_error uri other_code s = unexpected_response s

pub data OtlpExportResponse : Type 0 where
  success : OtlpExportResponse
  warning : (message : String) → OtlpExportResponse
  partial_success : (message : String) (dropped_items : ℕ) → OtlpExportResponse

-- `ExportLogsPartialSuccess` and its like
pub record PartialSuccess : Type 0 where
  pub rejected_items : ℕ
  pub error_message : String

-- what `client.export` returns
pub data CallResult : Type 0 where
  answered : Option PartialSuccess → CallResult
  failed : Code → String → CallResult

response_of : Option PartialSuccess → OtlpExportResponse
response_of none = success
response_of (some p) =
    if p.rejected_items == 0
    then if str_eq p.error_message "" then success else warning p.error_message
    else partial_success p.error_message p.rejected_items

pub data SendResult : Type 0 where
  sent : OtlpExportResponse → SendResult
  not_sent : OtlpError → SendResult

-- the end of `OtlpSender::send`, from the call on
unfoldable pub send_result : String → CallResult → SendResult
unfolding response_of handle_service_error
send_result uri (answered p) = sent (response_of p)
send_result uri (failed code s) = not_sent (handle_service_error uri code s)

abbrev pub is_transient : Code → Bool
is_transient internal = true
is_transient deadline_exceeded = true
is_transient unavailable = true
is_transient other_code = true
is_transient _ = false

abbrev pub failure_is_retryable : SendResult → Bool
failure_is_retryable (sent r) = false
failure_is_retryable (not_sent e) = is_retryable e

-- A call is worth repeating exactly if it failed with a code other than the four that blame the
-- request, the key, the quota or the permissions; an answered call, also one that rejected items, is never repeated.
pub send_result-is_retryable :
    (uri : String) (r : CallResult)
    → (failure_is_retryable (send_result uri r) ≡ true)
      ↔ ((code : Code) × (s : String) × (r ≡ failed code s) × (is_transient code ≡ true))
unfolding send_result is_retryable
send_result-is_retryable uri (answered p) = ground arith
send_result-is_retryable uri (failed unauthenticated s) = ground arith
send_result-is_retryable uri (failed resource_exhausted s) = ground arith
send_result-is_retryable uri (failed invalid_argument s) = ground arith
send_result-is_retryable uri (failed permission_denied s) = ground arith
send_result-is_retryable uri (failed code s) = (λ _. (code, s, refl, refl), λ _. refl)
