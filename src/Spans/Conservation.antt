-- ===== src/Spans/Conservation.antt =====
-- src/telemetry/processor/span_processor.rs: no span of the function is lost or doubled.
use coralogix_aws_lambda_tel.Prelude.{ℕ, ◌+◌, ◌≡◌, false, List, [], ◌∷◌}
use coralogix_aws_lambda_tel.Prelude.{if◌then◌else◌, is_empty, All}
use coralogix_aws_lambda_tel.Proto.{Span, ScopeSpans}
use coralogix_aws_lambda_tel.Spans.{SpanTools, process_and_categorize_span, is_warmup}

abbrev pub AreFilled : List ScopeSpans → Type 0
AreFilled = All (λ (ss : ScopeSpans). is_empty ss.spans ≡ false)

module _ (tools : SpanTools) where
  abbrev pub warmups : List Span → ℕ
  warmups [] = 0
  warmups (x ∷ xs) =
      (if is_warmup (process_and_categorize_span tools x).1 then 1 else 0) + warmups xs
