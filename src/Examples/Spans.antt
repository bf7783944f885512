-- ===== src/Examples/Spans.antt =====
-- src/telemetry/processor/span_processor.rs: examples with a server span, a marked span and another.
use coralogix_aws_lambda_tel.Prelude.{◌≡◌, true, false, none, List, [], ◌∷◌}
use coralogix_aws_lambda_tel.Proto.{string_value, Span, ScopeSpans, ResourceSpans}
use coralogix_aws_lambda_tel.OtelMetrics.TimeSeriesId.{attribute}
use coralogix_aws_lambda_tel.Processing.State.{InvocationTracingState}
use coralogix_aws_lambda_tel.Examples.Service.{a_span}
use coralogix_aws_lambda_tel.Spans.{SpanTools, process_and_categorize_span}
use coralogix_aws_lambda_tel.Spans.Attributes.{process_and_categorize_span-attributes}

abbrev pub tools : SpanTools
tools = record { hex_decode = λ s. none; is_match = λ r s. false }

abbrev server_span : Span
server_span = record a_span { kind = 2 }

abbrev marked_span : Span
marked_span = record a_span {
  attributes =
      attribute "cx.internal.span.role" (string_value "invocation")
      ∷ attribute "faas.name" (string_value "f")
      ∷ [];
}

abbrev received : List ResourceSpans
received =
    (let r : ResourceSpans = record {
      resource = none;
      scope_spans =
          (let s : ScopeSpans = record {
            scope = none;
            spans = server_span ∷ marked_span ∷ a_span ∷ [];
            schema_url = "";
          } in
            s)
          ∷ [];
      schema_url = "";
    } in
      r)
    ∷ []

abbrev pub fresh : InvocationTracingState
fresh = record {
  should_produce_spans = true;
  processed_function_spans = 0;
  language = none;
  cx_early_trigger_span = none;
  cx_trigger_span = none;
  cx_early_invocation_span = none;
  cx_invocation_span = none;
  generic_invocation_span = none;
}

process_and_categorize_span-attributes_example :
    (process_and_categorize_span tools marked_span).0.attributes
    ≡ attribute "faas.name" (string_value "f") ∷ []
process_and_categorize_span-attributes_example =
    process_and_categorize_span-attributes tools marked_span
