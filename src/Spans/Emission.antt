-- ===== src/Spans/Emission.antt =====
-- src/telemetry/processor/span_processor.rs: the emission of the captured trigger and invocation spans.
use coralogix_aws_lambda_tel.Prelude.{
  ◌≡◌, refl, sym, ap, ◌∙◌, Bool, true, ◌||◌, Option, none, some, List, [], ◌∷◌, ◌++◌, map,
  append_assoc,
}
use coralogix_aws_lambda_tel.Prelude.{if◌then◌else◌, is_some, or_option, map_option}
use coralogix_aws_lambda_tel.Prelude.{as_u64}
use coralogix_aws_lambda_tel.Proto.{Bytes, Value, with_value, KeyValue, Span, ScopeSpans}
use coralogix_aws_lambda_tel.Events.{PlatformRuntimeDoneData}
use coralogix_aws_lambda_tel.Processing.State.{
  InvocationTracingState, InvocationProcessingState, SpanWithScope, into_scope_spans,
  invocation_span,
}
use coralogix_aws_lambda_tel.Spans.Platform.{translate_status}

unfoldable pub conclude_early_span_with_runtime_status : PlatformRuntimeDoneData → Span → Span
conclude_early_span_with_runtime_status d span = record span {
  status = some (translate_status d.status d.error_type);
  end_time_unix_nano = as_u64 d.time;
}

language_attributes : Option Value → List KeyValue
language_attributes none = []
language_attributes (some language) =
    (let a : KeyValue = record {
      key = "telemetry.sdk.language";
      value = some (with_value language);
    } in
      a)
    ∷ []

unfoldable pub add_language_attribute_to_span : InvocationTracingState → Span → Span
unfolding language_attributes
add_language_attribute_to_span state span = record span {
  attributes = span.attributes ++ language_attributes state.language;
}

abbrev scope_of : (Span → Span) → SpanWithScope → ScopeSpans
scope_of change s = into_scope_spans (record s { span = change s.span })

trigger_spans :
    PlatformRuntimeDoneData → Option SpanWithScope → Option SpanWithScope → List ScopeSpans
trigger_spans d (some s) early = into_scope_spans s ∷ []
trigger_spans d none (some s) = scope_of (conclude_early_span_with_runtime_status d) s ∷ []
trigger_spans d none none = []

-- over the slots of the invocation's span, the early one, and the one without marks
invocation_spans :
    PlatformRuntimeDoneData
    → InvocationTracingState
    → Option SpanWithScope
    → Option SpanWithScope
    → Option SpanWithScope
    → List ScopeSpans
unfolding add_language_attribute_to_span conclude_early_span_with_runtime_status
invocation_spans d t (some s) early plain = scope_of (add_language_attribute_to_span t) s ∷ []
invocation_spans d t none (some s) plain =
    scope_of (λ x. add_language_attribute_to_span t (conclude_early_span_with_runtime_status d x)) s
    ∷ []
invocation_spans d t none none (some s) = scope_of (add_language_attribute_to_span t) s ∷ []
invocation_spans d t none none none = []

unexpected_spans : Bool → Option SpanWithScope → List ScopeSpans
unexpected_spans true (some s) = into_scope_spans s ∷ []
unexpected_spans _ _ = []

emitted_spans : InvocationTracingState → Option PlatformRuntimeDoneData → List ScopeSpans
unfolding trigger_spans invocation_spans unexpected_spans
emitted_spans t none = []
emitted_spans t (some d) =
    trigger_spans d t.cx_trigger_span t.cx_early_trigger_span
    ++ (invocation_spans d t t.cx_invocation_span t.cx_early_invocation_span
          t.generic_invocation_span
        ++ unexpected_spans (is_some t.cx_invocation_span || is_some t.cx_early_invocation_span)
            t.generic_invocation_span)

unfoldable pub emit_trigger_and_invocation_spans : InvocationProcessingState → List ScopeSpans
unfolding emitted_spans
emit_trigger_and_invocation_spans state = emitted_spans state.tracing_state state.runtime_done_data

-- the trace id and the span id
abbrev pub ids : Span → Bytes × Bytes
ids s = (s.trace_id, s.span_id)

abbrev pub emitted_ids : List ScopeSpans → List (Bytes × Bytes)
emitted_ids [] = []
emitted_ids (ss ∷ r) = map ids ss.spans ++ emitted_ids r

abbrev pub option_ids : Option Span → List (Bytes × Bytes)
option_ids none = []
option_ids (some s) = ids s ∷ []

abbrev pub slot_ids : Option SpanWithScope → List (Bytes × Bytes)
slot_ids o = option_ids (map_option (λ (s : SpanWithScope). s.span) o)

-- the span that stands for the trigger; the one to which the logs refer; and the server span without
-- marks where it is not the latter
abbrev pub expected_ids : InvocationProcessingState → List (Bytes × Bytes)
expected_ids state =
    let t : InvocationTracingState = state.tracing_state in
    slot_ids (or_option t.cx_trigger_span t.cx_early_trigger_span)
    ++ (option_ids (invocation_span state)
        ++ (if is_some (or_option t.cx_invocation_span t.cx_early_invocation_span)
            then slot_ids t.generic_invocation_span
            else []))

emitted_ids-append : (a b : List ScopeSpans) → emitted_ids (a ++ b) ≡ emitted_ids a ++ emitted_ids b
emitted_ids-append [] b = refl
emitted_ids-append (x ∷ a) b =
    ap (λ r. map ids x.spans ++ r) (emitted_ids-append a b)
    ∙ sym (append_assoc (map ids x.spans) (emitted_ids a) (emitted_ids b))

trigger_spans-ids :
    (d : PlatformRuntimeDoneData) (o early : Option SpanWithScope)
    → emitted_ids (trigger_spans d o early) ≡ slot_ids (or_option o early)
unfolding trigger_spans into_scope_spans conclude_early_span_with_runtime_status
trigger_spans-ids d (some s) early = refl
trigger_spans-ids d none (some s) = refl
trigger_spans-ids d none none = refl

invocation_spans-ids :
    (d : PlatformRuntimeDoneData) (t : InvocationTracingState)
    (o early plain : Option SpanWithScope)
    → emitted_ids (invocation_spans d t o early plain)
      ≡ slot_ids (or_option o (or_option early plain))
unfolding invocation_spans into_scope_spans
invocation_spans-ids d t (some s) early plain = refl
invocation_spans-ids d t none (some s) plain = refl
invocation_spans-ids d t none none (some s) = refl
invocation_spans-ids d t none none none = refl

unexpected_spans-ids :
    (o early plain : Option SpanWithScope)
    → emitted_ids (unexpected_spans (is_some o || is_some early) plain)
      ≡ (if is_some (or_option o early) then slot_ids plain else [])
unfolding unexpected_spans into_scope_spans
unexpected_spans-ids (some s) early none = refl
unexpected_spans-ids (some s) early (some x) = refl
unexpected_spans-ids none (some s) none = refl
unexpected_spans-ids none (some s) (some x) = refl
unexpected_spans-ids none none none = refl
unexpected_spans-ids none none (some x) = refl

-- Once the end of the runtime is known, the emitted spans have the ids of the trigger's span, of the
-- span to which the logs refer, and of the server span without marks where it is another one,
-- each once and in this order.
pub emit_trigger_and_invocation_spans-ids :
    (state : InvocationProcessingState) (d : PlatformRuntimeDoneData)
    → state.runtime_done_data ≡ some d
    → emitted_ids (emit_trigger_and_invocation_spans state) ≡ expected_ids state
unfolding emit_trigger_and_invocation_spans invocation_span
emit_trigger_and_invocation_spans-ids state d e =
    let t : InvocationTracingState = state.tracing_state in
    let a = trigger_spans d t.cx_trigger_span t.cx_early_trigger_span in
    let b =
      invocation_spans d t t.cx_invocation_span t.cx_early_invocation_span
        t.generic_invocation_span in
    let c =
      unexpected_spans (is_some t.cx_invocation_span || is_some t.cx_early_invocation_span)
        t.generic_invocation_span in
    rw e (
      cc (
        emitted_ids-append a (b ++ c),
        emitted_ids-append b c,
        trigger_spans-ids d t.cx_trigger_span t.cx_early_trigger_span,
        invocation_spans-ids d t t.cx_invocation_span t.cx_early_invocation_span
            t.generic_invocation_span,
        unexpected_spans-ids t.cx_invocation_span t.cx_early_invocation_span
            t.generic_invocation_span,
      ))
