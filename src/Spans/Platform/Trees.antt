-- ===== src/Spans/Platform/Trees.antt =====
-- src/telemetry/processor/span_processor.rs: the ids of the spans made of the platform's events.
use coralogix_aws_lambda_tel.Prelude.{◌≡◌, refl, Option, none, some, []}
use coralogix_aws_lambda_tel.Prelude.{All, All-append}
use coralogix_aws_lambda_tel.Prelude.{ℤ, F64, FloatOps}
use coralogix_aws_lambda_tel.Proto.{Bytes, Span}
use coralogix_aws_lambda_tel.Events.{
  PlatformInitStartData, PlatformInitRuntimeDoneData, PlatformInitReportData, PlatformStartData,
  PlatformRuntimeDoneData, PlatformReportData,
}
use coralogix_aws_lambda_tel.Processing.State.{InvocationProcessingState, current_trace_id}
use coralogix_aws_lambda_tel.Spans.Platform.{
  init_span, runtime_span, context_span, make_spans_after_invocation, make_spans_after_report,
}

-- spans of a trace with that parent
abbrev pub IsChild : Bytes → Bytes → Span → Type 0
IsChild trace_id parent x = (x.trace_id ≡ trace_id) × (x.parent_span_id ≡ parent)

-- the root of a trace
abbrev pub IsRoot : Bytes → Bytes → Span → Type 0
IsRoot trace_id root x = (x.trace_id ≡ trace_id) × (x.span_id ≡ root) × (x.parent_span_id ≡ [])

init_span-AreChildren :
    (s : InvocationProcessingState) (trace_id parent : Bytes) (id : Option Bytes)
    (a : Option PlatformInitStartData) (b : Option PlatformInitRuntimeDoneData)
    (c : Option PlatformInitReportData)
    → All (IsChild trace_id parent) (init_span s trace_id parent id a b c)
unfolding init_span
init_span-AreChildren s trace_id parent (some id) (some a) (some b) (some c) = ((refl, refl), tt)
init_span-AreChildren s trace_id parent none a b c = tt
init_span-AreChildren s trace_id parent (some id) none b c = tt
init_span-AreChildren s trace_id parent (some id) (some a) none c = tt
init_span-AreChildren s trace_id parent (some id) (some a) (some b) none = tt

runtime_span-AreChildren :
    (s : InvocationProcessingState) (a : Option PlatformStartData)
    (b : Option PlatformRuntimeDoneData)
    → All (IsChild (current_trace_id s) s.root_span_id) (runtime_span s a b)
unfolding runtime_span
runtime_span-AreChildren s (some a) (some b) = ((refl, refl), tt)
runtime_span-AreChildren s none b = tt
runtime_span-AreChildren s (some a) none = tt

pub make_spans_after_invocation-AreChildren :
    (s : InvocationProcessingState)
    → All (IsChild (current_trace_id s) s.root_span_id) (make_spans_after_invocation s)
unfolding make_spans_after_invocation
make_spans_after_invocation-AreChildren s =
    All-append (IsChild (current_trace_id s) s.root_span_id) _ _
      (init_span-AreChildren s _ _ s.init_span_id s.init_start_data s.init_runtime_done_data
        s.init_report_data)
      (runtime_span-AreChildren s s.start_data s.runtime_done_data)

context_span-IsRoot :
    (fl : FloatOps) (to_i128 : F64 → ℤ) (s : InvocationProcessingState)
    (a : Option PlatformStartData) (b : Option PlatformRuntimeDoneData)
    (c : Option PlatformReportData)
    → All (IsRoot (current_trace_id s) s.root_span_id) (context_span fl to_i128 s a b c)
unfolding context_span
context_span-IsRoot fl to_i128 s (some a) (some b) (some c) = ((refl, refl, refl), tt)
context_span-IsRoot fl to_i128 s none b c = tt
context_span-IsRoot fl to_i128 s (some a) none c = tt
context_span-IsRoot fl to_i128 s (some a) (some b) none = tt

pub make_spans_after_report-IsRoot :
    (fl : FloatOps) (to_i128 : F64 → ℤ) (s : InvocationProcessingState)
    → All (IsRoot (current_trace_id s) s.root_span_id) (make_spans_after_report fl to_i128 s)
unfolding make_spans_after_report
make_spans_after_report-IsRoot fl to_i128 s =
    context_span-IsRoot fl to_i128 s s.start_data s.runtime_done_data s.report_data
