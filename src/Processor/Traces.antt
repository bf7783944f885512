-- ===== src/Processor/Traces.antt =====
-- src/telemetry/processor/telemetry_processor.rs: the trace that the platform's spans of an invocation
-- make up, where spans are made of the Telemetry API's events.
use coralogix_aws_lambda_tel.Prelude.{
  ◌≡◌, refl, sym, ap, ◌∙◌, subst, ◌⊎◌, inl, inr, ◌&&◌, List, [], ◌∷◌, ◌++◌, append_assoc,
  append-nil,
}
use coralogix_aws_lambda_tel.Prelude.{All, All-append}
use coralogix_aws_lambda_tel.Proto.{Bytes, Span}
use coralogix_aws_lambda_tel.Events.{LambdaTelemetry}
use coralogix_aws_lambda_tel.Config.{TracingMode, TelemetryProcessorConfig}
use coralogix_aws_lambda_tel.Processing.State.{
  InvocationTracingState, InvocationProcessingState, is_telemetry_api, invocation_span,
  current_trace_id,
}
use coralogix_aws_lambda_tel.Service.State.{OutputBuffers}
use coralogix_aws_lambda_tel.Processor.Steps.{
  ProcessorTools, Work, with_output, push_epsagon_trace, append_spans,
}
use coralogix_aws_lambda_tel.Processor.Telemetry.{
  spans_for, emit_invocation_spans, emit_report_spans,
}
use coralogix_aws_lambda_tel.Processor.Outcomes.{Leaves, if_branches}
use coralogix_aws_lambda_tel.Processing.State.{InvocationContext}
use coralogix_aws_lambda_tel.Spans.Platform.{make_spans_after_invocation, make_spans_after_report}
use coralogix_aws_lambda_tel.Spans.Platform.Trees.{
  IsChild, IsRoot, make_spans_after_invocation-AreChildren, make_spans_after_report-IsRoot,
}
use coralogix_aws_lambda_tel.Processor.Relations.{
  IsSameTrace, RelationLaws, process_all, process_all-Follows,
}

abbrev State : Type 0
State = InvocationProcessingState

-- The span belongs to the current trace, and is its root or a child of the root.
pub record IsInTrace (s : State) (x : Span) : Type 0 where
  pub trace : x.trace_id ≡ current_trace_id s
  pub place :
      (x.parent_span_id ≡ s.root_span_id) ⊎ ((x.span_id ≡ s.root_span_id) × (x.parent_span_id ≡ []))

-- Spans of the trace are appended, no other span comes to the buffers, and the trace stays.
pub record IsTraced (w w' : Work State) : Type 0 where
  pub spans : List Span
  pub appended : w'.output_buffers.spans_buffer ≡ w.output_buffers.spans_buffer ++ spans
  pub function_spans :
      w'.output_buffers.function_spans_buffer ≡ w.output_buffers.function_spans_buffer
  pub in_trace : All (IsInTrace w.state) spans
  pub same : IsSameTrace w.state w'.state

current_trace_id-same : (s s' : State) → IsSameTrace s s' → current_trace_id s' ≡ current_trace_id s
unfolding current_trace_id invocation_span
current_trace_id-same s s' h =
    ap (λ (t : InvocationTracingState). current_trace_id (record s' { tracing_state = t }))
      h.tracing
    ∙ ap (λ (c : InvocationContext). current_trace_id (record s { invocation_context = c }))
        h.context

IsInTrace-same : (s s' : State) (x : Span) → IsSameTrace s s' → IsInTrace s' x → IsInTrace s x
IsInTrace-same s s' x h k = record {
  trace = k.trace ∙ current_trace_id-same s s' h;
  place =
      subst (λ root. (x.parent_span_id ≡ root) ⊎ ((x.span_id ≡ root) × (x.parent_span_id ≡ [])))
        h.root k.place;
}

All-same :
    (s s' : State) (xs : List Span)
    → IsSameTrace s s'
    → All (IsInTrace s') xs
    → All (IsInTrace s) xs
All-same s s' [] h k = tt
All-same s s' (x ∷ xs) h (p, k) = (IsInTrace-same s s' x h p, All-same s s' xs h k)

IsTraced-trans : {w v u : Work State} → IsTraced w v → IsTraced v u → IsTraced w u
IsTraced-trans {w} {v} {u} h k = record {
  spans = h.spans ++ k.spans;
  appended =
      k.appended
      ∙ (ap (λ l. l ++ k.spans) h.appended
          ∙ append_assoc w.output_buffers.spans_buffer h.spans k.spans);
  function_spans = k.function_spans ∙ h.function_spans;
  in_trace =
      All-append (IsInTrace w.state) h.spans k.spans h.in_trace
        (All-same w.state v.state k.spans h.same k.in_trace);
  same = record {
    root = k.same.root ∙ h.same.root;
    context = k.same.context ∙ h.same.context;
    tracing = k.same.tracing ∙ h.same.tracing;
  };
}

-- no span is appended
untraced :
    (w w' : Work State)
    → w'.output_buffers.spans_buffer ≡ w.output_buffers.spans_buffer
    → w'.output_buffers.function_spans_buffer ≡ w.output_buffers.function_spans_buffer
    → IsSameTrace w.state w'.state
    → IsTraced w w'
untraced w w' e f same = record {
  spans = [];
  appended = e ∙ sym (append-nil _);
  function_spans = f;
  in_trace = tt;
  same = same;
}

AreChildren-IsInTrace :
    (s : State) (xs : List Span)
    → All (IsChild (current_trace_id s) s.root_span_id) xs
    → All (IsInTrace s) xs
AreChildren-IsInTrace s [] h = tt
AreChildren-IsInTrace s (x ∷ xs) ((t, p), h) =
    (record { trace = t; place = inl p }, AreChildren-IsInTrace s xs h)

IsRoot-IsInTrace :
    (s : State) (xs : List Span)
    → All (IsRoot (current_trace_id s) s.root_span_id) xs
    → All (IsInTrace s) xs
IsRoot-IsInTrace s [] h = tt
IsRoot-IsInTrace s (x ∷ xs) ((t, r, p), h) =
    (record { trace = t; place = inr (r, p) }, IsRoot-IsInTrace s xs h)

-- the change of the buffers by spans of the trace
abbrev Adds : State → OutputBuffers → OutputBuffers → Type 0
Adds s o o' =
    (spans : List Span) × (o'.spans_buffer ≡ o.spans_buffer ++ spans)
    × (o'.function_spans_buffer ≡ o.function_spans_buffer)
    × All (IsInTrace s) spans

module _ (tools : ProcessorTools) (config : TelemetryProcessorConfig)
    (by_events : config.tracing_mode ≡ TracingMode.telemetry_api) where
  nothing_added : (s : State) (o : OutputBuffers) → Adds s o o
  nothing_added s o = ([], sym (append-nil _), refl, tt)

  spans_for-Adds :
      (mode : TracingMode) (s : State) (o : OutputBuffers)
      → mode ≡ TracingMode.telemetry_api
      → Adds s o (spans_for tools config mode s o)
  unfolding spans_for append_spans
  spans_for-Adds mode s o h = rw h (
    make_spans_after_invocation s,
    refl,
    refl,
    AreChildren-IsInTrace s _ (make_spans_after_invocation-AreChildren s),
  )

  emit_invocation_spans-Adds :
      (s : State) (o : OutputBuffers) → Adds s o (emit_invocation_spans tools config s o)
  unfolding emit_invocation_spans
  emit_invocation_spans-Adds s o =
      if_branches (Adds s o) s.tracing_state.should_produce_spans
        (spans_for-Adds config.tracing_mode s o by_events) (nothing_added s o)

  emit_report_spans-Adds :
      (s : State) (o : OutputBuffers) → Adds s o (emit_report_spans tools config s o)
  unfolding emit_report_spans append_spans
  emit_report_spans-Adds s o =
      if_branches (Adds s o)
        (s.tracing_state.should_produce_spans && is_telemetry_api config.tracing_mode)
        (
          make_spans_after_report tools.fl tools.to_i128 s,
          refl,
          refl,
          IsRoot-IsInTrace s _ (make_spans_after_report-IsRoot tools.fl tools.to_i128 s),
        )
        (nothing_added s o)

  adding :
      (v : Work State) (o : OutputBuffers)
      → Adds v.state v.output_buffers o
      → IsTraced v (with_output o v)
  adding v o (spans, e, f, h) = record {
    spans = spans;
    appended = e;
    function_spans = f;
    in_trace = h;
    same = record { root = refl; context = refl; tracing = refl };
  }

  IsTraced-laws : RelationLaws tools config IsTraced
  unfolding push_epsagon_trace
  IsTraced-laws = record {
    trans = λ h k. IsTraced-trans h k;
    quiet = λ w w' e same.
        untraced w w' (ap (λ (o : OutputBuffers). o.spans_buffer) e)
          (ap (λ (o : OutputBuffers). o.function_spans_buffer) e) same;
    logged =
        λ w log. untraced w _ refl refl (record { root = refl; context = refl; tracing = refl });
    epsagon =
        λ w trace. untraced w _ refl refl (record { root = refl; context = refl; tracing = refl });
    at_runtime_done = λ w. adding w _ (emit_invocation_spans-Adds w.state w.output_buffers);
    at_report = λ w. adding w _ (emit_report_spans-Adds w.state w.output_buffers);
  }

  -- Where spans are made of the Telemetry API's events, any events leave appended, whether one of them
  -- fails or not, spans of one trace only: each has the trace id of the invocation and is the root, or
  -- has the root as its parent; no span of the function is emitted, and the trace stays the same.
  pub process_all-IsTraced :
      (events : List (Bytes × LambdaTelemetry)) (w : Work State)
      → Leaves (IsTraced w) (process_all tools config events w)
  process_all-IsTraced events w = process_all-Follows IsTraced-laws events w
