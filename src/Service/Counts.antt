-- ===== src/Service/Counts.antt =====
-- src/telemetry/telemetry_service.rs: the count of the buffered spans of the function.
use coralogix_aws_lambda_tel.Prelude.{
  ℕ, ◌+◌, ◌%◌, ◌≡◌, sym, ap, ◌∙◌, List, [], ◌∷◌, ◌++◌, append_assoc, append-nil, arith,
}
use coralogix_aws_lambda_tel.Prelude.{length, length-append}
use coralogix_aws_lambda_tel.Prelude.{u64_mod, add64}
use coralogix_aws_lambda_tel.Proto.{Span, ScopeSpans, ResourceSpans}
use coralogix_aws_lambda_tel.Service.State.{
  OutputBuffers, add_function_scope_spans, add_function_resource_spans,
}
use coralogix_aws_lambda_tel.Service.Sending.{scoped_spans, scoped_spans-append, spans_in}

-- The count is that of the spans in the buffer, as far as a u64 holds it.
abbrev pub IsCounted : OutputBuffers → Type 0
IsCounted o = o.function_spans_count ≡ length (scoped_spans o.function_spans_buffer) % u64_mod

-- What adding spans does.
abbrev pub IsAdded : List Span → OutputBuffers → OutputBuffers → Type 0
IsAdded spans o o' =
    IsCounted o'
    × (scoped_spans o'.function_spans_buffer ≡ scoped_spans o.function_spans_buffer ++ spans)

add_mod : (a b c k : ℕ) → c ≡ a % u64_mod → b ≡ a + k → add64 c k ≡ b % u64_mod
add_mod a b c k h e = omega arith

scoped_spans-last :
    (ss : ScopeSpans) (buffer : List ScopeSpans)
    → scoped_spans (buffer ++ ss ∷ []) ≡ scoped_spans buffer ++ ss.spans
scoped_spans-last ss buffer =
    scoped_spans-append buffer (ss ∷ [])
    ∙ ap (λ (l : List Span). scoped_spans buffer ++ l) (append-nil ss.spans)

add_function_scope_spans-IsAdded :
    (sss : List ScopeSpans) (o : OutputBuffers)
    → IsCounted o
    → IsAdded (scoped_spans sss) o (add_function_scope_spans sss o)
unfolding add_function_scope_spans
add_function_scope_spans-IsAdded [] o h =
    (h, sym (append-nil (scoped_spans o.function_spans_buffer)))
add_function_scope_spans-IsAdded (ss ∷ r) o h =
    let o1 : OutputBuffers = record o {
      function_spans_count = add64 o.function_spans_count (length ss.spans);
      function_spans_buffer = o.function_spans_buffer ++ ss ∷ [];
    } in
    let grown = scoped_spans-last ss o.function_spans_buffer in
    let counted =
      add_mod (length (scoped_spans o.function_spans_buffer))
        (length (scoped_spans o1.function_spans_buffer)) o.function_spans_count (length ss.spans) h
        (ap (length {A = Span}) grown
          ∙ length-append (scoped_spans o.function_spans_buffer) ss.spans) in
    let (k, l) = add_function_scope_spans-IsAdded r o1 counted in
    (
      k,
      l
          ∙ ap (λ (t : List Span). t ++ scoped_spans r) grown
          ∙ append_assoc (scoped_spans o.function_spans_buffer) ss.spans (scoped_spans r),
    )

-- Adding spans of the function keeps the count true to the buffer, which then holds the spans that it
-- held before and the added ones after them, all in their order.
pub add_function_resource_spans-IsAdded :
    (rss : List ResourceSpans) (o : OutputBuffers)
    → IsCounted o
    → IsAdded (spans_in rss) o (add_function_resource_spans rss o)
unfolding add_function_resource_spans
add_function_resource_spans-IsAdded [] o h =
    (h, sym (append-nil (scoped_spans o.function_spans_buffer)))
add_function_resource_spans-IsAdded (rs ∷ r) o h =
    let o1 = add_function_scope_spans rs.scope_spans o in
    let (c, e) = add_function_scope_spans-IsAdded rs.scope_spans o h in
    let (k, l) = add_function_resource_spans-IsAdded r o1 c in
    (
      k,
      l
          ∙ ap (λ (t : List Span). t ++ spans_in r) e
          ∙ append_assoc (scoped_spans o.function_spans_buffer) (scoped_spans rs.scope_spans)
              (spans_in r),
    )
