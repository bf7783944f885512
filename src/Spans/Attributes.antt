-- ===== src/Spans/Attributes.antt =====
-- src/telemetry/processor/span_processor.rs: the attributes that mark spans for the exporter do not leave it.
use coralogix_aws_lambda_tel.Prelude.{
  String, ◌≡◌, refl, sym, ap, ◌∙◌, Bool, not, ◌||◌, Option, none, some, List, [], ◌∷◌, ◌++◌,
  append_assoc, append-nil, arith, str_eq,
}
use coralogix_aws_lambda_tel.Prelude.{keep}
use coralogix_aws_lambda_tel.Proto.{KeyValue, Span}
use coralogix_aws_lambda_tel.Spans.{
  SpanTools, Marks, read_attribute, read_attributes, no_marks, categorize,
  process_and_categorize_span,
}

abbrev pub is_internal : KeyValue → Bool
is_internal a =
    str_eq a.key "cx.internal.span.role"
    || (str_eq a.key "cx.internal.span.state"
        || (str_eq a.key "cx.internal.span.id" || str_eq a.key "cx.internal.trace.id"))

abbrev pub is_public : KeyValue → Bool
is_public a = not (is_internal a)

keep-append :
    (xs ys : List KeyValue) → keep is_public (xs ++ ys) ≡ keep is_public xs ++ keep is_public ys
keep-append [] ys = refl
keep-append (x ∷ xs) ys = ground (arith, keep-append xs ys)

read_attribute-keep :
    (a : KeyValue) (m : Marks)
    → (read_attribute a m).new_attributes ≡ m.new_attributes ++ keep is_public (a ∷ [])
unfolding read_attribute
read_attribute-keep a m = ground (arith, append-nil m.new_attributes)

read_attributes-keep :
    (rest : List KeyValue) (m : Marks)
    → (read_attributes rest m).new_attributes ≡ m.new_attributes ++ keep is_public rest
unfolding read_attributes
read_attributes-keep [] m = sym (append-nil m.new_attributes)
read_attributes-keep (a ∷ rest) m =
    read_attributes-keep rest (read_attribute a m)
    ∙ ap (λ (l : List KeyValue). l ++ keep is_public rest) (read_attribute-keep a m)
    ∙ append_assoc m.new_attributes (keep is_public (a ∷ [])) (keep is_public rest)
    ∙ ap (λ (l : List KeyValue). m.new_attributes ++ l) (sym (keep-append (a ∷ []) rest))

categorize-attributes :
    (tools : SpanTools) (m : Marks) (o : Option String) (span : Span)
    → (categorize tools m o span).0.attributes ≡ span.attributes
unfolding categorize
categorize-attributes tools m none span = ground arith
categorize-attributes tools m (some role) span = ground arith

-- A span keeps, in their order, exactly those of its attributes that are none of the four marks of the
-- instrumentation.
pub process_and_categorize_span-attributes :
    (tools : SpanTools) (span : Span)
    → (process_and_categorize_span tools span).0.attributes ≡ keep is_public span.attributes
unfolding process_and_categorize_span
process_and_categorize_span-attributes tools span =
    let m = read_attributes span.attributes no_marks in
    categorize-attributes tools m m.span_role (record span { attributes = m.new_attributes })
    ∙ read_attributes-keep span.attributes no_marks
