-- ===== src/LambdaFunctionArn/RoundTrip.antt =====
-- src/telemetry/lambda_function_arn.rs: parsing and printing an ARN undo one another.
use Prim.Native.Char.{Char, code}
use text.Mathlib.TextEquality.{Char-path}
use native.Mathlib.Decide.{ℕ_discrete}
use mathlib.Core.Logic.{if_pos, if_neg}
use text.Mathlib.TextLemmas.{
  nil-append, cons-append, append-nil as append-nil_text, append_assoc as append_assoc_text,
}
use coralogix_aws_lambda_tel.Prelude.{
  String, ◌≡◌, refl, sym, ap, ◌∙◌, ◌≢◌, Option, none, some, List, [], ◌∷◌, arith, str_eq_iff,
}
use coralogix_aws_lambda_tel.Prelude.{unwrap_or, All}
use coralogix_aws_lambda_tel.Prelude.{◌<>◌, join}
use coralogix_aws_lambda_tel.LambdaFunctionArn.{
  LambdaFunctionArn, push, split_from, split_colon, from_segments, parse, segments_of, to_string,
}

abbrev pub NoColon : String → Type 0
NoColon String.[] = Unit
NoColon (String.◌∷◌ c s) = (code c ≢ b':') × NoColon s

split_from-NoColon :
    (cur s rest : String) → NoColon s → split_from cur (s <> rest) ≡ split_from (cur <> s) rest
unfolding split_from
split_from-NoColon cur String.[] rest h = rw (nil-append rest, append-nil_text cur)
split_from-NoColon cur (String.◌∷◌ c s) rest (k, h) =
    rw (cons-append c s rest, split_from, if_neg _ k)
      (split_from-NoColon (push cur c) s rest h
        ∙ ap (λ t. split_from t rest)
            (append_assoc_text cur (String.◌∷◌ c "") s
              ∙ ap (λ t. cur <> t) (cons-append c "" s ∙ ap (String.◌∷◌ c) (nil-append s))))

split_from-end : (cur s : String) → NoColon s → split_from cur s ≡ (cur <> s) ∷ []
unfolding split_from
split_from-end cur s h =
    ap (split_from cur) (sym (append-nil_text s)) ∙ split_from-NoColon cur s "" h

split_from-colon : (cur rest : String) → split_from cur (":" <> rest) ≡ cur ∷ split_from "" rest
unfolding split_from ℕ_discrete
split_from-colon cur rest = rw (cons-append _ "" rest, nil-append rest) refl

split_from-join :
    (cur s : String) (ss : List String)
    → NoColon s
    → All NoColon ss
    → split_from cur (join ":" (s ∷ ss)) ≡ (cur <> s) ∷ ss
unfolding join
split_from-join cur s [] h hs = split_from-end cur s h
split_from-join cur s (t ∷ ss) h (k, hs) =
    split_from-NoColon cur s (":" <> join ":" (t ∷ ss)) h
    ∙ split_from-colon (cur <> s) (join ":" (t ∷ ss))
    ∙ ap (λ (r : List String). (cur <> s) ∷ r)
        (split_from-join "" t ss k hs ∙ ap (λ u. u ∷ ss) (nil-append t))

split_from-ne-nil : (cur s : String) → split_from cur s ≢ []
unfolding split_from
split_from-ne-nil cur String.[] = λ e. cc
split_from-ne-nil cur (String.◌∷◌ c s) = elim (ℕ_discrete (code c) b':') [
  | yes e ↦ rw (split_from, if_pos _ e) (λ h. cc)
  | no n ↦ rw (split_from, if_neg _ n) (split_from-ne-nil (push cur c) s)
]

join-cons : (x : String) (l : List String) → l ≢ [] → join ":" (x ∷ l) ≡ x <> ":" <> join ":" l
unfolding join
join-cons x [] h = absurd (h refl)
join-cons x (y ∷ l) h = refl

abbrev char_colon : Char
char_colon = ":"

join-split_from : (cur s : String) → join ":" (split_from cur s) ≡ cur <> s
unfolding split_from join
join-split_from cur String.[] = sym (append-nil_text cur)
join-split_from cur (String.◌∷◌ c s) = elim (ℕ_discrete (code c) b':') [
  | yes e ↦
      let colon : c ≡ char_colon = Char-path c char_colon e in
      rw (split_from, if_pos _ e)
        (join-cons cur (split_from "" s) (split_from-ne-nil "" s)
          ∙ ap (λ u. cur <> ":" <> u) (join-split_from "" s ∙ nil-append s)
          ∙ ap (λ u. cur <> u)
              (cons-append char_colon "" s
                ∙ ap (String.◌∷◌ char_colon) (nil-append s)
                ∙ ap (λ d. String.◌∷◌ d s) (sym colon)))
  | no n ↦
      rw (split_from, if_neg _ n)
        (join-split_from (push cur c) s
          ∙ append_assoc_text cur (String.◌∷◌ c "") s
          ∙ ap (λ t. cur <> t) (cons-append c "" s ∙ ap (String.◌∷◌ c) (nil-append s)))
]

from_segments-segments_of :
    (a : LambdaFunctionArn) → from_segments (segments_of a a.version) ≡ some a
unfolding from_segments segments_of
from_segments-segments_of a = go a a.version refl
  where
    go :
        (a : LambdaFunctionArn) (v : Option String)
        → a.version ≡ v
        → from_segments (segments_of a v) ≡ some a
    go a none e = ground arith
    go a (some v) e = ground arith

-- What `segments_of` splits off has no colon.
abbrev pub IsPlain : LambdaFunctionArn → Type 0
IsPlain a =
    NoColon a.partition
    × NoColon a.region
    × NoColon a.account_id
    × NoColon a.function_name
    × NoColon (unwrap_or a.version "")

abbrev PlainParts : LambdaFunctionArn → Option String → Type 0
PlainParts a v =
    NoColon a.partition
    × NoColon a.region
    × NoColon a.account_id
    × NoColon a.function_name
    × NoColon (unwrap_or v "")

split_colon-join :
    (a : LambdaFunctionArn) (v : Option String)
    → PlainParts a v
    → split_colon (join ":" (segments_of a v)) ≡ segments_of a v
unfolding split_colon segments_of
split_colon-join a none (p, r, i, f, _) =
    split_from-join "" "arn"
      (a.partition ∷ "lambda" ∷ a.region ∷ a.account_id ∷ "function" ∷ a.function_name ∷ [])
      (omega arith) (p, (omega arith, (r, (i, (omega arith, (f, tt))))))
    ∙ ap
        (λ u.
          u ∷ a.partition ∷ "lambda" ∷ a.region ∷ a.account_id ∷ "function" ∷ a.function_name ∷ [])
        (nil-append "arn")
split_colon-join a (some v) (p, r, i, f, n) =
    split_from-join "" "arn"
      (a.partition ∷ "lambda" ∷ a.region ∷ a.account_id ∷ "function" ∷ a.function_name ∷ v ∷ [])
      (omega arith) (p, (omega arith, (r, (i, (omega arith, (f, (n, tt)))))))
    ∙ ap
        (λ u.
          u ∷ a.partition ∷ "lambda" ∷ a.region ∷ a.account_id ∷ "function" ∷ a.function_name ∷ v
          ∷ [])
        (nil-append "arn")

segments_of-from_segments :
    (segments : List String) (a : LambdaFunctionArn)
    → from_segments segments ≡ some a
    → segments_of a a.version ≡ segments
unfolding from_segments segments_of
segments_of-from_segments (arn ∷ p ∷ lambda ∷ r ∷ i ∷ function ∷ f ∷ []) a h =
    ground (arith, str_eq_iff arn "arn", str_eq_iff lambda "lambda", str_eq_iff function "function")
segments_of-from_segments (arn ∷ p ∷ lambda ∷ r ∷ i ∷ function ∷ f ∷ v ∷ []) a h =
    ground (arith, str_eq_iff arn "arn", str_eq_iff lambda "lambda", str_eq_iff function "function")
segments_of-from_segments _ a h = cc

-- An ARN whose parts hold no colon is read back from its text.
pub parse-to_string : (a : LambdaFunctionArn) → IsPlain a → parse (to_string a) ≡ some a
unfolding parse to_string
parse-to_string a h = rw (split_colon-join a a.version h) (from_segments-segments_of a)

-- A text that is read as an ARN is the text of that ARN.
pub to_string-parse : (s : String) (a : LambdaFunctionArn) → parse s ≡ some a → to_string a ≡ s
unfolding parse to_string
to_string-parse s a h =
    ap (join ":") (segments_of-from_segments (split_colon s) a h)
    ∙ (unfold split_colon in join-split_from "" s)
    ∙ nil-append s
