-- ===== src/LambdaFunctionArn.antt =====
-- src/telemetry/lambda_function_arn.rs: ARNs of lambda functions.
pub mod RoundTrip
use Prim.Native.Char.{Char, code}
use Prim.Native.String
use native.Mathlib.Decide.{ℕ_discrete}
use mathlib.Core.Logic.{ite, if_pos, if_neg}
use text.Mathlib.TextLemmas.{
  nil-append, cons-append, append-nil as append-nil_text, append_assoc as append_assoc_text,
}
use coralogix_aws_lambda_tel.Prelude.{
  ℕ, zero, suc, ◌+◌, ◌-◌, ◌*◌, ◌/◌, ◌%◌, ◌≤◌, ◌<◌, min, max, String, ◌≡◌, refl, sym, ap, ◌∙◌, subst,
  fun_ext, ◌≢◌, ◌↔◌, ◌⊎◌, inl, inr, Bool, true, false, not, ◌&&◌, ◌||◌, Option, none, some, List,
  [], ◌∷◌, ◌++◌, map, append_assoc, append-nil, arith, str_eq, str_eq_iff,
}
use coralogix_aws_lambda_tel.Prelude.{
  ltb, leb, ◌==◌, if◌then◌else◌, ltb→lt, lt→ltb, leb→le, ==_iff, tests, Bool-cases, Option-cases,
  length, all, is_empty, is_some, is_none, or_option, unwrap_or, last_or, keep, length-append,
  map_option, and_then, All, All-append,
}
use coralogix_aws_lambda_tel.Prelude.{
  u64_mod, u64_max, i64_sign, add64, mul64, le_i64, max_i64, ℤ, pos, negsuc, eq_ℤ, as_u64, F64,
  FloatOps, f64_zero, f64_thousand, f64_million, find, modify_entry, ◌<>◌, show_u64, show_i64, join,
}

pub record LambdaFunctionArn : Type 0 where
  pub partition : String
  pub region : String
  pub account_id : String
  pub function_name : String
  pub version : Option String

unfoldable pub without_version : LambdaFunctionArn → LambdaFunctionArn
without_version arn = record arn { version = none }

unfoldable pub with_version : LambdaFunctionArn → String → LambdaFunctionArn
with_version arn version = record arn { version = some version }

abbrev push : String → Char → String
push s c = s <> String.◌∷◌ c ""

-- `s.split(':')`, with the segment read so far
split_from : String → String → List String
split_from cur String.[] = cur ∷ []
split_from cur (String.◌∷◌ c s) =
    let closed = cur ∷ split_from "" s in
    let longer = split_from (push cur c) s in ite (ℕ_discrete (code c) b':') closed longer

unfoldable pub split_colon : String → List String
unfolding split_from ℕ_discrete
split_colon s = split_from "" s

abbrev make : String → String → String → String → Option String → LambdaFunctionArn
make partition region account_id function_name version = record {
  partition = partition;
  region = region;
  account_id = account_id;
  function_name = function_name;
  version = version;
}

abbrev check : String → String → String → LambdaFunctionArn → Option LambdaFunctionArn
check arn lambda function parsed =
    if str_eq arn "arn" && (str_eq lambda "lambda" && str_eq function "function")
    then some parsed
    else none

-- `match segments.as_slice()`
from_segments : List String → Option LambdaFunctionArn
from_segments (arn ∷ partition ∷ lambda ∷ region ∷ account_id ∷ function ∷ function_name ∷ []) =
    check arn lambda function (make partition region account_id function_name none)
from_segments
      (arn ∷ partition ∷ lambda ∷ region ∷ account_id ∷ function ∷ function_name ∷ version ∷ []) =
    check arn lambda function (make partition region account_id function_name (some version))
from_segments _ = none

-- `from_str`; `none` is its error
unfoldable pub parse : String → Option LambdaFunctionArn
unfolding split_colon from_segments
parse s = from_segments (split_colon s)

-- the segments that `fmt` writes, with ":" between them
segments_of : LambdaFunctionArn → Option String → List String
segments_of a none =
    "arn" ∷ a.partition ∷ "lambda" ∷ a.region ∷ a.account_id ∷ "function" ∷ a.function_name ∷ []
segments_of a (some version) =
    "arn" ∷ a.partition ∷ "lambda" ∷ a.region ∷ a.account_id ∷ "function" ∷ a.function_name
    ∷ version ∷ []

-- `to_string`, by `Display::fmt`
unfoldable pub to_string : LambdaFunctionArn → String
unfolding segments_of join
to_string a = join ":" (segments_of a a.version)
