-- ===== src/Examples/Records.antt =====
-- Log records and ARNs: examples.
use text.Mathlib.TextBridge.{IsPrefix}
use text.Mathlib.Text.{is_char_boundary}
use Prim.Native.String.{len}
use coralogix_aws_lambda_tel.Prelude.{
  ℕ, ◌≤◌, ◌<◌, String, ◌≡◌, refl, ◌⊎◌, true, some, List, [], ◌∷◌, map, arith,
}
use coralogix_aws_lambda_tel.Prelude.{◌<>◌}
use coralogix_aws_lambda_tel.Logs.Timestamp.{
  IsIncreasing, AreWithin, millis, at, make_log_timestamps, make_log_timestamps-IsIncreasing,
}
use coralogix_aws_lambda_tel.Logs.Truncation.{
  truncate, truncate_with_annotation_if_too_long, truncate_lem,
  truncate_with_annotation_if_too_long_lem, annotation,
}
use coralogix_aws_lambda_tel.LambdaFunctionArn.{LambdaFunctionArn, parse, to_string}
use coralogix_aws_lambda_tel.LambdaFunctionArn.RoundTrip.{parse-to_string, to_string-parse}

abbrev times : List ℕ
times = 1700000000000 ∷ 1700000000000 ∷ 1700000000001 ∷ []

make_log_timestamps-IsIncreasing_example :
    let ns = make_log_timestamps (at 1700000000000 0) (map millis times) in
    IsIncreasing 1700000000000000000 ns × AreWithin times ns
make_log_timestamps-IsIncreasing_example =
    make_log_timestamps-IsIncreasing times 1700000000000 0 (omega arith)
      (omega arith, omega arith, (omega arith, omega arith, (omega arith, omega arith, tt)))

abbrev pub arn : LambdaFunctionArn
arn = record {
  partition = "aws";
  region = "eu-west-1";
  account_id = "123";
  function_name = "f";
  version = some "7";
}

parse-to_string_example : parse (to_string arn) ≡ some arn
parse-to_string_example =
    parse-to_string arn (omega arith, omega arith, omega arith, omega arith, omega arith)

to_string-parse_example : to_string arn ≡ "arn:aws:lambda:eu-west-1:123:function:f:7"
to_string-parse_example =
    to_string-parse "arn:aws:lambda:eu-west-1:123:function:f:7" arn (unfold parse in refl)

-- the limit falls inside the second character
truncate_lem_example :
    IsPrefix (truncate "aéb" 2) "aéb"
    × (len (truncate "aéb" 2) ≤ 2)
    × ((k : ℕ) → k ≤ 2 → k ≤ 4 → is_char_boundary "aéb" k ≡ true → k ≤ len (truncate "aéb" 2))
truncate_lem_example = truncate_lem "aéb" 2

truncate_with_annotation_if_too_long_lem_example :
    ((4 ≤ 2) × (truncate_with_annotation_if_too_long "aéb" 2 ≡ "aéb"))
    ⊎ ((2 < 4)
        × ((kept : String) × (truncate_with_annotation_if_too_long "aéb" 2 ≡ kept <> annotation 2)
            × IsPrefix kept "aéb"
            × (len kept ≤ 2)
            × ((k : ℕ) → k ≤ 2 → k ≤ 4 → is_char_boundary "aéb" k ≡ true → k ≤ len kept)))
truncate_with_annotation_if_too_long_lem_example =
    truncate_with_annotation_if_too_long_lem "aéb" 2 (omega arith) (omega arith)
