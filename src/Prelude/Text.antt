-- ===== src/Prelude/Text.antt =====
-- Texts: decimal numbers, joining and splitting.
use Prim.Native.Nat.{ℕ, zero, suc, ◌-◌, ◌/◌, ◌%◌}
use Prim.Native.Char.{code}
use Prim.Native.String
use Prim.Native.String.{String}
use mathlib.Core.Path.{◌≡◌, refl}
use mathlib.Core.List.{List, [], ◌∷◌}
use coralogix_aws_lambda_tel.Prelude.Tests.{ltb, ◌==◌, if◌then◌else◌}
use coralogix_aws_lambda_tel.Prelude.Words.{i64_sign, u64_mod}

infixr 65 ◌<>◌
abbrev pub ◌<>◌ : String → String → String
s <> t = String.◌++◌ s t

abbrev digit : ℕ → String
digit n =
    if n == 0
    then "0"
    else if n == 1
    then "1"
    else if n == 2
    then "2"
    else if n == 3
    then "3"
    else if n == 4
    then "4"
    else if n == 5
    then "5"
    else if n == 6
    then "6"
    else if n == 7
    then "7"
    else if n == 8
    then "8"
    else "9"

decimal_fuel : ℕ → ℕ → String
decimal_fuel zero n = ""
decimal_fuel (suc f) n =
    let rest = decimal_fuel f (n / 10) <> digit (n % 10) in if ltb n 10 then digit n else rest

-- `u64::to_string`; a u64 has at most twenty digits
unfoldable pub show_u64 : ℕ → String
unfolding decimal_fuel
show_u64 n = decimal_fuel 20 n

-- `i64::to_string`
unfoldable pub show_i64 : ℕ → String
unfolding show_u64
show_i64 n = if ltb n i64_sign then show_u64 n else "-" <> show_u64 (u64_mod - n)

-- `join(separator)`
unfoldable pub join : String → List String → String
join separator [] = ""
join separator (s ∷ []) = s
join separator (s ∷ t ∷ r) = s <> separator <> join separator (t ∷ r)

-- a character before the first segment
before_first : String → List String → List String
before_first x [] = x ∷ []
before_first x (s ∷ r) = (x <> s) ∷ r

-- `s.split(c)`, for the code of `c`
unfoldable pub split : ℕ → String → List String
unfolding before_first
split c String.[] = "" ∷ []
split c (String.◌∷◌ x s) =
    let rest = split c s in if code x == c then "" ∷ rest else before_first (String.◌∷◌ x "") rest

-- `s.replace(a, b)`, for a character by its code
unfoldable pub replace : ℕ → String → String → String
replace c by String.[] = ""
replace c by (String.◌∷◌ x s) =
    let rest = replace c by s in if code x == c then by <> rest else String.◌∷◌ x "" <> rest

split_tests : split b',' "a,b,," ≡ "a" ∷ "b" ∷ "" ∷ "" ∷ []
unfolding split
split_tests = refl

replace_tests : replace b'.' "_" "faas.name" ≡ "faas_name"
unfolding replace
replace_tests = refl

show_tests : show_i64 18446744073709551609 <> show_u64 1200 ≡ "-71200"
unfolding show_i64 show_u64
show_tests = refl
