-- ===== src/OtelMetrics/TimeSeriesId.antt =====
-- src/telemetry/otel_metrics.rs: the identity of a time series, made of its sorted attributes.
use Prim.Native.Nat.{Ordering}
use Prim.Native.String
use coralogix_aws_lambda_tel.Prelude.{
  String, ◌≡◌, refl, Bool, true, false, ◌&&◌, Option, none, some, List, [], ◌∷◌, map, str_eq,
}
use coralogix_aws_lambda_tel.Prelude.{if◌then◌else◌, unwrap_or, map_option, and_then}
use coralogix_aws_lambda_tel.Prelude.{F64, ◌<>◌, show_i64, join}
use coralogix_aws_lambda_tel.Proto.{
  Bytes, Value, string_value, bool_value, int_value, double_value, array_value, kvlist_value,
  bytes_value, AnyValue, unset, with_value, AnyValues, nil, cons, KeyValues, end, bare, pair,
  KeyValue,
}

-- `f64::to_string` and `str::from_utf8`, which the program takes from the standard library
pub record ValueFormat : Type 0 where
  pub show_f64 : F64 → String
  pub from_utf8 : Bytes → Option String

abbrev pub TimeSeriesId : Type 0
TimeSeriesId = List (String × Option String)

abbrev add_item : Option String → List String → List String
add_item none r = r
add_item (some s) r = s ∷ r

abbrev show_bool : Bool → String
show_bool true = "true"
show_bool false = "false"

unfoldable mutual
  pub value_to_string : ValueFormat → Value → String
  value_to_string f (string_value v) = v
  value_to_string f (bool_value v) = show_bool v
  value_to_string f (int_value v) = show_i64 v
  value_to_string f (double_value v) = f.show_f64 v
  value_to_string f (array_value vs) = join "," (array_items f vs)
  value_to_string f (kvlist_value kvs) = join "," (kvlist_items f kvs)
  value_to_string f (bytes_value b) = unwrap_or (f.from_utf8 b) ""

  pub any_value_to_string : ValueFormat → AnyValue → Option String
  any_value_to_string f unset = none
  any_value_to_string f (with_value v) = some (value_to_string f v)

  pub array_items : ValueFormat → AnyValues → List String
  array_items f nil = []
  array_items f (cons av vs) = add_item (any_value_to_string f av) (array_items f vs)

  pub kvlist_items : ValueFormat → KeyValues → List String
  kvlist_items f end = []
  kvlist_items f (bare k kvs) = kvlist_items f kvs
  kvlist_items f (pair k av kvs) =
      add_item (map_option (λ s. k <> ":" <> s) (any_value_to_string f av)) (kvlist_items f kvs)

abbrev str_le : String → String → Bool
str_le s t = elim (String.compare s t) [ Ordering.gt ↦ false | _ ↦ true ]

-- the derived order on `Option<String>`
abbrev option_le : Option String → Option String → Bool
option_le none o = true
option_le (some s) none = false
option_le (some s) (some t) = str_le s t

-- the order on pairs: the first component decides, then the second
abbrev entry_le : String × Option String → String × Option String → Bool
entry_le a b = if str_eq a.0 b.0 then option_le a.1 b.1 else str_le a.0 b.0

insert_sorted : String × Option String → TimeSeriesId → TimeSeriesId
insert_sorted a [] = a ∷ []
insert_sorted a (b ∷ r) = if entry_le a b then a ∷ b ∷ r else b ∷ insert_sorted a r

-- `sorted()`
sorted : TimeSeriesId → TimeSeriesId
sorted [] = []
sorted (a ∷ r) = insert_sorted a (sorted r)

entry_of : ValueFormat → KeyValue → String × Option String
entry_of f kv = (kv.key, and_then kv.value (any_value_to_string f))

unfoldable pub from_attributes : ValueFormat → List KeyValue → TimeSeriesId
unfolding sorted insert_sorted entry_of
from_attributes f attributes = sorted (map (entry_of f) attributes)

abbrev eq_option : Option String → Option String → Bool
eq_option none none = true
eq_option (some s) (some t) = str_eq s t
eq_option _ _ = false

-- the derived equality of `TimeSeriesId`
unfoldable pub eq_id : TimeSeriesId → TimeSeriesId → Bool
eq_id [] [] = true
eq_id (a ∷ r) (b ∷ q) = str_eq a.0 b.0 && (eq_option a.1 b.1 && eq_id r q)
eq_id _ _ = false

abbrev pub plain : ValueFormat
plain = record { show_f64 = λ x. "f"; from_utf8 = λ b. none }

abbrev pub attribute : String → Value → KeyValue
attribute k v = record { key = k; value = some (with_value v) }

sorts :
    from_attributes plain (attribute "b" (bool_value true) ∷ attribute "a" (int_value 7) ∷ [])
    ≡ ("a", some "7") ∷ ("b", some "true") ∷ []
unfolding from_attributes value_to_string any_value_to_string show_i64
sorts = refl
