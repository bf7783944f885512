-- ===== src/Logs/Json/RoundTrip.antt =====
-- src/telemetry/processor/any_value.rs: what a log record keeps of a JSON value.
use coralogix_aws_lambda_tel.Prelude.{ℕ, ◌≡◌, refl, ap, ◌⊎◌, inl, inr, none, some}
use coralogix_aws_lambda_tel.Prelude.{F64}
use coralogix_aws_lambda_tel.Proto.{
  Value, string_value, bool_value, int_value, double_value, array_value, kvlist_value, bytes_value,
  AnyValue, unset, with_value, AnyValues, nil, cons, KeyValues, end, bare, pair,
}
use coralogix_aws_lambda_tel.Logs.Json.{
  Number, Json, null, bool, number, string, array, object, Elements, no_elements, element, Members,
  no_members, member, Numbers, from_json, from_elements, from_members,
}

-- How the values of a log record are read as JSON, given how JSON writes the two kinds of numbers.
module _ (of_i64 : ℕ → Number) (of_f64 : F64 → Number) where
  unfoldable mutual
    pub to_json : AnyValue → Json
    to_json unset = null
    to_json (with_value v) = value_to_json v

    pub value_to_json : Value → Json
    value_to_json (string_value s) = string s
    value_to_json (bool_value b) = bool b
    value_to_json (int_value i) = number (of_i64 i)
    value_to_json (double_value f) = number (of_f64 f)
    value_to_json (array_value a) = array (to_elements a)
    value_to_json (kvlist_value o) = object (to_members o)
    value_to_json (bytes_value b) = null

    pub to_elements : AnyValues → Elements
    to_elements nil = no_elements
    to_elements (cons v r) = element (to_json v) (to_elements r)

    pub to_members : KeyValues → Members
    to_members end = no_members
    to_members (bare k r) = member k null (to_members r)
    to_members (pair k v r) = member k (to_json v) (to_members r)

  module _ (n : Numbers) where
    -- The number is an i64, or else an f64, and is written as such.
    abbrev pub IsExact : Number → Type 0
    IsExact x =
        ((i : ℕ) × (n.as_i64 x ≡ some i) × (of_i64 i ≡ x))
        ⊎ ((n.as_i64 x ≡ none) × ((f : F64) × (n.as_f64 x ≡ some f) × (of_f64 f ≡ x)))

    abbrev mutual
      pub AreExact : Json → Type 0
      AreExact (number x) = IsExact x
      AreExact (array a) = ElementsAreExact a
      AreExact (object o) = MembersAreExact o
      AreExact _ = Unit

      pub ElementsAreExact : Elements → Type 0
      ElementsAreExact no_elements = Unit
      ElementsAreExact (element j r) = AreExact j × ElementsAreExact r

      pub MembersAreExact : Members → Type 0
      MembersAreExact no_members = Unit
      MembersAreExact (member k j r) = AreExact j × MembersAreExact r

    mutual
      unfolding to_json from_json

      json_back : (j : Json) → AreExact j → to_json (from_json n j) ≡ j
      json_back null h = refl
      json_back (bool b) h = refl
      json_back (number x) (inl (i, e, back)) = rw e (ap number back)
      json_back (number x) (inr (e, (f, e', back))) = rw (e, e') (ap number back)
      json_back (string s) h = refl
      json_back (array a) h = ap array (elements_back a h)
      json_back (object o) h = ap object (members_back o h)

      elements_back : (a : Elements) → ElementsAreExact a → to_elements (from_elements n a) ≡ a
      elements_back no_elements h = refl
      elements_back (element j r) (h, k) = cc (json_back j h, elements_back r k)

      members_back : (o : Members) → MembersAreExact o → to_members (from_members n o) ≡ o
      members_back no_members h = refl
      members_back (member k j r) (h, l) = cc (json_back j h, members_back r l)

    -- A JSON value whose numbers are all exact is read back from what a log record keeps of it: no
    -- member, element or text of it is lost or moved.
    pub to_json-from_json : (j : Json) → AreExact j → to_json (from_json n j) ≡ j
    to_json-from_json j h = json_back j h
