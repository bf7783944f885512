-- ===== src/Logs/Truncation.antt =====
-- src/telemetry/processor/log_maker.rs: messages that are too long, and the severity of a message.

use Prim.Native.String.{len, slice}
use text.Mathlib.Text.{is_char_boundary, find?}
use text.Mathlib.TextBridge.{IsPrefix}
use text.Mathlib.TextEquality.{slice-prefix}
use text.Mathlib.TextLemmas.{append-nil as append-nil_text}
use text.Mathlib.TextPositions.{boundary-zero}
use coralogix_aws_lambda_tel.Prelude.{
  ℕ, zero, suc, ◌+◌, ◌-◌, ◌/◌, ◌%◌, ◌≤◌, ◌<◌, String, ◌≡◌, refl, ap, subst, ◌≢◌, ◌⊎◌, inl, inr,
  Bool, true, false, not, ◌||◌, arith,
}
use coralogix_aws_lambda_tel.Prelude.{ltb, leb, if◌then◌else◌, Bool-cases, length, is_some}
use coralogix_aws_lambda_tel.Prelude.{u64_mod, i64_sign, le_i64, ◌<>◌, show_u64}

-- `while !s.is_char_boundary(n) { n -= 1; }`
floor_boundary : String → ℕ → ℕ
floor_boundary s zero = zero
floor_boundary s (suc n) =
    let lower = floor_boundary s n in if is_char_boundary s (suc n) then suc n else lower

unfoldable pub truncate : String → ℕ → String
unfolding floor_boundary
truncate s n = if leb (len s) n then s else slice s 0 (floor_boundary s n)

-- the difference of two lengths, as an i64
abbrev pub overflow_of : ℕ → ℕ → ℕ
overflow_of length limit = (length + (u64_mod - limit % u64_mod)) % u64_mod

unfoldable pub truncate_with_annotation_if_too_long : String → ℕ → String
unfolding truncate
truncate_with_annotation_if_too_long log_text limit =
    let overflow = overflow_of (len log_text) limit in
    if le_i64 overflow 0
    then log_text
    else if not (le_i64 1000 overflow)
    then truncate log_text limit <> "...(" <> show_u64 overflow <> "B truncated)..."
    else truncate log_text limit <> "...(" <> show_u64 (overflow / 1000) <> "kB truncated)..."

-- `SeverityNumber`
pub data SeverityNumber : Type 0 where
  trace debug info warn error fatal : SeverityNumber

abbrev pub severity_code : SeverityNumber → ℕ
severity_code trace = 1
severity_code debug = 5
severity_code info = 9
severity_code warn = 13
severity_code error = 17
severity_code fatal = 21

abbrev contains : String → String → Bool
contains s t = is_some (find? s t)

-- `str::to_lowercase` is the argument
unfoldable pub infer_severity : (String → String) → String → SeverityNumber
infer_severity to_lowercase log_text =
    let t = to_lowercase log_text in
    if contains t "fatal" || contains t "critical"
    then fatal
    else if contains t "error" || contains t "exception"
    then error
    else if contains t "warn"
    then warn
    else if contains t "verbose" || contains t "trace"
    then trace
    else if contains t "debug"
    then debug
    else info

floor_boundary-is_char_boundary :
    (s : String) (n : ℕ) → is_char_boundary s (floor_boundary s n) ≡ true
unfolding floor_boundary
floor_boundary-is_char_boundary s zero = boundary-zero s
floor_boundary-is_char_boundary s (suc n) = elim (Bool-cases (is_char_boundary s (suc n))) [
  | inl here ↦ rw here here
  | inr inside ↦ rw inside (floor_boundary-is_char_boundary s n)
]

floor_boundary-le : (s : String) (n : ℕ) → floor_boundary s n ≤ n
unfolding floor_boundary
floor_boundary-le s zero = omega arith
floor_boundary-le s (suc n) = ground (arith, floor_boundary-le s n)

floor_boundary-greatest :
    (s : String) (n k : ℕ) → k ≤ n → is_char_boundary s k ≡ true → k ≤ floor_boundary s n
unfolding floor_boundary
floor_boundary-greatest s zero k h b = h
floor_boundary-greatest s (suc n) k h b = elim (Bool-cases (is_char_boundary s (suc n))) [
  | inl here ↦ rw here h
  | inr inside ↦
      let other : k ≢ suc n = λ e. cc (ap (is_char_boundary s) e, b, inside) in
      rw inside (floor_boundary-greatest s n k (omega arith) b)
]

-- The length of the text up to a boundary.
len-slice : (s : String) (k : ℕ) → is_char_boundary s k ≡ true → len (slice s 0 k) ≡ k
len-slice s k h = ground arith

-- The kept text is a beginning of the text, has at most `n` bytes, and is the longest such: no
-- boundary of a character up to `n` lies past it. So no character is cut, and the search of a boundary ends.
pub truncate_lem :
    (s : String) (n : ℕ)
    → IsPrefix (truncate s n) s
      × (len (truncate s n) ≤ n)
      × ((k : ℕ) → k ≤ n → k ≤ len s → is_char_boundary s k ≡ true → k ≤ len (truncate s n))
unfolding truncate
truncate_lem s n = elim (Bool-cases (leb (len s) n)) [
  | inl short ↦ rw short ((String.[], append-nil_text s), ground arith, λ k _ h _. h)
  | inr long ↦
      let e : len (slice s 0 (floor_boundary s n)) ≡ floor_boundary s n =
        len-slice s (floor_boundary s n) (floor_boundary-is_char_boundary s n) in
      rw long (
        slice-prefix s (floor_boundary s n),
        omega (arith, e, floor_boundary-le s n),
        λ k h _ b. omega (arith, e, floor_boundary-greatest s n k h b),
      )
]

overflow_of-le :
    (n limit : ℕ)
    → n < i64_sign
    → limit < i64_sign
    → n ≤ limit
    → le_i64 (overflow_of n limit) 0 ≡ true
overflow_of-le n limit h k l = ground arith

overflow_of-gt :
    (n limit : ℕ)
    → n < i64_sign
    → limit < i64_sign
    → limit < n
    → le_i64 (overflow_of n limit) 0 ≡ false
overflow_of-gt n limit h k l = ground arith

overflow_of-diff :
    (n limit : ℕ) → n < i64_sign → limit < i64_sign → limit < n → overflow_of n limit ≡ n - limit
overflow_of-diff n limit h k l = ground arith

-- The annotation for a number of bytes that are over the limit.
abbrev pub annotation : ℕ → String
annotation bytes =
    if ltb bytes 1000
    then "...(" <> show_u64 bytes <> "B truncated)..."
    else "...(" <> show_u64 (bytes / 1000) <> "kB truncated)..."

-- a positive i64 is compared with 1000 as a number
thousand_bytes : (bytes : ℕ) → bytes < i64_sign → le_i64 1000 bytes ≡ not (ltb bytes 1000)
thousand_bytes bytes h = ground arith

-- Over the limit, the beginning is followed by the annotation.
truncate_with_annotation-over :
    (s : String) (limit : ℕ)
    → len s < i64_sign
    → limit < i64_sign
    → limit < len s
    → truncate_with_annotation_if_too_long s limit ≡ truncate s limit <> annotation (len s - limit)
unfolding truncate_with_annotation_if_too_long
truncate_with_annotation-over s limit h k over =
    let e : overflow_of (len s) limit ≡ len s - limit = overflow_of-diff (len s) limit h k over in
    let positive : le_i64 (len s - limit) 0 ≡ false =
      subst (λ n. le_i64 n 0 ≡ false) e (overflow_of-gt (len s) limit h k over) in
    let compared = thousand_bytes (len s - limit) (omega arith) in
    elim (Bool-cases (ltb (len s - limit) 1000)) [
      | inl small ↦ rw (e, positive, compared, small) refl
      | inr large ↦ rw (e, positive, compared, large) refl
    ]

-- A message within the limit is kept as it is. Of a longer one, the longest beginning stays that has at most as
-- many bytes as the limit and cuts no character, followed by the annotation for the bytes over the limit. This is for
-- lengths and limits that an i64 holds.
pub truncate_with_annotation_if_too_long_lem :
    (s : String) (limit : ℕ)
    → len s < i64_sign
    → limit < i64_sign
    → ((len s ≤ limit) × (truncate_with_annotation_if_too_long s limit ≡ s))
      ⊎ ((limit < len s)
          × ((kept : String) × (truncate_with_annotation_if_too_long s limit
                ≡ kept <> annotation (len s - limit))
              × IsPrefix kept s
              × (len kept ≤ limit)
              × ((k : ℕ) → k ≤ limit → k ≤ len s → is_char_boundary s k ≡ true → k ≤ len kept)))
unfolding truncate_with_annotation_if_too_long
truncate_with_annotation_if_too_long_lem s limit h k = elim (Bool-cases (leb (len s) limit)) [
  | inl short ↦
      let fits : len s ≤ limit = ground arith in
      inl (fits, rw (overflow_of-le (len s) limit h k fits))
  | inr long ↦
      let over : limit < len s = ground arith in
      let (prefix, bounded, longest) = truncate_lem s limit in
      inr (
        over,
        (
          truncate s limit,
          truncate_with_annotation-over s limit h k over,
          prefix,
          bounded,
          longest,
        ),
      )
]
