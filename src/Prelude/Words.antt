-- ===== src/Prelude/Words.antt =====
-- Machine integers. A `u64` and an `i64` are both held as the 64 bits they are stored in, a number
-- below 2 ^ 64; so the casts between the two are the identity. An `f64` is its bit pattern too.
-- Points in time are whole nanoseconds since the epoch, of either sign.
use Prim.Native.Nat.{ℕ, ◌+◌, ◌-◌, ◌*◌, ◌%◌}
use mathlib.Core.Bool.{Bool, false}
use coralogix_aws_lambda_tel.Prelude.Tests.{leb, ◌==◌, if◌then◌else◌}

abbrev pub u64_mod : ℕ
u64_mod = 18446744073709551616

abbrev pub u64_max : ℕ
u64_max = 18446744073709551615

abbrev pub i64_sign : ℕ
i64_sign = 9223372036854775808

-- wrapping addition and multiplication
abbrev pub add64 : ℕ → ℕ → ℕ
add64 a b = (a + b) % u64_mod

abbrev pub mul64 : ℕ → ℕ → ℕ
mul64 a b = (a * b) % u64_mod

-- the signed order on bit patterns
abbrev pub le_i64 : ℕ → ℕ → Bool
le_i64 a b = leb ((a + i64_sign) % u64_mod) ((b + i64_sign) % u64_mod)

abbrev pub max_i64 : ℕ → ℕ → ℕ
max_i64 a b = if le_i64 a b then b else a

-- `negsuc n` is -(n + 1).
pub data ℤ : Type 0 where
  pos : ℕ → ℤ
  negsuc : ℕ → ℤ

abbrev pub eq_ℤ : ℤ → ℤ → Bool
eq_ℤ (pos a) (pos b) = a == b
eq_ℤ (negsuc a) (negsuc b) = a == b
eq_ℤ _ _ = false

-- `i128 as u64`
abbrev pub as_u64 : ℤ → ℕ
as_u64 (pos n) = n % u64_mod
as_u64 (negsuc n) = u64_max - n % u64_mod

pub record F64 : Type 0 where
  pub bits : ℕ

-- The operations of `f64` that the program uses, left abstract.
pub record FloatOps : Type 0 where
  pub add : F64 → F64 → F64
  pub sub : F64 → F64 → F64
  pub div : F64 → F64 → F64
  pub mul : F64 → F64 → F64
  pub eq : F64 → F64 → Bool
  pub of_u64 : ℕ → F64
  pub to_u64 : F64 → ℕ

abbrev pub f64_zero : F64
f64_zero = record { bits = 0 }

-- the literals 1000.0 and 1000000.0
abbrev pub f64_thousand : F64
f64_thousand = record { bits = 4652007308841189376 }

abbrev pub f64_million : F64
f64_million = record { bits = 4696837146684686336 }
