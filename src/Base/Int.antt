-- ===== src/Base/Int.antt =====
-- Rust's `i32` values as integers.
use Prim.Native.Nat.{ℕ, suc, ◌-◌, ◌^◌, ◌%◌}
use mathlib.Core.Bool.{Bool, false, ◌&&◌}
use fairypam_rust_agent.Base.Tests.{leb, ◌==◌}

-- `negsuc n` is -(n + 1).
pub data ℤ : Type 0 where
  pos : ℕ → ℤ
  negsuc : ℕ → ℤ

-- `i32::unsigned_abs`.
abbrev pub unsigned_abs : ℤ → ℕ
unsigned_abs (pos n) = n
unsigned_abs (negsuc n) = suc n

-- `as u32`: the two's complement bit pattern.
abbrev pub as_u32 : ℤ → ℕ
as_u32 (pos n) = n % 2 ^ 32
as_u32 (negsuc n) = 2 ^ 32 - suc n % 2 ^ 32

abbrev pub is_zero : ℤ → Bool
is_zero (pos n) = n == 0
is_zero (negsuc n) = false

-- `z % n == 0`, for a positive `n`: the sign of the remainder does not matter.
abbrev pub is_multiple_of : ℕ → ℤ → Bool
is_multiple_of n z = unsigned_abs z % n == 0

-- `(lo..=hi).contains(&z)`, for bounds that are not negative.
abbrev pub int_between : ℕ → ℕ → ℤ → Bool
int_between lo hi (pos n) = leb lo n && leb n hi
int_between lo hi (negsuc n) = false

-- `z >= lo`, for a bound that is positive.
abbrev pub at_least : ℕ → ℤ → Bool
at_least lo (pos n) = leb lo n
at_least lo (negsuc n) = false
