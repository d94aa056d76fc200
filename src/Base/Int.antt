-- ===== src/Base/Int.antt =====
-- Signed integers over the native numbers, and the two's complement of `i64`.
use Prim.Native.Nat.{ℕ, ◌-◌, ◌%◌, ◌<◌}
use mathlib.Core.Path.{◌≡◌}
use native.Mathlib.Omega.{arith}
use conflict_free_oltp_v.Base.Tests.{ltb, if◌then◌else◌}
use conflict_free_oltp_v.Base.Text.{u64_range}

-- `negsuc n` is -(n + 1).
pub data ℤ : Type 0 where
  pos : ℕ → ℤ
  negsuc : ℕ → ℤ

abbrev pub i64_half : ℕ
i64_half = 0x8000000000000000

-- The integers of `i64`.
abbrev pub InI64 : ℤ → Type 0
InI64 (pos n) = n < i64_half
InI64 (negsuc n) = n < i64_half

-- The bit pattern of an integer, and the integer of a bit pattern.
unfoldable pub i64_bits : ℤ → ℕ
i64_bits (pos n) = n % u64_range
i64_bits (negsuc n) = u64_range - 1 - n % u64_range

unfoldable pub i64_of_bits : ℕ → ℤ
i64_of_bits b = if ltb b i64_half then pos b else negsuc (u64_range - 1 - b)

pub i64_of_bits-i64_bits : (i : ℤ) → InI64 i → i64_of_bits (i64_bits i) ≡ i
unfolding i64_of_bits i64_bits
i64_of_bits-i64_bits (pos n) h = ground arith
i64_of_bits-i64_bits (negsuc n) h = ground arith

pub i64_bits-lt : (i : ℤ) → i64_bits i < u64_range
unfolding i64_bits
i64_bits-lt (pos n) = omega arith
i64_bits-lt (negsuc n) = omega arith
