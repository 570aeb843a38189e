-- ===== src/Base/Word.antt =====
-- Machine integers as the Rust code uses them: u32, u64 and i64 with saturating and wrapping
-- operations. A value that the code keeps nonnegative is a plain number.
use summerrs_admin.Base.Tests.{leb, if◌then◌else◌}
use Prim.Native.Nat.{ℕ, suc, ◌+◌, ◌-◌, ◌*◌, ◌%◌, ◌≤◌, min}
use mathlib.Core.Path.{◌≡◌}
use native.Mathlib.Omega.{arith}

abbrev pub u32_mod : ℕ
u32_mod = 4294967296

abbrev pub u32_max : ℕ
u32_max = 4294967295

abbrev pub u64_mod : ℕ
u64_mod = 18446744073709551616

abbrev pub u64_max : ℕ
u64_max = 18446744073709551615

abbrev pub i64_max : ℕ
i64_max = 9223372036854775807

-- `negsuc n` is -(n + 1).
pub data ℤ : Type 0 where
  pos : ℕ → ℤ
  negsuc : ℕ → ℤ

abbrev pub pos_part : ℤ → ℕ
pos_part (pos n) = n
pos_part (negsuc n) = 0

abbrev pub neg_part : ℤ → ℕ
neg_part (pos n) = 0
neg_part (negsuc n) = suc n

abbrev pub sub_ℕ : ℕ → ℕ → ℤ
sub_ℕ a b = if leb b a then pos (a - b) else negsuc (b - a - 1)

-- `saturating_add` and `saturating_mul` of i64 at nonnegative operands.
unfoldable pub saturating_add : ℕ → ℕ → ℕ
saturating_add a b = min (a + b) i64_max

unfoldable pub saturating_mul : ℕ → ℕ → ℕ
saturating_mul a b = min (a * b) i64_max

-- The i64 that has the bit pattern of a number below 2^64.
abbrev pub i64_of_bits : ℕ → ℤ
i64_of_bits n = if leb n i64_max then pos n else negsuc (u64_max - n)

-- The bit pattern of an i64 (of any integer, modulo 2^64).
abbrev pub bits_of_i64 : ℤ → ℕ
bits_of_i64 (pos n) = n % u64_mod
bits_of_i64 (negsuc n) = u64_max - n % u64_mod

-- `AtomicI64::fetch_sub`: the wrapping difference of an i64 and a nonnegative i64.
unfoldable pub wrapping_sub : ℤ → ℕ → ℤ
wrapping_sub a b = i64_of_bits ((bits_of_i64 a + (u64_mod - b % u64_mod)) % u64_mod)

pub saturating_add_exact : (a b : ℕ) → a + b ≤ i64_max → saturating_add a b ≡ a + b
unfolding saturating_add
saturating_add_exact a b h = omega arith

pub saturating_mul_exact : (a b : ℕ) → a * b ≤ i64_max → saturating_mul a b ≡ a * b
unfolding saturating_mul
saturating_mul_exact a b h = omega arith

-- Without overflow the wrapping difference is the difference.
pub wrapping_sub_exact : (a b : ℕ) → a ≤ i64_max → b ≤ i64_max → wrapping_sub (pos a) b ≡ sub_ℕ a b
unfolding wrapping_sub
wrapping_sub_exact a b p q = ground arith
