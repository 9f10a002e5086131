-- ===== src/Base/Words.antt =====
-- Unsigned machine words as native numbers: a cast or a wrap is a remainder, a shift a quotient or
-- a product, and the masks and single-bit tests that the devices use are written by those.
use Prim.Native.Nat.{ℕ, ◌+◌, ◌-◌, ◌*◌, ◌/◌, ◌%◌, ◌^◌, ◌<◌}
use mathlib.Core.Path.{◌≡◌}
use mathlib.Core.Bool.{Bool}
use native.Mathlib.Omega.{arith}
use tenclaw.Base.Tests.{◌==◌, if◌then◌else◌}

abbrev pub u8 : ℕ → ℕ
u8 x = x % 2 ^ 8

abbrev pub u16 : ℕ → ℕ
u16 x = x % 2 ^ 16

abbrev pub u32 : ℕ → ℕ
u32 x = x % 2 ^ 32

abbrev pub u64 : ℕ → ℕ
u64 x = x % 2 ^ 64

-- `x >> k`
abbrev pub shr : ℕ → ℕ → ℕ
shr x k = x / 2 ^ k

-- `x << k`, before any cast
abbrev pub shl : ℕ → ℕ → ℕ
shl x k = x * 2 ^ k

-- `(x & (1 << k)) != 0`
abbrev pub test_bit : ℕ → ℕ → Bool
test_bit x k = shr x k % 2 == 1

-- `x | (1 << k)`
abbrev pub set_bit : ℕ → ℕ → ℕ
set_bit x k = if test_bit x k then x else x + 2 ^ k

-- `x & ~(1 << k)`
abbrev pub clear_bit : ℕ → ℕ → ℕ
clear_bit x k = if test_bit x k then x - 2 ^ k else x

-- `(x & 0xFFFFFFFF00000000) | v` for a 32-bit `v`: the low word replaced.
abbrev pub with_low32 : ℕ → ℕ → ℕ
with_low32 x v = x / 2 ^ 32 * 2 ^ 32 + v

-- `(x & 0x00000000FFFFFFFF) | ((uint64_t)v << 32)` for a 32-bit `v`: the high word replaced.
abbrev pub with_high32 : ℕ → ℕ → ℕ
with_high32 x v = x % 2 ^ 32 + v * 2 ^ 32

pub with_low32-with_high32 :
    (x lo hi : ℕ) → lo < 2 ^ 32 → with_low32 (with_high32 x hi) lo ≡ hi * 2 ^ 32 + lo
with_low32-with_high32 x lo hi h = omega arith
