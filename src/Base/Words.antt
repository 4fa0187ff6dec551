-- ===== src/Base/Words.antt =====
-- Machine integers: a `u32` is a number below 2 ^ 32, and an `s32` its two's complement pattern; so with 64 bits.
use Prim.Native.Nat.{ℕ, ◌+◌, ◌-◌, ◌/◌, ◌%◌, ◌^◌}
use mathlib.Core.Bool.{Bool, ◌&&◌}
use mynfs.Base.Tests.{ltb, leb, if◌then◌else◌}

abbrev pub u32_mod : ℕ
u32_mod = 2 ^ 32

abbrev pub add32 : ℕ → ℕ → ℕ
add32 a b = (a + b) % u32_mod

abbrev pub sub32 : ℕ → ℕ → ℕ
sub32 a b = (a + u32_mod - b % u32_mod) % u32_mod

-- `(s32)w < 0`, `(s32)w > 0`
abbrev pub is_neg32 : ℕ → Bool
is_neg32 w = leb (2 ^ 31) w

abbrev pub is_pos32 : ℕ → Bool
is_pos32 w = ltb 0 w && ltb w (2 ^ 31)

-- `(s32)w >> 1`, an arithmetic shift.
abbrev pub sar1 : ℕ → ℕ
sar1 w = if is_neg32 w then w / 2 + 2 ^ 31 else w / 2

abbrev pub sub64 : ℕ → ℕ → ℕ
sub64 a b = (a + 2 ^ 64 - b % 2 ^ 64) % 2 ^ 64

-- `(s64)w > 0`
abbrev pub is_pos64 : ℕ → Bool
is_pos64 w = ltb 0 w && ltb w (2 ^ 63)
