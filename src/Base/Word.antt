-- ===== src/Base/Word.antt =====
-- The fixed widths of C: casts, shifts and the complement. A value of a w-bit unsigned type is a
-- number below `2 ^ w`; a signed one is held as its two's complement pattern.
use Prim.Native.Nat.{ℕ, ◌+◌, ◌-◌, ◌*◌, ◌/◌, ◌%◌, ◌^◌, bit_and}
use mathlib.Core.Bool.{Bool, not}
use spike_online.Base.Tests.{◌==◌, leb}

-- `(uintW_t)n`
abbrev pub wrap : ℕ → ℕ → ℕ
wrap w n = n % 2 ^ w

abbrev pub u8 : ℕ → ℕ
u8 n = n % 2 ^ 8

abbrev pub u32 : ℕ → ℕ
u32 n = n % 2 ^ 32

abbrev pub u64 : ℕ → ℕ
u64 n = n % 2 ^ 64

infixl 75 ◌<<<◌ ◌>>>◌
abbrev pub ◌<<<◌ : ℕ → ℕ → ℕ
x <<< k = x * 2 ^ k

abbrev pub ◌>>>◌ : ℕ → ℕ → ℕ
x >>> k = x / 2 ^ k

-- `~x` of a w-bit value.
abbrev pub flip : ℕ → ℕ → ℕ
flip w x = 2 ^ w - 1 - x

-- `-x` of a w-bit value.
abbrev pub neg : ℕ → ℕ → ℕ
neg w x = (2 ^ w - x) % 2 ^ w

-- `x - y` of w-bit values.
abbrev pub sub : ℕ → ℕ → ℕ → ℕ
sub w x y = (x + 2 ^ w - y) % 2 ^ w

-- `x < 0` of the signed reading of a w-bit value.
abbrev pub is_neg : ℕ → ℕ → Bool
is_neg w x = leb (2 ^ (w - 1)) x

-- `x & mask` as a condition.
abbrev pub any_bit : ℕ → ℕ → Bool
any_bit x mask = not (bit_and x mask == 0)
