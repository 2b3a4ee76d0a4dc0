-- ===== src/Decode/Field.antt =====
-- The macros `get_field` and `set_field` of riscv/decode.h, on 64-bit registers.
use spike_online.Base.{ℕ, ◌*◌, ◌/◌, bit_and, bit_or, flip, u64, ◌<<<◌}

-- The lowest bit of a mask of contiguous bits.
pub low_bit : ℕ → ℕ
low_bit mask = bit_and mask (flip 64 (u64 (mask <<< 1)))

unfoldable pub get_field : ℕ → ℕ → ℕ
unfolding low_bit
get_field reg mask = bit_and reg mask / low_bit mask

unfoldable pub set_field : ℕ → ℕ → ℕ → ℕ
unfolding low_bit
set_field reg mask val =
    bit_or (bit_and reg (flip 64 mask)) (bit_and (u64 (val * low_bit mask)) mask)
