-- ===== src/Devices/Endian.antt =====
-- `read_little_endian_reg` and `write_little_endian_reg` of riscv/devices.h, for a register of
-- `size` bytes: byte i of an access is byte `(addr + i) % size` of the register.
use spike_online.Base.{
  ℕ, zero, suc, ◌+◌, ◌*◌, ◌%◌, bit_and, bit_or, List, [], ◌∷◌, flip, ◌<<<◌, ◌>>>◌, u8,
}

unfoldable pub read_little_endian_reg : ℕ → ℕ → ℕ → ℕ → List ℕ
read_little_endian_reg size word addr zero = []
read_little_endian_reg size word addr (suc len) =
    u8 (word >>> (8 * (addr % size))) ∷ read_little_endian_reg size word (addr + 1) len

unfoldable pub write_little_endian_reg : ℕ → ℕ → ℕ → List ℕ → ℕ
write_little_endian_reg size word addr [] = word
write_little_endian_reg size word addr (byte ∷ bytes) =
    let shift = 8 * (addr % size) in
    write_little_endian_reg size
      (bit_or (bit_and word (flip (8 * size) (0xff <<< shift))) (byte <<< shift)) (addr + 1) bytes
