-- ===== src/Decode/RegFile.antt =====
-- `regfile_t` of riscv/decode.h: N registers of a type, with or without a register 0 that is
-- always 0.
use spike_online.Base.{
  ℕ, ◌<◌, ◌≡◌, arith, Bool, not, ◌&&◌, ◌||◌, List, if◌then◌else◌, ◌==◌, length, get_or, set,
  replicate, get_or-set_self, get_or-set_ne,
}

-- `memset(data, 0, sizeof(data))`
pub reset {ℓ} : {A : Type ℓ} → ℕ → A → List A
reset n zero_value = replicate n zero_value

pub write {ℓ} : {A : Type ℓ} → Bool → List A → ℕ → A → List A
write zero_reg regs i value = if not zero_reg || not (i == 0) then set regs i value else regs

-- `operator []`; an index out of range, which C++ leaves undefined, reads 0.
pub read {ℓ} : {A : Type ℓ} → A → List A → ℕ → A
read zero_value regs i = get_or regs i zero_value

-- A write to a register of the file is read back, except at register 0 of a file that keeps it at
-- 0; it changes no other register.
pub read-write :
    {A : Type 0} (zero_reg : Bool) (z v : A) (regs : List A) (i j : ℕ)
    → i < length regs
    → read z (write zero_reg regs i v) j
      ≡ (if i == j then if zero_reg && i == 0 then read z regs 0 else v else read z regs j)
unfolding read write
read-write zero_reg z v regs i j h =
    ground (arith, get_or-set_self regs i v z h, get_or-set_ne regs i j v z)
