-- ===== src/Devices/Mip.antt =====
-- `mip_csr_t::backdoor_write_with_mask` of riscv/csrs.cc, by which devices drive the pending interrupts.
use spike_online.Base.{
  ℕ, ◌≡◌, ◌<◌, ◌^◌, arith, bit, bit-bit_or, bit-bit_and, bit_not, bit-lt, bit_and, bit_or, flip,
  if◌then◌else◌, ◌==◌,
}

-- On the value of the register.
unfoldable pub backdoor_write_with_mask : ℕ → ℕ → ℕ → ℕ
backdoor_write_with_mask old mask val = bit_or (bit_and old (flip 64 mask)) (bit_and val mask)

-- Writing under a mask replaces the bits of the mask.
pub bit-backdoor :
    (old mask val i : ℕ)
    → mask < 2 ^ 64
    → i < 64
    → bit (backdoor_write_with_mask old mask val) i
      ≡ (if bit mask i == 1 then bit val i else bit old i)
unfolding backdoor_write_with_mask
bit-backdoor old mask val i h l =
    rw (bit-bit_or, bit-bit_and, bit-bit_and, bit_not 64 mask i h)
      (ground (arith, bit-lt old i, bit-lt mask i, bit-lt val i, l))
