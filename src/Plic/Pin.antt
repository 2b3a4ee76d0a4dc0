-- ===== src/Plic/Pin.antt =====
-- The interrupt pins of the harts, which `context_update` of riscv/plic.cc drives.
use spike_online.Plic.{Context, Plic, context_best_pending, context_update, at, mip_meip, mip_seip}
use spike_online.Devices.Mip.{backdoor_write_with_mask, bit-backdoor}
use spike_online.Base.{
  ℕ, ◌^◌, ◌<◌, ◌≡◌, ◌≢◌, arith, Bool, true, false, if◌then◌else◌, ◌==◌, length, get_or-set_self,
  get_or-set_ne, bit, bit-zero, bit-two_pow, refl, sym, Bool-cases, inl, inr,
}

-- The pending bit of a machine or a supervisor external interrupt.
abbrev pub pin : Context → ℕ
pin c = if c.mmode then 11 else 9

driven_bit :
    (old mask n k : ℕ) (off : Bool)
    → mask ≡ 2 ^ n
    → n < 64
    → mask < 2 ^ 64
    → k < 64
    → bit (backdoor_write_with_mask old mask (if off then 0 else mask)) k
      ≡ (if k == n then (if off then 0 else 1) else bit old k)
driven_bit old mask n k true e hn hm hk =
    rw (bit-backdoor old mask 0 k hm hk, e) (ground (arith, bit-two_pow n k, bit-zero k))
driven_bit old mask n k false e hn hm hk =
    rw (bit-backdoor old mask mask k hm hk, e) (ground (arith, bit-two_pow n k))

-- An update sets the external interrupt of the context's hart and level pending if the context has a
-- source to deliver, and clears it if not; it changes no other bit of that hart's register, and no
-- other hart's. The hart exists.
pub context_update-pin :
    (p : Plic) (c : Context) (k : ℕ)
    → c.proc < length p.mips
    → k < 64
    → (bit (at (context_update p c).mips c.proc) k ≡ (
        if k == pin c
        then (if context_best_pending p c == 0 then 0 else 1)
        else bit (at p.mips c.proc) k))
      × ((i : ℕ) → i ≢ c.proc → at (context_update p c).mips i ≡ at p.mips i)
unfolding context_update
context_update-pin p c k h hk =
    let old = at p.mips c.proc in
    let off = context_best_pending p c == 0 in
    let mask = if c.mmode then mip_meip else mip_seip in
    let power : mask ≡ 2 ^ pin c = elim (Bool-cases c.mmode) [
      | inl t ↦ rw t refl
      | inr f ↦ rw f refl
    ] in
    let small : pin c < 64 = ground arith in
    let fits : mask < 2 ^ 64 = ground arith in
    let new = backdoor_write_with_mask old mask (if off then 0 else mask) in
    (
      rw (get_or-set_self p.mips c.proc new 0 h)
          (driven_bit old mask (pin c) k off power small fits hk),
      λ i other. get_or-set_ne p.mips c.proc i new 0 (λ e. other (sym e)),
    )
