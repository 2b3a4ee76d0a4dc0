-- ===== src/Plic/Access.antt =====
-- `plic_t::load` and `plic_t::store`: the memory map of riscv/plic.cc.
use spike_online.Plic.{Plic}
use spike_online.Plic.Registers.{
  priority_read, priority_write, pending_read, context_enable_read, context_enable_write,
  context_read, context_write,
}
use spike_online.Devices.Endian.{read_little_endian_reg, write_little_endian_reg}
use spike_online.Base.{
  ℕ, ◌+◌, ◌-◌, ◌*◌, ◌/◌, Bool, true, false, List, [], ◌++◌, get_elem?, none, some, if◌then◌else◌,
  ltb, ◌==◌, u32, u64, take, drop,
}

-- What a load leaves behind: the state, whether it succeeded, and the bytes that it wrote.
pub record Loaded : Type 0 where
  pub plic : Plic
  pub ret : Bool
  pub bytes : List ℕ

-- A load of four bytes, before the bytes are written out: the state, the flag and the word.
pub load_word : Plic → ℕ → Plic × Bool × ℕ
load_word p addr =
    let enable_cntx = u32 ((addr - 0x2000) / 0x80) in
    let claim_cntx = u32 ((addr - 0x200000) / 0x1000) in
    if ltb addr 0x1000
    then (p, true, priority_read p addr)
    else if ltb addr 0x2000
    then (p, true, pending_read p (addr - 0x1000))
    else if ltb addr 0x200000
    then elim (get_elem? p.contexts enable_cntx) [
      | none ↦ (p, false, 0)
      | some c ↦ (p, true, context_enable_read p c (addr - (enable_cntx * 0x80 + 0x2000)))
    ]
    else if ltb addr 0x1000000
    then elim (get_elem? p.contexts claim_cntx) [
      | none ↦ (p, false, 0)
      | some c ↦
          let (p', val) = context_read p claim_cntx c (addr - (claim_cntx * 0x1000 + 0x200000)) in
          (p', true, val)
    ]
    else (p, false, 0)

pub load4 : Plic → ℕ → Loaded
load4 p addr =
    let (p', ret, val) = load_word p addr in
    record { plic = p'; ret = ret; bytes = read_little_endian_reg 4 val addr 4 }

-- A load of eight bytes is two of four, the second only if the first succeeds.
pub load : Plic → ℕ → ℕ → Loaded
load p addr len =
    let low = load4 p addr in
    let high = load4 low.plic (u64 (addr + 4)) in
    if len == 4
    then low
    else if len == 8
    then if low.ret
      then record { plic = high.plic; ret = high.ret; bytes = low.bytes ++ high.bytes }
      else low
    else record { plic = p; ret = false; bytes = [] }

pub store4 : Plic → ℕ → List ℕ → Plic × Bool
store4 p addr bytes =
    let val = write_little_endian_reg 4 0 addr bytes in
    let enable_cntx = u32 ((addr - 0x2000) / 0x80) in
    let claim_cntx = u32 ((addr - 0x200000) / 0x1000) in
    if ltb addr 0x2000
    then (priority_write p addr val, true)
    else if ltb addr 0x200000
    then elim (get_elem? p.contexts enable_cntx) [
      | none ↦ (p, false)
      | some c ↦
          (context_enable_write p enable_cntx c (addr - (enable_cntx * 0x80 + 0x2000)) val, true)
    ]
    else if ltb addr 0x1000000
    then elim (get_elem? p.contexts claim_cntx) [
      | none ↦ (p, false)
      | some c ↦ context_write p claim_cntx c (addr - (claim_cntx * 0x1000 + 0x200000)) val
    ]
    else (p, false)

-- `bytes` holds `len` bytes.
pub store : Plic → ℕ → ℕ → List ℕ → Plic × Bool
store p addr len bytes =
    let (p', low) = store4 p addr (take 4 bytes) in
    let high = store4 p' (u64 (addr + 4)) (drop 4 bytes) in
    if len == 4
    then (p', low)
    else if len == 8
    then if low then high else (p', false)
    else (p, false)
