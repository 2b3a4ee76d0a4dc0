-- ===== src/Walk.antt =====
-- Page tables of riscv/mmu.cc: what `s2xlate` and `walk` have in common.
pub mod Guest
pub mod Host
pub mod Permission
pub mod Permits
pub mod Throws
pub mod Faults
pub mod Induction
pub mod Bounds
mod Tests
use spike_online.Arith.Count.{ctz}
use spike_online.Decode.Field.{get_field}
use spike_online.Pmp.{AccessType, load, store, fetch}
use spike_online.Base.{
  ℕ, suc, ◌+◌, ◌-◌, ◌*◌, ◌/◌, ◌%◌, ◌^◌, bit_and, bit_or, flip, ◌<<<◌, ◌>>>◌, u64, any_bit, Bool,
  true, false, not, ◌&&◌, ◌||◌, Option, none, some, if◌then◌else◌, leb, ◌==◌,
}

abbrev pub pgshift : ℕ
pgshift = 12

abbrev pub pte_v : ℕ
pte_v = 0x001

abbrev pub pte_r : ℕ
pte_r = 0x002

abbrev pub pte_w : ℕ
pte_w = 0x004

abbrev pub pte_x : ℕ
pte_x = 0x008

abbrev pub pte_u : ℕ
pte_u = 0x010

abbrev pub pte_a : ℕ
pte_a = 0x040

abbrev pub pte_d : ℕ
pte_d = 0x080

abbrev pub pte_rsvd : ℕ
pte_rsvd = 0x1FC0000000000000

abbrev pub pte_pbmt : ℕ
pte_pbmt = 0x6000000000000000

abbrev pub pte_n : ℕ
pte_n = 0x8000000000000000

abbrev pub pte_attr : ℕ
pte_attr = 0xFFC0000000000000

-- `PTE_TABLE`
pub pte_table : ℕ → Bool
pte_table pte = bit_and pte (bit_or (bit_or pte_v pte_r) (bit_or pte_w pte_x)) == pte_v

-- `PTE_D | PTE_A | PTE_U | PTE_N | PTE_PBMT`, which are not for a pointer to the next level.
abbrev pub pte_leaf_only : ℕ
pte_leaf_only = bit_or (bit_or (bit_or pte_d pte_a) (bit_or pte_u pte_n)) pte_pbmt

pub pte_ppn : ℕ → ℕ
pte_ppn pte = bit_and pte (flip 64 pte_attr) >>> 10

-- `vm_info` of riscv/mmu.h.
pub record VmInfo : Type 0 where
  pub levels : ℕ
  pub idxbits : ℕ
  pub widenbits : ℕ
  pub ptesize : ℕ
  pub ptbase : ℕ

abbrev pub bare : VmInfo
bare = record { levels = 0; idxbits = 0; widenbits = 0; ptesize = 0; ptbase = 0 }

abbrev pub satp32_mode : ℕ
satp32_mode = 0x80000000

abbrev pub satp32_ppn : ℕ
satp32_ppn = 0x003FFFFF

abbrev pub satp64_mode : ℕ
satp64_mode = 0xF000000000000000

abbrev pub satp64_ppn : ℕ
satp64_ppn = 0x00000FFFFFFFFFFF

abbrev pub sv_table : ℕ → ℕ → ℕ → ℕ → ℕ → ℕ → VmInfo
sv_table levels idxbits widenbits ptesize satp mask = record {
  levels = levels;
  idxbits = idxbits;
  widenbits = widenbits;
  ptesize = ptesize;
  ptbase = u64 (bit_and satp mask <<< pgshift);
}

-- The four cases of `decode_vm_info`, by the mode; the masks of `hgatp` are those of `satp`.
pub decode_sv32 : ℕ → ℕ → ℕ → Option VmInfo
decode_sv32 mode widen satp =
    if mode == 0
    then some bare
    else if mode == 1
    then some (sv_table 2 10 widen 4 satp satp32_ppn)
    else none

pub decode_sv64 : ℕ → Bool → ℕ → Option VmInfo
decode_sv64 mode stage2 satp =
    let widen = if stage2 then 2 else 0 in
    if mode == 0
    then some bare
    else if mode == 8
    then some (sv_table 3 9 widen 8 satp satp64_ppn)
    else if mode == 9
    then some (sv_table 4 9 widen 8 satp satp64_ppn)
    else if mode == 10
    then some (sv_table 5 9 widen 8 satp satp64_ppn)
    else if mode == 11 && not stage2
    then some (sv_table 6 9 widen 8 satp satp64_ppn)
    else none

-- `decode_vm_info`, none where it aborts.
pub decode_vm_info : ℕ → Bool → ℕ → ℕ → Option VmInfo
decode_vm_info xlen stage2 prv satp =
    if prv == 3
    then some bare
    else if not stage2 && leb prv 1 && xlen == 32
    then decode_sv32 (get_field satp satp32_mode) 0 satp
    else if not stage2 && leb prv 1 && xlen == 64
    then decode_sv64 (get_field satp satp64_mode) false satp
    else if stage2 && xlen == 32
    then decode_sv32 (get_field satp satp32_mode) 2 satp
    else if stage2 && xlen == 64
    then decode_sv64 (get_field satp satp64_mode) true satp
    else none

-- What the walk reads of the hart; `satp` and `sstatus` by the flag of `readvirt`.
pub record Hart : Type 0 where
  pub xlen : ℕ
  pub const_xlen : ℕ
  pub svnapot : Bool
  pub satp : Bool → ℕ
  pub hgatp : ℕ
  pub sstatus : Bool → ℕ
  pub menvcfg : ℕ
  pub henvcfg : ℕ

abbrev pub mstatus_sum : ℕ
mstatus_sum = 0x00040000

abbrev pub mstatus_mxr : ℕ
mstatus_mxr = 0x00080000

-- The bits of `menvcfg` and of `henvcfg`.
abbrev pub envcfg_sse : ℕ
envcfg_sse = 0x8

abbrev pub envcfg_adue : ℕ
envcfg_adue = 0x2000000000000000

abbrev pub envcfg_pbmte : ℕ
envcfg_pbmte = 0x4000000000000000

-- The exceptions, with the access that they name: `access_fault`, `page_fault` and
-- `guest_page_fault` stand for the three classes each, for instructions, loads and stores.
pub data Trap : Type 0 where
  access_fault : (trap_type : AccessType) (virt : Bool) (tval : ℕ) → Trap
  page_fault : (trap_type : AccessType) (virt : Bool) (tval : ℕ) → Trap
  guest_page_fault : (trap_type : AccessType) (gva : ℕ) (tval2 : ℕ) (tinst : ℕ) → Trap

pub data Translated : Type 0 where
  returned : (paddr : ℕ) → Translated
  thrown : (trap : Trap) → Translated
  aborted : Translated

-- How the chain of conditions on an entry ends: it breaks the loop, points to the next level, is a
-- leaf, or throws.
pub data Verdict : Type 0 where
  broken : Verdict
  table : Verdict
  leaf : Verdict
  fault : (trap : Trap) → Verdict

-- The conditions that both stages start with; none where they decide nothing.
pub check_format : Hart → Bool → ℕ → Option Verdict
check_format hart pbmte pte =
    if any_bit pte pte_rsvd
    then some broken
    else if not hart.svnapot && any_bit pte pte_n
    then some broken
    else if not pbmte && any_bit pte pte_pbmt
    then some broken
    else if bit_and pte pte_pbmt == pte_pbmt
    then some broken
    else if pte_table pte
    then (if any_bit pte pte_leaf_only then some broken else some table)
    else none

-- The accessed and dirty bits that an access needs.
abbrev pub needed_ad : AccessType → ℕ
needed_ad store = bit_or pte_a pte_d
needed_ad load = pte_a
needed_ad fetch = pte_a

-- `page_base` of a leaf at level `i`; none where its size is wrong.
pub page_base : ℕ → ℕ → ℕ → ℕ → Option ℕ
page_base pte addr i ptshift =
    let ppn = pte_ppn pte in
    let vpn = addr >>> pgshift in
    let napot_bits = if any_bit pte pte_n then ctz ppn + 1 else 0 in
    if any_bit pte pte_n && (ppn == 0 || not (i == 0))
      || not (napot_bits == 0) && not (napot_bits == 4)
    then none
    else some (
        u64 (
          bit_or
            (bit_or (bit_and ppn (flip 64 (2 ^ napot_bits - 1))) (bit_and vpn (2 ^ napot_bits - 1)))
            (bit_and vpn (2 ^ ptshift - 1))
          <<< pgshift))

-- `mmu_t::pte_load` and `mmu_t::pte_store` (riscv/mmu.h) over the memory that they reach: the
-- protection check at supervisor level, and a read or a write of `ptesize` bytes of the host's memory
-- or a device, which may be refused. None and false are where they throw an access fault.
pub record Physical {ℓ} (M : Type ℓ) : Type ℓ where
  pub pmp_ok : M → ℕ → ℕ → AccessType → Bool
  pub read : M → ℕ → ℕ → M × Option ℕ
  pub write : M → ℕ → ℕ → ℕ → M × Bool

module _ {ℓ} {M : Type ℓ} (phys : Physical M) where
  pub pte_load : M → ℕ → ℕ → M × Option ℕ
  pte_load m pte_paddr ptesize =
      if not (phys.pmp_ok m pte_paddr ptesize load)
      then (m, none)
      else phys.read m pte_paddr ptesize

  pub pte_store : M → ℕ → ℕ → ℕ → M × Bool
  pte_store m pte_paddr new_pte ptesize =
      if not (phys.pmp_ok m pte_paddr ptesize store)
      then (m, false)
      else phys.write m pte_paddr new_pte ptesize
