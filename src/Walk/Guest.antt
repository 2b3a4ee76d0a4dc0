-- ===== src/Walk/Guest.antt =====
-- `mmu_t::s2xlate` of riscv/mmu.cc: the second stage of address translation.
use spike_online.Walk.{
  Hart, VmInfo, Physical, Translated, Verdict, broken, table, leaf, fault, returned, thrown,
  aborted, access_fault, guest_page_fault, pgshift, pte_v, pte_r, pte_w, pte_x, pte_u, pte_ppn,
  envcfg_adue, envcfg_pbmte, mstatus_mxr, decode_vm_info, check_format, needed_ad, page_base,
  pte_load, pte_store,
}
use spike_online.Pmp.{AccessType, is_load, is_store, is_fetch}
use spike_online.Base.{
  ℕ, zero, suc, ◌+◌, ◌-◌, ◌*◌, ◌^◌, bit_and, bit_or, flip, ◌<<<◌, ◌>>>◌, u64, any_bit, Bool, true,
  false, not, ◌&&◌, ◌||◌, Option, none, some, if◌then◌else◌, ◌==◌,
}

-- The arguments of `s2xlate`.
pub record Request : Type 0 where
  pub gva : ℕ
  pub gpa : ℕ
  pub type : AccessType
  pub trap_type : AccessType
  pub virt : Bool
  pub hlvx : Bool
  pub is_for_vs_pt_addr : Bool

unfoldable pub tinst : Hart → Request → ℕ
tinst hart r =
    bit_or
      (bit_or (if r.is_for_vs_pt_addr then 0x2000 else 0)
        (if hart.const_xlen == 64 && r.is_for_vs_pt_addr then 0x1000 else 0))
      (if is_store r.type && r.is_for_vs_pt_addr then 0x0020 else 0)

-- `mxr` of an access of this request.
abbrev pub guest_mxr : Hart → Request → Bool
guest_mxr hart r = not r.is_for_vs_pt_addr && any_bit (hart.sstatus false) mstatus_mxr

-- The condition on the permissions that ends the walk.
unfoldable pub guest_denied : Bool → AccessType → Bool → ℕ → Bool
guest_denied mxr type hlvx pte =
    if is_fetch type || hlvx
    then not (any_bit pte pte_x)
    else if is_load type
    then not (any_bit pte pte_r) && not (mxr && any_bit pte pte_x)
    else not (any_bit pte pte_r && any_bit pte pte_w)

unfoldable pub guest_permission : Hart → Request → ℕ → ℕ → Verdict
guest_permission hart r pte ptshift =
    if not (any_bit pte pte_v) || not (any_bit pte pte_r) && any_bit pte pte_w
    then broken
    else if not (any_bit pte pte_u)
    then broken
    else if guest_denied (guest_mxr hart r) r.type r.hlvx pte
    then broken
    else if not (bit_and (pte_ppn pte) (2 ^ ptshift - 1) == 0)
    then broken
    else leaf

abbrev pub or_verdict : Option Verdict → Verdict → Verdict
or_verdict none v = v
or_verdict (some early) v = early

unfoldable pub guest_check : Hart → Request → ℕ → ℕ → Verdict
guest_check hart r pte ptshift =
    or_verdict (check_format hart (any_bit hart.menvcfg envcfg_pbmte) pte)
      (guest_permission hart r pte ptshift)

abbrev pub guest_fault : Request → Translated
guest_fault r = thrown (access_fault r.trap_type r.virt r.gva)

-- The result of a turn of the loop is none where it breaks.
module _ {ℓ} {M : Type ℓ} (phys : Physical M) (hart : Hart) (r : Request) (vm : VmInfo) where
  abbrev pub guest_page : Option ℕ → Option Translated
  guest_page none = none
  guest_page (some base) = some (returned (bit_or base (bit_and r.gpa (2 ^ pgshift - 1))))

  -- A leaf whose bits are set, or were stored just now; false where the store is refused.
  abbrev pub guest_updated : ℕ → ℕ → M × Bool → M × Option Translated
  guest_updated i pte (m, false) = (m, some (thrown (access_fault r.type r.virt r.gva)))
  guest_updated i pte (m, true) = (m, guest_page (page_base pte r.gpa i (i * vm.idxbits)))

  unfoldable pub guest_leaf : ℕ → ℕ → ℕ → M → M × Option Translated
  guest_leaf i pte_paddr pte m =
      let ad = needed_ad r.type in
      if not (bit_and pte ad == ad)
      then (if any_bit hart.menvcfg envcfg_adue
          then guest_updated i pte (pte_store phys m pte_paddr (bit_or pte ad) vm.ptesize)
          else (m, none))
      else guest_updated i pte (m, true)

  abbrev pub guest_judged :
      ℕ → ℕ → ℕ → M → (M → ℕ → M × Option Translated) → Verdict → M × Option Translated
  guest_judged i pte_paddr pte m rest broken = (m, none)
  guest_judged i pte_paddr pte m rest table = rest m (u64 (pte_ppn pte <<< pgshift))
  guest_judged i pte_paddr pte m rest leaf = guest_leaf i pte_paddr pte m
  guest_judged i pte_paddr pte m rest (fault trap) = (m, some (thrown trap))

  abbrev pub guest_loaded :
      ℕ → ℕ → (M → ℕ → M × Option Translated) → M × Option ℕ → M × Option Translated
  guest_loaded i pte_paddr rest (m, none) = (m, some (guest_fault r))
  guest_loaded i pte_paddr rest (m, some pte) =
      guest_judged i pte_paddr pte m rest (guest_check hart r pte (i * vm.idxbits))

  -- The index into the table at level `i`; the root of the second stage is wider.
  unfoldable pub guest_idx : ℕ → ℕ
  guest_idx i =
      let idxbits = if i == vm.levels - 1 then vm.idxbits + vm.widenbits else vm.idxbits in
      bit_and (r.gpa >>> (pgshift + i * vm.idxbits)) (2 ^ idxbits - 1)

  -- The loop, from level `n - 1` down to 0.
  unfoldable pub guest_loop : ℕ → M → ℕ → M × Option Translated
  guest_loop zero m base = (m, none)
  guest_loop (suc i) m base =
      let pte_paddr = u64 (base + guest_idx i * vm.ptesize) in
      guest_loaded i pte_paddr (guest_loop i) (pte_load phys m pte_paddr vm.ptesize)

  -- After the loop: the page fault of the access where it broke.
  abbrev pub guest_done : M × Option Translated → M × Translated
  guest_done (m, none) =
      (m, thrown (guest_page_fault r.trap_type r.gva (r.gpa >>> 2) (tinst hart r)))
  guest_done (m, some t) = (m, t)

  unfoldable pub guest_walk : M → M × Translated
  guest_walk m =
      let maxgpa = 2 ^ (vm.levels * vm.idxbits + vm.widenbits + pgshift) - 1 in
      guest_done (
        if bit_and r.gpa (flip 64 maxgpa) == 0 then guest_loop vm.levels m vm.ptbase else (m, none))

module _ {ℓ} {M : Type ℓ} (phys : Physical M) (hart : Hart) where
  abbrev pub guest_decoded : Request → M → Option VmInfo → M × Translated
  guest_decoded r m none = (m, aborted)
  guest_decoded r m (some vm) =
      if vm.levels == 0 then (m, returned r.gpa) else guest_walk phys hart r vm m

  unfoldable pub s2xlate : M → Request → M × Translated
  s2xlate m r =
      if not r.virt
      then (m, returned r.gpa)
      else guest_decoded r m (decode_vm_info hart.const_xlen true 0 hart.hgatp)
