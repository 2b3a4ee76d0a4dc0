-- ===== src/Walk/Host.antt =====
-- `mmu_t::walk` and `mmu_t::translate` of riscv/mmu.cc: the first stage of address translation.
use spike_online.Walk.{
  Hart, VmInfo, Physical, Trap, Translated, Verdict, broken, table, leaf, fault, returned, thrown,
  aborted, access_fault, page_fault, pgshift, pte_v, pte_r, pte_w, pte_x, pte_u, pte_ppn,
  envcfg_adue, envcfg_pbmte, envcfg_sse, mstatus_mxr, mstatus_sum, decode_vm_info, check_format,
  needed_ad, page_base, pte_load, pte_store,
}
use spike_online.Walk.Guest.{Request, s2xlate, or_verdict}
use spike_online.Pmp.{AccessType, load, store, fetch, is_load, is_store, is_fetch}
use spike_online.Base.{
  ℕ, zero, suc, ◌+◌, ◌-◌, ◌*◌, ◌^◌, bit_and, bit_or, flip, ◌<<<◌, ◌>>>◌, u64, sub, any_bit, Bool,
  true, false, not, ◌&&◌, ◌||◌, Option, none, some, if◌then◌else◌, ◌==◌,
}

-- What `walk` uses of a `mem_access_info_t`.
pub record AccessInfo : Type 0 where
  pub transformed_vaddr : ℕ
  pub effective_priv : ℕ
  pub effective_virt : Bool
  pub hlvx : Bool
  pub ss_access : Bool
  pub type : AccessType

-- The type of the access inside `walk`: a shadow stack access is a store.
abbrev pub walk_type : AccessInfo → AccessType
walk_type a = if a.ss_access then store else a.type

-- `henvcfg` or `menvcfg`, as the access is virtual or not.
abbrev pub envcfg : Hart → AccessInfo → ℕ
envcfg hart a = if a.effective_virt then hart.henvcfg else hart.menvcfg

abbrev pub sse : Hart → AccessInfo → Bool
sse hart a = any_bit (envcfg hart a) envcfg_sse

abbrev pub s_mode : AccessInfo → Bool
s_mode a = a.effective_priv == 1

abbrev pub sum : Hart → AccessInfo → Bool
sum hart a = any_bit (hart.sstatus a.effective_virt) mstatus_sum

abbrev pub mxr : Hart → AccessInfo → Bool
mxr hart a = any_bit (bit_or (hart.sstatus false) (hart.sstatus a.effective_virt)) mstatus_mxr

unfoldable pub ss_page : ℕ → Bool
ss_page pte = not (any_bit pte pte_r) && any_bit pte pte_w && not (any_bit pte pte_x)

-- The conditions that end the walk, in the order in which it tests them.
unfoldable pub wrong_mode : Hart → AccessInfo → ℕ → Bool
wrong_mode hart a pte =
    if any_bit pte pte_u
    then s_mode a && (is_fetch (walk_type a) || not (sum hart a))
    else not (s_mode a)

unfoldable pub invalid : Hart → AccessInfo → ℕ → Bool
invalid hart a pte =
    not (any_bit pte pte_v)
    || not (any_bit pte pte_r)
      && any_bit pte pte_w
      && (not (sse hart a) && not (any_bit pte pte_x) || any_bit pte pte_x)

unfoldable pub denied : Hart → AccessInfo → ℕ → Bool
denied hart a pte =
    if is_fetch (walk_type a) || a.hlvx
    then not (any_bit pte pte_x)
    else if is_load (walk_type a)
    then not (sse hart a && ss_page pte)
      && not (any_bit pte pte_r)
      && not (mxr hart a && any_bit pte pte_x)
    else not (any_bit pte pte_w)

abbrev pub own_fault : AccessInfo → AccessType → Trap
own_fault a type = access_fault type a.effective_virt a.transformed_vaddr

unfoldable pub permission : Hart → AccessInfo → ℕ → ℕ → Verdict
permission hart a pte ptshift =
    if wrong_mode hart a pte
    then broken
    else if invalid hart a pte
    then broken
    else if ss_page pte && (is_store (walk_type a) && not a.ss_access)
    then fault (own_fault a store)
    else if ss_page pte && is_fetch (walk_type a)
    then fault (own_fault a fetch)
    else if (any_bit pte pte_r && any_bit pte pte_w || any_bit pte pte_x) && a.ss_access
    then fault (own_fault a store)
    else if denied hart a pte
    then broken
    else if not (bit_and (pte_ppn pte) (2 ^ ptshift - 1) == 0)
    then broken
    else leaf

unfoldable pub check : Hart → AccessInfo → ℕ → ℕ → Verdict
check hart a pte ptshift =
    or_verdict (check_format hart (any_bit (envcfg hart a) envcfg_pbmte) pte)
      (permission hart a pte ptshift)

-- The second stage for the entry's address and for the page's.
abbrev pub entry_request : AccessInfo → ℕ → AccessType → Request
entry_request a gpa type = record {
  gva = a.transformed_vaddr;
  gpa = gpa;
  type = type;
  trap_type = walk_type a;
  virt = a.effective_virt;
  hlvx = false;
  is_for_vs_pt_addr = true;
}

abbrev pub page_request : AccessInfo → ℕ → Request
page_request a gpa = record {
  gva = a.transformed_vaddr;
  gpa = gpa;
  type = walk_type a;
  trap_type = walk_type a;
  virt = a.effective_virt;
  hlvx = a.hlvx;
  is_for_vs_pt_addr = false;
}

-- `& ~page_mask` of a returned address.
abbrev pub to_page : Translated → Translated
to_page (returned paddr) = returned (bit_and paddr (flip 64 (2 ^ pgshift - 1)))
to_page (thrown trap) = thrown trap
to_page aborted = aborted

module _ {ℓ} {M : Type ℓ} (phys : Physical M) (hart : Hart) (a : AccessInfo) where
  abbrev pub second_stage : M × Translated → M × Translated
  second_stage (m, t) = (m, to_page t)

  abbrev pub leaf_found : M × Translated → M × Option Translated
  leaf_found (m, t) = (m, some t)

  abbrev pub leaf_page : M → Option ℕ → M × Option Translated
  leaf_page m none = (m, none)
  leaf_page m (some base) = leaf_found (
      second_stage (
        s2xlate phys hart m
          (page_request a (bit_or base (bit_and a.transformed_vaddr (2 ^ pgshift - 1))))))

  -- The result of a turn of the loop is none where it breaks.
  module _ (vm : VmInfo) where
    abbrev pub updated : ℕ → ℕ → M × Bool → M × Option Translated
    updated i pte (m, false) = (m, some (thrown (own_fault a (walk_type a))))
    updated i pte (m, true) = leaf_page m (page_base pte a.transformed_vaddr i (i * vm.idxbits))

    -- The entry is stored once the second stage allows the store; what that translates to is not used.
    abbrev pub may_update : ℕ → ℕ → ℕ → M × Translated → M × Option Translated
    may_update i pte_paddr pte (m, returned paddr) =
        updated i pte (pte_store phys m pte_paddr (bit_or pte (needed_ad (walk_type a))) vm.ptesize)
    may_update i pte_paddr pte (m, thrown trap) = (m, some (thrown trap))
    may_update i pte_paddr pte (m, aborted) = (m, some aborted)

    unfoldable pub at_leaf : ℕ → ℕ → ℕ → ℕ → M → M × Option Translated
    at_leaf i pte_gpa pte_paddr pte m =
        let ad = needed_ad (walk_type a) in
        if not (bit_and pte ad == ad)
        then (if any_bit (envcfg hart a) envcfg_adue
            then may_update i pte_paddr pte (s2xlate phys hart m (entry_request a pte_gpa store))
            else (m, none))
        else updated i pte (m, true)

    abbrev pub judged :
        ℕ → ℕ → ℕ → ℕ → M → (M → ℕ → M × Option Translated) → Verdict → M × Option Translated
    judged i pte_gpa pte_paddr pte m rest broken = (m, none)
    judged i pte_gpa pte_paddr pte m rest table = rest m (u64 (pte_ppn pte <<< pgshift))
    judged i pte_gpa pte_paddr pte m rest leaf = at_leaf i pte_gpa pte_paddr pte m
    judged i pte_gpa pte_paddr pte m rest (fault trap) = (m, some (thrown trap))

    abbrev pub loaded :
        ℕ → ℕ → ℕ → (M → ℕ → M × Option Translated) → M × Option ℕ → M × Option Translated
    loaded i pte_gpa pte_paddr rest (m, none) = (m, some (thrown (own_fault a (walk_type a))))
    loaded i pte_gpa pte_paddr rest (m, some pte) =
        judged i pte_gpa pte_paddr pte m rest (check hart a pte (i * vm.idxbits))

    abbrev pub located :
        ℕ → ℕ → (M → ℕ → M × Option Translated) → M × Translated → M × Option Translated
    located i pte_gpa rest (m, returned pte_paddr) =
        loaded i pte_gpa pte_paddr rest (pte_load phys m pte_paddr vm.ptesize)
    located i pte_gpa rest (m, thrown trap) = (m, some (thrown trap))
    located i pte_gpa rest (m, aborted) = (m, some aborted)

    unfoldable pub walk_idx : ℕ → ℕ
    walk_idx i = bit_and (a.transformed_vaddr >>> (pgshift + i * vm.idxbits)) (2 ^ vm.idxbits - 1)

    -- The loop, from level `n - 1` down to 0.
    unfoldable pub walk_loop : ℕ → M → ℕ → M × Option Translated
    walk_loop zero m base = (m, none)
    walk_loop (suc i) m base =
        let pte_gpa = u64 (base + walk_idx i * vm.ptesize) in
        located i pte_gpa (walk_loop i) (s2xlate phys hart m (entry_request a pte_gpa load))

    -- Whether the bits above the virtual address are all equal. At 66 bits of address (Sv64) the source
    -- shifts by a negative amount, which it leaves undefined; here the mask is 0 then.
    unfoldable pub is_canonical : Bool
    is_canonical =
        let va_bits = pgshift + vm.levels * vm.idxbits in
        let mask = 2 ^ (hart.xlen - (va_bits - 1)) - 1 in
        let masked_msbs = bit_and (a.transformed_vaddr >>> (va_bits - 1)) mask in
        masked_msbs == 0 || masked_msbs == mask

    -- After the loop: the page fault of the access where it broke.
    abbrev pub walk_done : M × Option Translated → M × Translated
    walk_done (m, none) =
        (m, thrown (page_fault (walk_type a) a.effective_virt a.transformed_vaddr))
    walk_done (m, some t) = (m, t)

  abbrev pub walk_decoded : M → Option VmInfo → M × Translated
  walk_decoded m none = (m, aborted)
  walk_decoded m (some vm) =
      if vm.levels == 0
      then (if a.ss_access
          then (m, thrown (own_fault a store))
          else second_stage (
              s2xlate phys hart m (
                page_request a
                  (bit_and a.transformed_vaddr (sub 64 (u64 (2 <<< (hart.xlen - 1))) 1)))))
      else walk_done vm (walk_loop vm (if is_canonical vm then vm.levels else 0) m vm.ptbase)

  unfoldable pub walk : M → M × Translated
  walk m =
      walk_decoded m
        (decode_vm_info hart.const_xlen false a.effective_priv (hart.satp a.effective_virt))

  -- `translate`, with the protection check of the access itself (`pmp_ok` at its address).
  abbrev pub translated : (ℕ → Bool) → M × Translated → M × Translated
  translated allowed (m, returned page) =
      let paddr = bit_or page (bit_and a.transformed_vaddr (2 ^ pgshift - 1)) in
      if not (allowed paddr) then (m, thrown (own_fault a a.type)) else (m, returned paddr)
  translated allowed (m, thrown trap) = (m, thrown trap)
  translated allowed (m, aborted) = (m, aborted)

  unfoldable pub translate : M → (ℕ → Bool) → M × Translated
  translate m allowed = translated allowed (walk m)
