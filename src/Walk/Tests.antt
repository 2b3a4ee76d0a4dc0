-- ===== src/Walk/Tests.antt =====
-- Runs and instances for the page walks of riscv/mmu.cc: a three-level table with one page, and a guest.
use spike_online.Walk.{
  Hart, VmInfo, Physical, returned, thrown, access_fault, guest_page_fault, decode_vm_info,
  decode_sv32, satp32_ppn, decode_sv64, check_format, page_base, pte_load, pte_store, pte_table,
  pte_ppn, sv_table, satp64_ppn,
}
use spike_online.Walk.Guest.{
  Request, tinst, s2xlate, guest_walk, guest_loop, guest_leaf, guest_check, guest_permission,
  guest_denied, guest_idx,
}
use spike_online.Walk.Host.{
  AccessInfo, translate, walk, walk_idx, walk_loop, at_leaf, check, permission, wrong_mode, invalid,
  denied, ss_page, is_canonical,
}
use spike_online.Walk.Throws.{IsResult}
use spike_online.Walk.Permits.{IsPermitted, walk-IsPermitted, walk-IsResult}
use spike_online.Walk.Bounds.{entries_in_table}
use spike_online.Decode.Field.{get_field}
use spike_online.Pmp.{load, store, fetch}
use spike_online.Base.{
  ℕ, ◌+◌, ◌*◌, ◌^◌, ◌≤◌, ◌≡◌, refl, arith, true, false, some, if◌then◌else◌, ◌==◌,
}

abbrev memory : ℕ → ℕ
memory addr =
    if addr == 0x80000
    then 0x81 * 1024 + 1
    else if addr == 0x81000
    then 0x82 * 1024 + 1
    else if addr == 0x82008
    then 9 * 1024 + 0x43
    else 0

abbrev phys : Physical (ℕ → ℕ)
phys = record {
  pmp_ok = λ m addr len type. true;
  read = λ m addr size. (m, some (m addr));
  write = λ m addr pte size. ((λ a. if a == addr then pte else m a), true);
}

abbrev hart : Hart
hart = record {
  xlen = 64;
  const_xlen = 64;
  svnapot = false;
  satp = λ v. 8 * 2 ^ 60 + 0x80;
  hgatp = 8 * 2 ^ 60 + 0x80;
  sstatus = λ v. 0;
  menvcfg = 0;
  henvcfg = 0;
}

abbrev reading : AccessInfo
reading = record {
  transformed_vaddr = 0x1234;
  effective_priv = 1;
  effective_virt = false;
  hlvx = false;
  ss_access = false;
  type = load;
}

abbrev scheme : VmInfo
scheme = sv_table 3 9 0 8 (8 * 2 ^ 60 + 0x80) satp64_ppn

decoded : decode_vm_info 64 false 1 (8 * 2 ^ 60 + 0x80) ≡ some scheme
unfolding decode_vm_info decode_sv64 get_field
decoded = refl

reads : (walk phys hart reading memory).1 ≡ returned 0x9000
unfolding walk decode_vm_info decode_sv64 get_field walk_loop walk_idx is_canonical s2xlate pte_load
    check check_format permission at_leaf wrong_mode invalid denied ss_page page_base pte_table
    pte_ppn
reads = refl

translates : (translate phys hart reading memory (λ paddr. true)).1 ≡ returned 0x9234
unfolding translate walk decode_vm_info decode_sv64 get_field walk_loop walk_idx is_canonical
    s2xlate pte_load check check_format permission at_leaf wrong_mode invalid denied ss_page
    page_base pte_table pte_ppn
translates = refl

schemes :
    decode_vm_info 32 true 0 (0x80000000 + 5) ≡ some (sv_table 2 10 2 4 (0x80000000 + 5) satp32_ppn)
unfolding decode_vm_info decode_sv32 get_field
schemes = refl

walk-IsPermitted_example : IsPermitted phys hart reading scheme memory 0x9000
walk-IsPermitted_example =
    walk-IsPermitted phys hart reading memory scheme 0x9000 refl decoded (omega arith) reads

walk-IsResult_example : IsResult load false 0x1234 (walk phys hart reading memory).1
walk-IsResult_example = walk-IsResult phys hart reading memory

abbrev guest_fetch : Request
guest_fetch = record {
  gva = 0x1234;
  gpa = 0x1234;
  type = load;
  trap_type = fetch;
  virt = true;
  hlvx = false;
  is_for_vs_pt_addr = true;
}

entries_in_table_example :
    (walk_idx phys hart reading scheme 0 * 8 + 8 ≤ 4096)
    × (guest_idx phys hart guest_fetch scheme 0 * 8 + 8 ≤ 4096)
entries_in_table_example =
    entries_in_table phys hart reading guest_fetch scheme 0 64 1 (8 * 2 ^ 60 + 0x80) false decoded

-- A memory that refuses to store entries: the instruction fetch ends in a fault of a load.
abbrev read_only : Physical (ℕ → ℕ)
read_only = record phys { write = λ m addr pte size. (m, false) }

abbrev updating : Hart
updating = record hart { menvcfg = 0x2000000000000000 }

abbrev guest_memory : ℕ → ℕ
guest_memory addr = if addr == 0x82008 then 9 * 1024 + 0x13 else memory addr

refused_update :
    (s2xlate read_only updating guest_memory guest_fetch).1 ≡ thrown (access_fault load true 0x1234)
unfolding decode_vm_info decode_sv64 get_field s2xlate guest_walk guest_loop guest_leaf guest_check
    guest_permission guest_denied guest_idx pte_load pte_store check_format page_base pte_table
    pte_ppn
refused_update = refl

-- The page that is not there, for a store to a page table.
page_missing :
    (s2xlate phys hart guest_memory (record guest_fetch { type = store; gpa = 0x5000 })).1
    ≡ thrown (guest_page_fault fetch 0x1234 0x1400 0x3020)
unfolding decode_vm_info decode_sv64 get_field s2xlate guest_walk guest_loop guest_leaf guest_check
    guest_permission guest_denied guest_idx pte_load check_format page_base pte_table pte_ppn tinst
page_missing = refl
