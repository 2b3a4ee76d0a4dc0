-- ===== src/Walk/Bounds.antt =====
-- Where the page walks of riscv/mmu.cc read: within one table.
use spike_online.Walk.{
  Hart, VmInfo, Physical, pgshift, bare, sv_table, satp32_mode, satp32_ppn, satp64_mode, satp64_ppn,
  decode_vm_info, decode_sv32, decode_sv64,
}
use spike_online.Walk.Guest.{Request, guest_idx}
use spike_online.Walk.Host.{AccessInfo, walk_idx}
use spike_online.Decode.Field.{get_field}
use spike_online.Base.{
  ℕ, ◌+◌, ◌-◌, ◌*◌, ◌^◌, ◌≤◌, ◌<◌, ◌≡◌, arith, bit_and, bit_and_mask, times-le, Bool, not, ◌&&◌,
  Option, none, some, if◌then◌else◌, leb, ◌==◌, ◌>>>◌, if_both, Bool-cases, inl, inr, true, false,
  suc,
}
use native.Mathlib.Nat.{mod-lt, one-le-pow}

-- A table of a translation scheme has the size of a page; the root of the second stage has up to four.
pub record IsPaged (vm : VmInfo) : Type 0 where
  pub table_size : 2 ^ vm.idxbits * vm.ptesize ≤ 4096
  pub root_size : 2 ^ (vm.idxbits + vm.widenbits) * vm.ptesize ≤ 4 * 4096

abbrev IsPagedOption : Option VmInfo → Type 0
IsPagedOption none = 0 ≤ 0
IsPagedOption (some vm) = IsPaged vm

bare-IsPaged : IsPaged bare
bare-IsPaged = record { table_size = omega arith; root_size = omega arith }

sv32-IsPaged :
    (guest : Bool) (satp : ℕ) → IsPaged (sv_table 2 10 (if guest then 2 else 0) 4 satp satp32_ppn)
sv32-IsPaged true satp = record { table_size = omega arith; root_size = omega arith }
sv32-IsPaged false satp = record { table_size = omega arith; root_size = omega arith }

sv64-IsPaged :
    (guest : Bool) (levels satp : ℕ)
    → IsPaged (sv_table levels 9 (if guest then 2 else 0) 8 satp satp64_ppn)
sv64-IsPaged true levels satp = record { table_size = omega arith; root_size = omega arith }
sv64-IsPaged false levels satp = record { table_size = omega arith; root_size = omega arith }

decode_sv32-IsPaged :
    (guest : Bool) (mode satp : ℕ) → IsPagedOption (decode_sv32 mode (if guest then 2 else 0) satp)
unfolding decode_sv32
decode_sv32-IsPaged guest mode satp =
    if_both IsPagedOption (mode == 0) bare-IsPaged
      (if_both IsPagedOption (mode == 1) (sv32-IsPaged guest satp) (omega arith))

decode_sv64-IsPaged : (guest : Bool) (mode satp : ℕ) → IsPagedOption (decode_sv64 mode guest satp)
unfolding decode_sv64
decode_sv64-IsPaged guest mode satp = if_both IsPagedOption (mode == 0) bare-IsPaged (
    if_both IsPagedOption (mode == 8) (sv64-IsPaged guest 3 satp) (
      if_both IsPagedOption (mode == 9) (sv64-IsPaged guest 4 satp) (
        if_both IsPagedOption (mode == 10) (sv64-IsPaged guest 5 satp) (
          if_both IsPagedOption (mode == 11 && not guest) (sv64-IsPaged guest 6 satp)
            (omega arith)))))

decode_vm_info-IsPaged :
    (xlen : ℕ) (stage2 : Bool) (prv satp : ℕ) → IsPagedOption (decode_vm_info xlen stage2 prv satp)
unfolding decode_vm_info
decode_vm_info-IsPaged xlen stage2 prv satp = if_both IsPagedOption (prv == 3) bare-IsPaged (
    if_both IsPagedOption (not stage2 && leb prv 1 && xlen == 32)
      (decode_sv32-IsPaged false (get_field satp satp32_mode) satp)
      (if_both IsPagedOption (not stage2 && leb prv 1 && xlen == 64)
        (decode_sv64-IsPaged false (get_field satp satp64_mode) satp)
        (if_both IsPagedOption (stage2 && xlen == 32)
          (decode_sv32-IsPaged true (get_field satp satp32_mode) satp)
          (if_both IsPagedOption (stage2 && xlen == 64)
            (decode_sv64-IsPaged true (get_field satp satp64_mode) satp) (omega arith)))))

masked-lt : (x k : ℕ) → bit_and x (2 ^ k - 1) < 2 ^ k
masked-lt x k = rw (bit_and_mask x k) (mod-lt x (one-le-pow k 2 (omega arith)))

entry_fits : (idx k size limit : ℕ) → idx < 2 ^ k → 2 ^ k * size ≤ limit → idx * size + size ≤ limit
entry_fits idx k size limit h l =
    let next : idx * size + size ≡ suc idx * size = grind arith in
    omega (arith, next, times-le (suc idx) (2 ^ k) size h, l)

module _ {ℓ} {M : Type ℓ} (phys : Physical M) (hart : Hart) where
  -- Every entry that the first stage reads lies within a page from the table's base, and every entry
  -- that the second stage reads within four pages of it, and within one below the root.
  pub entries_in_table :
      (a : AccessInfo) (r : Request) (vm : VmInfo) (i xlen prv satp : ℕ) (stage2 : Bool)
      → decode_vm_info xlen stage2 prv satp ≡ some vm
      → (walk_idx phys hart a vm i * vm.ptesize + vm.ptesize ≤ 4096)
        × (guest_idx phys hart r vm i * vm.ptesize + vm.ptesize
            ≤ (if i == vm.levels - 1 then 4 * 4096 else 4096))
  unfolding walk_idx guest_idx
  entries_in_table a r vm i xlen prv satp stage2 e =
      let paged : IsPagedOption (some vm) = rw e at (decode_vm_info-IsPaged xlen stage2 prv satp) in
      let shifted = λ (addr : ℕ). addr >>> (pgshift + i * vm.idxbits) in
      (
        entry_fits _ vm.idxbits vm.ptesize 4096 (masked-lt (shifted a.transformed_vaddr) vm.idxbits)
            paged.table_size,
        elim (Bool-cases (i == vm.levels - 1)) [
          | inl t ↦
              rw (t, guest_idx)
                (entry_fits _ (vm.idxbits + vm.widenbits) vm.ptesize (4 * 4096)
                  (masked-lt (shifted r.gpa) (vm.idxbits + vm.widenbits)) paged.root_size)
          | inr f ↦
              rw (f, guest_idx)
                (entry_fits _ vm.idxbits vm.ptesize 4096 (masked-lt (shifted r.gpa) vm.idxbits)
                  paged.table_size)
        ],
      )
