-- ===== src/Walk/Throws.antt =====
-- Which exceptions `s2xlate` of riscv/mmu.cc throws.
use mathlib.Core.Path.{subst}
use spike_online.Walk.{
  Hart, VmInfo, Physical, Trap, Translated, Verdict, broken, table, leaf, fault, returned, thrown,
  aborted, access_fault, page_fault, guest_page_fault, pgshift, pte_ppn, pte_v, pte_r, pte_w, pte_u,
  pte_n, pte_rsvd, pte_pbmt, pte_table, pte_leaf_only, envcfg_adue, envcfg_pbmte, decode_vm_info,
  check_format, needed_ad, page_base, pte_load, pte_store,
}
use spike_online.Walk.Guest.{
  Request, s2xlate, guest_walk, guest_loop, guest_leaf, guest_done, guest_loaded, guest_judged,
  guest_updated, guest_page, guest_check, guest_permission, guest_denied, guest_mxr, guest_idx,
  guest_decoded, or_verdict,
}
use spike_online.Pmp.{AccessType}
use spike_online.Base.{
  ℕ, zero, suc, ◌+◌, ◌-◌, ◌*◌, ◌^◌, ◌≤◌, ◌≡◌, ◌⊎◌, inl, inr, refl, sym, arith, bit_and, bit_or,
  flip, u64, any_bit, Bool, true, false, not, ◌&&◌, ◌||◌, Option, none, some, ◌==◌, if_both,
  if_cases,
}

-- A trap names the access that is translated: its type and its address. In a virtual machine an access
-- fault at an entry of the second stage names the access to the entry instead.
unfoldable pub IsOwn : AccessType → Bool → ℕ → Trap → Type 0
IsOwn type virt addr (access_fault t v x) = ((t ≡ type) ⊎ (v ≡ true)) × (v ≡ virt) × (x ≡ addr)
IsOwn type virt addr (page_fault t v x) = (t ≡ type) × (v ≡ virt) × (x ≡ addr)
IsOwn type virt addr (guest_page_fault t gva tval2 tinst) =
    (t ≡ type) × (virt ≡ true) × (gva ≡ addr)

-- A result is an address or such a trap.
unfoldable pub IsResult : AccessType → Bool → ℕ → Translated → Type 0
IsResult type virt addr (returned paddr) = 0 ≤ 0
IsResult type virt addr (thrown trap) = IsOwn type virt addr trap
IsResult type virt addr aborted = 0 ≤ 0

abbrev pub IsTurn : AccessType → Bool → ℕ → Option Translated → Type 0
IsTurn type virt addr none = 0 ≤ 0
IsTurn type virt addr (some t) = IsResult type virt addr t

abbrev pub IsVerdict : AccessType → Bool → ℕ → Verdict → Type 0
IsVerdict type virt addr (fault trap) = IsOwn type virt addr trap
IsVerdict type virt addr broken = 0 ≤ 0
IsVerdict type virt addr table = 0 ≤ 0
IsVerdict type virt addr leaf = 0 ≤ 0

module _ (type : AccessType) (virt : Bool) (addr : ℕ) where
  -- The conditions on the format throw nothing.
  pub format-IsVerdict :
      (hart : Hart) (pbmte : Bool) (pte : ℕ) (v : Verdict)
      → IsVerdict type virt addr v
      → IsVerdict type virt addr (or_verdict (check_format hart pbmte pte) v)
  unfolding check_format
  format-IsVerdict hart pbmte pte v h =
      let P = λ (o : Option Verdict). IsVerdict type virt addr (or_verdict o v) in
      if_both P (any_bit pte pte_rsvd) (omega arith) (
        if_both P (not hart.svnapot && any_bit pte pte_n) (omega arith) (
          if_both P (not pbmte && any_bit pte pte_pbmt) (omega arith) (
            if_both P (bit_and pte pte_pbmt == pte_pbmt) (omega arith) (
              if_both P (pte_table pte)
                (if_both P (any_bit pte pte_leaf_only) (omega arith) (omega arith)) h))))

module _ {ℓ} {M : Type ℓ} (phys : Physical M) (hart : Hart) (r : Request) where
  abbrev pub IsGuestTurn : M × Option Translated → Type 0
  IsGuestTurn (m, t) = IsTurn r.trap_type true r.gva t

  guest_check-IsVerdict :
      (pte ptshift : ℕ) → IsVerdict r.trap_type true r.gva (guest_check hart r pte ptshift)
  unfolding guest_check guest_permission
  guest_check-IsVerdict pte ptshift =
      let P = IsVerdict r.trap_type true r.gva in
      format-IsVerdict r.trap_type true r.gva hart (any_bit hart.menvcfg envcfg_pbmte) pte
        (guest_permission hart r pte ptshift)
        (if_both P (not (any_bit pte pte_v) || not (any_bit pte pte_r) && any_bit pte pte_w)
          (omega arith)
          (if_both P (not (any_bit pte pte_u)) (omega arith) (
            if_both P (guest_denied (guest_mxr hart r) r.type r.hlvx pte) (omega arith) (
              if_both P (not (bit_and (pte_ppn pte) (2 ^ ptshift - 1) == 0)) (omega arith)
                (omega arith)))))

  module _ (on : r.virt ≡ true) (vm : VmInfo) where
    guest_page-IsTurn : (m : M) (page : Option ℕ) → IsGuestTurn (m, guest_page phys hart r vm page)
    unfolding IsResult
    guest_page-IsTurn m none = omega arith
    guest_page-IsTurn m (some base) = omega arith

    guest_updated-IsTurn :
        (i pte : ℕ) (out : M × Bool) → IsGuestTurn (guest_updated phys hart r vm i pte out)
    unfolding IsResult IsOwn
    guest_updated-IsTurn i pte (m, false) = (inr on, on, refl)
    guest_updated-IsTurn i pte (m, true) =
        guest_page-IsTurn m (page_base pte r.gpa i (i * vm.idxbits))

    guest_leaf-IsTurn :
        (i pte_paddr pte : ℕ) (m : M) → IsGuestTurn (guest_leaf phys hart r vm i pte_paddr pte m)
    unfolding guest_leaf
    guest_leaf-IsTurn i pte_paddr pte m =
        if_both IsGuestTurn (not (bit_and pte (needed_ad r.type) == needed_ad r.type))
          (if_both IsGuestTurn (any_bit hart.menvcfg envcfg_adue)
            (guest_updated-IsTurn i pte
              (pte_store phys m pte_paddr (bit_or pte (needed_ad r.type)) vm.ptesize))
            (omega arith))
          (guest_updated-IsTurn i pte (m, true))

    guest_judged-IsTurn :
        (i pte_paddr pte : ℕ) (m : M) (rest : M → ℕ → M × Option Translated) (v : Verdict)
        → ((m' : M) (base : ℕ) → IsGuestTurn (rest m' base))
        → IsVerdict r.trap_type true r.gva v
        → IsGuestTurn (guest_judged phys hart r vm i pte_paddr pte m rest v)
    unfolding IsResult
    guest_judged-IsTurn i pte_paddr pte m rest broken h v = omega arith
    guest_judged-IsTurn i pte_paddr pte m rest table h v = h m _
    guest_judged-IsTurn i pte_paddr pte m rest leaf h v = guest_leaf-IsTurn i pte_paddr pte m
    guest_judged-IsTurn i pte_paddr pte m rest (fault trap) h v = v

    guest_loaded-IsTurn :
        (i pte_paddr : ℕ) (rest : M → ℕ → M × Option Translated) (out : M × Option ℕ)
        → ((m' : M) (base : ℕ) → IsGuestTurn (rest m' base))
        → IsGuestTurn (guest_loaded phys hart r vm i pte_paddr rest out)
    unfolding IsResult IsOwn
    guest_loaded-IsTurn i pte_paddr rest (m, none) h = (inl refl, on, refl)
    guest_loaded-IsTurn i pte_paddr rest (m, some pte) h =
        guest_judged-IsTurn i pte_paddr pte m rest (guest_check hart r pte (i * vm.idxbits)) h
          (guest_check-IsVerdict pte (i * vm.idxbits))

    guest_loop-IsTurn :
        (n : ℕ) (m : M) (base : ℕ) → IsGuestTurn (guest_loop phys hart r vm n m base)
    unfolding guest_loop
    guest_loop-IsTurn zero m base = omega arith
    guest_loop-IsTurn (suc i) m base =
        let pte_paddr = u64 (base + guest_idx phys hart r vm i * vm.ptesize) in
        guest_loaded-IsTurn i pte_paddr (guest_loop phys hart r vm i)
          (pte_load phys m pte_paddr vm.ptesize) (guest_loop-IsTurn i)

    guest_done-IsResult :
        (out : M × Option Translated)
        → IsGuestTurn out
        → IsResult r.trap_type true r.gva (guest_done phys hart r vm out).1
    unfolding IsResult IsOwn
    guest_done-IsResult (m, none) h = (refl, refl, refl)
    guest_done-IsResult (m, some t) h = h

    guest_walk-IsResult : (m : M) → IsResult r.trap_type true r.gva (guest_walk phys hart r vm m).1
    unfolding guest_walk
    guest_walk-IsResult m =
        let n = vm.levels in
        let maxgpa = 2 ^ (vm.levels * vm.idxbits + vm.widenbits + pgshift) - 1 in
        guest_done-IsResult _ (
          if_both IsGuestTurn (bit_and r.gpa (flip 64 maxgpa) == 0)
            (guest_loop-IsTurn n m vm.ptbase) (omega arith))

  guest_decoded-IsResult :
      (m : M) (vm : Option VmInfo)
      → r.virt ≡ true
      → IsResult r.trap_type r.virt r.gva (guest_decoded phys hart r m vm).1
  unfolding IsResult
  guest_decoded-IsResult m none on = omega arith
  guest_decoded-IsResult m (some vm) on =
      if_both (λ (out : M × Translated). IsResult r.trap_type r.virt r.gva out.1) (vm.levels == 0)
        (omega arith)
        (subst (λ (v : Bool). IsResult r.trap_type v r.gva (guest_walk phys hart r vm m).1) (sym on)
          (guest_walk-IsResult on vm m))

  pub s2xlate-IsResult : (m : M) → IsResult r.trap_type r.virt r.gva (s2xlate phys hart m r).1
  unfolding s2xlate IsResult
  s2xlate-IsResult m =
      if_cases (λ (out : M × Translated). IsResult r.trap_type r.virt r.gva out.1) (not r.virt)
        (λ off. omega arith)
        (λ on.
          guest_decoded-IsResult m (decode_vm_info hart.const_xlen true 0 hart.hgatp)
            (virtual r.virt on))
    where
      virtual : (v : Bool) → not v ≡ false → v ≡ true
      virtual true h = refl
      virtual false h = cc
