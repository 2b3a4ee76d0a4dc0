-- ===== src/Walk/Permits.antt =====
-- What `walk` of riscv/mmu.cc answers: exceptions that name the access, and addresses that a leaf permits.
use spike_online.Walk.{
  Hart, VmInfo, Physical, Translated, returned, thrown, aborted, pgshift, pte_table, decode_vm_info,
  page_base, pte_load, pte_ppn,
}
use spike_online.Walk.Guest.{Request, s2xlate}
use spike_online.Walk.Host.{
  AccessInfo, walk_type, walk_idx, is_canonical, entry_request, page_request, to_page, second_stage,
  walk_decoded, walk,
}
use spike_online.Walk.Throws.{IsResult, s2xlate-IsResult}
use spike_online.Walk.Induction.{walked}
use spike_online.Pmp.{AccessType, load}
use spike_online.Base.{
  ℕ, suc, ◌+◌, ◌<<<◌, u64, ap, ◌∙◌, ◌-◌, ◌*◌, ◌^◌, ◌≤◌, ◌≡◌, ◌≢◌, refl, sym, arith, bit_and, bit_or,
  flip, Bool, true, false, not, Option, none, some, if_cases,
}
use spike_online.Walk.Permission.{Permits, check-Permits, check-table}

-- The states of a first-stage walk without a second stage, before each turn of its loop: from `vm.levels`
-- at the root, where the virtual address is canonical, each entry that is loaded at the index of the address and points to a table leads to
-- the next lower level.
pub data Visited {M : Type 0} (phys : Physical M) (hart : Hart) (a : AccessInfo) (vm : VmInfo)
    (m : M) : ℕ → M → ℕ → Type 0 where
  root : is_canonical phys hart a vm ≡ true → Visited phys hart a vm m vm.levels m vm.ptbase
  descend :
      {i base : ℕ} {m' : M} (m'' : M) (pte : ℕ)
      → Visited phys hart a vm m (suc i) m' base
      → pte_load phys m' (u64 (base + walk_idx phys hart a vm i * vm.ptesize)) vm.ptesize
        ≡ (m'', some pte)
      → pte_table pte ≡ true
      → Visited phys hart a vm m i m'' (u64 (pte_ppn pte <<< pgshift))

-- The entry `pte` is loaded at level `i` of the walk, and permits the access.
pub record IsFound {M : Type 0} (phys : Physical M) (hart : Hart) (a : AccessInfo) (vm : VmInfo)
    (m : M) (i : ℕ) (pte : ℕ) : Type 0 where
  pub base : ℕ
  pub before : M
  pub after : M
  pub visited : Visited phys hart a vm m (suc i) before base
  pub loads :
      pte_load phys before (u64 (base + walk_idx phys hart a vm i * vm.ptesize)) vm.ptesize
      ≡ (after, some pte)
  pub permits : Permits hart a pte (i * vm.idxbits)

-- An address is the page of a leaf that the walk loads and that permits the access.
pub record IsPermitted {M : Type 0} (phys : Physical M) (hart : Hart) (a : AccessInfo) (vm : VmInfo)
    (m : M) (paddr : ℕ) : Type 0 where
  pub level : ℕ
  pub pte : ℕ
  pub base : ℕ
  pub found : IsFound phys hart a vm m level pte
  pub page : page_base pte a.transformed_vaddr level (level * vm.idxbits) ≡ some base
  pub paddr_of :
      paddr
      ≡ bit_and
          (bit_or base (bit_and a.transformed_vaddr (2 ^ pgshift - 1)))
          (flip 64 (2 ^ pgshift - 1))

returned_inj : {p q : ℕ} → returned p ≡ returned q → p ≡ q
returned_inj e = cc

off_lem : (v : Bool) → v ≡ false → not v ≢ false
off_lem false h k = cc
off_lem true h k = cc

module _ {M : Type 0} (phys : Physical M) (hart : Hart) (a : AccessInfo) where
  no_second_stage :
      (m : M) (r : Request) → r.virt ≡ false → s2xlate phys hart m r ≡ (m, returned r.gpa)
  unfolding s2xlate
  no_second_stage m r off =
      if_cases (λ (out : M × Translated). out ≡ (m, returned r.gpa)) (not r.virt) (λ h. refl)
        (λ h. absurd (off_lem r.virt off h))

  module _ (vm : VmInfo) (m : M) (off : a.effective_virt ≡ false) where
    -- Without a second stage an entry is loaded from the address that the walk computes.
    loads_directly :
        (m1 m2 m3 : M) (gpa paddr pte : ℕ) (type : AccessType)
        → s2xlate phys hart m1 (entry_request a gpa type) ≡ (m2, returned paddr)
        → pte_load phys m2 paddr vm.ptesize ≡ (m3, some pte)
        → pte_load phys m1 gpa vm.ptesize ≡ (m3, some pte)
    loads_directly m1 m2 m3 gpa paddr pte type s l =
        let same = sym (no_second_stage m1 (entry_request a gpa type) off) ∙ s in
        let at : m1 ≡ m2 = ap (λ (o : M × Translated). o.0) same in
        let to : gpa ≡ paddr = returned_inj (ap (λ (o : M × Translated). o.1) same) in rw (at, to) l

    of_leaf :
        (m' : M) (i pte base : ℕ)
        → IsFound phys hart a vm m i pte
        → page_base pte a.transformed_vaddr i (i * vm.idxbits) ≡ some base
        → (paddr : ℕ)
        → (second_stage phys hart a (
            s2xlate phys hart m'
              (page_request a (bit_or base (bit_and a.transformed_vaddr (2 ^ pgshift - 1)))))).1
          ≡ returned paddr
        → IsPermitted phys hart a vm m paddr
    of_leaf m' i pte base found page paddr e =
        let r = page_request a (bit_or base (bit_and a.transformed_vaddr (2 ^ pgshift - 1))) in
        let out = ap (λ (o : M × Translated). to_page o.1) (no_second_stage m' r off) in
        record {
          level = i;
          pte = pte;
          base = base;
          found = found;
          page = page;
          paddr_of = returned_inj (sym e ∙ out);
        }

  -- Where translation is on and there is no virtual machine, an address that the walk returns is the
  -- page of an entry that the walk has loaded: at the index of the virtual address in a table that
  -- the entries of the levels above, loaded in the same way, lead to from the root. The entry
  -- permits the access (valid, for its mode and type, and aligned), and the virtual address is
  -- canonical.
  pub walk-IsPermitted :
      (m : M) (vm : VmInfo) (paddr : ℕ)
      → a.effective_virt ≡ false
      → decode_vm_info hart.const_xlen false a.effective_priv (hart.satp a.effective_virt) ≡ some vm
      → vm.levels ≢ 0
      → (walk phys hart a m).1 ≡ returned paddr
      → IsPermitted phys hart a vm m paddr
  unfolding walk
  walk-IsPermitted m vm paddr off decoded on e =
      walked phys hart a
        (λ (t : Translated). t ≡ returned paddr → IsPermitted phys hart a vm m paddr)
        (λ trap h k. cc) (λ k. cc) vm (Visited phys hart a vm m) (IsFound phys hart a vm m)
        (λ i base gpa pte m1 m2 m3 at s l c.
          descend m3 pte at (loads_directly vm m off m1 m2 m3 _ gpa pte load s l)
            (check-table hart a pte _ c))
        (λ i base gpa pte m1 m2 m3 at s l c. record {
          base = base;
          before = m1;
          after = m3;
          visited = at;
          loads = loads_directly vm m off m1 m2 m3 _ gpa pte load s l;
          permits = check-Permits hart a pte _ c;
        })
        (λ m' i pte base found page. of_leaf vm m off m' i pte base found page paddr) m root
        (λ z. absurd (on z)) (rw decoded at e)

module _ {ℓ} {M : Type ℓ} (phys : Physical M) (hart : Hart) (a : AccessInfo) where
  to_page-IsResult :
      (t : Translated)
      → IsResult (walk_type a) a.effective_virt a.transformed_vaddr t
      → IsResult (walk_type a) a.effective_virt a.transformed_vaddr (to_page t)
  unfolding IsResult
  to_page-IsResult (returned paddr) h = omega arith
  to_page-IsResult (thrown trap) h = h
  to_page-IsResult aborted h = h

  walk_decoded-IsResult :
      (m : M) (vm : Option VmInfo)
      → IsResult
          (walk_type a)
          a.effective_virt
          a.transformed_vaddr
          (walk_decoded phys hart a m vm).1
  unfolding IsResult
  walk_decoded-IsResult m none = omega arith
  walk_decoded-IsResult m (some vm) =
      let page = λ (m' : M) (gpa : ℕ).
        to_page-IsResult _ (s2xlate-IsResult phys hart (page_request a gpa) m') in
      walked phys hart a (IsResult (walk_type a) a.effective_virt a.transformed_vaddr) (λ trap h. h)
        (omega arith) vm (λ n m' base. 0 ≤ 0) (λ i pte. 0 ≤ 0)
        (λ i base p pte m1 m2 m3 at s l e. omega arith)
        (λ i base p pte m1 m2 m3 at s l e. omega arith) (λ m' i pte base l e. page m' _) m
        (λ c. omega arith) (λ h. page m _)

  -- Every exception of the walk names the access that is translated: its type (a shadow stack access
  -- counts as a store), its address, and whether it is virtual. Only in a virtual machine may an
  -- access fault have the type of an access to a page table instead.
  pub walk-IsResult :
      (m : M) → IsResult (walk_type a) a.effective_virt a.transformed_vaddr (walk phys hart a m).1
  unfolding walk
  walk-IsResult m =
      walk_decoded-IsResult m
        (decode_vm_info hart.const_xlen false a.effective_priv (hart.satp a.effective_virt))
