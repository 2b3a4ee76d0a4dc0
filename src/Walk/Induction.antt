-- ===== src/Walk/Induction.antt =====
-- What holds of every result of `walk` of riscv/mmu.cc: of its exceptions, and of an address if it holds of
-- those that its leaves give.
use spike_online.Walk.{
  Hart, VmInfo, Physical, Trap, Translated, Verdict, broken, table, leaf, fault, returned, thrown,
  aborted, pgshift, pte_ppn, envcfg_adue, needed_ad, page_base, pte_load,
}
use spike_online.Walk.Guest.{s2xlate}
use spike_online.Walk.Host.{
  AccessInfo, walk_type, envcfg, check, walk_idx, entry_request, page_request, second_stage,
  leaf_page, updated, may_update, at_leaf, judged, loaded, located, walk_loop, is_canonical,
  walk_done, walk_decoded,
}
use spike_online.Walk.Throws.{IsOwn, IsResult, IsVerdict, s2xlate-IsResult}
use spike_online.Pmp.{load, store}
use spike_online.Base.{
  ℕ, zero, suc, ◌+◌, ◌-◌, ◌*◌, ◌^◌, ◌≤◌, ◌≡◌, refl, arith, bit_and, bit_or, ◌<<<◌, u64, sub,
  any_bit, Bool, true, false, not, Option, none, some, if◌then◌else◌, ◌==◌, if_both, if_cases,
  ==_iff,
}
use spike_online.Walk.Faults.{shadow_store, own, check-IsVerdict}

-- A property of results: it holds of the exceptions that name the access, and of the addresses that
-- a leaf gives, and that no translation gives.
module _ {ℓ} {M : Type ℓ} (phys : Physical M) (hart : Hart) (a : AccessInfo)
    (R : Translated → Type 0)
    (of_trap : (trap : Trap)
      → IsOwn (walk_type a) a.effective_virt a.transformed_vaddr trap
      → R (thrown trap))
    (of_abort : R aborted) where
  abbrev IsWalkTurn : M × Option Translated → Type 0
  IsWalkTurn (m, none) = 0 ≤ 0
  IsWalkTurn (m, some t) = R t

  -- `Visits n m base` stands for a state before the turn of level `n - 1`, with the memory and the table,
  -- and `Found i pte` for a leaf that the walk has read at level `i`.
  module _ (vm : VmInfo) (Visits : ℕ → M → ℕ → Type 0) (Found : ℕ → ℕ → Type 0)
      (descends : (i base pte_paddr pte : ℕ) (m m' m'' : M)
        → Visits (suc i) m base
        → s2xlate phys hart m
            (entry_request a (u64 (base + walk_idx phys hart a vm i * vm.ptesize)) load)
          ≡ (m', returned pte_paddr)
        → pte_load phys m' pte_paddr vm.ptesize ≡ (m'', some pte)
        → check hart a pte (i * vm.idxbits) ≡ table
        → Visits i m'' (u64 (pte_ppn pte <<< pgshift)))
      (finds : (i base pte_paddr pte : ℕ) (m m' m'' : M)
        → Visits (suc i) m base
        → s2xlate phys hart m
            (entry_request a (u64 (base + walk_idx phys hart a vm i * vm.ptesize)) load)
          ≡ (m', returned pte_paddr)
        → pte_load phys m' pte_paddr vm.ptesize ≡ (m'', some pte)
        → check hart a pte (i * vm.idxbits) ≡ leaf
        → Found i pte)
      (of_leaf : (m : M) (i pte base : ℕ)
        → Found i pte
        → page_base pte a.transformed_vaddr i (i * vm.idxbits) ≡ some base
        → R
            (second_stage phys hart a (
              s2xlate phys hart m (
                page_request a
                  (bit_or base (bit_and a.transformed_vaddr (2 ^ pgshift - 1)))))).1) where
    leaf_page-IsTurn :
        (m : M) (i pte : ℕ) (page : Option ℕ)
        → Found i pte
        → page_base pte a.transformed_vaddr i (i * vm.idxbits) ≡ page
        → IsWalkTurn (leaf_page phys hart a m page)
    leaf_page-IsTurn m i pte none l e = omega arith
    leaf_page-IsTurn m i pte (some base) l e = of_leaf m i pte base l e

    updated-IsTurn :
        (i pte : ℕ) (out : M × Bool) → Found i pte → IsWalkTurn (updated phys hart a vm i pte out)
    updated-IsTurn i pte (m, false) l = of_trap _ (own hart a (walk_type a) refl)
    updated-IsTurn i pte (m, true) l = leaf_page-IsTurn m i pte _ l refl

    may_update-IsTurn :
        (i pte_paddr pte : ℕ) (out : M × Translated)
        → Found i pte
        → IsResult (walk_type a) a.effective_virt a.transformed_vaddr out.1
        → IsWalkTurn (may_update phys hart a vm i pte_paddr pte out)
    unfolding IsResult
    may_update-IsTurn i pte_paddr pte (m, returned paddr) l h = updated-IsTurn i pte _ l
    may_update-IsTurn i pte_paddr pte (m, thrown trap) l h = of_trap trap h
    may_update-IsTurn i pte_paddr pte (m, aborted) l h = of_abort

    at_leaf-IsTurn :
        (i pte_gpa pte_paddr pte : ℕ) (m : M)
        → Found i pte
        → IsWalkTurn (at_leaf phys hart a vm i pte_gpa pte_paddr pte m)
    unfolding at_leaf
    at_leaf-IsTurn i pte_gpa pte_paddr pte m l =
        if_both IsWalkTurn (not (bit_and pte (needed_ad (walk_type a)) == needed_ad (walk_type a)))
          (if_both IsWalkTurn (any_bit (envcfg hart a) envcfg_adue)
            (may_update-IsTurn i pte_paddr pte (s2xlate phys hart m (entry_request a pte_gpa store))
              l (s2xlate-IsResult phys hart (entry_request a pte_gpa store) m))
            (omega arith))
          (updated-IsTurn i pte (m, true) l)

    judged-IsTurn :
        (i base pte_paddr pte : ℕ) (m m' m'' : M) (rest : M → ℕ → M × Option Translated)
        (v : Verdict)
        → ((n : M) (b : ℕ) → Visits i n b → IsWalkTurn (rest n b))
        → Visits (suc i) m base
        → s2xlate phys hart m
            (entry_request a (u64 (base + walk_idx phys hart a vm i * vm.ptesize)) load)
          ≡ (m', returned pte_paddr)
        → pte_load phys m' pte_paddr vm.ptesize ≡ (m'', some pte)
        → check hart a pte (i * vm.idxbits) ≡ v
        → IsVerdict (walk_type a) a.effective_virt a.transformed_vaddr v
        → IsWalkTurn (
            judged phys hart a vm i
              (u64 (base + walk_idx phys hart a vm i * vm.ptesize))
              pte_paddr
              pte
              m''
              rest
              v)
    judged-IsTurn i base pte_paddr pte m m' m'' rest broken h at s l e v = omega arith
    judged-IsTurn i base pte_paddr pte m m' m'' rest table h at s l e v =
        h m'' _ (descends i base pte_paddr pte m m' m'' at s l e)
    judged-IsTurn i base pte_paddr pte m m' m'' rest leaf h at s l e v =
        at_leaf-IsTurn i _ pte_paddr pte m'' (finds i base pte_paddr pte m m' m'' at s l e)
    judged-IsTurn i base pte_paddr pte m m' m'' rest (fault trap) h at s l e v = of_trap trap v

    loaded-IsTurn :
        (i base pte_paddr : ℕ) (m m' : M) (rest : M → ℕ → M × Option Translated)
        (out : M × Option ℕ)
        → ((n : M) (b : ℕ) → Visits i n b → IsWalkTurn (rest n b))
        → Visits (suc i) m base
        → s2xlate phys hart m
            (entry_request a (u64 (base + walk_idx phys hart a vm i * vm.ptesize)) load)
          ≡ (m', returned pte_paddr)
        → pte_load phys m' pte_paddr vm.ptesize ≡ out
        → IsWalkTurn (
            loaded phys hart a vm i
              (u64 (base + walk_idx phys hart a vm i * vm.ptesize))
              pte_paddr
              rest
              out)
    loaded-IsTurn i base pte_paddr m m' rest (m'', none) h at s l =
        of_trap _ (own hart a (walk_type a) refl)
    loaded-IsTurn i base pte_paddr m m' rest (m'', some pte) h at s l =
        judged-IsTurn i base pte_paddr pte m m' m'' rest _ h at s l refl
          (check-IsVerdict hart a pte (i * vm.idxbits))

    located-IsTurn :
        (i base : ℕ) (m : M) (rest : M → ℕ → M × Option Translated) (out : M × Translated)
        → ((n : M) (b : ℕ) → Visits i n b → IsWalkTurn (rest n b))
        → Visits (suc i) m base
        → s2xlate phys hart m
            (entry_request a (u64 (base + walk_idx phys hart a vm i * vm.ptesize)) load)
          ≡ out
        → IsResult (walk_type a) a.effective_virt a.transformed_vaddr out.1
        → IsWalkTurn (
            located phys hart a vm i (u64 (base + walk_idx phys hart a vm i * vm.ptesize)) rest out)
    unfolding IsResult
    located-IsTurn i base m rest (m', returned pte_paddr) h at s r =
        loaded-IsTurn i base pte_paddr m m' rest _ h at s refl
    located-IsTurn i base m rest (m', thrown trap) h at s r = of_trap trap r
    located-IsTurn i base m rest (m', aborted) h at s r = of_abort

    walk_loop-IsTurn :
        (n : ℕ) (m : M) (base : ℕ)
        → Visits n m base
        → IsWalkTurn (walk_loop phys hart a vm n m base)
    unfolding walk_loop
    walk_loop-IsTurn zero m base at = omega arith
    walk_loop-IsTurn (suc i) m base at =
        located-IsTurn i base m (walk_loop phys hart a vm i) _ (walk_loop-IsTurn i) at refl
          (s2xlate-IsResult phys hart (entry_request a _ load) m)

    walk_done-IsTurn :
        (out : M × Option Translated) → IsWalkTurn out → R (walk_done phys hart a vm out).1
    unfolding IsOwn
    walk_done-IsTurn (m, none) h = of_trap _ (refl, refl, refl)
    walk_done-IsTurn (m, some t) h = h

    from_root :
        (m : M)
        → (is_canonical phys hart a vm ≡ true → Visits vm.levels m vm.ptbase)
        → IsWalkTurn (
            walk_loop phys hart a vm
              (if is_canonical phys hart a vm then vm.levels else 0)
              m
              vm.ptbase)
    unfolding walk_loop
    from_root m root =
        if_cases (λ (n : ℕ). IsWalkTurn (walk_loop phys hart a vm n m vm.ptbase))
          (is_canonical phys hart a vm) (λ c. walk_loop-IsTurn vm.levels m vm.ptbase (root c))
          (λ c. omega arith)

    pub walked :
        (m : M)
        → (is_canonical phys hart a vm ≡ true → Visits vm.levels m vm.ptbase)
        → (vm.levels ≡ 0
            → R
                (second_stage phys hart a (
                  s2xlate phys hart m (
                    page_request a
                      (bit_and a.transformed_vaddr (sub 64 (u64 (2 <<< (hart.xlen - 1))) 1))))).1)
        → R (walk_decoded phys hart a m (some vm)).1
    walked m root of_bare =
        let P = λ (out : M × Translated). R out.1 in
        if_cases P (vm.levels == 0)
          (λ h.
            if_cases P a.ss_access
              (λ s. of_trap _ (own hart a store (shadow_store a.ss_access a.type s)))
              (λ s. of_bare ((==_iff vm.levels 0).0 h)))
          (λ h. walk_done-IsTurn _ (from_root m root))
