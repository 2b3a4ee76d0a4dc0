-- ===== src/Walk/Faults.antt =====
-- The faults that the conditions of `walk` of riscv/mmu.cc give name the access.
use spike_online.Walk.{Hart, fault, pte_ppn, pte_r, pte_w, pte_x}
use spike_online.Walk.Host.{
  AccessInfo, walk_type, ss_page, wrong_mode, invalid, denied, own_fault, permission, check,
}
use spike_online.Walk.Throws.{IsOwn, IsVerdict, format-IsVerdict}
use spike_online.Pmp.{AccessType, load, store, fetch, is_store, is_fetch}
use spike_online.Base.{
  ℕ, ◌-◌, ◌^◌, ◌≡◌, inl, refl, arith, bit_and, any_bit, Bool, true, false, not, ◌&&◌, ◌||◌,
  if◌then◌else◌, ◌==◌, if_both, if_cases,
}

is_store_lem : (t : AccessType) → is_store t ≡ true → store ≡ t
is_store_lem store h = refl
is_store_lem load h = cc
is_store_lem fetch h = cc

is_fetch_lem : (t : AccessType) → is_fetch t ≡ true → fetch ≡ t
is_fetch_lem fetch h = refl
is_fetch_lem load h = cc
is_fetch_lem store h = cc

and_left : (a b : Bool) → (a && b) ≡ true → a ≡ true
and_left true b h = refl
and_left false b h = cc

and_right : (a b : Bool) → (a && b) ≡ true → b ≡ true
and_right true b h = h
and_right false b h = cc

pub shadow_store : (s : Bool) (t : AccessType) → s ≡ true → store ≡ (if s then store else t)
shadow_store true t h = refl
shadow_store false t h = cc

module _ (hart : Hart) (a : AccessInfo) where
  pub own :
      (type : AccessType)
      → type ≡ walk_type a
      → IsVerdict (walk_type a) a.effective_virt a.transformed_vaddr (fault (own_fault a type))
  unfolding IsOwn
  own type e = (inl e, refl, refl)

  permission-IsVerdict :
      (pte ptshift : ℕ)
      → IsVerdict (walk_type a) a.effective_virt a.transformed_vaddr (permission hart a pte ptshift)
  unfolding permission
  permission-IsVerdict pte ptshift =
      let P = IsVerdict (walk_type a) a.effective_virt a.transformed_vaddr in
      if_both P (wrong_mode hart a pte) (omega arith) (
        if_both P (invalid hart a pte) (omega arith) (
          if_cases P (ss_page pte && (is_store (walk_type a) && not a.ss_access))
            (λ h. own store (is_store_lem (walk_type a) (and_left _ _ (and_right _ _ h))))
            (λ h.
              if_cases P (ss_page pte && is_fetch (walk_type a))
                (λ h. own fetch (is_fetch_lem (walk_type a) (and_right _ _ h)))
                (λ h.
                  if_cases P
                    ((any_bit pte pte_r && any_bit pte pte_w || any_bit pte pte_x) && a.ss_access)
                    (λ h. own store (shadow_store a.ss_access a.type (and_right _ _ h)))
                    (λ h. if_both P (denied hart a pte) (omega arith) (
                      if_both P (not (bit_and (pte_ppn pte) (2 ^ ptshift - 1) == 0)) (omega arith)
                        (omega arith)))))))

  pub check-IsVerdict :
      (pte ptshift : ℕ)
      → IsVerdict (walk_type a) a.effective_virt a.transformed_vaddr (check hart a pte ptshift)
  unfolding check
  check-IsVerdict pte ptshift =
      format-IsVerdict (walk_type a) a.effective_virt a.transformed_vaddr hart _ pte _
        (permission-IsVerdict pte ptshift)
