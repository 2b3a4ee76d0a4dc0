-- ===== src/Walk/Permission.antt =====
-- When an entry ends the walk of riscv/mmu.cc as a leaf, or leads it to the next table.
use spike_online.Walk.{
  Hart, Verdict, broken, table, leaf, pte_v, pte_r, pte_w, pte_x, pte_u, pte_n, pte_rsvd, pte_pbmt,
  pte_table, pte_leaf_only, pte_ppn, envcfg_pbmte, check_format,
}
use spike_online.Walk.Guest.{or_verdict}
use spike_online.Walk.Host.{
  AccessInfo, walk_type, envcfg, sse, s_mode, sum, mxr, ss_page, wrong_mode, invalid, denied,
  permission, check,
}
use spike_online.Pmp.{AccessType, load, store, fetch, is_load, is_store, is_fetch}
use spike_online.Base.{
  ℕ, ◌-◌, ◌^◌, ◌≡◌, ◌≢◌, refl, arith, bit_and, any_bit, Bool, true, false, not, ◌&&◌, ◌||◌, Option,
  if◌then◌else◌, ◌==◌, if_cases, if_both,
}

-- An entry permits an access: it is valid; user pages are for user mode, or for data of supervisor mode
-- under `SUM`, and the others for supervisor mode; fetches need execute permission, stores write
-- permission, and loads read permission, or what `MXR` or the shadow stack stands in for it with; and
-- only shadow stack accesses write to shadow stack pages. The page of a leaf above the last level is
-- aligned to its size.
pub record Permits (hart : Hart) (a : AccessInfo) (pte : ℕ) (ptshift : ℕ) : Type 0 where
  pub valid : any_bit pte pte_v ≡ true
  pub user_page :
      any_bit pte pte_u ≡ true
      → s_mode a ≡ true
      → (sum hart a ≡ true) × (is_fetch (walk_type a) ≡ false)
  pub supervisor_page : any_bit pte pte_u ≡ false → s_mode a ≡ true
  pub fetches : (is_fetch (walk_type a) || a.hlvx) ≡ true → any_bit pte pte_x ≡ true
  pub stores : is_store (walk_type a) ≡ true → a.hlvx ≡ false → any_bit pte pte_w ≡ true
  pub loads :
      is_load (walk_type a) ≡ true
      → a.hlvx ≡ false
      → (any_bit pte pte_r || mxr hart a && any_bit pte pte_x || sse hart a && ss_page pte) ≡ true
  pub shadow_stack : is_store (walk_type a) ≡ true → a.ss_access ≡ false → ss_page pte ≡ false
  pub aligned : bit_and (pte_ppn pte) (2 ^ ptshift - 1) ≡ 0

user_page_lem :
    (u s f sm : Bool)
    → (if u then s && (f || not sm) else not s) ≡ false
    → u ≡ true
    → s ≡ true
    → (sm ≡ true) × (f ≡ false)
user_page_lem true true false true h k l = (refl, refl)
user_page_lem true true true sm h k l = cc
user_page_lem true true false false h k l = cc
user_page_lem true false f sm h k l = cc
user_page_lem false s f sm h k l = cc

supervisor_page_lem :
    (u s f sm : Bool) → (if u then s && (f || not sm) else not s) ≡ false → u ≡ false → s ≡ true
supervisor_page_lem false true f sm h k = refl
supervisor_page_lem false false f sm h k = cc
supervisor_page_lem true s f sm h k = cc

valid_lem : (v b : Bool) → (not v || b) ≡ false → v ≡ true
valid_lem true b h = refl
valid_lem false b h = cc

fetches_lem : (f x b : Bool) → (if f then not x else b) ≡ false → f ≡ true → x ≡ true
fetches_lem true true b h k = refl
fetches_lem true false b h k = cc
fetches_lem false x b h k = cc

shadow_stack_lem : (p t s : Bool) → (p && (t && not s)) ≡ false → t ≡ true → s ≡ false → p ≡ false
shadow_stack_lem false t s h k l = refl
shadow_stack_lem true true false h k l = cc
shadow_stack_lem true true true h k l = cc
shadow_stack_lem true false s h k l = cc

aligned_lem : (n : ℕ) → (if not (n == 0) then broken else leaf) ≡ leaf → n ≡ 0
aligned_lem n h = ground (
  arith,
  if_cases (λ (v : Verdict). v ≡ leaf → n ≡ 0) (not (n == 0)) {a = broken} {b = leaf} (λ t e. cc)
      (λ f e. ground (arith, f)) h,
)

stores_bool :
    (t : AccessType) (e x b w : Bool)
    → (if is_fetch t || e then not x else if is_load t then b else not w) ≡ false
    → is_store t ≡ true
    → e ≡ false
    → w ≡ true
stores_bool store false x b true h k l = refl
stores_bool store false x b false h k l = cc
stores_bool store true x b w h k l = cc
stores_bool load e x b w h k l = cc
stores_bool fetch e x b w h k l = cc

loads_bool :
    (t : AccessType) (e x p r q b : Bool)
    → (if is_fetch t || e then not x else if is_load t then not p && not r && not q else b) ≡ false
    → is_load t ≡ true
    → e ≡ false
    → (r || q || p) ≡ true
loads_bool load false x p true q b h k l = refl
loads_bool load false x p false true b h k l = refl
loads_bool load false x true false false b h k l = refl
loads_bool load false x false false false b h k l = cc
loads_bool load true x p r q b h k l = cc
loads_bool store e x p r q b h k l = cc
loads_bool fetch e x p r q b h k l = cc

module _ (hart : Hart) (a : AccessInfo) (pte : ℕ) where
  stores_lem :
      denied hart a pte ≡ false
      → is_store (walk_type a) ≡ true
      → a.hlvx ≡ false
      → any_bit pte pte_w ≡ true
  unfolding denied
  stores_lem h = stores_bool (walk_type a) a.hlvx (any_bit pte pte_x) _ (any_bit pte pte_w) h

  loads_lem :
      denied hart a pte ≡ false
      → is_load (walk_type a) ≡ true
      → a.hlvx ≡ false
      → (any_bit pte pte_r || mxr hart a && any_bit pte pte_x || sse hart a && ss_page pte) ≡ true
  unfolding denied
  loads_lem h =
      loads_bool (walk_type a) a.hlvx (any_bit pte pte_x) (sse hart a && ss_page pte)
        (any_bit pte pte_r) (mxr hart a && any_bit pte pte_x) _ h

  permission-Permits :
      (ptshift : ℕ) → permission hart a pte ptshift ≡ leaf → Permits hart a pte ptshift
  unfolding permission wrong_mode invalid denied
  permission-Permits ptshift =
      let P = λ (v : Verdict). v ≡ leaf → Permits hart a pte ptshift in
      if_cases P (wrong_mode hart a pte) (λ h e. cc)
        (λ mode.
          if_cases P (invalid hart a pte) (λ h e. cc)
            (λ ok.
              if_cases P (ss_page pte && (is_store (walk_type a) && not a.ss_access)) (λ h e. cc)
                (λ shadow.
                  if_cases P (ss_page pte && is_fetch (walk_type a)) (λ h e. cc)
                    (λ h.
                      if_cases P
                        ((any_bit pte pte_r && any_bit pte pte_w || any_bit pte pte_x)
                          && a.ss_access)
                        (λ h e. cc)
                        (λ h.
                          if_cases P (denied hart a pte) (λ h e. cc)
                            (λ given rest. record {
                              valid = valid_lem (any_bit pte pte_v) _ ok;
                              user_page =
                                  user_page_lem (any_bit pte pte_u) (s_mode a)
                                    (is_fetch (walk_type a)) (sum hart a) mode;
                              supervisor_page =
                                  supervisor_page_lem (any_bit pte pte_u) (s_mode a)
                                    (is_fetch (walk_type a)) (sum hart a) mode;
                              fetches = fetches_lem _ (any_bit pte pte_x) _ given;
                              stores = stores_lem given;
                              loads = loads_lem given;
                              shadow_stack =
                                  shadow_stack_lem (ss_page pte) (is_store (walk_type a))
                                    a.ss_access shadow;
                              aligned = aligned_lem (bit_and (pte_ppn pte) (2 ^ ptshift - 1)) rest;
                            }))))))

  pub check-Permits : (ptshift : ℕ) → check hart a pte ptshift ≡ leaf → Permits hart a pte ptshift
  unfolding check check_format
  check-Permits ptshift =
      let v = permission hart a pte ptshift in
      let P = λ (o : Option Verdict). or_verdict o v ≡ leaf → Permits hart a pte ptshift in
      if_cases P (any_bit pte pte_rsvd) (λ h e. cc)
        (λ h.
          if_cases P (not hart.svnapot && any_bit pte pte_n) (λ h e. cc)
            (λ h.
              if_cases P (not (any_bit (envcfg hart a) envcfg_pbmte) && any_bit pte pte_pbmt)
                (λ h e. cc)
                (λ h.
                  if_cases P (bit_and pte pte_pbmt == pte_pbmt) (λ h e. cc)
                    (λ h.
                      if_cases P (pte_table pte)
                        (λ h. if_cases P (any_bit pte pte_leaf_only) (λ h e. cc) (λ h e. cc))
                        (λ h e. permission-Permits ptshift e)))))

  permission≢table : (ptshift : ℕ) → permission hart a pte ptshift ≢ table
  unfolding permission
  permission≢table ptshift =
      let P = λ (v : Verdict). v ≢ table in
      if_both P (wrong_mode hart a pte) (λ e. cc)
        (if_both P (invalid hart a pte) (λ e. cc)
          (if_both P (ss_page pte && (is_store (walk_type a) && not a.ss_access)) (λ e. cc)
            (if_both P (ss_page pte && is_fetch (walk_type a)) (λ e. cc)
              (if_both P
                ((any_bit pte pte_r && any_bit pte pte_w || any_bit pte pte_x) && a.ss_access)
                (λ e. cc)
                (if_both P (denied hart a pte) (λ e. cc)
                  (if_both P (not (bit_and (pte_ppn pte) (2 ^ ptshift - 1) == 0)) (λ e. cc)
                    (λ e. cc)))))))

  -- The walk goes on only from an entry that points to a table.
  pub check-table : (ptshift : ℕ) → check hart a pte ptshift ≡ table → pte_table pte ≡ true
  unfolding check check_format
  check-table ptshift =
      let v = permission hart a pte ptshift in
      let P = λ (o : Option Verdict). or_verdict o v ≡ table → pte_table pte ≡ true in
      if_both P (any_bit pte pte_rsvd) (λ e. cc)
        (if_both P (not hart.svnapot && any_bit pte pte_n) (λ e. cc)
          (if_both P (not (any_bit (envcfg hart a) envcfg_pbmte) && any_bit pte pte_pbmt) (λ e. cc)
            (if_both P (bit_and pte pte_pbmt == pte_pbmt) (λ e. cc)
              (if_cases P (pte_table pte) (λ h e. h)
                (λ h e. absurd (permission≢table ptshift e))))))
