-- ===== src/Pmp/Homogeneous.antt =====
-- Whether a region of memory may be treated alike by the protection entries: `subset_match` of
-- riscv/csrs.cc and `pmp_homogeneous` of riscv/mmu.cc.
use spike_online.Pmp.{Pmp, entry, mode_of, pmp_tor, tor_paddr, tor_base_paddr, napot_mask}
use spike_online.Base.{
  ℕ, zero, suc, ◌+◌, ◌-◌, ◌/◌, ◌^◌, bit_and, bit_or, bit_xor, Bool, true, false, not, ◌&&◌, ◌||◌,
  Option, none, some, if◌then◌else◌, ltb, leb, ◌==◌, any_bit, flip, neg, u64, ◌<<<◌,
}

-- The code aborts for a region that is not a naturally aligned power of 2.
unfoldable pub is_misaligned : ℕ → ℕ → Bool
is_misaligned addr len = any_bit (bit_or addr len) (u64 (len + 2 ^ 64 - 1))

-- `subset_match`, for a region that is aligned.
unfoldable pub subset_match : Pmp → ℕ → ℕ → ℕ → Bool
subset_match p i addr len =
    let e = entry p i in
    let base = tor_base_paddr p i in
    let tor = tor_paddr p e in
    let is_tor = mode_of e == pmp_tor in
    let begins_after_lower = leb base addr in
    let begins_after_upper = leb tor addr in
    let ends_before_lower = ltb (bit_and addr (neg 64 len)) (bit_and base (neg 64 len)) in
    let ends_before_upper = ltb (bit_and addr (neg 64 len)) (bit_and tor (neg 64 len)) in
    let tor_homogeneous =
      ends_before_lower || begins_after_upper || (begins_after_lower && ends_before_upper) in
    let mask_homogeneous = any_bit (flip 64 (u64 (napot_mask p e <<< 1))) len in
    let napot_homogeneous = mask_homogeneous || not (bit_xor addr tor / len == 0) in
    if mode_of e == 0 then false else not (if is_tor then tor_homogeneous else napot_homogeneous)

-- The loop at the entry `i`, with the rounds that are left.
unfoldable pub homogeneous_loop : Pmp → ℕ → ℕ → ℕ → ℕ → Bool
homogeneous_loop p addr len zero i = true
homogeneous_loop p addr len (suc left) i =
    let rest = homogeneous_loop p addr len left (i + 1) in
    if subset_match p i addr len then false else rest

-- none where the code aborts.
unfoldable pub pmp_homogeneous : Pmp → ℕ → ℕ → Option Bool
pmp_homogeneous p addr len =
    if is_misaligned addr len then none else some (homogeneous_loop p addr len p.n_pmp 0)
