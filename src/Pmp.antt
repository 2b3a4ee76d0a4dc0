-- ===== src/Pmp.antt =====
-- Physical memory protection: `pmpaddr_csr_t` of riscv/csrs.cc and `pmp_ok` of riscv/mmu.cc.
pub mod First
pub mod Region
pub mod Homogeneous
mod Tests
use spike_online.Base.{
  ℕ, zero, suc, ◌+◌, ◌-◌, ◌*◌, ◌/◌, ◌%◌, ◌^◌, bit_and, bit_or, bit_xor, Bool, true, false, not,
  ◌&&◌, ◌||◌, List, get_or, set, if◌then◌else◌, ltb, leb, ◌==◌, any_bit, flip, neg, u64, ◌<<<◌,
}

pub data AccessType : Type 0 where
  load : AccessType
  store : AccessType
  fetch : AccessType

-- A `pmpaddr_csr_t`.
pub record Entry : Type 0 where
  pub val : ℕ
  pub cfg : ℕ

-- The entries and what they read of the processor and of `mseccfg`.
pub record Pmp : Type 0 where
  pub entries : List Entry
  pub n_pmp : ℕ
  pub max_pmp : ℕ
  pub lg_pmp_granularity : ℕ
  pub rlb : Bool
  pub mml : Bool
  pub mmwp : Bool

abbrev pub pmp_r : ℕ
pmp_r = 1 <<< 0

abbrev pub pmp_w : ℕ
pmp_w = 1 <<< 1

abbrev pub pmp_x : ℕ
pmp_x = 1 <<< 2

abbrev pub pmp_l : ℕ
pmp_l = 1 <<< 7

abbrev pub pmp_a : ℕ
pmp_a = 0x18

abbrev pub pmp_tor : ℕ
pmp_tor = 0x08

abbrev pub pmp_na4 : ℕ
pmp_na4 = 0x10

abbrev pub pmp_napot : ℕ
pmp_napot = 0x18

abbrev pub prv_m : ℕ
prv_m = 3

abbrev pub entry : Pmp → ℕ → Entry
entry p i = get_or p.entries i (record { val = 0; cfg = 0 })

-- The bits of the configuration that tell how an entry matches.
abbrev pub mode_of : Entry → ℕ
mode_of e = bit_and e.cfg pmp_a

pub pmp_tor_mask : Pmp → ℕ
pmp_tor_mask p = neg 64 (u64 (1 <<< (p.lg_pmp_granularity - 2)))

pub pmpaddr_read : Pmp → Entry → ℕ
pmpaddr_read p e =
    if leb pmp_napot (mode_of e)
    then bit_or e.val (flip 64 (pmp_tor_mask p) / 2)
    else bit_and e.val (pmp_tor_mask p)

pub next_locked_and_tor : Pmp → ℕ → Bool
next_locked_and_tor p i =
    let next = entry p (i + 1) in
    if leb p.max_pmp (i + 1)
    then false
    else (not p.rlb && any_bit next.cfg pmp_l) && mode_of next == pmp_tor

-- `unlogged_write` of the entry `i`; the answer tells whether it was written. The flush of the
-- memory unit's translations is not in the state.
pub pmpaddr_write : Pmp → ℕ → ℕ → Pmp × Bool
pmpaddr_write p i val =
    let e = entry p i in
    let locked = not p.rlb && any_bit e.cfg pmp_l in
    if p.n_pmp == 0
    then (p, false)
    else if ltb i p.n_pmp && not locked && not (next_locked_and_tor p i)
    then (
      record p { entries = set p.entries i (record e { val = bit_and val (2 ^ 62 - 1) }) },
      true,
    )
    else (p, false)

pub tor_paddr : Pmp → Entry → ℕ
tor_paddr p e = u64 (bit_and e.val (pmp_tor_mask p) <<< 2)

pub tor_base_paddr : Pmp → ℕ → ℕ
tor_base_paddr p i = if i == 0 then 0 else tor_paddr p (entry p (i - 1))

pub napot_mask : Pmp → Entry → ℕ
napot_mask p e =
    let not_na4 : ℕ = if mode_of e == pmp_na4 then 0 else 1 in
    let mask = bit_or (bit_or (u64 (e.val <<< 1)) not_na4) (flip 64 (pmp_tor_mask p)) in
    u64 (flip 64 (bit_and mask (flip 64 (u64 (mask + 1)))) <<< 2)

pub match4 : Pmp → ℕ → ℕ → Bool
match4 p i addr =
    let e = entry p i in
    if mode_of e == 0
    then false
    else if mode_of e == pmp_tor
    then leb (tor_base_paddr p i) addr && ltb addr (tor_paddr p e)
    else bit_and (bit_xor addr (tor_paddr p e)) (napot_mask p e) == 0

abbrev pub is_load : AccessType → Bool
is_load load = true
is_load store = false
is_load fetch = false

abbrev pub is_store : AccessType → Bool
is_store load = false
is_store store = true
is_store fetch = false

abbrev pub is_fetch : AccessType → Bool
is_fetch load = false
is_fetch store = false
is_fetch fetch = true

-- `prvm == cfgl` of two conditions.
abbrev pub same_as : Bool → Bool → Bool
same_as a b = if a then b else not b

pub access_ok : Pmp → Entry → AccessType → ℕ → Bool → Bool
access_ok p e type mode hlvx =
    let cfgx = any_bit e.cfg pmp_x in
    let cfgw = any_bit e.cfg pmp_w in
    let cfgr = any_bit e.cfg pmp_r in
    let cfgl = any_bit e.cfg pmp_l in
    let prvm = mode == prv_m in
    let typer = is_load type in
    let typex = is_fetch type in
    let typew = is_store type in
    let normal_rwx = (typer && cfgr && (not hlvx || cfgx)) || (typew && cfgw) || (typex && cfgx) in
    let mml_shared_region = not cfgr && cfgw in
    let mml_chk_normal = same_as prvm cfgl && normal_rwx in
    let mml_chk_shared =
      (not cfgl && cfgx && ((typer && not hlvx) || typew))
      || (not cfgl && not cfgx && ((typer && not hlvx) || (typew && prvm)))
      || (cfgl && typex)
      || (cfgl && typer && cfgx && prvm) in
    if p.mml
    then if cfgx && cfgw && cfgr && cfgl
      then typer && not hlvx
      else if mml_shared_region
      then mml_chk_shared
      else mml_chk_normal
    else (prvm && not cfgl) || normal_rwx

-- The locals of the loop over the sectors of four bytes.
pub record Sectors : Type 0 where
  pub any_match : Bool
  pub all_match : Bool

-- The loop at an offset, with the rounds that are left; `at` is the match of the entry there.
pub sector_loop : (ℕ → Bool) → ℕ → ℕ → Sectors → Sectors
sector_loop at zero offset m = m
sector_loop at (suc left) offset m =
    sector_loop at left (offset + 4)
      (record { any_match = m.any_match || at offset; all_match = m.all_match && at offset })

-- `offset < len; offset += 4` has this many rounds.
abbrev pub sectors : ℕ → ℕ
sectors len = (len + 3) / 4

abbrev pub match_at : Pmp → ℕ → ℕ → ℕ → Bool
match_at p i addr offset = match4 p i (u64 (addr + offset))

pub entry_sectors : Pmp → ℕ → ℕ → ℕ → Sectors
entry_sectors p i addr len =
    sector_loop (match_at p i addr) (sectors len) 0 (record { any_match = false; all_match = true })

-- In case no entry matches.
pub no_match_ok : Pmp → AccessType → ℕ → Bool
no_match_ok p type mode =
    mode == prv_m && not p.mmwp && (not p.mml || (is_load type || is_store type))

-- The loop over the entries at the entry `i`, with the rounds that are left.
pub entry_loop : Pmp → ℕ → ℕ → AccessType → ℕ → Bool → ℕ → ℕ → Bool
entry_loop p addr len type mode hlvx zero i = no_match_ok p type mode
entry_loop p addr len type mode hlvx (suc left) i =
    let rest = entry_loop p addr len type mode hlvx left (i + 1) in
    let m = entry_sectors p i addr len in
    if m.any_match
    then if m.all_match then access_ok p (entry p i) type mode hlvx else false
    else rest

pub pmp_ok : Pmp → ℕ → ℕ → AccessType → ℕ → Bool → Bool
pmp_ok p addr len type mode hlvx =
    if p.n_pmp == 0 then true else entry_loop p addr len type mode hlvx p.n_pmp 0
