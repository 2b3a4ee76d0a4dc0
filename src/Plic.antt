-- ===== src/Plic.antt =====
-- riscv/plic.cc: the platform-level interrupt controller. A context is one target of interrupts,
-- the M or the S mode of a hart; arrays of `uint32_t` are lists of words.
pub mod Registers
pub mod Access
pub mod Pending
pub mod Claim
pub mod Pin
mod Tests
use spike_online.Devices.Mip.{backdoor_write_with_mask}
use spike_online.Base.{
  ℕ, zero, suc, ◌+◌, ◌-◌, ◌*◌, ◌/◌, ◌%◌, ◌^◌, ◌≤◌, ◌<◌, bit_and, bit_or, Bool, true, false,
}
use spike_online.Base.{not, ◌&&◌, ◌||◌, List, get_or, set, if◌then◌else◌, ltb, leb, ◌==◌, any_bit}
use spike_online.Base.{flip, ◌<<<◌, ◌>>>◌, u32, u8}

-- `plic_context_t`; `proc` is the index of the hart.
pub record Context : Type 0 where
  pub proc : ℕ
  pub mmode : Bool
  pub priority_threshold : ℕ
  pub enable : List ℕ
  pub pending : List ℕ
  pub pending_priority : List ℕ
  pub claimed : List ℕ

-- `plic_t`, with the `mip` registers of the harts, which it drives.
pub record Plic : Type 0 where
  pub contexts : List Context
  pub num_ids : ℕ
  pub num_ids_word : ℕ
  pub max_prio : ℕ
  pub priority : List ℕ
  pub level : List ℕ
  pub mips : List ℕ

abbrev pub plic_prio_bits : ℕ
plic_prio_bits = 4

abbrev pub mip_meip : ℕ
mip_meip = 2 ^ 11

abbrev pub mip_seip : ℕ
mip_seip = 2 ^ 9

-- `1 << j` of a `uint32_t`, for j below 32.
abbrev pub mask32 : ℕ → ℕ
mask32 j = 1 <<< j

-- `a[i]` of an array that is 0 outside.
abbrev pub at : List ℕ → ℕ → ℕ
at xs i = get_or xs i 0

-- The locals of `context_best_pending`.
pub record Best : Type 0 where
  pub best_id : ℕ
  pub best_id_prio : ℕ

-- The body of the inner loop.
pub consider : ℕ → Context → ℕ → ℕ → Best → Best
consider num_ids c i j b =
    let id = i * 32 + j in
    let prio = at c.pending_priority id in
    if leb num_ids id
      || not (any_bit (at c.pending i) (mask32 j))
      || any_bit (at c.claimed i) (mask32 j)
    then b
    else if b.best_id == 0 || ltb b.best_id_prio prio
    then record { best_id = id; best_id_prio = prio }
    else b

-- The inner loop at bit `j`, with the rounds that are left.
pub scan_bits : ℕ → Context → ℕ → ℕ → ℕ → Best → Best
scan_bits num_ids c i zero j b = b
scan_bits num_ids c i (suc left) j b = scan_bits num_ids c i left (j + 1) (consider num_ids c i j b)

-- The outer loop at word `i`.
pub scan_words : ℕ → Context → ℕ → ℕ → Best → Best
scan_words num_ids c zero i b = b
scan_words num_ids c (suc left) i b =
    let b' = if at c.pending i == 0 then b else scan_bits num_ids c i 32 0 b in
    scan_words num_ids c left (i + 1) b'

pub context_best_pending : Plic → Context → ℕ
context_best_pending p c =
    let start : Best = record { best_id = 0; best_id_prio = 0 } in
    let b = scan_words p.num_ids c p.num_ids_word 0 start in
    if leb b.best_id_prio c.priority_threshold then 0 else b.best_id

pub context_update : Plic → Context → Plic
context_update p c =
    let best_id = context_best_pending p c in
    let mask = if c.mmode then mip_meip else mip_seip in
    record p {
      mips =
          set p.mips c.proc
            (backdoor_write_with_mask (at p.mips c.proc) mask (if best_id == 0 then 0 else mask));
    }

-- A context that is changed in place, through its index.
pub put_context : Plic → ℕ → Context → Plic
put_context p k c = record p { contexts = set p.contexts k c }

pub context_claim : Plic → ℕ → Context → Plic × ℕ
context_claim p k c =
    let best_id = context_best_pending p c in
    let best_id_word = best_id / 32 in
    let best_id_mask = mask32 (best_id % 32) in
    let c' = if best_id == 0 then c else record c {
      claimed = set c.claimed best_id_word (bit_or (at c.claimed best_id_word) best_id_mask);
    } in
    (context_update (put_context p k c') c', best_id)
