-- ===== src/Plic/Registers.antt =====
-- The register reads and writes of riscv/plic.cc, and the interrupt wires.
use spike_online.Plic.{
  Context, Plic, plic_prio_bits, mask32, at, context_update, put_context, context_claim,
}
use spike_online.Base.{
  ℕ, zero, suc, ◌+◌, ◌-◌, ◌*◌, ◌/◌, ◌%◌, bit_and, bit_or, bit_xor, Bool, true, false, not, ◌&&◌,
  ◌||◌, List, [], ◌∷◌, set, if◌then◌else◌, ltb, leb, ◌==◌, any_bit, flip, ◌<<<◌, ◌>>>◌, u32, u8,
}

-- `priority_read`, on the value that it stores through `val`.
pub priority_read : Plic → ℕ → ℕ
priority_read p offset =
    let id = u32 (offset >>> 2) in if ltb 0 id && ltb id p.num_ids then at p.priority id else 0

pub priority_write : Plic → ℕ → ℕ → Plic
priority_write p offset val =
    let id = u32 (offset >>> 2) in
    if ltb 0 id && ltb id p.num_ids
    then record p { priority = set p.priority id (bit_and val (1 <<< plic_prio_bits - 1)) }
    else p

-- The loop of `pending_read` over the contexts.
pub pending_any : List Context → ℕ → ℕ → ℕ
pending_any [] id_word val = val
pending_any (c ∷ cs) id_word val = pending_any cs id_word (bit_or val (at c.pending id_word))

pub pending_read : Plic → ℕ → ℕ
pending_read p offset =
    let id_word = u32 (offset >>> 2) in
    if ltb id_word p.num_ids_word then pending_any p.contexts id_word 0 else 0

pub context_enable_read : Plic → Context → ℕ → ℕ
context_enable_read p c offset =
    let id_word = u32 (offset >>> 2) in
    if ltb id_word p.num_ids_word then at c.enable id_word else 0

-- The body of the loop of `context_enable_write`.
pub enable_bit : Plic → ℕ → ℕ → ℕ → ℕ → Context → Context
enable_bit p id_word new_val xor_val i c =
    let id = id_word * 32 + i in
    let id_mask = mask32 i in
    if not (any_bit xor_val id_mask)
    then c
    else if any_bit new_val id_mask && any_bit (at p.level id_word) id_mask
    then record c {
      pending = set c.pending id_word (bit_or (at c.pending id_word) id_mask);
      pending_priority = set c.pending_priority id (at p.priority id);
    }
    else if not (any_bit new_val id_mask)
    then record c {
      pending = set c.pending id_word (bit_and (at c.pending id_word) (flip 32 id_mask));
      pending_priority = set c.pending_priority id 0;
      claimed = set c.claimed id_word (bit_and (at c.claimed id_word) (flip 32 id_mask));
    }
    else c

pub enable_bits : Plic → ℕ → ℕ → ℕ → ℕ → ℕ → Context → Context
enable_bits p id_word new_val xor_val zero i c = c
enable_bits p id_word new_val xor_val (suc left) i c =
    enable_bits p id_word new_val xor_val left (i + 1) (enable_bit p id_word new_val xor_val i c)

-- Bit 0 of word 0 cannot be enabled: interrupt source 0 does not exist.
pub enable_value : ℕ → ℕ → ℕ
enable_value id_word val = if id_word == 0 then bit_and val (flip 32 1) else val

pub context_enable_write : Plic → ℕ → Context → ℕ → ℕ → Plic
context_enable_write p k c offset val =
    let id_word = u32 (offset >>> 2) in
    let old_val = at c.enable id_word in
    let new_val = enable_value id_word val in
    let xor_val = bit_xor old_val new_val in
    let c' =
      enable_bits p id_word new_val xor_val 32 0
        (record c { enable = set c.enable id_word new_val }) in
    if leb p.num_ids_word id_word then p else context_update (put_context p k c') c'

-- The value is left at the caller's 0 at a reserved offset.
pub context_read : Plic → ℕ → Context → ℕ → Plic × ℕ
context_read p k c offset =
    if offset == 0
    then (p, c.priority_threshold)
    else if offset == 4
    then context_claim p k c
    else (p, 0)

-- The new state, and whether the write was accepted.
pub context_write : Plic → ℕ → Context → ℕ → ℕ → Plic × Bool
context_write p k c offset val =
    let masked = bit_and val (1 <<< plic_prio_bits - 1) in
    let threshold = record c { priority_threshold = u8 masked } in
    let id_word = val / 32 in
    let id_mask = mask32 (val % 32) in
    let complete = record c {
      claimed = set c.claimed id_word (bit_and (at c.claimed id_word) (flip 32 id_mask));
    } in
    if offset == 0
    then if leb masked p.max_prio
      then (context_update (put_context p k threshold) threshold, true)
      else (p, false)
    else if offset == 4
    then if ltb val p.num_ids && any_bit (at c.enable id_word) id_mask
      then (context_update (put_context p k complete) complete, true)
      else (p, true)
    else (p, false)

-- The wire of a source in a context whose enable bit is set.
pub raise_in : Plic → ℕ → Bool → Context → Context
raise_in p id lvl c =
    let id_word = id / 32 in
    let id_mask = mask32 (id % 32) in
    if lvl
    then record c {
      pending = set c.pending id_word (bit_or (at c.pending id_word) id_mask);
      pending_priority = set c.pending_priority id (at p.priority id);
    }
    else record c {
      pending = set c.pending id_word (bit_and (at c.pending id_word) (flip 32 id_mask));
      pending_priority = set c.pending_priority id 0;
      claimed = set c.claimed id_word (bit_and (at c.claimed id_word) (flip 32 id_mask));
    }

-- The loop over the contexts, which ends at the first that enables the source.
pub raise_first : Plic → ℕ → Bool → ℕ → List Context → Plic
raise_first p id lvl k [] = p
raise_first p id lvl k (c ∷ cs) =
    let c' = raise_in p id lvl c in
    let rest = raise_first p id lvl (k + 1) cs in
    if any_bit (at c.enable (id / 32)) (mask32 (id % 32))
    then context_update (put_context p k c') c'
    else rest

pub set_interrupt_level : Plic → ℕ → Bool → Plic
set_interrupt_level p id lvl =
    let id_word = id / 32 in
    let id_mask = mask32 (id % 32) in
    let word =
      if lvl
      then bit_or (at p.level id_word) id_mask
      else bit_and (at p.level id_word) (flip 32 id_mask) in
    let p' = record p { level = set p.level id_word word } in
    if leb id 0 || leb p.num_ids id then p else raise_first p' id lvl 0 p'.contexts
