-- ===== src/CacheSim.antt =====
-- `cache_sim_t` of riscv/cachesim.cc and riscv/cachesim.h: the set-associative cache simulator. A cache
-- with its miss handlers is the list of them.
pub mod Hits
pub mod Reach
mod Tests
use spike_online.Base.{
  ℕ, zero, suc, ◌+◌, ◌-◌, ◌*◌, ◌/◌, ◌%◌, ◌^◌, bit_and, bit_or, bit_xor, flip, neg, ◌<<<◌, ◌>>>◌,
  u64, any_bit, Bool, true, false, not, ◌&&◌, ◌||◌, Option, none, some, List, [], ◌∷◌, length,
  get_or, set, replicate, if◌then◌else◌, ltb, leb, ◌==◌,
}

abbrev pub valid : ℕ
valid = 2 ^ 63

abbrev pub dirty : ℕ
dirty = 2 ^ 62

pub record CacheSim : Type 0 where
  pub reg : ℕ
  pub sets : ℕ
  pub ways : ℕ
  pub linesz : ℕ
  pub idx_shift : ℕ
  pub tags : List ℕ
  pub read_accesses : ℕ
  pub read_misses : ℕ
  pub bytes_read : ℕ
  pub write_accesses : ℕ
  pub write_misses : ℕ
  pub bytes_written : ℕ
  pub writebacks : ℕ

-- `lfsr_t::next`, the new value of the register.
pub next : ℕ → ℕ
next reg = bit_xor (reg >>> 1) (bit_and (neg 32 (bit_and reg 1)) 0xd0000001)

-- The loop for `idx_shift`; a line size below 2 ^ 64 takes at most 64 rounds.
pub shift_loop : ℕ → ℕ → ℕ
shift_loop zero x = 0
shift_loop (suc fuel) x = let rest = shift_loop fuel (x >>> 1) in if ltb 1 x then suc rest else 0

-- The constructor with `init`; none where it prints the help text and exits.
pub init : ℕ → ℕ → ℕ → Option CacheSim
init sets ways linesz =
    if sets == 0 || any_bit sets (sets - 1)
    then none
    else if ltb linesz 8 || any_bit linesz (linesz - 1)
    then none
    else some (record {
      reg = 1;
      sets = sets;
      ways = ways;
      linesz = linesz;
      idx_shift = shift_loop 64 linesz;
      tags = replicate (sets * ways) 0;
      read_accesses = 0;
      read_misses = 0;
      bytes_read = 0;
      write_accesses = 0;
      write_misses = 0;
      bytes_written = 0;
      writebacks = 0;
    })

abbrev pub set_index : CacheSim → ℕ → ℕ
set_index s addr = bit_and (addr >>> s.idx_shift) (s.sets - 1)

abbrev pub tag_of : CacheSim → ℕ → ℕ
tag_of s addr = bit_or (addr >>> s.idx_shift) valid

-- The loop of `check_tag`, from place `i` on with `n` ways left.
pub tag_scan : List ℕ → ℕ → ℕ → ℕ → Option ℕ
tag_scan tags tag i zero = none
tag_scan tags tag i (suc n) =
    let rest = tag_scan tags tag (i + 1) n in
    if tag == bit_and (get_or tags i 0) (flip 64 dirty) then some i else rest

-- The place of the line that holds an address.
pub check_tag : CacheSim → ℕ → Option ℕ
check_tag s addr = tag_scan s.tags (tag_of s addr) (set_index s addr * s.ways) s.ways

pub victim_place : CacheSim → ℕ → ℕ
victim_place s addr = set_index s addr * s.ways + next s.reg % s.ways

-- The cache with the new line, and the old one.
pub victimize : CacheSim → ℕ → CacheSim × ℕ
victimize s addr =
    let place = victim_place s addr in
    (record s { reg = next s.reg; tags = set s.tags place (tag_of s addr) }, get_or s.tags place 0)

pub count_access : CacheSim → ℕ → Bool → CacheSim
count_access s bytes true = record s {
  write_accesses = u64 (s.write_accesses + 1);
  bytes_written = u64 (s.bytes_written + bytes);
}
count_access s bytes false = record s {
  read_accesses = u64 (s.read_accesses + 1);
  bytes_read = u64 (s.bytes_read + bytes);
}

pub count_miss : CacheSim → Bool → CacheSim
count_miss s true = record s { write_misses = u64 (s.write_misses + 1) }
count_miss s false = record s { read_misses = u64 (s.read_misses + 1) }

-- `*place |= DIRTY`, of a pointer that `check_tag` returned; nothing for a null pointer, through which
-- the source would write.
pub mark_dirty : CacheSim → Option ℕ → CacheSim
mark_dirty s none = s
mark_dirty s (some place) = record s {
  tags = set s.tags place (bit_or (get_or s.tags place 0) dirty);
}

abbrev pub is_dirty_line : ℕ → Bool
is_dirty_line victim = bit_and victim (bit_or valid dirty) == bit_or valid dirty

abbrev pub hit_or : Option ℕ → (ℕ → List CacheSim) → List CacheSim → List CacheSim
hit_or none hit miss = miss
hit_or (some place) hit miss = hit place

-- `access` of the first of `n` caches. The handler's accesses come before the mark of the own line.
pub access_at : ℕ → List CacheSim → ℕ → ℕ → Bool → List CacheSim
access_at zero levels addr bytes store = levels
access_at (suc n) [] addr bytes store = []
access_at (suc n) (s ∷ handler) addr bytes store =
    let counted = count_access s bytes store in
    let out = victimize (count_miss counted store) addr in
    let written =
      access_at n handler (u64 (bit_and out.1 (flip 64 (bit_or valid dirty)) <<< s.idx_shift))
        s.linesz true in
    let after_write = if is_dirty_line out.1 then written else handler in
    let filled = access_at n after_write (bit_and addr (flip 64 (s.linesz - 1))) s.linesz false in
    let missed =
      if is_dirty_line out.1
      then record (out.0) { writebacks = u64 (out.0.writebacks + 1) }
      else out.0 in
    hit_or (check_tag counted addr)
      (λ place. (if store then mark_dirty counted (some place) else counted) ∷ handler)
      ((if store then mark_dirty missed (check_tag missed addr) else missed) ∷ filled)

pub access : List CacheSim → ℕ → ℕ → Bool → List CacheSim
access levels addr bytes store = access_at (length levels) levels addr bytes store

-- A turn of the loop of `clean_invalidate`.
pub clean_line : CacheSim → ℕ → Bool → CacheSim
clean_line s place clean =
    let line = get_or s.tags place 0 in
    if clean && any_bit line dirty
    then record s {
      writebacks = u64 (s.writebacks + 1);
      tags = set s.tags place (bit_and line (flip 64 dirty));
    }
    else s

pub inval_line : CacheSim → ℕ → Bool → CacheSim
inval_line s place inval =
    if inval
    then record s { tags = set s.tags place (bit_and (get_or s.tags place 0) (flip 64 valid)) }
    else s

abbrev pub clean_at : CacheSim → Option ℕ → Bool → Bool → CacheSim
clean_at s none clean inval = s
clean_at s (some place) clean inval = inval_line (clean_line s place clean) place inval

-- The loop, by the lines that are left: a round goes one line further.
pub clean_loop : ℕ → CacheSim → ℕ → Bool → Bool → CacheSim
clean_loop zero s addr clean inval = s
clean_loop (suc n) s addr clean inval =
    clean_loop n (clean_at s (check_tag s addr) clean inval) (addr + s.linesz) clean inval

abbrev pub end_addr : CacheSim → ℕ → ℕ → ℕ
end_addr s addr bytes = bit_and (u64 (addr + bytes + s.linesz - 1)) (flip 64 (s.linesz - 1))

pub clean_invalidate : List CacheSim → ℕ → ℕ → Bool → Bool → List CacheSim
clean_invalidate [] addr bytes clean inval = []
clean_invalidate (s ∷ handler) addr bytes clean inval =
    let start = bit_and addr (flip 64 (s.linesz - 1)) in
    clean_loop ((end_addr s addr bytes - start) / s.linesz) s start clean inval
    ∷ clean_invalidate handler addr bytes clean inval
