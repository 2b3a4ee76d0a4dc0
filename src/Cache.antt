-- ===== src/Cache.antt =====
-- riscv/cache_model.cc: a set-associative cache with its statistics. The lines of a set and the
-- sets of a cache are lists; a loop over the ways walks the list, which has `ways` lines.
pub mod Lines
pub mod Lru
pub mod Valid
pub mod Access
pub mod Address
pub mod Dirty
pub mod Written
mod Tests
use spike_online.Base.{
  ℕ, zero, suc, ◌+◌, ◌-◌, ◌*◌, ◌/◌, ◌%◌, ◌^◌, bit_and, bit_or, Bool, true, false, not, ◌&&◌, ◌||◌,
  Option, none, some, List, [], ◌∷◌, map, length, drop, get_or, set, replicate, if◌then◌else◌, ltb,
  ◌==◌, flip, sub, u32, u64, ◌<<<◌, ◌>>>◌,
}

pub data State : Type 0 where
  cache_invalid : State
  cache_valid : State
  cache_dirty : State

pub data Replacement : Type 0 where
  cache_lru : Replacement
  cache_random : Replacement

pub data WritePolicy : Type 0 where
  cache_write_through : WritePolicy
  cache_write_back : WritePolicy

pub data AccessType : Type 0 where
  cache_read : AccessType
  cache_write : AccessType

pub record Result : Type 0 where
  pub hit : Bool
  pub latency : ℕ
  pub writeback_needed : Bool
  pub writeback_addr : ℕ
  pub l1_miss : Bool
  pub l2_miss : Bool

pub record Line : Type 0 where
  pub tag : ℕ
  pub state : State
  pub lru_counter : ℕ
  pub data_addr : ℕ

pub record CacheSet : Type 0 where
  pub lines : List Line
  pub next_lru : ℕ

pub record Cache : Type 0 where
  pub size : ℕ
  pub ways : ℕ
  pub line_size : ℕ
  pub sets : ℕ
  pub replacement : Replacement
  pub write_policy : WritePolicy
  pub index_bits : ℕ
  pub offset_bits : ℕ
  pub index_mask : ℕ
  pub tag_mask : ℕ
  pub cache_sets : List CacheSet
  pub accesses : ℕ
  pub hits : ℕ
  pub misses : ℕ
  pub writebacks : ℕ
  pub reads : ℕ
  pub writes : ℕ

abbrev pub no_result : Result
no_result = record {
  hit = false;
  latency = 0;
  writeback_needed = false;
  writeback_addr = 0;
  l1_miss = false;
  l2_miss = false;
}

abbrev pub empty_line : Line
empty_line = record { tag = 0; state = cache_invalid; lru_counter = 0; data_addr = 0 }

abbrev pub empty_set : CacheSet
empty_set = record { lines = []; next_lru = 0 }

abbrev pub line_at : List Line → ℕ → Line
line_at ls i = get_or ls i empty_line

abbrev pub set_at : Cache → ℕ → CacheSet
set_at c i = get_or c.cache_sets i empty_set

-- `while (value >>= 1) result++`, on fuel; a `uint32_t` is 0 after at most 32 shifts.
pub log2_loop : ℕ → ℕ → ℕ → ℕ
log2_loop zero value result = result
log2_loop (suc fuel) value result =
    let rest = log2_loop fuel (value >>> 1) (result + 1) in
    if value >>> 1 == 0 then result else rest

pub log2_uint32 : ℕ → ℕ
log2_uint32 value = log2_loop 32 value 0

-- `cache_create` divides by `ways * line_size` first, which is a fault where that product is 0.
pub data Created : Type 0 where
  division_by_zero : Created
  null : Created
  created : Cache → Created

-- Memory is taken to be enough; the name of the cache is left out.
pub cache_create : ℕ → ℕ → ℕ → Replacement → WritePolicy → Created
cache_create size ways line_size replacement write_policy =
    let way_size = u32 (ways * line_size) in
    let sets = size / way_size in
    let index_bits = log2_uint32 sets in
    let offset_bits = log2_uint32 line_size in
    if way_size == 0
    then division_by_zero
    else if sets == 0
    then null
    else created (record {
      size = size;
      ways = ways;
      line_size = line_size;
      sets = sets;
      replacement = replacement;
      write_policy = write_policy;
      index_bits = index_bits;
      offset_bits = offset_bits;
      index_mask = (1 <<< index_bits) - 1;
      tag_mask = flip 64 (u64 (1 <<< (offset_bits + index_bits)) - 1);
      cache_sets = replicate sets (record { lines = replicate ways empty_line; next_lru = 0 });
      accesses = 0;
      hits = 0;
      misses = 0;
      writebacks = 0;
      reads = 0;
      writes = 0;
    })

-- The locals of `find_lru_way`.
pub record Oldest : Type 0 where
  pub lru_way : ℕ
  pub min_lru : ℕ

pub lru_scan : List Line → ℕ → Oldest → Oldest
lru_scan [] i m = m
lru_scan (l ∷ ls) i m =
    lru_scan ls (i + 1)
      (if ltb l.lru_counter m.min_lru then record { lru_way = i; min_lru = l.lru_counter } else m)

pub find_lru_way : CacheSet → ℕ
find_lru_way s =
    let start : Oldest = record { lru_way = 0; min_lru = (line_at s.lines 0).lru_counter } in
    (lru_scan (drop 1 s.lines) 1 start).lru_way

pub min_scan : List Line → ℕ → ℕ
min_scan [] m = m
min_scan (l ∷ ls) m = min_scan ls (if ltb l.lru_counter m then l.lru_counter else m)

pub shift_counter : ℕ → Line → Line
shift_counter m l = record l { lru_counter = sub 32 l.lru_counter m }

pub update_lru : CacheSet → ℕ → CacheSet
update_lru s accessed_way =
    let lines =
      set s.lines accessed_way
        (record (line_at s.lines accessed_way) { lru_counter = s.next_lru }) in
    let next = u32 (s.next_lru + 1) in
    let m = min_scan (drop 1 lines) (line_at lines 0).lru_counter in
    if ltb 1000000 next
    then record { lines = map (shift_counter m) lines; next_lru = sub 32 next m }
    else record { lines = lines; next_lru = next }

abbrev pub state_invalid : State → Bool
state_invalid cache_invalid = true
state_invalid cache_valid = false
state_invalid cache_dirty = false

abbrev pub is_invalid : Line → Bool
is_invalid l = state_invalid l.state

abbrev pub is_dirty : Line → Bool
is_dirty l = elim l.state [ cache_invalid ↦ false | cache_valid ↦ false | cache_dirty ↦ true ]

pub holds : ℕ → Line → Bool
holds tag l = not (is_invalid l) && l.tag == tag

-- A loop over the ways that stops at the first line with a property.
pub first_way : (Line → Bool) → List Line → ℕ → Option ℕ
first_way p [] way = none
first_way p (l ∷ ls) way = let rest = first_way p ls (way + 1) in if p l then some way else rest

unfoldable pub addr_index : Cache → ℕ → ℕ
addr_index c addr = bit_and (addr >>> c.offset_bits) c.index_mask

unfoldable pub addr_tag : Cache → ℕ → ℕ
addr_tag c addr = addr >>> (c.offset_bits + c.index_bits)

-- The state of a line after a write; `old` is its state otherwise.
pub written : WritePolicy → AccessType → State → State
written policy cache_read old = old
written cache_write_through cache_write old = old
written cache_write_back cache_write old = cache_dirty

pub count_access : Cache → AccessType → Cache
count_access c type = record c {
  accesses = u64 (c.accesses + 1);
  reads = elim type [ cache_read ↦ u64 (c.reads + 1) | cache_write ↦ c.reads ];
  writes = elim type [ cache_read ↦ c.writes | cache_write ↦ u64 (c.writes + 1) ];
}

pub set_state : CacheSet → ℕ → State → CacheSet
set_state s way state = record s {
  lines = set s.lines way (record (line_at s.lines way) { state = state });
}

pub put_set : Cache → ℕ → CacheSet → Cache
put_set c i s = record c { cache_sets = set c.cache_sets i s }

-- The branch of a hit in the line `way` of the set `index`.
pub access_hit : Cache → ℕ → ℕ → AccessType → Cache × Result
access_hit c index way type =
    let s = update_lru (set_at c index) way in
    let s' = set_state s way (written c.write_policy type (line_at s.lines way).state) in
    (
      record (put_set c index s') { hits = u64 (c.hits + 1) },
      record no_result { hit = true; latency = 1 },
    )

-- The line that a miss replaces; `random` is what `rand` returns.
pub replaced_way : Cache → CacheSet → ℕ → ℕ
replaced_way c s random = elim c.replacement [
  | cache_lru ↦ find_lru_way s
  | cache_random ↦ random % c.ways
]

-- The line to replace, and whether it has to be written back.
pub record Victim : Type 0 where
  pub way : ℕ
  pub back : Bool

pub victim : Cache → CacheSet → ℕ → Victim
victim c s random = elim (first_way is_invalid s.lines 0) [
  | none ↦
      let way = replaced_way c s random in
      record { way = way; back = is_dirty (line_at s.lines way) }
  | some way ↦ record { way = way; back = false }
]

pub writeback_address : Cache → ℕ → Line → ℕ
writeback_address c index l =
    bit_or (u64 (l.tag <<< (c.offset_bits + c.index_bits))) (u64 (index <<< c.offset_bits))

pub new_line : Cache → ℕ → AccessType → Line → Line
new_line c addr type old = record old {
  tag = addr_tag c addr;
  state = written c.write_policy type cache_valid;
  data_addr = bit_and addr (flip 64 (u64 (1 <<< c.offset_bits) - 1));
}

pub access_miss : Cache → ℕ → AccessType → ℕ → Cache × Result
access_miss c addr type random =
    let index = addr_index c addr in
    let s = set_at c index in
    let v = victim c s random in
    let old = line_at s.lines v.way in
    let s' : CacheSet = record s { lines = set s.lines v.way (new_line c addr type old) } in
    (
      record (put_set c index (update_lru s' v.way)) {
        misses = u64 (c.misses + 1);
        writebacks = if v.back then u64 (c.writebacks + 1) else c.writebacks;
      },
      record no_result {
        latency = 10;
        writeback_needed = v.back;
        writeback_addr = if v.back then writeback_address c index old else 0;
      },
    )

pub lookup : Cache → ℕ → Option ℕ
lookup c addr = first_way (holds (addr_tag c addr)) (set_at c (addr_index c addr)).lines 0

pub cache_access : Cache → ℕ → AccessType → ℕ → Cache × Result
cache_access c addr type random =
    let counted = count_access c type in
    elim (lookup c addr) [
      | some way ↦ access_hit counted (addr_index c addr) way type
      | none ↦ access_miss counted addr type random
    ]

pub cache_reset_stats : Cache → Cache
cache_reset_stats c = record c {
  accesses = 0;
  hits = 0;
  misses = 0;
  writebacks = 0;
  reads = 0;
  writes = 0;
}
