-- ===== src/Cache/Tests.antt =====
-- Instances for riscv/cache_model.cc: a cache of two sets of two lines of 16 bytes.
use spike_online.Cache
use spike_online.Cache.Lru.{find_lru_way_lem}
use spike_online.Cache.Valid.{WellFormed, cache_create-WellFormed, cache_access-WellFormed}
use spike_online.Cache.Dirty.{KeepsOrWritesBack, IsDirty, cache_access-KeepsOrWritesBack}
use spike_online.Cache.Access.{Counted, cache_access-Counted, cache_access-hits_next}
use spike_online.Base.{
  ℕ, zero, suc, length, ◌-◌, ◌^◌, ◌<◌, ◌≤◌, ◌≡◌, refl, arith, true, [], ◌∷◌, replicate,
}

abbrev empty : Cache.Cache
empty = record {
  size = 64;
  ways = 2;
  line_size = 16;
  sets = 2;
  replacement = Cache.cache_lru;
  write_policy = Cache.cache_write_back;
  index_bits = 1;
  offset_bits = 4;
  index_mask = 1;
  tag_mask = 2 ^ 64 - 32;
  cache_sets = replicate 2 (record { lines = replicate 2 Cache.empty_line; next_lru = 0 });
  accesses = 0;
  hits = 0;
  misses = 0;
  writebacks = 0;
  reads = 0;
  writes = 0;
}

empty_created :
    Cache.cache_create 64 2 16 Cache.cache_lru Cache.cache_write_back ≡ Cache.created empty
unfolding Cache.cache_create Cache.log2_uint32 Cache.log2_loop
empty_created = refl

cache_create-WellFormed_test : WellFormed empty × (empty.ways ≡ 2)
cache_create-WellFormed_test =
    cache_create-WellFormed 64 2 16 Cache.cache_lru Cache.cache_write_back empty empty_created

empty-WellFormed : WellFormed empty
empty-WellFormed = cache_create-WellFormed_test.0

cache_access-WellFormed_test : WellFormed (Cache.cache_access empty 0x1234 Cache.cache_write 0).0
cache_access-WellFormed_test =
    cache_access-WellFormed empty 0x1234 Cache.cache_write 0 empty-WellFormed

empty-Counted : Counted empty
empty-Counted = record { by_outcome = refl; by_type = refl }

cache_access-Counted_example : Counted (Cache.cache_access empty 0x1234 Cache.cache_write 0).0
cache_access-Counted_example = cache_access-Counted empty 0x1234 Cache.cache_write 0 empty-Counted

cache_access-hits_next_example :
    (Cache.cache_access
      (Cache.cache_access empty 0x1234 Cache.cache_write 0).0
      0x1234
      Cache.cache_read
      0).1.hit
    ≡ true
cache_access-hits_next_example =
    cache_access-hits_next empty 0x1234 Cache.cache_write Cache.cache_read 0 0 empty-WellFormed

abbrev line : ℕ → Cache.Line
line counter = record { tag = 5; state = Cache.cache_valid; lru_counter = counter; data_addr = 0 }

abbrev full_set : Cache.CacheSet
full_set = record { lines = line 4 ∷ line 2 ∷ line 9 ∷ []; next_lru = 10 }

find_lru_way_lem_test :
    (Cache.find_lru_way full_set < 3)
    × ((j : ℕ)
        → j < 3
        → (Cache.line_at full_set.lines (Cache.find_lru_way full_set)).lru_counter
          ≤ (Cache.line_at full_set.lines j).lru_counter)
find_lru_way_lem_test = find_lru_way_lem full_set (omega arith)

-- A set of dirty lines, and a read that replaces the older of them.
abbrev dirty_line : ℕ → ℕ → Cache.Line
dirty_line tag counter = record {
  tag = tag;
  state = Cache.cache_dirty;
  lru_counter = counter;
  data_addr = 0;
}

abbrev dirty_cache : Cache.Cache
dirty_cache = record empty {
  cache_sets =
      record { lines = dirty_line 5 0 ∷ dirty_line 6 1 ∷ []; next_lru = 2 }
      ∷ record { lines = replicate 2 Cache.empty_line; next_lru = 0 }
      ∷ [];
}

dirty_cache-WellFormed : WellFormed dirty_cache
dirty_cache-WellFormed = record {
  sets_length = refl;
  lines_length = lines_length;
  ways_pos = omega arith;
  mask = refl;
  enough = omega arith;
}
  where
    lines_length : (i : ℕ) → i < 2 → length (Cache.set_at dirty_cache i).lines ≡ 2
    lines_length zero h = refl
    lines_length (suc zero) h = refl
    lines_length (suc (suc i)) h = absurd (omega (arith, h))

first_line : IsDirty dirty_cache 0xa4 0
unfolding IsDirty Cache.addr_index Cache.addr_tag
first_line = (refl, refl)

replaced_test :
    ((Cache.cache_access dirty_cache 0xe0 Cache.cache_read 0).1.writeback_needed ≡ true)
    × ((Cache.cache_access dirty_cache 0xe0 Cache.cache_read 0).1.writeback_addr ≡ 0xa0)
unfolding Cache.cache_access Cache.lookup Cache.first_way Cache.holds Cache.addr_index
    Cache.addr_tag Cache.access_miss Cache.victim Cache.replaced_way Cache.find_lru_way
    Cache.lru_scan Cache.writeback_address Cache.count_access
replaced_test = (refl, refl)

cache_access-KeepsOrWritesBack_example :
    KeepsOrWritesBack (Cache.cache_access dirty_cache 0xe0 Cache.cache_read 0) dirty_cache 0xa4 0
cache_access-KeepsOrWritesBack_example =
    cache_access-KeepsOrWritesBack dirty_cache 0xe0 0xa4 0 Cache.cache_read 0 dirty_cache-WellFormed
      (omega arith) first_line
