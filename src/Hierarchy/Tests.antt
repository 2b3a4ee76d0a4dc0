-- ===== src/Hierarchy/Tests.antt =====
-- Instances for riscv/cache_hierarchy.cc: two levels of caches of two sets of two lines.
use spike_online.Cache.{Cache, cache_lru, cache_write_back, cache_read, cache_write, empty_line}
use spike_online.Cache.Valid.{WellFormed}
use spike_online.Cache.Access.{Counted}
use spike_online.Hierarchy.{Hierarchy, Randoms, cache_hierarchy_access}
use spike_online.Hierarchy.Latency.{
  Sound, cache_hierarchy_access-Sound, cache_hierarchy_access-hits_next,
}
use spike_online.Cache
use spike_online.Hierarchy
use spike_online.Base.{
  ℕ, zero, suc, ◌+◌, ◌-◌, ◌^◌, ◌<◌, ◌≡◌, refl, arith, true, false, length, replicate, get_or, [],
  ◌∷◌, u64,
}

abbrev empty : Cache
empty = record {
  size = 64;
  ways = 2;
  line_size = 16;
  sets = 2;
  replacement = cache_lru;
  write_policy = cache_write_back;
  index_bits = 1;
  offset_bits = 4;
  index_mask = 1;
  tag_mask = 2 ^ 64 - 32;
  cache_sets = replicate 2 (record { lines = replicate 2 empty_line; next_lru = 0 });
  accesses = 0;
  hits = 0;
  misses = 0;
  writebacks = 0;
  reads = 0;
  writes = 0;
}

empty_sound : WellFormed empty × Counted empty
empty_sound = (
  record {
    sets_length = refl;
    lines_length = lines_length;
    ways_pos = omega arith;
    mask = refl;
    enough = omega arith;
  },
  record { by_outcome = refl; by_type = refl },
)
  where
    lines_length :
        (i : ℕ)
        → i < 2
        → length (get_or empty.cache_sets i (record { lines = []; next_lru = 0 })).lines ≡ 2
    lines_length zero h = refl
    lines_length (suc zero) h = refl
    lines_length (suc (suc i)) h = absurd (omega (arith, h))

abbrev hierarchy : Hierarchy
hierarchy = record {
  l1_icache = empty;
  l1_dcache = empty;
  l2_cache = empty;
  l1_hit_latency = 1;
  l2_hit_latency = 8;
  memory_latency = 100;
  total_cycles = 0;
  memory_accesses = 0;
}

hierarchy-Sound : Sound hierarchy
hierarchy-Sound = record { icache = empty_sound; dcache = empty_sound; l2 = empty_sound }

abbrev zeros : Randoms
zeros = record { for_l1 = 0; for_l2 = 0; for_writeback = 0 }

cache_hierarchy_access-Sound_test :
    Sound (cache_hierarchy_access hierarchy 0x1234 cache_write false zeros).0
cache_hierarchy_access-Sound_test =
    cache_hierarchy_access-Sound hierarchy 0x1234 cache_write false zeros hierarchy-Sound

abbrev later : Hierarchy
later = (cache_hierarchy_access hierarchy 0x1234 cache_write false zeros).0

cache_hierarchy_access-hits_next_example :
    ((cache_hierarchy_access later 0x1234 cache_read false zeros).1.hit ≡ true)
    × ((cache_hierarchy_access later 0x1234 cache_read false zeros).1.latency ≡ 1)
    × ((cache_hierarchy_access later 0x1234 cache_read false zeros).0.total_cycles
        ≡ u64 (later.total_cycles + 1))
    × ((cache_hierarchy_access later 0x1234 cache_read false zeros).0.l2_cache ≡ later.l2_cache)
cache_hierarchy_access-hits_next_example =
    cache_hierarchy_access-hits_next hierarchy 0x1234 cache_write cache_read false zeros zeros
      hierarchy-Sound

-- A data cache with a dirty line for 0xa4, which a read of 0xe0 may replace.
abbrev dirty_cache : Cache
dirty_cache = record empty {
  cache_sets =
      record {
        lines =
            record { tag = 5; state = Cache.cache_dirty; lru_counter = 0; data_addr = 0 }
            ∷ record { tag = 6; state = Cache.cache_valid; lru_counter = 1; data_addr = 0 }
            ∷ [];
        next_lru = 2;
      }
      ∷ record { lines = replicate 2 empty_line; next_lru = 0 }
      ∷ [];
}

abbrev with_dirty : Hierarchy.Hierarchy
with_dirty = record hierarchy { l1_dcache = dirty_cache }
