-- ===== src/Hierarchy.antt =====
-- riscv/cache_hierarchy.cc: two first-level caches, for instructions and for data, over a second
-- level. The pointers never are to one cache, so the caches are held by value.
pub mod Latency
pub mod Dirty
mod Tests
use spike_online.Cache.{
  Cache, Result, AccessType, cache_write, no_result, cache_access, cache_reset_stats,
}
use spike_online.Base.{ℕ, ◌+◌, ◌%◌, ◌^◌, Bool, true, false, if◌then◌else◌, u32, u64}

pub record Hierarchy : Type 0 where
  pub l1_icache : Cache
  pub l1_dcache : Cache
  pub l2_cache : Cache
  pub l1_hit_latency : ℕ
  pub l2_hit_latency : ℕ
  pub memory_latency : ℕ
  pub total_cycles : ℕ
  pub memory_accesses : ℕ

pub l1_cache : Hierarchy → Bool → Cache
l1_cache h is_instruction = if is_instruction then h.l1_icache else h.l1_dcache

pub put_l1 : Hierarchy → Bool → Cache → Hierarchy
put_l1 h is_instruction c = record h {
  l1_icache = if is_instruction then c else h.l1_icache;
  l1_dcache = if is_instruction then h.l1_dcache else c;
}

-- What the three accesses to caches take from `rand`.
pub record Randoms : Type 0 where
  pub for_l1 : ℕ
  pub for_l2 : ℕ
  pub for_writeback : ℕ

-- After a miss of the first level, whose answer is `l1_result`.
pub access_l2 : Hierarchy → Result → ℕ → AccessType → Randoms → Hierarchy × Result
access_l2 h l1_result addr type r =
    let (l2, l2_result) = cache_access h.l2_cache addr type r.for_l2 in
    let latency : ℕ =
      if l2_result.hit
      then u32 (h.l1_hit_latency + h.l2_hit_latency)
      else u32 (h.l1_hit_latency + h.l2_hit_latency + h.memory_latency) in
    let extra : ℕ = if l2_result.writeback_needed then h.memory_latency else 0 in
    let written_back : Cache =
      if l1_result.writeback_needed
      then (cache_access l2 l1_result.writeback_addr cache_write r.for_writeback).0
      else l2 in
    (
      record h {
        l2_cache = written_back;
        total_cycles = u64 (u64 (h.total_cycles + extra) + latency);
      },
      record no_result {
        hit = l2_result.hit;
        latency = latency;
        l1_miss = true;
        l2_miss = if l2_result.hit then false else true;
      },
    )

pub cache_hierarchy_access : Hierarchy → ℕ → AccessType → Bool → Randoms → Hierarchy × Result
cache_hierarchy_access h addr type is_instruction r =
    let (l1, l1_result) = cache_access (l1_cache h is_instruction) addr type r.for_l1 in
    let h' = record (put_l1 h is_instruction l1) {
      memory_accesses = u64 (h.memory_accesses + 1);
    } in
    if l1_result.hit
    then (
      record h' { total_cycles = u64 (h.total_cycles + h.l1_hit_latency) },
      record no_result { hit = true; latency = h.l1_hit_latency },
    )
    else access_l2 h' l1_result addr type r

pub cache_hierarchy_reset_stats : Hierarchy → Hierarchy
cache_hierarchy_reset_stats h = record h {
  l1_icache = cache_reset_stats h.l1_icache;
  l1_dcache = cache_reset_stats h.l1_dcache;
  l2_cache = cache_reset_stats h.l2_cache;
  total_cycles = 0;
  memory_accesses = 0;
}
