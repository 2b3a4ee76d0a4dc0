-- ===== src/CacheSim/Tests.antt =====
-- Runs and instances for the caches of riscv/cachesim.cc: a store and its replacement.
use spike_online.CacheSim.{
  CacheSim, next, shift_loop, init, check_tag, tag_scan, victim_place, victimize, count_access,
  count_miss, mark_dirty, access_at, access, clean_line, inval_line, clean_loop, clean_invalidate,
}
use spike_online.CacheSim.Hits.{Holds}
use spike_online.CacheSim.Reach.{Reach, memory_side, created, access-Holds_always}
use spike_online.Base.{ℕ, ◌≡◌, refl, arith, true, false, some, List, [], ◌∷◌}

abbrev small : CacheSim
small = record {
  reg = 1;
  sets = 2;
  ways = 1;
  linesz = 8;
  idx_shift = 3;
  tags = 0 ∷ 0 ∷ [];
  read_accesses = 0;
  read_misses = 0;
  bytes_read = 0;
  write_accesses = 0;
  write_misses = 0;
  bytes_written = 0;
  writebacks = 0;
}

created_small : init 2 1 8 ≡ some small
unfolding init shift_loop
created_small = refl

abbrev levels : List CacheSim
levels = small ∷ small ∷ []

abbrev stored : List CacheSim
stored = access levels 0x40 4 true

abbrev first_writebacks : List CacheSim → ℕ
first_writebacks [] = 0
first_writebacks (s ∷ handler) = s.writebacks

replaced_test :
    (first_writebacks (access stored 0x50 4 false) ≡ 1)
    × (first_writebacks (access stored 0x44 4 false) ≡ 0)
    × (first_writebacks (clean_invalidate stored 0x40 8 true true) ≡ 1)
unfolding next check_tag tag_scan victim_place victimize count_access count_miss mark_dirty
    access_at access clean_line inval_line clean_loop clean_invalidate
replaced_test = (refl, refl, refl)

two_levels : Reach levels
two_levels =
    created 2 1 8 (omega arith) created_small
      (created 2 1 8 (omega arith) created_small memory_side)

access-Holds_always_example : Holds (access levels 0x40 4 true) 0x40 true
access-Holds_always_example =
    access-Holds_always small (small ∷ []) 0x40 4 true two_levels (omega arith)
