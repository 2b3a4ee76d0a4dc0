-- ===== src/CacheSim/Reach.antt =====
-- Every state of the caches of riscv/cachesim.cc that accesses and invalidations lead to.
use spike_online.CacheSim.{
  CacheSim, valid, dirty, next, shift_loop, init, check_tag, victim_place, tag_of, victimize,
  count_access, count_miss, mark_dirty, is_dirty_line, access_at, access, clean_line, inval_line,
  clean_at, clean_loop, clean_invalidate,
}
use spike_online.CacheSim.Hits.{
  WellFormed, count_access-WellFormed, count_miss-WellFormed, Holds, access-Holds, hit_or-cases,
}
use spike_online.Base.{
  ℕ, zero, suc, ◌+◌, ◌-◌, ◌*◌, ◌^◌, ◌≤◌, ◌<◌, ◌≡◌, ◌∙◌, arith, bit_and, bit_or, flip, ◌<<<◌, u64,
  any_bit, Bool, true, false, ◌&&◌, ◌||◌, Option, none, some, List, [], ◌∷◌, length, length-set,
  length-replicate, get_or, set, if◌then◌else◌, ltb, ◌==◌, if_both, if_cases,
}

-- Every cache of a list has its shape.
pub AllFormed : List CacheSim → Type 0
AllFormed [] = 0 ≤ 0
AllFormed (s ∷ handler) = WellFormed s × AllFormed handler

set_tag-WellFormed :
    (s : CacheSim) (place tag n : ℕ)
    → WellFormed s
    → WellFormed (record s { tags = set s.tags place tag; reg = n })
set_tag-WellFormed s place tag n shape = record {
  some_set = shape.some_set;
  some_way = shape.some_way;
  shift = shape.shift;
  tags_length = length-set s.tags place tag ∙ shape.tags_length;
}

victimize-WellFormed : (s : CacheSim) (addr : ℕ) → WellFormed s → WellFormed (victimize s addr).0
unfolding victimize
victimize-WellFormed s addr shape =
    set_tag-WellFormed s (victim_place s addr) (tag_of s addr) (next s.reg) shape

mark_dirty-WellFormed : (s : CacheSim) (o : Option ℕ) → WellFormed s → WellFormed (mark_dirty s o)
unfolding mark_dirty
mark_dirty-WellFormed s none shape = shape
mark_dirty-WellFormed s (some place) shape =
    set_tag-WellFormed s place (bit_or (get_or s.tags place 0) dirty) s.reg shape

access_at-AllFormed :
    (n : ℕ) (levels : List CacheSim) (addr bytes : ℕ) (store : Bool)
    → AllFormed levels
    → AllFormed (access_at n levels addr bytes store)
unfolding access_at AllFormed
access_at-AllFormed zero levels addr bytes store h = h
access_at-AllFormed (suc n) [] addr bytes store h = h
access_at-AllFormed (suc n) (s ∷ handler) addr bytes store (shape, rest) =
    let counted = count_access s bytes store in
    let shape' = count_access-WellFormed s bytes store shape in
    let out = victimize (count_miss counted store) addr in
    let dirty_addr = u64 (bit_and out.1 (flip 64 (bit_or valid dirty)) <<< s.idx_shift) in
    let after_write =
      if is_dirty_line out.1 then access_at n handler dirty_addr s.linesz true else handler in
    let missed =
      if is_dirty_line out.1
      then record (out.0) { writebacks = u64 (out.0.writebacks + 1) }
      else out.0 in
    let written =
      if_both AllFormed (is_dirty_line out.1)
        (access_at-AllFormed n handler dirty_addr s.linesz true rest) rest in
    let filled =
      access_at-AllFormed n after_write (bit_and addr (flip 64 (s.linesz - 1))) s.linesz false
        written in
    let replaced =
      victimize-WellFormed (count_miss counted store) addr
        (count_miss-WellFormed counted store shape') in
    let missed_shape : WellFormed missed =
      if_both WellFormed (is_dirty_line out.1) replaced replaced in
    hit_or-cases AllFormed (check_tag counted addr) _ _
      (λ place e.
        (if_both WellFormed store (mark_dirty-WellFormed counted (some place) shape') shape', rest))
      (
        if_both WellFormed store (mark_dirty-WellFormed missed (check_tag missed addr) missed_shape)
            missed_shape,
        filled,
      )

clean_at-WellFormed :
    (s : CacheSim) (o : Option ℕ) (clean inval : Bool)
    → WellFormed s
    → WellFormed (clean_at s o clean inval)
unfolding clean_line inval_line
clean_at-WellFormed s none clean inval shape = shape
clean_at-WellFormed s (some place) clean inval shape =
    let cleaned = clean_line s place clean in
    let kept : WellFormed cleaned =
      if_both WellFormed (clean && any_bit (get_or s.tags place 0) dirty)
        (set_tag-WellFormed s place (bit_and (get_or s.tags place 0) (flip 64 dirty)) s.reg shape)
        shape in
    if_both WellFormed inval
      (set_tag-WellFormed cleaned place (bit_and (get_or cleaned.tags place 0) (flip 64 valid))
        cleaned.reg kept)
      kept

clean_loop-WellFormed :
    (n : ℕ) (s : CacheSim) (addr : ℕ) (clean inval : Bool)
    → WellFormed s
    → WellFormed (clean_loop n s addr clean inval)
unfolding clean_loop
clean_loop-WellFormed zero s addr clean inval shape = shape
clean_loop-WellFormed (suc n) s addr clean inval shape =
    clean_loop-WellFormed n (clean_at s (check_tag s addr) clean inval) (addr + s.linesz) clean
      inval (clean_at-WellFormed s (check_tag s addr) clean inval shape)

clean_invalidate-AllFormed :
    (levels : List CacheSim) (addr bytes : ℕ) (clean inval : Bool)
    → AllFormed levels
    → AllFormed (clean_invalidate levels addr bytes clean inval)
unfolding clean_invalidate AllFormed
clean_invalidate-AllFormed [] addr bytes clean inval h = h
clean_invalidate-AllFormed (s ∷ handler) addr bytes clean inval (shape, rest) = (
  clean_loop-WellFormed _ s _ clean inval shape,
  clean_invalidate-AllFormed handler addr bytes clean inval rest,
)

shift_loop-lower : (fuel x : ℕ) → 8 ≤ x → 2 ≤ shift_loop (suc (suc fuel)) x
unfolding shift_loop
shift_loop-lower fuel x h = ground arith

abbrev FormedOption : Option CacheSim → Type 0
FormedOption none = 0 ≤ 0
FormedOption (some s) = WellFormed s

init-WellFormed : (sets ways linesz : ℕ) → 0 < ways → FormedOption (init sets ways linesz)
unfolding init
init-WellFormed sets ways linesz h =
    if_cases FormedOption (sets == 0 || any_bit sets (sets - 1)) (λ bad. omega arith)
      (λ good.
        if_cases FormedOption (ltb linesz 8 || any_bit linesz (linesz - 1)) (λ bad. omega arith)
          (λ fine. record {
            some_set = positive sets _ good;
            some_way = h;
            shift = shift_loop-lower 62 linesz (at_least linesz _ fine);
            tags_length = length-replicate (sets * ways) 0;
          }))
  where
    positive : (n : ℕ) (b : Bool) → (n == 0 || b) ≡ false → 0 < n
    positive zero b e = cc
    positive (suc n) b e = omega arith

    at_least : (n : ℕ) (b : Bool) → (ltb n 8 || b) ≡ false → 8 ≤ n
    at_least n b e = ground (arith, e)

-- Caches that are created, with at least one way, each with the ones before it as its miss handlers,
-- and then accessed and invalidated through the first.
pub data Reach : List CacheSim → Type 0 where
  memory_side : Reach []
  created :
      {levels : List CacheSim} {s : CacheSim} (sets ways linesz : ℕ)
      → 0 < ways
      → init sets ways linesz ≡ some s
      → Reach levels
      → Reach (s ∷ levels)
  accessed :
      {levels : List CacheSim} (addr bytes : ℕ) (store : Bool)
      → Reach levels
      → Reach (access levels addr bytes store)
  cleaned :
      {levels : List CacheSim} (addr bytes : ℕ) (clean inval : Bool)
      → Reach levels
      → Reach (clean_invalidate levels addr bytes clean inval)

pub Reach-AllFormed : {levels : List CacheSim} → Reach levels → AllFormed levels
unfolding AllFormed access
Reach-AllFormed memory_side = omega arith
Reach-AllFormed (created sets ways linesz h e r) =
    (rw e at (init-WellFormed sets ways linesz h), Reach-AllFormed r)
Reach-AllFormed (accessed {levels} addr bytes store r) =
    access_at-AllFormed (length levels) levels addr bytes store (Reach-AllFormed r)
Reach-AllFormed (cleaned {levels} addr bytes clean inval r) =
    clean_invalidate-AllFormed levels addr bytes clean inval (Reach-AllFormed r)

-- In every state that accesses and invalidations of created caches lead to, an access to a 64-bit
-- address leaves it in the first cache, in a dirty line if the access was a store, whatever the caches
-- behind it are.
pub access-Holds_always :
    (s : CacheSim) (handler : List CacheSim) (addr bytes : ℕ) (store : Bool)
    → Reach (s ∷ handler)
    → addr < 2 ^ 64
    → Holds (access (s ∷ handler) addr bytes store) addr store
unfolding AllFormed
access-Holds_always s handler addr bytes store r bound =
    access-Holds s handler addr bytes store (Reach-AllFormed r).0 bound
