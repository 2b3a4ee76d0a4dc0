-- ===== src/Cache/Access.antt =====
-- What an access of a cache of riscv/cache_model.cc leaves: its statistics, the line that it was
-- for, and the other sets.
use spike_online.Cache
use spike_online.Cache.Lines.{length-update_lru, update_lru-tag, first_way_zero, first_way_exists}
use spike_online.Cache.Lru.{find_lru_way_lem}
use spike_online.Cache.Valid.{WellFormed, addr_index-lt, stats-WellFormed}
use native.Mathlib.Nat.{mod-lt}
use spike_online.Base.{
  ℕ, ◌+◌, ◌<◌, ◌≡◌, refl, ap, ◌∙◌, arith, true, false, inl, inr, some, Option-cases, length, set,
  length-set, get_or-set_self, ◌==◌, u64,
}

-- The 64-bit counters add up: hits and misses to the accesses, and reads and writes as well.
pub record Counted (c : Cache.Cache) : Type 0 where
  pub by_outcome : u64 (c.hits + c.misses) ≡ c.accesses
  pub by_type : u64 (c.reads + c.writes) ≡ c.accesses

by_type-count_access :
    (c : Cache.Cache) (type : Cache.AccessType)
    → u64 (c.reads + c.writes) ≡ c.accesses
    → u64 ((Cache.count_access c type).reads + (Cache.count_access c type).writes)
      ≡ u64 (c.accesses + 1)
unfolding Cache.count_access
by_type-count_access c Cache.cache_read h = omega (arith, h)
by_type-count_access c Cache.cache_write h = omega (arith, h)

-- Every access keeps the statistics of a cache consistent.
pub cache_access-Counted :
    (c : Cache.Cache) (addr : ℕ) (type : Cache.AccessType) (random : ℕ)
    → Counted c
    → Counted (Cache.cache_access c addr type random).0
unfolding Cache.cache_access Cache.access_hit Cache.access_miss Cache.put_set Cache.count_access
cache_access-Counted c addr type random ok =
    let types = by_type-count_access c type ok.by_type in
    let outcomes = ok.by_outcome in
    elim (Option-cases (Cache.lookup c addr)) [
      | inl absent ↦
          rw (absent, Cache.cache_access)
            (record { by_outcome = omega (arith, outcomes); by_type = types })
      | inr (way, found) ↦
          rw (found, Cache.cache_access)
            (record { by_outcome = omega (arith, outcomes); by_type = types })
    ]

keeps_valid :
    (p : Cache.WritePolicy) (type : Cache.AccessType) (s : Cache.State)
    → Cache.state_invalid s ≡ false
    → Cache.state_invalid (Cache.written p type s) ≡ false
unfolding Cache.written
keeps_valid p Cache.cache_read s h = h
keeps_valid Cache.cache_write_through Cache.cache_write s h = h
keeps_valid Cache.cache_write_back Cache.cache_write s h = refl

holds-written :
    (p : Cache.WritePolicy) (type : Cache.AccessType) (tag : ℕ) (l l' : Cache.Line)
    → l'.tag ≡ l.tag
    → l'.state ≡ l.state
    → Cache.holds tag l ≡ true
    → Cache.holds tag (record l' { state = Cache.written p type l'.state }) ≡ true
unfolding Cache.holds
holds-written p type tag l l' e f h =
    let valid : Cache.state_invalid l'.state ≡ false = rw f (ground (arith, h)) in
    let tags : (l'.tag == tag) ≡ true = rw e (ground (arith, h)) in
    rw (keeps_valid p type l'.state valid, tags) refl

holds_of_same :
    (tag : ℕ) (l l' : Cache.Line)
    → l'.tag ≡ l.tag
    → l'.state ≡ l.state
    → Cache.holds tag l ≡ true
    → Cache.holds tag l' ≡ true
unfolding Cache.holds
holds_of_same tag l l' e f h = rw (e, f) h

-- The address is found in a set that is put in place and holds its tag.
lookup-put_set :
    (c : Cache.Cache) (addr way : ℕ) (s : Cache.CacheSet)
    → WellFormed c
    → way < length s.lines
    → Cache.holds (Cache.addr_tag c addr) (Cache.line_at s.lines way) ≡ true
    → (w : ℕ) × (Cache.lookup (Cache.put_set c (Cache.addr_index c addr) s) addr ≡ some w)
unfolding Cache.lookup Cache.put_set Cache.addr_index Cache.addr_tag
lookup-put_set c addr way s ok h held =
    let inside = addr_index-lt c addr ok in
    let (w, found) = first_way_exists (Cache.holds (Cache.addr_tag c addr)) s.lines 0 way h held in
    let same =
      get_or-set_self c.cache_sets (Cache.addr_index c addr) s Cache.empty_set
        (rw ok.sets_length inside) in
    (
      w,
      ap (λ (t : Cache.CacheSet). Cache.first_way (Cache.holds (Cache.addr_tag c addr)) t.lines 0)
            same
          ∙ found,
    )

-- A hit leaves the line that was hit in its set.
lookup-access_hit :
    (c : Cache.Cache) (addr way : ℕ) (type : Cache.AccessType)
    → WellFormed c
    → Cache.lookup c addr ≡ some way
    → (w : ℕ) × (Cache.lookup (Cache.access_hit c (Cache.addr_index c addr) way type).0 addr
        ≡ some w)
unfolding Cache.lookup Cache.access_hit Cache.put_set Cache.set_state Cache.addr_index
    Cache.addr_tag
lookup-access_hit c addr way type ok found =
    let s = Cache.set_at c (Cache.addr_index c addr) in
    let s' = Cache.update_lru s way in
    let line = Cache.line_at s'.lines way in
    let new : Cache.Line = record line { state = Cache.written c.write_policy type line.state } in
    let (inside, held) = first_way_zero (Cache.holds (Cache.addr_tag c addr)) s.lines way found in
    let (tag, state) = update_lru-tag s way way inside in
    let inside' : way < length s'.lines = rw (length-update_lru s way) inside in
    let held' =
      holds-written c.write_policy type (Cache.addr_tag c addr) (Cache.line_at s.lines way) line tag
        state held in
    lookup-put_set c addr way (Cache.set_state s' way _) ok
      (rw (length-set s'.lines way new) inside')
      (rw (get_or-set_self s'.lines way new Cache.empty_line inside') held')

replaced_way-lt :
    (r : Cache.Replacement) (c : Cache.Cache) (s : Cache.CacheSet) (random : ℕ)
    → c.replacement ≡ r
    → length s.lines ≡ c.ways
    → 0 < c.ways
    → Cache.replaced_way c s random < length s.lines
unfolding Cache.replaced_way
replaced_way-lt Cache.cache_lru c s random e h pos =
    rw (e, Cache.replaced_way) ((find_lru_way_lem s (rw h pos)).0)
replaced_way-lt Cache.cache_random c s random e h pos =
    rw (e, h, Cache.replaced_way) (mod-lt random pos)

pub victim-lt :
    (c : Cache.Cache) (s : Cache.CacheSet) (random : ℕ)
    → length s.lines ≡ c.ways
    → 0 < c.ways
    → (Cache.victim c s random).way < length s.lines
unfolding Cache.victim
victim-lt c s random h pos = elim (Option-cases (Cache.first_way Cache.is_invalid s.lines 0)) [
  | inl full ↦ rw (full, Cache.victim) (replaced_way-lt c.replacement c s random refl h pos)
  | inr (way, free) ↦ rw (free, Cache.victim) (first_way_zero Cache.is_invalid s.lines way free).0
]

holds-new_line :
    (c : Cache.Cache) (addr : ℕ) (type : Cache.AccessType) (old : Cache.Line)
    → Cache.holds (Cache.addr_tag c addr) (Cache.new_line c addr type old) ≡ true
unfolding Cache.holds Cache.new_line
holds-new_line c addr type old =
    rw (keeps_valid c.write_policy type Cache.cache_valid refl) (ground arith)

-- A miss leaves the line that it installs in its set.
lookup-access_miss :
    (c : Cache.Cache) (addr : ℕ) (type : Cache.AccessType) (random : ℕ)
    → WellFormed c
    → (w : ℕ) × (Cache.lookup (Cache.access_miss c addr type random).0 addr ≡ some w)
unfolding Cache.lookup Cache.access_miss Cache.put_set Cache.addr_index Cache.addr_tag
lookup-access_miss c addr type random ok =
    let s = Cache.set_at c (Cache.addr_index c addr) in
    let way = (Cache.victim c s random).way in
    let new = Cache.new_line c addr type (Cache.line_at s.lines way) in
    let s' : Cache.CacheSet = record s { lines = set s.lines way new } in
    let inside = victim-lt c s random (ok.lines_length _ (addr_index-lt c addr ok)) ok.ways_pos in
    let inside' : way < length s'.lines = rw (length-set s.lines way new) inside in
    let (tag, state) = update_lru-tag s' way way inside' in
    let placed = get_or-set_self s.lines way new Cache.empty_line inside in
    lookup-put_set c addr way (Cache.update_lru s' way) ok (rw (length-update_lru s' way) inside') (
      holds_of_same (Cache.addr_tag c addr) new _ (tag ∙ ap (λ (l : Cache.Line). l.tag) placed)
        (state ∙ ap (λ (l : Cache.Line). l.state) placed) (holds-new_line c addr type _))

-- After an access the address is in the cache.
pub lookup-cache_access :
    (c : Cache.Cache) (addr : ℕ) (type : Cache.AccessType) (random : ℕ)
    → WellFormed c
    → (w : ℕ) × (Cache.lookup (Cache.cache_access c addr type random).0 addr ≡ some w)
unfolding Cache.cache_access Cache.count_access Cache.lookup Cache.addr_index Cache.addr_tag
lookup-cache_access c addr type random ok =
    let counted : WellFormed (Cache.count_access c type) = stats-WellFormed ok in
    elim (Option-cases (Cache.lookup c addr)) [
      | inl absent ↦ rw (absent, Cache.cache_access) (lookup-access_miss _ addr type random counted)
      | inr (way, found) ↦
          rw (found, Cache.cache_access)
            (lookup-access_hit (Cache.count_access c type) addr way type counted found)
    ]

cache_access-found :
    (c : Cache.Cache) (addr way : ℕ) (type : Cache.AccessType) (random : ℕ)
    → Cache.lookup c addr ≡ some way
    → (Cache.cache_access c addr type random).1.hit ≡ true
unfolding Cache.cache_access Cache.access_hit
cache_access-found c addr way type random found = rw (found, Cache.cache_access) refl

-- In a well-formed cache, after an access, of whatever kind and outcome, the next access for the
-- same address hits.
pub cache_access-hits_next :
    (c : Cache.Cache) (addr : ℕ) (type type' : Cache.AccessType) (random random' : ℕ)
    → WellFormed c
    → (Cache.cache_access (Cache.cache_access c addr type random).0 addr type' random').1.hit ≡ true
cache_access-hits_next c addr type type' random random' ok =
    let (w, found) = lookup-cache_access c addr type random ok in
    cache_access-found _ addr w type' random' found
