-- ===== src/Cache/Written.antt =====
-- What a write leaves in a write-back cache of riscv/cache_model.cc: a dirty line for its address.
use spike_online.Cache
use spike_online.Cache.Lines.{length-update_lru, update_lru-tag, first_way_zero}
use spike_online.Cache.Valid.{WellFormed, addr_index-lt, stats-WellFormed}
use spike_online.Cache.Access.{victim-lt}
use spike_online.Cache.Dirty.{IsDirty, same_state}
use spike_online.Base.{
  ℕ, ◌<◌, ◌≡◌, refl, ap, ◌∙◌, arith, true, false, inl, inr, some, Option-cases, length, set,
  length-set, get_or-set_self,
}

put_set-has-IsDirty :
    (c : Cache.Cache) (addr w : ℕ) (s : Cache.CacheSet)
    → WellFormed c
    → (Cache.line_at s.lines w).tag ≡ Cache.addr_tag c addr
    → Cache.is_dirty (Cache.line_at s.lines w) ≡ true
    → IsDirty (Cache.put_set c (Cache.addr_index c addr) s) addr w
unfolding IsDirty Cache.put_set Cache.addr_index Cache.addr_tag
put_set-has-IsDirty c addr w s ok tag dirty =
    let placed =
      get_or-set_self c.cache_sets (Cache.addr_index c addr) s Cache.empty_set
        (rw ok.sets_length (addr_index-lt c addr ok)) in
    rw placed (tag, dirty)

written_back :
    (p : Cache.WritePolicy) (old : Cache.State)
    → p ≡ Cache.cache_write_back
    → Cache.written p Cache.cache_write old ≡ Cache.cache_dirty
unfolding Cache.written
written_back p old e = rw e refl

access_hit-has-IsDirty :
    (c : Cache.Cache) (addr way : ℕ)
    → WellFormed c
    → c.write_policy ≡ Cache.cache_write_back
    → Cache.lookup c addr ≡ some way
    → IsDirty (Cache.access_hit c (Cache.addr_index c addr) way Cache.cache_write).0 addr way
unfolding IsDirty Cache.lookup Cache.access_hit Cache.set_state Cache.put_set Cache.addr_index
    Cache.addr_tag Cache.holds
access_hit-has-IsDirty c addr way ok policy found =
    let s = Cache.set_at c (Cache.addr_index c addr) in
    let s' = Cache.update_lru s way in
    let line = Cache.line_at s'.lines way in
    let new : Cache.Line = record line {
      state = Cache.written c.write_policy Cache.cache_write line.state;
    } in
    let (inside, held) = first_way_zero (Cache.holds (Cache.addr_tag c addr)) s.lines way found in
    let inside' : way < length s'.lines = rw (length-update_lru s way) inside in
    let placed = get_or-set_self s'.lines way new Cache.empty_line inside' in
    let (tag, _) = update_lru-tag s way way inside in
    let own : (Cache.line_at s.lines way).tag ≡ Cache.addr_tag c addr = ground (arith, held) in
    put_set-has-IsDirty c addr way (Cache.set_state s' way _) ok (rw placed (tag ∙ own))
      (rw (placed, written_back c.write_policy line.state policy) refl)

access_miss-has-IsDirty :
    (c : Cache.Cache) (addr random : ℕ)
    → WellFormed c
    → c.write_policy ≡ Cache.cache_write_back
    → (w : ℕ) × IsDirty (Cache.access_miss c addr Cache.cache_write random).0 addr w
unfolding IsDirty Cache.access_miss Cache.put_set Cache.addr_index Cache.addr_tag Cache.new_line
access_miss-has-IsDirty c addr random ok policy =
    let s = Cache.set_at c (Cache.addr_index c addr) in
    let way = (Cache.victim c s random).way in
    let new = Cache.new_line c addr Cache.cache_write (Cache.line_at s.lines way) in
    let s' : Cache.CacheSet = record s { lines = set s.lines way new } in
    let inside = victim-lt c s random (ok.lines_length _ (addr_index-lt c addr ok)) ok.ways_pos in
    let inside' : way < length s'.lines = rw (length-set s.lines way new) inside in
    let (tag, state) = update_lru-tag s' way way inside' in
    let placed = get_or-set_self s.lines way new Cache.empty_line inside in
    let fresh : Cache.is_dirty new ≡ true =
      rw (written_back c.write_policy Cache.cache_valid policy) refl in
    (
      way,
      put_set-has-IsDirty c addr way (Cache.update_lru s' way) ok
          (tag ∙ ap (λ (l : Cache.Line). l.tag) placed)
          (same_state new (Cache.line_at (Cache.update_lru s' way).lines way)
            (state ∙ ap (λ (l : Cache.Line). l.state) placed) fresh),
    )

-- A write to a write-back cache leaves a dirty line for its address.
pub write-has-IsDirty :
    (c : Cache.Cache) (addr random : ℕ)
    → WellFormed c
    → c.write_policy ≡ Cache.cache_write_back
    → (w : ℕ) × IsDirty (Cache.cache_access c addr Cache.cache_write random).0 addr w
unfolding IsDirty Cache.cache_access Cache.count_access Cache.lookup Cache.addr_index Cache.addr_tag
write-has-IsDirty c addr random ok policy =
    let counted : WellFormed (Cache.count_access c Cache.cache_write) = stats-WellFormed ok in
    elim (Option-cases (Cache.lookup c addr)) [
      | inl absent ↦
          rw (absent, Cache.cache_access)
            (access_miss-has-IsDirty (Cache.count_access c Cache.cache_write) addr random counted
              policy)
      | inr (way, found) ↦
          rw (found, Cache.cache_access)
            (
              way,
              access_hit-has-IsDirty (Cache.count_access c Cache.cache_write) addr way counted
                  policy found,
            )
    ]

-- An access does not change the policy, and a hit writes nothing back.
pub write_policy-cache_access :
    (c : Cache.Cache) (addr : ℕ) (type : Cache.AccessType) (random : ℕ)
    → (Cache.cache_access c addr type random).0.write_policy ≡ c.write_policy
unfolding Cache.cache_access Cache.access_hit Cache.access_miss Cache.put_set Cache.count_access
write_policy-cache_access c addr type random = elim (Option-cases (Cache.lookup c addr)) [
  | inl absent ↦ rw (absent, Cache.cache_access) refl
  | inr (way, found) ↦ rw (found, Cache.cache_access) refl
]

pub hit-writes_nothing_back :
    (c : Cache.Cache) (addr : ℕ) (type : Cache.AccessType) (random : ℕ)
    → (Cache.cache_access c addr type random).1.hit ≡ true
    → (Cache.cache_access c addr type random).1.writeback_needed ≡ false
unfolding Cache.cache_access Cache.access_hit Cache.access_miss
hit-writes_nothing_back c addr type random = elim (Option-cases (Cache.lookup c addr)) [
  | inl absent ↦ rw (absent, Cache.cache_access) (λ e. cc)
  | inr (way, found) ↦ rw (found, Cache.cache_access) (λ e. refl)
]
