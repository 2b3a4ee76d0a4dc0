-- ===== src/Cache/Dirty.antt =====
-- What becomes of the dirty lines of a cache of riscv/cache_model.cc: no access loses one.
use spike_online.Cache
use spike_online.Cache.Lines.{update_lru-tag, first_way_zero}
use spike_online.Cache.Valid.{WellFormed, addr_index-lt, stats-WellFormed}
use spike_online.Base.{
  ℕ, zero, suc, ◌*◌, ◌/◌, ◌^◌, ◌<◌, ◌≡◌, ◌⊎◌, refl, sym, ap, ◌∙◌, arith, true, false, inl, inr,
  List, [], ◌∷◌, Bool-cases, Option-cases, length, set, get_or-set_self, get_or-set_ne, ◌==◌,
  ==_iff,
}
use spike_online.Cache.Address.{writeback_address_lem}

-- The line `way` of the set of an address is the one for it, and is dirty.
unfoldable pub IsDirty : Cache.Cache → ℕ → ℕ → Type 0
IsDirty c addr way =
    ((Cache.line_at (Cache.set_at c (Cache.addr_index c addr)).lines way).tag
      ≡ Cache.addr_tag c addr)
    × (Cache.is_dirty (Cache.line_at (Cache.set_at c (Cache.addr_index c addr)).lines way) ≡ true)

dirty_inside :
    (ls : List Cache.Line) (i : ℕ) → Cache.is_dirty (Cache.line_at ls i) ≡ true → i < length ls
dirty_inside [] i h = cc
dirty_inside (l ∷ ls) zero h = omega arith
dirty_inside (l ∷ ls) (suc i) h = omega (arith, dirty_inside ls i h)

invalid_clean :
    (s : Cache.State)
    → Cache.state_invalid s ≡ true
    → Cache.is_dirty (record Cache.empty_line { state = s }) ≡ true
    → ⊥
invalid_clean Cache.cache_invalid h k = cc
invalid_clean Cache.cache_valid h k = cc
invalid_clean Cache.cache_dirty h k = cc

written_dirty :
    (p : Cache.WritePolicy) (type : Cache.AccessType) (l : Cache.Line)
    → Cache.is_dirty l ≡ true
    → Cache.is_dirty (record l { state = Cache.written p type l.state }) ≡ true
unfolding Cache.written
written_dirty p Cache.cache_read l h = h
written_dirty Cache.cache_write_through Cache.cache_write l h = h
written_dirty Cache.cache_write_back Cache.cache_write l h = refl

pub same_state :
    (l l' : Cache.Line) → l'.state ≡ l.state → Cache.is_dirty l ≡ true → Cache.is_dirty l' ≡ true
same_state l l' e h = rw e h

-- A dirty line of a set, with the tag that it has.
abbrev KeepsLine : Cache.CacheSet → Cache.CacheSet → ℕ → Type 0
KeepsLine s s' w =
    ((Cache.line_at s'.lines w).tag ≡ (Cache.line_at s.lines w).tag)
    × (Cache.is_dirty (Cache.line_at s'.lines w) ≡ true)

update_lru-KeepsLine :
    (s : Cache.CacheSet) (way w : ℕ)
    → Cache.is_dirty (Cache.line_at s.lines w) ≡ true
    → KeepsLine s (Cache.update_lru s way) w
update_lru-KeepsLine s way w h =
    let (tag, state) = update_lru-tag s way w (dirty_inside s.lines w h) in
    (
      tag,
      same_state (Cache.line_at s.lines w) (Cache.line_at (Cache.update_lru s way).lines w) state h,
    )

hit-KeepsLine :
    (s : Cache.CacheSet) (way w : ℕ) (p : Cache.WritePolicy) (type : Cache.AccessType)
    → Cache.is_dirty (Cache.line_at s.lines w) ≡ true
    → KeepsLine s (Cache.set_state s way (Cache.written p type (Cache.line_at s.lines way).state)) w
unfolding Cache.set_state
hit-KeepsLine s way w p type h =
    let new = λ (k : ℕ). record (Cache.line_at s.lines k) {
      state = Cache.written p type (Cache.line_at s.lines k).state;
    } in
    elim (Bool-cases (way == w)) [
      | inl t ↦
          let same : way ≡ w = (==_iff way w).0 t in
          let placed =
            get_or-set_self s.lines w (new w) Cache.empty_line (dirty_inside s.lines w h) in
          rw (same, placed) (refl, written_dirty p type (Cache.line_at s.lines w) h)
      | inr f ↦
          let other = get_or-set_ne s.lines way w (new way) Cache.empty_line (ground (arith, f)) in
          rw other (refl, h)
    ]

-- A set that is put in place, where it keeps the line if the line is in that set.
put_set-IsDirty :
    (c : Cache.Cache) (index addr w : ℕ) (s' : Cache.CacheSet)
    → WellFormed c
    → index < c.sets
    → IsDirty c addr w
    → (index ≡ Cache.addr_index c addr → KeepsLine (Cache.set_at c index) s' w)
    → IsDirty (Cache.put_set c index s') addr w
unfolding IsDirty Cache.put_set Cache.addr_index Cache.addr_tag
put_set-IsDirty c index addr w s' ok h (tag, dirty) keeps =
    elim (Bool-cases (index == Cache.addr_index c addr)) [
      | inl t ↦
          let same : index ≡ Cache.addr_index c addr = (==_iff _ _).0 t in
          let (tag', dirty') = keeps same in
          let placed =
            get_or-set_self c.cache_sets index s' Cache.empty_set (rw ok.sets_length h) in
          rw (sym same, placed)
            (
              tag' ∙ ap (λ (i : ℕ). (Cache.line_at (Cache.set_at c i).lines w).tag) same ∙ tag,
              dirty',
            )
      | inr f ↦
          let other =
            get_or-set_ne c.cache_sets index (Cache.addr_index c addr) s' Cache.empty_set
              (ground (arith, f)) in
          rw other (tag, dirty)
    ]

dirty_at :
    (c : Cache.Cache) (index addr w : ℕ)
    → index ≡ Cache.addr_index c addr
    → IsDirty c addr w
    → Cache.is_dirty (Cache.line_at (Cache.set_at c index).lines w) ≡ true
unfolding IsDirty
dirty_at c index addr w same (tag, dirty) = rw same dirty

access_hit-IsDirty :
    (c : Cache.Cache) (index way addr w : ℕ) (type : Cache.AccessType)
    → WellFormed c
    → index < c.sets
    → IsDirty c addr w
    → IsDirty (Cache.access_hit c index way type).0 addr w
unfolding IsDirty Cache.access_hit Cache.put_set Cache.addr_index Cache.addr_tag
access_hit-IsDirty c index way addr w type ok h d = put_set-IsDirty c index addr w _ ok h d λ same.
    let s = Cache.set_at c index in
    let (tag, dirty) = update_lru-KeepsLine s way w (dirty_at c index addr w same d) in
    let (tag', dirty') = hit-KeepsLine (Cache.update_lru s way) way w c.write_policy type dirty in
    (tag' ∙ tag, dirty')

victim_dirty :
    (c : Cache.Cache) (s : Cache.CacheSet) (random : ℕ)
    → Cache.is_dirty (Cache.line_at s.lines (Cache.victim c s random).way) ≡ true
    → (Cache.victim c s random).back ≡ true
unfolding Cache.victim
victim_dirty c s random = elim (Option-cases (Cache.first_way Cache.is_invalid s.lines 0)) [
  | inl full ↦ rw (full, Cache.victim) (λ h. h)
  | inr (way, free) ↦
      rw (free, Cache.victim)
        (λ h. absurd (
          invalid_clean (Cache.line_at s.lines way).state
            (first_way_zero Cache.is_invalid s.lines way free).1 h))
]

-- What an access does to a dirty line that the cache holds for `addr`: it keeps it, or answers that the
-- line has to be written back, to its address.
unfoldable pub KeepsOrWritesBack : Cache.Cache × Cache.Result → Cache.Cache → ℕ → ℕ → Type 0
KeepsOrWritesBack (c', result) c addr w =
    IsDirty c' addr w
    ⊎ ((result.writeback_needed ≡ true)
        × (result.writeback_addr ≡ addr / 2 ^ c.offset_bits * 2 ^ c.offset_bits))

other_line :
    (s : Cache.CacheSet) (way w : ℕ) (new : Cache.Line)
    → (way == w) ≡ false
    → Cache.is_dirty (Cache.line_at s.lines w) ≡ true
    → KeepsLine s (Cache.update_lru (record s { lines = set s.lines way new }) way) w
other_line s way w new f h =
    let s' : Cache.CacheSet = record s { lines = set s.lines way new } in
    let other : Cache.line_at s'.lines w ≡ Cache.line_at s.lines w =
      get_or-set_ne s.lines way w new Cache.empty_line (ground (arith, f)) in
    let (tag, dirty) = update_lru-KeepsLine s' way w (rw other h) in
    (tag ∙ ap (λ (l : Cache.Line). l.tag) other, dirty)

access_miss-KeepsOrWritesBack :
    (c : Cache.Cache) (new addr w : ℕ) (type : Cache.AccessType) (random : ℕ)
    → WellFormed c
    → addr < 2 ^ 64
    → IsDirty c addr w
    → KeepsOrWritesBack (Cache.access_miss c new type random) c addr w
unfolding KeepsOrWritesBack IsDirty Cache.access_miss Cache.put_set Cache.addr_index Cache.addr_tag
access_miss-KeepsOrWritesBack c new addr w type random ok lt d =
    let index = Cache.addr_index c new in
    let s = Cache.set_at c index in
    let way = (Cache.victim c s random).way in
    let s' =
      Cache.update_lru
        (record s {
          lines = set s.lines way (Cache.new_line c new type (Cache.line_at s.lines way));
        })
        way in
    let kept = λ (keeps : index ≡ Cache.addr_index c addr → KeepsLine s s' w).
      put_set-IsDirty c index addr w s' ok (addr_index-lt c new ok) d keeps in
    elim (Bool-cases (index == Cache.addr_index c addr)) [
      | inr f ↦ inl (kept (λ same. absurd (ground (arith, same, f))))
      | inl t ↦
          let same : index ≡ Cache.addr_index c addr = (==_iff _ _).0 t in
          let dirty = dirty_at c index addr w same d in
          elim (Bool-cases (way == w)) [
            | inr f ↦ inl (kept (λ _. other_line s way w _ f dirty))
            | inl v ↦
                let at : way ≡ w = (==_iff _ _).0 v in
                let back = victim_dirty c s random (rw at dirty) in
                let tag : (Cache.line_at s.lines way).tag ≡ Cache.addr_tag c addr =
                  rw (at, same) d.0 in
                inr (
                  back,
                  rw back (
                      writeback_address_lem c index addr (Cache.line_at s.lines way) lt ok.mask same
                        tag),
                )
          ]
    ]

-- No access of a well-formed cache loses a dirty line: afterwards the line stands where it stood, still
-- dirty and with its tag, or the answer asks for it to be written back to the address of its first
-- byte.
pub cache_access-KeepsOrWritesBack :
    (c : Cache.Cache) (new addr w : ℕ) (type : Cache.AccessType) (random : ℕ)
    → WellFormed c
    → addr < 2 ^ 64
    → IsDirty c addr w
    → KeepsOrWritesBack (Cache.cache_access c new type random) c addr w
unfolding Cache.cache_access Cache.count_access KeepsOrWritesBack IsDirty Cache.addr_index
    Cache.addr_tag
cache_access-KeepsOrWritesBack c new addr w type random ok lt d =
    let counted : WellFormed (Cache.count_access c type) = stats-WellFormed ok in
    elim (Option-cases (Cache.lookup c new)) [
      | inl absent ↦
          rw (absent, Cache.cache_access)
            (access_miss-KeepsOrWritesBack (Cache.count_access c type) new addr w type random
              counted lt d)
      | inr (way, found) ↦
          rw (found, Cache.cache_access)
            (inl (
              access_hit-IsDirty (Cache.count_access c type) (Cache.addr_index c new) way addr w
                type counted (addr_index-lt c new ok) d))
    ]
