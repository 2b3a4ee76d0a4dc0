-- ===== src/Hierarchy/Latency.antt =====
-- What an access of the hierarchy of riscv/cache_hierarchy.cc costs, and what it leaves.
use spike_online.Cache.{Cache, Result, AccessType, cache_write, cache_access}
use spike_online.Cache.Valid.{WellFormed, cache_access-WellFormed}
use spike_online.Cache.Access.{Counted, cache_access-Counted, cache_access-hits_next}
use spike_online.Hierarchy.{Hierarchy, Randoms, l1_cache, put_l1, access_l2, cache_hierarchy_access}
use spike_online.Base.{ℕ, ◌+◌, ◌≡◌, refl, ap, ◌∙◌, Bool, true, false, Bool-cases, inl, inr, u64}

-- Three caches that keep their shape and whose statistics add up.
pub record Sound (h : Hierarchy) : Type 0 where
  pub icache : WellFormed h.l1_icache × Counted h.l1_icache
  pub dcache : WellFormed h.l1_dcache × Counted h.l1_dcache
  pub l2 : WellFormed h.l2_cache × Counted h.l2_cache

cache_access_sound :
    (c : Cache) (addr : ℕ) (type : AccessType) (random : ℕ)
    → WellFormed c × Counted c
    → WellFormed (cache_access c addr type random).0 × Counted (cache_access c addr type random).0
cache_access_sound c addr type random (w, k) =
    (cache_access-WellFormed c addr type random w, cache_access-Counted c addr type random k)

put_l1-Sound :
    (h : Hierarchy) (is_instruction : Bool) (c : Cache) (n cycles : ℕ)
    → Sound h
    → WellFormed c × Counted c
    → Sound (record (put_l1 h is_instruction c) { memory_accesses = n; total_cycles = cycles })
unfolding put_l1
put_l1-Sound h true c n cycles ok new = record { icache = new; dcache = ok.dcache; l2 = ok.l2 }
put_l1-Sound h false c n cycles ok new = record { icache = ok.icache; dcache = new; l2 = ok.l2 }

l1_cache-Sound :
    (h : Hierarchy) (b : Bool) → Sound h → WellFormed (l1_cache h b) × Counted (l1_cache h b)
unfolding l1_cache
l1_cache-Sound h true ok = ok.icache
l1_cache-Sound h false ok = ok.dcache

access_l2-Sound :
    (h : Hierarchy) (l1_result : Result) (addr : ℕ) (type : AccessType) (r : Randoms)
    → Sound h
    → Sound (access_l2 h l1_result addr type r).0
unfolding access_l2
access_l2-Sound h l1_result addr type r ok =
    let first = cache_access_sound h.l2_cache addr type r.for_l2 ok.l2 in
    elim (Bool-cases l1_result.writeback_needed) [
      | inl t ↦
          rw (t, access_l2)
            (record {
              icache = ok.icache;
              dcache = ok.dcache;
              l2 = cache_access_sound _ l1_result.writeback_addr cache_write r.for_writeback first;
            })
      | inr f ↦ rw (f, access_l2) (record { icache = ok.icache; dcache = ok.dcache; l2 = first })
    ]

-- Every access of a hierarchy whose three caches have their shape and consistent statistics keeps
-- both.
pub cache_hierarchy_access-Sound :
    (h : Hierarchy) (addr : ℕ) (type : AccessType) (is_instruction : Bool) (r : Randoms)
    → Sound h
    → Sound (cache_hierarchy_access h addr type is_instruction r).0
unfolding cache_hierarchy_access
cache_hierarchy_access-Sound h addr type is_instruction r ok =
    let l1 = cache_access_sound _ addr type r.for_l1 (l1_cache-Sound h is_instruction ok) in
    elim (Bool-cases (cache_access (l1_cache h is_instruction) addr type r.for_l1).1.hit) [
      | inl t ↦ rw (t, cache_hierarchy_access) (put_l1-Sound h is_instruction _ _ _ ok l1)
      | inr f ↦
          rw (f, cache_hierarchy_access)
            (access_l2-Sound _ _ addr type r (put_l1-Sound h is_instruction _ _ _ ok l1))
    ]

l1_cache-put_l1 :
    (h : Hierarchy) (b : Bool) (c : Cache) (n cycles : ℕ)
    → l1_cache (record (put_l1 h b c) { memory_accesses = n; total_cycles = cycles }) b ≡ c
unfolding l1_cache put_l1
l1_cache-put_l1 h true c n cycles = refl
l1_cache-put_l1 h false c n cycles = refl

l1_cache-access_l2 :
    (h : Hierarchy) (b : Bool) (l1_result : Result) (addr : ℕ) (type : AccessType) (r : Randoms)
    → l1_cache (access_l2 h l1_result addr type r).0 b ≡ l1_cache h b
unfolding l1_cache access_l2
l1_cache-access_l2 h b l1_result addr type r = refl

-- What stands in the first level after an access.
pub l1_cache-access :
    (h : Hierarchy) (addr : ℕ) (type : AccessType) (b : Bool) (r : Randoms)
    → l1_cache (cache_hierarchy_access h addr type b r).0 b
      ≡ (cache_access (l1_cache h b) addr type r.for_l1).0
unfolding cache_hierarchy_access
l1_cache-access h addr type b r =
    elim (Bool-cases (cache_access (l1_cache h b) addr type r.for_l1).1.hit) [
      | inl t ↦ rw (t, cache_hierarchy_access) (l1_cache-put_l1 h b _ _ _)
      | inr f ↦
          rw (f, cache_hierarchy_access)
            (l1_cache-access_l2 _ b _ addr type r ∙ l1_cache-put_l1 h b _ _ _)
    ]

l1_hit_latency-access :
    (h : Hierarchy) (addr : ℕ) (type : AccessType) (b : Bool) (r : Randoms)
    → (cache_hierarchy_access h addr type b r).0.l1_hit_latency ≡ h.l1_hit_latency
unfolding cache_hierarchy_access access_l2 put_l1
l1_hit_latency-access h addr type b r =
    elim (Bool-cases (cache_access (l1_cache h b) addr type r.for_l1).1.hit) [
      | inl t ↦ rw (t, cache_hierarchy_access) refl
      | inr f ↦ rw (f, cache_hierarchy_access) refl
    ]

l1_hit :
    (h : Hierarchy) (addr : ℕ) (type : AccessType) (b : Bool) (r : Randoms)
    → (cache_access (l1_cache h b) addr type r.for_l1).1.hit ≡ true
    → ((cache_hierarchy_access h addr type b r).1.hit ≡ true)
      × ((cache_hierarchy_access h addr type b r).1.latency ≡ h.l1_hit_latency)
      × ((cache_hierarchy_access h addr type b r).0.total_cycles
          ≡ u64 (h.total_cycles + h.l1_hit_latency))
      × ((cache_hierarchy_access h addr type b r).0.l2_cache ≡ h.l2_cache)
unfolding cache_hierarchy_access put_l1
l1_hit h addr type b r t = rw (t, cache_hierarchy_access) (refl, refl, refl, refl)

-- In such a hierarchy, after an access, the next one for the same address from the same side hits
-- in the first level: it costs the latency of a hit there, and leaves the second level alone.
pub cache_hierarchy_access-hits_next :
    (h : Hierarchy) (addr : ℕ) (type type' : AccessType) (b : Bool) (r r' : Randoms)
    → Sound h
    → let h' = (cache_hierarchy_access h addr type b r).0 in
      let next = cache_hierarchy_access h' addr type' b r' in
      (next.1.hit ≡ true)
      × (next.1.latency ≡ h.l1_hit_latency)
      × (next.0.total_cycles ≡ u64 (h'.total_cycles + h.l1_hit_latency))
      × (next.0.l2_cache ≡ h'.l2_cache)
cache_hierarchy_access-hits_next h addr type type' b r r' ok =
    let h' = (cache_hierarchy_access h addr type b r).0 in
    let same = l1_hit_latency-access h addr type b r in
    let hits =
      cache_access-hits_next (l1_cache h b) addr type type' r.for_l1 r'.for_l1
        (l1_cache-Sound h b ok).0 in
    let (hit, latency, cycles, l2) =
      l1_hit h' addr type' b r' (rw (l1_cache-access h addr type b r) hits) in
    (hit, latency ∙ same, cycles ∙ ap (λ (n : ℕ). u64 (h'.total_cycles + n)) same, l2)
