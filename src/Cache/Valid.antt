-- ===== src/Cache/Valid.antt =====
-- The shape of a cache of riscv/cache_model.cc, which creation sets up and every access keeps.
use spike_online.Cache
use spike_online.Cache.Lines.{length-update_lru}
use mathlib.Core.Path.{subst}
use native.Mathlib.Nat.{zero-mul, mod-lt, one-le-pow}
use spike_online.Base.{
  ℕ, two_pow_add, times-le, zero, suc, ◌+◌, ◌-◌, ◌*◌, ◌/◌, ◌^◌, ◌<◌, ◌≤◌, ◌≡◌, refl, ap, ◌∙◌, arith,
  inl, inr, Bool-cases, Option-cases, length, get_or, replicate, length-set, get_or-set_self,
  get_or-set_ne, length-replicate, ◌==◌, u32, bit_and_mask, ◌>>>◌,
}

-- Every set has `ways` lines, there is one at least, and every index of an address is that of a
-- set.
pub record WellFormed (c : Cache.Cache) : Type 0 where
  pub sets_length : length c.cache_sets ≡ c.sets
  pub lines_length : (i : ℕ) → i < c.sets → length (Cache.set_at c i).lines ≡ c.ways
  pub ways_pos : 0 < c.ways
  pub mask : c.index_mask ≡ 2 ^ c.index_bits - 1
  pub enough : 2 ^ c.index_bits ≤ c.sets

log2_loop-le : (fuel v r : ℕ) → 0 < v → 2 ^ Cache.log2_loop fuel v r ≤ v * 2 ^ r
unfolding Cache.log2_loop
log2_loop-le zero v r h = omega (arith, times-le 1 v (2 ^ r) h)
log2_loop-le (suc fuel) v r h = elim (Bool-cases (v >>> 1 == 0)) [
  | inl t ↦ rw (t, Cache.log2_loop) (omega (arith, times-le 1 v (2 ^ r) h))
  | inr f ↦
      let rest = log2_loop-le fuel (v / 2) (r + 1) (ground arith) in
      let power : 2 ^ (r + 1) ≡ 2 * 2 ^ r = two_pow_add r 1 ∙ omega arith in
      let half = times-le (2 * (v / 2)) v (2 ^ r) (omega arith) in
      rw (f, Cache.log2_loop) (omega (arith, rest, ap (λ (t : ℕ). v / 2 * t) power, half))
]

log2_uint32-le : (v : ℕ) → 0 < v → 2 ^ Cache.log2_uint32 v ≤ v
unfolding Cache.log2_uint32
log2_uint32-le v h = omega (arith, log2_loop-le 32 v 0 h)

created_inj : {a b : Cache.Cache} → Cache.created a ≡ Cache.created b → a ≡ b
created_inj e = cc

fault≢created : {a : Cache.Cache} → Cache.division_by_zero ≡ Cache.created a → ⊥
fault≢created e = cc

null≢created : {a : Cache.Cache} → Cache.null ≡ Cache.created a → ⊥
null≢created e = cc

get_or-replicate_lt : {A : Type 0} (n i : ℕ) (a d : A) → i < n → get_or (replicate n a) i d ≡ a
get_or-replicate_lt zero i a d h = absurd (omega (arith, h))
get_or-replicate_lt (suc n) zero a d h = refl
get_or-replicate_lt (suc n) (suc i) a d h = get_or-replicate_lt n i a d (omega (arith, h))

-- A cache that is created has sets of the wanted size, and every line of it is invalid.
pub cache_create-WellFormed :
    (size ways line_size : ℕ) (r : Cache.Replacement) (w : Cache.WritePolicy) (c : Cache.Cache)
    → Cache.cache_create size ways line_size r w ≡ Cache.created c
    → WellFormed c × (c.ways ≡ ways)
unfolding Cache.cache_create
cache_create-WellFormed size ways line_size r w c e =
    let way_size = u32 (ways * line_size) in
    let sets = size / way_size in
    elim (Bool-cases (way_size == 0)) [
      | inl t ↦ absurd (fault≢created (rw (t, Cache.cache_create) at e))
      | inr f ↦ elim (Bool-cases (sets == 0)) [
        | inl t ↦ absurd (null≢created (rw (f, t, Cache.cache_create) at e))
        | inr some_set ↦
            let same = created_inj (rw (f, some_set, Cache.cache_create) at e) in
            subst (λ c. WellFormed c × (c.ways ≡ ways)) same
              (
                record {
                  sets_length = length-replicate sets _;
                  lines_length = λ i h.
                      ap (λ (s : Cache.CacheSet). length s.lines) (get_or-replicate_lt sets i _ _ h)
                      ∙ length-replicate ways _;
                  ways_pos = ground (arith, zero-mul line_size);
                  mask = omega arith;
                  enough = log2_uint32-le sets (ground (arith, some_set));
                },
                refl,
              )
      ]
    ]

pub addr_index-lt : (c : Cache.Cache) (addr : ℕ) → WellFormed c → Cache.addr_index c addr < c.sets
unfolding Cache.addr_index
addr_index-lt c addr ok =
    rw (ok.mask, bit_and_mask (addr >>> c.offset_bits) c.index_bits)
      (omega (
        arith,
        mod-lt (addr >>> c.offset_bits) (one-le-pow c.index_bits 2 (omega arith)),
        ok.enough,
      ))

put_set-WellFormed :
    (c : Cache.Cache) (i : ℕ) (s : Cache.CacheSet)
    → WellFormed c
    → i < c.sets
    → length s.lines ≡ c.ways
    → WellFormed (Cache.put_set c i s)
unfolding Cache.put_set
put_set-WellFormed c i s ok h e = record {
  sets_length = length-set c.cache_sets i s ∙ ok.sets_length;
  lines_length = λ j k. elim (Bool-cases (i == j)) [
    | inl t ↦
        let same : j ≡ i = ground (arith, t) in
        rw (same, get_or-set_self c.cache_sets i s Cache.empty_set (rw ok.sets_length h)) e
    | inr f ↦
        rw (get_or-set_ne c.cache_sets i j s Cache.empty_set (ground (arith, f)))
          (ok.lines_length j k)
  ];
  ways_pos = ok.ways_pos;
  mask = ok.mask;
  enough = ok.enough;
}

-- The statistics do not enter the shape.
pub stats-WellFormed :
    {c : Cache.Cache} {a h m b r w : ℕ}
    → WellFormed c
    → WellFormed
        (record c { accesses = a; hits = h; misses = m; writebacks = b; reads = r; writes = w })
stats-WellFormed ok = record {
  sets_length = ok.sets_length;
  lines_length = ok.lines_length;
  ways_pos = ok.ways_pos;
  mask = ok.mask;
  enough = ok.enough;
}

access_hit-WellFormed :
    (c : Cache.Cache) (i way : ℕ) (type : Cache.AccessType)
    → WellFormed c
    → i < c.sets
    → WellFormed (Cache.access_hit c i way type).0
unfolding Cache.access_hit Cache.set_state
access_hit-WellFormed c i way type ok h =
    let s = Cache.update_lru (Cache.set_at c i) way in
    stats-WellFormed (
      put_set-WellFormed c i _ ok h
        (length-set s.lines way _ ∙ length-update_lru (Cache.set_at c i) way ∙ ok.lines_length i h))

access_miss-WellFormed :
    (c : Cache.Cache) (addr : ℕ) (type : Cache.AccessType) (random : ℕ)
    → WellFormed c
    → WellFormed (Cache.access_miss c addr type random).0
unfolding Cache.access_miss
access_miss-WellFormed c addr type random ok =
    let i = Cache.addr_index c addr in
    let h = addr_index-lt c addr ok in
    stats-WellFormed (
      put_set-WellFormed c i _ ok h
        (length-update_lru _ _ ∙ length-set (Cache.set_at c i).lines _ _ ∙ ok.lines_length i h))

-- Every access keeps the shape of the cache.
pub cache_access-WellFormed :
    (c : Cache.Cache) (addr : ℕ) (type : Cache.AccessType) (random : ℕ)
    → WellFormed c
    → WellFormed (Cache.cache_access c addr type random).0
unfolding Cache.cache_access Cache.count_access
cache_access-WellFormed c addr type random ok = elim (Option-cases (Cache.lookup c addr)) [
  | inl absent ↦
      rw (absent, Cache.cache_access)
        (access_miss-WellFormed _ addr type random (stats-WellFormed ok))
  | inr (way, found) ↦
      rw (found, Cache.cache_access)
        (access_hit-WellFormed _ _ way type (stats-WellFormed ok) (addr_index-lt c addr ok))
]
