-- ===== src/CacheSim/Hits.antt =====
-- What an access leaves in the caches of riscv/cachesim.cc.
use spike_online.CacheSim.{
  CacheSim, valid, dirty, next, set_index, tag_of, tag_scan, check_tag, victim_place, victimize,
  count_access, count_miss, mark_dirty, is_dirty_line, hit_or, access_at, access,
}
use spike_online.Base.{
  ℕ, zero, suc, ◌+◌, ◌-◌, ◌*◌, ◌%◌, ◌^◌, ◌≤◌, ◌<◌, ◌≡◌, refl, sym, ap, ap₂, ◌∙◌, arith, inl, inr,
  bit_ext, bit-lt, bit-bit_and, bit-bit_or, bit_not, bit-two_pow, bit-eq-zero_of_lt, bit-div,
  lt-two_pow_of_bits, bit_and-le, times-le, bit_and, bit_or, flip, ◌<<<◌, ◌>>>◌, u64, any_bit,
  any_bit-set_bit, Bool, true, false, Option, none, some, List, [], ◌∷◌, length, length-set, get_or,
  set, get_or-set_self, get_or-set_ne, if◌then◌else◌, ◌==◌, ==_iff, Bool-cases,
}
use native.Mathlib.Nat.{mod-lt}

-- The tag of a line without its dirty bit.
abbrev masked : ℕ → ℕ
masked line = bit_and line (flip 64 dirty)

masked-dirty : (line : ℕ) → masked (bit_or line dirty) ≡ masked line
masked-dirty line = bit_ext _ _ λ i. ground (
  arith,
  bit-bit_and (bit_or line dirty) (flip 64 dirty) i,
  bit-bit_and line (flip 64 dirty) i,
  bit-bit_or line dirty i,
  bit-two_pow 62 i,
  bit_not 64 dirty i (omega arith),
  bit-lt line i,
)

masked-tag : (x : ℕ) → x < 2 ^ 62 → masked (bit_or x valid) ≡ bit_or x valid
masked-tag x h = bit_ext _ _ λ i. ground (
  arith,
  bit-bit_and (bit_or x valid) (flip 64 dirty) i,
  bit-bit_or x valid i,
  bit-two_pow 62 i,
  bit-two_pow 63 i,
  bit_not 64 dirty i (omega arith),
  bit-lt x i,
  bit-eq-zero_of_lt 62 x i h,
)

-- The shape of a cache, which `init` gives it.
pub record Shape (sets ways idx_shift : ℕ) (tags : List ℕ) : Type 0 where
  pub some_set : 0 < sets
  pub some_way : 0 < ways
  pub shift : 2 ≤ idx_shift
  pub tags_length : length tags ≡ sets * ways

abbrev pub WellFormed : CacheSim → Type 0
WellFormed s = Shape s.sets s.ways s.idx_shift s.tags

tag_scan_exists :
    (tags : List ℕ) (tag i n j : ℕ)
    → j < n
    → masked (get_or tags (i + j) 0) ≡ tag
    → (place : ℕ) × (tag_scan tags tag i n ≡ some place)
unfolding tag_scan
tag_scan_exists tags tag i zero j h e = elim h [ ]
tag_scan_exists tags tag i (suc n) zero h e =
    let here : i + 0 ≡ i = omega arith in
    let found : masked (get_or tags i 0) ≡ tag =
      ap (λ (k : ℕ). masked (get_or tags k 0)) (sym here) ∙ e in
    let hit : (tag == masked (get_or tags i 0)) ≡ true = ground (arith, found) in (i, rw hit refl)
tag_scan_exists tags tag i (suc n) (suc j) h e =
    let shift : i + suc j ≡ i + 1 + j = omega arith in
    let rest =
      tag_scan_exists tags tag (i + 1) n j (omega (arith, h))
        (ap (λ (k : ℕ). masked (get_or tags k 0)) (sym shift) ∙ e) in
    elim (Bool-cases (tag == masked (get_or tags i 0))) [
      | inl t ↦ (i, rw t refl)
      | inr f ↦ (rest.0, rw f rest.1)
    ]

tag_scan_found :
    (tags : List ℕ) (tag i n place : ℕ)
    → tag_scan tags tag i n ≡ some place
    → (i ≤ place) × (place < i + n) × (masked (get_or tags place 0) ≡ tag)
unfolding tag_scan
tag_scan_found tags tag i zero place e = cc
tag_scan_found tags tag i (suc n) place e = elim (Bool-cases (tag == masked (get_or tags i 0))) [
  | inl t ↦
      let here : some i ≡ some place = sym (rw t refl) ∙ e in
      let same : i ≡ place = cc in
      let key = (==_iff tag (masked (get_or tags i 0))).0 t in
      (
        omega (arith, same),
        omega (arith, same),
        ap (λ (k : ℕ). masked (get_or tags k 0)) (sym same) ∙ sym key,
      )
  | inr f ↦
      let later : tag_scan tags tag (i + 1) n ≡ some place = sym (rw f refl) ∙ e in
      let rest = tag_scan_found tags tag (i + 1) n place later in
      (omega (arith, rest.0), omega (arith, rest.1), rest.2)
]

tag_scan_same :
    (tags tags' : List ℕ) (tag i n : ℕ)
    → ((k : ℕ) → masked (get_or tags' k 0) ≡ masked (get_or tags k 0))
    → tag_scan tags' tag i n ≡ tag_scan tags tag i n
unfolding tag_scan
tag_scan_same tags tags' tag i zero h = refl
tag_scan_same tags tags' tag i (suc n) h =
    ap₂ (λ (line : ℕ) (rest : Option ℕ). if tag == line then some i else rest) (h i)
      (tag_scan_same tags tags' tag (i + 1) n h)

idx_bound : (idx sets ways j : ℕ) → idx < sets → j < ways → idx * ways + j < sets * ways
idx_bound idx sets ways j h l =
    let next_row : suc idx * ways ≡ idx * ways + ways = grind arith in
    omega (arith, l, next_row, times-le (suc idx) sets ways h)

module _ (s : CacheSim) (shape : WellFormed s) (addr : ℕ) (bound : addr < 2 ^ 64) where
  line_number-lt : addr >>> s.idx_shift < 2 ^ 62
  line_number-lt = lt-two_pow_of_bits 62 _ λ i le.
      bit-div s.idx_shift addr i
      ∙ bit-eq-zero_of_lt 64 addr (s.idx_shift + i) bound (omega (arith, le, shape.shift))

  set_index-lt : set_index s addr < s.sets
  set_index-lt = omega (arith, bit_and-le (addr >>> s.idx_shift) (s.sets - 1), shape.some_set)

  place-lt : (j : ℕ) → j < s.ways → set_index s addr * s.ways + j < length s.tags
  place-lt j l =
      rw (shape.tags_length) (idx_bound (set_index s addr) s.sets s.ways j set_index-lt l)

  masked_tag : masked (tag_of s addr) ≡ tag_of s addr
  masked_tag = masked-tag (addr >>> s.idx_shift) line_number-lt

  -- The line that replaces another is found.
  victimize-hits : (place : ℕ) × (check_tag (victimize s addr).0 addr ≡ some place)
  unfolding check_tag victimize victim_place
  victimize-hits =
      let j = next s.reg % s.ways in
      let l : j < s.ways = mod-lt (next s.reg) shape.some_way in
      tag_scan_exists _ _ _ s.ways j l (
        ap masked
          (get_or-set_self s.tags (set_index s addr * s.ways + j) (tag_of s addr) 0 (place-lt j l))
        ∙ masked_tag)

  -- Marking a line keeps what is found, and the line found is dirty.
  mark_dirty-hits :
      (place : ℕ)
      → check_tag s addr ≡ some place
      → (check_tag (mark_dirty s (some place)) addr ≡ some place)
        × (any_bit (get_or (mark_dirty s (some place)).tags place 0) dirty ≡ true)
  unfolding check_tag mark_dirty
  mark_dirty-hits place found =
      let base = set_index s addr * s.ways in
      let where_found = tag_scan_found s.tags (tag_of s addr) base s.ways place found in
      let at : base + (place - base) ≡ place = omega (arith, where_found.0) in
      let inside : place < length s.tags =
        rw at at (place-lt (place - base) (omega (arith, where_found.0, where_found.1))) in
      let line = get_or s.tags place 0 in
      let same : (k : ℕ)
          → masked (get_or (set s.tags place (bit_or line dirty)) k 0)
            ≡ masked (get_or s.tags k 0) =
        λ k. elim (Bool-cases (place == k)) [
          | inl t ↦
              let e = (==_iff place k).0 t in
              rw⁻¹ e (
                ap masked (get_or-set_self s.tags place (bit_or line dirty) 0 inside)
                ∙ masked-dirty line)
          | inr f ↦
              ap masked (get_or-set_ne s.tags place k (bit_or line dirty) 0 (ground (arith, f)))
        ] in
      (
        tag_scan_same s.tags _ (tag_of s addr) base s.ways same ∙ found,
        ap (λ (v : ℕ). any_bit v dirty) (get_or-set_self s.tags place (bit_or line dirty) 0 inside)
            ∙ any_bit-set_bit line 62 62,
      )

-- The first cache holds an address, in a dirty line after a store.
pub Holds : List CacheSim → ℕ → Bool → Type 0
Holds [] addr store = 1 ≤ 0
Holds (s ∷ handler) addr store =
    (place : ℕ) × (check_tag s addr ≡ some place)
    × (store ≡ true → any_bit (get_or s.tags place 0) dirty ≡ true)

pub hit_or-cases :
    (P : List CacheSim → Type 0) (o : Option ℕ) (hit : ℕ → List CacheSim) (miss : List CacheSim)
    → ((place : ℕ) → o ≡ some place → P (hit place))
    → P miss
    → P (hit_or o hit miss)
hit_or-cases P none hit miss h k = k
hit_or-cases P (some place) hit miss h k = h place refl

Filled : CacheSim → ℕ → Type 0
Filled s addr = (WellFormed s) × ((place : ℕ) × (check_tag s addr ≡ some place))

pub count_access-WellFormed :
    (s : CacheSim) (bytes : ℕ) (store : Bool)
    → WellFormed s
    → WellFormed (count_access s bytes store)
unfolding count_access
count_access-WellFormed s bytes true shape = shape
count_access-WellFormed s bytes false shape = shape

pub count_miss-WellFormed :
    (s : CacheSim) (store : Bool) → WellFormed s → WellFormed (count_miss s store)
unfolding count_miss
count_miss-WellFormed s true shape = shape
count_miss-WellFormed s false shape = shape

victimize-Filled :
    (s : CacheSim) (addr : ℕ) → WellFormed s → addr < 2 ^ 64 → Filled (victimize s addr).0 addr
unfolding Filled victimize
victimize-Filled s addr shape bound = (
  record {
    some_set = shape.some_set;
    some_way = shape.some_way;
    shift = shape.shift;
    tags_length = length-set s.tags (victim_place s addr) (tag_of s addr) ∙ shape.tags_length;
  },
  victimize-hits s shape addr bound,
)

written_back :
    (t : Bool) (m : CacheSim) (addr n : ℕ)
    → Filled m addr
    → Filled (if t then record m { writebacks = n } else m) addr
unfolding Filled check_tag
written_back true m addr n (shape, there) = (shape, there)
written_back false m addr n h = h

Filled-Holds :
    (m : CacheSim) (addr : ℕ) (store : Bool) (handler : List CacheSim)
    → addr < 2 ^ 64
    → Filled m addr
    → Holds ((if store then mark_dirty m (check_tag m addr) else m) ∷ handler) addr store
unfolding Filled Holds
Filled-Holds m addr true handler bound (shape, (place, e)) =
    let marked = mark_dirty-hits m shape addr bound place e in
    rw e (place, marked.0, (λ h. marked.1))
Filled-Holds m addr false handler bound (shape, (place, e)) = (place, e, (λ h. cc))

pub access-Holds :
    (s : CacheSim) (handler : List CacheSim) (addr bytes : ℕ) (store : Bool)
    → WellFormed s
    → addr < 2 ^ 64
    → Holds (access (s ∷ handler) addr bytes store) addr store
unfolding access access_at Holds
access-Holds s handler addr bytes store shape bound =
    let counted = count_access s bytes store in
    let out = victimize (count_miss counted store) addr in
    let dirty_addr = u64 (bit_and out.1 (flip 64 (bit_or valid dirty)) <<< s.idx_shift) in
    let after_write =
      if is_dirty_line out.1
      then access_at (length handler) handler dirty_addr s.linesz true
      else handler in
    let filled =
      access_at (length handler) after_write (bit_and addr (flip 64 (s.linesz - 1))) s.linesz
        false in
    let shape' = count_access-WellFormed s bytes store shape in
    hit_or-cases (λ levels. Holds levels addr store) (check_tag counted addr) _ _
      (λ place e. hit counted shape' store place e)
      (Filled-Holds _ addr store filled bound (
        written_back _ _ addr _ (
          victimize-Filled (count_miss counted store) addr
            (count_miss-WellFormed counted store shape') bound)))
  where
    hit :
        (c : CacheSim)
        → WellFormed c
        → (store : Bool) (place : ℕ) → check_tag c addr ≡ some place
        → Holds ((if store then mark_dirty c (some place) else c) ∷ handler) addr store
    hit c shape true place e =
        let marked = mark_dirty-hits c shape addr bound place e in
        (place, marked.0, (λ h. marked.1))
    hit c shape false place e = (place, e, (λ h. cc))
