-- ===== src/Cache/Lines.antt =====
-- Searches and updates of the lines of a set (riscv/cache_model.cc).
use spike_online.Cache.{Line, CacheSet, line_at, first_way, update_lru, shift_counter, min_scan}
use spike_online.Base.{
  ℕ, zero, suc, ◌+◌, ◌-◌, ◌<◌, ◌≤◌, ◌≡◌, refl, sym, ap, ◌∙◌, arith, Bool, true, inl, inr, none,
  some, Bool-cases, List, [], ◌∷◌, map, length, set, length-set, ltb, u32, drop,
}

pub some_inj : {a b : ℕ} → some a ≡ some b → a ≡ b
some_inj e = cc

pub none≢some : {a : ℕ} → none ≡ some a → ⊥
none≢some e = cc

-- The line that is found has the property.
pub first_way_found :
    (p : Line → Bool) (ls : List Line) (k way : ℕ)
    → first_way p ls k ≡ some way
    → (k ≤ way) × (way - k < length ls) × (p (line_at ls (way - k)) ≡ true)
unfolding first_way
first_way_found p [] k way e = absurd (none≢some e)
first_way_found p (l ∷ ls) k way e = elim (Bool-cases (p l)) [
  | inl t ↦
      let same : way - k ≡ 0 = omega (arith, some_inj (rw t at e)) in
      (omega (arith, some_inj (rw t at e)), omega (arith, same), rw (same, t))
  | inr f ↦
      let (le, lt, q) = first_way_found p ls (k + 1) way (rw f at e) in
      let next : way - k ≡ suc (way - (k + 1)) = omega (arith, le) in
      (omega (arith, le), omega (arith, next, lt), rw (next, q))
]

-- The search from the first line on.
pub first_way_zero :
    (p : Line → Bool) (ls : List Line) (way : ℕ)
    → first_way p ls 0 ≡ some way
    → (way < length ls) × (p (line_at ls way) ≡ true)
first_way_zero p ls way e =
    let (_, lt, q) = first_way_found p ls 0 way e in
    let same : way - 0 ≡ way = omega arith in (omega (arith, lt), sym (rw same) ∙ q)

-- A line with the property is there to be found.
pub first_way_exists :
    (p : Line → Bool) (ls : List Line) (k j : ℕ)
    → j < length ls
    → p (line_at ls j) ≡ true
    → (way : ℕ) × (first_way p ls k ≡ some way)
unfolding first_way
first_way_exists p [] k j h e = absurd (omega (arith, h))
first_way_exists p (l ∷ ls) k zero h e = (k, rw e)
first_way_exists p (l ∷ ls) k (suc j) h e = elim (Bool-cases (p l)) [
  | inl t ↦ (k, rw t)
  | inr f ↦ let (w, q) = first_way_exists p ls (k + 1) j (omega (arith, h)) e in (w, rw (f, q))
]

pub length-map : (f : Line → Line) (ls : List Line) → length (map f ls) ≡ length ls
length-map f [] = refl
length-map f (l ∷ ls) = ap suc (length-map f ls)

pub line_at-map :
    (f : Line → Line) (ls : List Line) (j : ℕ)
    → j < length ls
    → line_at (map f ls) j ≡ f (line_at ls j)
line_at-map f [] j h = absurd (omega (arith, h))
line_at-map f (l ∷ ls) zero h = refl
line_at-map f (l ∷ ls) (suc j) h = line_at-map f ls j (omega (arith, h))

pub length-update_lru : (s : CacheSet) (way : ℕ) → length (update_lru s way).lines ≡ length s.lines
unfolding update_lru
length-update_lru s way =
    let set_lem =
      length-set s.lines way (record (line_at s.lines way) { lru_counter = s.next_lru }) in
    elim (Bool-cases (ltb 1000000 (u32 (s.next_lru + 1)))) [
      | inl t ↦ rw t (length-map _ _ ∙ set_lem)
      | inr f ↦ rw f set_lem
    ]

touch :
    (ls : List Line) (way j c : ℕ)
    → j < length ls
    → ((line_at (set ls way (record (line_at ls way) { lru_counter = c })) j).tag
        ≡ (line_at ls j).tag)
      × ((line_at (set ls way (record (line_at ls way) { lru_counter = c })) j).state
          ≡ (line_at ls j).state)
touch [] way j c h = (refl, refl)
touch (l ∷ ls) zero zero c h = (refl, refl)
touch (l ∷ ls) zero (suc j) c h = (refl, refl)
touch (l ∷ ls) (suc way) zero c h = (refl, refl)
touch (l ∷ ls) (suc way) (suc j) c h = touch ls way j c (omega (arith, h))

shift_counter-tag :
    (m : ℕ) (l : Line) → ((shift_counter m l).tag ≡ l.tag) × ((shift_counter m l).state ≡ l.state)
unfolding shift_counter
shift_counter-tag m l = (refl, refl)

-- The tag and the state of a line are left alone by a change of the counters.
pub update_lru-tag :
    (s : CacheSet) (way j : ℕ)
    → j < length s.lines
    → ((line_at (update_lru s way).lines j).tag ≡ (line_at s.lines j).tag)
      × ((line_at (update_lru s way).lines j).state ≡ (line_at s.lines j).state)
unfolding update_lru
update_lru-tag s way j h =
    let touched = record (line_at s.lines way) { lru_counter = s.next_lru } in
    let lines = set s.lines way touched in
    let inside : j < length lines = rw (length-set s.lines way touched) h in
    let kept : ((line_at lines j).tag ≡ (line_at s.lines j).tag)
        × ((line_at lines j).state ≡ (line_at s.lines j).state) =
      touch s.lines way j s.next_lru h in
    elim (Bool-cases (ltb 1000000 (u32 (s.next_lru + 1)))) [
      | inl t ↦
          let m = min_scan (drop 1 lines) (line_at lines 0).lru_counter in
          let (tag, state) = shift_counter-tag m (line_at lines j) in
          let moved = line_at-map (shift_counter m) lines j inside in
          rw t (ap (λ l. l.tag) moved ∙ tag ∙ kept.0, ap (λ l. l.state) moved ∙ state ∙ kept.1)
      | inr f ↦ rw f kept
    ]
