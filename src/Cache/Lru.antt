-- ===== src/Cache/Lru.antt =====
-- The least recently used line of a set (riscv/cache_model.cc).
use spike_online.Cache.{Line, CacheSet, Oldest, line_at, lru_scan, find_lru_way}
use spike_online.Base.{
  ℕ, zero, suc, ◌+◌, ◌<◌, ◌≤◌, ◌≡◌, refl, arith, ◌⊎◌, inl, inr, Bool-cases, List, [], ◌∷◌, length,
  ltb, drop,
}

-- What a scan from the line `i` on finds: a counter not above the one that it starts from nor any
-- of the lines', which is the starting one or one of the lines'.
abbrev IsOldest : List Line → ℕ → Oldest → Oldest → Type 0
IsOldest ls i m r =
    (r.min_lru ≤ m.min_lru)
    × ((j : ℕ) → j < length ls → r.min_lru ≤ (line_at ls j).lru_counter)
    × (((r.lru_way ≡ m.lru_way) × (r.min_lru ≡ m.min_lru))
        ⊎ ((j : ℕ) × (j < length ls)
            × (r.lru_way ≡ i + j)
            × (r.min_lru ≡ (line_at ls j).lru_counter)))

lru_scan-IsOldest : (ls : List Line) (i : ℕ) (m : Oldest) → IsOldest ls i m (lru_scan ls i m)
unfolding lru_scan
lru_scan-IsOldest [] i m = (omega arith, λ j h. absurd (omega (arith, h)), inl (refl, refl))
lru_scan-IsOldest (l ∷ ls) i m = elim (Bool-cases (ltb l.lru_counter m.min_lru)) [
  | inl t ↦
      let (le, all, from) =
        lru_scan-IsOldest ls (i + 1) (record { lru_way = i; min_lru = l.lru_counter }) in
      rw (t, lru_scan)
        (
          ground (arith, le, t),
          λ j h. below j h le all,
          elim from [
            | inl (w, c) ↦ inr (0, omega arith, omega (arith, w), c)
            | inr (j, h, w, c) ↦ inr (suc j, omega (arith, h), omega (arith, w), c)
          ],
        )
  | inr f ↦
      let (le, all, from) = lru_scan-IsOldest ls (i + 1) m in
      rw (f, lru_scan)
        (
          le,
          λ j h. below j h (ground (arith, le, f)) all,
          elim from [
            | inl same ↦ inl same
            | inr (j, h, w, c) ↦ inr (suc j, omega (arith, h), omega (arith, w), c)
          ],
        )
]
  where
    below :
        {r : ℕ} (j : ℕ)
        → j < length (l ∷ ls)
        → r ≤ l.lru_counter
        → ((j : ℕ) → j < length ls → r ≤ (line_at ls j).lru_counter)
        → r ≤ (line_at (l ∷ ls) j).lru_counter
    below zero h le all = le
    below (suc j) h le all = all j (omega (arith, h))

each :
    (l : Line) (ls : List Line) (m j : ℕ) {c : ℕ}
    → j < length (l ∷ ls)
    → m ≤ l.lru_counter
    → ((i : ℕ) → i < length ls → m ≤ (line_at ls i).lru_counter)
    → m ≡ c
    → c ≤ (line_at (l ∷ ls) j).lru_counter
each l ls m zero h le all e = omega (arith, le, e)
each l ls m (suc j) h le all e = omega (arith, all j (omega (arith, h)), e)

-- Of a set that has lines, `find_lru_way` answers one whose counter is not above that of any other.
pub find_lru_way_lem :
    (s : CacheSet)
    → 0 < length s.lines
    → (find_lru_way s < length s.lines)
      × ((j : ℕ)
          → j < length s.lines
          → (line_at s.lines (find_lru_way s)).lru_counter ≤ (line_at s.lines j).lru_counter)
unfolding find_lru_way
find_lru_way_lem s h = go s.lines h
  where
    go :
        (ls : List Line)
        → 0 < length ls
        → ((lru_scan
              (drop 1 ls)
              1
              (record { lru_way = 0; min_lru = (line_at ls 0).lru_counter })).lru_way
            < length ls)
          × ((j : ℕ)
              → j < length ls
              → (line_at ls
                  (lru_scan (drop 1 ls) 1 (record {
                    lru_way = 0;
                    min_lru = (line_at ls 0).lru_counter;
                  })).lru_way).lru_counter
                ≤ (line_at ls j).lru_counter)
    go [] h = absurd (omega (arith, h))
    go (l ∷ ls) h =
        let start : Oldest = record { lru_way = 0; min_lru = l.lru_counter } in
        let (le, all, from) = lru_scan-IsOldest ls 1 start in
        elim from [
          | inl (w, c) ↦ (omega (arith, w), λ j k. rw w (each l ls _ j k le all c))
          | inr (i, k, w, c) ↦
              let w' : (lru_scan ls 1 start).lru_way ≡ suc i = omega (arith, w) in
              (omega (arith, w', k), λ j k. rw w' (each l ls _ j k le all c))
        ]
