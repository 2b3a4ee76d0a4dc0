-- ===== src/Memory/Pages.antt =====
-- The bytes of a memory of riscv/devices.cc, whichever pages are allocated.
use spike_online.Memory.{
  Memory, Page, page_size, zero_page, find, put, contents, page_of, page_or_zero, store_chunk,
}
use spike_online.Base.{
  ℕ, ◌+◌, ◌-◌, ◌/◌, ◌%◌, ◌≤◌, ◌≡◌, refl, sym, ap, ◌∙◌, arith, true, false, ◌&&◌, inl, inr,
  Bool-cases, Option-cases, ==_iff, some, List, [], ◌∷◌, get_or, if◌then◌else◌, ltb, leb, ◌==◌,
}

-- The byte at an address.
unfoldable pub byte_at : Memory → ℕ → ℕ
byte_at m a = page_of m (a / page_size) (a % page_size)

find-put :
    (pages : List (ℕ × Page)) (k j : ℕ) (page : Page)
    → find (put pages k page) j ≡ (if k == j then some page else find pages j)
unfolding find put
find-put [] k j page = refl
find-put ((i, old) ∷ pages) k j page = elim (Bool-cases (i == k)) [
  | inl same ↦
      rw (same, put)
        (elim (Bool-cases (k == j)) [
          | inl t ↦ rw t
          | inr f ↦ let other : (i == j) ≡ false = ground arith in rw (f, other)
        ])
  | inr other ↦
      rw (other, put)
        (elim (Bool-cases (i == j)) [
          | inl t ↦ let apart : (k == j) ≡ false = ground arith in rw (t, apart)
          | inr f ↦ rw (f, find) (find-put pages k j page)
        ])
]

page_or_zero-put :
    (pages : List (ℕ × Page)) (k j : ℕ) (page : Page)
    → page_or_zero (find (put pages k page) j)
      ≡ (if k == j then page else page_or_zero (find pages j))
page_or_zero-put pages k j page =
    ap page_or_zero (find-put pages k j page)
    ∙ elim (Bool-cases (k == j)) [ inl t ↦ rw t | inr f ↦ rw f ]

-- Allocating a page does not show.
pub page_of-contents : (m : Memory) (addr ppn : ℕ) → page_of (contents m addr) ppn ≡ page_of m ppn
unfolding page_of contents
page_of-contents m addr ppn = elim (Option-cases (find m.sparse_memory_map (addr / page_size))) [
  | inr (page, there) ↦ rw (there, contents)
  | inl absent ↦
      rw (absent, contents)
        (page_or_zero-put m.sparse_memory_map (addr / page_size) ppn zero_page
          ∙ elim (Bool-cases (addr / page_size == ppn)) [
            | inl t ↦
                let same : page_or_zero (find m.sparse_memory_map ppn) ≡ zero_page =
                  ap (λ (k : ℕ). page_or_zero (find m.sparse_memory_map k))
                    (sym ((==_iff (addr / page_size) ppn).0 t))
                  ∙ ap page_or_zero absent in
                rw (t, same)
            | inr f ↦ rw f
          ])
]

pub byte_at-contents : (m : Memory) (addr a : ℕ) → byte_at (contents m addr) a ≡ byte_at m a
unfolding byte_at
byte_at-contents m addr a =
    ap (λ (p : Page). p (a % page_size)) (page_of-contents m addr (a / page_size))

-- One round of a store changes the bytes that it copies.
pub byte_at-store_chunk :
    (m : Memory) (addr : ℕ) (bytes : List ℕ) (n a : ℕ)
    → n ≤ page_size - addr % page_size
    → byte_at (store_chunk m addr bytes n) a
      ≡ (if leb addr a && ltb a (addr + n) then get_or bytes (a - addr) 0 else byte_at m a)
unfolding byte_at store_chunk page_of
byte_at-store_chunk m addr bytes n a h =
    ap (λ (p : Page). p (a % page_size)) (put_page _ (a / page_size))
    ∙ elim (Bool-cases (addr / page_size == a / page_size)) [
      | inl t ↦
          let same = (==_iff (addr / page_size) (a / page_size)).0 t in
          let low : leb (addr % page_size) (a % page_size) ≡ leb addr a = ground arith in
          let high : ltb (a % page_size) (addr % page_size + n) ≡ ltb a (addr + n) = ground arith in
          let offset : leb addr a ≡ true → a % page_size - addr % page_size ≡ a - addr =
            λ k. ground arith in
          rw (t, page_of-contents m addr (addr / page_size), same, low, high)
            (elim (Bool-cases (leb addr a)) [ inl k ↦ rw (offset k) | inr k ↦ rw k ])
      | inr f ↦
          let outside : (leb addr a && ltb a (addr + n)) ≡ false = ground arith in
          rw (f, outside, page_of-contents m addr (a / page_size)) refl
    ]
  where
    put_page :
        (q : Page) (ppn : ℕ)
        → page_of
            (record (contents m addr) {
              sparse_memory_map = put (contents m addr).sparse_memory_map (addr / page_size) q;
            })
            ppn
          ≡ (if addr / page_size == ppn then q else page_of (contents m addr) ppn)
    put_page q ppn = page_or_zero-put (contents m addr).sparse_memory_map (addr / page_size) ppn q
