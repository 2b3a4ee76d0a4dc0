-- ===== src/Memory/Flat.antt =====
-- `mem_t` of riscv/devices.cc against a flat array of bytes.
use spike_online.Memory.{
  Memory, Page, page_size, find, contents, page_of, copy_out, store_chunk, chunk, store_loop,
  load_loop, out_of_range, load, store,
}
use spike_online.Memory.Pages.{byte_at, byte_at-contents, byte_at-store_chunk, page_of-contents}
use spike_online.Base.{
  ℕ, zero, suc, ◌+◌, ◌-◌, ◌*◌, ◌/◌, ◌%◌, ◌<◌, ◌≤◌, ◌≡◌, refl, sym, ap, ap₂, ◌∙◌, arith, true, false,
  not, ◌&&◌, ◌||◌, inl, inr, Bool-cases, Option-cases, if_both, none, some, List, [], ◌∷◌, ◌++◌,
  length, drop, get_or, if◌then◌else◌, ltb, leb, ◌==◌, u64,
}

length-drop : (n : ℕ) (xs : List ℕ) → length (drop n xs) ≡ length xs - n
length-drop zero xs = omega arith
length-drop (suc n) [] = omega arith
length-drop (suc n) (x ∷ xs) = omega (arith, length-drop n xs)

get_or-drop : (n i : ℕ) (xs : List ℕ) → get_or (drop n xs) i 0 ≡ get_or xs (n + i) 0
get_or-drop zero i xs = ap (λ (k : ℕ). get_or xs k 0) (omega arith)
get_or-drop (suc n) i [] = refl
get_or-drop (suc n) i (x ∷ xs) =
    get_or-drop n i xs
    ∙ ap (λ (k : ℕ). get_or (x ∷ xs) k 0) (let e : suc (n + i) ≡ suc n + i = omega arith in e)

-- The store loop writes its bytes one after the other from its address on, and nothing else.
byte_at-store_loop :
    (fuel : ℕ) (m : Memory) (addr : ℕ) (bytes : List ℕ) (a : ℕ)
    → length bytes ≤ fuel
    → byte_at (store_loop fuel m addr bytes) a ≡ (
        if leb addr a && ltb a (addr + length bytes)
        then get_or bytes (a - addr) 0
        else byte_at m a)
unfolding store_loop
byte_at-store_loop zero m addr bytes a h = ground arith
byte_at-store_loop (suc fuel) m addr bytes a h = elim (Bool-cases (length bytes == 0)) [
  | inl done ↦ rw (done, store_loop) (ground arith)
  | inr more ↦
      let n = chunk addr (length bytes) in
      let rest =
        byte_at-store_loop fuel (store_chunk m addr bytes n) (addr + n) (drop n bytes) a
          (omega (arith, length-drop n bytes)) in
      let first = byte_at-store_chunk m addr bytes n a (omega arith) in
      let later : leb (addr + n) a ≡ true
          → get_or (drop n bytes) (a - (addr + n)) 0 ≡ get_or bytes (a - addr) 0 =
        λ k.
          get_or-drop n (a - (addr + n)) bytes
          ∙ ap (λ (i : ℕ). get_or bytes i 0) (ground (arith, k)) in
      rw (more, store_loop)
        (rest ∙ elim (Bool-cases (leb (addr + n) a)) [
          | inl k ↦ rw (k, later k) (ground (arith, first, length-drop n bytes))
          | inr k ↦ rw k (ground (arith, first))
        ])
]

-- `len` bytes of the flat array.
unfoldable pub bytes_from : Memory → ℕ → ℕ → List ℕ
bytes_from m a zero = []
bytes_from m a (suc len) = byte_at m a ∷ bytes_from m (a + 1) len

bytes_from-same :
    (m m' : Memory) (a len : ℕ)
    → ((i : ℕ) → byte_at m' i ≡ byte_at m i)
    → bytes_from m' a len ≡ bytes_from m a len
unfolding bytes_from
bytes_from-same m m' a zero h = refl
bytes_from-same m m' a (suc len) h = ap₂ ◌∷◌ (h a) (bytes_from-same m m' (a + 1) len h)

bytes_from-append :
    (m : Memory) (a n k : ℕ) → bytes_from m a (n + k) ≡ bytes_from m a n ++ bytes_from m (a + n) k
unfolding bytes_from
bytes_from-append m a zero k =
    ap₂ (λ (i j : ℕ). bytes_from m i j) (let e : a ≡ a + 0 = omega arith in e) (omega arith)
bytes_from-append m a (suc n) k =
    let e : suc n + k ≡ suc (n + k) = omega arith in
    let shift : a + 1 + n ≡ a + suc n = omega arith in
    rw e (
      ap (λ (l : List ℕ). byte_at m a ∷ l)
        (bytes_from-append m (a + 1) n k
          ∙ ap (λ (i : ℕ). bytes_from m (a + 1) n ++ bytes_from m i k) shift))

copy_out-bytes :
    (m : Memory) (ppn pgoff n : ℕ)
    → pgoff + n ≤ page_size
    → copy_out (page_of m ppn) pgoff n ≡ bytes_from m (ppn * page_size + pgoff) n
unfolding copy_out bytes_from byte_at
copy_out-bytes m ppn pgoff zero h = refl
copy_out-bytes m ppn pgoff (suc n) h =
    let page : (ppn * page_size + pgoff) / page_size ≡ ppn = omega (arith, h) in
    let offset : (ppn * page_size + pgoff) % page_size ≡ pgoff = omega (arith, h) in
    let shift : ppn * page_size + (pgoff + 1) ≡ ppn * page_size + pgoff + 1 = omega arith in
    ap₂ ◌∷◌ (rw (page, offset) refl) (
      copy_out-bytes m ppn (pgoff + 1) n (omega (arith, h))
      ∙ ap (λ (i : ℕ). bytes_from m i n) shift)

no_bytes : (m : Memory) (a : ℕ) → bytes_from m a 0 ≡ []
unfolding bytes_from
no_bytes m a = refl

-- Loading allocates pages and shows no change.
byte_at-load_loop :
    (fuel : ℕ) (m : Memory) (addr len a : ℕ) → byte_at (load_loop fuel m addr len).0 a ≡ byte_at m a
unfolding load_loop
byte_at-load_loop zero m addr len a = refl
byte_at-load_loop (suc fuel) m addr len a =
    let n = chunk addr len in
    if_both (λ (out : Memory × List ℕ). byte_at out.0 a ≡ byte_at m a) (len == 0) refl
      (byte_at-load_loop fuel (contents m addr) (addr + n) (len - n) a ∙ byte_at-contents m addr a)

load_loop-bytes :
    (fuel : ℕ) (m : Memory) (addr len : ℕ)
    → len ≤ fuel
    → (load_loop fuel m addr len).1 ≡ bytes_from m addr len
unfolding load_loop
load_loop-bytes zero m addr len h =
    let e : len ≡ 0 = omega (arith, h) in rw e (sym (no_bytes m addr))
load_loop-bytes (suc fuel) m addr len h = elim (Bool-cases (len == 0)) [
  | inl done ↦
      let e : len ≡ 0 = ground (arith, done) in
      rw (done, load_loop) (sym (no_bytes m addr) ∙ ap (bytes_from m addr) (sym e))
  | inr more ↦
      let n = chunk addr len in
      let ppn = addr / page_size in
      let m' = contents m addr in
      let here : ppn * page_size + addr % page_size ≡ addr = omega arith in
      let whole : n + (len - n) ≡ len = omega arith in
      let first : copy_out (page_of m' ppn) (addr % page_size) n ≡ bytes_from m addr n =
        ap (λ (p : Page). copy_out p (addr % page_size) n) (page_of-contents m addr ppn)
        ∙ copy_out-bytes m ppn (addr % page_size) n (omega arith)
        ∙ ap (λ (i : ℕ). bytes_from m i n) here in
      let rest =
        load_loop-bytes fuel m' (addr + n) (len - n) (ground (arith, more))
        ∙ bytes_from-same m m' (addr + n) (len - n) (byte_at-contents m addr) in
      rw (more, load_loop)
        (ap₂ ◌++◌ first rest
          ∙ sym (bytes_from-append m addr n (len - n))
          ∙ ap (bytes_from m addr) whole)
]

-- The bytes of a list written at an address, over the rest of a memory.
abbrev pub overlay : Memory → ℕ → List ℕ → ℕ → ℕ
overlay m addr bytes a =
    if leb addr a && ltb a (addr + length bytes) then get_or bytes (a - addr) 0 else byte_at m a

-- The paged memory implements a flat array of bytes: a load in range answers the bytes of the array
-- and leaves them as they are; a store in range writes its bytes and nothing else; and an access out
-- of range is refused and changes no byte.
pub refines_flat :
    (m : Memory) (addr len : ℕ) (bytes : List ℕ) (a : ℕ)
    → ((load m addr len).1
        ≡ (if out_of_range m addr len then none else some (bytes_from m addr len)))
      × (byte_at (load m addr len).0 a ≡ byte_at m a)
      × ((store m addr bytes).1 ≡ not (out_of_range m addr (length bytes)))
      × (byte_at (store m addr bytes).0 a
          ≡ (if out_of_range m addr (length bytes) then byte_at m a else overlay m addr bytes a))
unfolding load store
refines_flat m addr len bytes a = (loaded, kept, answered, stored)
  where
    loaded :
        (load m addr len).1
        ≡ (if out_of_range m addr len then none else some (bytes_from m addr len))
    loaded = elim (Bool-cases (out_of_range m addr len)) [
      | inl t ↦ rw (t, load) refl
      | inr f ↦ rw (f, load) (ap some (load_loop-bytes len m addr len (omega arith)))
    ]

    kept : byte_at (load m addr len).0 a ≡ byte_at m a
    kept = elim (Bool-cases (out_of_range m addr len)) [
      | inl t ↦ rw (t, load) refl
      | inr f ↦ rw (f, load) (byte_at-load_loop len m addr len a)
    ]

    answered : (store m addr bytes).1 ≡ not (out_of_range m addr (length bytes))
    answered = elim (Bool-cases (out_of_range m addr (length bytes))) [
      | inl t ↦ rw (t, store) refl
      | inr f ↦ rw (f, store) refl
    ]

    stored :
        byte_at (store m addr bytes).0 a
        ≡ (if out_of_range m addr (length bytes) then byte_at m a else overlay m addr bytes a)
    stored = elim (Bool-cases (out_of_range m addr (length bytes))) [
      | inl t ↦ rw (t, store) refl
      | inr f ↦ rw (f, store) (byte_at-store_loop (length bytes) m addr bytes a (omega arith))
    ]

sz-contents : (m : Memory) (addr : ℕ) → (contents m addr).sz ≡ m.sz
unfolding contents
sz-contents m addr = elim (Option-cases (find m.sparse_memory_map (addr / page_size))) [
  | inl absent ↦ rw (absent, contents) refl
  | inr (page, there) ↦ rw (there, contents) refl
]

sz-store_loop :
    (fuel : ℕ) (m : Memory) (addr : ℕ) (bytes : List ℕ) → (store_loop fuel m addr bytes).sz ≡ m.sz
unfolding store_loop store_chunk
sz-store_loop zero m addr bytes = refl
sz-store_loop (suc fuel) m addr bytes =
    let n = chunk addr (length bytes) in
    if_both (λ (out : Memory). out.sz ≡ m.sz) (length bytes == 0) refl
      (sz-store_loop fuel (store_chunk m addr bytes n) (addr + n) (drop n bytes)
        ∙ sz-contents m addr)

-- An array that has the bytes of a list from an address on shows that list there.
bytes_from-list :
    (m : Memory) (a : ℕ) (bytes : List ℕ)
    → ((k : ℕ) → k < length bytes → byte_at m (a + k) ≡ get_or bytes k 0)
    → bytes_from m a (length bytes) ≡ bytes
unfolding bytes_from
bytes_from-list m a [] h = refl
bytes_from-list m a (x ∷ bytes) h =
    let here : a + 0 ≡ a = omega arith in
    ap₂ ◌∷◌ (ap (byte_at m) (sym here) ∙ h 0 (omega arith)) (
      bytes_from-list m (a + 1) bytes (λ k l.
        let shift : a + 1 + k ≡ a + suc k = omega arith in
        ap (byte_at m) shift ∙ h (suc k) (omega (arith, l))))

-- What is stored in range is loaded again.
pub load-store :
    (m : Memory) (addr : ℕ) (bytes : List ℕ)
    → out_of_range m addr (length bytes) ≡ false
    → (load (store m addr bytes).0 addr (length bytes)).1 ≡ some bytes
unfolding load store
load-store m addr bytes h =
    let len = length bytes in
    let m' = store_loop len m addr bytes in
    let same : out_of_range m' addr len ≡ out_of_range m addr len =
      ap (λ (size : ℕ). ltb (u64 (addr + len)) addr || ltb size (u64 (addr + len)))
        (sz-store_loop len m addr bytes) in
    let there : (k : ℕ) → k < len → byte_at m' (addr + k) ≡ get_or bytes k 0 = λ k l.
      let inside : (leb addr (addr + k) && ltb (addr + k) (addr + len)) ≡ true =
        ground (arith, l) in
      let offset : addr + k - addr ≡ k = omega arith in
      byte_at-store_loop len m addr bytes (addr + k) (omega arith)
      ∙ rw inside (ap (λ (i : ℕ). get_or bytes i 0) offset) in
    rw (h, same, h)
      (ap some
        (load_loop-bytes len m' addr len (omega arith) ∙ bytes_from-list m' addr bytes there))
