-- ===== src/Memory.antt =====
-- `mem_t` of riscv/devices.cc: a memory whose pages are allocated when they are first touched. A page
-- is the function from its offsets to its bytes; the pages are a list by page number.
pub mod Pages
pub mod Flat
mod Tests
use spike_online.Base.{
  ℕ, zero, suc, ◌+◌, ◌-◌, ◌/◌, ◌%◌, ◌^◌, min, Bool, true, false, not, ◌&&◌, ◌||◌, Option, none,
  some, List, [], ◌∷◌, ◌++◌, length, drop, get_or, if◌then◌else◌, ltb, leb, ◌==◌, u64,
}

abbrev pub page_size : ℕ
page_size = 4096

abbrev pub Page : Type 0
Page = ℕ → ℕ

abbrev pub zero_page : Page
zero_page offset = 0

pub record Memory : Type 0 where
  pub sz : ℕ
  pub sparse_memory_map : List (ℕ × Page)

-- `find` and `operator[]` of the map.
pub find : List (ℕ × Page) → ℕ → Option Page
find [] ppn = none
find ((k, page) ∷ pages) ppn = if k == ppn then some page else find pages ppn

pub put : List (ℕ × Page) → ℕ → Page → List (ℕ × Page)
put [] ppn page = (ppn, page) ∷ []
put ((k, old) ∷ pages) ppn page =
    if k == ppn then (ppn, page) ∷ pages else (k, old) ∷ put pages ppn page

-- none where the constructor throws.
pub construct : ℕ → Option Memory
construct size =
    if size == 0 || not (size % page_size == 0)
    then none
    else some (record { sz = size; sparse_memory_map = [] })

-- `contents`: the memory with the page of an address allocated. The pointer is the page and the
-- offset of the address.
pub contents : Memory → ℕ → Memory
contents m addr = elim (find m.sparse_memory_map (addr / page_size)) [
  | none ↦ record m { sparse_memory_map = put m.sparse_memory_map (addr / page_size) zero_page }
  | some page ↦ m
]

abbrev pub page_or_zero : Option Page → Page
page_or_zero none = zero_page
page_or_zero (some page) = page

pub page_of : Memory → ℕ → Page
page_of m ppn = page_or_zero (find m.sparse_memory_map ppn)

-- `memcpy` of `n` bytes out of a page, and into it.
pub copy_out : Page → ℕ → ℕ → List ℕ
copy_out page pgoff zero = []
copy_out page pgoff (suc n) = page pgoff ∷ copy_out page (pgoff + 1) n

abbrev pub copy_in : Page → ℕ → List ℕ → ℕ → Page
copy_in page pgoff bytes n offset =
    if leb pgoff offset && ltb offset (pgoff + n)
    then get_or bytes (offset - pgoff) 0
    else page offset

pub store_chunk : Memory → ℕ → List ℕ → ℕ → Memory
store_chunk m addr bytes n =
    let m' = contents m addr in
    let ppn = addr / page_size in
    record m' {
      sparse_memory_map =
          put m'.sparse_memory_map ppn (copy_in (page_of m' ppn) (addr % page_size) bytes n);
    }

-- How far one round of the loop goes.
abbrev pub chunk : ℕ → ℕ → ℕ
chunk addr len = min (page_size - addr % page_size) len

-- The loop of `load_store`, on fuel: a round copies at least one byte, so `len` rounds are enough.
pub store_loop : ℕ → Memory → ℕ → List ℕ → Memory
store_loop zero m addr bytes = m
store_loop (suc fuel) m addr bytes =
    let n = chunk addr (length bytes) in
    let rest = store_loop fuel (store_chunk m addr bytes n) (addr + n) (drop n bytes) in
    if length bytes == 0 then m else rest

pub load_loop : ℕ → Memory → ℕ → ℕ → Memory × List ℕ
load_loop zero m addr len = (m, [])
load_loop (suc fuel) m addr len =
    let n = chunk addr len in
    let m' = contents m addr in
    let rest = load_loop fuel m' (addr + n) (len - n) in
    if len == 0
    then (m, [])
    else (rest.0, copy_out (page_of m' (addr / page_size)) (addr % page_size) n ++ rest.1)

abbrev pub out_of_range : Memory → ℕ → ℕ → Bool
out_of_range m addr len = ltb (u64 (addr + len)) addr || ltb m.sz (u64 (addr + len))

-- none where the access is refused.
pub load : Memory → ℕ → ℕ → Memory × Option (List ℕ)
load m addr len =
    if out_of_range m addr len
    then (m, none)
    else let out = load_loop len m addr len in (out.0, some out.1)

pub store : Memory → ℕ → List ℕ → Memory × Bool
store m addr bytes =
    if out_of_range m addr (length bytes)
    then (m, false)
    else (store_loop (length bytes) m addr bytes, true)
