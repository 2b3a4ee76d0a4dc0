-- ===== src/Memory/Tests.antt =====
-- Instances for `mem_t` of riscv/devices.cc: two pages, and an access that crosses from one to the other.
use spike_online.Memory.{
  Memory, find, put, contents, page_of, copy_out, store_chunk, store_loop, load_loop, load, store,
  construct,
}
use spike_online.Memory.Pages.{byte_at}
use spike_online.Memory.Flat.{refines_flat, load-store, bytes_from}
use spike_online.Base.{ℕ, ◌≡◌, refl, true, some, none, List, [], ◌∷◌}

abbrev memory : Memory
memory = record { sz = 8192; sparse_memory_map = [] }

abbrev word : List ℕ
word = 1 ∷ 2 ∷ 3 ∷ 4 ∷ []

constructed : construct 8192 ≡ some memory
unfolding construct
constructed = refl

not_a_page : construct 100 ≡ none
unfolding construct
not_a_page = refl

refines_flat_example :
    ((load memory 4094 4).1 ≡ some (0 ∷ 0 ∷ 0 ∷ 0 ∷ []))
    × (byte_at (load memory 4094 4).0 4097 ≡ 0)
    × ((store memory 4094 word).1 ≡ true)
    × (byte_at (store memory 4094 word).0 4097 ≡ 4)
unfolding bytes_from byte_at page_of find
refines_flat_example = refines_flat memory 4094 4 word 4097

load-store_test : (load (store memory 4094 word).0 4094 4).1 ≡ some word
load-store_test = load-store memory 4094 word refl

stored : (load (store memory 4094 word).0 4095 2).1 ≡ some (2 ∷ 3 ∷ [])
unfolding load store store_loop load_loop store_chunk contents find put page_of copy_out
stored = refl
