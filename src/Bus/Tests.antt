-- ===== src/Bus/Tests.antt =====
-- Runs and instances for the bus of riscv/devices.cc: two memories.
use spike_online.Bus.{add_device, upper_bound, find_device, load, store}
use spike_online.Bus.Find.{IsNearest, attach, find_device-attach}
use spike_online.Bus.Route.{memories, bus_load-store}
use spike_online.Memory.{Memory}
use spike_online.Base.{ℕ, ◌≡◌, refl, some, none, List, [], ◌∷◌, arith}

abbrev items : List (ℕ × ℕ)
items = (0x80000000, 1) ∷ (0x1000, 0) ∷ []

abbrev memory : Memory
memory = record { sz = 4096; sparse_memory_map = [] }

find_test :
    (find_device (attach items) 0xfff ≡ none)
    × (find_device (attach items) 0x1000 ≡ some (0x1000, 0))
    × (find_device (attach items) 0x90000000 ≡ some (0x80000000, 1))
unfolding find_device upper_bound add_device
find_test = (refl, refl, refl)

find_device-attach_example : IsNearest (attach items) 0x1234 (find_device (attach items) 0x1234)
find_device-attach_example = find_device-attach items 0x1234

bus_load-store_example :
    (load memories
      (attach items)
      (store memories (attach items) (memory ∷ memory ∷ []) 0x1010 (7 ∷ 8 ∷ [])).0
      0x1010
      2).1
    ≡ some (7 ∷ 8 ∷ [])
unfolding find_device upper_bound add_device
bus_load-store_example =
    bus_load-store (attach items) (memory ∷ memory ∷ []) 0x1010 0x1000 0 (7 ∷ 8 ∷ []) refl
      (omega arith) refl
