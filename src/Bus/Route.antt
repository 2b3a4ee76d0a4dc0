-- ===== src/Bus/Route.antt =====
-- A bus of riscv/devices.cc with memories attached: an access goes through `bus_t` to `mem_t`.
use spike_online.Bus.{
  AbstractDevice, upper_bound, is_empty, find_device, load_item, store_item, load, store,
}
use spike_online.Memory as Memory
use spike_online.Memory.{Memory}
use spike_online.Memory.Flat.{load-store}
use spike_online.Memory.{out_of_range}
use spike_online.Base.{
  ℕ, ◌-◌, ◌<◌, ◌≡◌, refl, ap, ◌∙◌, Bool, false, ◌||◌, inl, inr, Bool-cases, Option, some, List, [],
  get_or, set, get_or-set_self, length, ◌==◌,
}

-- Memories are the devices here: a pointer is the place in a list of them.
abbrev no_memory : Memory
no_memory = record { sz = 0; sparse_memory_map = [] }

abbrev pub memories : AbstractDevice ℕ (List Memory)
memories = record {
  load = λ p heap addr len.
      let out = Memory.load (get_or heap p no_memory) addr len in (set heap p out.0, out.1);
  store = λ p heap addr bytes.
      let out = Memory.store (get_or heap p no_memory) addr bytes in (set heap p out.0, out.1);
}

module _ {ℓ κ} {P : Type ℓ} {H : Type κ} (methods : AbstractDevice P H) where
  -- An access is the access of the device that `find_device` finds, at the offset from its base.
  load-found :
      (devices : List (ℕ × P)) (heap : H) (addr len : ℕ)
      → load methods devices heap addr len
        ≡ load_item methods (find_device devices addr) heap addr len
  unfolding load find_device
  load-found devices heap addr len =
      elim (Bool-cases (is_empty devices || upper_bound devices addr == 0)) [
        | inl t ↦ rw (t, load, find_device) refl
        | inr f ↦ rw (f, load, find_device) refl
      ]

  store-found :
      (devices : List (ℕ × P)) (heap : H) (addr : ℕ) (bytes : List ℕ)
      → store methods devices heap addr bytes
        ≡ store_item methods (find_device devices addr) heap addr bytes
  unfolding store find_device
  store-found devices heap addr bytes =
      elim (Bool-cases (is_empty devices || upper_bound devices addr == 0)) [
        | inl t ↦ rw (t, store, find_device) refl
        | inr f ↦ rw (f, store, find_device) refl
      ]

-- What is stored through the bus into a memory, in its range, is loaded again through the bus.
pub bus_load-store :
    (devices : List (ℕ × ℕ)) (heap : List Memory) (addr base p : ℕ) (bytes : List ℕ)
    → find_device devices addr ≡ some (base, p)
    → p < length heap
    → out_of_range (get_or heap p no_memory) (addr - base) (length bytes) ≡ false
    → (load memories devices (store memories devices heap addr bytes).0 addr (length bytes)).1
      ≡ some bytes
bus_load-store devices heap addr base p bytes found inside range =
    let out = Memory.store (get_or heap p no_memory) (addr - base) bytes in
    let all : store memories devices heap addr bytes ≡ (set heap p out.0, out.1) =
      store-found memories devices heap addr bytes ∙ rw found refl in
    let stored : (store memories devices heap addr bytes).0 ≡ set heap p out.0 =
      ap (λ (o : List Memory × Bool). o.0) all in
    let same : get_or (set heap p (Memory.store (get_or heap p no_memory) (addr - base) bytes).0) p
          no_memory
        ≡ (Memory.store (get_or heap p no_memory) (addr - base) bytes).0 =
      get_or-set_self heap p _ no_memory inside in
    let m = (Memory.store (get_or heap p no_memory) (addr - base) bytes).0 in
    let loaded : load_item memories (some (base, p)) (set heap p m) addr (length bytes)
        ≡ (set (set heap p m) p (Memory.load m (addr - base) (length bytes)).0, some bytes) =
      rw same (
        ap (λ o. (set (set heap p m) p (Memory.load m (addr - base) (length bytes)).0, o))
          (load-store (get_or heap p no_memory) (addr - base) bytes range)) in
    let whole : load memories devices (set heap p m) addr (length bytes)
        ≡ (set (set heap p m) p (Memory.load m (addr - base) (length bytes)).0, some bytes) =
      load-found memories devices (set heap p m) addr (length bytes) ∙ rw found loaded in
    rw stored (ap (λ (out : List Memory × Option (List ℕ)). out.1) whole)
