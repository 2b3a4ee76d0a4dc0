-- ===== src/Bus.antt =====
-- `bus_t` of riscv/devices.cc: the devices of the system by their base addresses. A pointer to a
-- device is a value of `P`, and the devices' states are a heap `H` that their methods change.
pub mod Find
pub mod Route
mod Tests
use spike_online.Base.{
  ℕ, zero, suc, ◌-◌, Bool, true, false, ◌||◌, Option, none, some, List, [], ◌∷◌, get_elem?,
  if◌then◌else◌, ltb, ◌==◌,
}

-- `abstract_device_t`: the virtual methods, by the pointer.
pub record AbstractDevice {ℓ κ} (P : Type ℓ) (H : Type κ) : Type (ℓ ⊔ κ) where
  pub load : P → H → ℕ → ℕ → H × Option (List ℕ)
  pub store : P → H → ℕ → List ℕ → H × Bool

module _ {ℓ} {P : Type ℓ} where
  -- `devices[addr] = dev`, in a map sorted by its keys.
  pub add_device : List (ℕ × P) → ℕ → P → List (ℕ × P)
  add_device [] addr dev = (addr, dev) ∷ []
  add_device ((base, other) ∷ devices) addr dev =
      if ltb addr base
      then (addr, dev) ∷ (base, other) ∷ devices
      else if base == addr
      then (addr, dev) ∷ devices
      else (base, other) ∷ add_device devices addr dev

  -- The position of the first item above an address, the end if there is none.
  pub upper_bound : List (ℕ × P) → ℕ → ℕ
  upper_bound [] addr = 0
  upper_bound ((base, dev) ∷ devices) addr =
      if ltb addr base then 0 else suc (upper_bound devices addr)

  abbrev pub is_empty : List (ℕ × P) → Bool
  is_empty [] = true
  is_empty (item ∷ devices) = false

  -- none for a null pointer.
  pub find_device : List (ℕ × P) → ℕ → Option (ℕ × P)
  find_device devices addr =
      let it = upper_bound devices addr in
      if is_empty devices || it == 0 then none else get_elem? devices (it - 1)

module _ {ℓ κ} {P : Type ℓ} {H : Type κ} (methods : AbstractDevice P H) where
  -- The heap and the bytes, none where the access is refused. `it->second` and `it->first` are those
  -- of the item before the upper bound.
  abbrev pub load_item : Option (ℕ × P) → H → ℕ → ℕ → H × Option (List ℕ)
  load_item none heap addr len = (heap, none)
  load_item (some (base, dev)) heap addr len = methods.load dev heap (addr - base) len

  pub load : List (ℕ × P) → H → ℕ → ℕ → H × Option (List ℕ)
  load devices heap addr len =
      let it = upper_bound devices addr in
      if is_empty devices || it == 0
      then (heap, none)
      else load_item (get_elem? devices (it - 1)) heap addr len

  abbrev pub store_item : Option (ℕ × P) → H → ℕ → List ℕ → H × Bool
  store_item none heap addr bytes = (heap, false)
  store_item (some (base, dev)) heap addr bytes = methods.store dev heap (addr - base) bytes

  pub store : List (ℕ × P) → H → ℕ → List ℕ → H × Bool
  store devices heap addr bytes =
      let it = upper_bound devices addr in
      if is_empty devices || it == 0
      then (heap, false)
      else store_item (get_elem? devices (it - 1)) heap addr bytes
