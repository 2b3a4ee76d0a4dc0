-- ===== src/Buckyball/Ram.antt =====
-- What the moves of nvr/buckyball/bucykball.cc need of the memory behind the hart's `mmu_t`: a range of
-- addresses whose bytes can be loaded and stored without an exception.
use spike_online.Base.{
  ℕ, ◌+◌, ◌-◌, ◌*◌, ◌/◌, ◌%◌, ◌^◌, ◌≤◌, ◌<◌, ◌≡◌, ap, ◌∙◌, arith, true, some, List, if◌then◌else◌,
  ◌==◌, bit_or, bit_and, bit_or_fields, bit_and_mask,
}
use spike_online.Buckyball.Run.{Gives, gives, for}
use spike_online.Buckyball.State.{
  Mmu, Machine, load_byte, store_byte, read_bytes, read_from_dram, write_to_dram,
}
use spike_online.Buckyball.Shows.{Shows}

-- `Good` is what an access keeps of the memory, `view` the byte at an address.
pub record Ram {Mem : Type 0} (mmu : Mmu Mem) : Type 1 where
  pub Good : Mem → Type 0
  pub view : Mem → ℕ → ℕ
  pub base : ℕ
  pub size : ℕ
  pub byte : (m : Mem) (a : ℕ) → Good m → view m a < 2 ^ 8
  pub load_answers :
      (m : Mem) (a : ℕ)
      → Good m
      → base ≤ a
      → a < base + size
      → (m' : Mem) × (mmu.load m a ≡ (m', some (view m a)))
        × Good m'
        × ((x : ℕ) → view m' x ≡ view m x)
  pub store_writes :
      (m : Mem) (a v : ℕ)
      → Good m
      → base ≤ a
      → a < base + size
      → v < 2 ^ 8
      → (m' : Mem) × (mmu.store m a v ≡ (m', true))
        × Good m'
        × ((x : ℕ) → view m' x ≡ (if a == x then v else view m x))

module _ {Mem : Type 0} {mmu : Mmu Mem} (ram : Ram mmu) where
  -- A good memory with the bytes of `g`.
  abbrev pub Has : (ℕ → ℕ) → Mem → Type 0
  Has g m = ram.Good m × ((x : ℕ) → ram.view m x ≡ g x)

  module _ {n : ℕ} {rf : List (List ℕ)} {f : ℕ → ℕ → ℕ} {g : ℕ → ℕ} {s : Machine Mem} where
    pub read_from_dram-Gives :
        (a : ℕ)
        → Shows n rf (Has g) f s
        → ram.base ≤ a
        → a < ram.base + ram.size
        → Gives (λ v t. (v ≡ g a) × Shows n rf (Has g) f t) (read_from_dram mmu 1 a s)
    unfolding read_from_dram read_bytes load_byte
    read_from_dram-Gives a h lo hi =
        let (m', loads, good, same) = ram.load_answers s.mem a h.holds.0 lo hi in
        let first : a + 0 ≡ a = omega arith in
        let small : ram.view s.mem a < 2 ^ 8 = ram.byte s.mem a h.holds.0 in
        let value : bit_or 0 (ram.view s.mem a * 2 ^ 0) % 2 ^ 8 ≡ ram.view s.mem a =
          let same_byte : ram.view s.mem a * 2 ^ 0 ≡ ram.view s.mem a = omega arith in
          let joined : bit_or 0 (ram.view s.mem a) ≡ ram.view s.mem a =
            bit_or_fields 8 0 (ram.view s.mem a) small ∙ omega arith in
          rw (same_byte, joined) (omega (arith, small)) in
        rw (first, loads, value)
          (gives (
            h.holds.1 a,
            record {
              same_rf = h.same_rf;
              holds = (good, λ x. same x ∙ h.holds.1 x);
              shape = h.shape;
              cells = h.cells;
            },
          ))

    pub write_to_dram-Gives :
        (a v : ℕ)
        → Shows n rf (Has g) f s
        → ram.base ≤ a
        → a < ram.base + ram.size
        → v < 2 ^ 8
        → Gives
            (λ _. Shows n rf (Has (λ x. if a == x then v else g x)) f)
            (write_to_dram mmu 1 a v s)
    unfolding write_to_dram store_byte for
    write_to_dram-Gives a v h lo hi small =
        let (m', stores, good, shown) = ram.store_writes s.mem a v h.holds.0 lo hi small in
        let first : a + 0 ≡ a = omega arith in
        let value : bit_and (v / 2 ^ 0) (2 ^ 8 - 1) ≡ v =
          omega (arith, small, bit_and_mask (v / 2 ^ 0) 8) in
        rw (first, value, stores)
          (gives (record {
            same_rf = h.same_rf;
            holds = (good, λ x. shown x ∙ ap (λ (b : ℕ). if a == x then v else b) (h.holds.1 x));
            shape = h.shape;
            cells = h.cells;
          }))
