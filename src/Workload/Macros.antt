-- ===== src/Workload/Macros.antt =====
-- The moves as the programs of nvr/workload encode them.
use spike_online.Base.{
  ℕ, ◌+◌, ◌*◌, ◌/◌, ◌^◌, ◌≤◌, ◌<◌, ◌≡◌, refl, ap, ◌∙◌, arith, List, [], ◌∷◌, length, bit_and_mask,
}
use spike_online.Buckyball.Fields.{
  dim, bank_rows, base_dram_addr, base_sp_addr, rows, rf_bank, count,
}
use spike_online.Buckyball.Run.{Gives}
use spike_online.Buckyball.State.{Mmu, Machine}
use spike_online.Buckyball.Move.{mvin, scatter_mvin}
use spike_online.Buckyball.Cells.{IsTable, IsShaped, cell}
use spike_online.Buckyball.Shows.{Shows}
use spike_online.Buckyball.Ram.{Ram, Has}
use spike_online.Buckyball.Transfer.{moved_in, mvin-moved_in}
use spike_online.Buckyball.Scatter.{ShowsWords, scattered, scatter_mvin-scattered}
use spike_online.Workload.Encode.{move_rs2, scatter_rs2, fields-encoded}
use spike_online.Workload.Generator.{count_nonzero}

pub count_nonzero-le : (xs : List ℕ) → count_nonzero xs ≤ length xs
unfolding count_nonzero
count_nonzero-le [] = omega arith
count_nonzero-le (x ∷ xs) = ground (arith, count_nonzero-le xs)

address : (a : ℕ) → a < 2 ^ 32 → base_dram_addr a ≡ a
unfolding base_dram_addr
address a h = omega (arith, h, bit_and_mask (a / 2 ^ 0) 32)

module _ {Mem : Type 0} {mmu : Mmu Mem} (ram : Ram mmu) (g : ℕ → ℕ) where
  -- The range of an array in memory that the unit can address.
  unfoldable pub InRam : ℕ → ℕ → Type 0
  InRam a n = (ram.base ≤ a) × (a + n ≤ ram.base + ram.size) × (a < 2 ^ 32)

  pub mvin_macro :
      {n : ℕ} {rf : List (List ℕ)} {f : ℕ → ℕ → ℕ} (s : Machine Mem) (a sp m : ℕ)
      → Shows n rf (Has ram g) f s
      → InRam a (m * dim)
      → sp < 2 ^ 14
      → m < 2 ^ 10
      → sp + m ≤ n
      → Gives (λ _. Shows n rf (Has ram g) (moved_in f g a sp m)) (mvin mmu a (move_rs2 sp m) s)
  unfolding InRam
  mvin_macro {n = n} {rf = rf} {f = f} s a sp m h in_ram hsp hm room =
      let coded = fields-encoded sp 0 0 m 0 0 in
      let place : base_sp_addr (move_rs2 sp m) ≡ sp = coded.0.0 ∙ omega (arith, hsp) in
      let number : rows (move_rs2 sp m) ≡ m = coded.0.1 ∙ omega (arith, hm) in
      let from = address a in_ram.2 in
      rw (from, place, number) at
        (mvin-moved_in ram f g s a (move_rs2 sp m) h (rw from in_ram.0)
          (rw (from, number) (in_ram.1)) (rw (place, number) room))

  pub scatter_macro :
      {spad : List (List ℕ)} {w : ℕ → ℕ → ℕ} (s : Machine Mem) (a bank m : ℕ)
      → ShowsWords spad (Has ram g) w s
      → InRam a (m * 4)
      → bank < 2
      → m ≤ bank_rows
      → Gives
          (λ _. ShowsWords spad (Has ram g) (scattered w g a bank m))
          (scatter_mvin mmu a (scatter_rs2 bank m) s)
  unfolding InRam
  scatter_macro {spad = spad} {w = w} s a bank m h in_ram hb hm =
      let coded = fields-encoded 0 0 0 m bank 0 in
      let file : rf_bank (scatter_rs2 bank m) ≡ bank = coded.3.0 ∙ omega (arith, hb) in
      let number : count (scatter_rs2 bank m) ≡ m = coded.3.1 ∙ omega (arith, hm) in
      let from = address a in_ram.2 in
      rw (from, file, number) at
        (scatter_mvin-scattered ram g spad w s a (scatter_rs2 bank m) h (rw from in_ram.0)
          (rw (from, number) (in_ram.1)) (rw number hm))

  -- What a step keeps of a state, whichever of its parts change.
  pub show_words_of :
      {n : ℕ} {rf : List (List ℕ)} {f : ℕ → ℕ → ℕ} (s : Machine Mem)
      → Shows n rf (Has ram g) f s
      → IsTable 2 bank_rows (2 ^ 32) rf
      → ShowsWords s.buckyball.spad (Has ram g) (cell rf) s
  show_words_of s h t = record {
    same_spad = refl;
    holds = h.holds;
    shape = rw h.same_rf t;
    words = λ bank i. ap (λ (r : List (List ℕ)). cell r bank i) h.same_rf;
  }

  pub show_cells_of :
      {n : ℕ} {spad : List (List ℕ)} {w f : ℕ → ℕ → ℕ} (s : Machine Mem)
      → ShowsWords spad (Has ram g) w s
      → IsShaped n spad
      → ((r c : ℕ) → cell spad r c ≡ f r c)
      → Shows n s.buckyball.rf (Has ram g) f s
  show_cells_of s h shape cells = record {
    same_rf = refl;
    holds = h.holds;
    shape = rw h.same_spad shape;
    cells = λ r c. ap (λ (p : List (List ℕ)). cell p r c) h.same_spad ∙ cells r c;
  }
