-- ===== src/Buckyball/Transfer.antt =====
-- `mvin` and `mvout` of nvr/buckyball/bucykball.cc between the scratchpad and a memory.
use spike_online.Base.{
  ℕ, suc, ◌+◌, ◌-◌, ◌*◌, ◌/◌, ◌%◌, ◌^◌, ◌≤◌, ◌<◌, ◌≡◌, refl, ◌∙◌, arith, ◌&&◌, true, inl, inr,
  Bool-cases, List, if◌then◌else◌, ltb, leb, ◌==◌,
}
use spike_online.Buckyball.Fields.{dim, base_dram_addr, base_sp_addr, rows}
use spike_online.Buckyball.Run.{for, Gives, for-Gives, next-Gives, weaken-Gives, ◌>>◌}
use spike_online.Buckyball.State.{Mmu, Machine}
use spike_online.Buckyball.Move.{mvin_elem, mvin, mvout_elem, mvout}
use spike_online.Buckyball.Cells.{cell}
use spike_online.Buckyball.Shows.{Shows, show_as, spad_at-reads}
use spike_online.Buckyball.Product.{row_set, set_next}
use spike_online.Buckyball.Ram.{Ram, Has, read_from_dram-Gives, write_to_dram-Gives}

-- The scratchpad with `k` rows from `sp` on that hold the bytes of `g` from `a` on.
abbrev pub moved_in : (ℕ → ℕ → ℕ) → (ℕ → ℕ) → ℕ → ℕ → ℕ → ℕ → ℕ → ℕ
moved_in f g a sp k r c =
    if leb sp r && ltb r (sp + k) && ltb c dim then g (a + (r - sp) * dim + c) else f r c

-- The bytes with `m` elements of the scratchpad, from row `sp` on, stored from `a` on.
abbrev pub moved_out : (ℕ → ℕ → ℕ) → (ℕ → ℕ) → ℕ → ℕ → ℕ → ℕ → ℕ
moved_out f g a sp m x =
    if leb a x && ltb x (a + m) then f (sp + (x - a) / dim) ((x - a) % dim) else g x

module _ {Mem : Type 0} {mmu : Mmu Mem} (ram : Ram mmu) {n : ℕ} {rf : List (List ℕ)} where
  show_bytes :
      {f : ℕ → ℕ → ℕ} {g g' : ℕ → ℕ} (s : Machine Mem)
      → Shows n rf (Has ram g) f s
      → ((x : ℕ) → g x ≡ g' x)
      → Shows n rf (Has ram g') f s
  show_bytes s h e = record {
    same_rf = h.same_rf;
    holds = (h.holds.0, λ x. h.holds.1 x ∙ e x);
    shape = h.shape;
    cells = h.cells;
  }

  mvin_elem-Gives :
      (f : ℕ → ℕ → ℕ) (g : ℕ → ℕ) (s : Machine Mem) (a r j : ℕ)
      → Shows n rf (Has ram g) (row_set f r j (λ c. g (a + c))) s
      → ram.base ≤ a
      → a + dim ≤ ram.base + ram.size
      → r < n
      → j < dim
      → Gives
          (λ _. Shows n rf (Has ram g) (row_set f r (suc j) (λ c. g (a + c))))
          (mvin_elem mmu a r j s)
  unfolding mvin_elem
  mvin_elem-Gives f g s a r j h lo hi hr hj =
      let at_j : j * 1 ≡ j = omega arith in
      rw at_j (
        next-Gives (read_from_dram-Gives ram (a + j) h (omega (arith, lo)) (omega (arith, hi, hj)))
          λ v t q.
            let small : g (a + j) < 2 ^ 8 =
              rw (q.1.holds.1 (a + j)) at (ram.byte t.mem (a + j) q.1.holds.0) in
            rw (q.0) (set_next f (λ c. g (a + c)) t r j q.1 hr hj small))

  mvin_rows :
      (f : ℕ → ℕ → ℕ) (g : ℕ → ℕ) (s : Machine Mem) (a sp k : ℕ)
      → Shows n rf (Has ram g) (moved_in f g a sp k) s
      → ram.base ≤ a
      → a + (k + 1) * dim ≤ ram.base + ram.size
      → sp + k < n
      → Gives
          (λ _. Shows n rf (Has ram g) (moved_in f g a sp (suc k)))
          (for dim 0 (mvin_elem mmu (a + k * dim * 1) (sp + k)) s)
  mvin_rows f g s a sp k h lo hi hr =
      let start = a + k * dim * 1 in
      weaken-Gives
        (for-Gives
          (λ j.
            Shows n rf (Has ram g) (row_set (moved_in f g a sp k) (sp + k) j (λ c. g (start + c))))
          _ dim 0 dim s refl
          (λ j t _ lt q.
            mvin_elem-Gives (moved_in f g a sp k) g t start (sp + k) j q (omega (arith, lo))
              (omega (arith, hi)) hr lt)
          (show_as _ h (λ r c. ground arith)))
        λ _ t q. show_as (moved_in f g a sp (suc k)) q (λ r c. elim (Bool-cases (sp + k == r)) [
          | inl same ↦
              let row : r - sp ≡ k = ground (arith, same) in
              let place : a + k * dim * 1 + c ≡ a + k * dim + c = omega arith in
              rw (row, place) (ground (arith, same))
          | inr other ↦ ground (arith, other)
        ])

  -- If the rows and the bytes are in range, `mvin` ends, without an exception, with the bytes of the
  -- memory in the rows, in order, and with everything else as it was.
  pub mvin-moved_in :
      (f : ℕ → ℕ → ℕ) (g : ℕ → ℕ) (s : Machine Mem) (rs1 rs2 : ℕ)
      → Shows n rf (Has ram g) f s
      → ram.base ≤ base_dram_addr rs1
      → base_dram_addr rs1 + rows rs2 * dim ≤ ram.base + ram.size
      → base_sp_addr rs2 + rows rs2 ≤ n
      → Gives
          (λ _.
            Shows n rf
              (Has ram g)
              (moved_in f g (base_dram_addr rs1) (base_sp_addr rs2) (rows rs2)))
          (mvin mmu rs1 rs2 s)
  unfolding mvin
  mvin-moved_in f g s rs1 rs2 h lo hi hr =
      let a = base_dram_addr rs1 in
      let sp = base_sp_addr rs2 in
      for-Gives (λ k. Shows n rf (Has ram g) (moved_in f g a sp k)) _ (rows rs2) 0 (rows rs2) s
        (omega arith)
        (λ k t _ lt q. mvin_rows f g t a sp k q lo (omega (arith, hi, lt)) (omega (arith, hr, lt)))
        (show_as _ h (λ r c. ground arith))

  mvout_elem-Gives :
      (f : ℕ → ℕ → ℕ) (g : ℕ → ℕ) (s : Machine Mem) (a sp k j : ℕ)
      → Shows n rf (Has ram (moved_out f g a sp (k * dim + j))) f s
      → ram.base ≤ a
      → a + (k + 1) * dim ≤ ram.base + ram.size
      → sp + k < n
      → j < dim
      → Gives
          (λ _. Shows n rf (Has ram (moved_out f g a sp (k * dim + suc j))) f)
          (mvout_elem mmu (a + k * dim * 1) (sp + k) j s)
  unfolding mvout_elem
  mvout_elem-Gives f g s a sp k j h lo hi hr hj =
      let at_j : a + k * dim * 1 + j * 1 ≡ a + (k * dim + j) = omega arith in
      let read = spad_at-reads (sp + k) j h hr hj in
      let small : f (sp + k) j < 2 ^ 8 = rw (h.cells (sp + k) j) at (h.shape.bytes (sp + k) j) in
      rw (read, at_j)
        (weaken-Gives
          (write_to_dram-Gives ram (a + (k * dim + j)) (f (sp + k) j) h (omega (arith, lo))
            (omega (arith, hi, hj)) small)
          λ _ t q. show_bytes t q (λ x. elim (Bool-cases (a + (k * dim + j) == x)) [
            | inl same ↦
                let row : sp + (x - a) / dim ≡ sp + k = ground (arith, same, hj) in
                let col : (x - a) % dim ≡ j = ground (arith, same, hj) in
                rw (row, col) (ground (arith, same))
            | inr other ↦ ground (arith, other)
          ]))

  -- If the rows and the bytes are in range, `mvout` ends, without an exception, with the elements of
  -- the rows in the memory, in order, and with everything else as it was.
  pub mvout-moved_out :
      (f : ℕ → ℕ → ℕ) (g : ℕ → ℕ) (s : Machine Mem) (rs1 rs2 : ℕ)
      → Shows n rf (Has ram g) f s
      → ram.base ≤ base_dram_addr rs1
      → base_dram_addr rs1 + rows rs2 * dim ≤ ram.base + ram.size
      → base_sp_addr rs2 + rows rs2 ≤ n
      → Gives
          (λ _.
            Shows n rf
              (Has ram (moved_out f g (base_dram_addr rs1) (base_sp_addr rs2) (rows rs2 * dim)))
              f)
          (mvout mmu rs1 rs2 s)
  unfolding mvout
  mvout-moved_out f g s rs1 rs2 h lo hi hr =
      let a = base_dram_addr rs1 in
      let sp = base_sp_addr rs2 in
      for-Gives (λ k. Shows n rf (Has ram (moved_out f g a sp (k * dim))) f) _ (rows rs2) 0
        (rows rs2) s (omega arith)
        (λ k t _ lt q.
          weaken-Gives
            (for-Gives (λ j. Shows n rf (Has ram (moved_out f g a sp (k * dim + j))) f) _ dim 0 dim
              t refl
              (λ j u _ less q'.
                mvout_elem-Gives f g u a sp k j q' lo (omega (arith, hi, lt))
                  (omega (arith, hr, lt)) less)
              (show_bytes t q (λ x. ground arith)))
            λ _ u q'. show_bytes u q' (λ x. ground arith))
        (show_bytes s h (λ x. ground arith))

-- What `mvout` stores from some rows, `mvin` loads into others: if the rows and the bytes are in range,
-- the one after the other ends, without an exception, with a copy of the rows in the scratchpad.
pub mvin-mvout :
    {Mem : Type 0} {mmu : Mmu Mem} (ram : Ram mmu) {n : ℕ} {rf : List (List ℕ)} (f : ℕ → ℕ → ℕ)
    (g : ℕ → ℕ) (s : Machine Mem) (rs1 rs2 rs2' : ℕ)
    → Shows n rf (Has ram g) f s
    → ram.base ≤ base_dram_addr rs1
    → base_dram_addr rs1 + rows rs2 * dim ≤ ram.base + ram.size
    → base_sp_addr rs2 + rows rs2 ≤ n
    → base_sp_addr rs2' + rows rs2 ≤ n
    → rows rs2' ≡ rows rs2
    → Gives
        (λ _ t.
          (r c : ℕ)
          → cell t.buckyball.spad r c ≡ (
              if leb (base_sp_addr rs2') r && ltb r (base_sp_addr rs2' + rows rs2) && ltb c dim
              then f (base_sp_addr rs2 + (r - base_sp_addr rs2')) c
              else f r c))
        ((mvout mmu rs1 rs2 >> mvin mmu rs1 rs2') s)
mvin-mvout ram f g s rs1 rs2 rs2' h lo hi hr hr' same =
    let a = base_dram_addr rs1 in
    let sp = base_sp_addr rs2 in
    let sp' = base_sp_addr rs2' in
    let m = rows rs2 * dim in
    next-Gives (mvout-moved_out ram f g s rs1 rs2 h lo hi hr) λ _ t q.
      weaken-Gives
        (mvin-moved_in ram f (moved_out f g a sp m) t rs1 rs2' q lo (rw same hi) (rw same hr'))
        λ _ u q' r c.
          q'.cells r c
          ∙ rw same (elim (Bool-cases (leb sp' r && ltb r (sp' + rows rs2) && ltb c dim)) [
            | inr out ↦ rw out refl
            | inl inside ↦
                let bytes : (leb a (a + (r - sp') * dim + c)
                      && ltb (a + (r - sp') * dim + c) (a + m))
                    ≡ true =
                  ground (arith, inside) in
                let row : (a + (r - sp') * dim + c - a) / dim ≡ r - sp' = ground (arith, inside) in
                let col : (a + (r - sp') * dim + c - a) % dim ≡ c = ground (arith, inside) in
                rw (inside, bytes, row, col) refl
          ])
