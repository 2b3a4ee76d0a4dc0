-- ===== src/Buckyball/Move.antt =====
-- The moves between memory and the unit of nvr/buckyball/bucykball.cc. The addresses stay below 2 ^ 33,
-- so that the sums of the source do not wrap.
use spike_online.Base.{ℕ, ◌+◌, ◌*◌}
use spike_online.Buckyball.Fields.{dim, base_dram_addr, base_sp_addr, rows, rf_bank, count}
use spike_online.Buckyball.Run.{Run, ◌>>=◌, for}
use spike_online.Buckyball.State.{
  Mmu, Machine, spad_at, set_spad, set_rf, read_from_dram, write_to_dram,
}

module _ {Mem : Type 0} (mmu : Mmu Mem) where
  unfoldable pub mvin_elem : ℕ → ℕ → ℕ → Run (Machine Mem) (Unit {0})
  mvin_elem dram_row_addr spad_row j = do
    value ← read_from_dram mmu 1 (dram_row_addr + j * 1)
    set_spad spad_row j value

  unfoldable pub mvin : ℕ → ℕ → Run (Machine Mem) (Unit {0})
  mvin rs1 rs2 =
      for (rows rs2) 0
        (λ i. for dim 0 (mvin_elem (base_dram_addr rs1 + i * dim * 1) (base_sp_addr rs2 + i)))

  unfoldable pub mvout_elem : ℕ → ℕ → ℕ → Run (Machine Mem) (Unit {0})
  mvout_elem dram_row_addr spad_row j = do
    value ← spad_at spad_row j
    write_to_dram mmu 1 (dram_row_addr + j * 1) value

  unfoldable pub mvout : ℕ → ℕ → Run (Machine Mem) (Unit {0})
  mvout rs1 rs2 =
      for (rows rs2) 0
        (λ i. for dim 0 (mvout_elem (base_dram_addr rs1 + i * dim * 1) (base_sp_addr rs2 + i)))

  unfoldable pub scatter_mvin : ℕ → ℕ → Run (Machine Mem) (Unit {0})
  scatter_mvin rs1 rs2 = for (count rs2) 0 (λ i. do
    value ← read_from_dram mmu 4 (base_dram_addr rs1 + i * 4)
    set_rf (rf_bank rs2) i value)
