-- ===== src/Buckyball/Tests.antt =====
-- Instances for nvr/buckyball/bucykball.cc.
use spike_online.Base.{
  ℕ, ◌+◌, ◌-◌, leb, ltb, ◌&&◌, ◌^◌, ◌≡◌, refl, arith, false, inl, [], ◌∷◌, replicate, if◌then◌else◌,
}
use spike_online.Buckyball.Fields.{
  rf_bank, count, dim, op1_addr, op2_addr, wr_addr, iter, base_dram_addr, base_sp_addr, rows,
  a_addr, b_addr, c_addr, nnz, row_rf_bank, col_rf_bank,
}
use spike_online.Buckyball.Run.{
  Gives, Run, pure, ◌>>◌, for, at, stopped, out_of_range, illegal_instruction,
}
use spike_online.Buckyball.State.{
  read_from_dram, read_bytes, load_byte, set_rf, Machine, initial, spad_at, set_spad,
}
use spike_online.Buckyball.Move.{scatter_mvin, mvin, mvout}
use spike_online.Buckyball.Multiply.{
  mul_warp16, sparse_mul, sparse_col, entry_round, add_scaled_row, entry_loop, dot_loop, mul_row,
  int_lt,
}
use spike_online.Buckyball.Custom.{custom3, dispatch}
use spike_online.Buckyball.Cells.{cell}
use spike_online.Buckyball.Shows.{Shows}
use spike_online.Buckyball.Product.{product_of, mul_warp16-product_of}
use spike_online.Buckyball.Entry.{added}
use spike_online.Buckyball.Sparse.{columns, sparse_mul-added}
use spike_online.Buckyball.Fuel.{entry_loop_rounds}
use spike_online.Buckyball.Ram.{Has}
use spike_online.Buckyball.Transfer.{mvin-mvout}
use spike_online.Buckyball.Kept.{custom3-IsSized}
use spike_online.Buckyball.Invariant.{IsSized}
use spike_online.Buckyball.Scatter.{ShowsWords, scattered, scatter_mvin-scattered}
use spike_online.Buckyball.Fixture.{
  banks, counting, counting_machine, counting_machine-ShowsWords, pad, indices, Bytes, flat, blank,
  machine, flat_ram, machine-Shows, pointers_small,
}

mul_warp16-product_of_example :
    Gives
      (λ _. Shows 40 indices (Has flat_ram blank) (product_of (cell pad) 16 0 20 1))
      (mul_warp16 16 (2 ^ 14 + 20) machine)
unfolding op1_addr op2_addr wr_addr iter
mul_warp16-product_of_example =
    mul_warp16-product_of 16 (2 ^ 14 + 20) machine-Shows (omega arith) (omega arith) (omega arith)
      (inl (omega arith)) (inl (omega arith))

-- The values at row 16, the dense matrix at row 0, the result at row 20, one entry.
sparse_mul-added_example :
    Gives
      (λ _.
        Shows 40 indices
          (Has flat_ram blank)
          (added (cell pad) 20 (columns (cell pad) 16 0 1 (1 ∷ []) (0 ∷ replicate 16 1) dim)))
      (sparse_mul 16 65618 machine)
unfolding a_addr b_addr c_addr nnz row_rf_bank col_rf_bank
sparse_mul-added_example =
    sparse_mul-added 16 65618 (1 ∷ []) (0 ∷ replicate 16 1) machine-Shows refl refl
      (inl (omega arith)) (omega arith) (omega arith) (omega arith) (inl (omega arith))
      (omega arith) (omega arith) pointers_small

-- Row 0 to row 30 through address 64.
mvin-mvout_example :
    Gives
      (λ _ t.
        (r c : ℕ)
        → cell t.buckyball.spad r c ≡ (
            if leb 30 r && ltb r (30 + 1) && ltb c dim
            then cell pad (0 + (r - 30)) c
            else cell pad r c))
      ((mvout flat 64 (2 ^ 14) >> mvin flat 64 (2 ^ 14 + 30)) machine)
unfolding base_dram_addr base_sp_addr rows
mvin-mvout_example =
    mvin-mvout flat_ram (cell pad) blank machine 64 (2 ^ 14) (2 ^ 14 + 30) machine-Shows
      (omega arith) (omega arith) (omega arith) (omega arith) refl

abbrev unused : Machine Bytes
unused = record { buckyball = initial false; mem = blank }

custom3-IsSized_example : IsSized (custom3 flat 24 0 0 unused).0
unfolding initial
custom3-IsSized_example = custom3-IsSized flat 24 0 0 unused (λ e. cc)

abbrev mark : ℕ → Run (Machine Bytes) (Unit {0})
mark nz = set_spad nz 0 1

entry_loop_rounds_test :
    entry_loop 4 4 2 mark 1
    ≡ (if int_lt 1 2 && ltb 1 4 then (do mark 1; entry_loop 4 4 2 mark 2) else pure tt)
entry_loop_rounds_test = entry_loop_rounds 4 2 mark 1

product_seen : cell (mul_warp16 16 (2 ^ 14 + 20) machine).0.buckyball.spad 20 2 ≡ 15
unfolding cell mul_warp16 mul_row dot_loop for spad_at set_spad at op1_addr op2_addr wr_addr iter
product_seen = refl

sparse_seen : cell (sparse_mul 16 65618 machine).0.buckyball.spad 21 2 ≡ 15
unfolding cell sparse_mul sparse_col entry_loop entry_round add_scaled_row for spad_at set_spad at
    a_addr b_addr c_addr nnz row_rf_bank col_rf_bank
sparse_seen = refl

unknown_instruction : (custom3 flat 1 0 0 machine).1 ≡ stopped illegal_instruction
unfolding custom3 dispatch
unknown_instruction = refl

outside : (set_spad 40 0 1 machine).1 ≡ stopped out_of_range
unfolding set_spad at
outside = refl

-- Two words from address 64 to bank 1.
scatter_mvin-scattered_example :
    Gives
      (λ _. ShowsWords pad (Has flat_ram counting) (scattered (cell banks) counting 64 1 2))
      (scatter_mvin flat 64 5 counting_machine)
unfolding base_dram_addr rf_bank count
scatter_mvin-scattered_example =
    scatter_mvin-scattered flat_ram counting pad (cell banks) counting_machine 64 5
      counting_machine-ShowsWords (omega arith) (omega arith) (omega arith)

words_seen : cell (scatter_mvin flat 64 5 counting_machine).0.buckyball.rf 1 1 ≡ 0x47464544
unfolding cell scatter_mvin base_dram_addr rf_bank count for read_from_dram read_bytes load_byte
    set_rf at
words_seen = refl
