-- ===== src/Buckyball/Multiply.antt =====
-- The products of nvr/buckyball/bucykball.cc. A sum or product of signed elements, cut to 8 bits, is that
-- of their patterns.
use spike_online.Base.{
  ℕ, zero, suc, ◌+◌, ◌*◌, ◌/◌, ◌%◌, ◌^◌, Bool, ◌&&◌, not, if◌then◌else◌, ltb, u8, u32, is_neg, List,
}
use spike_online.Buckyball.Fields.{
  dim, op1_addr, op2_addr, wr_addr, iter, a_addr, b_addr, c_addr, row_rf_bank, col_rf_bank, nnz,
}
use spike_online.Buckyball.Run.{Run, ◌>>=◌, ◌>>◌, pure, read, at, for}
use spike_online.Buckyball.State.{Machine, spad_at, set_spad}

-- `a < b` of two `int`s.
abbrev pub int_lt : ℕ → ℕ → Bool
int_lt a b = ltb (u32 (a + 2 ^ 31)) (u32 (b + 2 ^ 31))

module _ {Mem : Type 0} where
  -- The loop over k of `mul_warp16`, with `n` rounds to go.
  unfoldable pub dot_loop : ℕ → ℕ → ℕ → ℕ → ℕ → ℕ → Run (Machine Mem) ℕ
  dot_loop op1_row op2_spaddr col zero k sum = pure sum
  dot_loop op1_row op2_spaddr col (suc n) k sum = do
    a ← spad_at op1_row k
    b ← spad_at (op2_spaddr + k) col
    dot_loop op1_row op2_spaddr col n (suc k) (u8 (sum + a * b))

  unfoldable pub mul_row : ℕ → ℕ → ℕ → Run (Machine Mem) (Unit {0})
  mul_row op1_row op2_spaddr result_row = do
    for dim 0 (λ col. set_spad result_row col 0)
    for dim 0 (λ col. do sum ← dot_loop op1_row op2_spaddr col dim 0 0; set_spad result_row col sum)

  unfoldable pub mul_warp16 : ℕ → ℕ → Run (Machine Mem) (Unit {0})
  mul_warp16 rs1 rs2 =
      for (iter rs2) 0 (λ i. mul_row (op1_addr rs1 + i) (op2_addr rs1) (wr_addr rs2 + i))

  -- `C[row, :] += a_val * B[col, :]`
  unfoldable pub add_scaled_row : ℕ → ℕ → ℕ → Run (Machine Mem) (Unit {0})
  add_scaled_row c_row b_row a_val =
      for dim 0
        (λ j. do b ← spad_at b_row j; c ← spad_at c_row j; set_spad c_row j (u8 (c + a_val * b)))

  -- One round of the loop over the entries of a column. A row index is an `int`, so that a negative
  -- one is left out as well as one from `dim` on.
  unfoldable pub entry_round : ℕ → ℕ → ℕ → List ℕ → ℕ → ℕ → Run (Machine Mem) (Unit {0})
  entry_round a_base b_base c_base row_indices col nz_idx = do
    row ← at row_indices nz_idx
    if not (is_neg 32 row) && ltb row dim
        then (do
          a_val ← spad_at (a_base + nz_idx / dim) (nz_idx % dim)
          add_scaled_row (c_base + row) (b_base + col) a_val)
        else pure tt

  -- `for (nz_idx = col_start; nz_idx < col_end && nz_idx < nnz; nz_idx++)`, on fuel. The second
  -- comparison is one of unsigned numbers, so that a negative index ends the loop and `nnz` rounds are
  -- enough.
  unfoldable pub entry_loop :
      ℕ → ℕ → ℕ → (ℕ → Run (Machine Mem) (Unit {0})) → ℕ → Run (Machine Mem) (Unit {0})
  entry_loop zero limit col_end round nz_idx = pure tt
  entry_loop (suc n) limit col_end round nz_idx =
      let rest = entry_loop n limit col_end round (suc nz_idx) in
      if int_lt nz_idx col_end && ltb nz_idx limit then (do round nz_idx; rest) else pure tt

  unfoldable pub sparse_col : ℕ → ℕ → ℕ → ℕ → List ℕ → List ℕ → ℕ → Run (Machine Mem) (Unit {0})
  sparse_col a_base b_base c_base limit row_indices col_ptrs col = do
    col_start ← at col_ptrs col
    col_end ← at col_ptrs (col + 1)
    entry_loop limit limit col_end (entry_round a_base b_base c_base row_indices col) col_start

  unfoldable pub sparse_mul : ℕ → ℕ → Run (Machine Mem) (Unit {0})
  sparse_mul rs1 rs2 = do
    rf ← read (λ s. s.buckyball.rf)
    row_indices ← at rf (row_rf_bank rs2)
    col_ptrs ← at rf (col_rf_bank rs2)
    for dim 0 (sparse_col (a_addr rs1) (b_addr rs1) (c_addr rs2) (nnz rs2) row_indices col_ptrs)
