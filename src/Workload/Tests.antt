-- ===== src/Workload/Tests.antt =====
-- Instances for nvr/workload: the operands of an instruction, a matrix of 2 by 2 in one block, and a block with
-- one entry in the scratchpad of the matrix unit.
use spike_online.Base.{
  ==_iff, ◌∙◌, ℕ, ◌+◌, ◌*◌, ◌%◌, ◌^◌, ◌≡◌, refl, sym, ap, arith, inl, List, [], ◌∷◌, ◌++◌, length,
  get_or, replicate, u8, sum,
}
use spike_online.Buckyball.Fields.{
  base_sp_addr, rows, op1_addr, op2_addr, wr_addr, iter, rf_bank, count, a_addr, b_addr, c_addr,
  nnz, row_rf_bank, col_rf_bank,
}
use spike_online.Workload.Encode.{
  spad_addr, move_rs2, mul_rs1, mul_rs2, scatter_rs2, sparse_rs1, sparse_rs2, fields-encoded,
}
use spike_online.Workload.Generator.{
  CscBlock, csc_block, fill, fill_cols, fill_col, fill_rows, fill_elem, count_nonzero, to_int,
  expected_sum, expected_row, expected_rows, compute_expected_result,
}
use spike_online.Workload.Bsr.{
  convert_to_bsr, count_row, count_rows, scan_row, scan_rows, is_nonzero_at,
}
use spike_online.Workload.Fits.{AllFit, convert_to_bsr-AllFit}
use spike_online.Workload.Expected.{compute_expected_result-dot}
use spike_online.Workload.Columns.{HasCols, fill-HasCols}
use spike_online.Workload.Product.{IsLoaded, sparse_mul-block_dot, block_dot}
use spike_online.Buckyball.Run.{Gives}
use spike_online.Buckyball.Multiply.{sparse_mul}
use spike_online.Buckyball.Cells.{cell}
use spike_online.Buckyball.Shows.{Shows}
use spike_online.Buckyball.Entry.{added}
use spike_online.Buckyball.Ram.{Has}
use spike_online.Buckyball.Fixture.{
  pad, indices, blank, machine, flat_ram, machine-Shows, pointers_small,
}
use spike_online.Base.{
  inl, inr, ◌<◌, Bool-cases, zero, suc, true, if_both, if◌then◌else◌, ◌==◌, leb, ◌&&◌, Bool,
}
use spike_online.Buckyball.Fields.{bank_rows, dim}
use spike_online.Buckyball.State.{Machine}
use spike_online.Buckyball.Fixture.{Bytes, flat, banks}
use spike_online.Buckyball.Kept.{replicate-IsTable}
use spike_online.Buckyball.Scatter.{word}
use spike_online.Workload.Block.{elem}
use spike_online.Workload.Product.{block}
use spike_online.Workload.Step.{IsStored, multiply_block, multiply_block-dot}
use spike_online.Workload.Macros.{InRam}

fields-encoded_example :
    ((base_sp_addr (move_rs2 20000 1025) ≡ 20000 % 2 ^ 14)
      × (rows (move_rs2 20000 1025) ≡ 1025 % 2 ^ 10))
    × ((op1_addr (mul_rs1 20000 7) ≡ 20000 % 2 ^ 14) × (op2_addr (mul_rs1 20000 7) ≡ 7 % 2 ^ 14))
    × ((wr_addr (mul_rs2 9 1025) ≡ 9 % 2 ^ 14) × (iter (mul_rs2 9 1025) ≡ 1025 % 2 ^ 10))
    × ((rf_bank (scatter_rs2 1 1025) ≡ 1 % 2) × (count (scatter_rs2 1 1025) ≡ 1025 % 2 ^ 31))
    × ((a_addr (sparse_rs1 20000 7) ≡ 20000 % 2 ^ 14) × (b_addr (sparse_rs1 20000 7) ≡ 7 % 2 ^ 14))
    × ((row_rf_bank (sparse_rs2 1 0 9 1025) ≡ 1 % 2)
        × (col_rf_bank (sparse_rs2 1 0 9 1025) ≡ 0 % 2)
        × (c_addr (sparse_rs2 1 0 9 1025) ≡ 9 % 2 ^ 14)
        × (nnz (sparse_rs2 1 0 9 1025) ≡ 1025 % 2 ^ 12))
fields-encoded_example = fields-encoded 20000 7 9 1025 1 0

result_bank : spad_addr 2 0 ≡ 8192
unfolding spad_addr
result_bank = refl

-- 0 5 / 7 0
abbrev matrix : List ℕ
matrix = 0 ∷ 5 ∷ 7 ∷ 0 ∷ []

converted : csc_block matrix 2 ≡ record {
  col_ptr = 0 ∷ 1 ∷ 2 ∷ [];
  row_indices = 1 ∷ 0 ∷ [];
  values = 7 ∷ 5 ∷ [];
  nnz = 2;
  rows = 2;
  cols = 2;
}
unfolding csc_block fill fill_cols fill_col fill_rows fill_elem count_nonzero
converted = refl

fill-HasCols_test : HasCols matrix 2 2 (fill matrix 2)
fill-HasCols_test = fill-HasCols matrix 2

convert_to_bsr-AllFit_example :
    ((convert_to_bsr matrix 2 2 1).num_blocks ≡ length (convert_to_bsr matrix 2 2 1).blocks)
    × AllFit 1 (convert_to_bsr matrix 2 2 1).blocks
convert_to_bsr-AllFit_example = convert_to_bsr-AllFit matrix 2 2 1

two_blocks : (convert_to_bsr matrix 2 2 1).num_blocks ≡ 2
unfolding convert_to_bsr count_rows count_row scan_rows scan_row is_nonzero_at
two_blocks = refl

-- (-1) * 3 and its row of the product.
compute_expected_result-dot_example :
    get_or (compute_expected_result (255 ∷ 2 ∷ []) (3 ∷ 4 ∷ []) (0 ∷ []) 1 2 1) (0 * 1 + 0) 0
    ≡ u8 (sum 2 (λ e. get_or (255 ∷ 2 ∷ []) (0 * 2 + e) 0 * get_or (3 ∷ 4 ∷ []) (e * 1 + 0) 0))
compute_expected_result-dot_example =
    compute_expected_result-dot (255 ∷ 2 ∷ []) (3 ∷ 4 ∷ []) 2 1 (0 ∷ []) 1 0 0 (omega arith)
      (omega arith) (omega arith)

five : compute_expected_result (255 ∷ 2 ∷ []) (3 ∷ 4 ∷ []) (0 ∷ []) 1 2 1 ≡ 5 ∷ []
unfolding compute_expected_result expected_rows expected_row expected_sum to_int
five = refl

-- A block with a 3 in row 1 of column 0, which is what the fixture has in its scratchpad and registers.
abbrev sparse : List ℕ
sparse = replicate 16 0 ++ (3 ∷ replicate 239 0)

abbrev sparse_block : CscBlock
sparse_block = record {
  col_ptr = 0 ∷ replicate 16 1;
  row_indices = 1 ∷ [];
  values = 3 ∷ [];
  nnz = 1;
  rows = 16;
  cols = 16;
}

sparse_converted : csc_block sparse 16 ≡ sparse_block
unfolding csc_block fill fill_cols fill_col fill_rows fill_elem count_nonzero
sparse_converted = refl

sparse-IsLoaded : IsLoaded sparse refl (cell pad) 16 (1 ∷ []) (0 ∷ replicate 16 1)
unfolding cell
sparse-IsLoaded =
    let one : (csc_block sparse 16).nnz ≡ 1 = ap (λ (b : CscBlock). b.nnz) sparse_converted in
    record {
      rows_match = λ k l.
          let first : k ≡ 0 = omega (arith, l, one) in
          rw first (sym (ap (λ (b : CscBlock). get_or b.row_indices 0 0) sparse_converted));
      cols_match = λ k l. sym (ap (λ (b : CscBlock). get_or b.col_ptr k 0) sparse_converted);
      values_match = λ k l.
          let first : k ≡ 0 = omega (arith, l, one) in
          rw first (sym (ap (λ (b : CscBlock). get_or b.values 0 0) sparse_converted));
    }

sparse_mul-block_dot_example :
    Gives
      (λ _.
        Shows 40 indices (Has flat_ram blank) (added (cell pad) 20 (block_dot sparse (cell pad) 0)))
      (sparse_mul 16 65618 machine)
unfolding a_addr b_addr c_addr nnz row_rf_bank col_rf_bank
sparse_mul-block_dot_example =
    sparse_mul-block_dot sparse refl 16 65618 (1 ∷ []) (0 ∷ replicate 16 1) machine-Shows refl refl
      (inl (omega arith)) (omega arith) (omega arith) (omega arith) (inl (omega arith))
      (omega arith) (omega arith) pointers_small sparse-IsLoaded
      (sym (ap (λ (b : CscBlock). b.nnz) sparse_converted))

-- The arrays of the block at 64, 128 and 192, and a dense matrix with a 5 in row 0 at 1024.
abbrev memory : Bytes
memory a =
    if a == 64
    then 3
    else if a == 128
    then 1
    else if a == 1026
    then 5
    else if leb 196 a && leb a 256 && a % 4 == 0
    then 1
    else 0

memory-lt : (a : ℕ) → memory a < 2 ^ 8
memory-lt a =
    if_both (λ b. b < 2 ^ 8) (a == 64) (omega arith)
      (if_both (λ b. b < 2 ^ 8) (a == 128) (omega arith)
        (if_both (λ b. b < 2 ^ 8) (a == 1026) (omega arith)
          (if_both (λ b. b < 2 ^ 8) (leb 196 a && leb a 256 && a % 4 == 0) (omega arith)
            (omega arith))))

-- `p` holds below `n`.
abbrev all_below : (ℕ → Bool) → ℕ → Bool
all_below p zero = true
all_below p (suc n) = p n && all_below p n

all_below_lem : (p : ℕ → Bool) (n k : ℕ) → all_below p n ≡ true → k < n → p k ≡ true
all_below_lem p zero k h l = elim l [ ]
all_below_lem p (suc n) k h l = elim (Bool-cases (k == n)) [
  | inl same ↦ let here : k ≡ n = ground (arith, same) in rw here (ground (arith, h))
  | inr other ↦ all_below_lem p n k (ground (arith, h)) (ground (arith, l, other))
]

abbrev cleared : Machine Bytes
cleared = record {
  buckyball = record {
    enable = true;
    resetted = true;
    spad = replicate 16384 (replicate dim 0);
    rf = banks;
  };
  mem = memory;
}

cleared-Shows :
    Shows 16384 banks (Has flat_ram memory) (cell (replicate 16384 (replicate dim 0))) cleared
cleared-Shows = record {
  same_rf = refl;
  holds = (memory-lt, λ a. refl);
  shape = replicate-IsTable 16384 dim (2 ^ 8) (omega arith);
  cells = λ r c. refl;
}

memory-IsStored : IsStored flat_ram memory sparse refl 64 128 192
memory-IsStored =
    let one : (csc_block sparse 16).nnz ≡ 1 = ap (λ (b : CscBlock). b.nnz) sparse_converted in
    record {
      values_stored = λ k l.
          let first : k ≡ 0 = omega (arith, l, one) in
          rw first (sym (ap (λ (b : CscBlock). get_or b.values 0 0) sparse_converted));
      rows_stored = λ k l.
          let first : k ≡ 0 = omega (arith, l, one) in
          rw first (sym (ap (λ (b : CscBlock). get_or b.row_indices 0 0) sparse_converted));
      cols_stored = λ k l.
          (==_iff (word memory (192 + k * 4)) (get_or (0 ∷ replicate 16 1) k 0)).0 (
            all_below_lem (λ k. word memory (192 + k * 4) == get_or (0 ∷ replicate 16 1) k 0) 17 k
              refl l)
          ∙ sym (ap (λ (b : CscBlock). get_or b.col_ptr k 0) sparse_converted);
    }

-- The element in row 1 and column 2 of the result.
multiply_block-dot_example :
    Gives
      (λ _ t.
        cell t.buckyball.spad (8192 + 1) 2
        ≡ u8 (
            cell (replicate 16384 (replicate dim 0)) (8192 + 1) 2
            + sum dim (λ k. elem sparse dim 1 k * memory (1024 + k * dim + 2))))
      (multiply_block flat (block sparse refl) 64 1024 128 192 cleared)
unfolding InRam
multiply_block-dot_example =
    multiply_block-dot flat_ram memory sparse refl banks (cell (replicate 16384 (replicate dim 0)))
      cleared 64 1024 128 192 1 2 cleared-Shows
      (replicate-IsTable 2 bank_rows (2 ^ 32) (omega arith))
      (omega arith, omega (arith, ap (λ (b : CscBlock). b.nnz) sparse_converted), omega arith)
      (omega arith, omega arith, omega arith)
      (omega arith, omega (arith, ap (λ (b : CscBlock). b.nnz) sparse_converted), omega arith)
      (omega arith, omega arith, omega arith) memory-IsStored (omega arith) (omega arith)
