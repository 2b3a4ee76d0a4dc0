-- ===== src/Workload/Bsr.antt =====
-- `convert_to_bsr` of nvr/workload/sparse/matrix_generator.c: the blocks of a matrix that are not empty,
-- counted in one pass and filled in another. Allocation does not fail.
use spike_online.Base.{
  ℕ, zero, suc, ◌+◌, ◌-◌, ◌*◌, ◌/◌, Bool, false, not, ◌&&◌, ◌||◌, List, [], ◌∷◌, ◌++◌, get_or,
  if◌then◌else◌, ◌==◌, ltb,
}
use spike_online.Workload.Generator.{
  CscBlock, BsrMatrix, block_elem, extract, has_nonzero, csc_block,
}

module _ (matrix : List ℕ) (rows cols block_size : ℕ) where
  -- The test of the first pass, and its loops over a block, which stop at the first hit.
  unfoldable pub is_nonzero_at : ℕ → ℕ → ℕ → ℕ → Bool
  is_nonzero_at br bc i j =
      let row = br * block_size + i in
      let col = bc * block_size + j in
      ltb row rows && ltb col cols && not (get_or matrix (row * cols + col) 0 == 0)

  unfoldable pub scan_row : ℕ → ℕ → ℕ → ℕ → ℕ → Bool
  scan_row br bc i zero j = false
  scan_row br bc i (suc m) j = is_nonzero_at br bc i j || scan_row br bc i m (suc j)

  unfoldable pub scan_rows : ℕ → ℕ → ℕ → ℕ → Bool
  scan_rows br bc zero i = false
  scan_rows br bc (suc m) i = scan_row br bc i block_size 0 || scan_rows br bc m (suc i)

  unfoldable pub count_row : ℕ → ℕ → ℕ → ℕ → ℕ
  count_row br zero bc num_blocks = num_blocks
  count_row br (suc m) bc num_blocks =
      count_row br m (suc bc) (if scan_rows br bc block_size 0 then suc num_blocks else num_blocks)

  unfoldable pub count_rows : ℕ → ℕ → ℕ → ℕ → ℕ
  count_rows block_cols zero br num_blocks = num_blocks
  count_rows block_cols (suc m) br num_blocks =
      count_rows block_cols m (suc br) (count_row br block_cols 0 num_blocks)

  abbrev pub data_of : ℕ → ℕ → List ℕ
  data_of br bc = extract (block_elem matrix rows cols block_size br bc) block_size

  -- The second pass, from column `bc` of row `br` on.
  unfoldable pub blocks_row : ℕ → ℕ → ℕ → List CscBlock
  blocks_row br zero bc = []
  blocks_row br (suc m) bc =
      let rest = blocks_row br m (suc bc) in
      if has_nonzero (data_of br bc) then csc_block (data_of br bc) block_size ∷ rest else rest

  unfoldable pub blocks_rows : ℕ → ℕ → ℕ → List CscBlock
  blocks_rows block_cols zero br = []
  blocks_rows block_cols (suc m) br =
      blocks_row br block_cols 0 ++ blocks_rows block_cols m (suc br)

  unfoldable pub convert_to_bsr : BsrMatrix
  convert_to_bsr =
      let block_rows = (rows + block_size - 1) / block_size in
      let block_cols = (cols + block_size - 1) / block_size in
      record {
        blocks = blocks_rows block_cols block_rows 0;
        num_blocks = count_rows block_cols block_rows 0 0;
        num_block_rows = block_rows;
        num_block_cols = block_cols;
        block_size = block_size;
        matrix_rows = rows;
        matrix_cols = cols;
      }
