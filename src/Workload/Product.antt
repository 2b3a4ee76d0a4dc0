-- ===== src/Workload/Product.antt =====
-- A block that nvr/workload/sparse/matrix_generator.c converts, multiplied by the matrix unit of
-- nvr/buckyball/bucykball.cc.
use spike_online.Base.{
  ℕ, suc, ◌+◌, ◌-◌, ◌*◌, ◌/◌, ◌%◌, ◌^◌, ◌≤◌, ◌<◌, ◌≡◌, refl, ap, ◌∙◌, arith, List, get_or,
  get_elem?, some, length, if◌then◌else◌, ◌==◌, inl, inr, Bool-cases, sum, sum_congr, sum-times,
}
use spike_online.Buckyball.Fields.{dim, a_addr, b_addr, c_addr, row_rf_bank, col_rf_bank}
use spike_online.Buckyball.Fields
use spike_online.Buckyball.Run.{Gives, weaken-Gives}
use spike_online.Buckyball.State.{Machine}
use spike_online.Buckyball.Multiply.{sparse_mul}
use spike_online.Buckyball.Shows.{Shows}
use spike_online.Buckyball.Product.{Apart}
use spike_online.Buckyball.Entry.{added, clip, sums_as}
use spike_online.Buckyball.Sparse.{column, nnz-lt, sparse_mul-added}
use spike_online.Workload.Generator.{CscBlock, fill, csc_block, count_nonzero}
use spike_online.Workload.Block.{entries, elem}
use spike_online.Workload.Columns.{fill-HasCols}
use spike_online.Workload.Count.{count_nonzero-val_idx}

-- The row of a block by the column of the dense matrix at row `b`.
abbrev pub block_dot : List ℕ → (ℕ → ℕ → ℕ) → ℕ → ℕ → ℕ → ℕ
block_dot block_data f b i j = sum dim (λ k. elem block_data dim i k * f (b + k) j)

module _ (block_data : List ℕ) (whole : length block_data ≡ dim * dim) where
  abbrev pub block : CscBlock
  block = csc_block block_data dim

  -- The lists in the register files start with those of the block, and so do the packed values.
  pub record IsLoaded (f : ℕ → ℕ → ℕ) (a : ℕ) (row_indices col_ptrs : List ℕ) : Type 0 where
    pub rows_match : (k : ℕ) → k < block.nnz → get_or row_indices k 0 ≡ get_or block.row_indices k 0
    pub cols_match : (k : ℕ) → k < suc dim → get_or col_ptrs k 0 ≡ get_or block.col_ptr k 0
    pub values_match : (k : ℕ) → k < block.nnz → f (a + k / dim) (k % dim) ≡ get_or block.values k 0

  column-block :
      (f : ℕ → ℕ → ℕ) (a b : ℕ) (row_indices col_ptrs : List ℕ) (col i j : ℕ)
      → IsLoaded f a row_indices col_ptrs
      → block.nnz < 2 ^ 31
      → col < dim
      → i < dim
      → column f a b block.nnz row_indices col_ptrs col i j
        ≡ elem block_data dim i col * f (b + col) j
  unfolding csc_block entries
  column-block f a b row_indices col_ptrs col i j h small hcol hi =
      let cols = fill-HasCols block_data dim in
      let s = fill block_data dim in
      let p = get_or s.col_ptr col 0 in
      let q = get_or s.col_ptr (suc col) 0 in
      let next_col : col + 1 ≡ suc col = omega arith in
      let nnz : s.val_idx ≡ count_nonzero block_data = count_nonzero-val_idx block_data dim whole in
      let bound : q ≤ count_nonzero block_data =
        omega (arith, cols.inside (suc col) (omega (arith, hcol)), nnz) in
      let clipped : clip (count_nonzero block_data) q ≡ q = ground (arith, bound, small) in
      let start = h.cols_match col (omega (arith, hcol)) in
      let stop = h.cols_match (suc col) (omega (arith, hcol)) in
      rw (next_col, start, stop, clipped)
        (sum_congr (q - p) _
            (λ e.
              (if get_or s.row_indices (p + e) 0 == i then get_or s.values (p + e) 0 else 0)
              * f (b + col) j)
            (λ e l.
              let below : p + e < count_nonzero block_data = omega (arith, l, bound) in
              rw (h.rows_match (p + e) below, h.values_match (p + e) below)
                (elim (Bool-cases (get_or s.row_indices (p + e) 0 == i)) [
                  | inl t ↦ rw t refl
                  | inr u ↦ rw u (omega arith)
                ]))
          ∙ sum-times (q - p) (f (b + col) j)
              (λ e. if get_or s.row_indices (p + e) 0 == i then get_or s.values (p + e) 0 else 0)
          ∙ ap (λ (v : ℕ). v * f (b + col) j) (cols.column_of col i hcol ∙ ground (arith, hi)))

  -- If a block is loaded, with its number of entries, and the places of the operands are as
  -- `sparse_mul` needs them, then `sparse_mul` ends, without an exception, in a state whose result
  -- has the product of the block and the dense matrix added to it, modulo 2 ^ 8, and that agrees with
  -- the state before it on the rest.
  pub sparse_mul-block_dot :
      {Mem : Type 0} {n : ℕ} {rf : List (List ℕ)} {Q : Mem → Type 0} {f : ℕ → ℕ → ℕ}
      {s : Machine Mem} (rs1 rs2 : ℕ) (row_indices col_ptrs : List ℕ)
      → Shows n rf Q f s
      → get_elem? rf (row_rf_bank rs2) ≡ some row_indices
      → get_elem? rf (col_rf_bank rs2) ≡ some col_ptrs
      → Apart (b_addr rs1) dim (c_addr rs2) dim
      → b_addr rs1 + dim ≤ n
      → c_addr rs2 + dim ≤ n
      → a_addr rs1 + (Fields.nnz rs2 + 15) / dim ≤ n
      → Apart (a_addr rs1) ((Fields.nnz rs2 + 15) / dim) (c_addr rs2) dim
      → Fields.nnz rs2 ≤ length row_indices
      → dim < length col_ptrs
      → ((k : ℕ) → get_or col_ptrs k 0 < 2 ^ 32)
      → IsLoaded f (a_addr rs1) row_indices col_ptrs
      → Fields.nnz rs2 ≡ block.nnz
      → Gives
          (λ _. Shows n rf Q (added f (c_addr rs2) (block_dot block_data f (b_addr rs1))))
          (sparse_mul rs1 rs2 s)
  sparse_mul-block_dot {f = f} rs1 rs2 row_indices col_ptrs h hr hc apart hb hcn ha va enough hp
        words loaded count =
      let a = a_addr rs1 in
      let b = b_addr rs1 in
      let small : block.nnz < 2 ^ 31 = rw (← count) (nnz-lt rs2) in
      weaken-Gives
        (sparse_mul-added rs1 rs2 row_indices col_ptrs h hr hc apart hb hcn ha va enough hp words)
        λ _ t g. sums_as f (c_addr rs2) _ (block_dot block_data f b) t g (λ i j li lj.
          sum_congr dim _ _ (λ col l.
            ap (λ (m : ℕ). column f a b m row_indices col_ptrs col i j) count
            ∙ column-block f a b row_indices col_ptrs col i j loaded small l li))
