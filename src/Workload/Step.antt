-- ===== src/Workload/Step.antt =====
-- The step of nvr/workload/sparse/sparse.c that multiplies one sparse block: it moves the block and the
-- dense matrix to the matrix unit and adds their product to the result. The unit is reset.
use spike_online.Base.{
  ℕ, suc, leb, ltb, ◌&&◌, true, false, ◌+◌, ◌-◌, ◌*◌, ◌/◌, ◌%◌, ◌^◌, ◌<◌, ◌≡◌, refl, ◌∙◌, arith,
  inl, List, [], length, get_or, sum, sum_congr, u8,
}
use spike_online.Buckyball.Fields.{
  dim, bank_rows, base_dram_addr, base_sp_addr, rows, rf_bank, count, a_addr, b_addr, c_addr,
  row_rf_bank, col_rf_bank,
}
use spike_online.Buckyball.Fields
use spike_online.Buckyball.Run.{Run, Gives, next-Gives, weaken-Gives, ◌>>◌}
use spike_online.Buckyball.State.{Mmu, Machine}
use spike_online.Buckyball.Move.{mvin, scatter_mvin}
use spike_online.Buckyball.Multiply.{sparse_mul}
use spike_online.Buckyball.Cells.{IsTable, cell, get_elem?-get_or}
use spike_online.Buckyball.Shows.{Shows}
use spike_online.Buckyball.Ram.{Ram, Has}
use spike_online.Buckyball.Transfer.{moved_in}
use spike_online.Buckyball.Scatter.{scattered, word}
use spike_online.Buckyball.Entry.{added}
use spike_online.Workload.Encode.{
  spad_addr, move_rs2, scatter_rs2, sparse_rs1, sparse_rs2, fields-encoded,
}
use spike_online.Workload.Generator.{CscBlock, csc_block}
use spike_online.Workload.Block.{elem}
use spike_online.Workload.Product.{IsLoaded, block, block_dot, sparse_mul-block_dot}
use spike_online.Workload.Macros.{
  count_nonzero-le, InRam, mvin_macro, scatter_macro, show_words_of, show_cells_of,
}

-- `AspAddr`, `BspAddr`, `CspAddr`
unfoldable pub asp_addr : ℕ
asp_addr = spad_addr 0 0

unfoldable pub bsp_addr : ℕ
bsp_addr = spad_addr 1 0

unfoldable pub csp_addr : ℕ
csp_addr = spad_addr 2 0

-- The addresses are those of the block's arrays and of `B_block`.
unfoldable pub multiply_block :
    {Mem : Type 0} → Mmu Mem → CscBlock → ℕ → ℕ → ℕ → ℕ → Run (Machine Mem) (Unit {0})
multiply_block mmu block values b_block row_indices col_ptr = do
  mvin mmu values (move_rs2 asp_addr ((block.nnz + dim - 1) / dim))
  mvin mmu b_block (move_rs2 bsp_addr dim)
  scatter_mvin mmu row_indices (scatter_rs2 0 block.nnz)
  scatter_mvin mmu col_ptr (scatter_rs2 1 (block.cols + 1))
  sparse_mul (sparse_rs1 asp_addr bsp_addr) (sparse_rs2 0 1 csp_addr block.nnz)

module _ {Mem : Type 0} {mmu : Mmu Mem} (ram : Ram mmu) (g : ℕ → ℕ) where
  module _ (d : List ℕ) (whole : length d ≡ dim * dim) where
    -- The arrays of the block in memory.
    pub record IsStored (values row_indices col_ptr : ℕ) : Type 0 where
      pub values_stored :
          (k : ℕ) → k < (block d whole).nnz → g (values + k) ≡ get_or (block d whole).values k 0
      pub rows_stored :
          (k : ℕ)
          → k < (block d whole).nnz
          → word g (row_indices + k * 4) ≡ get_or (block d whole).row_indices k 0
      pub cols_stored :
          (k : ℕ) → k < suc dim → word g (col_ptr + k * 4) ≡ get_or (block d whole).col_ptr k 0

    -- The scratchpad and the registers after the moves.
    abbrev moved : (ℕ → ℕ → ℕ) → ℕ → ℕ → ℕ → ℕ → ℕ
    moved f values b_block =
        moved_in (moved_in f g values 0 (((block d whole).nnz + dim - 1) / dim)) g b_block 4096 dim

    abbrev indexed : (ℕ → ℕ → ℕ) → ℕ → ℕ → ℕ → ℕ → ℕ
    indexed w row_indices col_ptr =
        scattered (scattered w g row_indices 0 (block d whole).nnz) g col_ptr 1 17

    moved-IsLoaded :
        (f w : ℕ → ℕ → ℕ) (values b_block row_indices col_ptr : ℕ) (s : Machine Mem)
        → (block d whole).nnz < 2 ^ 12
        → IsStored values row_indices col_ptr
        → ((bank i : ℕ) → cell s.buckyball.rf bank i ≡ indexed w row_indices col_ptr bank i)
        → IsLoaded d whole
            (moved f values b_block)
            0
            (get_or s.buckyball.rf 0 [])
            (get_or s.buckyball.rf 1 [])
    unfolding cell
    moved-IsLoaded f w values b_block row_indices col_ptr s small stored words = record {
      rows_match = λ k l. words 0 k ∙ ground (arith, l, stored.rows_stored k l);
      cols_match = λ k l. words 1 k ∙ ground (arith, l, stored.cols_stored k l);
      values_match = λ k l.
          let row = 0 + k / dim in
          let place : values + (row - 0) * dim + k % dim ≡ values + k = omega arith in
          let other : (leb 4096 row && ltb row (4096 + dim) && ltb (k % dim) dim) ≡ false =
            ground (arith, l, small) in
          let own : (leb 0 row
                && ltb row (0 + ((block d whole).nnz + dim - 1) / dim)
                && ltb (k % dim) dim)
              ≡ true =
            ground (arith, l) in
          rw (other, own, place) (stored.values_stored k l);
    }

    -- The last instruction, on operands that the moves left in place.
    sparse_macro :
        (f : ℕ → ℕ → ℕ) (s : Machine Mem)
        → Shows 16384 s.buckyball.rf (Has ram g) f s
        → IsTable 2 bank_rows (2 ^ 32) s.buckyball.rf
        → (block d whole).nnz < 2 ^ 12
        → IsLoaded d whole f 0 (get_or s.buckyball.rf 0 []) (get_or s.buckyball.rf 1 [])
        → Gives
            (λ _. Shows 16384 s.buckyball.rf (Has ram g) (added f 8192 (block_dot d f 4096)))
            (sparse_mul (sparse_rs1 0 4096) (sparse_rs2 0 1 8192 (block d whole).nnz) s)
    unfolding cell
    sparse_macro f s h table small loaded =
        let n = (block d whole).nnz in
        let coded = fields-encoded 0 4096 8192 n 0 1 in
        let operands = coded.4 in
        let places = coded.5 in
        let a : a_addr (sparse_rs1 0 4096) ≡ 0 = operands.0 in
        let b : b_addr (sparse_rs1 0 4096) ≡ 4096 = operands.1 in
        let rows_bank : row_rf_bank (sparse_rs2 0 1 8192 n) ≡ 0 = places.0 in
        let cols_bank : col_rf_bank (sparse_rs2 0 1 8192 n) ≡ 1 = places.1 in
        let c : c_addr (sparse_rs2 0 1 8192 n) ≡ 8192 = places.2 in
        let number : Fields.nnz (sparse_rs2 0 1 8192 n) ≡ n = places.3 ∙ omega (arith, small) in
        let rf = s.buckyball.rf in
        let first = get_elem?-get_or rf 0 [] (rw table.height (omega arith)) in
        let second = get_elem?-get_or rf 1 [] (rw table.height (omega arith)) in
        rw (b, c) at
          (sparse_mul-block_dot d whole (sparse_rs1 0 4096) (sparse_rs2 0 1 8192 n) (get_or rf 0 [])
            (get_or rf 1 []) h (rw rows_bank first) (rw cols_bank second)
            (rw (b, c) (inl (omega arith))) (rw b (omega arith)) (rw c (omega arith))
            (rw (a, number) (omega (arith, small))) (rw (a, number, c) (inl (omega (arith, small))))
            (rw (number, table.width 0 (omega arith)) (omega (arith, small)))
            (rw (table.width 1 (omega arith)) (omega arith)) (λ k. table.bytes 1 k) (rw a loaded)
            number)

    few : (block d whole).nnz < 2 ^ 12
    unfolding csc_block
    few = omega (arith, count_nonzero-le d, whole)

    -- An element of the result, in terms of the memory.
    result_elem :
        (f : ℕ → ℕ → ℕ) (values b_block i j : ℕ)
        → i < dim
        → j < dim
        → added
            (moved f values b_block)
            8192
            (block_dot d (moved f values b_block) 4096)
            (8192 + i)
            j
          ≡ u8 (f (8192 + i) j + sum dim (λ k. elem d dim i k * g (b_block + k * dim + j)))
    result_elem f values b_block i j hi hj =
        let n = (block d whole).nnz in
        let inside : (leb 8192 (8192 + i) && ltb (8192 + i) (8192 + dim) && ltb j dim) ≡ true =
          ground (arith, hi, hj) in
        let row : 8192 + i - 8192 ≡ i = omega arith in
        let above : (leb 4096 (8192 + i) && ltb (8192 + i) (4096 + dim) && ltb j dim) ≡ false =
          ground arith in
        let above' : (leb 0 (8192 + i) && ltb (8192 + i) (0 + (n + dim - 1) / dim) && ltb j dim)
            ≡ false =
          ground (arith, few) in
        let dense =
          sum_congr dim (λ k. elem d dim i k * moved f values b_block (4096 + k) j)
            (λ k. elem d dim i k * g (b_block + k * dim + j))
            (λ k l.
              let there : (leb 4096 (4096 + k) && ltb (4096 + k) (4096 + dim) && ltb j dim) ≡ true =
                ground (arith, l, hj) in
              let offset : 4096 + k - 4096 ≡ k = omega arith in rw (there, offset) refl) in
        rw (inside, row, above, above', dense) refl

    -- If the arrays of a converted block and the dense matrix lie in memory that the unit can address, then
    -- the step ends, without an exception, and each element of the result has the product of the
    -- block's row and the dense matrix's column added to it, modulo 2 ^ 8.
    pub multiply_block-dot :
        (rf : List (List ℕ)) (f : ℕ → ℕ → ℕ) (s : Machine Mem)
        (values b_block row_indices col_ptr i j : ℕ)
        → Shows 16384 rf (Has ram g) f s
        → IsTable 2 bank_rows (2 ^ 32) rf
        → InRam ram g values (((block d whole).nnz + dim - 1) / dim * dim)
        → InRam ram g b_block (dim * dim)
        → InRam ram g row_indices ((block d whole).nnz * 4)
        → InRam ram g col_ptr (17 * 4)
        → IsStored values row_indices col_ptr
        → i < dim
        → j < dim
        → Gives
            (λ _ t.
              cell t.buckyball.spad (8192 + i) j
              ≡ u8 (f (8192 + i) j + sum dim (λ k. elem d dim i k * g (b_block + k * dim + j))))
            (multiply_block mmu (block d whole) values b_block row_indices col_ptr s)
    unfolding multiply_block asp_addr bsp_addr csp_addr spad_addr csc_block
    multiply_block-dot rf f s values b_block row_indices col_ptr i j h table in1 in2 in3 in4 stored
          hi hj =
        let n = (block d whole).nnz in
        let f' = moved f values b_block in
        next-Gives
          (mvin_macro ram g s values 0 ((n + dim - 1) / dim) h in1 (omega arith)
            (omega (arith, few)) (omega (arith, few)))
          λ _ s1 h1.
            next-Gives
              (mvin_macro ram g s1 b_block 4096 dim h1 in2 (omega arith) (omega arith)
                (omega arith))
              λ _ s2 h2.
                next-Gives
                  (scatter_macro ram g s2 row_indices 0 n (show_words_of ram g s2 h2 table) in3
                    (omega arith) (omega (arith, few)))
                  λ _ s3 w3.
                    next-Gives
                      (scatter_macro ram g s3 col_ptr 1 17 w3 in4 (omega arith) (omega arith))
                      λ _ s4 w4.
                        weaken-Gives
                          (sparse_macro f' s4 (show_cells_of ram g s4 w4 h2.shape h2.cells) w4.shape
                            few
                            (moved-IsLoaded f (cell rf) values b_block row_indices col_ptr s4 few
                              stored w4.words))
                          λ _ t q. q.cells (8192 + i) j ∙ result_elem f values b_block i j hi hj
