-- ===== src/Workload/Fits.antt =====
-- The two passes of `convert_to_bsr` of nvr/workload/sparse/matrix_generator.c agree: what the second
-- writes fits what the first counted.
use spike_online.Base.{
  ℕ, zero, suc, ◌+◌, ◌*◌, ◌<◌, ◌≡◌, refl, sym, ap₂, ◌∙◌, arith, true, not, ◌||◌, inl, inr,
  Bool-cases, List, [], ◌∷◌, ◌++◌, length, ◌==◌,
}
use spike_online.Workload.Generator.{
  CscBlock, block_elem, extract, extract_row, extract_rows, has_nonzero, count_nonzero, csc_block,
}
use spike_online.Workload.Bsr.{
  is_nonzero_at, scan_row, scan_rows, count_row, count_rows, data_of, blocks_row, blocks_rows,
  convert_to_bsr,
}
use spike_online.Workload.Block.{length-append}
use spike_online.Workload.Extract.{length-extract}
use spike_online.Workload.Columns.{fill-HasCols}
use spike_online.Workload.Count.{count_nonzero-val_idx}

has_nonzero-append : (xs ys : List ℕ) → has_nonzero (xs ++ ys) ≡ (has_nonzero xs || has_nonzero ys)
unfolding has_nonzero
has_nonzero-append [] ys = refl
has_nonzero-append (x ∷ xs) ys = rw (has_nonzero-append xs ys) (ground arith)

count_nonzero-pos : (xs : List ℕ) → has_nonzero xs ≡ true → 0 < count_nonzero xs
unfolding has_nonzero count_nonzero
count_nonzero-pos [] h = cc
count_nonzero-pos (x ∷ xs) h = ground (arith, h, count_nonzero-pos xs)

-- The arrays of a block are as long as they were allocated, and the block is not empty.
pub record Fits (block_size : ℕ) (b : CscBlock) : Type 0 where
  pub pointers_fit : length b.col_ptr ≡ block_size + 1
  pub rows_fit : length b.row_indices ≡ b.nnz
  pub values_fit : length b.values ≡ b.nnz
  pub is_filled : 0 < b.nnz

unfoldable pub AllFit : ℕ → List CscBlock → Type 0
AllFit block_size [] = Unit {0}
AllFit block_size (b ∷ bs) = Fits block_size b × AllFit block_size bs

AllFit-append :
    (block_size : ℕ) (bs cs : List CscBlock)
    → AllFit block_size bs
    → AllFit block_size cs
    → AllFit block_size (bs ++ cs)
unfolding AllFit
AllFit-append block_size [] cs h k = k
AllFit-append block_size (b ∷ bs) cs h k = (h.0, AllFit-append block_size bs cs h.1 k)

csc_block-Fits :
    (d : List ℕ) (block_size : ℕ)
    → length d ≡ block_size * block_size
    → has_nonzero d ≡ true
    → Fits block_size (csc_block d block_size)
unfolding csc_block
csc_block-Fits d block_size whole h =
    let cols = fill-HasCols d block_size in
    let count = count_nonzero-val_idx d block_size whole in
    record {
      pointers_fit = cols.pointers ∙ omega arith;
      rows_fit = cols.even.row_count ∙ count;
      values_fit = cols.even.value_count ∙ count;
      is_filled = count_nonzero-pos d h;
    }

module _ (matrix : List ℕ) (rows cols block_size : ℕ) where
  is_nonzero_at-elem :
      (br bc i j : ℕ)
      → is_nonzero_at matrix rows cols block_size br bc i j
        ≡ not (block_elem matrix rows cols block_size br bc i j == 0)
  unfolding is_nonzero_at block_elem
  is_nonzero_at-elem br bc i j = ground arith

  scan_row-has_nonzero :
      (br bc i m j : ℕ)
      → scan_row matrix rows cols block_size br bc i m j
        ≡ has_nonzero (extract_row (block_elem matrix rows cols block_size br bc) i m j)
  unfolding scan_row has_nonzero extract_row
  scan_row-has_nonzero br bc i zero j = refl
  scan_row-has_nonzero br bc i (suc m) j =
      ap₂ ◌||◌ (is_nonzero_at-elem br bc i j) (scan_row-has_nonzero br bc i m (suc j))

  scan_rows-has_nonzero :
      (br bc m i : ℕ)
      → scan_rows matrix rows cols block_size br bc m i
        ≡ has_nonzero (extract_rows (block_elem matrix rows cols block_size br bc) block_size m i)
  unfolding scan_rows has_nonzero extract_rows
  scan_rows-has_nonzero br bc zero i = refl
  scan_rows-has_nonzero br bc (suc m) i =
      ap₂ ◌||◌ (scan_row-has_nonzero br bc i block_size 0) (scan_rows-has_nonzero br bc m (suc i))
      ∙ sym (
          has_nonzero-append
            (extract_row (block_elem matrix rows cols block_size br bc) i block_size 0)
            (extract_rows (block_elem matrix rows cols block_size br bc) block_size m (suc i)))

  count_row-length :
      (br m bc num_blocks : ℕ)
      → count_row matrix rows cols block_size br m bc num_blocks
        ≡ num_blocks + length (blocks_row matrix rows cols block_size br m bc)
  unfolding count_row blocks_row extract
  count_row-length br zero bc num_blocks = omega arith
  count_row-length br (suc m) bc num_blocks =
      rw (scan_rows-has_nonzero br bc block_size 0)
        (elim (Bool-cases (has_nonzero (data_of matrix rows cols block_size br bc))) [
          | inl t ↦ rw t (count_row-length br m (suc bc) (suc num_blocks) ∙ omega arith)
          | inr u ↦ rw u (count_row-length br m (suc bc) num_blocks)
        ])

  count_rows-length :
      (block_cols m br num_blocks : ℕ)
      → count_rows matrix rows cols block_size block_cols m br num_blocks
        ≡ num_blocks + length (blocks_rows matrix rows cols block_size block_cols m br)
  unfolding count_rows blocks_rows
  count_rows-length block_cols zero br num_blocks = omega arith
  count_rows-length block_cols (suc m) br num_blocks =
      count_rows-length block_cols m (suc br) _
      ∙ omega (
        arith,
        count_row-length br block_cols 0 num_blocks,
        length-append (blocks_row matrix rows cols block_size br block_cols 0)
            (blocks_rows matrix rows cols block_size block_cols m (suc br)),
      )

  blocks_row-AllFit :
      (br m bc : ℕ) → AllFit block_size (blocks_row matrix rows cols block_size br m bc)
  unfolding blocks_row AllFit
  blocks_row-AllFit br zero bc = tt
  blocks_row-AllFit br (suc m) bc =
      elim (Bool-cases (has_nonzero (data_of matrix rows cols block_size br bc))) [
        | inl t ↦ rw t (
          csc_block-Fits (data_of matrix rows cols block_size br bc) block_size
              (length-extract (block_elem matrix rows cols block_size br bc) block_size) t,
          blocks_row-AllFit br m (suc bc),
        )
        | inr u ↦ rw u (blocks_row-AllFit br m (suc bc))
      ]

  blocks_rows-AllFit :
      (block_cols m br : ℕ)
      → AllFit block_size (blocks_rows matrix rows cols block_size block_cols m br)
  unfolding blocks_rows AllFit
  blocks_rows-AllFit block_cols zero br = tt
  blocks_rows-AllFit block_cols (suc m) br =
      AllFit-append block_size _ _ (blocks_row-AllFit br block_cols 0)
        (blocks_rows-AllFit block_cols m (suc br))

  -- The second pass fills as many blocks as the first one counted, and in each of them, which has an
  -- entry, it writes as many row indices and values as were counted for it, and one column pointer more
  -- than it has columns: no write is outside its array, and none is left out.
  pub convert_to_bsr-AllFit :
      let bsr = convert_to_bsr matrix rows cols block_size in
      (bsr.num_blocks ≡ length bsr.blocks) × AllFit block_size bsr.blocks
  unfolding convert_to_bsr
  convert_to_bsr-AllFit = (count_rows-length _ _ 0 0 ∙ omega arith, blocks_rows-AllFit _ _ 0)
