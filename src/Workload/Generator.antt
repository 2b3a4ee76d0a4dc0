-- ===== src/Workload/Generator.antt =====
-- nvr/workload/sparse/matrix_generator.c: the product on the host, and the conversion of a matrix to
-- sparse blocks. Arrays are lists, elements 8-bit patterns. An array that is filled from its start on is
-- the list of what is written to it, and allocation does not fail.
use spike_online.Base.{
  ℕ, zero, suc, ◌+◌, ◌-◌, ◌*◌, ◌^◌, Bool, false, not, ◌&&◌, ◌||◌, List, [], ◌∷◌, ◌++◌, get_or, set,
  if◌then◌else◌, ◌==◌, ltb, u8, u32, is_neg,
}

-- An `elem_t` as an `int`.
unfoldable pub to_int : ℕ → ℕ
to_int a = if is_neg 8 a then a + (2 ^ 32 - 2 ^ 8) else a

-- The loops of `compute_expected_result`, each with the rounds that are left.
unfoldable pub expected_sum : List ℕ → List ℕ → ℕ → ℕ → ℕ → ℕ → ℕ → ℕ → ℕ → ℕ
expected_sum a b k_size n_size i j zero k sum = sum
expected_sum a b k_size n_size i j (suc m) k sum =
    expected_sum a b k_size n_size i j m (suc k)
      (u32 (sum + to_int (get_or a (i * k_size + k) 0) * to_int (get_or b (k * n_size + j) 0)))

unfoldable pub expected_row : List ℕ → List ℕ → ℕ → ℕ → ℕ → ℕ → ℕ → List ℕ → List ℕ
expected_row a b k_size n_size i zero j c = c
expected_row a b k_size n_size i (suc m) j c =
    expected_row a b k_size n_size i m (suc j)
      (set c (i * n_size + j) (u8 (expected_sum a b k_size n_size i j k_size 0 0)))

unfoldable pub expected_rows : List ℕ → List ℕ → ℕ → ℕ → ℕ → ℕ → List ℕ → List ℕ
expected_rows a b k_size n_size zero i c = c
expected_rows a b k_size n_size (suc m) i c =
    expected_rows a b k_size n_size m (suc i) (expected_row a b k_size n_size i n_size 0 c)

unfoldable pub compute_expected_result : List ℕ → List ℕ → List ℕ → ℕ → ℕ → ℕ → List ℕ
compute_expected_result a b c m_size k_size n_size = expected_rows a b k_size n_size m_size 0 c

-- `CSCBlock`
pub record CscBlock : Type 0 where
  pub col_ptr : List ℕ
  pub row_indices : List ℕ
  pub values : List ℕ
  pub nnz : ℕ
  pub rows : ℕ
  pub cols : ℕ

-- `BSRMatrix`
pub record BsrMatrix : Type 0 where
  pub blocks : List CscBlock
  pub num_blocks : ℕ
  pub num_block_rows : ℕ
  pub num_block_cols : ℕ
  pub block_size : ℕ
  pub matrix_rows : ℕ
  pub matrix_cols : ℕ

-- The element of the matrix at row `i` and column `j` of a block, 0 outside the matrix.
unfoldable pub block_elem : List ℕ → ℕ → ℕ → ℕ → ℕ → ℕ → ℕ → ℕ → ℕ
block_elem matrix rows cols block_size br bc i j =
    let row = br * block_size + i in
    let col = bc * block_size + j in
    if ltb row rows && ltb col cols then get_or matrix (row * cols + col) 0 else 0

-- The loops that extract a block: row `i`, from column `j` on, and the rows from `i` on.
unfoldable pub extract_row : (ℕ → ℕ → ℕ) → ℕ → ℕ → ℕ → List ℕ
extract_row elem i zero j = []
extract_row elem i (suc m) j = elem i j ∷ extract_row elem i m (suc j)

unfoldable pub extract_rows : (ℕ → ℕ → ℕ) → ℕ → ℕ → ℕ → List ℕ
extract_rows elem block_size zero i = []
extract_rows elem block_size (suc m) i =
    extract_row elem i block_size 0 ++ extract_rows elem block_size m (suc i)

unfoldable pub extract : (ℕ → ℕ → ℕ) → ℕ → List ℕ
extract elem block_size = extract_rows elem block_size block_size 0

-- `nnz` of a block, and whether it has an element other than 0.
unfoldable pub count_nonzero : List ℕ → ℕ
count_nonzero [] = 0
count_nonzero (v ∷ vs) = if not (v == 0) then suc (count_nonzero vs) else count_nonzero vs

unfoldable pub has_nonzero : List ℕ → Bool
has_nonzero [] = false
has_nonzero (v ∷ vs) = not (v == 0) || has_nonzero vs

-- What is filled of a block's arrays.
pub record Filled : Type 0 where
  pub val_idx : ℕ
  pub col_ptr : List ℕ
  pub row_indices : List ℕ
  pub values : List ℕ

unfoldable pub fill_elem : List ℕ → ℕ → ℕ → ℕ → Filled → Filled
fill_elem block_data block_size col row s =
    let val = get_or block_data (row * block_size + col) 0 in
    if not (val == 0)
    then record {
      val_idx = suc s.val_idx;
      col_ptr = s.col_ptr;
      row_indices = s.row_indices ++ (row ∷ []);
      values = s.values ++ (val ∷ []);
    }
    else s

unfoldable pub fill_rows : List ℕ → ℕ → ℕ → ℕ → ℕ → Filled → Filled
fill_rows block_data block_size col zero row s = s
fill_rows block_data block_size col (suc m) row s =
    fill_rows block_data block_size col m (suc row) (fill_elem block_data block_size col row s)

unfoldable pub fill_col : List ℕ → ℕ → ℕ → Filled → Filled
fill_col block_data block_size col s =
    let s' = fill_rows block_data block_size col block_size 0 s in
    record s' { col_ptr = s'.col_ptr ++ (s'.val_idx ∷ []) }

unfoldable pub fill_cols : List ℕ → ℕ → ℕ → ℕ → Filled → Filled
fill_cols block_data block_size zero col s = s
fill_cols block_data block_size (suc m) col s =
    fill_cols block_data block_size m (suc col) (fill_col block_data block_size col s)

abbrev pub empty_fill : Filled
empty_fill = record { val_idx = 0; col_ptr = 0 ∷ []; row_indices = []; values = [] }

unfoldable pub fill : List ℕ → ℕ → Filled
fill block_data block_size = fill_cols block_data block_size block_size 0 empty_fill

unfoldable pub csc_block : List ℕ → ℕ → CscBlock
csc_block block_data block_size =
    let s = fill block_data block_size in
    record {
      col_ptr = s.col_ptr;
      row_indices = s.row_indices;
      values = s.values;
      nnz = count_nonzero block_data;
      rows = block_size;
      cols = block_size;
    }
