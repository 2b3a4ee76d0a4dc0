-- ===== src/Buckyball/Sparse.antt =====
-- `sparse_mul` of nvr/buckyball/bucykball.cc: the entries of a sparse matrix, in columns, by the rows of a
-- dense one, added to the result.
use spike_online.Base.{
  ℕ, ◌+◌, ◌-◌, ◌/◌, ◌^◌, ◌≤◌, ◌<◌, ◌≡◌, refl, ap, ◌∙◌, arith, List, get_or, length, sum, ◌>>>◌,
  get_elem?, some, bit_and-le,
}
use spike_online.Buckyball.Fields.{dim, a_addr, b_addr, c_addr, nnz, row_rf_bank, col_rf_bank}
use spike_online.Buckyball.Run.{Gives, for-Gives, at}
use spike_online.Buckyball.State.{Machine}
use spike_online.Buckyball.Multiply.{sparse_col, sparse_mul}
use spike_online.Buckyball.Cells.{get_elem?-get_or}
use spike_online.Buckyball.Shows.{Shows, show_as}
use spike_online.Buckyball.Product.{Apart}
use spike_online.Buckyball.Entry.{added, term, with_terms, clip, sums_as, entry_loop-Gives}

pub nnz-lt : (rs2 : ℕ) → nnz rs2 < 2 ^ 31
unfolding nnz
nnz-lt rs2 = omega (arith, bit_and-le (rs2 >>> 16) 0xFFF)

-- What the entries of column `col` add to an element of the result.
abbrev pub column : (ℕ → ℕ → ℕ) → ℕ → ℕ → ℕ → List ℕ → List ℕ → ℕ → ℕ → ℕ → ℕ
column f a b limit row_indices col_ptrs col i j =
    let start = get_or col_ptrs col 0 in
    sum (clip limit (get_or col_ptrs (col + 1) 0) - start)
      (λ e. term f a b row_indices col (start + e) i j)

module _ {Mem : Type 0} {n : ℕ} {rf : List (List ℕ)} {Q : Mem → Type 0} where
  sparse_col-Gives :
      (f : ℕ → ℕ → ℕ) (a b c limit : ℕ) (row_indices col_ptrs : List ℕ)
      → Apart b dim c dim
      → b + dim ≤ n
      → c + dim ≤ n
      → a + (limit + 15) / dim ≤ n
      → Apart a ((limit + 15) / dim) c dim
      → limit ≤ length row_indices
      → limit < 2 ^ 31
      → dim < length col_ptrs
      → ((k : ℕ) → get_or col_ptrs k 0 < 2 ^ 32)
      → (acc : ℕ → ℕ → ℕ) (s : Machine Mem) (col : ℕ) → Shows n rf Q (added f c acc) s
      → col < dim
      → Gives
          (λ _.
            Shows n rf Q
              (added f c (λ i j. acc i j + column f a b limit row_indices col_ptrs col i j)))
          (sparse_col a b c limit row_indices col_ptrs col s)
  unfolding sparse_col at sum
  sparse_col-Gives f a b c limit row_indices col_ptrs apart hb hc ha va enough hl hp words acc s col
        h hcol =
      let start = get_or col_ptrs col 0 in
      let first = get_elem?-get_or col_ptrs col 0 (omega (arith, hp, hcol)) in
      let last = get_elem?-get_or col_ptrs (col + 1) 0 (omega (arith, hp, hcol)) in
      let zero_more : start + 0 ≡ start = omega arith in
      let h' =
        sums_as f c acc (with_terms acc f a b row_indices col start 0) s h
          (λ i j li lj. omega arith) in
      let loop =
        entry_loop-Gives f c b apart hb hc a limit row_indices ha va enough acc s col start
          (get_or col_ptrs (col + 1) 0) limit 0 h' hcol hl (words (col + 1)) (omega arith)
          (omega arith) in
      rw (first, last) (rw zero_more at loop)

-- The product of the first `k` columns of the sparse matrix and the dense one.
abbrev pub columns : (ℕ → ℕ → ℕ) → ℕ → ℕ → ℕ → List ℕ → List ℕ → ℕ → ℕ → ℕ → ℕ
columns f a b limit row_indices col_ptrs k i j =
    sum k (λ col. column f a b limit row_indices col_ptrs col i j)

-- If the packed values, the dense matrix and the result are in the scratchpad, the result has no row of
-- the others, and the register files have two banks of words with an index for every entry and
-- `dim + 1` column pointers, then `sparse_mul` ends, without an exception, in a state whose result
-- has the product of the two matrices added to it, modulo 2 ^ 8, and that agrees with the
-- state before it on the rest of the scratchpad, on the register files and on what holds of the memory.
pub sparse_mul-added :
    {Mem : Type 0} {n : ℕ} {rf : List (List ℕ)} {Q : Mem → Type 0} {f : ℕ → ℕ → ℕ} {s : Machine Mem}
    (rs1 rs2 : ℕ) (row_indices col_ptrs : List ℕ)
    → Shows n rf Q f s
    → get_elem? rf (row_rf_bank rs2) ≡ some row_indices
    → get_elem? rf (col_rf_bank rs2) ≡ some col_ptrs
    → Apart (b_addr rs1) dim (c_addr rs2) dim
    → b_addr rs1 + dim ≤ n
    → c_addr rs2 + dim ≤ n
    → a_addr rs1 + (nnz rs2 + 15) / dim ≤ n
    → Apart (a_addr rs1) ((nnz rs2 + 15) / dim) (c_addr rs2) dim
    → nnz rs2 ≤ length row_indices
    → dim < length col_ptrs
    → ((k : ℕ) → get_or col_ptrs k 0 < 2 ^ 32)
    → Gives
        (λ _. Shows n rf Q (
          added f
            (c_addr rs2)
            (columns f (a_addr rs1) (b_addr rs1) (nnz rs2) row_indices col_ptrs dim)))
        (sparse_mul rs1 rs2 s)
unfolding sparse_mul at sum
sparse_mul-added {n = n} {rf = rf} {Q = Q} {f = f} {s = s} rs1 rs2 row_indices col_ptrs h hr hcl
      apart hb hc ha va enough hp words =
    let a = a_addr rs1 in
    let b = b_addr rs1 in
    let c = c_addr rs2 in
    let limit = nnz rs2 in
    let rows_there : get_elem? s.buckyball.rf (row_rf_bank rs2) ≡ some row_indices =
      ap (λ (r : List (List ℕ)). get_elem? r (row_rf_bank rs2)) h.same_rf ∙ hr in
    let cols_there : get_elem? s.buckyball.rf (col_rf_bank rs2) ≡ some col_ptrs =
      ap (λ (r : List (List ℕ)). get_elem? r (col_rf_bank rs2)) h.same_rf ∙ hcl in
    rw (rows_there, cols_there)
      (for-Gives (λ k. Shows n rf Q (added f c (columns f a b limit row_indices col_ptrs k))) _ dim
        0 dim s refl
        (λ k t lo lt g.
          sparse_col-Gives f a b c limit row_indices col_ptrs apart hb hc ha va enough (nnz-lt rs2)
            hp words (columns f a b limit row_indices col_ptrs k) t k g lt)
        (show_as _ h (λ r j.
          let small : f r j < 2 ^ 8 = rw (h.cells r j) at (h.shape.bytes r j) in
          ground (arith, small))))
