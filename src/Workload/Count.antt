-- ===== src/Workload/Count.antt =====
-- The number of entries of a block in nvr/workload/sparse/matrix_generator.c, counted in the order of the
-- array and filled in the order of the columns.
use spike_online.Base.{
  ℕ, zero, suc, ◌+◌, ◌*◌, ◌≡◌, refl, sym, ap, ◌∙◌, arith, not, inl, inr, Bool-cases, List, [], ◌∷◌,
  length, get_or, if◌then◌else◌, ◌==◌, sum, sum-suc, sum_grid, by_columns,
}
use spike_online.Workload.Generator.{
  Filled, fill_elem, fill_rows, fill_col, fill_cols, fill, empty_fill, count_nonzero,
}

abbrev one_if : ℕ → ℕ
one_if v = if not (v == 0) then 1 else 0

count_nonzero-sum : (xs : List ℕ) → count_nonzero xs ≡ sum (length xs) (λ k. one_if (get_or xs k 0))
unfolding count_nonzero sum
count_nonzero-sum [] = refl
count_nonzero-sum (v ∷ vs) =
    rw (sum-suc (length vs) (λ k. one_if (get_or (v ∷ vs) k 0)))
      (ground (arith, count_nonzero-sum vs))

module _ (block_data : List ℕ) (block_size : ℕ) where
  abbrev here : ℕ → ℕ → ℕ
  here row col = one_if (get_or block_data (row * block_size + col) 0)

  fill_elem-val_idx :
      (col row : ℕ) (s : Filled)
      → (fill_elem block_data block_size col row s).val_idx ≡ s.val_idx + here row col
  unfolding fill_elem
  fill_elem-val_idx col row s =
      elim (Bool-cases (not (get_or block_data (row * block_size + col) 0 == 0))) [
        | inl take ↦ rw take (omega arith)
        | inr skip ↦ rw skip (omega arith)
      ]

  fill_rows-val_idx :
      (col m row start : ℕ) (s : Filled)
      → s.val_idx ≡ start + sum row (λ r. here r col)
      → (fill_rows block_data block_size col m row s).val_idx
        ≡ start + sum (row + m) (λ r. here r col)
  unfolding fill_rows sum
  fill_rows-val_idx col zero row start s h = let e : row + 0 ≡ row = omega arith in rw e h
  fill_rows-val_idx col (suc m) row start s h =
      let e : row + suc m ≡ suc row + m = omega arith in
      rw e
        (fill_rows-val_idx col m (suc row) start _ (omega (arith, fill_elem-val_idx col row s, h)))

  fill_cols-val_idx :
      (m col : ℕ) (s : Filled)
      → s.val_idx ≡ sum col (λ c. sum block_size (λ r. here r c))
      → (fill_cols block_data block_size m col s).val_idx
        ≡ sum (col + m) (λ c. sum block_size (λ r. here r c))
  unfolding fill_cols fill_col sum
  fill_cols-val_idx zero col s h = let e : col + 0 ≡ col = omega arith in rw e h
  fill_cols-val_idx (suc m) col s h =
      let e : col + suc m ≡ suc col + m = omega arith in
      let whole : 0 + block_size ≡ block_size = omega arith in
      let step = fill_rows-val_idx col block_size 0 s.val_idx s (omega arith) in
      rw e (fill_cols-val_idx m (suc col) _ (omega (arith, rw whole at step, h)))

  -- As many entries are filled as were counted for the allocation.
  pub count_nonzero-val_idx :
      length block_data ≡ block_size * block_size
      → (fill block_data block_size).val_idx ≡ count_nonzero block_data
  unfolding fill sum
  count_nonzero-val_idx h =
      let whole : 0 + block_size ≡ block_size = omega arith in
      rw whole at (fill_cols-val_idx block_size 0 empty_fill refl)
      ∙ by_columns here block_size block_size
      ∙ sym (sum_grid block_size block_size (λ k. one_if (get_or block_data k 0)))
      ∙ ap (λ (n : ℕ). sum n (λ k. one_if (get_or block_data k 0))) (sym h)
      ∙ sym (count_nonzero-sum block_data)
