-- ===== src/Workload/Columns.antt =====
-- The conversion of a whole block in nvr/workload/sparse/matrix_generator.c, column by column.
use spike_online.Base.{
  ℕ, zero, suc, ◌+◌, ◌-◌, ◌≤◌, ◌<◌, ◌≡◌, refl, sym, ap, ◌∙◌, arith, inl, inr, Bool-cases, List, [],
  ◌∷◌, ◌++◌, length, get_or, if◌then◌else◌, ◌==◌, ltb,
}
use spike_online.Workload.Generator.{
  Filled, fill_elem, fill_rows, fill_col, fill_cols, fill, empty_fill,
}
use spike_online.Workload.Block.{
  length-append, get_or-append_left, get_or-append_last, entries, IsEven, Extends, Extends-refl,
  Extends-trans, entries-Extends, elem, HasRows, fill_elem-IsEven, fill_elem-Extends,
  fill_elem-HasRows, fill_elem-col_ptr, no_rows, all_rows,
}

module _ (block_data : List ℕ) (block_size : ℕ) where
  fill_rows-HasRows :
      (from col m row : ℕ) (s : Filled)
      → IsEven s
      → HasRows block_data block_size from col row s
      → let t = fill_rows block_data block_size col m row s in
        IsEven t
        × Extends s t
        × HasRows block_data block_size from col (row + m) t
        × (t.col_ptr ≡ s.col_ptr)
  unfolding fill_rows
  fill_rows-HasRows from col zero row s even h =
      let e : row + 0 ≡ row = omega arith in (even, Extends-refl s, rw e h, refl)
  fill_rows-HasRows from col (suc m) row s even h =
      let t = fill_elem block_data block_size col row s in
      let (even', more, rows, ptrs) =
        fill_rows-HasRows from col m (suc row) t
          (fill_elem-IsEven block_data block_size col row s even)
          (fill_elem-HasRows block_data block_size from col row s even h) in
      let e : row + suc m ≡ suc row + m = omega arith in
      (
        even',
        Extends-trans s t _ (fill_elem-Extends block_data block_size col row s even) more,
        rw e rows,
        ptrs ∙ fill_elem-col_ptr block_data block_size col row s,
      )

  -- The first `col` columns are there, each between two pointers.
  pub record HasCols (col : ℕ) (s : Filled) : Type 0 where
    pub even : IsEven s
    pub pointers : length s.col_ptr ≡ suc col
    pub last : get_or s.col_ptr col 0 ≡ s.val_idx
    pub ordered : (c : ℕ) → c < col → get_or s.col_ptr c 0 ≤ get_or s.col_ptr (suc c) 0
    pub inside : (c : ℕ) → c < suc col → get_or s.col_ptr c 0 ≤ s.val_idx
    pub column_of :
        (c i : ℕ)
        → c < col
        → entries s.row_indices s.values
            (get_or s.col_ptr c 0)
            (get_or s.col_ptr (suc c) 0 - get_or s.col_ptr c 0)
            i
          ≡ (if ltb i block_size then elem block_data block_size i c else 0)

  fill_col-HasCols :
      (col : ℕ) (s : Filled)
      → HasCols col s
      → HasCols (suc col) (fill_col block_data block_size col s)
  unfolding fill_col
  fill_col-HasCols col s h =
      let t = fill_rows block_data block_size col block_size 0 s in
      let (even, more, rows, ptrs) =
        fill_rows-HasRows s.val_idx col block_size 0 s h.even
          (no_rows block_data block_size s.val_idx col s refl) in
      let whole : 0 + block_size ≡ block_size = omega arith in
      let count : length t.col_ptr ≡ suc col = ap (length {A = ℕ}) ptrs ∙ h.pointers in
      let old : (c : ℕ)
          → c < suc col
          → get_or (t.col_ptr ++ (t.val_idx ∷ [])) c 0 ≡ get_or s.col_ptr c 0 =
        λ c l.
          get_or-append_left t.col_ptr (t.val_idx ∷ []) c (omega (arith, l, count))
          ∙ ap (λ (p : List ℕ). get_or p c 0) ptrs in
      let new : get_or (t.col_ptr ++ (t.val_idx ∷ [])) (suc col) 0 ≡ t.val_idx =
        ap (λ (k : ℕ). get_or (t.col_ptr ++ (t.val_idx ∷ [])) k 0) (sym count)
        ∙ get_or-append_last t.col_ptr t.val_idx in
      record {
        even = record { row_count = even.row_count; value_count = even.value_count };
        pointers = length-append t.col_ptr (t.val_idx ∷ []) ∙ omega (arith, count);
        last = new;
        ordered = λ c l. elim (Bool-cases (c == col)) [
          | inl same ↦
              let here : c ≡ col = ground (arith, same) in
              rw (here, old col (omega arith), h.last, new) more.more
          | inr other ↦
              rw (old c l, old (suc c) (ground (arith, l, other)))
                (h.ordered c (ground (arith, l, other)))
        ];
        inside = λ c l. elim (Bool-cases (c == suc col)) [
          | inl same ↦ let here : c ≡ suc col = ground (arith, same) in rw (here, new) (omega arith)
          | inr other ↦
              let l' : c < suc col = ground (arith, l, other) in
              rw (old c l') (omega (arith, h.inside c l', more.more))
        ];
        column_of = λ c i l. elim (Bool-cases (c == col)) [
          | inl same ↦
              let here : c ≡ col = ground (arith, same) in
              rw (here, old col (omega arith), h.last, new)
                (all_rows block_data block_size s.val_idx col block_size i t (rw whole at rows))
          | inr other ↦
              let l' : c < col = ground (arith, l, other) in
              rw (old c l, old (suc c) (omega (arith, l')))
                (entries-Extends s t _ _ i more
                    (omega (arith, h.ordered c l', h.inside (suc c) (omega (arith, l'))))
                  ∙ h.column_of c i l')
        ];
      }

  fill_cols-HasCols :
      (m col : ℕ) (s : Filled)
      → HasCols col s
      → HasCols (col + m) (fill_cols block_data block_size m col s)
  unfolding fill_cols
  fill_cols-HasCols zero col s h = let e : col + 0 ≡ col = omega arith in rw e h
  fill_cols-HasCols (suc m) col s h =
      let e : col + suc m ≡ suc col + m = omega arith in
      rw e (
        fill_cols-HasCols m (suc col) (fill_col block_data block_size col s)
          (fill_col-HasCols col s h))

  empty_fill-HasCols : HasCols 0 empty_fill
  empty_fill-HasCols = record {
    even = record { row_count = refl; value_count = refl };
    pointers = refl;
    last = refl;
    ordered = λ c l. elim l [ ];
    inside = λ c l. let e : c ≡ 0 = omega (arith, l) in rw e (omega arith);
    column_of = λ c i l. elim l [ ];
  }

  -- The arrays of a filled block are as long as each other, and between two neighbouring column
  -- pointers they hold the elements of that column of the block: in each row the one entry of that row,
  -- and none if the element is 0.
  pub fill-HasCols : HasCols block_size (fill block_data block_size)
  unfolding fill
  fill-HasCols =
      let whole : 0 + block_size ≡ block_size = omega arith in
      rw whole at (fill_cols-HasCols block_size 0 empty_fill empty_fill-HasCols)
