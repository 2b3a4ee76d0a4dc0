-- ===== src/Workload/Block.antt =====
-- The columns of a sparse block of nvr/workload/sparse/matrix_generator.c hold the elements of the block.
use spike_online.Base.{
  ℕ, zero, suc, ◌+◌, ◌-◌, ◌*◌, ◌≤◌, ◌<◌, ◌≡◌, refl, sym, ap₂, ◌∙◌, arith, not, inl, inr, Bool-cases,
  List, [], ◌∷◌, ◌++◌, length, get_or, if◌then◌else◌, ◌==◌, ltb, sum, sum_congr,
}
use spike_online.Workload.Generator.{Filled, fill_elem}

pub length-append {ℓ} : {A : Type ℓ} (xs ys : List A) → length (xs ++ ys) ≡ length xs + length ys
length-append [] ys = omega arith
length-append (x ∷ xs) ys = omega (arith, length-append xs ys)

pub get_or-append_left :
    (xs ys : List ℕ) (i : ℕ) → i < length xs → get_or (xs ++ ys) i 0 ≡ get_or xs i 0
get_or-append_left [] ys i h = elim h [ ]
get_or-append_left (x ∷ xs) ys zero h = refl
get_or-append_left (x ∷ xs) ys (suc i) h = get_or-append_left xs ys i (omega (arith, h))

pub get_or-append_last : (xs : List ℕ) (y : ℕ) → get_or (xs ++ (y ∷ [])) (length xs) 0 ≡ y
get_or-append_last [] y = refl
get_or-append_last (x ∷ xs) y = get_or-append_last xs y

-- What the entries from `from` on, `n` of them, have in row `i`.
unfoldable pub entries : List ℕ → List ℕ → ℕ → ℕ → ℕ → ℕ
entries row_indices values from n i =
    sum n (λ e. if get_or row_indices (from + e) 0 == i then get_or values (from + e) 0 else 0)

-- The arrays hold `val_idx` entries.
pub record IsEven (s : Filled) : Type 0 where
  pub row_count : length s.row_indices ≡ s.val_idx
  pub value_count : length s.values ≡ s.val_idx

-- The entries of `s` are the first ones of `t`.
pub record Extends (s t : Filled) : Type 0 where
  pub more : s.val_idx ≤ t.val_idx
  pub same_rows : (k : ℕ) → k < s.val_idx → get_or t.row_indices k 0 ≡ get_or s.row_indices k 0
  pub same_values : (k : ℕ) → k < s.val_idx → get_or t.values k 0 ≡ get_or s.values k 0

pub Extends-refl : (s : Filled) → Extends s s
Extends-refl s = record { more = omega arith; same_rows = λ k h. refl; same_values = λ k h. refl }

pub Extends-trans : (s t u : Filled) → Extends s t → Extends t u → Extends s u
Extends-trans s t u h k = record {
  more = omega (arith, h.more, k.more);
  same_rows = λ j l. k.same_rows j (omega (arith, h.more, l)) ∙ h.same_rows j l;
  same_values = λ j l. k.same_values j (omega (arith, h.more, l)) ∙ h.same_values j l;
}

pub entries-Extends :
    (s t : Filled) (from n i : ℕ)
    → Extends s t
    → from + n ≤ s.val_idx
    → entries t.row_indices t.values from n i ≡ entries s.row_indices s.values from n i
unfolding entries
entries-Extends s t from n i h le = sum_congr n _ _ λ e l.
    rw
      (
        h.same_rows (from + e) (omega (arith, le, l)),
        h.same_values (from + e) (omega (arith, le, l)),
      )
      refl

entries_snoc :
    (rows values : List ℕ) (row v from m i : ℕ)
    → length rows ≡ m
    → length values ≡ m
    → from ≤ m
    → entries (rows ++ (row ∷ [])) (values ++ (v ∷ [])) from (suc m - from) i
      ≡ entries rows values from (m - from) i + (if row == i then v else 0)
unfolding entries sum
entries_snoc rows values row v from m i hr hv le =
    let one_more : suc m - from ≡ suc (m - from) = omega (arith, le) in
    let end_rows : from + (m - from) ≡ length rows = omega (arith, le, hr) in
    let end_values : length rows ≡ length values = hr ∙ sym hv in
    let last_row = get_or-append_last rows row in
    let last_value = get_or-append_last values v in
    let first = sum_congr (m - from) _ _ λ e l.
      let here : from + e < length rows = omega (arith, l, hr) in
      let here' : from + e < length values = omega (arith, l, hv) in
      rw
        (
          get_or-append_left rows (row ∷ []) (from + e) here,
          get_or-append_left values (v ∷ []) (from + e) here',
        )
        refl in
    rw (one_more, sum) (ap₂ ◌+◌ first (rw (end_rows, last_row, end_values, last_value) refl))

module _ (block_data : List ℕ) (block_size : ℕ) where
  abbrev pub elem : ℕ → ℕ → ℕ
  elem row col = get_or block_data (row * block_size + col) 0

  pub fill_elem-IsEven :
      (col row : ℕ) (s : Filled) → IsEven s → IsEven (fill_elem block_data block_size col row s)
  unfolding fill_elem
  fill_elem-IsEven col row s h = elim (Bool-cases (not (elem row col == 0))) [
    | inr skip ↦ rw skip h
    | inl take ↦ rw take (record {
      row_count = length-append s.row_indices (row ∷ []) ∙ omega (arith, h.row_count);
      value_count = length-append s.values (elem row col ∷ []) ∙ omega (arith, h.value_count);
    })
  ]

  pub fill_elem-Extends :
      (col row : ℕ) (s : Filled) → IsEven s → Extends s (fill_elem block_data block_size col row s)
  unfolding fill_elem
  fill_elem-Extends col row s h = elim (Bool-cases (not (elem row col == 0))) [
    | inr skip ↦ rw skip (Extends-refl s)
    | inl take ↦ rw take (record {
      more = omega arith;
      same_rows =
          λ k l. get_or-append_left s.row_indices (row ∷ []) k (omega (arith, l, h.row_count));
      same_values = λ k l.
          get_or-append_left s.values (elem row col ∷ []) k (omega (arith, l, h.value_count));
    })
  ]

  -- Column `col` has its first `row` elements in the entries from `from` on.
  pub HasRows : ℕ → ℕ → ℕ → Filled → Type 0
  HasRows from col row s =
      (from ≤ s.val_idx)
      × ((i : ℕ)
          → entries s.row_indices s.values from (s.val_idx - from) i
            ≡ (if ltb i row then elem i col else 0))

  pub fill_elem-HasRows :
      (from col row : ℕ) (s : Filled)
      → IsEven s
      → HasRows from col row s
      → HasRows from col (suc row) (fill_elem block_data block_size col row s)
  unfolding fill_elem HasRows
  fill_elem-HasRows from col row s even h = elim (Bool-cases (not (elem row col == 0))) [
    | inr skip ↦ rw skip (
      h.0,
      λ i. h.1 i ∙ elim (Bool-cases (i == row)) [
        | inl same ↦
            let here : i ≡ row = ground (arith, same) in
            let none : elem row col ≡ 0 = ground (arith, skip) in rw (here, none) (ground arith)
        | inr other ↦ ground (arith, other)
      ],
    )
    | inl take ↦ rw take (
      omega (arith, h.0),
      λ i.
          entries_snoc s.row_indices s.values row (elem row col) from s.val_idx i even.row_count
            even.value_count h.0
          ∙ rw (h.1 i) (elim (Bool-cases (i == row)) [
            | inl same ↦ let here : i ≡ row = ground (arith, same) in rw here (ground arith)
            | inr other ↦ ground (arith, other)
          ]),
    )
  ]

  pub fill_elem-col_ptr :
      (col row : ℕ) (s : Filled) → (fill_elem block_data block_size col row s).col_ptr ≡ s.col_ptr
  unfolding fill_elem
  fill_elem-col_ptr col row s = elim (Bool-cases (not (elem row col == 0))) [
    | inr skip ↦ rw skip refl
    | inl take ↦ rw take refl
  ]

  -- Before the first element of a column.
  pub no_rows : (from col : ℕ) (s : Filled) → from ≡ s.val_idx → HasRows from col 0 s
  unfolding HasRows entries sum
  no_rows from col s e =
      let nothing : s.val_idx - from ≡ 0 = omega (arith, e) in
      (omega (arith, e), λ i. rw nothing (ground arith))

  -- After the last one.
  pub all_rows :
      (from col row i : ℕ) (s : Filled)
      → HasRows from col row s
      → entries s.row_indices s.values from (s.val_idx - from) i
        ≡ (if ltb i row then elem i col else 0)
  unfolding HasRows
  all_rows from col row i s h = h.1 i
