-- ===== src/Workload/Extract.antt =====
-- The blocks that nvr/workload/sparse/matrix_generator.c extracts: the element of a row and a column is where
-- the code reads it.
use spike_online.Base.{
  ℕ, zero, suc, ◌+◌, ◌*◌, ◌<◌, ◌≡◌, refl, ap, ◌∙◌, arith, List, [], ◌∷◌, ◌++◌, length, get_or,
}
use native.Mathlib.Nat.{add-mul}
use spike_online.Workload.Generator.{extract, extract_row, extract_rows}
use spike_online.Workload.Block.{length-append, get_or-append_left}

get_or-append_right : (xs ys : List ℕ) (i : ℕ) → get_or (xs ++ ys) (length xs + i) 0 ≡ get_or ys i 0
get_or-append_right [] ys i = ap (λ (k : ℕ). get_or ys k 0) (let e : 0 + i ≡ i = omega arith in e)
get_or-append_right (x ∷ xs) ys i =
    let e : suc (length xs) + i ≡ suc (length xs + i) = omega arith in
    rw e (get_or-append_right xs ys i)

module _ (elem : ℕ → ℕ → ℕ) (block_size : ℕ) where
  length-extract_row : (i m j : ℕ) → length (extract_row elem i m j) ≡ m
  unfolding extract_row
  length-extract_row i zero j = refl
  length-extract_row i (suc m) j = ap suc (length-extract_row i m (suc j))

  get_or-extract_row : (i m j k : ℕ) → k < m → get_or (extract_row elem i m j) k 0 ≡ elem i (j + k)
  unfolding extract_row
  get_or-extract_row i zero j k h = elim h [ ]
  get_or-extract_row i (suc m) j zero h = let e : j + 0 ≡ j = omega arith in rw e refl
  get_or-extract_row i (suc m) j (suc k) h =
      let e : j + suc k ≡ suc j + k = omega arith in
      rw e (get_or-extract_row i m (suc j) k (omega (arith, h)))

  length-extract_rows : (m i : ℕ) → length (extract_rows elem block_size m i) ≡ m * block_size
  unfolding extract_rows
  length-extract_rows zero i = omega arith
  length-extract_rows (suc m) i =
      length-append (extract_row elem i block_size 0) (extract_rows elem block_size m (suc i))
      ∙ omega (
        arith,
        length-extract_row i block_size 0,
        length-extract_rows m (suc i),
        add-mul m 1 block_size,
      )

  get_or-extract_rows :
      (m i r c : ℕ)
      → r < m
      → c < block_size
      → get_or (extract_rows elem block_size m i) (r * block_size + c) 0 ≡ elem (i + r) c
  unfolding extract_rows
  get_or-extract_rows zero i r c h hc = elim h [ ]
  get_or-extract_rows (suc m) i zero c h hc =
      let place : 0 * block_size + c ≡ c = omega arith in
      let row : i + 0 ≡ i = omega arith in
      let start : 0 + c ≡ c = omega arith in
      rw (place, row)
        (get_or-append_left (extract_row elem i block_size 0) _ c
            (rw (length-extract_row i block_size 0) hc)
          ∙ get_or-extract_row i block_size 0 c hc
          ∙ rw start refl)
  get_or-extract_rows (suc m) i (suc r) c h hc =
      let place : suc r * block_size + c
          ≡ length (extract_row elem i block_size 0) + (r * block_size + c) =
        omega (arith, length-extract_row i block_size 0, add-mul r 1 block_size) in
      let row : i + suc r ≡ suc i + r = omega arith in
      rw (place, row)
        (get_or-append_right (extract_row elem i block_size 0) _ (r * block_size + c)
          ∙ get_or-extract_rows m (suc i) r c (omega (arith, h)) hc)

  pub length-extract : length (extract elem block_size) ≡ block_size * block_size
  unfolding extract
  length-extract = length-extract_rows block_size 0

  pub get_or-extract :
      (r c : ℕ)
      → r < block_size
      → c < block_size
      → get_or (extract elem block_size) (r * block_size + c) 0 ≡ elem r c
  unfolding extract
  get_or-extract r c hr hc =
      get_or-extract_rows block_size 0 r c hr hc ∙ let e : 0 + r ≡ r = omega arith in rw e refl
