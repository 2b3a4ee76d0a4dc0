-- ===== src/Workload/Expected.antt =====
-- `compute_expected_result` of nvr/workload/sparse/matrix_generator.c against the product of two matrices.
use spike_online.Base.{
  ℕ, zero, suc, ◌+◌, ◌-◌, ◌*◌, ◌%◌, ◌^◌, ◌≤◌, ◌<◌, ◌≡◌, refl, ap, ◌∙◌, arith, true, false, inl, inr,
  Bool-cases, List, length, get_or, set, length-set, get_or-set_self, get_or-set_ne, if◌then◌else◌,
  ◌==◌, ltb, leb, ◌&&◌, if_both, times-le, u8, sum, is_neg,
}
use native.Mathlib.Nat.{add-mul, mul_comm}
use spike_online.Workload.Generator.{
  to_int, expected_sum, expected_row, expected_rows, compute_expected_result,
}

-- The products of signed elements in `int`s, cut to 8 bits, are those of the patterns.
mul-mod : (x y : ℕ) → (x + (2 ^ 32 - 2 ^ 8)) * y % 2 ^ 8 ≡ x * y % 2 ^ 8
mul-mod x y = omega (arith, add-mul x (2 ^ 32 - 2 ^ 8) y)

to_int_left : (a y : ℕ) → to_int a * y % 2 ^ 8 ≡ a * y % 2 ^ 8
unfolding to_int
to_int_left a y = if_both (λ (v : ℕ). v * y % 2 ^ 8 ≡ a * y % 2 ^ 8) (is_neg 8 a) (mul-mod a y) refl

to_int-mul : (a b : ℕ) → to_int a * to_int b % 2 ^ 8 ≡ a * b % 2 ^ 8
to_int-mul a b =
    to_int_left a (to_int b)
    ∙ ap (λ (v : ℕ). v % 2 ^ 8) (mul_comm a (to_int b))
    ∙ to_int_left b a
    ∙ ap (λ (v : ℕ). v % 2 ^ 8) (mul_comm b a)

module _ (a b : List ℕ) (k_size n_size : ℕ) where
  -- Row `i` of the one matrix by column `j` of the other, over the first `k` products.
  abbrev pub dot : ℕ → ℕ → ℕ → ℕ
  dot i j k = sum k (λ e. get_or a (i * k_size + e) 0 * get_or b (e * n_size + j) 0)

  expected_sum-dot :
      (i j m k acc : ℕ)
      → u8 acc ≡ u8 (dot i j k)
      → u8 (expected_sum a b k_size n_size i j m k acc) ≡ u8 (dot i j (k + m))
  unfolding expected_sum sum
  expected_sum-dot i j zero k acc h = let e : k + 0 ≡ k = omega arith in rw e h
  expected_sum-dot i j (suc m) k acc h =
      let e : k + suc m ≡ suc k + m = omega arith in
      let step = to_int-mul (get_or a (i * k_size + k) 0) (get_or b (k * n_size + j) 0) in
      rw e (expected_sum-dot i j m (suc k) _ (omega (arith, h, step)))

  abbrev value : ℕ → ℕ → ℕ
  value i j = u8 (expected_sum a b k_size n_size i j k_size 0 0)

  expected_row-length :
      (i m j : ℕ) (c : List ℕ) → length (expected_row a b k_size n_size i m j c) ≡ length c
  unfolding expected_row
  expected_row-length i zero j c = refl
  expected_row-length i (suc m) j c =
      expected_row-length i m (suc j) _ ∙ length-set c (i * n_size + j) (value i j)

  expected_row-value :
      (i m j p : ℕ) (c : List ℕ)
      → i * n_size + j + m ≤ length c
      → get_or (expected_row a b k_size n_size i m j c) p 0 ≡ (
          if leb (i * n_size + j) p && ltb p (i * n_size + j + m)
          then value i (p - i * n_size)
          else get_or c p 0)
  unfolding expected_row
  expected_row-value i zero j p c h = ground arith
  expected_row-value i (suc m) j p c h =
      let q = i * n_size + j in
      let e : i * n_size + suc j ≡ suc q = omega arith in
      let bound : i * n_size + suc j + m ≤ length (set c q (value i j)) =
        rw (length-set c q (value i j)) (omega (arith, h)) in
      expected_row-value i m (suc j) p (set c q (value i j)) bound ∙ elim (Bool-cases (q == p)) [
        | inl same ↦
            let here : p ≡ q = ground (arith, same) in
            let col : i * n_size + j - i * n_size ≡ j = omega arith in
            rw (here, get_or-set_self c q (value i j) 0 (omega (arith, h)), col) (ground arith)
        | inr other ↦
            rw (get_or-set_ne c q p (value i j) 0 (ground (arith, other))) (ground (arith, other))
      ]

  -- The places of another row are outside row `i`.
  other_row :
      (i r col : ℕ)
      → col < n_size
      → (i == r) ≡ false
      → (leb (i * n_size + 0) (r * n_size + col)
          && ltb (r * n_size + col) (i * n_size + 0 + n_size))
        ≡ false
  other_row i r col hc other = elim (Bool-cases (ltb r i)) [
    | inl below ↦
        let far = times-le (r + 1) i n_size (ground (arith, below)) in
        ground (arith, hc, add-mul r 1 n_size, far)
    | inr above ↦
        let far = times-le (i + 1) r n_size (ground (arith, above, other)) in
        ground (arith, add-mul i 1 n_size, far)
  ]

  expected_rows-value :
      (m i r col : ℕ) (c : List ℕ)
      → (i + m) * n_size ≤ length c
      → col < n_size
      → get_or (expected_rows a b k_size n_size m i c) (r * n_size + col) 0
        ≡ (if leb i r && ltb r (i + m) then value r col else get_or c (r * n_size + col) 0)
  unfolding expected_rows
  expected_rows-value zero i r col c h hc = ground arith
  expected_rows-value (suc m) i r col c h hc =
      let e : suc i + m ≡ i + suc m = omega arith in
      let c' = expected_row a b k_size n_size i n_size 0 c in
      let room : i * n_size + 0 + n_size ≤ length c =
        omega (arith, h, add-mul i 1 n_size, times-le (i + 1) (i + suc m) n_size (omega arith)) in
      let row = expected_row-value i n_size 0 (r * n_size + col) c room in
      expected_rows-value m (suc i) r col c' (rw (e, expected_row-length i n_size 0 c) h) hc
      ∙ elim (Bool-cases (i == r)) [
        | inl same ↦
            let here : r ≡ i = ground (arith, same) in
            let place : i * n_size + col - i * n_size ≡ col = omega arith in
            let inside : (leb (i * n_size + 0) (i * n_size + col)
                  && ltb (i * n_size + col) (i * n_size + 0 + n_size))
                ≡ true =
              ground (arith, hc) in
            let new : get_or c' (r * n_size + col) 0 ≡ value r col =
              row ∙ rw (here, inside, place) refl in
            rw new (ground (arith, same))
        | inr other ↦
            let new : get_or c' (r * n_size + col) 0 ≡ get_or c (r * n_size + col) 0 =
              row ∙ rw (other_row i r col hc other) refl in
            rw new (ground (arith, other))
      ]

  -- If the array for the result has room for it, each of its elements after `compute_expected_result` is,
  -- modulo 2 ^ 8, the product of its row of the one matrix and its column of the other.
  pub compute_expected_result-dot :
      (c : List ℕ) (m_size i j : ℕ)
      → m_size * n_size ≤ length c
      → i < m_size
      → j < n_size
      → get_or (compute_expected_result a b c m_size k_size n_size) (i * n_size + j) 0
        ≡ u8 (dot i j k_size)
  unfolding compute_expected_result sum
  compute_expected_result-dot c m_size i j h hi hj =
      let whole : 0 + m_size ≡ m_size = omega arith in
      let all : 0 + k_size ≡ k_size = omega arith in
      expected_rows-value m_size 0 i j c (rw whole h) hj
      ∙ ground (arith, hi)
      ∙ rw all at (expected_sum-dot i j k_size 0 0 refl)
