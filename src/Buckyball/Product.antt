-- ===== src/Buckyball/Product.antt =====
-- `mul_warp16` of nvr/buckyball/bucykball.cc against the product of two matrices.
use spike_online.Base.{
  ℕ, zero, suc, false, inl, inr, Bool-cases, sum_congr, ◌+◌, ◌-◌, ◌*◌, ◌^◌, ◌≤◌, ◌<◌, ◌≡◌, refl, ap,
  ◌∙◌, arith, ◌⊎◌, ◌&&◌, List, if◌then◌else◌, ltb, leb, ◌==◌, u8, sum,
}
use spike_online.Buckyball.Fields.{dim, op1_addr, op2_addr, wr_addr, iter}
use spike_online.Buckyball.Run.{done, Gives, for-Gives, next-Gives, weaken-Gives}
use spike_online.Buckyball.State.{Machine, set_spad}
use spike_online.Buckyball.Multiply.{dot_loop, mul_row, mul_warp16}
use spike_online.Buckyball.Shows.{Shows, show_as, spad_at-reads, set_spad-Gives}

-- Row `a` of the first matrix by column `c` of the second, which starts at row `b`.
abbrev pub dot : (ℕ → ℕ → ℕ) → ℕ → ℕ → ℕ → ℕ → ℕ
dot f a b c k = sum k (λ i. f a i * f (b + i) c)

module _ {Mem : Type 0} {n : ℕ} {rf : List (List ℕ)} {Q : Mem → Type 0} {f : ℕ → ℕ → ℕ} where
  dot_loop-reads :
      (s : Machine Mem) (a b c m k : ℕ)
      → Shows n rf Q f s
      → a < n
      → b + dim ≤ n
      → c < dim
      → k + m ≡ dim
      → dot_loop a b c m k (u8 (dot f a b c k)) s ≡ (s, done (u8 (dot f a b c dim)))
  unfolding dot_loop sum
  dot_loop-reads s a b c zero k h ha hb hc e = let last : k ≡ dim = omega (arith, e) in rw last refl
  dot_loop-reads s a b c (suc m) k h ha hb hc e =
      let left = spad_at-reads a k h ha (omega (arith, e)) in
      let right = spad_at-reads (b + k) c h (omega (arith, e, hb)) hc in
      let step : u8 (u8 (dot f a b c k) + f a k * f (b + k) c) ≡ u8 (dot f a b c (suc k)) =
        omega arith in
      rw (left, right, step) (dot_loop-reads s a b c m (suc k) h ha hb hc (omega (arith, e)))

-- Row `r` with `v` in its first `k` columns.
abbrev pub row_set : (ℕ → ℕ → ℕ) → ℕ → ℕ → (ℕ → ℕ) → ℕ → ℕ → ℕ
row_set f r k v r' c' = if r == r' && ltb c' k then v c' else f r' c'

abbrev pub zero_row : ℕ → ℕ
zero_row c = 0

dot_apart :
    (f : ℕ → ℕ → ℕ) (v : ℕ → ℕ) (a b c r k : ℕ)
    → (r == a) ≡ false
    → (r < b) ⊎ (b + dim ≤ r)
    → dot (row_set f r k v) a b c dim ≡ dot f a b c dim
dot_apart f v a b c r k ha hb = sum_congr dim _ _ λ i lt.
    let left : (r == a) ≡ false = ha in
    let right : (r == b + i) ≡ false = ground (arith, hb, lt) in rw (left, right) refl

module _ {Mem : Type 0} {n : ℕ} {rf : List (List ℕ)} {Q : Mem → Type 0} where
  -- One more column of a row.
  pub set_next :
      (f : ℕ → ℕ → ℕ) (v : ℕ → ℕ) (s : Machine Mem) (r k : ℕ)
      → Shows n rf Q (row_set f r k v) s
      → r < n
      → k < dim
      → v k < 2 ^ 8
      → Gives (λ _. Shows n rf Q (row_set f r (suc k) v)) (set_spad r k (v k) s)
  set_next f v s r k h hr hk hv = weaken-Gives (set_spad-Gives r k (v k) h hr hk hv) λ _ t g.
      show_as (row_set f r (suc k) v) g (λ r' c'. elim (Bool-cases (k == c')) [
        | inl t ↦ let same : c' ≡ k = ground (arith, t) in rw same (ground arith)
        | inr u ↦ ground (arith, u)
      ])

  mul_row-Gives :
      (f : ℕ → ℕ → ℕ) (s : Machine Mem) (a b r : ℕ)
      → Shows n rf Q f s
      → a < n
      → b + dim ≤ n
      → r < n
      → (r == a) ≡ false
      → (r < b) ⊎ (b + dim ≤ r)
      → Gives (λ _. Shows n rf Q (row_set f r dim (λ c. u8 (dot f a b c dim)))) (mul_row a b r s)
  unfolding mul_row sum
  mul_row-Gives f s a b r h ha hb hr ea eb =
      let cleared = row_set f r dim zero_row in
      let product = λ (c : ℕ). u8 (dot f a b c dim) in
      next-Gives
        (for-Gives (λ k. Shows n rf Q (row_set f r k zero_row)) _ dim 0 dim s refl
          (λ k t lo lt g. set_next f zero_row t r k g hr lt (omega arith))
          (show_as (row_set f r 0 zero_row) h (λ r' c'. ground arith)))
        λ _ s' h'.
          weaken-Gives
            (for-Gives (λ k. Shows n rf Q (row_set cleared r k product)) _ dim 0 dim s' refl
              (λ k t lo lt g.
                let same : dot (row_set cleared r k product) a b k dim ≡ dot f a b k dim =
                  dot_apart cleared product a b k r k ea eb
                  ∙ dot_apart f zero_row a b k r dim ea eb in
                let sums : dot_loop a b k dim 0 0 t ≡ (t, done (product k)) =
                  dot_loop-reads t a b k dim 0 g ha hb lt refl
                  ∙ ap (λ (d : ℕ). (t, done (u8 d))) same in
                rw sums (set_next cleared product t r k g hr lt (omega arith)))
              (show_as (row_set cleared r 0 product) h' (λ r' c'. ground arith)))
            (λ _ t g. show_as _ g (λ r' c'. ground arith))

-- `n` rows from `a` on and `k` rows from `b` on have none in common.
abbrev pub Apart : ℕ → ℕ → ℕ → ℕ → Type 0
Apart a n b k = (a + n ≤ b) ⊎ (b + k ≤ a)

-- The first `k` rows from `wr` on are those of the product of the rows from `op1` on and the matrix
-- at `op2`, cut to 8 bits; the others are those of `f`.
abbrev pub product_of : (ℕ → ℕ → ℕ) → ℕ → ℕ → ℕ → ℕ → ℕ → ℕ → ℕ
product_of f op1 op2 wr k r c =
    if leb wr r && ltb r (wr + k) && ltb c dim then u8 (dot f (op1 + (r - wr)) op2 c dim) else f r c

product_of-Apart :
    (f : ℕ → ℕ → ℕ) (op1 op2 wr k m c : ℕ)
    → k < m
    → Apart op1 m wr m
    → Apart op2 dim wr m
    → dot (product_of f op1 op2 wr k) (op1 + k) op2 c dim ≡ dot f (op1 + k) op2 c dim
product_of-Apart f op1 op2 wr k m c lt h1 h2 = sum_congr dim _ _ λ i less.
    let left : (leb wr (op1 + k) && ltb (op1 + k) (wr + k)) ≡ false = ground (arith, lt, h1) in
    let right : (leb wr (op2 + i) && ltb (op2 + i) (wr + k)) ≡ false =
      ground (arith, lt, less, h2) in
    rw (left, right) refl

-- If the rows of the operands and those of the result are in the scratchpad, and none of them is one
-- of both, then `mul_warp16` ends, without an exception, in a state whose result rows are the
-- product of the operands' matrices modulo 2 ^ 8, and that agrees with the state before it on the rest
-- of the scratchpad, on the register files and on what holds of the memory.
pub mul_warp16-product_of :
    {Mem : Type 0} {n : ℕ} {rf : List (List ℕ)} {Q : Mem → Type 0} {f : ℕ → ℕ → ℕ} {s : Machine Mem}
    (rs1 rs2 : ℕ)
    → Shows n rf Q f s
    → op1_addr rs1 + iter rs2 ≤ n
    → op2_addr rs1 + dim ≤ n
    → wr_addr rs2 + iter rs2 ≤ n
    → Apart (op1_addr rs1) (iter rs2) (wr_addr rs2) (iter rs2)
    → Apart (op2_addr rs1) dim (wr_addr rs2) (iter rs2)
    → Gives
        (λ _. Shows n rf Q (product_of f (op1_addr rs1) (op2_addr rs1) (wr_addr rs2) (iter rs2)))
        (mul_warp16 rs1 rs2 s)
unfolding mul_warp16
mul_warp16-product_of {n = n} {rf = rf} {Q = Q} {f = f} {s = s} rs1 rs2 h h1 h2 hw a1 a2 =
    let op1 = op1_addr rs1 in
    let op2 = op2_addr rs1 in
    let wr = wr_addr rs2 in
    let m = iter rs2 in
    for-Gives (λ k. Shows n rf Q (product_of f op1 op2 wr k)) _ m 0 m s (omega arith)
      (λ k t lo lt g.
        weaken-Gives
          (mul_row-Gives (product_of f op1 op2 wr k) t (op1 + k) op2 (wr + k) g
            (omega (arith, lt, h1)) h2 (omega (arith, lt, hw)) (ground (arith, lt, a1))
            (ground (arith, lt, a2)))
          λ _ u g'. show_as (product_of f op1 op2 wr (suc k)) g' (λ r c.
            elim (Bool-cases (wr + k == r)) [
              | inl same ↦
                  let row : r - wr ≡ k = ground (arith, same) in
                  rw (row, product_of-Apart f op1 op2 wr k m c lt a1 a2) (ground (arith, same))
              | inr other ↦ ground (arith, other)
            ]))
      (show_as (product_of f op1 op2 wr 0) h (λ r c. ground arith))
