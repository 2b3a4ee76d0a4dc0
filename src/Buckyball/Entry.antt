-- ===== src/Buckyball/Entry.antt =====
-- The loop over the entries of a column in `sparse_mul` of nvr/buckyball/bucykball.cc.
use spike_online.Base.{
  ℕ, zero, suc, ◌+◌, ◌-◌, ◌*◌, ◌/◌, ◌%◌, ◌^◌, ◌≤◌, ◌<◌, ◌≡◌, refl, ap, arith, ◌&&◌, not, min, false,
  inl, inr, Bool-cases, List, get_or, length, if◌then◌else◌, ltb, leb, ◌==◌, u8, is_neg, sum,
}
use spike_online.Buckyball.Fields.{dim}
use spike_online.Buckyball.Run.{Gives, gives, for-Gives, next-Gives, weaken-Gives, at, ◌>>=◌}
use spike_online.Buckyball.State.{Machine, spad_at, set_spad}
use spike_online.Buckyball.Multiply.{add_scaled_row, entry_round, entry_loop, int_lt}
use spike_online.Buckyball.Cells.{get_elem?-get_or}
use spike_online.Buckyball.Shows.{Shows, show_as, spad_at-reads, set_spad-Gives}
use spike_online.Buckyball.Product.{Apart}

-- The matrix at `c` with `acc` added, modulo 2 ^ 8, to its elements.
abbrev pub added : (ℕ → ℕ → ℕ) → ℕ → (ℕ → ℕ → ℕ) → ℕ → ℕ → ℕ
added f c acc r j =
    if leb c r && ltb r (c + dim) && ltb j dim then u8 (f r j + acc (r - c) j) else f r j

-- What entry `nz` of column `col` adds to row `i`, column `j`, of the result. The values are packed in
-- the rows from `a` on.
abbrev pub term : (ℕ → ℕ → ℕ) → ℕ → ℕ → List ℕ → ℕ → ℕ → ℕ → ℕ → ℕ
term f a b row_indices col nz i j =
    if get_or row_indices nz 0 == i then f (a + nz / dim) (nz % dim) * f (b + col) j else 0

-- The sums of `acc` after `k` more entries of column `col`, from entry `nz` on.
abbrev pub with_terms : (ℕ → ℕ → ℕ) → (ℕ → ℕ → ℕ) → ℕ → ℕ → List ℕ → ℕ → ℕ → ℕ → ℕ → ℕ → ℕ
with_terms acc f a b row_indices col nz k i j =
    acc i j + sum k (λ e. term f a b row_indices col (nz + e) i j)

-- Where a column ends, in the first `limit` entries.
abbrev pub clip : ℕ → ℕ → ℕ
clip limit col_end = if is_neg 32 col_end then 0 else min col_end limit

-- One more column of row `i`.
abbrev add_to : (ℕ → ℕ → ℕ) → ℕ → ℕ → (ℕ → ℕ) → ℕ → ℕ → ℕ → ℕ
add_to acc i v row k i' j' = if i' == i && ltb j' k then acc i' j' + v * row j' else acc i' j'

added_eq :
    (f : ℕ → ℕ → ℕ) (c : ℕ) (acc acc' : ℕ → ℕ → ℕ) (r j : ℕ)
    → (c ≤ r → r - c < dim → j < dim → acc (r - c) j ≡ acc' (r - c) j)
    → added f c acc r j ≡ added f c acc' r j
added_eq f c acc acc' r j e = elim (Bool-cases (leb c r && ltb r (c + dim) && ltb j dim)) [
  | inl t ↦ rw (e (ground (arith, t)) (ground (arith, t)) (ground (arith, t))) refl
  | inr u ↦ rw u refl
]

module _ {Mem : Type 0} {n : ℕ} {rf : List (List ℕ)} {Q : Mem → Type 0} (f : ℕ → ℕ → ℕ)
    (c : ℕ) where
  pub sums_as :
      (acc acc' : ℕ → ℕ → ℕ) (s : Machine Mem)
      → Shows n rf Q (added f c acc) s
      → ((i j : ℕ) → i < dim → j < dim → acc i j ≡ acc' i j)
      → Shows n rf Q (added f c acc') s
  sums_as acc acc' s h e =
      show_as (added f c acc') h (λ r j. added_eq f c acc acc' r j (λ low. e (r - c) j))

  add_round :
      (acc : ℕ → ℕ → ℕ) (s : Machine Mem) (i b_row v j : ℕ)
      → Shows n rf Q (added f c (add_to acc i v (f b_row) j)) s
      → i < dim
      → j < dim
      → c + dim ≤ n
      → b_row < n
      → (leb c b_row && ltb b_row (c + dim)) ≡ false
      → Gives
          (λ _. Shows n rf Q (added f c (add_to acc i v (f b_row) (suc j))))
          ((do b ← spad_at b_row j; old ← spad_at (c + i) j; set_spad (c + i) j (u8 (old + v * b)))
            s)
  add_round acc s i b_row v j h hi hj hc hb outside =
      let here : c + i - c ≡ i = omega arith in
      let value : added f c (add_to acc i v (f b_row) j) (c + i) j ≡ u8 (f (c + i) j + acc i j) =
        rw here (ground (arith, hi, hj)) in
      let other : added f c (add_to acc i v (f b_row) j) b_row j ≡ f b_row j =
        ground (arith, outside) in
      let read = spad_at-reads b_row j h hb hj in
      let old = spad_at-reads (c + i) j h (omega (arith, hc, hi)) hj in
      rw (read, old)
        (weaken-Gives (set_spad-Gives (c + i) j _ h (omega (arith, hc, hi)) hj (omega arith))
          λ _ t g. show_as (added f c (add_to acc i v (f b_row) (suc j))) g (λ r j'.
            elim (Bool-cases (c + i == r && j == j')) [
              | inl here' ↦
                  let row : r ≡ c + i = ground (arith, here') in
                  let col : j' ≡ j = ground (arith, here') in
                  rw (row, col, value, other, here) (ground (arith, hi, hj))
              | inr away ↦ rw away (
                  added_eq f c (add_to acc i v (f b_row) j) (add_to acc i v (f b_row) (suc j)) r j'
                    (λ low high lj.
                      let same : (r - c == i && ltb j' j) ≡ (r - c == i && ltb j' (suc j)) =
                        ground (arith, away, low) in
                      rw same refl))
            ]))

  module _ (b : ℕ) (apart : Apart b dim c dim) (hb : b + dim ≤ n) (hc : c + dim ≤ n) where
    add_scaled_row-Gives :
        (acc : ℕ → ℕ → ℕ) (s : Machine Mem) (i k v : ℕ)
        → Shows n rf Q (added f c acc) s
        → i < dim
        → k < dim
        → Gives
            (λ _.
              Shows n rf Q
                (added f c (λ i' j'. if i' == i then acc i' j' + v * f (b + k) j' else acc i' j')))
            (add_scaled_row (c + i) (b + k) v s)
    unfolding add_scaled_row
    add_scaled_row-Gives acc s i k v h hi hk =
        weaken-Gives
          (for-Gives (λ j. Shows n rf Q (added f c (add_to acc i v (f (b + k)) j))) _ dim 0 dim s
            refl
            (λ j t lo lt g.
              add_round acc t i (b + k) v j g hi lt hc (omega (arith, hb, hk))
                (ground (arith, hk, apart)))
            (sums_as acc (add_to acc i v (f (b + k)) 0) s h (λ i' j' li lj. ground arith)))
          (λ _ t g.
            sums_as (add_to acc i v (f (b + k)) dim)
              (λ i' j'. if i' == i then acc i' j' + v * f (b + k) j' else acc i' j') t g
              (λ i' j' li lj. ground (arith, lj)))

    module _ (a limit : ℕ) (row_indices : List ℕ) (values : a + (limit + 15) / dim ≤ n)
        (values_apart : Apart a ((limit + 15) / dim) c dim)
        (enough : limit ≤ length row_indices) where
      entry_round-Gives :
          (acc : ℕ → ℕ → ℕ) (s : Machine Mem) (col nz : ℕ)
          → Shows n rf Q (added f c acc) s
          → col < dim
          → nz < limit
          → Gives
              (λ _. Shows n rf Q (added f c (λ i j. acc i j + term f a b row_indices col nz i j)))
              (entry_round a b c row_indices col nz s)
      unfolding entry_round at
      entry_round-Gives acc s col nz h hcol hnz =
          let row = get_or row_indices nz 0 in
          let read = get_elem?-get_or row_indices nz 0 (omega (arith, hnz, enough)) in
          rw read (elim (Bool-cases (not (is_neg 32 row) && ltb row dim)) [
            | inr out ↦ rw out (
                gives (
                  sums_as acc (λ i j. acc i j + term f a b row_indices col nz i j) s h
                    (λ i j li lj.
                      let no : (row == i) ≡ false = ground (arith, out, li) in
                      rw no (omega arith))))
            | inl inside ↦
                let outside : (leb c (a + nz / dim) && ltb (a + nz / dim) (c + dim)) ≡ false =
                  ground (arith, values_apart, hnz) in
                let value : added f c acc (a + nz / dim) (nz % dim) ≡ f (a + nz / dim) (nz % dim) =
                  ground (arith, outside) in
                let load =
                  spad_at-reads (a + nz / dim) (nz % dim) h (omega (arith, values, hnz))
                    (omega arith) in
                rw (inside, load, value)
                  (weaken-Gives
                    (add_scaled_row-Gives acc s row col (f (a + nz / dim) (nz % dim)) h
                      (ground (arith, inside)) hcol)
                    λ _ t g.
                      sums_as
                        (λ i j.
                          if i == row
                          then acc i j + f (a + nz / dim) (nz % dim) * f (b + col) j
                          else acc i j)
                        (λ i j. acc i j + term f a b row_indices col nz i j) t g
                        (λ i j li lj. ground arith))
          ])

      all_entries :
          (acc : ℕ → ℕ → ℕ) (s : Machine Mem) (col col_start col_end k : ℕ)
          → k ≡ clip limit col_end - col_start
          → Shows n rf Q (added f c (with_terms acc f a b row_indices col col_start k)) s
          → Shows n rf Q
              (added f c
                (with_terms acc f a b row_indices col col_start (clip limit col_end - col_start)))
              s
      all_entries acc s col col_start col_end k e h =
          sums_as _ _ s h
            λ i j li lj. ap (λ (m : ℕ). with_terms acc f a b row_indices col col_start m i j) e

      pub entry_loop-Gives :
          (acc : ℕ → ℕ → ℕ) (s : Machine Mem) (col col_start col_end m k : ℕ)
          → Shows n rf Q (added f c (with_terms acc f a b row_indices col col_start k)) s
          → col < dim
          → limit < 2 ^ 31
          → col_end < 2 ^ 32
          → k ≤ clip limit col_end - col_start
          → limit ≤ col_start + k + m
          → Gives
              (λ _. Shows n rf Q (
                added f c (
                  with_terms acc f a b row_indices col col_start (clip limit col_end - col_start))))
              (entry_loop m limit col_end (entry_round a b c row_indices col) (col_start + k) s)
      unfolding entry_loop sum
      entry_loop-Gives acc s col col_start col_end zero k h hcol hl he hk hm =
          let all : k ≡ clip limit col_end - col_start = ground (arith, hk, hm) in
          gives (all_entries acc s col col_start col_end k all h)
      entry_loop-Gives acc s col col_start col_end (suc m) k h hcol hl he hk hm =
          elim (Bool-cases (int_lt (col_start + k) col_end && ltb (col_start + k) limit)) [
            | inr over ↦
                let all : k ≡ clip limit col_end - col_start = ground (arith, over, hk, hl, he) in
                rw over (gives (all_entries acc s col col_start col_end k all h))
            | inl more ↦
                let next_one : col_start + suc k ≡ suc (col_start + k) = omega arith in
                rw more (
                  next-Gives
                    (entry_round-Gives (with_terms acc f a b row_indices col col_start k) s col
                      (col_start + k) h hcol (ground (arith, more)))
                    λ _ t g.
                      let g' =
                        sums_as
                          (λ i j.
                            with_terms acc f a b row_indices col col_start k i j
                            + term f a b row_indices col (col_start + k) i j)
                          (with_terms acc f a b row_indices col col_start (suc k)) t g
                          (λ i j li lj. omega arith) in
                      let bound : suc k ≤ clip limit col_end - col_start =
                        ground (arith, more, hl, he) in
                      rw (← next_one) (
                        entry_loop-Gives acc t col col_start col_end m (suc k) g' hcol hl he bound
                          (omega (arith, hm))))
          ]
