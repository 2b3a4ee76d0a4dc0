-- ===== src/Base/Sum.antt =====
-- Finite sums of numbers.
use Prim.Native.Nat.{ℕ, zero, suc, ◌+◌, ◌*◌, ◌<◌}
use mathlib.Core.Path.{◌≡◌, refl, sym, ap₂}
use native.Mathlib.Nat.{add-mul}
use native.Mathlib.Omega.{arith}

-- f 0 + ... + f (n - 1)
unfoldable pub sum : ℕ → (ℕ → ℕ) → ℕ
sum zero f = 0
sum (suc n) f = sum n f + f n

pub sum_congr : (n : ℕ) (f g : ℕ → ℕ) → ((k : ℕ) → k < n → f k ≡ g k) → sum n f ≡ sum n g
unfolding sum
sum_congr zero f g h = refl
sum_congr (suc n) f g h =
    ap₂ ◌+◌ (sum_congr n f g (λ k lt. h k (omega (arith, lt)))) (h n (omega arith))

pub sum-suc : (n : ℕ) (f : ℕ → ℕ) → sum (suc n) f ≡ f 0 + sum n (λ k. f (suc k))
unfolding sum
sum-suc zero f = omega arith
sum-suc (suc n) f = omega (arith, sum-suc n f)

pub sum-plus : (n : ℕ) (f g : ℕ → ℕ) → sum n (λ k. f k + g k) ≡ sum n f + sum n g
unfolding sum
sum-plus zero f g = refl
sum-plus (suc n) f g = omega (arith, sum-plus n f g)

pub sum-times : (n c : ℕ) (f : ℕ → ℕ) → sum n (λ k. f k * c) ≡ sum n f * c
unfolding sum
sum-times zero c f = omega arith
sum-times (suc n) c f = omega (arith, sum-times n c f, add-mul (sum n f) (f n) c)

pub sum-zero : (n : ℕ) → sum n (λ _. 0) ≡ 0
unfolding sum
sum-zero zero = refl
sum-zero (suc n) = omega (arith, sum-zero n)

pub sum_add : (a b : ℕ) (f : ℕ → ℕ) → sum (a + b) f ≡ sum a f + sum b (λ k. f (a + k))
unfolding sum
sum_add a zero f = let e : a + 0 ≡ a = omega arith in rw e (omega arith)
sum_add a (suc b) f =
    let e : a + suc b ≡ suc (a + b) = omega arith in rw (e, sum) (omega (arith, sum_add a b f))

-- A sum over the places of an array of rows.
pub sum_grid : (n m : ℕ) (f : ℕ → ℕ) → sum (n * m) f ≡ sum n (λ r. sum m (λ c. f (r * m + c)))
unfolding sum
sum_grid zero m f = let e : 0 * m ≡ 0 = omega arith in rw e refl
sum_grid (suc n) m f =
    let e : suc n * m ≡ n * m + m = omega (arith, add-mul n 1 m) in
    rw (e, sum_add (n * m) m f, sum_grid n m f) refl

-- A table summed by columns and by rows.
pub by_columns :
    (table : ℕ → ℕ → ℕ) (height width : ℕ)
    → sum width (λ c. sum height (λ r. table r c)) ≡ sum height (λ r. sum width (table r))
unfolding sum
by_columns table height zero = sym (sum-zero height)
by_columns table height (suc width) =
    rw (by_columns table height width)
      (sym (sum-plus height (λ r. sum width (table r)) (λ r. table r width)))
