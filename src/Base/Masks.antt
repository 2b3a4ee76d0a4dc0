-- ===== src/Base/Masks.antt =====
-- Tests and updates of one bit of a word.
use Prim.Native.Nat.{ℕ, suc, ◌-◌, ◌^◌, ◌<◌, bit_and, bit_or}
use mathlib.Core.Path.{◌≡◌}
use mathlib.Core.Bool.{true, false}
use native.Mathlib.Nat.{one-mul, one-le-pow, pow-suc, pow-le-pow_right}
use native.Mathlib.Omega.{arith}
use spike_online.Base.Tests.{◌==◌, if◌then◌else◌}
use spike_online.Base.Word.{any_bit, ◌<<<◌, flip}
use spike_online.Base.Bits.{
  bit, bit_ext, bit-lt, bit-bit_and, bit-bit_or, bit-two_pow, bit-zero, bit_not, bit-eq-zero_of_lt,
}

pub bit_and-two_pow : (x j : ℕ) → bit_and x (2 ^ j) ≡ (if bit x j == 1 then 2 ^ j else 0)
bit_and-two_pow x j =
    bit_ext _ _
      λ i. ground (arith, bit-bit_and x (2 ^ j) i, bit-two_pow j i, bit-zero i, bit-lt x i)

-- `x & (1 << j)`, as a condition, is bit j of x.
pub any_bit_lem : (x j : ℕ) → any_bit x (1 <<< j) ≡ (bit x j == 1)
any_bit_lem x j =
    let e : 1 <<< j ≡ 2 ^ j = one-mul (2 ^ j) in
    rw (e, bit_and-two_pow x j) (ground (arith, one-le-pow j 2))

pub bit-set_bit : (x j i : ℕ) → bit (bit_or x (1 <<< j)) i ≡ (if i == j then 1 else bit x i)
bit-set_bit x j i =
    let e : 1 <<< j ≡ 2 ^ j = one-mul (2 ^ j) in
    rw e (ground (arith, bit-bit_or x (2 ^ j) i, bit-two_pow j i, bit-lt x i))

pub two_pow-lt : (j w : ℕ) → j < w → 2 ^ j < 2 ^ w
two_pow-lt j w h = omega (
  arith,
  pow-suc 2 j,
  one-le-pow j 2,
  pow-le-pow_right {n = 2} (omega arith) {i = suc j} {j = w} h,
)

pub bit-clear_bit :
    (w x j i : ℕ)
    → j < w
    → x < 2 ^ w
    → bit (bit_and x (flip w (1 <<< j))) i ≡ (if i == j then 0 else bit x i)
bit-clear_bit w x j i h hx =
    let e : 1 <<< j ≡ 2 ^ j = one-mul (2 ^ j) in
    rw e (
      ground (
        arith,
        bit-bit_and x (2 ^ w - 1 - 2 ^ j) i,
        bit_not w (2 ^ j) i (two_pow-lt j w h),
        bit-two_pow j i,
        bit-lt x i,
        bit-eq-zero_of_lt w x i hx,
      ))

-- The test of a flag after another is set, and after another is cleared.
pub any_bit-set_bit :
    (x j i : ℕ)
    → any_bit (bit_or x (1 <<< j)) (1 <<< i) ≡ (if i == j then true else any_bit x (1 <<< i))
any_bit-set_bit x j i =
    rw (any_bit_lem (bit_or x (1 <<< j)) i, any_bit_lem x i) (ground (arith, bit-set_bit x j i))

pub any_bit-clear_bit :
    (w x j i : ℕ)
    → j < w
    → x < 2 ^ w
    → any_bit (bit_and x (flip w (1 <<< j))) (1 <<< i)
      ≡ (if i == j then false else any_bit x (1 <<< i))
any_bit-clear_bit w x j i h hx =
    rw (any_bit_lem (bit_and x (flip w (1 <<< j))) i, any_bit_lem x i)
      (ground (arith, bit-clear_bit w x j i h hx))
