-- ===== src/Base/Sign.antt =====
-- The sign bit of a w-bit value, and what the operations on words do to it.
use Prim.Native.Nat.{ℕ, zero, suc, ◌+◌, ◌-◌, ◌*◌, ◌^◌, ◌<◌, bit_and, bit_or, bit_xor}
use mathlib.Core.Path.{◌≡◌, ap, ◌∙◌}
use mathlib.Core.Bool.{◌&&◌, ◌||◌, not, xor}
use native.Mathlib.Nat.{pow-suc}
use native.Mathlib.Omega.{arith}
use mathlib.Core.Logic.{inl, inr}
use spike_online.Base.Tests.{Bool-cases, ◌==◌, leb, if◌then◌else◌}
use spike_online.Base.Word.{is_neg, flip}
use spike_online.Base.Bits.{
  bit, bit-lt, bit-bit_and, bit-bit_or, bit-bit_xor, bit_and-lt, bit_or-lt, bit_xor-lt, bit-fields,
  bit-one, bit-eq-zero_of_lt,
}

pub two_pow_half : (w : ℕ) → 0 < w → 2 ^ w ≡ 2 * 2 ^ (w - 1)
two_pow_half zero h = absurd (omega arith)
two_pow_half (suc v) h = let e : suc v - 1 ≡ v = omega arith in rw e (omega (arith, pow-suc 2 v))

bit-top : (k x : ℕ) → x < 2 * 2 ^ k → bit x k ≡ (if leb (2 ^ k) x then 1 else 0)
bit-top k x h = elim (Bool-cases (leb (2 ^ k) x)) [
  | inl le ↦
      let e : x ≡ 1 * 2 ^ k + (x - 2 ^ k) = ground arith in
      rw le
        (ap (λ (t : ℕ). bit t k) e ∙ ground (arith, bit-fields k 1 (x - 2 ^ k) k, bit-one (k - k)))
  | inr gt ↦ rw gt (bit-eq-zero_of_lt k x k (ground arith) (omega arith))
]

pub is_neg-bit : (w x : ℕ) → 0 < w → x < 2 ^ w → is_neg w x ≡ (bit x (w - 1) == 1)
is_neg-bit w x h lt = ground (arith, bit-top (w - 1) x, two_pow_half w h)

pub is_neg-bit_xor :
    (w a b : ℕ)
    → 0 < w
    → a < 2 ^ w
    → b < 2 ^ w
    → is_neg w (bit_xor a b) ≡ xor (is_neg w a) (is_neg w b)
unfolding xor
is_neg-bit_xor w a b h ha hb =
    rw
      (
        is_neg-bit w (bit_xor a b) h (bit_xor-lt w a b ha hb),
        is_neg-bit w a h ha,
        is_neg-bit w b h hb,
        bit-bit_xor,
      )
      (ground (arith, bit-lt a (w - 1), bit-lt b (w - 1)))

pub is_neg-bit_or :
    (w a b : ℕ) → 0 < w → a < 2 ^ w → b < 2 ^ w → is_neg w (bit_or a b) ≡ (is_neg w a || is_neg w b)
is_neg-bit_or w a b h ha hb =
    rw
      (
        is_neg-bit w (bit_or a b) h (bit_or-lt w a b ha hb),
        is_neg-bit w a h ha,
        is_neg-bit w b h hb,
        bit-bit_or,
      )
      (ground (arith, bit-lt a (w - 1), bit-lt b (w - 1)))

pub is_neg-bit_and :
    (w a b : ℕ)
    → 0 < w
    → a < 2 ^ w
    → b < 2 ^ w
    → is_neg w (bit_and a b) ≡ (is_neg w a && is_neg w b)
is_neg-bit_and w a b h ha hb =
    rw
      (
        is_neg-bit w (bit_and a b) h (bit_and-lt w a b ha),
        is_neg-bit w a h ha,
        is_neg-bit w b h hb,
        bit-bit_and,
      )
      (ground (arith, bit-lt a (w - 1), bit-lt b (w - 1)))

pub is_neg-flip : (w a : ℕ) → 0 < w → a < 2 ^ w → is_neg w (flip w a) ≡ not (is_neg w a)
is_neg-flip w a h ha = ground (arith, two_pow_half w h)
