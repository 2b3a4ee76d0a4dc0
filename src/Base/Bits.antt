-- ===== src/Base/Bits.antt =====
-- Single binary digits of a number, and what the operations on words do to each of them.
use Prim.Native.Nat.{
  ℕ, zero, suc, ◌+◌, ◌-◌, ◌*◌, ◌/◌, ◌%◌, ◌^◌, ◌≤◌, ◌<◌, min, max, bit_and, bit_or, bit_xor,
}
use mathlib.Core.Path.{◌≡◌, refl, sym, ap, ◌∙◌}
use native.Mathlib.Nat.{
  pow-suc, one-le-pow, mod-lt, mod-eq_of_lt, mul_comm, mul-one, one-mul, add_comm, suc-add,
  zero-add, div-one, div-div-eq-div-mul, div-add-mod', add-mul-mod_self_right,
}
use native.Mathlib.Omega.{arith}
use spike_online.Base.Tests.{ltb, ◌==◌, if◌then◌else◌}
use spike_online.Base.Digits.{bit_and_digit, bit_or_digit, bit_xor_digit}

-- Digit `i` of `x`, which is 0 or 1: `(x >> i) & 1`.
unfoldable pub bit : ℕ → ℕ → ℕ
bit x zero = x % 2
bit x (suc i) = bit (x / 2) i

pub bit-lt : (x i : ℕ) → bit x i < 2
unfolding bit
bit-lt x zero = omega arith
bit-lt x (suc i) = bit-lt (x / 2) i

pub bit-bit_and : (a b i : ℕ) → bit (bit_and a b) i ≡ min (bit a i) (bit b i)
unfolding bit
bit-bit_and a b zero = omega (arith, bit_and_digit a b)
bit-bit_and a b (suc i) =
    let e : bit_and a b / 2 ≡ bit_and (a / 2) (b / 2) = omega (arith, bit_and_digit a b) in
    rw e (bit-bit_and (a / 2) (b / 2) i)

pub bit-bit_or : (a b i : ℕ) → bit (bit_or a b) i ≡ max (bit a i) (bit b i)
unfolding bit
bit-bit_or a b zero = omega (arith, bit_or_digit a b)
bit-bit_or a b (suc i) =
    let e : bit_or a b / 2 ≡ bit_or (a / 2) (b / 2) = omega (arith, bit_or_digit a b) in
    rw e (bit-bit_or (a / 2) (b / 2) i)

pub bit-bit_xor : (a b i : ℕ) → bit (bit_xor a b) i ≡ (bit a i + bit b i) % 2
unfolding bit
bit-bit_xor a b zero = omega (arith, bit_xor_digit a b)
bit-bit_xor a b (suc i) =
    let e : bit_xor a b / 2 ≡ bit_xor (a / 2) (b / 2) = omega (arith, bit_xor_digit a b) in
    rw e (bit-bit_xor (a / 2) (b / 2) i)

pub bit-zero : (i : ℕ) → bit 0 i ≡ 0
unfolding bit
bit-zero zero = refl
bit-zero (suc i) = bit-zero i

bit_ext_below : (n a b : ℕ) → a + b ≤ n → ((i : ℕ) → bit a i ≡ bit b i) → a ≡ b
unfolding bit
bit_ext_below zero a b le h = omega arith
bit_ext_below (suc n) zero zero le h = refl
bit_ext_below (suc n) zero (suc b) le h =
    omega (arith, h 0, bit_ext_below n 0 (suc b / 2) (omega arith) (λ i. h (suc i)))
bit_ext_below (suc n) (suc a) b le h =
    omega (arith, h 0, bit_ext_below n (suc a / 2) (b / 2) (omega arith) (λ i. h (suc i)))

pub zero-bit_and : (b : ℕ) → bit_and 0 b ≡ 0
zero-bit_and b =
    bit_ext_below (bit_and 0 b + 0) (bit_and 0 b) 0 (omega arith)
      λ i. ground (arith, bit-bit_and 0 b i, bit-zero i)

-- Numbers with the same digits are equal.
pub bit_ext : (a b : ℕ) → ((i : ℕ) → bit a i ≡ bit b i) → a ≡ b
bit_ext a b h = bit_ext_below (a + b) a b (omega arith) h

mul-two_pow_suc : (x k : ℕ) → x * 2 ^ suc k ≡ 2 * (x * 2 ^ k)
mul-two_pow_suc x k = omega (arith, ap (λ (t : ℕ). x * t) (pow-suc 2 k))

div-two_pow_suc : (x k : ℕ) → x / 2 ^ suc k ≡ x / 2 / 2 ^ k
div-two_pow_suc x k = rw (pow-suc 2 k, mul_comm (2 ^ k) 2) (sym (div-div-eq-div-mul x 2 (2 ^ k)))

pub two_pow_add : (a b : ℕ) → 2 ^ (a + b) ≡ 2 ^ a * 2 ^ b
two_pow_add zero b = rw (zero-add b) (omega arith)
two_pow_add (suc a) b = rw (suc-add, pow-suc 2 (a + b), pow-suc 2 a, two_pow_add a b) (omega arith)

pub times-lt : (a b c : ℕ) → a < b → 0 < c → a * c < b * c
times-lt a b c h p = grind arith

pub times-le : (a b c : ℕ) → a ≤ b → a * c ≤ b * c
times-le a b c h = grind arith

-- The remainder is determined by its size and the quotient.
pub mod_unique : (m q n r : ℕ) → m ≡ q * n + r → r < n → m % n ≡ r
mod_unique m q n r e h = rw e (rw add_comm (rw (add-mul-mod_self_right r q n) (mod-eq_of_lt h)))

mod-two_pow_suc : (x k : ℕ) → x % 2 ^ suc k ≡ 2 * (x / 2 % 2 ^ k) + x % 2
mod-two_pow_suc x k =
    mod_unique x (x / 2 / 2 ^ k) (2 ^ suc k) (2 * (x / 2 % 2 ^ k) + x % 2)
      (omega (arith, mul-two_pow_suc (x / 2 / 2 ^ k) k, div-add-mod' (x / 2) (2 ^ k)))
      (omega (arith, pow-suc 2 k, mod-lt (x / 2) (one-le-pow k 2 (omega arith))))

pub bit-div : (k x i : ℕ) → bit (x / 2 ^ k) i ≡ bit x (k + i)
unfolding bit
bit-div zero x i = simp (div-one, zero-add)
bit-div (suc k) x i = rw (div-two_pow_suc, suc-add) (bit-div k (x / 2) i)

pub bit-mul : (k x i : ℕ) → bit (x * 2 ^ k) i ≡ (if ltb i k then 0 else bit x (i - k))
unfolding bit
bit-mul zero x i = ground (arith, mul-one x)
bit-mul (suc k) x zero = ground (arith, mul-two_pow_suc x k)
bit-mul (suc k) x (suc i) =
    let e : x * 2 ^ suc k / 2 ≡ x * 2 ^ k = omega (arith, mul-two_pow_suc x k) in
    rw e (ground (arith, bit-mul k x i))

pub bit-mod : (k x i : ℕ) → bit (x % 2 ^ k) i ≡ (if ltb i k then bit x i else 0)
unfolding bit
bit-mod zero x i = ground (arith, bit-zero i)
bit-mod (suc k) x zero = ground (arith, mod-two_pow_suc x k)
bit-mod (suc k) x (suc i) =
    let e : x % 2 ^ suc k / 2 ≡ x / 2 % 2 ^ k = omega (arith, mod-two_pow_suc x k) in
    rw e (ground (arith, bit-mod k (x / 2) i))

-- `~x` at a width of `k` digits.
pub bit_not : (k x i : ℕ) → x < 2 ^ k → bit (2 ^ k - 1 - x) i ≡ (if ltb i k then 1 - bit x i else 0)
unfolding bit
bit_not zero x i h = ground (arith, bit-zero i)
bit_not (suc k) x zero h = ground (arith, pow-suc 2 k)
bit_not (suc k) x (suc i) h =
    let e : (2 ^ suc k - 1 - x) / 2 ≡ 2 ^ k - 1 - x / 2 = omega (arith, pow-suc 2 k) in
    rw e (ground (arith, bit_not k (x / 2) i (omega (arith, pow-suc 2 k))))

pub bit-eq-zero_of_lt : (k x i : ℕ) → x < 2 ^ k → k ≤ i → bit x i ≡ 0
bit-eq-zero_of_lt k x i h le = ground (arith, mod-eq_of_lt h, bit-mod k x i)

-- A number with no digit from `k` on fits `k` digits.
pub lt-two_pow_of_bits : (k x : ℕ) → ((i : ℕ) → k ≤ i → bit x i ≡ 0) → x < 2 ^ k
lt-two_pow_of_bits k x h =
    let e : x ≡ x % 2 ^ k = bit_ext x (x % 2 ^ k) (λ i. ground (arith, bit-mod k x i, h i)) in
    rw e (mod-lt x (one-le-pow k 2 (omega arith)))

pub bit-one : (i : ℕ) → bit 1 i ≡ (if i == 0 then 1 else 0)
unfolding bit
bit-one zero = refl
bit-one (suc i) = ground (arith, bit-zero i)

-- `1 << k`.
pub bit-two_pow : (k i : ℕ) → bit (2 ^ k) i ≡ (if i == k then 1 else 0)
bit-two_pow k i = ground (arith, one-mul (2 ^ k), bit-mul k 1 i, bit-one (i - k))

pub bit-mask : (k i : ℕ) → bit (2 ^ k - 1) i ≡ (if ltb i k then 1 else 0)
bit-mask k i = ground (arith, bit_not k 0 i (one-le-pow k 2 (omega arith)), bit-zero i)

-- `x & ((1 << k) - 1)` is a remainder.
pub bit_and_mask : (x k : ℕ) → bit_and x (2 ^ k - 1) ≡ x % 2 ^ k
bit_and_mask x k =
    bit_ext _ _
      λ i. ground (arith, bit-bit_and x (2 ^ k - 1) i, bit-mask k i, bit-mod k x i, bit-lt x i)

pub bit_and-lt : (k a b : ℕ) → a < 2 ^ k → bit_and a b < 2 ^ k
bit_and-lt k a b h =
    lt-two_pow_of_bits k _ λ i le. ground (arith, bit-bit_and a b i, bit-eq-zero_of_lt k a i h le)

pub bit_or-lt : (k a b : ℕ) → a < 2 ^ k → b < 2 ^ k → bit_or a b < 2 ^ k
bit_or-lt k a b h h' = lt-two_pow_of_bits k _ λ i le.
    ground (arith, bit-bit_or a b i, bit-eq-zero_of_lt k a i h le, bit-eq-zero_of_lt k b i h' le)

pub bit_xor-lt : (k a b : ℕ) → a < 2 ^ k → b < 2 ^ k → bit_xor a b < 2 ^ k
bit_xor-lt k a b h h' = lt-two_pow_of_bits k _ λ i le.
    ground (arith, bit-bit_xor a b i, bit-eq-zero_of_lt k a i h le, bit-eq-zero_of_lt k b i h' le)

-- The digits of a number put together from a low field of `k` digits and the rest.
pub bit-fields :
    (k q r i : ℕ) → r < 2 ^ k → bit (q * 2 ^ k + r) i ≡ (if ltb i k then bit r i else bit q (i - k))
unfolding bit
bit-fields zero q r i h = ground (arith, mul-one q)
bit-fields (suc k) q r zero h = ground (arith, mul-two_pow_suc q k)
bit-fields (suc k) q r (suc i) h =
    let e : (q * 2 ^ suc k + r) / 2 ≡ q * 2 ^ k + r / 2 = omega (arith, mul-two_pow_suc q k) in
    rw e (ground (arith, bit-fields k q (r / 2) i (omega (arith, pow-suc 2 k))))

-- `(q << k) | r` is a sum where `r` fits `k` digits.
pub bit_or_fields : (k q r : ℕ) → r < 2 ^ k → bit_or (q * 2 ^ k) r ≡ q * 2 ^ k + r
bit_or_fields k q r h = bit_ext _ _ λ i. ground (
  arith,
  bit-bit_or (q * 2 ^ k) r i,
  bit-mul k q i,
  bit-fields k q r i h,
  bit-eq-zero_of_lt k r i h,
)

bit_and-zero : (a : ℕ) → bit_and a 0 ≡ 0
bit_and-zero a = bit_ext (bit_and a 0) 0 λ i. ground (arith, bit-bit_and a 0 i, bit-zero i)

bit_and-le_below : (n a b : ℕ) → b ≤ n → bit_and a b ≤ b
bit_and-le_below zero a b h =
    let none_left : b ≡ 0 = omega (arith, h) in rw (none_left, bit_and-zero a) (omega arith)
bit_and-le_below (suc n) a zero h = rw (bit_and-zero a) (omega arith)
bit_and-le_below (suc n) a (suc b) h =
    omega
      (arith, h, bit_and_digit a (suc b), bit_and-le_below n (a / 2) (suc b / 2) (omega (arith, h)))

pub bit_and-le : (a b : ℕ) → bit_and a b ≤ b
bit_and-le a b = bit_and-le_below b a b (omega arith)

bit_or_comm : (a b : ℕ) → bit_or a b ≡ bit_or b a
bit_or_comm a b = bit_ext _ _ λ i. omega (arith, bit-bit_or a b i, bit-bit_or b a i)

-- `r | (q << k)` likewise.
pub bit_or_low : (k r q : ℕ) → r < 2 ^ k → bit_or r (q * 2 ^ k) ≡ q * 2 ^ k + r
bit_or_low k r q h = sym (bit_or_comm (q * 2 ^ k) r) ∙ bit_or_fields k q r h
