-- ===== src/Arith/Multiply.antt =====
-- The high halves of 64-bit products: `mulhu`, `mulh` and `mulhsu` of riscv/arith.h.
use spike_online.Base.{
  ℕ, ◌+◌, ◌*◌, ◌/◌, ◌%◌, ◌^◌, ◌≤◌, ◌<◌, ◌-◌, bit_or, ◌≡◌, sym, ap, ◌∙◌, arith, true,
}
use spike_online.Base.{if◌then◌else◌, ◌==◌, u32, u64, ◌<<<◌, ◌>>>◌, flip, neg, is_neg, bool_ℕ}
use spike_online.Base.{bit_or_fields, Bool-cases, inl, inr, ==_iff, ◌≢◌}
use mathlib.Core.Bool.{xor}
use mathlib.Core.Path.{ap₂}

-- The schoolbook product of 32-bit halves.
unfoldable pub mulhu : ℕ → ℕ → ℕ
mulhu a b =
    let a0 = u32 a in
    let a1 = a >>> 32 in
    let b0 = u32 b in
    let b1 = b >>> 32 in
    let t = u64 (u64 (a1 * b0) + u64 (a0 * b0) >>> 32) in
    let y1 = u32 t in
    let y2 = u32 (t >>> 32) in
    let t' = u64 (u64 (a0 * b1) + y1) in
    let t'' = u64 (u64 (u64 (a1 * b1) + y2) + t' >>> 32) in
    let low = u32 t'' in let y3 = u32 (t'' >>> 32) in bit_or (u64 (y3 <<< 32)) low

-- `x < 0 ? -x : x`
abbrev magnitude : ℕ → ℕ
magnitude x = if is_neg 64 x then neg 64 x else x

unfoldable pub mulh : ℕ → ℕ → ℕ
mulh a b =
    let negate = xor (is_neg 64 a) (is_neg 64 b) in
    let res = mulhu (magnitude a) (magnitude b) in
    if negate then u64 (flip 64 res + bool_ℕ (u64 (a * b) == 0)) else res

unfoldable pub mulhsu : ℕ → ℕ → ℕ
mulhsu a b =
    let negate = is_neg 64 a in
    let res = mulhu (magnitude a) b in
    if negate then u64 (flip 64 res + bool_ℕ (u64 (a * b) == 0)) else res

product_bound : (x y : ℕ) → x < 2 ^ 32 → y < 2 ^ 32 → x * y ≤ (2 ^ 32 - 1) * (2 ^ 32 - 1)
product_bound x y hx hy = grind arith

join_halves :
    (hi lo : ℕ) → hi < 2 ^ 32 → lo < 2 ^ 32 → bit_or (u64 (hi <<< 32)) lo ≡ hi * 2 ^ 32 + lo
join_halves hi lo h h' =
    let e : u64 (hi <<< 32) ≡ hi * 2 ^ 32 = omega arith in rw e (bit_or_fields 32 hi lo h')

-- The carries of `mulhu`, over the four partial products.
carries :
    (p11 p10 p01 p00 : ℕ)
    → p11 ≤ (2 ^ 32 - 1) * (2 ^ 32 - 1)
    → p10 ≤ (2 ^ 32 - 1) * (2 ^ 32 - 1)
    → p01 ≤ (2 ^ 32 - 1) * (2 ^ 32 - 1)
    → p00 ≤ (2 ^ 32 - 1) * (2 ^ 32 - 1)
    → let t = u64 (u64 p10 + u64 p00 >>> 32) in
      let t' = u64 (u64 p01 + u32 t) in
      let t'' = u64 (u64 (u64 p11 + u32 (t >>> 32)) + t' >>> 32) in
      u32 (t'' >>> 32) * 2 ^ 32 + u32 t''
      ≡ (p11 * 2 ^ 64 + p10 * 2 ^ 32 + p01 * 2 ^ 32 + p00) / 2 ^ 64
carries p11 p10 p01 p00 h11 h10 h01 h00 = omega arith

multiply_out :
    (a1 a0 b1 b0 : ℕ)
    → (a1 * 2 ^ 32 + a0) * (b1 * 2 ^ 32 + b0)
      ≡ a1 * b1 * 2 ^ 64 + a1 * b0 * 2 ^ 32 + a0 * b1 * 2 ^ 32 + a0 * b0
multiply_out a1 a0 b1 b0 = omega arith

split_halves : (x : ℕ) → x ≡ x / 2 ^ 32 * 2 ^ 32 + x % 2 ^ 32
split_halves x = omega arith

-- `mulhu` is the high half of the 128-bit product.
pub mulhu_high : (a b : ℕ) → a < 2 ^ 64 → b < 2 ^ 64 → mulhu a b ≡ a * b / 2 ^ 64
unfolding mulhu
mulhu_high a b ha hb =
    let a1 = a / 2 ^ 32 in
    let a0 = a % 2 ^ 32 in
    let b1 = b / 2 ^ 32 in
    let b0 = b % 2 ^ 32 in
    let whole : a * b ≡ a1 * b1 * 2 ^ 64 + a1 * b0 * 2 ^ 32 + a0 * b1 * 2 ^ 32 + a0 * b0 =
      ap₂ ◌*◌ (split_halves a) (split_halves b) ∙ multiply_out a1 a0 b1 b0 in
    join_halves _ _ (omega arith) (omega arith)
    ∙ carries (a1 * b1) (a1 * b0) (a0 * b1) (a0 * b0)
        (product_bound a1 b1 (omega arith) (omega arith))
        (product_bound a1 b0 (omega arith) (omega arith))
        (product_bound a0 b1 (omega arith) (omega arith))
        (product_bound a0 b0 (omega arith) (omega arith))
    ∙ ap (λ (t : ℕ). t / 2 ^ 64) (sym whole)

-- The 128-bit sign extension of a 64-bit pattern.
abbrev pub sext128 : ℕ → ℕ
sext128 x = if is_neg 64 x then x + (2 ^ 128 - 2 ^ 64) else x

below_words : (x y : ℕ) → x < 2 ^ 64 → y < 2 ^ 64 → x * y ≤ (2 ^ 64 - 1) * (2 ^ 64 - 1)
below_words x y hx hy = grind arith

-- One operand is negative: `p` is the product of the magnitudes, and `s` of the extensions.
one_negative :
    (p low s b : ℕ)
    → b < 2 ^ 64
    → p ≤ (2 ^ 64 - 1) * (2 ^ 64 - 1)
    → low + p ≡ 2 ^ 64 * b
    → s + p ≡ 2 ^ 128 * b
    → u64 (flip 64 (p / 2 ^ 64) + bool_ℕ (u64 low == 0)) * 2 ^ 64 + low % 2 ^ 64 ≡ s % 2 ^ 128
one_negative p low s b hb hp el es = elim (Bool-cases (u64 low == 0)) [
  | inl z ↦ rw z (omega (arith, (==_iff (u64 low) 0).0 z))
  | inr nz ↦ rw nz (let ne : u64 low ≢ 0 = ground arith in omega arith)
]

two_negative :
    (p low s n : ℕ)
    → p < 2 ^ 128
    → low + 2 ^ 64 * n ≡ 2 ^ 128 + p
    → s + 2 ^ 128 * n ≡ 2 ^ 256 + p
    → p / 2 ^ 64 * 2 ^ 64 + low % 2 ^ 64 ≡ s % 2 ^ 128
two_negative p low s n hp el es = omega arith

-- A negative pattern and its magnitude.
neg_fact : (a : ℕ) → a < 2 ^ 64 → is_neg 64 a ≡ true → (a + neg 64 a ≡ 2 ^ 64) × (neg 64 a < 2 ^ 64)
neg_fact a h e = ground arith

negative_left :
    (a b : ℕ)
    → a < 2 ^ 64
    → b < 2 ^ 64
    → is_neg 64 a ≡ true
    → u64 (flip 64 (mulhu (neg 64 a) b) + bool_ℕ (u64 (a * b) == 0)) * 2 ^ 64 + a * b % 2 ^ 64
      ≡ (a + (2 ^ 128 - 2 ^ 64)) * b % 2 ^ 128
negative_left a b ha hb na =
    let n = neg 64 a in
    let (sum, below) = neg_fact a ha na in
    rw (mulhu_high n b below hb) (
      one_negative (n * b) (a * b) ((a + (2 ^ 128 - 2 ^ 64)) * b) b hb (below_words n b below hb)
        (omega (arith, ap (λ (t : ℕ). t * b) sum)) (omega (arith, ap (λ (t : ℕ). t * b) sum)))

negative_right :
    (a b : ℕ)
    → a < 2 ^ 64
    → b < 2 ^ 64
    → is_neg 64 b ≡ true
    → u64 (flip 64 (mulhu a (neg 64 b)) + bool_ℕ (u64 (a * b) == 0)) * 2 ^ 64 + a * b % 2 ^ 64
      ≡ a * (b + (2 ^ 128 - 2 ^ 64)) % 2 ^ 128
negative_right a b ha hb nb =
    let n = neg 64 b in
    let (sum, below) = neg_fact b hb nb in
    rw (mulhu_high a n ha below) (
      one_negative (a * n) (a * b) (a * (b + (2 ^ 128 - 2 ^ 64))) a ha (below_words a n ha below)
        (omega (arith, ap (λ (t : ℕ). a * t) sum)) (omega (arith, ap (λ (t : ℕ). a * t) sum)))

negative_both :
    (a b : ℕ)
    → a < 2 ^ 64
    → b < 2 ^ 64
    → is_neg 64 a ≡ true
    → is_neg 64 b ≡ true
    → mulhu (neg 64 a) (neg 64 b) * 2 ^ 64 + a * b % 2 ^ 64
      ≡ (a + (2 ^ 128 - 2 ^ 64)) * (b + (2 ^ 128 - 2 ^ 64)) % 2 ^ 128
negative_both a b ha hb na nb =
    let n = neg 64 a in
    let m = neg 64 b in
    let (sum, below) = neg_fact a ha na in
    let (sum', below') = neg_fact b hb nb in
    rw (mulhu_high n m below below') (
      two_negative (n * m) (a * b) ((a + (2 ^ 128 - 2 ^ 64)) * (b + (2 ^ 128 - 2 ^ 64))) (n + m)
        (omega (arith, below_words n m below below'))
        (omega (arith, ap (λ (t : ℕ). t * b) sum, ap (λ (t : ℕ). n * t) sum'))
        (omega (arith, ap (λ (t : ℕ). t * b) sum, ap (λ (t : ℕ). n * t) sum')))

-- `mulh` over the low half of the product is the product of the sign extensions of both operands,
-- modulo `2 ^ 128`: it is the high half of the signed product.
pub mulh_high :
    (a b : ℕ)
    → a < 2 ^ 64
    → b < 2 ^ 64
    → mulh a b * 2 ^ 64 + a * b % 2 ^ 64 ≡ sext128 a * sext128 b % 2 ^ 128
unfolding mulh xor
mulh_high a b ha hb = elim (Bool-cases (is_neg 64 a)) [
  | inl na ↦ elim (Bool-cases (is_neg 64 b)) [
    | inl nb ↦ rw (na, nb) (negative_both a b ha hb na nb)
    | inr nb ↦ rw (na, nb) (negative_left a b ha hb na)
  ]
  | inr na ↦ elim (Bool-cases (is_neg 64 b)) [
    | inl nb ↦ rw (na, nb) (negative_right a b ha hb nb)
    | inr nb ↦ rw (na, nb) (omega (arith, mulhu_high a b ha hb, below_words a b ha hb))
  ]
]

-- `mulhsu` over the low half of the product is the sign extension of the first operand times the
-- second, modulo `2 ^ 128`.
pub mulhsu_high :
    (a b : ℕ)
    → a < 2 ^ 64
    → b < 2 ^ 64
    → mulhsu a b * 2 ^ 64 + a * b % 2 ^ 64 ≡ sext128 a * b % 2 ^ 128
unfolding mulhsu
mulhsu_high a b ha hb = elim (Bool-cases (is_neg 64 a)) [
  | inl na ↦ rw na (negative_left a b ha hb na)
  | inr na ↦ rw na (omega (arith, mulhu_high a b ha hb, below_words a b ha hb))
]
