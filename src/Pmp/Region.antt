-- ===== src/Pmp/Region.antt =====
-- The region of an entry that matches a naturally aligned power of two: riscv/csrs.cc.
use spike_online.Pmp.{
  Entry, Pmp, entry, mode_of, pmp_napot, pmp_tor_mask, tor_paddr, napot_mask, match4,
}
use native.Mathlib.Nat.{add-mul-div_right, div-eq_of_lt, mod-eq_of_lt, one-le-pow, pow-le-pow_right}
use spike_online.Base.{
  ℕ, times-le, ◌+◌, ◌-◌, ◌*◌, ◌/◌, ◌^◌, ◌<◌, ◌≤◌, ◌≡◌, ◌↔◌, refl, sym, ap, ◌∙◌, arith, true, inl,
  inr, Bool-cases, ltb, bit, bit_and, bit_or, bit_xor, bit-lt, bit-bit_and, bit-bit_or, bit-bit_xor,
  bit-div, bit-mul, bit_not, bit-mask, bit-zero, bit-two_pow, bit_ext, bit-fields, bit_or_fields,
  bit_xor-lt, bit-eq-zero_of_lt, bit_and_mask, two_pow_add, flip, u64, ◌<<<◌,
}

exponent_lt : (k n : ℕ) → 2 ^ k < 2 ^ n → k < n
exponent_lt k n h = elim (Bool-cases (ltb k n)) [
  | inl t ↦ ground (arith, t)
  | inr f ↦
      absurd (
        omega
          (arith, h, pow-le-pow_right {n = 2} (omega arith) {i = n} {j = k} (ground (arith, f))))
]

power_le : (k n : ℕ) → k ≤ n → 2 ^ k ≤ 2 ^ n
power_le k n h = pow-le-pow_right {n = 2} (omega arith) {i = k} {j = n} h

-- The trailing ones of `x`, counted by `k`: `x & ~(x + 1)` of `q * 2^(k+1) + 2^k - 1`.
trailing_ones :
    (q k : ℕ)
    → q * 2 ^ (k + 1) + 2 ^ k < 2 ^ 64
    → bit_and (q * 2 ^ (k + 1) + (2 ^ k - 1)) (flip 64 (q * 2 ^ (k + 1) + 2 ^ k)) ≡ 2 ^ k - 1
trailing_ones q k h = bit_ext _ _ λ i.
    let double : 2 ^ (k + 1) ≡ 2 * 2 ^ k = two_pow_add k 1 ∙ omega arith in
    let pos = one-le-pow k 2 (omega arith) in
    let wide = exponent_lt k 64 (omega (arith, h)) in
    let ones = bit-fields (k + 1) q (2 ^ k - 1) i (omega (arith, double, pos)) in
    let next = bit-fields (k + 1) q (2 ^ k) i (omega (arith, double, pos)) in
    ground (
      arith,
      ones,
      next,
      wide,
      bit-bit_and (q * 2 ^ (k + 1) + (2 ^ k - 1)) (flip 64 (q * 2 ^ (k + 1) + 2 ^ k)) i,
      bit_not 64 (q * 2 ^ (k + 1) + 2 ^ k) i h,
      bit-mask k i,
      bit-two_pow k i,
      bit-lt q (i - (k + 1)),
      bit-eq-zero_of_lt 64 (q * 2 ^ (k + 1) + 2 ^ k) i h,
    )

-- `x & ~(2^k - 1)` clears the low digits.
clear_low : (x k : ℕ) → x < 2 ^ 64 → k ≤ 64 → bit_and x (flip 64 (2 ^ k - 1)) ≡ x / 2 ^ k * 2 ^ k
clear_low x k h le = bit_ext _ _ λ i.
    let small : 2 ^ k - 1 < 2 ^ 64 = omega (arith, one-le-pow k 2, power_le k 64 le) in
    ground (
      arith,
      bit-bit_and x (flip 64 (2 ^ k - 1)) i,
      bit_not 64 (2 ^ k - 1) i small,
      bit-mask k i,
      bit-mul k (x / 2 ^ k) i,
      bit-div k x (i - k),
      bit-lt x i,
      bit-eq-zero_of_lt 64 x i h,
    )

xor-div : (a b k : ℕ) → bit_xor a b / 2 ^ k ≡ 0 ↔ a / 2 ^ k ≡ b / 2 ^ k
xor-div a b k = (
  λ e. bit_ext _ _ λ i. ground (
    arith,
    bit-div k a i,
    bit-div k b i,
    bit-lt a (k + i),
    bit-lt b (k + i),
    bit-bit_xor a b (k + i),
    sym (bit-div k (bit_xor a b) i) ∙ ap (λ (t : ℕ). bit t i) e ∙ bit-zero i,
  ),
  λ e. bit_ext _ _ λ i. ground (
    arith,
    bit-div k (bit_xor a b) i,
    bit-bit_xor a b (k + i),
    bit-zero i,
    bit-lt b (k + i),
    sym (bit-div k a i) ∙ ap (λ (t : ℕ). bit t i) e ∙ bit-div k b i,
  ),
)

finest : (p : Pmp) → p.lg_pmp_granularity ≡ 2 → pmp_tor_mask p ≡ 2 ^ 64 - 1
unfolding pmp_tor_mask
finest p g = rw g refl

or_zero : (x : ℕ) → bit_or x 0 ≡ x
or_zero x = bit_ext _ _ λ i. ground (arith, bit-bit_or x 0 i, bit-zero i)

no_wrap : (x : ℕ) → x < 2 ^ 64 → u64 x ≡ x
no_wrap x h = mod-eq_of_lt h

and_all : (x : ℕ) → x < 2 ^ 64 → bit_and x (2 ^ 64 - 1) ≡ x
and_all x h = bit_and_mask x 64 ∙ mod-eq_of_lt h

-- A value with a 0 among its 62 digits has at most 61 trailing ones.
few_ones : (v q k : ℕ) → v ≡ q * 2 ^ (k + 1) + (2 ^ k - 1) → v < 2 ^ 62 - 1 → k ≤ 61
few_ones v q k e h =
    omega (arith, exponent_lt k 62 (omega (arith, e, h, one-le-pow k 2 (omega arith))))

-- The mask clears the digits within the region.
napot_mask_lem :
    (p : Pmp) (e : Entry) (q k : ℕ)
    → p.lg_pmp_granularity ≡ 2
    → mode_of e ≡ pmp_napot
    → e.val ≡ q * 2 ^ (k + 1) + (2 ^ k - 1)
    → e.val < 2 ^ 62 - 1
    → napot_mask p e ≡ flip 64 (2 ^ (k + 3) - 1)
unfolding napot_mask
napot_mask_lem p e q k g m v small =
    let two : 2 ^ (k + 1) ≡ 2 * 2 ^ k = two_pow_add k 1 ∙ omega arith in
    let four : 2 ^ (k + 1 + 1) ≡ 4 * 2 ^ k = two_pow_add (k + 1) 1 ∙ omega (arith, two) in
    let eight : 2 ^ (k + 3) ≡ 8 * 2 ^ k = two_pow_add k 3 ∙ omega arith in
    let pos = one-le-pow k 2 (omega arith) in
    let double : e.val <<< 1 ≡ 2 * e.val = omega arith in
    let mask = q * 2 ^ (k + 1 + 1) + (2 ^ (k + 1) - 1) in
    let value : 2 * e.val + 1 ≡ mask =
      omega (arith, v, ap (λ (t : ℕ). q * t) two, ap (λ (t : ℕ). q * t) four, two, pos) in
    let shifted : bit_or (bit_or (u64 (e.val <<< 1)) 1) 0 ≡ mask =
      or_zero _
      ∙ ap (λ (t : ℕ). bit_or t 1) (no_wrap (e.val <<< 1) (omega (arith, double, small)))
      ∙ bit_or_fields 1 e.val 1 (omega arith)
      ∙ omega (arith, value) in
    let outer : ℕ → ℕ = λ t. u64 (flip 64 t <<< 2) in
    let after : ℕ → ℕ = λ t. outer (bit_and t (flip 64 (u64 (t + 1)))) in
    let next : u64 (mask + 1) ≡ q * 2 ^ (k + 1 + 1) + 2 ^ (k + 1) =
      omega (arith, value, small, two, pos) in
    let few = power_le k 61 (few_ones e.val q k v small) in
    let ones = trailing_ones q (k + 1) (omega (arith, value, small, two, pos)) in
    let top : u64 (flip 64 (2 ^ (k + 1) - 1) <<< 2) ≡ flip 64 (2 ^ (k + 3) - 1) =
      omega (arith, two, eight, few, pos) in
    rw (finest p g, m, napot_mask)
      (ap after (shifted) ∙ ap outer (ap (λ (t : ℕ). bit_and mask (flip 64 t)) next ∙ ones) ∙ top)

tor_paddr_lem :
    (p : Pmp) (e : Entry) → p.lg_pmp_granularity ≡ 2 → e.val < 2 ^ 62 → tor_paddr p e ≡ 4 * e.val
unfolding tor_paddr
tor_paddr_lem p e g h =
    rw (finest p g, and_all e.val (omega (arith, h)), tor_paddr) (omega (arith, h))

quotient : (q r n d : ℕ) → n ≡ r + q * d → r < d → n / d ≡ q
quotient q r n d e h =
    rw (e, add-mul-div_right r q {z = d} (omega (arith, h)), div-eq_of_lt h) (omega arith)

zero_of : (y d : ℕ) → 0 < d → y * d ≡ 0 → y ≡ 0
zero_of y d h e = omega (arith, times-le 1 d y h, e)

-- With the finest granularity, a NAPOT entry whose value ends in a 0 and `k` ones, and is not all
-- ones, matches exactly the 64-bit addresses of the aligned region of 2^(k+3) bytes that the bits
-- above that 0 name.
pub match4_napot :
    (p : Pmp) (i q k addr : ℕ)
    → p.lg_pmp_granularity ≡ 2
    → mode_of (entry p i) ≡ pmp_napot
    → (entry p i).val ≡ q * 2 ^ (k + 1) + (2 ^ k - 1)
    → (entry p i).val < 2 ^ 62 - 1
    → addr < 2 ^ 64
    → match4 p i addr ≡ true ↔ addr / 2 ^ (k + 3) ≡ q
unfolding match4
match4_napot p i q k addr g m v small h =
    let e = entry p i in
    let eight : 2 ^ (k + 3) ≡ 8 * 2 ^ k = two_pow_add k 3 ∙ omega arith in
    let two : 2 ^ (k + 1) ≡ 2 * 2 ^ k = two_pow_add k 1 ∙ omega arith in
    let pos = one-le-pow k 2 (omega arith) in
    let tor : tor_paddr p e ≡ 4 * e.val = tor_paddr_lem p e g (omega (arith, small)) in
    let region : 4 * e.val / 2 ^ (k + 3) ≡ q =
      quotient q (4 * (2 ^ k - 1)) (4 * e.val) (2 ^ (k + 3))
        (omega (arith, v, ap (λ (t : ℕ). q * t) eight, ap (λ (t : ℕ). q * t) two))
        (omega (arith, eight, pos)) in
    let masked : bit_and (bit_xor addr (tor_paddr p e)) (napot_mask p e)
        ≡ bit_xor addr (4 * e.val) / 2 ^ (k + 3) * 2 ^ (k + 3) =
      rw (tor, napot_mask_lem p e q k g m v small)
        (clear_low _ (k + 3) (bit_xor-lt 64 addr (4 * e.val) h (omega (arith, small)))
          (omega (arith, few_ones e.val q k v small))) in
    let (split, join) = xor-div addr (4 * e.val) (k + 3) in
    rw (m, match4)
      (
        (λ t.
            let z : bit_and (bit_xor addr (tor_paddr p e)) (napot_mask p e) ≡ 0 =
              ground (arith, t) in
            split (zero_of _ (2 ^ (k + 3)) (one-le-pow (k + 3) 2 (omega arith)) (sym masked ∙ z))
            ∙ region),
        λ t.
            let z : bit_and (bit_xor addr (tor_paddr p e)) (napot_mask p e) ≡ 0 =
              masked ∙ ap (λ (n : ℕ). n * 2 ^ (k + 3)) (join (t ∙ sym region)) ∙ omega arith in
            ground (arith, z),
      )
