-- ===== src/Arith/Saturate/Unsigned.antt =====
-- Unsigned `sat_addu` and `sat_subu` of riscv/arith.h.
use spike_online.Arith.Saturate.{sat_addu, sat_subu}
use spike_online.Base.{
  ℕ, ◌+◌, ◌-◌, ◌^◌, ◌<◌, min, bit_and, bit_or, wrap, sub, ◌≡◌, arith, ltb, leb, bit_ext, bit-bit_or,
  bit-bit_and, bit-mask, bit-lt, bit-zero, bit-eq-zero_of_lt, if◌then◌else◌,
}
use native.Mathlib.Nat.{mod-eq_of_lt, mod-eq-sub-mod, one-le-pow, mod-lt}

bit_or-ones : (w x : ℕ) → x < 2 ^ w → bit_or x (2 ^ w - 1) ≡ 2 ^ w - 1
bit_or-ones w x h = bit_ext _ _ λ i.
    ground (arith, bit-bit_or x (2 ^ w - 1) i, bit-mask w i, bit-lt x i, bit-eq-zero_of_lt w x i h)

bit_and-ones : (w x : ℕ) → x < 2 ^ w → bit_and x (2 ^ w - 1) ≡ x
bit_and-ones w x h = bit_ext _ _ λ i.
    ground (arith, bit-bit_and x (2 ^ w - 1) i, bit-mask w i, bit-lt x i, bit-eq-zero_of_lt w x i h)

bit_or-none : (x : ℕ) → bit_or x 0 ≡ x
bit_or-none x = bit_ext _ _ λ i. ground (arith, bit-bit_or x 0 i, bit-zero i)

bit_and-none : (x : ℕ) → bit_and x 0 ≡ 0
bit_and-none x = bit_ext _ _ λ i. ground (arith, bit-bit_and x 0 i, bit-zero i)

-- Unsigned saturating addition stops at the largest value, and flags exactly the sums above it.
pub sat_addu-min :
    (w x y : ℕ)
    → x < 2 ^ w
    → y < 2 ^ w
    → ((sat_addu w x y).0 ≡ min (x + y) (2 ^ w - 1)) × ((sat_addu w x y).1 ≡ leb (2 ^ w) (x + y))
unfolding sat_addu
sat_addu-min w x y hx hy =
    let e : wrap w (x + y) ≡ (if ltb (x + y) (2 ^ w) then x + y else x + y - 2 ^ w) =
      grind (arith, mod-eq_of_lt, mod-eq-sub-mod) in
    let top = mod-lt (x + y) (one-le-pow w 2 (omega arith)) in
    rw e (ground (arith, bit_or-ones w (x + y - 2 ^ w), bit_or-none (x + y)), ground arith)

-- Unsigned saturating subtraction stops at 0, and flags exactly the negative differences.
pub sat_subu_monus :
    (w x y : ℕ)
    → x < 2 ^ w
    → y < 2 ^ w
    → ((sat_subu w x y).0 ≡ x - y) × ((sat_subu w x y).1 ≡ ltb x y)
unfolding sat_subu
sat_subu_monus w x y hx hy =
    let e : sub w x y ≡ (if leb y x then x - y else x + 2 ^ w - y) =
      grind (arith, mod-eq_of_lt, mod-eq-sub-mod) in
    rw e (ground (arith, bit_and-ones w (x - y), bit_and-none (x + 2 ^ w - y)), ground arith)
