-- ===== src/Arith/Saturate/Signed.antt =====
-- Signed `sat_add` of riscv/arith.h against the integers.
use spike_online.Arith.Saturate.{sat_add}
use spike_online.Base.{ℕ, ◌+◌, ◌-◌, ◌*◌, ◌/◌, ◌^◌, ◌<◌, bit_or, bit_xor}
use spike_online.Base.{◌≡◌, refl, arith, Bool, true, false, not, ◌||◌, if◌then◌else◌, ltb, leb}
use spike_online.Base.{wrap, ◌>>>◌, ◌<<<◌, flip, is_neg, signed, clamp, ◌+ℤ◌, ℤ, pos_part, neg_part}
use spike_online.Base.{
  ◌&&◌, Bool-cases, inl, inr, two_pow_half, bit_xor-lt, is_neg-bit_or, is_neg-bit_xor, is_neg-flip,
  ap, ◌∙◌,
}
use mathlib.Core.Bool.{xor}
use mathlib.Core.Path.{ap₂}
use native.Mathlib.Nat.{
  div-eq_of_lt-le, div-eq_of_lt, one-le-pow, mod-eq_of_lt, mod-lt, mod-eq-sub-mod,
}

-- Whether a w-bit signed type has the number.
abbrev pub fits : ℕ → ℤ → Bool
fits w z = ltb (pos_part z) (2 ^ (w - 1)) && leb (neg_part z) (2 ^ (w - 1))

-- What the code saturates to: the smallest value if the first operand is negative, else the
-- largest.
abbrev pub limit_of : ℕ → ℕ → ℕ
limit_of w x = wrap w (x >>> (w - 1) + (1 <<< (w - 1) - 1))

pub limit_lem :
    (w x : ℕ)
    → 0 < w
    → x < 2 ^ w
    → limit_of w x ≡ (if is_neg w x then 2 ^ (w - 1) else 2 ^ (w - 1) - 1)
limit_lem w x h hx = elim (Bool-cases (is_neg w x)) [
  | inl n ↦
      let q : x / 2 ^ (w - 1) ≡ 1 =
        div-eq_of_lt-le {k = 1} (2 ^ (w - 1)) (ground arith) (ground (arith, two_pow_half w h)) in
      rw (n, q)
        (ground (
          arith,
          two_pow_half w h,
          one-le-pow (w - 1) 2,
          mod-eq_of_lt {n = 2 ^ (w - 1)} {m = 2 ^ w},
        ))
  | inr p ↦
      let q : x / 2 ^ (w - 1) ≡ 0 = div-eq_of_lt (ground arith) in
      rw (p, q)
        (ground (
          arith,
          two_pow_half w h,
          one-le-pow (w - 1) 2,
          mod-eq_of_lt {n = 2 ^ (w - 1) - 1} {m = 2 ^ w},
        ))
]

pub limit_bound : (w x : ℕ) → 0 < w → x < 2 ^ w → limit_of w x < 2 ^ w
limit_bound w x h hx = mod-lt _ (one-le-pow w 2 (omega arith))

add_wraps :
    (w x y : ℕ)
    → 0 < w
    → x < 2 ^ w
    → y < 2 ^ w
    → wrap w (x + y) ≡ (if ltb (x + y) (2 ^ w) then x + y else x + y - 2 ^ w)
add_wraps w x y h hx hy = grind (arith, mod-eq_of_lt, mod-eq-sub-mod)

sat_add_overflows :
    (w x y : ℕ)
    → 0 < w
    → x < 2 ^ w
    → y < 2 ^ w
    → is_neg w (bit_or (bit_xor (limit_of w x) y) (flip w (bit_xor y (wrap w (x + y))))) ≡ (
        xor (is_neg w (limit_of w x)) (is_neg w y)
        || not (xor (is_neg w y) (is_neg w (wrap w (x + y)))))
sat_add_overflows w x y h hx hy =
    let l = limit_bound w x h hx in
    let r : wrap w (x + y) < 2 ^ w = mod-lt _ (one-le-pow w 2 (omega arith)) in
    let d = bit_xor-lt w y (wrap w (x + y)) hy r in
    is_neg-bit_or w _ _ h (bit_xor-lt w _ y l hy) (omega arith)
    ∙ ap₂ ◌||◌ (is_neg-bit_xor w _ y h l hy)
        (is_neg-flip w _ h d ∙ ap not (is_neg-bit_xor w y _ h hy r))

-- The outcome over the two powers of 2, given as numbers.
abbrev sum_out : ℕ → ℕ → ℕ → ℕ → ℕ × Bool
sum_out x y half whole =
    let lim = if leb half x then half else half - 1 in
    let res = if ltb (x + y) whole then x + y else x + y - whole in
    let over = not (xor (leb half lim) (leb half y) || not (xor (leb half y) (leb half res))) in
    if over then (lim, true) else (res, false)

sum_value_neg_neg :
    (w x y half whole : ℕ)
    → half ≡ 2 ^ (w - 1)
    → whole ≡ 2 ^ w
    → whole ≡ 2 * half
    → 0 < half
    → x < whole
    → y < whole
    → leb half x ≡ true
    → leb half y ≡ true
    → signed w (sum_out x y half whole).0 ≡ clamp w (signed w x +ℤ signed w y)
unfolding signed clamp ◌+ℤ◌ xor
sum_value_neg_neg w x y half whole eh ew e p hx hy ex ey =
    rw (← eh, ← ew) (rw (ex, ey) (ground arith))

sum_value_neg_pos :
    (w x y half whole : ℕ)
    → half ≡ 2 ^ (w - 1)
    → whole ≡ 2 ^ w
    → whole ≡ 2 * half
    → 0 < half
    → x < whole
    → y < whole
    → leb half x ≡ true
    → leb half y ≡ false
    → signed w (sum_out x y half whole).0 ≡ clamp w (signed w x +ℤ signed w y)
unfolding signed clamp ◌+ℤ◌ xor
sum_value_neg_pos w x y half whole eh ew e p hx hy ex ey =
    rw (← eh, ← ew) (rw (ex, ey) (ground arith))

sum_value_pos_neg :
    (w x y half whole : ℕ)
    → half ≡ 2 ^ (w - 1)
    → whole ≡ 2 ^ w
    → whole ≡ 2 * half
    → 0 < half
    → x < whole
    → y < whole
    → leb half x ≡ false
    → leb half y ≡ true
    → signed w (sum_out x y half whole).0 ≡ clamp w (signed w x +ℤ signed w y)
unfolding signed clamp ◌+ℤ◌ xor
sum_value_pos_neg w x y half whole eh ew e p hx hy ex ey =
    rw (← eh, ← ew) (rw (ex, ey) (ground arith))

sum_value_pos_pos :
    (w x y half whole : ℕ)
    → half ≡ 2 ^ (w - 1)
    → whole ≡ 2 ^ w
    → whole ≡ 2 * half
    → 0 < half
    → x < whole
    → y < whole
    → leb half x ≡ false
    → leb half y ≡ false
    → signed w (sum_out x y half whole).0 ≡ clamp w (signed w x +ℤ signed w y)
unfolding signed clamp ◌+ℤ◌ xor
sum_value_pos_pos w x y half whole eh ew e p hx hy ex ey =
    rw (← eh, ← ew) (rw (ex, ey) (ground arith))

sum_value :
    (w x y half whole : ℕ)
    → half ≡ 2 ^ (w - 1)
    → whole ≡ 2 ^ w
    → whole ≡ 2 * half
    → 0 < half
    → x < whole
    → y < whole
    → signed w (sum_out x y half whole).0 ≡ clamp w (signed w x +ℤ signed w y)
sum_value w x y half whole eh ew e p hx hy = elim (Bool-cases (leb half x)) [
  | inl nx ↦ elim (Bool-cases (leb half y)) [
    | inl ny ↦ sum_value_neg_neg w x y half whole eh ew e p hx hy nx ny
    | inr py ↦ sum_value_neg_pos w x y half whole eh ew e p hx hy nx py
  ]
  | inr px ↦ elim (Bool-cases (leb half y)) [
    | inl ny ↦ sum_value_pos_neg w x y half whole eh ew e p hx hy px ny
    | inr py ↦ sum_value_pos_pos w x y half whole eh ew e p hx hy px py
  ]
]

sum_flag_neg_neg :
    (w x y half whole : ℕ)
    → half ≡ 2 ^ (w - 1)
    → whole ≡ 2 ^ w
    → whole ≡ 2 * half
    → 0 < half
    → x < whole
    → y < whole
    → leb half x ≡ true
    → leb half y ≡ true
    → (sum_out x y half whole).1 ≡ not (fits w (signed w x +ℤ signed w y))
unfolding signed clamp ◌+ℤ◌ xor
sum_flag_neg_neg w x y half whole eh ew e p hx hy ex ey =
    rw (← eh, ← ew) (rw (ex, ey) (ground arith))

sum_flag_neg_pos :
    (w x y half whole : ℕ)
    → half ≡ 2 ^ (w - 1)
    → whole ≡ 2 ^ w
    → whole ≡ 2 * half
    → 0 < half
    → x < whole
    → y < whole
    → leb half x ≡ true
    → leb half y ≡ false
    → (sum_out x y half whole).1 ≡ not (fits w (signed w x +ℤ signed w y))
unfolding signed clamp ◌+ℤ◌ xor
sum_flag_neg_pos w x y half whole eh ew e p hx hy ex ey =
    rw (← eh, ← ew) (rw (ex, ey) (ground arith))

sum_flag_pos_neg :
    (w x y half whole : ℕ)
    → half ≡ 2 ^ (w - 1)
    → whole ≡ 2 ^ w
    → whole ≡ 2 * half
    → 0 < half
    → x < whole
    → y < whole
    → leb half x ≡ false
    → leb half y ≡ true
    → (sum_out x y half whole).1 ≡ not (fits w (signed w x +ℤ signed w y))
unfolding signed clamp ◌+ℤ◌ xor
sum_flag_pos_neg w x y half whole eh ew e p hx hy ex ey =
    rw (← eh, ← ew) (rw (ex, ey) (ground arith))

sum_flag_pos_pos :
    (w x y half whole : ℕ)
    → half ≡ 2 ^ (w - 1)
    → whole ≡ 2 ^ w
    → whole ≡ 2 * half
    → 0 < half
    → x < whole
    → y < whole
    → leb half x ≡ false
    → leb half y ≡ false
    → (sum_out x y half whole).1 ≡ not (fits w (signed w x +ℤ signed w y))
unfolding signed clamp ◌+ℤ◌ xor
sum_flag_pos_pos w x y half whole eh ew e p hx hy ex ey =
    rw (← eh, ← ew) (rw (ex, ey) (ground arith))

sum_flag :
    (w x y half whole : ℕ)
    → half ≡ 2 ^ (w - 1)
    → whole ≡ 2 ^ w
    → whole ≡ 2 * half
    → 0 < half
    → x < whole
    → y < whole
    → (sum_out x y half whole).1 ≡ not (fits w (signed w x +ℤ signed w y))
sum_flag w x y half whole eh ew e p hx hy = elim (Bool-cases (leb half x)) [
  | inl nx ↦ elim (Bool-cases (leb half y)) [
    | inl ny ↦ sum_flag_neg_neg w x y half whole eh ew e p hx hy nx ny
    | inr py ↦ sum_flag_neg_pos w x y half whole eh ew e p hx hy nx py
  ]
  | inr px ↦ elim (Bool-cases (leb half y)) [
    | inl ny ↦ sum_flag_pos_neg w x y half whole eh ew e p hx hy px ny
    | inr py ↦ sum_flag_pos_pos w x y half whole eh ew e p hx hy px py
  ]
]

sum_clamped :
    (w x y half whole : ℕ)
    → half ≡ 2 ^ (w - 1)
    → whole ≡ 2 ^ w
    → whole ≡ 2 * half
    → 0 < half
    → x < whole
    → y < whole
    → (signed w (sum_out x y half whole).0 ≡ clamp w (signed w x +ℤ signed w y))
      × ((sum_out x y half whole).1 ≡ not (fits w (signed w x +ℤ signed w y)))
sum_clamped w x y half whole eh ew e p hx hy =
    (sum_value w x y half whole eh ew e p hx hy, sum_flag w x y half whole eh ew e p hx hy)

-- At a positive width, signed saturating addition gives the representable number nearest to the
-- exact sum, and its flag tells whether the exact sum is not representable.
pub sat_add-clamp :
    (w x y : ℕ)
    → 0 < w
    → x < 2 ^ w
    → y < 2 ^ w
    → (signed w (sat_add w x y).0 ≡ clamp w (signed w x +ℤ signed w y))
      × ((sat_add w x y).1 ≡ not (fits w (signed w x +ℤ signed w y)))
unfolding sat_add
sat_add-clamp w x y h hx hy =
    rw (sat_add_overflows w x y h hx hy, limit_lem w x h hx, add_wraps w x y h hx hy)
      (sum_clamped w x y (2 ^ (w - 1)) (2 ^ w) refl refl (two_pow_half w h)
        (one-le-pow (w - 1) 2 (omega arith)) hx hy)

pub sat_add-lt : (w x y : ℕ) → 0 < w → x < 2 ^ w → y < 2 ^ w → (sat_add w x y).0 < 2 ^ w
unfolding sat_add
sat_add-lt w x y h hx hy =
    ground (arith, limit_bound w x h hx, mod-lt (x + y) (one-le-pow w 2 (omega arith)))
