-- ===== src/Arith/Saturate/Difference.antt =====
-- Signed `sat_sub` of riscv/arith.h against the integers.
use spike_online.Arith.Saturate.{sat_sub}
use spike_online.Arith.Saturate.Signed.{fits, limit_of, limit_lem, limit_bound}
use spike_online.Base.{is_neg-bit_and}
use spike_online.Base.{ℕ, ◌+◌, ◌-◌, ◌*◌, ◌^◌, ◌<◌, bit_and, bit_xor}
use spike_online.Base.{◌≡◌, refl, arith, Bool, true, false, not, if◌then◌else◌, leb}
use spike_online.Base.{sub, is_neg, signed, clamp, ◌-ℤ◌}
use spike_online.Base.{◌&&◌, Bool-cases, inl, inr, two_pow_half, bit_xor-lt, is_neg-bit_xor, ◌∙◌}
use mathlib.Core.Bool.{xor}
use mathlib.Core.Path.{ap₂}
use native.Mathlib.Nat.{one-le-pow, mod-eq_of_lt, mod-lt, mod-eq-sub-mod}

sub_wraps :
    (w x y : ℕ)
    → 0 < w
    → x < 2 ^ w
    → y < 2 ^ w
    → sub w x y ≡ (if leb y x then x - y else x + 2 ^ w - y)
sub_wraps w x y h hx hy = grind (arith, mod-eq_of_lt, mod-eq-sub-mod)

sat_sub_overflows :
    (w x y : ℕ)
    → 0 < w
    → x < 2 ^ w
    → y < 2 ^ w
    → is_neg w (bit_and (bit_xor (limit_of w x) y) (bit_xor (limit_of w x) (sub w x y))) ≡ (
        xor (is_neg w (limit_of w x)) (is_neg w y)
        && xor (is_neg w (limit_of w x)) (is_neg w (sub w x y)))
sat_sub_overflows w x y h hx hy =
    let l = limit_bound w x h hx in
    let r : sub w x y < 2 ^ w = mod-lt _ (one-le-pow w 2 (omega arith)) in
    is_neg-bit_and w _ _ h (bit_xor-lt w _ y l hy) (bit_xor-lt w _ (sub w x y) l r)
    ∙ ap₂ ◌&&◌ (is_neg-bit_xor w _ y h l hy) (is_neg-bit_xor w _ (sub w x y) h l r)

-- The outcome over the two powers of 2, given as numbers.
abbrev difference_out : ℕ → ℕ → ℕ → ℕ → ℕ × Bool
difference_out x y half whole =
    let lim = if leb half x then half else half - 1 in
    let res = if leb y x then x - y else x + whole - y in
    let over = xor (leb half lim) (leb half y) && xor (leb half lim) (leb half res) in
    if over then (lim, true) else (res, false)

difference_value_neg_neg :
    (w x y half whole : ℕ)
    → half ≡ 2 ^ (w - 1)
    → whole ≡ 2 ^ w
    → whole ≡ 2 * half
    → 0 < half
    → x < whole
    → y < whole
    → leb half x ≡ true
    → leb half y ≡ true
    → signed w (difference_out x y half whole).0 ≡ clamp w (signed w x -ℤ signed w y)
unfolding signed clamp ◌-ℤ◌ xor
difference_value_neg_neg w x y half whole eh ew e p hx hy ex ey =
    rw (← eh, ← ew) (rw (ex, ey) (ground arith))

difference_value_neg_pos :
    (w x y half whole : ℕ)
    → half ≡ 2 ^ (w - 1)
    → whole ≡ 2 ^ w
    → whole ≡ 2 * half
    → 0 < half
    → x < whole
    → y < whole
    → leb half x ≡ true
    → leb half y ≡ false
    → signed w (difference_out x y half whole).0 ≡ clamp w (signed w x -ℤ signed w y)
unfolding signed clamp ◌-ℤ◌ xor
difference_value_neg_pos w x y half whole eh ew e p hx hy ex ey =
    rw (← eh, ← ew) (rw (ex, ey) (ground arith))

difference_value_pos_neg :
    (w x y half whole : ℕ)
    → half ≡ 2 ^ (w - 1)
    → whole ≡ 2 ^ w
    → whole ≡ 2 * half
    → 0 < half
    → x < whole
    → y < whole
    → leb half x ≡ false
    → leb half y ≡ true
    → signed w (difference_out x y half whole).0 ≡ clamp w (signed w x -ℤ signed w y)
unfolding signed clamp ◌-ℤ◌ xor
difference_value_pos_neg w x y half whole eh ew e p hx hy ex ey =
    rw (← eh, ← ew) (rw (ex, ey) (ground arith))

difference_value_pos_pos :
    (w x y half whole : ℕ)
    → half ≡ 2 ^ (w - 1)
    → whole ≡ 2 ^ w
    → whole ≡ 2 * half
    → 0 < half
    → x < whole
    → y < whole
    → leb half x ≡ false
    → leb half y ≡ false
    → signed w (difference_out x y half whole).0 ≡ clamp w (signed w x -ℤ signed w y)
unfolding signed clamp ◌-ℤ◌ xor
difference_value_pos_pos w x y half whole eh ew e p hx hy ex ey =
    rw (← eh, ← ew) (rw (ex, ey) (ground arith))

difference_value :
    (w x y half whole : ℕ)
    → half ≡ 2 ^ (w - 1)
    → whole ≡ 2 ^ w
    → whole ≡ 2 * half
    → 0 < half
    → x < whole
    → y < whole
    → signed w (difference_out x y half whole).0 ≡ clamp w (signed w x -ℤ signed w y)
difference_value w x y half whole eh ew e p hx hy = elim (Bool-cases (leb half x)) [
  | inl nx ↦ elim (Bool-cases (leb half y)) [
    | inl ny ↦ difference_value_neg_neg w x y half whole eh ew e p hx hy nx ny
    | inr py ↦ difference_value_neg_pos w x y half whole eh ew e p hx hy nx py
  ]
  | inr px ↦ elim (Bool-cases (leb half y)) [
    | inl ny ↦ difference_value_pos_neg w x y half whole eh ew e p hx hy px ny
    | inr py ↦ difference_value_pos_pos w x y half whole eh ew e p hx hy px py
  ]
]

difference_flag_neg_neg :
    (w x y half whole : ℕ)
    → half ≡ 2 ^ (w - 1)
    → whole ≡ 2 ^ w
    → whole ≡ 2 * half
    → 0 < half
    → x < whole
    → y < whole
    → leb half x ≡ true
    → leb half y ≡ true
    → (difference_out x y half whole).1 ≡ not (fits w (signed w x -ℤ signed w y))
unfolding signed clamp ◌-ℤ◌ xor
difference_flag_neg_neg w x y half whole eh ew e p hx hy ex ey =
    rw (← eh, ← ew) (rw (ex, ey) (ground arith))

difference_flag_neg_pos :
    (w x y half whole : ℕ)
    → half ≡ 2 ^ (w - 1)
    → whole ≡ 2 ^ w
    → whole ≡ 2 * half
    → 0 < half
    → x < whole
    → y < whole
    → leb half x ≡ true
    → leb half y ≡ false
    → (difference_out x y half whole).1 ≡ not (fits w (signed w x -ℤ signed w y))
unfolding signed clamp ◌-ℤ◌ xor
difference_flag_neg_pos w x y half whole eh ew e p hx hy ex ey =
    rw (← eh, ← ew) (rw (ex, ey) (ground arith))

difference_flag_pos_neg :
    (w x y half whole : ℕ)
    → half ≡ 2 ^ (w - 1)
    → whole ≡ 2 ^ w
    → whole ≡ 2 * half
    → 0 < half
    → x < whole
    → y < whole
    → leb half x ≡ false
    → leb half y ≡ true
    → (difference_out x y half whole).1 ≡ not (fits w (signed w x -ℤ signed w y))
unfolding signed clamp ◌-ℤ◌ xor
difference_flag_pos_neg w x y half whole eh ew e p hx hy ex ey =
    rw (← eh, ← ew) (rw (ex, ey) (ground arith))

difference_flag_pos_pos :
    (w x y half whole : ℕ)
    → half ≡ 2 ^ (w - 1)
    → whole ≡ 2 ^ w
    → whole ≡ 2 * half
    → 0 < half
    → x < whole
    → y < whole
    → leb half x ≡ false
    → leb half y ≡ false
    → (difference_out x y half whole).1 ≡ not (fits w (signed w x -ℤ signed w y))
unfolding signed clamp ◌-ℤ◌ xor
difference_flag_pos_pos w x y half whole eh ew e p hx hy ex ey =
    rw (← eh, ← ew) (rw (ex, ey) (ground arith))

difference_flag :
    (w x y half whole : ℕ)
    → half ≡ 2 ^ (w - 1)
    → whole ≡ 2 ^ w
    → whole ≡ 2 * half
    → 0 < half
    → x < whole
    → y < whole
    → (difference_out x y half whole).1 ≡ not (fits w (signed w x -ℤ signed w y))
difference_flag w x y half whole eh ew e p hx hy = elim (Bool-cases (leb half x)) [
  | inl nx ↦ elim (Bool-cases (leb half y)) [
    | inl ny ↦ difference_flag_neg_neg w x y half whole eh ew e p hx hy nx ny
    | inr py ↦ difference_flag_neg_pos w x y half whole eh ew e p hx hy nx py
  ]
  | inr px ↦ elim (Bool-cases (leb half y)) [
    | inl ny ↦ difference_flag_pos_neg w x y half whole eh ew e p hx hy px ny
    | inr py ↦ difference_flag_pos_pos w x y half whole eh ew e p hx hy px py
  ]
]

difference_clamped :
    (w x y half whole : ℕ)
    → half ≡ 2 ^ (w - 1)
    → whole ≡ 2 ^ w
    → whole ≡ 2 * half
    → 0 < half
    → x < whole
    → y < whole
    → (signed w (difference_out x y half whole).0 ≡ clamp w (signed w x -ℤ signed w y))
      × ((difference_out x y half whole).1 ≡ not (fits w (signed w x -ℤ signed w y)))
difference_clamped w x y half whole eh ew e p hx hy = (
  difference_value w x y half whole eh ew e p hx hy,
  difference_flag w x y half whole eh ew e p hx hy,
)

-- At a positive width, signed saturating subtraction gives the representable number nearest to
-- the exact difference, and its flag tells whether the exact difference is not representable.
pub sat_sub-clamp :
    (w x y : ℕ)
    → 0 < w
    → x < 2 ^ w
    → y < 2 ^ w
    → (signed w (sat_sub w x y).0 ≡ clamp w (signed w x -ℤ signed w y))
      × ((sat_sub w x y).1 ≡ not (fits w (signed w x -ℤ signed w y)))
unfolding sat_sub
sat_sub-clamp w x y h hx hy =
    rw (sat_sub_overflows w x y h hx hy, limit_lem w x h hx, sub_wraps w x y h hx hy)
      (difference_clamped w x y (2 ^ (w - 1)) (2 ^ w) refl refl (two_pow_half w h)
        (one-le-pow (w - 1) 2 (omega arith)) hx hy)
