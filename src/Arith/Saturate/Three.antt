-- ===== src/Arith/Saturate/Three.antt =====
-- The three-operand `sat_add` of riscv/arith.h.
use spike_online.Arith.Saturate.{sat_add, sat_add3}
use spike_online.Arith.Saturate.Signed.{fits, sat_add-clamp, sat_add-lt}
use spike_online.Base.{
  ℕ, ◌-◌, ◌^◌, ◌<◌, ◌≡◌, refl, ap, ap₂, ◌∙◌, not, ℤ, pos, negsuc, signed, clamp, ◌+ℤ◌, arith, Bool,
  true, false, is_neg, ◌||◌, ◌&&◌, ◌⊎◌, inl, inr, Bool-cases, two_pow_half, bit_xor-lt,
  is_neg-bit_xor, is_neg-bit_and, bit_and, bit_xor, ◌≢◌,
}
use mathlib.Core.Bool.{xor}
use native.Mathlib.Nat.{one-le-pow}

abbrev negative : ℤ → Bool
negative (pos n) = false
negative (negsuc n) = true

-- Clamping after each of two additions clamps the exact sum once, unless the first addition can
-- stop short of what the second takes back.
clamp_twice :
    (w : ℕ) (x a b : ℤ)
    → 0 < 2 ^ (w - 1)
    → fits w x ≡ true
    → fits w a ≡ true
    → fits w b ≡ true
    → (negative a ≢ negative x) ⊎ (negative a ≡ negative b)
    → (clamp w (clamp w (x +ℤ a) +ℤ b) ≡ clamp w (x +ℤ a +ℤ b))
      × ((not (fits w (x +ℤ a)) || not (fits w (clamp w (x +ℤ a) +ℤ b)))
          ≡ not (fits w (x +ℤ a +ℤ b)))
unfolding clamp ◌+ℤ◌
clamp_twice w (pos x) (pos a) (pos b) h fx fa fb c = (ground arith, ground arith)
clamp_twice w (pos x) (pos a) (negsuc b) h fx fa fb c = (ground arith, ground arith)
clamp_twice w (pos x) (negsuc a) (pos b) h fx fa fb c = (ground arith, ground arith)
clamp_twice w (pos x) (negsuc a) (negsuc b) h fx fa fb c = (ground arith, ground arith)
clamp_twice w (negsuc x) (pos a) (pos b) h fx fa fb c = (ground arith, ground arith)
clamp_twice w (negsuc x) (pos a) (negsuc b) h fx fa fb c = (ground arith, ground arith)
clamp_twice w (negsuc x) (negsuc a) (pos b) h fx fa fb c = (ground arith, ground arith)
clamp_twice w (negsuc x) (negsuc a) (negsuc b) h fx fa fb c = (ground arith, ground arith)

+ℤ_swap : (x a b : ℤ) → x +ℤ a +ℤ b ≡ x +ℤ b +ℤ a
unfolding ◌+ℤ◌
+ℤ_swap (pos x) a b = ground arith
+ℤ_swap (negsuc x) a b = ground arith

signed_facts :
    (w x : ℕ)
    → 0 < w
    → x < 2 ^ w
    → (fits w (signed w x) ≡ true) × (negative (signed w x) ≡ is_neg w x)
unfolding signed
signed_facts w x h hx = ground (arith, two_pow_half w h)

opposite : (x y z : Bool) → (xor y z && xor x z) ≡ true → z ≢ x
unfolding xor
opposite true y z e = ground arith
opposite false y z e = ground arith

kept : (x y z : Bool) → (xor y z && xor x z) ≡ false → (y ≢ x) ⊎ (y ≡ z)
unfolding xor
kept true true true e = inr refl
kept true true false e = absurd (cc)
kept true false z e = inl (cc)
kept false true z e = inl (cc)
kept false false true e = absurd (cc)
kept false false false e = inr refl

-- Two saturating additions in a row, in an order that loses nothing.
add_pair :
    (w x a b : ℕ)
    → 0 < w
    → x < 2 ^ w
    → a < 2 ^ w
    → b < 2 ^ w
    → (is_neg w a ≢ is_neg w x) ⊎ (is_neg w a ≡ is_neg w b)
    → (signed w (sat_add w (sat_add w x a).0 b).0
        ≡ clamp w (signed w x +ℤ signed w a +ℤ signed w b))
      × (((sat_add w x a).1 || (sat_add w (sat_add w x a).0 b).1)
          ≡ not (fits w (signed w x +ℤ signed w a +ℤ signed w b)))
add_pair w x a b h hx ha hb c =
    let fx = signed_facts w x h hx in
    let fa = signed_facts w a h ha in
    let fb = signed_facts w b h hb in
    let first = sat_add-clamp w x a h hx ha in
    let second = sat_add-clamp w (sat_add w x a).0 b h (sat_add-lt w x a h hx ha) hb in
    let twice =
      clamp_twice w (signed w x) (signed w a) (signed w b) (one-le-pow (w - 1) 2 (omega arith)) fx.0
        fa.0 fb.0 (rw (fx.1, fa.1, fb.1) c) in
    (
      second.0 ∙ ap (λ t. clamp w (t +ℤ signed w b)) first.0 ∙ twice.0,
      ap₂ ◌||◌ first.1 (second.1 ∙ ap (λ t. not (fits w (t +ℤ signed w b))) first.0) ∙ twice.1,
    )

-- At a positive width, the three-operand addition gives the representable number nearest to the
-- exact sum of all three, whatever the order of the partial sums, and its flag tells whether the
-- exact sum is not representable.
pub sat_add3-clamp :
    (w x y z : ℕ)
    → 0 < w
    → x < 2 ^ w
    → y < 2 ^ w
    → z < 2 ^ w
    → (signed w (sat_add3 w x y z).0 ≡ clamp w (signed w x +ℤ signed w y +ℤ signed w z))
      × ((sat_add3 w x y z).1 ≡ not (fits w (signed w x +ℤ signed w y +ℤ signed w z)))
unfolding sat_add3
sat_add3-clamp w x y z h hx hy hz =
    let test : is_neg w (bit_and (bit_xor y z) (bit_xor x z))
        ≡ (xor (is_neg w y) (is_neg w z) && xor (is_neg w x) (is_neg w z)) =
      is_neg-bit_and w _ _ h (bit_xor-lt w y z hy hz) (bit_xor-lt w x z hx hz)
      ∙ ap₂ ◌&&◌ (is_neg-bit_xor w y z h hy hz) (is_neg-bit_xor w x z h hx hz) in
    elim (Bool-cases (xor (is_neg w y) (is_neg w z) && xor (is_neg w x) (is_neg w z))) [
      | inl swap ↦
          rw (test, swap)
            (rw (+ℤ_swap (signed w x) (signed w y) (signed w z)) (
              add_pair w x z y h hx hz hy
                (inl (opposite (is_neg w x) (is_neg w y) (is_neg w z) swap))))
      | inr keep ↦
          rw (test, keep)
            (add_pair w x y z h hx hy hz (kept (is_neg w x) (is_neg w y) (is_neg w z) keep))
    ]
