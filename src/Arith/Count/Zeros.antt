-- ===== src/Arith/Count/Zeros.antt =====
-- What `ctz`, `clz`, `log2` and `cto` of riscv/arith.h count.
use spike_online.Arith.Count.{Scan, ctz_step, ctz, clz_step, clz, log2}
use spike_online.Base.{
  ℕ, zero, suc, ◌+◌, ◌-◌, ◌*◌, ◌/◌, ◌%◌, ◌^◌, ◌≤◌, ◌<◌, ◌≡◌, ◌≢◌, refl, sym, ap, ◌∙◌, arith, ◌==◌,
  u64, ◌<<<◌, ◌>>>◌, Bool-cases, inl, inr, mod_unique, ==_iff, ltb, ltb→lt, two_pow_add, times-lt,
  times-le,
}
use native.Mathlib.Nat.{
  one-le-pow, mod-lt, div-add-mod', mod-eq_of_lt, lt-div-mul-add, pow-le-pow_right, div-eq_of_lt,
}
use mathlib.Core.Bool.{false≢true}

times-pos : (a b : ℕ) → 0 < a → 0 < b → 0 < a * b
times-pos a b p q = grind arith

times-zero : (a b : ℕ) → a * b ≡ 0 → 0 < b → a ≡ 0
times-zero zero b e p = refl
times-zero (suc a) b e p = absurd (omega (arith, times-pos (suc a) b (omega arith) p))

regroup : (val q p m : ℕ) → val ≡ q * m → val * p ≡ q * (p * m)
regroup val q p m e = omega (arith, ap (λ (n : ℕ). n * p) e)

regroup' : (val q r m : ℕ) → val ≡ q * m → q ≡ r * m → val ≡ r * (m * m) + 0
regroup' val q r m e f = omega (arith, e, ap (λ (n : ℕ). n * m) f)

at_least : (a b : ℕ) → (a / b ≡ 0 → ⊥) → b ≤ a
at_least a b h = elim (Bool-cases (ltb a b)) [
  | inl lt ↦ absurd (h (div-eq_of_lt (ltb→lt a b lt)))
  | inr ge ↦ ground arith
]

-- The scan stands for `x`, and the lowest 1 of its value is among the low `k` bits.
record Trailing (x k : ℕ) (v : Scan) : Type 0 where
  product : x ≡ v.val * 2 ^ v.res
  found : v.val % 2 ^ k ≢ 0

shifted_out : (s t val : ℕ) → s + t ≡ 64 → u64 (val <<< t) ≡ val % 2 ^ s * 2 ^ t
shifted_out s t val e =
    let word : 2 ^ 64 ≡ 2 ^ s * 2 ^ t = ap (λ (n : ℕ). 2 ^ n) (sym e) ∙ two_pow_add s t in
    let below = mod-lt val (one-le-pow s 2 (omega arith)) in
    mod_unique (val * 2 ^ t) (val / 2 ^ s) (2 ^ 64) (val % 2 ^ s * 2 ^ t)
      (omega (
        arith,
        ap (λ (n : ℕ). n * 2 ^ t) (div-add-mod' val (2 ^ s)),
        ap (λ (n : ℕ). val / 2 ^ s * n) word,
      ))
      (rw word (times-lt (val % 2 ^ s) (2 ^ s) (2 ^ t) below (one-le-pow t 2 (omega arith))))

ctz_step-Trailing :
    (x s : ℕ) (v : Scan) → s ≤ 64 → Trailing x (s + s) v → Trailing x s (ctz_step s v)
unfolding ctz_step
ctz_step-Trailing x s v h t =
    let out : u64 (v.val <<< (64 - s)) ≡ v.val % 2 ^ s * 2 ^ (64 - s) =
      shifted_out s (64 - s) v.val (omega arith) in
    let some_bit = one-le-pow (64 - s) 2 (omega arith) in
    let parts = div-add-mod' v.val (2 ^ s) in
    elim (Bool-cases (u64 (v.val <<< (64 - s)) == 0)) [
      | inl z ↦
          let none_low : v.val % 2 ^ s ≡ 0 = times-zero _ _ (sym out ∙ (==_iff _ 0).0 z) some_bit in
          rw z (record {
            product =
                t.product
                ∙ rw (two_pow_add v.res s)
                    (regroup v.val (v.val / 2 ^ s) (2 ^ v.res) (2 ^ s) (omega arith));
            found = λ e. t.found (
                rw (two_pow_add s s) (
                  mod_unique v.val (v.val / 2 ^ s / 2 ^ s) (2 ^ s * 2 ^ s) 0
                    (regroup' v.val (v.val / 2 ^ s) (v.val / 2 ^ s / 2 ^ s) (2 ^ s) (omega arith)
                      (omega (arith, div-add-mod' (v.val / 2 ^ s) (2 ^ s))))
                    (times-pos (2 ^ s) (2 ^ s) (one-le-pow s 2 (omega arith))
                      (one-le-pow s 2 (omega arith)))));
          })
      | inr nz ↦ rw nz (record {
        product = t.product;
        found = λ e. absurd (false≢true (sym nz ∙ (==_iff _ 0).1 (out ∙ rw e (omega arith))));
      })
    ]

-- `ctz` of a word that is not 0 is the number of its trailing zeros: the word is an odd number
-- times that power of 2.
pub ctz_odd : (x : ℕ) → 0 < x → x < 2 ^ 64 → (q : ℕ) × (x ≡ q * 2 ^ ctz x) × (q % 2 ≡ 1)
unfolding ctz
ctz_odd x pos lt =
    let start : Trailing x 64 (record { res = 0; val = x }) = record {
      product = omega arith;
      found = λ e. absurd (omega arith);
    } in
    let t32 = ctz_step-Trailing x 32 _ (omega arith) start in
    let t16 = ctz_step-Trailing x 16 _ (omega arith) t32 in
    let t8 = ctz_step-Trailing x 8 _ (omega arith) t16 in
    let t4 = ctz_step-Trailing x 4 _ (omega arith) t8 in
    let t2 = ctz_step-Trailing x 2 _ (omega arith) t4 in
    let t1 = ctz_step-Trailing x 1 _ (omega arith) t2 in
    elim (Bool-cases (x == 0)) [
      | inl z ↦ absurd (omega (arith, (==_iff x 0).0 z))
      | inr nz ↦ rw nz (_, t1.product, omega (arith, t1.found))
    ]

-- The scan stands for `x` shifted left, and the highest 1 of its value is among the top `k` bits.
record Leading (x k : ℕ) (v : Scan) : Type 0 where
  product : v.val ≡ x * 2 ^ v.res
  fits : v.val < 2 ^ 64
  found : 2 ^ (64 - k) ≤ v.val

clz_step-Leading :
    (x s : ℕ) (v : Scan) → s + s ≤ 64 → Leading x (s + s) v → Leading x s (clz_step s v)
unfolding clz_step
clz_step-Leading x s v h t =
    let split : 2 ^ 64 ≡ 2 ^ (64 - s) * 2 ^ s =
      ap (λ (n : ℕ). 2 ^ n) {x = 64} {y = 64 - s + s} (omega arith) ∙ two_pow_add (64 - s) s in
    let split' : 2 ^ (64 - s) ≡ 2 ^ (64 - (s + s)) * 2 ^ s =
      ap (λ (n : ℕ). 2 ^ n) {x = 64 - s} {y = 64 - (s + s) + s} (omega arith)
      ∙ two_pow_add (64 - (s + s)) s in
    let above = lt-div-mul-add {a = v.val} (one-le-pow (64 - s) 2 (omega arith)) in
    elim (Bool-cases (v.val >>> (64 - s) == 0)) [
      | inl z ↦
          let small : v.val < 2 ^ (64 - s) =
            omega (arith, above, ap (λ (n : ℕ). n * 2 ^ (64 - s)) ((==_iff _ 0).0 z)) in
          let room : v.val * 2 ^ s < 2 ^ 64 =
            rw split (times-lt v.val (2 ^ (64 - s)) (2 ^ s) small (one-le-pow s 2 (omega arith))) in
          let same : u64 (v.val <<< s) ≡ v.val * 2 ^ s = mod-eq_of_lt room in
          rw z (record {
            product =
                same
                ∙ rw (two_pow_add v.res s) (omega (arith, ap (λ (n : ℕ). n * 2 ^ s) t.product));
            fits = rw same room;
            found = rw (same, split') (times-le (2 ^ (64 - (s + s))) v.val (2 ^ s) t.found);
          })
      | inr nz ↦ rw nz (record {
        product = t.product;
        fits = t.fits;
        found =
            at_least v.val (2 ^ (64 - s)) (λ e. absurd (false≢true (sym nz ∙ (==_iff _ 0).1 e)));
      })
    ]

-- `clz` of a word that is not 0 is the number of its leading zeros: shifted left by it, the word
-- still fits 64 bits and has its top bit set.
pub clz_top : (x : ℕ) → 0 < x → x < 2 ^ 64 → (2 ^ 63 ≤ x * 2 ^ clz x) × (x * 2 ^ clz x < 2 ^ 64)
unfolding clz
clz_top x pos lt =
    let start : Leading x 64 (record { res = 0; val = x }) = record {
      product = omega arith;
      fits = lt;
      found = omega arith;
    } in
    let t32 = clz_step-Leading x 32 _ (omega arith) start in
    let t16 = clz_step-Leading x 16 _ (omega arith) t32 in
    let t8 = clz_step-Leading x 8 _ (omega arith) t16 in
    let t4 = clz_step-Leading x 4 _ (omega arith) t8 in
    let t2 = clz_step-Leading x 2 _ (omega arith) t4 in
    let t1 = clz_step-Leading x 1 _ (omega arith) t2 in
    elim (Bool-cases (x == 0)) [
      | inl z ↦ absurd (omega (arith, (==_iff x 0).0 z))
      | inr nz ↦ rw (nz, ← t1.product) (t1.found, t1.fits)
    ]

cancel_le : (a b c : ℕ) → a * c ≤ b * c → 0 < c → a ≤ b
cancel_le a b c h p = elim (Bool-cases (ltb b a)) [
  | inl lt ↦ absurd (omega (arith, h, times-lt b a c (ltb→lt b a lt) p))
  | inr ge ↦ ground arith
]

cancel_lt : (a b c : ℕ) → a * c < b * c → a < b
cancel_lt a b c h = elim (Bool-cases (ltb a b)) [
  | inl lt ↦ ltb→lt a b lt
  | inr ge ↦ absurd (omega (arith, h, times-le b a c (ground arith)))
]

clz-le : (x : ℕ) → 0 < x → x < 2 ^ 64 → clz x ≤ 63
clz-le x pos lt = elim (Bool-cases (ltb 63 (clz x))) [
  | inl far ↦
      let high : 2 ^ 64 ≤ 2 ^ clz x = pow-le-pow_right (omega arith) (ltb→lt 63 (clz x) far) in
      absurd (omega (arith, times-le 1 x (2 ^ clz x) pos, (clz_top x pos lt).1, high))
  | inr near ↦ ground arith
]

-- `log2` of a word that is not 0 is the floor of its binary logarithm.
pub log2_floor : (x : ℕ) → 0 < x → x < 2 ^ 64 → (2 ^ log2 x ≤ x) × (x < 2 ^ (log2 x + 1))
unfolding log2
log2_floor x pos lt =
    let c = clz x in
    let le = clz-le x pos lt in
    let top = clz_top x pos lt in
    let one = one-le-pow c 2 (omega arith) in
    let low : 2 ^ 63 ≡ 2 ^ (63 - c) * 2 ^ c =
      ap (λ (n : ℕ). 2 ^ n) {x = 63} {y = 63 - c + c} (omega arith) ∙ two_pow_add (63 - c) c in
    let high : 2 ^ 64 ≡ 2 ^ (63 - c + 1) * 2 ^ c =
      ap (λ (n : ℕ). 2 ^ n) {x = 64} {y = 63 - c + 1 + c} (omega arith)
      ∙ two_pow_add (63 - c + 1) c in
    elim (Bool-cases (x == 0)) [
      | inl z ↦ absurd (omega (arith, (==_iff x 0).0 z))
      | inr nz ↦ rw nz (
        cancel_le (2 ^ (63 - c)) x (2 ^ c) (omega (arith, low, top.0)) one,
        cancel_lt x (2 ^ (63 - c + 1)) (2 ^ c) (omega (arith, high, top.1)),
      )
    ]
