-- ===== src/Interrupt/Priority.antt =====
-- The order in which `take_interrupt` of riscv/processor.cc takes enabled interrupts.
use spike_online.Interrupt.{select}
use spike_online.Arith.Count.{ctz}
use spike_online.Arith.Count.Zeros.{ctz_odd}
use mathlib.Core.Path.{subst}
use native.Mathlib.Nat.{one-mul, one-le-pow, pow-le-pow_right, pow-suc}
use spike_online.Base.{
  bit-eq-zero_of_lt, ℕ, suc, ◌-◌, ◌/◌, ◌%◌, ◌^◌, ◌<◌, ◌≡◌, refl, sym, ap, ◌∙◌, arith, true, false,
  inl, inr, Option, none, some, if◌then◌else◌, ◌==◌, ltb, bit-lt, any_bit, any_bit_lem, bit,
  bit-mul, bit-div, bit-two_pow, Bool-cases, ◌<<<◌, ◌>>>◌,
}

bit-low : (x : ℕ) → bit x 0 ≡ x % 2
unfolding bit
bit-low x = refl

none≢some : {s : ℕ} → none ≡ some s → ⊥
none≢some e = cc

some_inj : {a b : ℕ} → some a ≡ some b → a ≡ b
some_inj e = cc

pub two_pow_lt : (i j : ℕ) → i < j → 2 ^ i < 2 ^ j
two_pow_lt i j h = omega (
  arith,
  pow-suc 2 i,
  one-le-pow i 2,
  pow-le-pow_right {n = 2} (omega arith) {i = suc i} {j = j} h,
)

-- `ctz` of a word that is not 0 is the number of one of its 1s.
pub bit-ctz : (x : ℕ) → 0 < x → x < 2 ^ 64 → bit x (ctz x) ≡ 1
bit-ctz x pos lt =
    let (q, e, odd) = ctz_odd x pos lt in
    ap (λ (t : ℕ). bit t (ctz x)) e ∙ ground (arith, bit-mul (ctz x) q (ctz x), bit-low q)

-- An optional set of interrupts that is not empty and lies in `e`.
abbrev IsPart : ℕ → Option ℕ → Type 0
IsPart e o = (s : ℕ) → o ≡ some s → (0 < s) × (s < 2 ^ 64) × ((i : ℕ) → bit s i ≡ 1 → bit e i ≡ 1)

one_bit :
    (e k : ℕ)
    → k < 64
    → any_bit e (1 <<< k) ≡ true
    → (0 < 1 <<< k) × (1 <<< k < 2 ^ 64) × ((i : ℕ) → bit (1 <<< k) i ≡ 1 → bit e i ≡ 1)
one_bit e k h t =
    let same : 1 <<< k ≡ 2 ^ k = one-mul (2 ^ k) in
    rw same (
      one-le-pow k 2 (omega arith),
      two_pow_lt k 64 h,
      λ i d. ground (arith, bit-two_pow k i, sym (any_bit_lem e k) ∙ t),
    )

next :
    (e k : ℕ) (rest : Option ℕ)
    → k < 64
    → IsPart e rest
    → IsPart e (if any_bit e (1 <<< k) then some (1 <<< k) else rest)
next e k rest h tail s q = elim (Bool-cases (any_bit e (1 <<< k))) [
  | inl t ↦
      subst (λ n. (0 < n) × (n < 2 ^ 64) × ((i : ℕ) → bit n i ≡ 1 → bit e i ≡ 1))
        (some_inj (rw t at q)) (one_bit e k h t)
  | inr f ↦ tail s (rw f at q)
]

top_part : (e : ℕ) → e < 2 ^ 64 → (e >>> 12 == 0) ≡ false → IsPart e (some (e >>> 12 <<< 12))
top_part e h t s q =
    subst (λ n. (0 < n) × (n < 2 ^ 64) × ((i : ℕ) → bit n i ≡ 1 → bit e i ≡ 1)) (some_inj q)
      (
        ground arith,
        omega arith,
        λ i d. ground (arith, bit-mul 12 (e / 2 ^ 12) i, bit-div 12 e (i - 12)),
      )

-- What is selected is one of the enabled interrupts, and is not empty.
pub select-subset :
    (e s : ℕ)
    → e < 2 ^ 64
    → select e ≡ some s
    → (0 < s) × (s < 2 ^ 64) × ((i : ℕ) → bit s i ≡ 1 → bit e i ≡ 1)
unfolding select
select-subset e s h q =
    let last : IsPart e none = λ n absent. absurd (none≢some absent) in
    let standard = next e 11 _ (omega arith) (
      next e 3 _ (omega arith) (
        next e 7 _ (omega arith) (
          next e 9 _ (omega arith) (
            next e 1 _ (omega arith) (
              next e 5 _ (omega arith) (
                next e 13 _ (omega arith) (
                  next e 10 _ (omega arith)
                    (next e 2 _ (omega arith) (next e 6 none (omega arith) last))))))))) in
    elim (Bool-cases (e >>> 12 == 0)) [
      | inl low ↦ standard s (rw (low, select) at q)
      | inr high ↦ top_part e h high s (rw (high, select) at q)
    ]

-- Among the standard interrupts, where no enabled interrupt has a number above 11, the choice is
-- the external, software and timer interrupts of M, then of S, then of VS, in that order of levels.
pub select_order :
    (e : ℕ)
    → e < 2 ^ 12
    → select e ≡ (
        if bit e 11 == 1
        then some (2 ^ 11)
        else if bit e 3 == 1
        then some (2 ^ 3)
        else if bit e 7 == 1
        then some (2 ^ 7)
        else if bit e 9 == 1
        then some (2 ^ 9)
        else if bit e 1 == 1
        then some (2 ^ 1)
        else if bit e 5 == 1
        then some (2 ^ 5)
        else if bit e 10 == 1
        then some (2 ^ 10)
        else if bit e 2 == 1
        then some (2 ^ 2)
        else if bit e 6 == 1
        then some (2 ^ 6)
        else none)
unfolding select
select_order e h =
    let q : e >>> 12 ≡ 0 = omega arith in
    let no_13 : bit e 13 ≡ 0 = bit-eq-zero_of_lt 12 e 13 h (omega arith) in
    rw (
      q,
      any_bit_lem e 11,
      any_bit_lem e 3,
      any_bit_lem e 7,
      any_bit_lem e 9,
      any_bit_lem e 1,
      any_bit_lem e 5,
      any_bit_lem e 13,
      any_bit_lem e 10,
      any_bit_lem e 2,
      any_bit_lem e 6,
      no_13,
    )

-- `ctz` is the number of the lowest 1.
ctz_of_lowest :
    (x k : ℕ) → 0 < x → x < 2 ^ 64 → bit x k ≡ 1 → ((i : ℕ) → i < k → bit x i ≡ 0) → ctz x ≡ k
ctz_of_lowest x k pos lt at below =
    let (q, e, odd) = ctz_odd x pos lt in
    let zeros : bit x k ≡ (if ltb k (ctz x) then 0 else bit q (k - ctz x)) =
      ap (λ (t : ℕ). bit t k) e ∙ bit-mul (ctz x) q k in
    ground (arith, at, zeros, bit-ctz x pos lt, below (ctz x))

-- Where the counter-overflow interrupt, number 13, is enabled, the cause that is taken is number 12 if
-- that is enabled too, and else 13, whichever other interrupts are enabled: no interrupt with a
-- number below 12 is taken before them, the machine external one included.
pub select_overflow_first :
    (e : ℕ)
    → e < 2 ^ 64
    → bit e 13 ≡ 1
    → (s : ℕ) × (select e ≡ some s) × (ctz s ≡ (if bit e 12 == 1 then 12 else 13))
unfolding select
select_overflow_first e lt e13 =
    let s = e >>> 12 <<< 12 in
    let digit : (i : ℕ) → bit s i ≡ (if ltb i 12 then 0 else bit e i) =
      λ i. ground (arith, bit-mul 12 (e / 2 ^ 12) i, bit-div 12 e (i - 12)) in
    let b13 : e / 2 ^ 13 % 2 ≡ 1 = sym (bit-low (e / 2 ^ 13)) ∙ bit-div 13 e 0 ∙ e13 in
    let high : (e >>> 12 == 0) ≡ false = ground arith in
    let lowest = λ (k : ℕ). ctz_of_lowest s k (omega arith) (omega arith) in
    (
      s,
      rw high refl,
      elim (Bool-cases (bit e 12 == 1)) [
        | inl t ↦ rw t (lowest 12 (ground (arith, digit 12, t)) (λ i h. ground (arith, digit i)))
        | inr f ↦
            let e12 : bit e 12 ≡ 0 = ground (arith, f, bit-lt e 12) in
            rw f (
              lowest 13 (digit 13 ∙ e13) (λ i h.
                let at_12 : i ≡ 12 → bit e i ≡ bit e 12 = ap (bit e) in
                ground (arith, digit i, at_12, e12)))
      ],
    )
