-- ===== src/Decode/Fields.antt =====
-- The bits of a field, and of fields put together by shifts and additions.
use spike_online.Decode.{x, xs, sar64, ◌+64◌, shl64}
use spike_online.Base.{
  ℕ, zero, suc, ◌+◌, ◌-◌, ◌*◌, ◌/◌, ◌%◌, ◌^◌, ◌≤◌, ◌<◌, ◌≡◌, ap, ◌∙◌, arith, if◌then◌else◌, ltb,
  is_neg, u64, ◌<<<◌, ◌>>>◌, Bool-cases, inl, inr, bit, bit-div, bit-mul, bit-mod, bit-fields,
  bit-mask, bit-lt, bit_and_mask, is_neg-bit, bit-eq-zero_of_lt, two_pow_add, times-le, times-lt,
}
use native.Mathlib.Nat.{
  mod-lt, mod-le, one-le-pow, div-lt_iff_lt-mul, mul_comm, add_comm, add-mod-mod,
}

pub x-lt : (b lo len : ℕ) → x b lo len < 2 ^ len
unfolding x
x-lt b lo len = rw (bit_and_mask (b >>> lo) len) (mod-lt _ (one-le-pow len 2 (omega arith)))

pub bit-x : (b lo len i : ℕ) → bit (x b lo len) i ≡ (if ltb i len then bit b (lo + i) else 0)
unfolding x
bit-x b lo len i =
    rw (bit_and_mask (b >>> lo) len) (rw (bit-mod len (b >>> lo) i) (rw (bit-div lo b i)))

fill_top : (w m p q : ℕ) → w ≡ m * p → 0 < m → q + (w - p) ≡ (m - 1) * p + q
fill_top w zero p q e h = absurd (omega arith)
fill_top w (suc m) p q e h = let pred : suc m - 1 ≡ m = omega arith in rw (pred, e) (omega arith)

bit-sar64 :
    (v n i : ℕ)
    → v < 2 ^ 64
    → n < 64
    → i < 64
    → bit (sar64 v n) i ≡ (if ltb i (64 - n) then bit v (n + i) else bit v 63)
unfolding sar64
bit-sar64 v n i hv hn hi =
    let word : 2 ^ 64 ≡ 2 ^ n * 2 ^ (64 - n) =
      ap (λ (k : ℕ). 2 ^ k) {x = 64} {y = n + (64 - n)} (omega arith) ∙ two_pow_add n (64 - n) in
    let one = one-le-pow n 2 (omega arith) in
    let small : v / 2 ^ n < 2 ^ (64 - n) =
      (div-lt_iff_lt-mul one).1 (omega (arith, hv, word, mul_comm (2 ^ n) (2 ^ (64 - n)))) in
    elim (Bool-cases (is_neg 64 v)) [
      | inl neg ↦
          let sum : v / 2 ^ n + (2 ^ 64 - 2 ^ (64 - n)) ≡ (2 ^ n - 1) * 2 ^ (64 - n) + v / 2 ^ n =
            fill_top (2 ^ 64) (2 ^ n) (2 ^ (64 - n)) (v / 2 ^ n) word one in
          rw (neg, sum)
            (ground (
              arith,
              bit-fields (64 - n) (2 ^ n - 1) (v / 2 ^ n) i small,
              bit-div n v i,
              bit-mask n (i - (64 - n)),
              is_neg-bit 64 v (omega arith) hv,
            ))
      | inr nonneg ↦ rw nonneg (
          ground (
            arith,
            bit-div n v i,
            bit-eq-zero_of_lt 64 v (n + i) hv,
            is_neg-bit 64 v (omega arith) hv,
            bit-lt v 63,
          ))
    ]

pub bit-xs :
    (b lo len i : ℕ)
    → 0 < len
    → lo + len ≤ 64
    → i < 64
    → bit (xs b lo len) i ≡ (if ltb i len then bit b (lo + i) else bit b (lo + len - 1))
unfolding xs
bit-xs b lo len i p h hi =
    let v = u64 (b <<< (64 - lo - len)) in
    let digit : (j : ℕ)
        → j < 64
        → bit v j ≡ (if ltb j (64 - lo - len) then 0 else bit b (j - (64 - lo - len))) =
      λ j hj. ground (arith, bit-mod 64 (b <<< (64 - lo - len)) j, bit-mul (64 - lo - len) b j) in
    ground (
      arith,
      bit-sar64 v (64 - len) i (mod-lt _ (one-le-pow 64 2 (omega arith))) (omega arith) hi,
      digit (64 - len + i),
      digit 63,
    )

-- A field of at least `k` zeros below, over a field that fits `k` bits.
pub bit-append :
    (k lo hi i : ℕ)
    → lo < 2 ^ k
    → k ≤ 64
    → i < 64
    → bit (lo +64 shl64 hi k) i ≡ (if ltb i k then bit lo i else bit hi (i - k))
bit-append k lo hi i h hk hi' =
    let e : lo +64 shl64 hi k ≡ (hi * 2 ^ k + lo) % 2 ^ 64 =
      add-mod-mod lo (hi * 2 ^ k) (2 ^ 64) ∙ ap u64 (add_comm lo (hi * 2 ^ k)) in
    rw e (ground (arith, bit-mod 64 (hi * 2 ^ k + lo) i, bit-fields k hi lo i h))

pub append-lt :
    (k len lo hi : ℕ) → lo < 2 ^ k → hi < 2 ^ len → k + len ≤ 64 → lo +64 shl64 hi k < 2 ^ (k + len)
append-lt k len lo hi h h' e = rw (two_pow_add k len) (
    omega (
      arith,
      mod-le (lo + shl64 hi k) (2 ^ 64),
      mod-le (hi * 2 ^ k) (2 ^ 64),
      times-le (suc hi) (2 ^ len) (2 ^ k) h',
      mul_comm (2 ^ k) (2 ^ len),
    ))

pub bit-shl64 : (v k i : ℕ) → i < 64 → bit (shl64 v k) i ≡ (if ltb i k then 0 else bit v (i - k))
bit-shl64 v k i h = ground (arith, bit-mod 64 (v * 2 ^ k) i, bit-mul k v i)

pub shl64-lt : (v k len : ℕ) → v < 2 ^ len → k + len ≤ 64 → shl64 v k < 2 ^ (k + len)
shl64-lt v k len h e = rw (two_pow_add k len) (
    omega (
      arith,
      mod-le (v * 2 ^ k) (2 ^ 64),
      times-lt v (2 ^ len) (2 ^ k) h (one-le-pow k 2 (omega arith)),
      mul_comm (2 ^ k) (2 ^ len),
    ))

-- One more field on top of a sum of fields that fits `k` bits.
pub bit-layer :
    (b lo len k f i : ℕ)
    → f < 2 ^ k
    → k ≤ 64
    → i < 64
    → bit (f +64 shl64 (x b lo len) k) i
      ≡ (if ltb i k then bit f i else if ltb i (k + len) then bit b (lo + (i - k)) else 0)
bit-layer b lo len k f i h hk hi =
    ground (arith, bit-append k f (x b lo len) i h hk hi, bit-x b lo len (i - k))

-- The lowest field, shifted.
pub bit-base :
    (b lo len k i : ℕ)
    → i < 64
    → bit (shl64 (x b lo len) k) i
      ≡ (if ltb i k then 0 else if ltb i (k + len) then bit b (lo + (i - k)) else 0)
bit-base b lo len k i hi = ground (arith, bit-shl64 (x b lo len) k i hi, bit-x b lo len (i - k))
