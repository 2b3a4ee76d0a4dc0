-- ===== src/Decode/Immediates.antt =====
-- The immediates of the base formats against the bit layout of the ISA manual: for each bit of the
-- 64-bit immediate, the bit of the instruction that it is.
use spike_online.Decode.{x, xs, imm_sign, i_imm, s_imm, sb_imm, u_imm, uj_imm, ◌+64◌, shl64}
use spike_online.Decode.Fields.{
  x-lt, bit-x, bit-xs, bit-append, append-lt, bit-shl64, shl64-lt, bit-base, bit-layer,
}
use spike_online.Base.{ℕ, ◌+◌, ◌-◌, ◌^◌, ◌<◌, ◌≡◌, ◌∙◌, arith, if◌then◌else◌, ltb, ◌==◌, bit}

bit-imm_sign : (b i : ℕ) → i < 64 → bit (imm_sign b) i ≡ bit b 31
unfolding imm_sign
bit-imm_sign b i h = ground (arith, bit-xs b 31 1 i (omega arith) (omega arith) h)

-- The I immediate is inst[31:20], sign-extended.
pub i_imm_layout :
    (b i : ℕ) → i < 64 → bit (i_imm b) i ≡ (if ltb i 12 then bit b (i + 20) else bit b 31)
unfolding i_imm
i_imm_layout b i h = ground (arith, bit-xs b 20 12 i (omega arith) (omega arith) h)

-- The S immediate is inst[31:25] over inst[11:7], sign-extended.
pub s_imm_layout :
    (b i : ℕ)
    → i < 64
    → bit (s_imm b) i
      ≡ (if ltb i 5 then bit b (i + 7) else if ltb i 12 then bit b (i + 20) else bit b 31)
unfolding s_imm
s_imm_layout b i h = ground (
  arith,
  bit-append 5 (x b 7 5) (xs b 25 7) i (x-lt b 7 5) (omega arith) h,
  bit-x b 7 5 i,
  bit-xs b 25 7 (i - 5),
)

-- The B immediate is inst[31] over inst[7], inst[30:25], inst[11:8] and a 0, sign-extended.
pub sb_imm_layout :
    (b i : ℕ)
    → i < 64
    → bit (sb_imm b) i ≡ (
        if i == 0
        then 0
        else if ltb i 5
        then bit b (i + 7)
        else if ltb i 11
        then bit b (i + 20)
        else if i == 11
        then bit b 7
        else bit b 31)
unfolding sb_imm
sb_imm_layout b i h =
    let f0 = shl64 (x b 8 4) 1 in
    let f1 = f0 +64 shl64 (x b 25 6) 5 in
    let f2 = f1 +64 shl64 (x b 7 1) 11 in
    let l0 : f0 < 2 ^ 5 = shl64-lt (x b 8 4) 1 4 (x-lt b 8 4) (omega arith) in
    let l1 : f1 < 2 ^ 11 = append-lt 5 6 f0 (x b 25 6) l0 (x-lt b 25 6) (omega arith) in
    let l2 : f2 < 2 ^ 12 = append-lt 11 1 f1 (x b 7 1) l1 (x-lt b 7 1) (omega arith) in
    let d0 : bit f0 i ≡ (if i == 0 then 0 else if ltb i 5 then bit b (i + 7) else 0) =
      ground (arith, bit-base b 8 4 1 i h) in
    let d1 : bit f1 i ≡ (if ltb i 5 then bit f0 i else if ltb i 11 then bit b (i + 20) else 0) =
      ground (arith, bit-layer b 25 6 5 f0 i l0 (omega arith) h) in
    let d2 : bit f2 i ≡ (if ltb i 11 then bit f1 i else if i == 11 then bit b 7 else 0) =
      ground (arith, bit-layer b 7 1 11 f1 i l1 (omega arith) h) in
    let d3 : bit (sb_imm b) i ≡ (if ltb i 12 then bit f2 i else bit b 31) =
      ground (arith, bit-append 12 f2 (imm_sign b) i l2 (omega arith) h, bit-imm_sign b (i - 12)) in
    d3 ∙ rw (d2, d1, d0) (ground arith)

-- The U immediate is inst[31:12] over twelve zeros, sign-extended.
pub u_imm_layout :
    (b i : ℕ)
    → i < 64
    → bit (u_imm b) i ≡ (if ltb i 12 then 0 else if ltb i 32 then bit b i else bit b 31)
unfolding u_imm
u_imm_layout b i h = ground (arith, bit-shl64 (xs b 12 20) 12 i h, bit-xs b 12 20 (i - 12))

-- The J immediate is inst[31] over inst[19:12], inst[20], inst[30:21] and a 0, sign-extended.
pub uj_imm_layout :
    (b i : ℕ)
    → i < 64
    → bit (uj_imm b) i ≡ (
        if i == 0
        then 0
        else if ltb i 11
        then bit b (i + 20)
        else if i == 11
        then bit b 20
        else if ltb i 20
        then bit b i
        else bit b 31)
unfolding uj_imm
uj_imm_layout b i h =
    let f0 = shl64 (x b 21 10) 1 in
    let f1 = f0 +64 shl64 (x b 20 1) 11 in
    let f2 = f1 +64 shl64 (x b 12 8) 12 in
    let l0 : f0 < 2 ^ 11 = shl64-lt (x b 21 10) 1 10 (x-lt b 21 10) (omega arith) in
    let l1 : f1 < 2 ^ 12 = append-lt 11 1 f0 (x b 20 1) l0 (x-lt b 20 1) (omega arith) in
    let l2 : f2 < 2 ^ 20 = append-lt 12 8 f1 (x b 12 8) l1 (x-lt b 12 8) (omega arith) in
    let d0 : bit f0 i ≡ (if i == 0 then 0 else if ltb i 11 then bit b (i + 20) else 0) =
      ground (arith, bit-base b 21 10 1 i h) in
    let d1 : bit f1 i ≡ (if ltb i 11 then bit f0 i else if i == 11 then bit b 20 else 0) =
      ground (arith, bit-layer b 20 1 11 f0 i l0 (omega arith) h) in
    let d2 : bit f2 i ≡ (if ltb i 12 then bit f1 i else if ltb i 20 then bit b i else 0) =
      ground (arith, bit-layer b 12 8 12 f1 i l1 (omega arith) h) in
    let d3 : bit (uj_imm b) i ≡ (if ltb i 20 then bit f2 i else bit b 31) =
      ground (arith, bit-append 20 f2 (imm_sign b) i l2 (omega arith) h, bit-imm_sign b (i - 20)) in
    d3 ∙ rw (d2, d1, d0) (ground arith)
