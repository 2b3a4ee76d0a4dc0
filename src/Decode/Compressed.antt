-- ===== src/Decode/Compressed.antt =====
-- The branch offset of the compressed format against the bit layout of the ISA manual.
use spike_online.Decode.{x, xs, rvc_b_imm, ◌+64◌, shl64}
use spike_online.Decode.Fields.{x-lt, bit-xs, bit-append, append-lt, shl64-lt, bit-base, bit-layer}
use spike_online.Base.{ℕ, ◌+◌, ◌-◌, ◌^◌, ◌<◌, ◌≡◌, ◌∙◌, arith, if◌then◌else◌, ltb, ◌==◌, bit}

-- The CB offset is inst[12], inst[6:5], inst[2], inst[11:10], inst[4:3] and a 0, sign-extended.
pub rvc_b_imm_layout :
    (b i : ℕ)
    → i < 64
    → bit (rvc_b_imm b) i ≡ (
        if i == 0
        then 0
        else if ltb i 3
        then bit b (i + 2)
        else if ltb i 5
        then bit b (i + 7)
        else if i == 5
        then bit b 2
        else if ltb i 8
        then bit b (i - 1)
        else bit b 12)
unfolding rvc_b_imm
rvc_b_imm_layout b i h =
    let f0 = shl64 (x b 3 2) 1 in
    let f1 = f0 +64 shl64 (x b 10 2) 3 in
    let f2 = f1 +64 shl64 (x b 2 1) 5 in
    let f3 = f2 +64 shl64 (x b 5 2) 6 in
    let l0 : f0 < 2 ^ 3 = shl64-lt (x b 3 2) 1 2 (x-lt b 3 2) (omega arith) in
    let l1 : f1 < 2 ^ 5 = append-lt 3 2 f0 (x b 10 2) l0 (x-lt b 10 2) (omega arith) in
    let l2 : f2 < 2 ^ 6 = append-lt 5 1 f1 (x b 2 1) l1 (x-lt b 2 1) (omega arith) in
    let l3 : f3 < 2 ^ 8 = append-lt 6 2 f2 (x b 5 2) l2 (x-lt b 5 2) (omega arith) in
    let d0 : bit f0 i ≡ (if i == 0 then 0 else if ltb i 3 then bit b (i + 2) else 0) =
      ground (arith, bit-base b 3 2 1 i h) in
    let d1 : bit f1 i ≡ (if ltb i 3 then bit f0 i else if ltb i 5 then bit b (i + 7) else 0) =
      ground (arith, bit-layer b 10 2 3 f0 i l0 (omega arith) h) in
    let d2 : bit f2 i ≡ (if ltb i 5 then bit f1 i else if i == 5 then bit b 2 else 0) =
      ground (arith, bit-layer b 2 1 5 f1 i l1 (omega arith) h) in
    let d3 : bit f3 i ≡ (if ltb i 6 then bit f2 i else if ltb i 8 then bit b (i - 1) else 0) =
      ground (arith, bit-layer b 5 2 6 f2 i l2 (omega arith) h) in
    let d4 : bit (rvc_b_imm b) i ≡ (if ltb i 8 then bit f3 i else bit b 12) =
      ground (arith, bit-append 8 f3 (xs b 12 1) i l3 (omega arith) h, bit-xs b 12 1 (i - 8)) in
    d4 ∙ rw (d3, d2, d1, d0) (ground arith)
