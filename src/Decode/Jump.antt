-- ===== src/Decode/Jump.antt =====
-- The encoder `jal` of riscv/opcodes.h against the accessors of riscv/decode.h.
use spike_online.Decode.{x, uj_imm, rd}
use spike_online.Decode.Immediates.{uj_imm_layout}
use spike_online.Decode.Layout.{bit-placed, field_of_bits}
use spike_online.Decode.Opcodes.{bits, bit_at, jal}
use native.Mathlib.Nat.{one-mul}
use spike_online.Base.{
  ℕ, ◌+◌, ◌-◌, ◌^◌, ◌<◌, ◌≡◌, arith, if◌then◌else◌, ltb, ◌==◌, bit, u32, ◌<<<◌, ◌>>>◌, bit_or,
  bit-mod, bit-div, bit-bit_or, bit-eq-zero_of_lt, bit_and_mask,
}

bit-bits :
    (v hi lo len i : ℕ)
    → hi + 1 - lo ≡ len
    → bit (bits v hi lo) i ≡ (if ltb i len then bit v (i + lo) else 0)
unfolding bits
bit-bits v hi lo len i e =
    rw (e, one-mul (2 ^ len), bit_and_mask (v >>> lo) len)
      (ground (arith, bit-mod len (v >>> lo) i, bit-div lo v i))

bit-bit_at : (v b i : ℕ) → bit (bit_at v b) i ≡ (if i == 0 then bit v b else 0)
unfolding bit_at
bit-bit_at v b i =
    rw (bit_and_mask (v >>> b) 1) (ground (arith, bit-mod 1 (v >>> b) i, bit-div b v i))

jal_bits :
    (r imm i : ℕ)
    → r < 2 ^ 5
    → i < 32
    → bit (jal r imm) i ≡ (
        if ltb i 7
        then bit 0x6f i
        else if ltb i 12
        then bit r (i - 7)
        else if ltb i 20
        then bit imm i
        else if i == 20
        then bit imm 11
        else if ltb i 31
        then bit imm (i - 20)
        else bit imm 20)
unfolding jal
jal_bits r imm i hr hi =
    let a = u32 (bit_at imm 20 <<< 31) in
    let b = u32 (bits imm 10 1 <<< 21) in
    let c = u32 (bit_at imm 11 <<< 20) in
    let d = u32 (bits imm 19 12 <<< 12) in
    let e = u32 (r <<< 7) in
    let a_bit : bit a i ≡ (if i == 31 then bit imm 20 else 0) =
      ground (arith, bit-placed (bit_at imm 20) 31 i, bit-bit_at imm 20 (i - 31)) in
    let b_bit : bit b i ≡ (if ltb i 21 then 0 else if ltb i 31 then bit imm (i - 20) else 0) =
      ground
        (arith, bit-placed (bits imm 10 1) 21 i, bit-bits imm 10 1 10 (i - 21) (omega arith)) in
    let c_bit : bit c i ≡ (if i == 20 then bit imm 11 else 0) =
      ground (arith, bit-placed (bit_at imm 11) 20 i, bit-bit_at imm 11 (i - 20)) in
    let d_bit : bit d i ≡ (if ltb i 12 then 0 else if ltb i 20 then bit imm i else 0) =
      ground
        (arith, bit-placed (bits imm 19 12) 12 i, bit-bits imm 19 12 8 (i - 12) (omega arith)) in
    let e_bit : bit e i ≡ (if ltb i 7 then 0 else if ltb i 12 then bit r (i - 7) else 0) =
      ground (arith, bit-placed r 7 i, bit-eq-zero_of_lt 5 r (i - 7) hr) in
    let ab : bit (bit_or a b) i
        ≡ (if ltb i 21 then 0 else if ltb i 31 then bit imm (i - 20) else bit imm 20) =
      rw (bit-bit_or a b i, a_bit, b_bit) (ground arith) in
    let abc : bit (bit_or (bit_or a b) c) i ≡ (
        if ltb i 20
        then 0
        else if i == 20
        then bit imm 11
        else if ltb i 31
        then bit imm (i - 20)
        else bit imm 20) =
      rw (bit-bit_or _ c i, ab, c_bit) (ground arith) in
    let abcd : bit (bit_or (bit_or (bit_or a b) c) d) i
        ≡ (if ltb i 12 then 0 else if ltb i 20 then bit imm i else bit (bit_or (bit_or a b) c) i) =
      rw (bit-bit_or _ d i, d_bit) (ground (arith, abc)) in
    let abcde : bit (bit_or (bit_or (bit_or (bit_or a b) c) d) e) i ≡ (
        if ltb i 7
        then 0
        else if ltb i 12
        then bit r (i - 7)
        else bit (bit_or (bit_or (bit_or a b) c) d) i) =
      rw (bit-bit_or _ e i, e_bit) (ground (arith, abcd)) in
    rw (bit-bit_or _ 0x6f i, abcde, abcd, abc) (ground (arith, bit-eq-zero_of_lt 7 0x6f i))

-- The decoder reads from a jump that the debug module encodes the register, at most 31, the opcode and
-- the offset, sign-extended from 21 bits with its lowest bit cleared: for each bit of the 64-bit
-- immediate, the bit of the offset that it is.
pub jal-fields :
    (r imm i : ℕ)
    → r < 2 ^ 5
    → i < 64
    → (rd (jal r imm) ≡ r)
      × (x (jal r imm) 0 7 ≡ 0x6f)
      × (bit (uj_imm (jal r imm)) i
          ≡ (if i == 0 then 0 else if ltb i 20 then bit imm i else bit imm 20))
unfolding rd
jal-fields r imm i hr hi =
    let digit = λ (j : ℕ). jal_bits r imm j hr in
    (
      field_of_bits _ 7 5 r hr (λ j h. ground (arith, digit (7 + j))),
      field_of_bits _ 0 7 0x6f (omega arith) (λ j h. ground (arith, digit j)),
      rw (uj_imm_layout _ i hi) (ground (arith, digit (i + 20), digit 20, digit i, digit 31)),
    )
