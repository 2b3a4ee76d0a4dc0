-- ===== src/Decode/Layout.antt =====
-- The digits of the instructions that riscv/opcodes.h encodes.
use spike_online.Decode.{x}
use spike_online.Decode.Fields.{bit-x}
use spike_online.Decode.Opcodes.{bits, with_registers, load, store, immediate}
use spike_online.Base.{
  ℕ, ◌+◌, ◌-◌, ◌*◌, ◌^◌, ◌<◌, ◌≡◌, arith, if◌then◌else◌, ltb, bit, bit_or, u32, ◌<<<◌, ◌>>>◌,
  bit-mod, bit-mul, bit-div, bit-fields, bit_ext, bit-bit_or, bit-eq-zero_of_lt, bit_and_mask, max,
}

-- A value moved up to bit `k` of a 32-bit word.
pub bit-placed :
    (v k i : ℕ)
    → bit (u32 (v <<< k)) i ≡ (if ltb i 32 then if ltb i k then 0 else bit v (i - k) else 0)
bit-placed v k i = ground (arith, bit-mod 32 (v * 2 ^ k) i, bit-mul k v i)

bit-bits-11_0 : (v i : ℕ) → bit (bits v 11 0) i ≡ (if ltb i 12 then bit v i else 0)
unfolding bits
bit-bits-11_0 v i =
    rw (bit_and_mask (v >>> 0) 12) (ground (arith, bit-mod 12 (v >>> 0) i, bit-div 0 v i))

bit-bits-4_0 : (v i : ℕ) → bit (bits v 4 0) i ≡ (if ltb i 5 then bit v i else 0)
unfolding bits
bit-bits-4_0 v i =
    rw (bit_and_mask (v >>> 0) 5) (ground (arith, bit-mod 5 (v >>> 0) i, bit-div 0 v i))

bit-bits-11_5 : (v i : ℕ) → bit (bits v 11 5) i ≡ (if ltb i 7 then bit v (i + 5) else 0)
unfolding bits
bit-bits-11_5 v i =
    rw (bit_and_mask (v >>> 5) 7) (ground (arith, bit-mod 7 (v >>> 5) i, bit-div 5 v i))

bits-lt : (v : ℕ) → bits v 4 0 < 2 ^ 5
unfolding bits
bits-lt v = rw (bit_and_mask (v >>> 0) 5) (omega arith)

-- The digits of an instruction with two registers, a function code and an opcode below bit 20.
bit-with_registers :
    (high base low code op i v : ℕ)
    → bit high i ≡ (if ltb i 20 then 0 else v)
    → base < 2 ^ 5
    → low < 2 ^ 5
    → code < 2 ^ 3
    → op < 2 ^ 7
    → bit (with_registers high base low (code * 2 ^ 12 + op)) i ≡ (
        if ltb i 7
        then bit op i
        else if ltb i 12
        then bit low (i - 7)
        else if ltb i 15
        then bit code (i - 12)
        else if ltb i 20
        then bit base (i - 15)
        else v)
unfolding with_registers
bit-with_registers high base low code op i v e hb hl hc ho =
    let ors : bit (with_registers high base low (code * 2 ^ 12 + op)) i
        ≡ max (max (max (bit high i) (bit (u32 (base <<< 15)) i)) (bit (u32 (low <<< 7)) i))
            (bit (code * 2 ^ 12 + op) i) =
      rw (
        bit-bit_or _ (code * 2 ^ 12 + op) i,
        bit-bit_or _ (u32 (low <<< 7)) i,
        bit-bit_or high (u32 (base <<< 15)) i,
      ) in
    let base_bit = bit-placed base 15 i in
    let low_bit = bit-placed low 7 i in
    let op_bit = bit-fields 12 code op i (omega arith) in
    rw (ors, e, base_bit, low_bit, op_bit)
      (ground (
        arith,
        bit-eq-zero_of_lt 5 base (i - 15) hb,
        bit-eq-zero_of_lt 5 low (i - 7) hl,
        bit-eq-zero_of_lt 3 code (i - 12) hc,
        bit-eq-zero_of_lt 7 op i ho,
      ))

pub load_bits :
    (code op r base offset i : ℕ)
    → r < 2 ^ 5
    → base < 2 ^ 5
    → code < 2 ^ 3
    → op < 2 ^ 7
    → i < 32
    → bit (load (code * 2 ^ 12 + op) r base offset) i ≡ (
        if ltb i 7
        then bit op i
        else if ltb i 12
        then bit r (i - 7)
        else if ltb i 15
        then bit code (i - 12)
        else if ltb i 20
        then bit base (i - 15)
        else bit offset (i - 20))
unfolding load
load_bits code op r base offset i hr hb hc ho hi =
    let digits =
      bit-with_registers (u32 (bits offset 11 0 <<< 20)) base (bits r 4 0) code op i
        (bit offset (i - 20))
        (ground (arith, bit-placed (bits offset 11 0) 20 i, bit-bits-11_0 offset (i - 20))) hb
        (bits-lt r) hc ho in
    rw digits (ground (arith, bit-bits-4_0 r (i - 7)))

pub immediate_bits :
    (code op dest src imm i : ℕ)
    → dest < 2 ^ 5
    → src < 2 ^ 5
    → code < 2 ^ 3
    → op < 2 ^ 7
    → i < 32
    → bit (immediate (code * 2 ^ 12 + op) dest src imm) i ≡ (
        if ltb i 7
        then bit op i
        else if ltb i 12
        then bit dest (i - 7)
        else if ltb i 15
        then bit code (i - 12)
        else if ltb i 20
        then bit src (i - 15)
        else bit imm (i - 20))
unfolding immediate
immediate_bits code op dest src imm i hd hs hc ho hi =
    let digits =
      bit-with_registers (u32 (bits imm 11 0 <<< 20)) src dest code op i (bit imm (i - 20))
        (ground (arith, bit-placed (bits imm 11 0) 20 i, bit-bits-11_0 imm (i - 20))) hs hd hc ho in
    rw digits (ground arith)

pub store_bits :
    (code op src base offset i : ℕ)
    → src < 2 ^ 5
    → base < 2 ^ 5
    → code < 2 ^ 3
    → op < 2 ^ 7
    → i < 32
    → bit (store (code * 2 ^ 12 + op) src base offset) i ≡ (
        if ltb i 7
        then bit op i
        else if ltb i 12
        then bit offset (i - 7)
        else if ltb i 15
        then bit code (i - 12)
        else if ltb i 20
        then bit base (i - 15)
        else if ltb i 25
        then bit src (i - 20)
        else bit offset (i - 20))
unfolding store
store_bits code op src base offset i hs hb hc ho hi =
    let high = bit_or (u32 (bits offset 11 5 <<< 25)) (u32 (src <<< 20)) in
    let v = if ltb i 25 then bit src (i - 20) else bit offset (i - 20) in
    let top : bit high i ≡ (if ltb i 20 then 0 else v) =
      rw (bit-bit_or (u32 (bits offset 11 5 <<< 25)) (u32 (src <<< 20)) i) (
        ground (
          arith,
          bit-placed (bits offset 11 5) 25 i,
          bit-placed src 20 i,
          bit-bits-11_5 offset (i - 25),
          bit-eq-zero_of_lt 5 src (i - 20) hs,
        )) in
    let digits =
      bit-with_registers high base (bits offset 4 0) code op i v top hb (bits-lt offset) hc ho in
    rw digits (ground (arith, bit-bits-4_0 offset (i - 7)))

-- The field of `len` bits from bit `lo` on, where its digits are those of a value that fits it.
pub field_of_bits :
    (b lo len v : ℕ) → v < 2 ^ len → ((i : ℕ) → i < len → bit b (lo + i) ≡ bit v i) → x b lo len ≡ v
field_of_bits b lo len v h e =
    bit_ext _ _ λ i. ground (arith, bit-x b lo len i, e i, bit-eq-zero_of_lt len v i h)
