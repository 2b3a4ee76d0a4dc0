-- ===== src/Decode/Encoded.antt =====
-- The encoders of riscv/opcodes.h for loads, stores and immediates against the accessors of
-- riscv/decode.h.
use spike_online.Decode.Layout.{load_bits, immediate_bits, store_bits, field_of_bits}
use spike_online.Decode.{x, i_imm, s_imm, rd, rs1, rs2, rm}
use spike_online.Decode.Immediates.{i_imm_layout, s_imm_layout}
use spike_online.Decode.Opcodes.{load, store, immediate}
use spike_online.Base.{ℕ, ◌+◌, ◌*◌, ◌^◌, ◌<◌, ◌≡◌, arith, if◌then◌else◌, ltb, bit}

-- An instruction that `load` encodes gives back the register, the base, the two parts of its code and
-- the offset, sign-extended from twelve bits.
load-fields :
    (code op r base offset i : ℕ)
    → r < 2 ^ 5
    → base < 2 ^ 5
    → code < 2 ^ 3
    → op < 2 ^ 7
    → i < 64
    → (rd (load (code * 2 ^ 12 + op) r base offset) ≡ r)
      × (rs1 (load (code * 2 ^ 12 + op) r base offset) ≡ base)
      × (rm (load (code * 2 ^ 12 + op) r base offset) ≡ code)
      × (x (load (code * 2 ^ 12 + op) r base offset) 0 7 ≡ op)
      × (bit (i_imm (load (code * 2 ^ 12 + op) r base offset)) i
          ≡ (if ltb i 12 then bit offset i else bit offset 11))
unfolding rd rs1 rm
load-fields code op r base offset i hr hb hc ho hi =
    let digit = λ (j : ℕ). load_bits code op r base offset j hr hb hc ho in
    (
      field_of_bits _ 7 5 r hr (λ j h. ground (arith, digit (7 + j))),
      field_of_bits _ 15 5 base hb (λ j h. ground (arith, digit (15 + j))),
      field_of_bits _ 12 3 code hc (λ j h. ground (arith, digit (12 + j))),
      field_of_bits _ 0 7 op ho (λ j h. ground (arith, digit j)),
      rw (i_imm_layout _ i hi) (ground (arith, digit (i + 20), digit 31)),
    )

-- An instruction that `immediate` encodes gives back the registers, the two parts of its code and the
-- immediate, sign-extended from twelve bits.
immediate-fields :
    (code op dest src imm i : ℕ)
    → dest < 2 ^ 5
    → src < 2 ^ 5
    → code < 2 ^ 3
    → op < 2 ^ 7
    → i < 64
    → (rd (immediate (code * 2 ^ 12 + op) dest src imm) ≡ dest)
      × (rs1 (immediate (code * 2 ^ 12 + op) dest src imm) ≡ src)
      × (rm (immediate (code * 2 ^ 12 + op) dest src imm) ≡ code)
      × (x (immediate (code * 2 ^ 12 + op) dest src imm) 0 7 ≡ op)
      × (bit (i_imm (immediate (code * 2 ^ 12 + op) dest src imm)) i
          ≡ (if ltb i 12 then bit imm i else bit imm 11))
unfolding rd rs1 rm
immediate-fields code op dest src imm i hd hs hc ho hi =
    let digit = λ (j : ℕ). immediate_bits code op dest src imm j hd hs hc ho in
    (
      field_of_bits _ 7 5 dest hd (λ j h. ground (arith, digit (7 + j))),
      field_of_bits _ 15 5 src hs (λ j h. ground (arith, digit (15 + j))),
      field_of_bits _ 12 3 code hc (λ j h. ground (arith, digit (12 + j))),
      field_of_bits _ 0 7 op ho (λ j h. ground (arith, digit j)),
      rw (i_imm_layout _ i hi) (ground (arith, digit (i + 20), digit 31)),
    )

-- An instruction that `store` encodes gives back the registers, the two parts of its code and the
-- offset, sign-extended from twelve bits.
store-fields :
    (code op src base offset i : ℕ)
    → src < 2 ^ 5
    → base < 2 ^ 5
    → code < 2 ^ 3
    → op < 2 ^ 7
    → i < 64
    → (rs2 (store (code * 2 ^ 12 + op) src base offset) ≡ src)
      × (rs1 (store (code * 2 ^ 12 + op) src base offset) ≡ base)
      × (rm (store (code * 2 ^ 12 + op) src base offset) ≡ code)
      × (x (store (code * 2 ^ 12 + op) src base offset) 0 7 ≡ op)
      × (bit (s_imm (store (code * 2 ^ 12 + op) src base offset)) i
          ≡ (if ltb i 12 then bit offset i else bit offset 11))
unfolding rs2 rs1 rm
store-fields code op src base offset i hs hb hc ho hi =
    let digit = λ (j : ℕ). store_bits code op src base offset j hs hb hc ho in
    (
      field_of_bits _ 20 5 src hs (λ j h. ground (arith, digit (20 + j))),
      field_of_bits _ 15 5 base hb (λ j h. ground (arith, digit (15 + j))),
      field_of_bits _ 12 3 code hc (λ j h. ground (arith, digit (12 + j))),
      field_of_bits _ 0 7 op ho (λ j h. ground (arith, digit j)),
      rw (s_imm_layout _ i hi) (ground (arith, digit (i + 7), digit (i + 20), digit 31)),
    )

-- The decoder reads from a load, an instruction with an immediate and a store that the debug module
-- encodes the registers, the two parts of the code (MATCH is `code * 2 ^ 12 + op`) and the offset or
-- immediate, sign-extended from twelve bits: for each bit of the 64-bit immediate, the bit of the offset that it is. The registers are at
-- most 31.
pub encoded-fields :
    (code op reg base offset i : ℕ)
    → reg < 2 ^ 5
    → base < 2 ^ 5
    → code < 2 ^ 3
    → op < 2 ^ 7
    → i < 64
    → ((rd (load (code * 2 ^ 12 + op) reg base offset) ≡ reg)
        × (rs1 (load (code * 2 ^ 12 + op) reg base offset) ≡ base)
        × (rm (load (code * 2 ^ 12 + op) reg base offset) ≡ code)
        × (x (load (code * 2 ^ 12 + op) reg base offset) 0 7 ≡ op)
        × (bit (i_imm (load (code * 2 ^ 12 + op) reg base offset)) i
            ≡ (if ltb i 12 then bit offset i else bit offset 11)))
      × ((rd (immediate (code * 2 ^ 12 + op) reg base offset) ≡ reg)
          × (rs1 (immediate (code * 2 ^ 12 + op) reg base offset) ≡ base)
          × (rm (immediate (code * 2 ^ 12 + op) reg base offset) ≡ code)
          × (x (immediate (code * 2 ^ 12 + op) reg base offset) 0 7 ≡ op)
          × (bit (i_imm (immediate (code * 2 ^ 12 + op) reg base offset)) i
              ≡ (if ltb i 12 then bit offset i else bit offset 11)))
      × ((rs2 (store (code * 2 ^ 12 + op) reg base offset) ≡ reg)
          × (rs1 (store (code * 2 ^ 12 + op) reg base offset) ≡ base)
          × (rm (store (code * 2 ^ 12 + op) reg base offset) ≡ code)
          × (x (store (code * 2 ^ 12 + op) reg base offset) 0 7 ≡ op)
          × (bit (s_imm (store (code * 2 ^ 12 + op) reg base offset)) i
              ≡ (if ltb i 12 then bit offset i else bit offset 11)))
encoded-fields code op reg base offset i hr hb hc ho hi = (
  load-fields code op reg base offset i hr hb hc ho hi,
  immediate-fields code op reg base offset i hr hb hc ho hi,
  store-fields code op reg base offset i hr hb hc ho hi,
)
