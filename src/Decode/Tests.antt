-- ===== src/Decode/Tests.antt =====
-- Instances for riscv/decode.h: `addi x0, x0, -1`, a store, branches, jumps, and `cm.push`.
use spike_online.Decode.{
  x, rd, rs1, rs2, rm, i_imm, s_imm, sb_imm, u_imm, uj_imm, rvc_b_imm, rvc_rlist, rvc_spimm,
  zcmp_regmask, zcmp_stack_adjustment,
}
use spike_online.Decode.Immediates.{
  i_imm_layout, s_imm_layout, sb_imm_layout, u_imm_layout, uj_imm_layout,
}
use spike_online.Decode.Compressed.{rvc_b_imm_layout}
use spike_online.Decode.Opcodes.{load, store, immediate, jal, sw, ld, bit_at, bits, with_registers}
use spike_online.Decode.Encoded.{encoded-fields}
use spike_online.Decode.Jump.{jal-fields}
use spike_online.Decode.Stack.{ones, zcmp_stack_fits}
use spike_online.Decode.RegFile.{read, write, read-write}
use spike_online.Base.{
  ℕ, ◌+◌, ◌-◌, ◌*◌, ◌/◌, ◌^◌, ◌≡◌, refl, arith, true, ◌&&◌, List, [], ◌∷◌, if◌then◌else◌, ltb, ◌==◌,
  bit,
}

i_imm_layout_test :
    bit (i_imm 0xfff00013) 40 ≡ (if ltb 40 12 then bit 0xfff00013 (40 + 20) else bit 0xfff00013 31)
i_imm_layout_test = i_imm_layout 0xfff00013 40 (omega arith)

s_imm_layout_test : bit (s_imm 0x00112623) 3 ≡ (
    if ltb 3 5
    then bit 0x00112623 (3 + 7)
    else if ltb 3 12
    then bit 0x00112623 (3 + 20)
    else bit 0x00112623 31)
s_imm_layout_test = s_imm_layout 0x00112623 3 (omega arith)

sb_imm_layout_test : bit (sb_imm 0xfe000ee3) 11 ≡ (
    if 11 == 0
    then 0
    else if ltb 11 5
    then bit 0xfe000ee3 (11 + 7)
    else if ltb 11 11
    then bit 0xfe000ee3 (11 + 20)
    else if 11 == 11
    then bit 0xfe000ee3 7
    else bit 0xfe000ee3 31)
sb_imm_layout_test = sb_imm_layout 0xfe000ee3 11 (omega arith)

u_imm_layout_test :
    bit (u_imm 0x80000037) 50
    ≡ (if ltb 50 12 then 0 else if ltb 50 32 then bit 0x80000037 50 else bit 0x80000037 31)
u_imm_layout_test = u_imm_layout 0x80000037 50 (omega arith)

uj_imm_layout_test : bit (uj_imm 0xffdff06f) 15 ≡ (
    if 15 == 0
    then 0
    else if ltb 15 11
    then bit 0xffdff06f (15 + 20)
    else if 15 == 11
    then bit 0xffdff06f 20
    else if ltb 15 20
    then bit 0xffdff06f 15
    else bit 0xffdff06f 31)
uj_imm_layout_test = uj_imm_layout 0xffdff06f 15 (omega arith)

rvc_b_imm_layout_test : bit (rvc_b_imm 0xdc75) 6 ≡ (
    if 6 == 0
    then 0
    else if ltb 6 3
    then bit 0xdc75 (6 + 2)
    else if ltb 6 5
    then bit 0xdc75 (6 + 7)
    else if 6 == 5
    then bit 0xdc75 2
    else if ltb 6 8
    then bit 0xdc75 (6 - 1)
    else bit 0xdc75 12)
rvc_b_imm_layout_test = rvc_b_imm_layout 0xdc75 6 (omega arith)

rlist_6 : rvc_rlist 0xb866 ≡ 6
unfolding rvc_rlist x
rlist_6 = refl

zcmp_stack_fits_example :
    (zcmp_stack_adjustment 0xb866 64
      ≡ (ones 32 (zcmp_regmask 0xb866) * 8 + 15) / 16 * 16 + rvc_spimm 0xb866)
    × (zcmp_stack_adjustment 0xb866 32
        ≡ (ones 32 (zcmp_regmask 0xb866) * 4 + 15) / 16 * 16 + rvc_spimm 0xb866)
zcmp_stack_fits_example = zcmp_stack_fits 0xb866 (omega (arith, rlist_6))

abbrev three_registers : List ℕ
three_registers = 0 ∷ 4 ∷ 7 ∷ []

read-write_test : read 0 (write true three_registers 1 9) 1 ≡ (
    if 1 == 1
    then if true && 1 == 0 then read 0 three_registers 0 else 9
    else read 0 three_registers 1)
read-write_test = read-write true 0 9 three_registers 1 1 (omega arith)

-- `sw s1, 16(s0)`, `ld s0, -8(sp)` and `jal x0, -24`, as an assembler writes them.
sw_test : sw 9 8 16 ≡ 0x00942823
unfolding store with_registers bits
sw_test = refl

ld_test : ld 8 2 0xfff8 ≡ 0xff813403
unfolding load with_registers bits
ld_test = refl

jal_test : jal 0 0xffffffe8 ≡ 0xfe9ff06f
unfolding jal bits bit_at
jal_test = refl

jal-fields_example :
    (rd (jal 1 0xffffffe8) ≡ 1)
    × (x (jal 1 0xffffffe8) 0 7 ≡ 0x6f)
    × (bit (uj_imm (jal 1 0xffffffe8)) 40
        ≡ (if 40 == 0 then 0 else if ltb 40 20 then bit 0xffffffe8 40 else bit 0xffffffe8 20))
jal-fields_example = jal-fields 1 0xffffffe8 40 (omega arith) (omega arith)

encoded-fields_example :
    ((rd (load (3 * 2 ^ 12 + 0x23) 9 8 16) ≡ 9)
      × (rs1 (load (3 * 2 ^ 12 + 0x23) 9 8 16) ≡ 8)
      × (rm (load (3 * 2 ^ 12 + 0x23) 9 8 16) ≡ 3)
      × (x (load (3 * 2 ^ 12 + 0x23) 9 8 16) 0 7 ≡ 0x23)
      × (bit (i_imm (load (3 * 2 ^ 12 + 0x23) 9 8 16)) 3
          ≡ (if ltb 3 12 then bit 16 3 else bit 16 11)))
    × ((rd (immediate (3 * 2 ^ 12 + 0x23) 9 8 16) ≡ 9)
        × (rs1 (immediate (3 * 2 ^ 12 + 0x23) 9 8 16) ≡ 8)
        × (rm (immediate (3 * 2 ^ 12 + 0x23) 9 8 16) ≡ 3)
        × (x (immediate (3 * 2 ^ 12 + 0x23) 9 8 16) 0 7 ≡ 0x23)
        × (bit (i_imm (immediate (3 * 2 ^ 12 + 0x23) 9 8 16)) 3
            ≡ (if ltb 3 12 then bit 16 3 else bit 16 11)))
    × ((rs2 (store (3 * 2 ^ 12 + 0x23) 9 8 16) ≡ 9)
        × (rs1 (store (3 * 2 ^ 12 + 0x23) 9 8 16) ≡ 8)
        × (rm (store (3 * 2 ^ 12 + 0x23) 9 8 16) ≡ 3)
        × (x (store (3 * 2 ^ 12 + 0x23) 9 8 16) 0 7 ≡ 0x23)
        × (bit (s_imm (store (3 * 2 ^ 12 + 0x23) 9 8 16)) 3
            ≡ (if ltb 3 12 then bit 16 3 else bit 16 11)))
encoded-fields_example =
    encoded-fields 3 0x23 9 8 16 3 (omega arith) (omega arith) (omega arith) (omega arith)
      (omega arith)
