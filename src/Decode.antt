-- ===== src/Decode.antt =====
-- riscv/decode.h: the fields and immediates of an instruction, as `insn_t` reads them from its
-- bits, and the register file. An `int64_t` result is its 64-bit pattern.
pub mod Fields
pub mod Immediates
pub mod Compressed
pub mod Opcodes
pub mod Layout
pub mod Encoded
pub mod Jump
pub mod Stack
pub mod RegFile
pub mod Field
mod Tests
use spike_online.Base.{ℕ, zero, suc, ◌+◌, ◌-◌, ◌*◌, ◌^◌, ◌≤◌, bit_and, bit_or, Bool}
use spike_online.Base.{if◌then◌else◌, ltb, leb, ◌==◌, u32, u64, ◌<<<◌, ◌>>>◌, is_neg}

-- `insn_length`
pub insn_length : ℕ → ℕ
insn_length x =
    if ltb (bit_and x 0x03) 0x03
    then 2
    else if ltb (bit_and x 0x1f) 0x1f
    then 4
    else if ltb (bit_and x 0x3f) 0x3f
    then 6
    else 8

-- `int64_t(v) >> n`, an arithmetic shift.
pub sar64 : ℕ → ℕ → ℕ
sar64 v n = if is_neg 64 v then v >>> n + (2 ^ 64 - 2 ^ (64 - n)) else v >>> n

-- `x(lo, len)` and `xs(lo, len)`: `len` bits from bit `lo` on, zero-extended and sign-extended.
pub x : ℕ → ℕ → ℕ → ℕ
x b lo len = bit_and (b >>> lo) (2 ^ len - 1)

pub xs : ℕ → ℕ → ℕ → ℕ
xs b lo len = sar64 (u64 (b <<< (64 - lo - len))) (64 - len)

pub imm_sign : ℕ → ℕ
imm_sign b = xs b 31 1

infixl 65 ◌+64◌
-- `int64_t` and `uint64_t` addition, and a left shift.
abbrev pub ◌+64◌ : ℕ → ℕ → ℕ
a +64 b = u64 (a + b)

abbrev pub shl64 : ℕ → ℕ → ℕ
shl64 v n = u64 (v <<< n)

pub i_imm : ℕ → ℕ
i_imm b = xs b 20 12

pub shamt : ℕ → ℕ
shamt b = x b 20 6

pub s_imm : ℕ → ℕ
s_imm b = x b 7 5 +64 shl64 (xs b 25 7) 5

pub sb_imm : ℕ → ℕ
sb_imm b = shl64 (x b 8 4) 1 +64 shl64 (x b 25 6) 5 +64 shl64 (x b 7 1) 11 +64 shl64 (imm_sign b) 12

pub u_imm : ℕ → ℕ
u_imm b = shl64 (xs b 12 20) 12

pub uj_imm : ℕ → ℕ
uj_imm b =
    shl64 (x b 21 10) 1 +64 shl64 (x b 20 1) 11 +64 shl64 (x b 12 8) 12 +64 shl64 (imm_sign b) 20

pub rd : ℕ → ℕ
rd b = x b 7 5

pub rs1 : ℕ → ℕ
rs1 b = x b 15 5

pub rs2 : ℕ → ℕ
rs2 b = x b 20 5

pub rs3 : ℕ → ℕ
rs3 b = x b 27 5

pub rm : ℕ → ℕ
rm b = x b 12 3

pub csr : ℕ → ℕ
csr b = x b 20 12

pub iorw : ℕ → ℕ
iorw b = x b 20 8

pub bs : ℕ → ℕ
bs b = x b 30 2

pub rcon : ℕ → ℕ
rcon b = x b 20 4

pub rvc_imm : ℕ → ℕ
rvc_imm b = x b 2 5 +64 shl64 (xs b 12 1) 5

pub rvc_zimm : ℕ → ℕ
rvc_zimm b = x b 2 5 +64 shl64 (x b 12 1) 5

pub rvc_addi4spn_imm : ℕ → ℕ
rvc_addi4spn_imm b =
    shl64 (x b 6 1) 2 +64 shl64 (x b 5 1) 3 +64 shl64 (x b 11 2) 4 +64 shl64 (x b 7 4) 6

pub rvc_addi16sp_imm : ℕ → ℕ
rvc_addi16sp_imm b =
    shl64 (x b 6 1) 4
    +64 shl64 (x b 2 1) 5
    +64 shl64 (x b 5 1) 6
    +64 shl64 (x b 3 2) 7
    +64 shl64 (xs b 12 1) 9

pub rvc_lwsp_imm : ℕ → ℕ
rvc_lwsp_imm b = shl64 (x b 4 3) 2 +64 shl64 (x b 12 1) 5 +64 shl64 (x b 2 2) 6

pub rvc_ldsp_imm : ℕ → ℕ
rvc_ldsp_imm b = shl64 (x b 5 2) 3 +64 shl64 (x b 12 1) 5 +64 shl64 (x b 2 3) 6

pub rvc_swsp_imm : ℕ → ℕ
rvc_swsp_imm b = shl64 (x b 9 4) 2 +64 shl64 (x b 7 2) 6

pub rvc_sdsp_imm : ℕ → ℕ
rvc_sdsp_imm b = shl64 (x b 10 3) 3 +64 shl64 (x b 7 3) 6

pub rvc_lw_imm : ℕ → ℕ
rvc_lw_imm b = shl64 (x b 6 1) 2 +64 shl64 (x b 10 3) 3 +64 shl64 (x b 5 1) 6

pub rvc_ld_imm : ℕ → ℕ
rvc_ld_imm b = shl64 (x b 10 3) 3 +64 shl64 (x b 5 2) 6

pub rvc_j_imm : ℕ → ℕ
rvc_j_imm b =
    shl64 (x b 3 3) 1
    +64 shl64 (x b 11 1) 4
    +64 shl64 (x b 2 1) 5
    +64 shl64 (x b 7 1) 6
    +64 shl64 (x b 6 1) 7
    +64 shl64 (x b 9 2) 8
    +64 shl64 (x b 8 1) 10
    +64 shl64 (xs b 12 1) 11

pub rvc_b_imm : ℕ → ℕ
rvc_b_imm b =
    shl64 (x b 3 2) 1
    +64 shl64 (x b 10 2) 3
    +64 shl64 (x b 2 1) 5
    +64 shl64 (x b 5 2) 6
    +64 shl64 (xs b 12 1) 8

pub rvc_simm3 : ℕ → ℕ
rvc_simm3 b = x b 10 3

pub rvc_rd : ℕ → ℕ
rvc_rd b = rd b

pub rvc_rs1 : ℕ → ℕ
rvc_rs1 b = rd b

pub rvc_rs2 : ℕ → ℕ
rvc_rs2 b = x b 2 5

pub rvc_rs1s : ℕ → ℕ
rvc_rs1s b = 8 +64 x b 7 3

pub rvc_rs2s : ℕ → ℕ
rvc_rs2s b = 8 +64 x b 2 3

pub rvc_lbimm : ℕ → ℕ
rvc_lbimm b = shl64 (x b 5 1) 1 +64 x b 6 1

pub rvc_lhimm : ℕ → ℕ
rvc_lhimm b = shl64 (x b 5 1) 1

pub rvc_r1sc : ℕ → ℕ
rvc_r1sc b = x b 7 3

pub rvc_r2sc : ℕ → ℕ
rvc_r2sc b = x b 2 3

pub rvc_rlist : ℕ → ℕ
rvc_rlist b = x b 4 4

pub rvc_spimm : ℕ → ℕ
rvc_spimm b = shl64 (x b 2 2) 4

pub rvc_index : ℕ → ℕ
rvc_index b = x b 2 8

pub v_vm : ℕ → ℕ
v_vm b = x b 25 1

pub v_wd : ℕ → ℕ
v_wd b = x b 26 1

pub v_nf : ℕ → ℕ
v_nf b = x b 29 3

pub v_simm5 : ℕ → ℕ
v_simm5 b = xs b 15 5

pub v_zimm5 : ℕ → ℕ
v_zimm5 b = x b 15 5

pub v_zimm10 : ℕ → ℕ
v_zimm10 b = x b 20 10

pub v_zimm11 : ℕ → ℕ
v_zimm11 b = x b 20 11

pub v_lmul : ℕ → ℕ
v_lmul b = x b 20 2

pub v_frac_lmul : ℕ → ℕ
v_frac_lmul b = x b 22 1

pub v_sew : ℕ → ℕ
v_sew b = shl64 1 (x b 23 3 +64 3)

pub v_width : ℕ → ℕ
v_width b = x b 12 3

pub v_mop : ℕ → ℕ
v_mop b = x b 26 2

pub v_lumop : ℕ → ℕ
v_lumop b = x b 20 5

pub v_sumop : ℕ → ℕ
v_sumop b = x b 20 5

pub v_vta : ℕ → ℕ
v_vta b = x b 26 1

pub v_vma : ℕ → ℕ
v_vma b = x b 27 1

pub v_mew : ℕ → ℕ
v_mew b = x b 28 1

pub v_zimm6 : ℕ → ℕ
v_zimm6 b = x b 15 5 +64 shl64 (x b 26 1) 5

pub p_imm2 : ℕ → ℕ
p_imm2 b = x b 20 2

pub p_imm3 : ℕ → ℕ
p_imm3 b = x b 20 3

pub p_imm4 : ℕ → ℕ
p_imm4 b = x b 20 4

pub p_imm5 : ℕ → ℕ
p_imm5 b = x b 20 5

pub p_imm6 : ℕ → ℕ
p_imm6 b = x b 20 6

-- `Sn(n)`: the number of the n-th saved register.
pub sn : ℕ → ℕ
sn n = if ltb n 2 then 8 + n else 16 + n

-- The loop of `zcmp_regmask` at `i`, with the rounds that are left.
pub regmask_loop : ℕ → ℕ → ℕ → ℕ
regmask_loop zero i mask = mask
regmask_loop (suc left) i mask = regmask_loop left (i + 1) (bit_or mask (u32 (1 <<< sn (i - 5))))

-- The mask for a register list, and the space for one, as the bodies below compute them.
pub mask_of_list : ℕ → ℕ
mask_of_list rlist =
    let ra = if leb 4 rlist then 1 <<< 1 else 0 in
    let mask = regmask_loop (rlist + 1 - 5) 5 ra in
    if rlist == 15 then bit_or mask (u32 (1 <<< sn 11)) else mask

-- The `switch` falls through from its case down to the last one.
pub stack_adj_base : ℕ → ℕ → ℕ
stack_adj_base rlist xlen =
    let step = λ (low : ℕ). let n : ℕ = if leb low rlist then 16 else 0 in n in
    let step64 = λ (low : ℕ). let n : ℕ = if xlen == 64 then step low else 0 in n in
    step 15 + step64 14 + step 12 + step64 10 + step 8 + step64 6 + step 4

pub zcmp_regmask : ℕ → ℕ
zcmp_regmask b = mask_of_list (rvc_rlist b)

pub zcmp_stack_adjustment : ℕ → ℕ → ℕ
zcmp_stack_adjustment b xlen = stack_adj_base (rvc_rlist b) xlen + rvc_spimm b
