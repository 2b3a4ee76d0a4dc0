-- ===== src/Decode/Opcodes.antt =====
-- riscv/opcodes.h: the encoders that the debug module writes its programs with. An `unsigned int`
-- argument that the source does not cut to its field is not cut here.
use spike_online.Base.{ℕ, ◌+◌, ◌-◌, bit_and, bit_or, u32, ◌<<<◌, ◌>>>◌}

-- `bits(value, hi, lo)` and `bit(value, b)`.
unfoldable pub bits : ℕ → ℕ → ℕ → ℕ
bits value hi lo = bit_and (value >>> lo) (1 <<< (hi + 1 - lo) - 1)

unfoldable pub bit_at : ℕ → ℕ → ℕ
bit_at value b = bit_and (value >>> b) 1

-- The registers of an instruction below its highest fields, over the bits of its opcode.
unfoldable pub with_registers : ℕ → ℕ → ℕ → ℕ → ℕ
with_registers high base low opcode =
    bit_or (bit_or (bit_or high (u32 (base <<< 15))) (u32 (low <<< 7))) opcode

-- The encoding that `ld`, `lw`, `lh`, `lb`, `flw` and `fld` share.
unfoldable pub load : ℕ → ℕ → ℕ → ℕ → ℕ
load opcode rd base offset =
    with_registers (u32 (bits offset 11 0 <<< 20)) base (bits rd 4 0) opcode

abbrev pub ld : ℕ → ℕ → ℕ → ℕ
ld = load 0x3003

abbrev lw : ℕ → ℕ → ℕ → ℕ
lw = load 0x2003

abbrev lh : ℕ → ℕ → ℕ → ℕ
lh = load 0x1003

abbrev lb : ℕ → ℕ → ℕ → ℕ
lb = load 0x3

abbrev flw : ℕ → ℕ → ℕ → ℕ
flw = load 0x2007

abbrev fld : ℕ → ℕ → ℕ → ℕ
fld = load 0x3007

-- The encoding that `sd`, `sw`, `sh` and `sb` share; `fsw` and `fsd` cut `src` to five bits.
unfoldable pub store : ℕ → ℕ → ℕ → ℕ → ℕ
store opcode src base offset =
    with_registers (bit_or (u32 (bits offset 11 5 <<< 25)) (u32 (src <<< 20))) base
      (bits offset 4 0) opcode

abbrev sd : ℕ → ℕ → ℕ → ℕ
sd = store 0x3023

abbrev pub sw : ℕ → ℕ → ℕ → ℕ
sw = store 0x2023

abbrev sh : ℕ → ℕ → ℕ → ℕ
sh = store 0x1023

abbrev sb : ℕ → ℕ → ℕ → ℕ
sb = store 0x23

abbrev fsw : ℕ → ℕ → ℕ → ℕ
fsw src = store 0x2027 (bits src 4 0)

abbrev fsd : ℕ → ℕ → ℕ → ℕ
fsd src = store 0x3027 (bits src 4 0)

-- The encoding that `addi` and `xori` share.
unfoldable pub immediate : ℕ → ℕ → ℕ → ℕ → ℕ
immediate opcode dest src imm = with_registers (u32 (bits imm 11 0 <<< 20)) src dest opcode

abbrev addi : ℕ → ℕ → ℕ → ℕ
addi = immediate 0x13

abbrev xori : ℕ → ℕ → ℕ → ℕ
xori = immediate 0x4013

abbrev srli : ℕ → ℕ → ℕ → ℕ
srli dest src shamt = with_registers (u32 (bits shamt 4 0 <<< 20)) src dest 0x5013

abbrev csrrs : ℕ → ℕ → ℕ → ℕ
csrrs rd rs1 csr = with_registers (u32 (csr <<< 20)) rs1 rd 0x2073

abbrev csrr : ℕ → ℕ → ℕ
csrr rd csr = bit_or (bit_or (u32 (csr <<< 20)) (u32 (rd <<< 7))) 0x2073

abbrev csrw : ℕ → ℕ → ℕ
csrw source csr = bit_or (bit_or (u32 (csr <<< 20)) (u32 (source <<< 15))) 0x1073

abbrev csrsi : ℕ → ℕ → ℕ
csrsi csr imm = bit_or (bit_or (u32 (csr <<< 20)) (u32 (bits imm 4 0 <<< 15))) 0x6073

abbrev lui : ℕ → ℕ → ℕ
lui dest imm = bit_or (bit_or (u32 (bits imm 19 0 <<< 12)) (u32 (dest <<< 7))) 0x37

unfoldable pub jal : ℕ → ℕ → ℕ
jal rd imm =
    bit_or
      (bit_or
        (bit_or
          (bit_or (bit_or (u32 (bit_at imm 20 <<< 31)) (u32 (bits imm 10 1 <<< 21)))
            (u32 (bit_at imm 11 <<< 20)))
          (u32 (bits imm 19 12 <<< 12)))
        (u32 (rd <<< 7)))
      0x6f
