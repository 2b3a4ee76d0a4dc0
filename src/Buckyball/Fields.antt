-- ===== src/Buckyball/Fields.antt =====
-- nvr/buckyball/buckyball_hwparam.h: the sizes of the unit, and the fields of the operands that its
-- instructions take. Structs with the same field share one function.
use spike_online.Base.{ℕ, ◌*◌, ◌/◌, bit_and, ◌>>>◌}

abbrev pub dim : ℕ
dim = 16

abbrev pub bank_num : ℕ
bank_num = 4

abbrev pub bank_rows : ℕ
bank_rows = 4096

abbrev pub sp_matrices : ℕ
sp_matrices = bank_num * bank_rows / dim

-- `mvin_rs1_t`, `mvout_rs1_t`, `scatter_mvin_rs1_t`
unfoldable pub base_dram_addr : ℕ → ℕ
base_dram_addr value = bit_and (value >>> 0) 0xFFFFFFFF

-- `mvin_rs2_t`, `mvout_rs2_t`
unfoldable pub base_sp_addr : ℕ → ℕ
base_sp_addr value = bit_and (value >>> 0) 0x3FFF

unfoldable pub rows : ℕ → ℕ
rows value = bit_and (value >>> 14) 0x3FF

-- `mul_warp16_rs1_t`
unfoldable pub op1_addr : ℕ → ℕ
op1_addr value = bit_and (value >>> 0) 0x3FFF

unfoldable pub op2_addr : ℕ → ℕ
op2_addr value = bit_and (value >>> 14) 0x3FFF

-- `mul_warp16_rs2_t`
unfoldable pub wr_addr : ℕ → ℕ
wr_addr value = bit_and (value >>> 0) 0x3FFF

unfoldable pub iter : ℕ → ℕ
iter value = bit_and (value >>> 14) 0x3FF

-- `scatter_mvin_rs2_t`
unfoldable pub rf_bank : ℕ → ℕ
rf_bank value = bit_and (value >>> 0) 0x1

unfoldable pub count : ℕ → ℕ
count value = bit_and (value >>> 1) 0x7FFFFFFF

-- `sparse_mul_rs1_t`
unfoldable pub a_addr : ℕ → ℕ
a_addr value = bit_and (value >>> 0) 0x3FFF

unfoldable pub b_addr : ℕ → ℕ
b_addr value = bit_and (value >>> 14) 0x3FFF

-- `sparse_mul_rs2_t`
unfoldable pub row_rf_bank : ℕ → ℕ
row_rf_bank value = bit_and (value >>> 0) 0x1

unfoldable pub col_rf_bank : ℕ → ℕ
col_rf_bank value = bit_and (value >>> 1) 0x1

unfoldable pub c_addr : ℕ → ℕ
c_addr value = bit_and (value >>> 2) 0x3FFF

unfoldable pub nnz : ℕ → ℕ
nnz value = bit_and (value >>> 16) 0xFFF
