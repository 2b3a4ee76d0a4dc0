-- ===== src/Workload/Encode.antt =====
-- The macros of nvr/workload/buckyball_swparam.h that pack the operands of the matrix unit's instructions,
-- against the fields that nvr/buckyball/buckyball_hwparam.h takes out of them.
use spike_online.Base.{
  ℕ, ◌+◌, ◌-◌, ◌*◌, ◌/◌, ◌%◌, ◌^◌, ◌≡◌, arith, bit_and, bit_or, u32, ◌<<<◌, ◌>>>◌, bit_or_low,
  bit_and_mask,
}
use spike_online.Buckyball.Fields.{
  base_sp_addr, rows, op1_addr, op2_addr, wr_addr, iter, rf_bank, count, a_addr, b_addr, c_addr,
  nnz, row_rf_bank, col_rf_bank,
}

-- `SPAD_ADDR`
unfoldable pub spad_addr : ℕ → ℕ → ℕ
spad_addr bank row = bit_or (bank <<< 12) row

-- `encoded_rs2` of bb_mvin and bb_mvout.
unfoldable pub move_rs2 : ℕ → ℕ → ℕ
move_rs2 sp n = u32 (bit_or (bit_and sp (2 ^ 14 - 1)) (bit_and n (2 ^ 10 - 1) <<< 14))

-- `encoded_rs1` and `encoded_rs2` of bb_mul_warp16.
unfoldable pub mul_rs1 : ℕ → ℕ → ℕ
mul_rs1 op1 op2 = u32 (bit_or (bit_and op1 (2 ^ 14 - 1)) (bit_and op2 (2 ^ 14 - 1) <<< 14))

unfoldable pub mul_rs2 : ℕ → ℕ → ℕ
mul_rs2 wr n = u32 (bit_or (bit_and wr (2 ^ 14 - 1)) (bit_and n (2 ^ 10 - 1) <<< 14))

-- `encoded_rs2` of bb_scatter_mvin.
unfoldable pub scatter_rs2 : ℕ → ℕ → ℕ
scatter_rs2 bank n = u32 (bit_or (bit_and bank 0x1 <<< 0) (bit_and n (2 ^ 31 - 1) <<< 1))

-- `encoded_rs1` and `encoded_rs2` of bb_sparse_mul_addr.
unfoldable pub sparse_rs1 : ℕ → ℕ → ℕ
sparse_rs1 a b = u32 (bit_or (bit_and a (2 ^ 14 - 1)) (bit_and b (2 ^ 14 - 1) <<< 14))

unfoldable pub sparse_rs2 : ℕ → ℕ → ℕ → ℕ → ℕ
sparse_rs2 row_bank col_bank c n = u32 (
    bit_or
      (bit_or (bit_or (bit_and row_bank 0x1 <<< 0) (bit_and col_bank 0x1 <<< 1))
        (bit_and c (2 ^ 14 - 1) <<< 2))
      (bit_and n (2 ^ 12 - 1) <<< 16))

two_fields :
    (x y : ℕ)
    → u32 (bit_or (bit_and x (2 ^ 14 - 1)) (bit_and y (2 ^ 14 - 1) <<< 14))
      ≡ y % 2 ^ 14 * 2 ^ 14 + x % 2 ^ 14
two_fields x y =
    rw (bit_and_mask x 14, bit_and_mask y 14, bit_or_low 14 (x % 2 ^ 14) (y % 2 ^ 14) (omega arith))
      (omega arith)

place_and_rows :
    (x y : ℕ)
    → u32 (bit_or (bit_and x (2 ^ 14 - 1)) (bit_and y (2 ^ 10 - 1) <<< 14))
      ≡ y % 2 ^ 10 * 2 ^ 14 + x % 2 ^ 14
place_and_rows x y =
    rw (bit_and_mask x 14, bit_and_mask y 10, bit_or_low 14 (x % 2 ^ 14) (y % 2 ^ 10) (omega arith))
      (omega arith)

low_bit : (x : ℕ) → bit_and x 0x1 * 2 ^ 0 ≡ x % 2
low_bit x = omega (arith, bit_and_mask x 1)

scatter_fields : (bank n : ℕ) → scatter_rs2 bank n ≡ n % 2 ^ 31 * 2 + bank % 2
unfolding scatter_rs2
scatter_fields bank n =
    rw (low_bit bank, bit_and_mask n 31, bit_or_low 1 (bank % 2) (n % 2 ^ 31) (omega arith))
      (omega arith)

sparse_fields :
    (row_bank col_bank c n : ℕ)
    → sparse_rs2 row_bank col_bank c n
      ≡ n % 2 ^ 12 * 2 ^ 16 + (c % 2 ^ 14 * 2 ^ 2 + (col_bank % 2 * 2 + row_bank % 2))
unfolding sparse_rs2
sparse_fields row_bank col_bank c n =
    let low : bit_and col_bank 0x1 ≡ col_bank % 2 = bit_and_mask col_bank 1 in
    let banks : bit_or (row_bank % 2) (col_bank % 2 * 2 ^ 1) ≡ col_bank % 2 * 2 ^ 1 + row_bank % 2 =
      bit_or_low 1 (row_bank % 2) (col_bank % 2) (omega arith) in
    let place = bit_or_low 2 (col_bank % 2 * 2 ^ 1 + row_bank % 2) (c % 2 ^ 14) (omega arith) in
    let size =
      bit_or_low 16 (c % 2 ^ 14 * 2 ^ 2 + (col_bank % 2 * 2 ^ 1 + row_bank % 2)) (n % 2 ^ 12)
        (omega arith) in
    rw (low_bit row_bank, low, banks, bit_and_mask c 14, place, bit_and_mask n 12, size)
      (omega arith)

field : (k n x : ℕ) → bit_and (x >>> k) (2 ^ n - 1) ≡ x / 2 ^ k % 2 ^ n
field k n x = bit_and_mask (x >>> k) n

-- The unit takes from the operands of each instruction the fields that the programs put into them, cut to
-- their widths: 14 bits for a row of the scratchpad, 10 for a number of rows, 31 for a number of
-- words, 12 for a number of entries and 1 for a bank.
pub fields-encoded :
    (p q r n row_bank col_bank : ℕ)
    → ((base_sp_addr (move_rs2 p n) ≡ p % 2 ^ 14) × (rows (move_rs2 p n) ≡ n % 2 ^ 10))
      × ((op1_addr (mul_rs1 p q) ≡ p % 2 ^ 14) × (op2_addr (mul_rs1 p q) ≡ q % 2 ^ 14))
      × ((wr_addr (mul_rs2 r n) ≡ r % 2 ^ 14) × (iter (mul_rs2 r n) ≡ n % 2 ^ 10))
      × ((rf_bank (scatter_rs2 row_bank n) ≡ row_bank % 2)
          × (count (scatter_rs2 row_bank n) ≡ n % 2 ^ 31))
      × ((a_addr (sparse_rs1 p q) ≡ p % 2 ^ 14) × (b_addr (sparse_rs1 p q) ≡ q % 2 ^ 14))
      × ((row_rf_bank (sparse_rs2 row_bank col_bank r n) ≡ row_bank % 2)
          × (col_rf_bank (sparse_rs2 row_bank col_bank r n) ≡ col_bank % 2)
          × (c_addr (sparse_rs2 row_bank col_bank r n) ≡ r % 2 ^ 14)
          × (nnz (sparse_rs2 row_bank col_bank r n) ≡ n % 2 ^ 12))
unfolding base_sp_addr rows op1_addr op2_addr wr_addr iter rf_bank count a_addr b_addr row_rf_bank
    col_rf_bank c_addr nnz move_rs2 mul_rs1 mul_rs2 sparse_rs1
fields-encoded p q r n row_bank col_bank = (
  (
    rw (place_and_rows p n, field 0 14 _) (omega arith),
    rw (place_and_rows p n, field 14 10 _) (omega arith),
  ),
  (
    rw (two_fields p q, field 0 14 _) (omega arith),
    rw (two_fields p q, field 14 14 _) (omega arith),
  ),
  (
    rw (place_and_rows r n, field 0 14 _) (omega arith),
    rw (place_and_rows r n, field 14 10 _) (omega arith),
  ),
  (
    rw (scatter_fields row_bank n, field 0 1 _) (omega arith),
    rw (scatter_fields row_bank n, field 1 31 _) (omega arith),
  ),
  (
    rw (two_fields p q, field 0 14 _) (omega arith),
    rw (two_fields p q, field 14 14 _) (omega arith),
  ),
  (
    rw (sparse_fields row_bank col_bank r n, field 0 1 _) (omega arith),
    rw (sparse_fields row_bank col_bank r n, field 1 1 _) (omega arith),
    rw (sparse_fields row_bank col_bank r n, field 2 14 _) (omega arith),
    rw (sparse_fields row_bank col_bank r n, field 16 12 _) (omega arith),
  ),
)
