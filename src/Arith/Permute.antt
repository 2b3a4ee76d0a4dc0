-- ===== src/Arith/Permute.antt =====
-- `popcount`, `xperm` and the rotations of riscv/arith.h.
use spike_online.Base.{
  ℕ, zero, suc, ◌+◌, ◌-◌, ◌%◌, ◌^◌, bit_and, bit_or, if◌then◌else◌, ltb, u64, neg, ◌<<<◌, ◌>>>◌,
}

-- `val = (val & mask) + ((val >> s) & mask)`
unfoldable pub popcount_step : ℕ → ℕ → ℕ → ℕ
popcount_step mask s val = u64 (bit_and val mask + bit_and (val >>> s) mask)

unfoldable pub popcount : ℕ → ℕ
popcount val = popcount_step 0x00000000ffffffff 32 (
    popcount_step 0x0000ffff0000ffff 16 (
      popcount_step 0x00ff00ff00ff00ff 8 (
        popcount_step 0x0f0f0f0f0f0f0f0f 4
          (popcount_step 0x3333333333333333 2 (popcount_step 0x5555555555555555 1 val)))))

-- The loop of `xperm` at bit `i`, with the rounds that are left; `sz` is positive, so there are at
-- most `len` of them. For elements of 64 bits the shift of the mask is undefined.
unfoldable pub xperm_loop : ℕ → ℕ → ℕ → ℕ → ℕ → ℕ → ℕ → ℕ
xperm_loop rs1 rs2 sz_log2 len zero i r = r
xperm_loop rs1 rs2 sz_log2 len (suc left) i r =
    let sz = 1 <<< sz_log2 in
    let mask = (1 <<< sz) - 1 in
    let pos = u64 (bit_and (rs2 >>> i) mask <<< sz_log2) in
    let r' = if ltb pos len then bit_or r (u64 (bit_and (rs1 >>> pos) mask <<< i)) else r in
    let rest = xperm_loop rs1 rs2 sz_log2 len left (i + sz) r' in if ltb i len then rest else r

unfoldable pub xperm : ℕ → ℕ → ℕ → ℕ → ℕ
xperm rs1 rs2 sz_log2 len = xperm_loop rs1 rs2 sz_log2 len len 0 0

-- The rotations of an unsigned word of `w` bits, a power of 2.
unfoldable pub rotate_right : ℕ → ℕ → ℕ → ℕ
rotate_right w x shiftamt =
    let rshift = bit_and shiftamt (w - 1) in
    let lshift = bit_and (neg 64 rshift) (w - 1) in bit_or (x <<< lshift % 2 ^ w) (x >>> rshift)

unfoldable pub rotate_left : ℕ → ℕ → ℕ → ℕ
rotate_left w x shiftamt =
    let lshift = bit_and shiftamt (w - 1) in
    let rshift = bit_and (neg 64 lshift) (w - 1) in bit_or (x <<< lshift % 2 ^ w) (x >>> rshift)
