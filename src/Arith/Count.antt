-- ===== src/Arith/Count.antt =====
-- Counting zeros and logarithms of riscv/arith.h, and bit fields of a 64-bit word.
pub mod Zeros
use spike_online.Base.{ℕ, zero, suc, ◌+◌, ◌-◌, ◌*◌, ◌/◌, ◌%◌, ◌^◌, ◌≤◌, ◌<◌, bit_and, bit_or}
use spike_online.Base.{◌≡◌, refl, arith, Bool, if◌then◌else◌, ◌==◌, leb, ltb, u64, ◌<<<◌, ◌>>>◌}

-- The locals of `ctz` and `clz`.
pub record Scan : Type 0 where
  pub res : ℕ
  pub val : ℕ

-- `if ((val << (64 - s)) == 0) res += s, val >>= s;`
pub ctz_step : ℕ → Scan → Scan
ctz_step s v =
    if u64 (v.val <<< (64 - s)) == 0 then record { res = v.res + s; val = v.val >>> s } else v

unfoldable pub ctz : ℕ → ℕ
unfolding ctz_step
ctz val =
    let start : Scan = record { res = 0; val = val } in
    if val == 0
    then 0
    else (ctz_step 1 (ctz_step 2 (ctz_step 4 (ctz_step 8 (ctz_step 16 (ctz_step 32 start)))))).res

-- `if ((val >> (64 - s)) == 0) res += s, val <<= s;`
pub clz_step : ℕ → Scan → Scan
clz_step s v =
    if v.val >>> (64 - s) == 0 then record { res = v.res + s; val = u64 (v.val <<< s) } else v

pub clz : ℕ → ℕ
unfolding clz_step
clz val =
    let start : Scan = record { res = 0; val = val } in
    if val == 0
    then 0
    else (clz_step 1 (clz_step 2 (clz_step 4 (clz_step 8 (clz_step 16 (clz_step 32 start)))))).res

pub log2 : ℕ → ℕ
log2 val = if val == 0 then 0 else 63 - clz val

-- The loop of `cto`, with fuel: it ends by the test within 64 rounds, since a word has 64 bits.
pub cto_loop : ℕ → ℕ → ℕ → ℕ
cto_loop zero val res = res
cto_loop (suc fuel) val res =
    let rest = cto_loop fuel (val >>> 1) (res + 1) in if bit_and val 1 == 1 then rest else res

pub cto : ℕ → ℕ
unfolding cto_loop
cto val = cto_loop 64 val 0

pub extract64 : ℕ → ℕ → ℕ → ℕ
extract64 val pos len = bit_and (val >>> pos) ((2 ^ 64 - 1) >>> (64 - len))

pub make_mask64 : ℕ → ℕ → ℕ
make_mask64 pos len = u64 ((2 ^ 64 - 1) >>> (64 - len) <<< pos)
