-- ===== src/Arith/Saturate.antt =====
-- Saturating addition and subtraction of riscv/arith.h, at a type of `w` bits. The flag that the
-- C++ code sets by reference is the second component.
pub mod Signed
pub mod Difference
pub mod Three
pub mod Unsigned
use spike_online.Base.{ℕ, ◌+◌, ◌-◌, ◌^◌, bit_and, bit_or, bit_xor, Bool, true, false, not, ◌||◌}
use spike_online.Base.{if◌then◌else◌, ltb, leb, wrap, ◌>>>◌, ◌<<<◌, flip, sub, is_neg}

pub sat_add : ℕ → ℕ → ℕ → ℕ × Bool
sat_add w ux uy =
    let res = wrap w (ux + uy) in
    let sh = w - 1 in
    let limit = wrap w (ux >>> sh + (1 <<< sh - 1)) in
    if not (is_neg w (bit_or (bit_xor limit uy) (flip w (bit_xor uy res))))
    then (limit, true)
    else (res, false)

pub sat_sub : ℕ → ℕ → ℕ → ℕ × Bool
sat_sub w ux uy =
    let res = sub w ux uy in
    let sh = w - 1 in
    let limit = wrap w (ux >>> sh + (1 <<< sh - 1)) in
    if is_neg w (bit_and (bit_xor limit uy) (bit_xor limit res))
    then (limit, true)
    else (res, false)

-- The three-operand `sat_add`: operands of opposite sign to the running sum go first.
pub sat_add3 : ℕ → ℕ → ℕ → ℕ → ℕ × Bool
sat_add3 w x y z =
    let swap = is_neg w (bit_and (bit_xor y z) (bit_xor x z)) in
    let a = if swap then z else y in
    let b = if swap then y else z in
    let (res, sat1) = sat_add w x a in let (res', sat2) = sat_add w res b in (res', sat1 || sat2)

pub sat_addu : ℕ → ℕ → ℕ → ℕ × Bool
sat_addu w x y =
    let res = wrap w (x + y) in
    let sat = ltb res x in (bit_or res (if sat then 2 ^ w - 1 else 0), sat)

pub sat_subu : ℕ → ℕ → ℕ → ℕ × Bool
sat_subu w x y =
    let res = sub w x y in let ok = leb res x in (bit_and res (if ok then 2 ^ w - 1 else 0), not ok)
