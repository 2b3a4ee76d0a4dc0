-- ===== src/Arith/Tests.antt =====
-- Instances for riscv/arith.h.
use spike_online.Arith.Multiply.{mulhu, mulh, mulhsu, sext128, mulhu_high, mulh_high, mulhsu_high}
use spike_online.Arith.Saturate.{sat_add, sat_sub, sat_add3, sat_addu, sat_subu}
use spike_online.Arith.Saturate.Signed.{fits, sat_add-clamp}
use spike_online.Arith.Saturate.Difference.{sat_sub-clamp}
use spike_online.Arith.Saturate.Three.{sat_add3-clamp}
use spike_online.Arith.Saturate.Unsigned.{sat_addu-min, sat_subu_monus}
use spike_online.Arith.Count.{ctz, clz, log2}
use spike_online.Arith.Count.Zeros.{ctz_odd, clz_top, log2_floor}
use spike_online.Arith.Permute.{
  popcount, popcount_step, xperm, xperm_loop, rotate_right, rotate_left,
}
use mathlib.Core.Path.{refl}
use spike_online.Base.{
  ℕ, ◌+◌, ◌-◌, ◌*◌, ◌/◌, ◌%◌, ◌^◌, ◌<◌, ◌≤◌, ◌≡◌, arith, not, min, ltb, leb, signed, clamp, ◌+ℤ◌,
  ◌-ℤ◌,
}

mulhu_high_test : mulhu (2 ^ 64 - 1) 7 ≡ (2 ^ 64 - 1) * 7 / 2 ^ 64
mulhu_high_test = mulhu_high (2 ^ 64 - 1) 7 (omega arith) (omega arith)

mulh_high_example :
    mulh (2 ^ 64 - 3) 5 * 2 ^ 64 + (2 ^ 64 - 3) * 5 % 2 ^ 64
    ≡ sext128 (2 ^ 64 - 3) * sext128 5 % 2 ^ 128
mulh_high_example = mulh_high (2 ^ 64 - 3) 5 (omega arith) (omega arith)

mulhsu_high_test :
    mulhsu (2 ^ 64 - 3) (2 ^ 63) * 2 ^ 64 + (2 ^ 64 - 3) * 2 ^ 63 % 2 ^ 64
    ≡ sext128 (2 ^ 64 - 3) * 2 ^ 63 % 2 ^ 128
mulhsu_high_test = mulhsu_high (2 ^ 64 - 3) (2 ^ 63) (omega arith) (omega arith)

sat_add-clamp_test :
    (signed 8 (sat_add 8 100 100).0 ≡ clamp 8 (signed 8 100 +ℤ signed 8 100))
    × ((sat_add 8 100 100).1 ≡ not (fits 8 (signed 8 100 +ℤ signed 8 100)))
sat_add-clamp_test = sat_add-clamp 8 100 100 (omega arith) (omega arith) (omega arith)

sat_sub-clamp_test :
    (signed 8 (sat_sub 8 150 100).0 ≡ clamp 8 (signed 8 150 -ℤ signed 8 100))
    × ((sat_sub 8 150 100).1 ≡ not (fits 8 (signed 8 150 -ℤ signed 8 100)))
sat_sub-clamp_test = sat_sub-clamp 8 150 100 (omega arith) (omega arith) (omega arith)

sat_add3-clamp_example :
    (signed 8 (sat_add3 8 100 100 156).0 ≡ clamp 8 (signed 8 100 +ℤ signed 8 100 +ℤ signed 8 156))
    × ((sat_add3 8 100 100 156).1 ≡ not (fits 8 (signed 8 100 +ℤ signed 8 100 +ℤ signed 8 156)))
sat_add3-clamp_example =
    sat_add3-clamp 8 100 100 156 (omega arith) (omega arith) (omega arith) (omega arith)

sat_addu-min_test :
    ((sat_addu 8 200 100).0 ≡ min (200 + 100) (2 ^ 8 - 1))
    × ((sat_addu 8 200 100).1 ≡ leb (2 ^ 8) (200 + 100))
sat_addu-min_test = sat_addu-min 8 200 100 (omega arith) (omega arith)

sat_subu_monus_test : ((sat_subu 8 3 5).0 ≡ 3 - 5) × ((sat_subu 8 3 5).1 ≡ ltb 3 5)
sat_subu_monus_test = sat_subu_monus 8 3 5 (omega arith) (omega arith)

ctz_odd_test : (q : ℕ) × (40 ≡ q * 2 ^ ctz 40) × (q % 2 ≡ 1)
ctz_odd_test = ctz_odd 40 (omega arith) (omega arith)

clz_top_test : (2 ^ 63 ≤ 40 * 2 ^ clz 40) × (40 * 2 ^ clz 40 < 2 ^ 64)
clz_top_test = clz_top 40 (omega arith) (omega arith)

log2_floor_test : (2 ^ log2 1000 ≤ 1000) × (1000 < 2 ^ (log2 1000 + 1))
log2_floor_test = log2_floor 1000 (omega arith) (omega arith)

permute_test :
    (popcount 0xff01 ≡ 9)
    × (xperm 0x76543210 0x01234567 2 32 ≡ 0x01234567)
    × (rotate_right 8 0x81 1 ≡ 0xc0)
    × (rotate_left 8 0x81 1 ≡ 0x03)
unfolding popcount popcount_step xperm xperm_loop rotate_right rotate_left
permute_test = (refl, refl, refl, refl)
