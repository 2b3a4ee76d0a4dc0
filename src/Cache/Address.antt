-- ===== src/Cache/Address.antt =====
-- The address that a cache of riscv/cache_model.cc writes a line back to.
use spike_online.Cache
use spike_online.Base.{
  ℕ, ◌+◌, ◌-◌, ◌*◌, ◌/◌, ◌%◌, ◌^◌, ◌<◌, ◌≤◌, ◌≡◌, ap, arith, ltb, bit, bit_or, u64, bit_ext,
  bit-bit_or, bit-mod, bit-mul, bit-div, bit-eq-zero_of_lt, bit_and_mask, if◌then◌else◌, ◌>>>◌,
}

line_address :
    (a o b : ℕ)
    → a < 2 ^ 64
    → bit_or (u64 (a / 2 ^ (o + b) * 2 ^ (o + b))) (u64 (a / 2 ^ o % 2 ^ b * 2 ^ o))
      ≡ a / 2 ^ o * 2 ^ o
line_address a o b h = bit_ext _ _ λ i.
    let top : bit a i ≡ (if ltb i 64 then bit a i else 0) =
      ground (arith, bit-eq-zero_of_lt 64 a i h) in
    let high : bit (u64 (a / 2 ^ (o + b) * 2 ^ (o + b))) i
        ≡ (if ltb i 64 then if ltb i (o + b) then 0 else bit a i else 0) =
      let back : o + b ≤ i → bit a (o + b + (i - (o + b))) ≡ bit a i =
        λ le. ap (bit a) (omega (arith, le)) in
      ground (
        arith,
        bit-mod 64 (a / 2 ^ (o + b) * 2 ^ (o + b)) i,
        bit-mul (o + b) (a / 2 ^ (o + b)) i,
        bit-div (o + b) a (i - (o + b)),
        back,
      ) in
    let back : o ≤ i → bit a (o + (i - o)) ≡ bit a i = λ le. ap (bit a) (omega (arith, le)) in
    let low : bit (u64 (a / 2 ^ o % 2 ^ b * 2 ^ o)) i
        ≡ (if ltb i 64 then if ltb i o then 0 else if ltb (i - o) b then bit a i else 0 else 0) =
      ground (
        arith,
        bit-mod 64 (a / 2 ^ o % 2 ^ b * 2 ^ o) i,
        bit-mul o (a / 2 ^ o % 2 ^ b) i,
        bit-mod b (a / 2 ^ o) (i - o),
        bit-div o a (i - o),
        back,
      ) in
    let all : bit (a / 2 ^ o * 2 ^ o) i ≡ (if ltb i o then 0 else bit a i) =
      ground (arith, bit-mul o (a / 2 ^ o) i, bit-div o a (i - o), back) in
    rw (bit-bit_or _ _ i, high, low, all) (ground (arith, top))

-- The address that is written back is that of the first byte of the line.
pub writeback_address_lem :
    (c : Cache.Cache) (index addr : ℕ) (l : Cache.Line)
    → addr < 2 ^ 64
    → c.index_mask ≡ 2 ^ c.index_bits - 1
    → index ≡ Cache.addr_index c addr
    → l.tag ≡ Cache.addr_tag c addr
    → Cache.writeback_address c index l ≡ addr / 2 ^ c.offset_bits * 2 ^ c.offset_bits
unfolding Cache.writeback_address Cache.addr_index Cache.addr_tag
writeback_address_lem c index addr l h mask at tag =
    rw (tag, at, mask, bit_and_mask (addr >>> c.offset_bits) c.index_bits)
      (line_address addr c.offset_bits c.index_bits h)
