-- ===== src/Interrupt/Enabled.antt =====
-- Which interrupts `take_interrupt` of riscv/processor.cc may take.
use spike_online.Interrupt.{Hart, m_enabled, hs_enabled, vs_enabled, all_if, enabled_interrupts}
use spike_online.Base.{
  ℕ, ◌-◌, ◌^◌, ◌<◌, ◌≡◌, refl, ◌&&◌, arith, Bool, true, false, inl, inr, ◌==◌, flip, bit, bit_and,
  bit-lt, bit-bit_and, bit-mask, bit-zero, bit_not, Bool-cases,
}

-- The level at which interrupt `i` is taken allows it: it is not delegated and the M level is open;
-- or it is delegated to HS and not on to VS, and the HS level is open; or the hart is virtual, the
-- interrupt is delegated to VS, and the VS level is open.
pub data MayTake (h : Hart) (i : ℕ) : Type 0 where
  at_m : bit h.mideleg i ≡ 0 → m_enabled h ≡ true → MayTake h i
  at_hs : bit h.mideleg i ≡ 1 → bit h.hideleg i ≡ 0 → hs_enabled h ≡ true → MayTake h i
  at_vs : h.v ≡ true → bit h.hideleg i ≡ 1 → vs_enabled h ≡ true → MayTake h i

bit-gated :
    (a b i : ℕ) (c : Bool)
    → bit (bit_and (bit_and a b) (all_if c)) i ≡ 1
    → (bit a i ≡ 1) × (bit b i ≡ 1) × (c ≡ true)
bit-gated a b i true e = (
  ground (
    arith,
    bit-bit_and (bit_and a b) (2 ^ 64 - 1) i,
    bit-bit_and a b i,
    bit-lt a i,
    bit-lt b i,
    bit-mask 64 i,
  ),
  ground (
    arith,
    bit-bit_and (bit_and a b) (2 ^ 64 - 1) i,
    bit-bit_and a b i,
    bit-lt a i,
    bit-lt b i,
    bit-mask 64 i,
  ),
  refl,
)
bit-gated a b i false e = absurd (omega (arith, bit-bit_and (bit_and a b) 0 i, bit-zero i))

both-bits : (a b i : ℕ) → bit (bit_and a b) i ≡ 1 → (bit a i ≡ 1) × (bit b i ≡ 1)
both-bits a b i e = (
  ground (arith, bit-bit_and a b i, bit-lt a i, bit-lt b i),
  ground (arith, bit-bit_and a b i, bit-lt a i, bit-lt b i),
)

not-delegated : (deleg i : ℕ) → deleg < 2 ^ 64 → bit (flip 64 deleg) i ≡ 1 → bit deleg i ≡ 0
not-delegated deleg i h e = ground (arith, bit_not 64 deleg i h, bit-lt deleg i)

-- With delegations of 64 bits, every enabled interrupt is pending, and the level at which it
-- would be taken allows it.
pub enabled_interrupts-MayTake :
    (h : Hart) (pending i : ℕ)
    → h.mideleg < 2 ^ 64
    → h.hideleg < 2 ^ 64
    → bit (enabled_interrupts h pending) i ≡ 1
    → (bit pending i ≡ 1) × MayTake h i
unfolding enabled_interrupts
enabled_interrupts-MayTake h pending i hm hh e =
    let for_m = bit_and (bit_and pending (flip 64 h.mideleg)) (all_if (m_enabled h)) in
    let deleg_to_hs = bit_and h.mideleg (flip 64 h.hideleg) in
    let for_hs = bit_and (bit_and pending deleg_to_hs) (all_if (hs_enabled h)) in
    let for_vs = bit_and (bit_and pending h.hideleg) (all_if (vs_enabled h)) in
    elim (Bool-cases (for_m == 0)) [
      | inr some_m ↦
          let (p, d, on) =
            bit-gated pending (flip 64 h.mideleg) i (m_enabled h)
              (rw (some_m, enabled_interrupts) at e) in
          (p, at_m (not-delegated h.mideleg i hm d) on)
      | inl no_m ↦ elim (Bool-cases (h.v && for_hs == 0)) [
        | inl virtual ↦
            let (p, d, on) =
              bit-gated pending h.hideleg i (vs_enabled h)
                (rw (no_m, virtual, enabled_interrupts) at e) in
            (p, at_vs (ground arith) d on)
        | inr real ↦
            let (p, d, on) =
              bit-gated pending deleg_to_hs i (hs_enabled h)
                (rw (no_m, real, enabled_interrupts) at e) in
            let (dm, dh) = both-bits h.mideleg (flip 64 h.hideleg) i d in
            (p, at_hs dm (not-delegated h.hideleg i hh dh) on)
      ]
    ]
