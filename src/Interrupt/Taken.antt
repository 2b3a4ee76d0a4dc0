-- ===== src/Interrupt/Taken.antt =====
-- The trap that `take_interrupt` of riscv/processor.cc throws.
use spike_online.Interrupt.{
  Hart, returns, throws, aborts, enabled_interrupts, select, take_interrupt, throw, nmie,
}
use spike_online.Interrupt.Enabled.{MayTake, enabled_interrupts-MayTake}
use spike_online.Interrupt.Priority.{select-subset, bit-ctz}
use spike_online.Arith.Count.{ctz}
use spike_online.Base.{
  ℕ, ◌-◌, ◌^◌, ◌<◌, ◌≡◌, refl, sym, ◌&&◌, not, arith, Bool, false, inl, inr, Option, none, some,
  ltb, ◌==◌, u64, ◌<<<◌, bit, bit_or, bit-lt, bit-eq-zero_of_lt, lt-two_pow_of_bits, Bool-cases,
}

-- A cause of `take_interrupt`, for the number of an interrupt.
abbrev pub interrupt_cause : Hart → ℕ → ℕ
interrupt_cause h i = bit_or (u64 (1 <<< (h.max_xlen - 1))) i

thrown_cause : {a b : ℕ} {p q : Bool} → throws a p ≡ throws b q → a ≡ b
thrown_cause e = cc

returns≢throws : {a : ℕ} {p : Bool} → returns ≡ throws a p → ⊥
returns≢throws e = cc

aborts≢throws : {a : ℕ} {p : Bool} → aborts ≡ throws a p → ⊥
aborts≢throws e = cc

enabled_interrupts-lt :
    (h : Hart) (pending : ℕ)
    → h.mideleg < 2 ^ 64
    → h.hideleg < 2 ^ 64
    → pending < 2 ^ 64
    → enabled_interrupts h pending < 2 ^ 64
enabled_interrupts-lt h pending hm hh hp = lt-two_pow_of_bits 64 _ λ i le.
    elim (Bool-cases (ltb 0 (bit (enabled_interrupts h pending) i))) [
      | inr z ↦ ground arith
      | inl pos ↦
          let one : bit (enabled_interrupts h pending) i ≡ 1 =
            ground (arith, bit-lt (enabled_interrupts h pending) i) in
          let (p, _) = enabled_interrupts-MayTake h pending i hm hh one in
          absurd (omega (arith, bit-eq-zero_of_lt 64 pending i hp le))
    ]

throw_cause :
    (h : Hart) (e : ℕ) (o : Option ℕ) (cause : ℕ) (icount : Bool)
    → e < 2 ^ 64
    → select e ≡ o
    → throw h o ≡ throws cause icount
    → (i : ℕ) × (cause ≡ interrupt_cause h i) × (bit e i ≡ 1)
unfolding throw
throw_cause h e none cause icount lt q t = absurd (aborts≢throws t)
throw_cause h e (some s) cause icount lt q t =
    let (pos, small, part) = select-subset e s lt q in
    (ctz s, sym (thrown_cause t), part (ctz s) (bit-ctz s pos small))

-- With registers of 64 bits, a trap that is thrown has the cause of one interrupt, which is
-- pending and which the level that would take it allows; the hart is not in debug mode, and it no
-- longer waits for an interrupt.
pub take_interrupt-MayTake :
    (h : Hart) (pending cause : ℕ) (icount : Bool)
    → h.mideleg < 2 ^ 64
    → h.hideleg < 2 ^ 64
    → pending < 2 ^ 64
    → (take_interrupt h pending).1 ≡ throws cause icount
    → ((i : ℕ) × (cause ≡ interrupt_cause h i) × (bit pending i ≡ 1) × MayTake h i)
      × (h.debug_mode ≡ false)
      × ((take_interrupt h pending).0.in_wfi ≡ false)
unfolding take_interrupt
take_interrupt-MayTake h pending cause icount hm hh hp t =
    let e = enabled_interrupts h pending in
    elim (Bool-cases (pending == 0)) [
      | inl idle ↦ absurd (returns≢throws (rw idle at t))
      | inr busy ↦ elim (Bool-cases (not h.debug_mode && nmie h && not (e == 0))) [
        | inr masked ↦ absurd (returns≢throws (rw (busy, masked) at t))
        | inl taken ↦
            let (i, c, one) =
              throw_cause h e (select e) cause icount (enabled_interrupts-lt h pending hm hh hp)
                refl (rw (busy, taken) at t) in
            let (p, may) = enabled_interrupts-MayTake h pending i hm hh one in
            ((i, c, p, may), ground arith, rw (busy, taken))
      ]
    ]
