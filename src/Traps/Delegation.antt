-- ===== src/Traps/Delegation.antt =====
-- Where the traps of riscv/processor.cc are delegated to, by the bits of the delegation registers.
use spike_online.Decode.Field.{get_field}
use spike_online.Traps.{cause_bit, Core, TrapInfo, double_trap, delegates, vsdeleg, hsdeleg}
use spike_online.Base.{
  ℕ, any_bit, ◌>>>◌, ◌≤◌, ◌≡◌, refl, arith, Bool, false, not, ◌&&◌, ◌||◌, ltb, ◌==◌, if_cases,
}
use spike_online.Interrupt.Priority.{two_pow_lt}
use native.Mathlib.Nat.{one-mul, add-zero}
use spike_online.Traps.{is_interrupt, sstatus, mstatus_sdt}
use spike_online.Base.{
  sym, bit-zero, ap, ◌∙◌, bit, leb, ◌-◌, ◌%◌, ◌^◌, ◌<◌, bit_and, flip, any_bit_lem, bit_and-two_pow,
  bit_ext, bit-bit_and, bit_not, bit-two_pow, bit-mod, bit-lt, bit-div, bit-eq-zero_of_lt,
  if◌then◌else◌,
}

-- The cause of a trap has in its top bit whether it is an interrupt, and its number below.
abbrev pub interrupts : Core → TrapInfo → Bool
interrupts c t = bit t.cause (c.max_xlen - 1) == 1

abbrev pub number : Core → TrapInfo → ℕ
number c t = t.cause % 2 ^ (c.max_xlen - 1)

-- A trap at S or below is delegated to HS by the bit of its number in `mideleg` or `medeleg`.
abbrev pub handed_hs : Core → TrapInfo → Bool
handed_hs c t =
    leb c.mode.prv 1
    && ltb (number c t) c.max_xlen
    && bit (if interrupts c t then c.mideleg else c.medeleg) (number c t) == 1

-- A trap in a virtual machine is delegated to VS: an interrupt by `hideleg`, an exception by both
-- `medeleg` and `hedeleg`.
abbrev pub handed_vs : Core → TrapInfo → Bool
handed_vs c t =
    leb c.mode.prv 1
    && ltb (number c t) c.max_xlen
    && c.mode.v
    && (if interrupts c t
        then bit c.hideleg (number c t) == 1
        else bit c.medeleg (number c t) == 1 && bit c.hedeleg (number c t) == 1)

-- A delegated trap while `sstatus.SDT`, bit 24, is set is a double trap.
abbrev pub doubled : Core → TrapInfo → Bool
doubled c t = (handed_vs c t || handed_hs c t) && bit (c.read sstatus) 24 == 1

-- A delegated trap that is not double.
abbrev pub stays_below_m : Core → TrapInfo → Bool
stays_below_m c t = not (doubled c t) && (handed_vs c t || handed_hs c t)

guest_lem :
    (l b v i : Bool) (hi me he n : ℕ)
    → (l && b && bit (if v && l then (if i then hi else bit_and me he) else 0) n == 1)
      ≡ (l && b && v && (if i then bit hi n == 1 else bit me n == 1 && bit he n == 1))
guest_lem l b v i hi me he n =
    ground (arith, bit-bit_and me he n, bit-zero n, bit-lt me n, bit-lt he n)

sdt_lem : (reg : ℕ) → not (get_field reg mstatus_sdt == 0) ≡ (bit reg 24 == 1)
unfolding get_field
sdt_lem reg = rw (bit_and-two_pow reg 24) (ground arith)

module _ (c : Core) (t : TrapInfo) (some_bits : 0 < c.max_xlen) (word : c.max_xlen ≤ 64)
    (fits : t.cause < 2 ^ c.max_xlen) where
  is_interrupt_lem : is_interrupt c t ≡ interrupts c t
  is_interrupt_lem =
      let k = c.max_xlen - 1 in sym (ap (any_bit t.cause) (one-mul (2 ^ k))) ∙ any_bit_lem t.cause k

  interrupt_number : bit_and t.cause (flip 64 (2 ^ (c.max_xlen - 1))) ≡ number c t
  interrupt_number =
      let k = c.max_xlen - 1 in
      bit_ext _ _ λ i. ground (
        arith,
        bit-bit_and t.cause (flip 64 (2 ^ k)) i,
        bit_not 64 (2 ^ k) i (two_pow_lt k 64 (omega arith)),
        bit-two_pow k i,
        bit-mod k t.cause i,
        bit-lt t.cause i,
        bit-eq-zero_of_lt c.max_xlen t.cause i fits,
      )

  exception_number : interrupts c t ≡ false → t.cause ≡ number c t
  exception_number f =
      let k = c.max_xlen - 1 in
      bit_ext _ _ λ i.
        let at_k : i ≡ k → bit t.cause i ≡ bit t.cause k = ap (bit t.cause) in
        ground (
          arith,
          f,
          bit-mod k t.cause i,
          bit-lt t.cause k,
          bit-eq-zero_of_lt c.max_xlen t.cause i fits,
          at_k,
        )

  cause_bit_lem : cause_bit c t ≡ number c t
  cause_bit_lem =
      if_cases (λ (n : ℕ). n ≡ number c t) (is_interrupt c t) (λ h. interrupt_number)
        (λ h. exception_number (sym is_interrupt_lem ∙ h))

  delegates_lem :
      (deleg : ℕ)
      → delegates c t deleg
        ≡ (leb c.mode.prv 1 && ltb (number c t) c.max_xlen && bit deleg (number c t) == 1)
  delegates_lem deleg =
      let shifted = any_bit_lem (deleg >>> number c t) 0 in
      let digit = bit-div (number c t) deleg 0 in
      rw (cause_bit_lem, shifted, digit, add-zero (number c t)) refl

  pub hs_lem : delegates c t (hsdeleg c t) ≡ handed_hs c t
  unfolding hsdeleg
  hs_lem = delegates_lem (hsdeleg c t) ∙ rw is_interrupt_lem (ground arith)

  pub vs_lem : delegates c t (vsdeleg c t) ≡ handed_vs c t
  unfolding vsdeleg
  vs_lem =
      delegates_lem (vsdeleg c t)
      ∙ rw is_interrupt_lem (
          guest_lem (leb c.mode.prv 1) (ltb (number c t) c.max_xlen) c.mode.v (interrupts c t)
            c.hideleg c.medeleg c.hedeleg (number c t))

  pub double_lem : double_trap c t ≡ doubled c t
  unfolding double_trap
  double_lem = rw (vs_lem, hs_lem, sdt_lem (c.read sstatus)) refl
