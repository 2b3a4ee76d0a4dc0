-- ===== src/Interrupt/Tests.antt =====
-- Instances for the interrupts and the privilege of riscv/processor.cc: a hart in user mode that
-- delegates the supervisor interrupts, with a machine timer and a supervisor interrupt pending.
use spike_online.Interrupt
use spike_online.Interrupt.Enabled.{MayTake, enabled_interrupts-MayTake}
use spike_online.Interrupt.Priority.{select_order, select_overflow_first}
use spike_online.Interrupt.Taken.{interrupt_cause, take_interrupt-MayTake}
use spike_online.Interrupt.Privilege.{
  has_level, IsChange, legalize_privilege-has_level, set_privilege-IsChange,
}
use spike_online.Arith.Count.{ctz}
use spike_online.Base.{
  ℕ, ◌+◌, ◌^◌, ◌≡◌, refl, arith, true, false, none, some, if◌then◌else◌, ◌==◌, bit,
}

abbrev hart : Interrupt.Hart
hart = record {
  max_xlen = 64;
  mstatus = 0;
  sstatus = 0;
  mideleg = 0x222;
  hideleg = 0;
  mnstatus = none;
  prv = 0;
  v = false;
  debug_mode = false;
  in_wfi = true;
  check_triggers_icount = false;
}

timer_enabled : bit (Interrupt.enabled_interrupts hart 0xa0) 7 ≡ 1
unfolding Interrupt.enabled_interrupts Interrupt.m_enabled bit
timer_enabled = refl

enabled_interrupts-MayTake_test : (bit 0xa0 7 ≡ 1) × MayTake hart 7
enabled_interrupts-MayTake_test =
    enabled_interrupts-MayTake hart 0xa0 7 (omega arith) (omega arith) timer_enabled

select_order_test : Interrupt.select 0xa0 ≡ (
    if bit 0xa0 11 == 1
    then some (2 ^ 11)
    else if bit 0xa0 3 == 1
    then some (2 ^ 3)
    else if bit 0xa0 7 == 1
    then some (2 ^ 7)
    else if bit 0xa0 9 == 1
    then some (2 ^ 9)
    else if bit 0xa0 1 == 1
    then some (2 ^ 1)
    else if bit 0xa0 5 == 1
    then some (2 ^ 5)
    else if bit 0xa0 10 == 1
    then some (2 ^ 10)
    else if bit 0xa0 2 == 1
    then some (2 ^ 2)
    else if bit 0xa0 6 == 1
    then some (2 ^ 6)
    else none)
select_order_test = select_order 0xa0 (omega arith)

bit_13 : bit 0x2800 13 ≡ 1
unfolding bit
bit_13 = refl

select_overflow_first_example :
    (s : ℕ) × (Interrupt.select 0x2800 ≡ some s) × (ctz s ≡ (if bit 0x2800 12 == 1 then 12 else 13))
select_overflow_first_example = select_overflow_first 0x2800 (omega arith) bit_13

timer_taken : (Interrupt.take_interrupt hart 0xa0).1 ≡ Interrupt.throws (2 ^ 63 + 7) false
unfolding Interrupt.take_interrupt Interrupt.throw Interrupt.select Interrupt.nmie
    Interrupt.enabled_interrupts Interrupt.m_enabled ctz
timer_taken = refl

take_interrupt-MayTake_example :
    ((i : ℕ) × (2 ^ 63 + 7 ≡ interrupt_cause hart i) × (bit 0xa0 i ≡ 1) × MayTake hart i)
    × (hart.debug_mode ≡ false)
    × ((Interrupt.take_interrupt hart 0xa0).0.in_wfi ≡ false)
take_interrupt-MayTake_example =
    take_interrupt-MayTake hart 0xa0 (2 ^ 63 + 7) false (omega arith) (omega arith) (omega arith)
      timer_taken

abbrev machine_and_user : Interrupt.Extensions
machine_and_user = record { has_u = true; has_s = false }

legalize_privilege-has_level_test :
    (q : ℕ) × (Interrupt.legalize_privilege machine_and_user 1 ≡ some q)
    × (has_level machine_and_user q ≡ true)
    × (has_level machine_and_user 1 ≡ true → q ≡ 1)
legalize_privilege-has_level_test = legalize_privilege-has_level machine_and_user 1 (omega arith)

abbrev before : Interrupt.Mode
before = record {
  prv = 3;
  prev_prv = 3;
  v = false;
  prev_v = false;
  prv_changed = false;
  v_changed = false;
}

abbrev after : Interrupt.Mode
after = record {
  prv = 0;
  prev_prv = 3;
  v = true;
  prev_v = false;
  prv_changed = true;
  v_changed = true;
}

user_set : Interrupt.set_privilege machine_and_user before 1 true ≡ some after
unfolding Interrupt.set_privilege Interrupt.legalize_privilege Interrupt.enter
user_set = refl

set_privilege-IsChange_example : IsChange machine_and_user before true after
set_privilege-IsChange_example =
    set_privilege-IsChange machine_and_user before after 1 true user_set
