-- ===== src/Interrupt.antt =====
-- Interrupts and privilege of riscv/processor.cc: `take_interrupt`, `legalize_privilege` and
-- `set_privilege`. The control registers enter by the values that the code reads from them.
pub mod Enabled
pub mod Priority
pub mod Taken
pub mod Privilege
mod Tests
use spike_online.Arith.Count.{ctz}
use spike_online.Decode.Field.{get_field}
use spike_online.Base.{
  ℕ, ◌+◌, ◌-◌, ◌*◌, ◌/◌, ◌^◌, bit_and, bit_or, Bool, true, false, not, ◌&&◌, ◌||◌, Option, none,
  some, if◌then◌else◌, ltb, leb, ◌==◌, any_bit, flip, u64, ◌<<<◌, ◌>>>◌,
}

abbrev pub prv_u : ℕ
prv_u = 0

abbrev pub prv_s : ℕ
prv_s = 1

abbrev pub prv_hs : ℕ
prv_hs = 2

abbrev pub prv_m : ℕ
prv_m = 3

abbrev pub mstatus_sie : ℕ
mstatus_sie = 0x2

abbrev pub mstatus_mie : ℕ
mstatus_mie = 0x8

abbrev pub mnstatus_nmie : ℕ
mnstatus_nmie = 0x8

-- What `take_interrupt` reads. `mnstatus` is none where the hart has no such register, and
-- `check_triggers_icount` is the flag of the memory unit's trigger checks.
pub record Hart : Type 0 where
  pub max_xlen : ℕ
  pub mstatus : ℕ
  pub sstatus : ℕ
  pub mideleg : ℕ
  pub hideleg : ℕ
  pub mnstatus : Option ℕ
  pub prv : ℕ
  pub v : Bool
  pub debug_mode : Bool
  pub in_wfi : Bool
  pub check_triggers_icount : Bool

-- `-(reg_t)b` of a condition: no bit, or every bit.
abbrev pub all_if : Bool → ℕ
all_if b = if b then 2 ^ 64 - 1 else 0

pub m_enabled : Hart → Bool
m_enabled h = ltb h.prv prv_m || (h.prv == prv_m && not (get_field h.mstatus mstatus_mie == 0))

pub hs_enabled : Hart → Bool
hs_enabled h =
    h.v || ltb h.prv prv_s || (h.prv == prv_s && not (get_field h.sstatus mstatus_sie == 0))

pub vs_enabled : Hart → Bool
vs_enabled h = ltb h.prv prv_s || (h.prv == prv_s && not (get_field h.sstatus mstatus_sie == 0))

-- The interrupts that are enabled at the highest level that has any.
pub enabled_interrupts : Hart → ℕ → ℕ
enabled_interrupts h pending =
    let for_m = bit_and (bit_and pending (flip 64 h.mideleg)) (all_if (m_enabled h)) in
    let deleg_to_hs = bit_and h.mideleg (flip 64 h.hideleg) in
    let for_hs = bit_and (bit_and pending deleg_to_hs) (all_if (hs_enabled h)) in
    let for_vs = bit_and (bit_and pending h.hideleg) (all_if (vs_enabled h)) in
    if for_m == 0 then if h.v && for_hs == 0 then for_vs else for_hs else for_m

-- The choice among the enabled interrupts; none where the code aborts.
pub select : ℕ → Option ℕ
select e =
    if not (e >>> 12 == 0)
    then some (e >>> 12 <<< 12)
    else if any_bit e (1 <<< 11)
    then some (1 <<< 11)
    else if any_bit e (1 <<< 3)
    then some (1 <<< 3)
    else if any_bit e (1 <<< 7)
    then some (1 <<< 7)
    else if any_bit e (1 <<< 9)
    then some (1 <<< 9)
    else if any_bit e (1 <<< 1)
    then some (1 <<< 1)
    else if any_bit e (1 <<< 5)
    then some (1 <<< 5)
    else if any_bit e (1 <<< 13)
    then some (1 <<< 13)
    else if any_bit e (1 <<< 10)
    then some (1 <<< 10)
    else if any_bit e (1 <<< 2)
    then some (1 <<< 2)
    else if any_bit e (1 <<< 6)
    then some (1 <<< 6)
    else none

-- How `take_interrupt` ends: it returns, throws a trap with a cause, or aborts. `icount_match`
-- tells that the instruction-count triggers were matched before the throw.
pub data Outcome : Type 0 where
  returns : Outcome
  throws : (cause : ℕ) → (icount_match : Bool) → Outcome
  aborts : Outcome

pub nmie : Hart → Bool
nmie h = elim h.mnstatus [ none ↦ true | some s ↦ not (get_field s mnstatus_nmie == 0) ]

pub throw : Hart → Option ℕ → Outcome
throw h none = aborts
throw h (some s) = throws (bit_or (u64 (1 <<< (h.max_xlen - 1))) (ctz s)) h.check_triggers_icount

pub take_interrupt : Hart → ℕ → Hart × Outcome
take_interrupt h pending =
    let h' = record h { in_wfi = false } in
    let e = enabled_interrupts h pending in
    if pending == 0
    then (h, returns)
    else if not h.debug_mode && nmie h && not (e == 0)
    then (h', throw h (select e))
    else (h', returns)

-- The privilege of a hart: the fields of the state that `set_privilege` reads or writes, and the
-- translations that the memory unit remembers, which it flushes.
pub record Mode : Type 0 where
  pub prv : ℕ
  pub prev_prv : ℕ
  pub v : Bool
  pub prev_v : Bool
  pub prv_changed : Bool
  pub v_changed : Bool

pub record Extensions : Type 0 where
  pub has_u : Bool
  pub has_s : Bool

-- none where the code's assertion fails.
unfoldable pub legalize_privilege : Extensions → ℕ → Option ℕ
legalize_privilege x prv =
    if not (leb prv prv_m)
    then none
    else if not x.has_u
    then some prv_m
    else if prv == prv_hs || (prv == prv_s && not x.has_s)
    then some prv_u
    else some prv

-- The assignments of `set_privilege`, with the level that it has made legal.
unfoldable pub enter : Mode → ℕ → Bool → Mode
enter s prv virt =
    let v' : Bool = virt && not (prv == prv_m) in
    record {
      prv = prv;
      prev_prv = s.prv;
      v = v';
      prev_v = s.v;
      prv_changed = not (prv == s.prv);
      v_changed = if v' then not s.v else s.v;
    }

-- The flush of the memory unit's translations is not in the state.
unfoldable pub set_privilege : Extensions → Mode → ℕ → Bool → Option Mode
set_privilege x s prv virt = elim (legalize_privilege x prv) [
  | none ↦ none
  | some prv' ↦ some (enter s prv' virt)
]
