-- ===== src/Traps/Tests.antt =====
-- Runs and instances for traps of riscv/processor.cc: an environment call of user mode.
use spike_online.Traps.{
  Core, TrapInfo, double_trap, vsdeleg, hsdeleg, s_status, h_status, m_status, nmie, trap_vs,
  trap_hs, trap_m, take_trap,
}
use spike_online.Traps.Level.{IsTaken, take_trap-IsTaken}
use spike_online.Interrupt.{Mode, set_privilege, legalize_privilege, enter}
use spike_online.Decode.Field.{get_field, set_field}
use spike_online.Base.{◌≡◌, refl, arith, true, false, none, [], length}

abbrev user : Mode
user = record {
  prv = 0;
  prev_prv = 0;
  v = false;
  prev_v = false;
  prv_changed = false;
  v_changed = false;
}

abbrev core : Core
core = record {
  mode = user;
  extensions = record { has_u = true; has_s = true };
  has_h = true;
  smdbltrp = true;
  max_xlen = 64;
  debug_mode = false;
  critical_error = false;
  pc = 0;
  elp = 0;
  read = λ csr. 0;
  hideleg = 0;
  mideleg = 0;
  hedeleg = 0;
  medeleg = 0x100;
  vstvec = 0x1000;
  nonvirtual_stvec = 0x2001;
  mtvec = 0x3000;
  menvcfg = 0;
  henvcfg = 0;
  mnstatus = none;
  has_mstatush = false;
  has_tcontrol = false;
  writes = [];
}

abbrev call : TrapInfo
call = record { cause = 8; tval = 0; tval2 = 0; tinst = 0; has_gva = false }

call_test :
    ((take_trap core call 0x80).mode.prv ≡ 1)
    × ((take_trap core call 0x80).pc ≡ 0x2000)
    × ((take_trap (record core { medeleg = 0 }) call 0x80).mode.prv ≡ 3)
    × ((take_trap (record core { mode = record user { v = true }; hedeleg = 0x100 }) call 0x80).pc
        ≡ 0x1000)
    × (length (take_trap core call 0x80).writes ≡ 7)
unfolding take_trap double_trap vsdeleg hsdeleg trap_vs trap_hs trap_m nmie set_privilege
    legalize_privilege enter get_field
call_test = (refl, refl, refl, refl, refl)

guest_status :
    (s_status 2 0 0 true ≡ 0x01000020) × (h_status core call ≡ 0) × (m_status core call 8 ≡ 0x80)
unfolding s_status h_status m_status get_field set_field
guest_status = (refl, refl, refl)

take_trap-IsTaken_example : IsTaken core call (take_trap core call 0x80)
take_trap-IsTaken_example =
    take_trap-IsTaken core call (omega arith) (omega arith) (omega arith) 0x80 refl refl refl
      (omega arith)
