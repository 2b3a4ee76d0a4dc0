-- ===== src/Traps.antt =====
-- `processor_t::take_trap` of riscv/processor.cc. What it reads of a
-- control register is a field, and what it writes to one is a list of the writes in their order.
pub mod Delegation
pub mod Level
mod Tests
use spike_online.Interrupt.{
  Mode, Extensions, set_privilege, prv_s, prv_m, mstatus_sie, mstatus_mie, mnstatus_nmie,
}
use spike_online.Decode.Field.{get_field, set_field}
use spike_online.Base.{
  ℕ, ◌+◌, ◌-◌, ◌*◌, ◌^◌, bit_and, bit_or, flip, ◌<<<◌, ◌>>>◌, u64, bool_ℕ, any_bit, Bool, true,
  false, not, ◌&&◌, ◌||◌, Option, none, some, List, [], ◌∷◌, ◌++◌, if◌then◌else◌, ltb, leb, ◌==◌,
}

abbrev pub mstatus_spie : ℕ
mstatus_spie = 0x20

abbrev pub mstatus_mpie : ℕ
mstatus_mpie = 0x80

abbrev pub mstatus_spp : ℕ
mstatus_spp = 0x100

abbrev pub mstatus_mpp : ℕ
mstatus_mpp = 0x1800

abbrev pub mstatus_spelp : ℕ
mstatus_spelp = 0x00800000

abbrev pub mstatus_sdt : ℕ
mstatus_sdt = 0x01000000

abbrev pub mstatus_gva : ℕ
mstatus_gva = 0x0000004000000000

abbrev pub mstatus_mpv : ℕ
mstatus_mpv = 0x0000008000000000

abbrev pub mstatus_mpelp : ℕ
mstatus_mpelp = 0x0000020000000000

abbrev pub mstatus_mdt : ℕ
mstatus_mdt = 0x0000040000000000

abbrev pub hstatus_spvp : ℕ
hstatus_spvp = 0x100

abbrev pub hstatus_spv : ℕ
hstatus_spv = 0x80

abbrev pub hstatus_gva : ℕ
hstatus_gva = 0x40

abbrev pub envcfg_dte : ℕ
envcfg_dte = 0x0800000000000000

abbrev pub cause_breakpoint : ℕ
cause_breakpoint = 0x3

abbrev pub cause_double_trap : ℕ
cause_double_trap = 0x10

abbrev pub debug_rom_entry : ℕ
debug_rom_entry = 0x800

abbrev pub debug_rom_tvec : ℕ
debug_rom_tvec = 0x808

-- The control registers that are written.
pub data Csr : Type 0 where
  vscause vsepc vstval sstatus : Csr
  nonvirtual_scause nonvirtual_sepc nonvirtual_stval htval htinst nonvirtual_sstatus hstatus : Csr
  mepc mcause mtval mtval2 mtinst mstatus mstatush tcontrol : Csr

-- A `trap_t`.
pub record TrapInfo : Type 0 where
  pub cause : ℕ
  pub tval : ℕ
  pub tval2 : ℕ
  pub tinst : ℕ
  pub has_gva : Bool

pub record Core : Type 0 where
  pub mode : Mode
  pub extensions : Extensions
  pub has_h : Bool
  pub smdbltrp : Bool
  pub max_xlen : ℕ
  pub debug_mode : Bool
  pub critical_error : Bool
  pub pc : ℕ
  pub elp : ℕ
  pub read : Csr → ℕ
  pub hideleg : ℕ
  pub mideleg : ℕ
  pub hedeleg : ℕ
  pub medeleg : ℕ
  pub vstvec : ℕ
  pub nonvirtual_stvec : ℕ
  pub mtvec : ℕ
  pub menvcfg : ℕ
  pub henvcfg : ℕ
  pub mnstatus : Option ℕ
  pub has_mstatush : Bool
  pub has_tcontrol : Bool
  pub writes : List (Csr × ℕ)

abbrev pub is_interrupt : Core → TrapInfo → Bool
is_interrupt c t = any_bit t.cause (2 ^ (c.max_xlen - 1))

-- `bit`: the cause without the flag of an interrupt.
abbrev pub cause_bit : Core → TrapInfo → ℕ
cause_bit c t =
    if is_interrupt c t then bit_and t.cause (flip 64 (2 ^ (c.max_xlen - 1))) else t.cause

abbrev pub below_m : Core → Bool
below_m c = leb c.mode.prv prv_s

pub vsdeleg : Core → TrapInfo → ℕ
vsdeleg c t =
    if c.mode.v && below_m c
    then (if is_interrupt c t then c.hideleg else bit_and c.medeleg c.hedeleg)
    else 0

pub hsdeleg : Core → TrapInfo → ℕ
hsdeleg c t = if below_m c then (if is_interrupt c t then c.mideleg else c.medeleg) else 0

-- `state.prv <= PRV_S && bit < max_xlen && ((deleg >> bit) & 1)`
abbrev pub delegates : Core → TrapInfo → ℕ → Bool
delegates c t deleg =
    below_m c && ltb (cause_bit c t) c.max_xlen && any_bit (deleg >>> cause_bit c t) 1

-- `supv_double_trap`
pub double_trap : Core → TrapInfo → Bool
double_trap c t =
    (delegates c t (vsdeleg c t) || delegates c t (hsdeleg c t))
    && not (get_field (c.read sstatus) mstatus_sdt == 0)

abbrev pub to_vs : Core → TrapInfo → Bool
to_vs c t = not (double_trap c t) && delegates c t (vsdeleg c t)

abbrev pub to_hs : Core → TrapInfo → Bool
to_hs c t = not (double_trap c t) && delegates c t (hsdeleg c t)

-- The handler's address, of a vector register and a cause.
abbrev pub handler : ℕ → Bool → ℕ → ℕ
handler tvec interrupt cause =
    u64 (bit_and tvec (flip 64 1) + (if any_bit tvec 1 && interrupt then u64 (4 * cause) else 0))

-- The status that a trap to VS or HS writes.
pub s_status : ℕ → ℕ → ℕ → Bool → ℕ
s_status s prv elp dte =
    let s' =
      set_field
        (set_field (set_field (set_field s mstatus_spie (get_field s mstatus_sie)) mstatus_spp prv)
          mstatus_sie 0)
        mstatus_spelp elp in
    if dte then set_field s' mstatus_sdt 1 else s'

pub h_status : Core → TrapInfo → ℕ
h_status c t =
    let s = c.read hstatus in
    let s' = if c.mode.v then set_field s hstatus_spvp c.mode.prv else s in
    set_field (set_field s' hstatus_spv (bool_ℕ c.mode.v)) hstatus_gva (bool_ℕ t.has_gva)

pub m_status : Core → TrapInfo → ℕ → ℕ
m_status c t s =
    set_field
      (set_field
        (set_field
          (set_field
            (set_field (set_field s mstatus_mpie (get_field s mstatus_mie)) mstatus_mpp c.mode.prv)
            mstatus_mie 0)
          mstatus_mpv (bool_ℕ c.mode.v))
        mstatus_gva (bool_ℕ t.has_gva))
      mstatus_mpelp c.elp

-- `set_privilege`; its assertion does not fail, since the levels here are at most M.
abbrev pub or_mode : Option Mode → Mode → Mode
or_mode none mode = mode
or_mode (some mode') mode = mode'

abbrev pub switch : Core → ℕ → Bool → Mode
switch c prv virt = or_mode (set_privilege c.extensions c.mode prv virt) c.mode

pub trap_vs : Core → TrapInfo → ℕ → Core
trap_vs c t epc =
    let adjusted_cause =
      if is_interrupt c t then u64 (cause_bit c t + 2 ^ 64 - 1) else cause_bit c t in
    let dte = any_bit c.menvcfg envcfg_dte && any_bit c.henvcfg envcfg_dte in
    record c {
      pc = handler c.vstvec (is_interrupt c t) adjusted_cause;
      elp = 0;
      mode = switch c prv_s true;
      writes =
          c.writes
          ++ (vscause, bit_or adjusted_cause (if is_interrupt c t then 2 ^ (c.max_xlen - 1) else 0))
            ∷ (vsepc, epc)
            ∷ (vstval, t.tval)
            ∷ (sstatus, s_status (c.read sstatus) c.mode.prv c.elp dte)
            ∷ [];
    }

pub trap_hs : Core → TrapInfo → ℕ → Core
trap_hs c t epc = record c {
  pc = handler c.nonvirtual_stvec (is_interrupt c t) (cause_bit c t);
  elp = 0;
  mode = switch c prv_s false;
  writes =
      c.writes
      ++ (nonvirtual_scause, t.cause)
        ∷ (nonvirtual_sepc, epc)
        ∷ (nonvirtual_stval, t.tval)
        ∷ (htval, t.tval2)
        ∷ (htinst, t.tinst)
        ∷ (
          nonvirtual_sstatus,
          s_status (c.read nonvirtual_sstatus) c.mode.prv c.elp (any_bit c.menvcfg envcfg_dte),
        )
        ∷ (if c.has_h then (hstatus, h_status c t) ∷ [] else []);
}

pub nmie : Core → Bool
nmie c = elim c.mnstatus [ none ↦ true | some s ↦ not (get_field s mnstatus_nmie == 0) ]

pub trap_m : Core → TrapInfo → ℕ → Core
trap_m c t epc =
    let s = c.read mstatus in
    let s' = if c.smdbltrp then set_field s mstatus_mdt 1 else s in
    let status = m_status c t s' in
    if c.smdbltrp && (not (get_field s mstatus_mdt == 0) || not (nmie c))
    then record c { critical_error = true }
    else record c {
      pc = if not (nmie c) then 0 else handler c.mtvec (is_interrupt c t) (cause_bit c t);
      elp = 0;
      mode = switch c prv_m false;
      writes =
          c.writes
          ++ (mepc, epc)
            ∷ (mcause, if double_trap c t then cause_double_trap else t.cause)
            ∷ (mtval, t.tval)
            ∷ (mtval2, if double_trap c t then t.cause else t.tval2)
            ∷ (mtinst, t.tinst)
            ∷ (mstatus, status)
            ∷ (if c.has_mstatush then (mstatush, status >>> 32) ∷ [] else [])
          ++ (if c.has_tcontrol
              then (tcontrol, if any_bit (c.read tcontrol) 0x8 then 0x80 else 0) ∷ []
              else []);
    }

pub take_trap : Core → TrapInfo → ℕ → Core
take_trap c t epc =
    if c.debug_mode
    then record c { pc = if t.cause == cause_breakpoint then debug_rom_entry else debug_rom_tvec }
    else if to_vs c t
    then trap_vs c t epc
    else if to_hs c t
    then trap_hs c t epc
    else trap_m c t epc
