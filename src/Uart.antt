-- ===== src/Uart.antt =====
-- riscv/ns16550.cc: the serial port. The terminal and the interrupt controller stand in the state by
-- the bytes written to the one and the level last set on the other.
pub mod Queue
pub mod Signal
mod Tests
use spike_online.Base.{
  ℕ, zero, suc, ◌+◌, ◌-◌, ◌*◌, ◌/◌, ◌%◌, ◌^◌, bit_and, bit_or, Bool, true, false, not, ◌&&◌, ◌||◌,
  Option, none, some, List, [], ◌∷◌, ◌++◌, length, if◌then◌else◌, ltb, leb, ◌==◌, any_bit, flip, u8,
  u64, ◌<<<◌, ◌>>>◌,
}

pub record Uart : Type 0 where
  pub reg_shift : ℕ
  pub reg_io_width : ℕ
  pub rx_queue : List ℕ
  pub dll : ℕ
  pub dlm : ℕ
  pub iir : ℕ
  pub ier : ℕ
  pub fcr : ℕ
  pub lcr : ℕ
  pub mcr : ℕ
  pub lsr : ℕ
  pub msr : ℕ
  pub scr : ℕ
  pub backoff_counter : ℕ
  pub level : ℕ
  pub written : List ℕ

abbrev pub uart_queue_size : ℕ
uart_queue_size = 64

abbrev pub max_backoff : ℕ
max_backoff = 16

abbrev pub page_size : ℕ
page_size = 4096

abbrev pub ier_thri : ℕ
ier_thri = 1 <<< 1

abbrev pub ier_rdi : ℕ
ier_rdi = 1 <<< 0

abbrev pub iir_no_int : ℕ
iir_no_int = 0x01

abbrev pub iir_thri : ℕ
iir_thri = 0x02

abbrev pub iir_rdi : ℕ
iir_rdi = 0x04

abbrev pub iir_type_bits : ℕ
iir_type_bits = 0xc0

abbrev pub fcr_enable_fifo : ℕ
fcr_enable_fifo = 1 <<< 0

abbrev pub fcr_clear_rcvr : ℕ
fcr_clear_rcvr = 1 <<< 1

abbrev pub fcr_clear_xmit : ℕ
fcr_clear_xmit = 1 <<< 2

abbrev pub lcr_dlab : ℕ
lcr_dlab = 1 <<< 7

abbrev pub mcr_loop : ℕ
mcr_loop = 1 <<< 4

abbrev pub lsr_temt : ℕ
lsr_temt = 1 <<< 6

abbrev pub lsr_thre : ℕ
lsr_thre = 1 <<< 5

abbrev pub lsr_bi : ℕ
lsr_bi = 1 <<< 4

abbrev pub lsr_dr : ℕ
lsr_dr = 1 <<< 0

-- `x &= ~mask` and `x |= UART_LSR_TEMT | UART_LSR_THRE` of a `uint8_t`.
abbrev pub clear8 : ℕ → ℕ → ℕ
clear8 x mask = bit_and x (flip 8 mask)

abbrev pub all_sent : ℕ → ℕ
all_sent lsr = bit_or (bit_or lsr lsr_temt) lsr_thre

-- The constructor leaves `dlm` as it is in memory.
pub construct : ℕ → ℕ → ℕ → Uart
construct reg_shift reg_io_width dlm = record {
  reg_shift = reg_shift;
  reg_io_width = reg_io_width;
  rx_queue = [];
  dll = 0x0c;
  dlm = dlm;
  iir = iir_no_int;
  ier = 0;
  fcr = 0;
  lcr = 0;
  mcr = 0x08;
  lsr = all_sent 0;
  msr = 0xb0;
  scr = 0;
  backoff_counter = 0;
  level = 0;
  written = [];
}

pub clear_rx : Uart → Uart
clear_rx u =
    if any_bit u.lcr fcr_clear_rcvr
    then record u { lcr = clear8 u.lcr fcr_clear_rcvr; rx_queue = []; lsr = clear8 u.lsr lsr_dr }
    else u

pub clear_tx : Uart → Uart
clear_tx u =
    if any_bit u.lcr fcr_clear_xmit
    then record u { lcr = clear8 u.lcr fcr_clear_xmit; lsr = all_sent u.lsr }
    else u

-- The local `interrupts`.
pub pending_interrupts : Uart → ℕ
pending_interrupts u =
    let rdi : ℕ = if any_bit u.ier ier_rdi && any_bit u.lsr lsr_dr then iir_rdi else 0 in
    let thri : ℕ = if any_bit u.ier ier_thri && any_bit u.lsr lsr_temt then iir_thri else 0 in
    bit_or rdi thri

pub update_line : Uart → Uart
update_line u =
    let interrupts = pending_interrupts u in
    if interrupts == 0
    then record u { iir = iir_no_int; level = 0 }
    else record u { iir = interrupts; level = 1 }

pub update_interrupt : Uart → Uart
update_interrupt u =
    let u' = update_line (clear_tx (clear_rx u)) in
    if any_bit u'.ier ier_thri then u' else record u' { lsr = all_sent u'.lsr }

pub rx_pop : Uart → List ℕ → Uart × ℕ
rx_pop u [] = (record u { lsr = clear8 u.lsr lsr_dr }, 0)
rx_pop u (ret ∷ rest) =
    if any_bit u.lsr lsr_bi then (record u { lsr = clear8 u.lsr lsr_bi }, 0) else (
      record u {
        rx_queue = rest;
        lsr = elim rest [ [] ↦ clear8 u.lsr lsr_dr | next ∷ more ↦ u.lsr ];
      },
      ret,
    )

pub rx_byte : Uart → Uart × ℕ
rx_byte u = rx_pop u u.rx_queue

pub tx_byte : Uart → ℕ → Uart
tx_byte u val = record u { lsr = all_sent u.lsr; written = u.written ++ val ∷ [] }

-- The register that an address selects.
pub register_of : Uart → ℕ → ℕ
register_of u addr = addr >>> u.reg_shift % 8

abbrev pub refused : Uart → ℕ → ℕ → Bool
refused u addr len = not (u.reg_io_width == len) || ltb page_size (u64 (addr + len))

pub read_rx : Uart → Uart × ℕ
read_rx u = if any_bit u.lcr lcr_dlab then (u, u.dll) else rx_byte u

-- The byte that is read; none where `load` answers false. Reading the transmit register is the one
-- read that changes the port.
pub read_register : Uart → ℕ → Uart × Option ℕ
read_register u r =
    if r == 0
    then (update_interrupt (read_rx u).0, some (read_rx u).1)
    else if r == 1
    then (u, some (if any_bit u.lcr lcr_dlab then u.dlm else u.ier))
    else if r == 2
    then (u, some (bit_or u.iir iir_type_bits))
    else if r == 3
    then (u, some u.lcr)
    else if r == 4
    then (u, some u.mcr)
    else if r == 5
    then (u, some u.lsr)
    else if r == 6
    then (u, some u.msr)
    else if r == 7
    then (u, some u.scr)
    else (u, none)

pub load : Uart → ℕ → ℕ → Uart × Option ℕ
load u addr len = if refused u addr len then (u, none) else read_register u (register_of u addr)

-- A byte that arrives where there is room.
pub push_rx : Uart → ℕ → Uart
push_rx u val = record u { rx_queue = u.rx_queue ++ val ∷ []; lsr = bit_or u.lsr lsr_dr }

pub write_tx : Uart → ℕ → Uart
write_tx u val =
    if any_bit u.lcr lcr_dlab
    then record u { dll = val }
    else if any_bit u.mcr mcr_loop
    then if ltb (length u.rx_queue) uart_queue_size then push_rx u val else u
    else tx_byte u val

pub write_ier : Uart → ℕ → Uart
write_ier u val =
    if any_bit u.lcr lcr_dlab then record u { dlm = val } else record u { ier = bit_and val 0x0f }

-- The port after a store, and the answer of `store`.
pub write_register : Uart → ℕ → ℕ → Uart × Bool
write_register u r val =
    if r == 0
    then (update_interrupt (write_tx u val), true)
    else if r == 1
    then (update_interrupt (write_ier u val), true)
    else if r == 2
    then (update_interrupt (record u { fcr = val }), true)
    else if r == 3
    then (update_interrupt (record u { lcr = val }), true)
    else if r == 4
    then (update_interrupt (record u { mcr = val }), true)
    else if r == 5
    then (u, true)
    else if r == 6
    then (u, true)
    else if r == 7
    then (record u { scr = val }, true)
    else (u, false)

pub store : Uart → ℕ → ℕ → ℕ → Uart × Bool
store u addr len val =
    if refused u addr len then (u, false) else write_register u (register_of u addr) val

abbrev pub ignores_input : Uart → Bool
ignores_input u =
    not (any_bit u.fcr fcr_enable_fifo)
    || any_bit u.mcr mcr_loop
    || leb uart_queue_size (length u.rx_queue)

abbrev pub backs_off : Uart → Bool
backs_off u = ltb 0 u.backoff_counter && ltb u.backoff_counter max_backoff

-- What `canonical_terminal_t::read` answers is an argument: none stands for a negative number.
pub tick : Uart → Option ℕ → Uart
tick u input =
    if ignores_input u
    then u
    else if backs_off u
    then record u { backoff_counter = u.backoff_counter + 1 }
    else elim input [
      | none ↦ record u { backoff_counter = 1 }
      | some rc ↦ update_interrupt (push_rx (record u { backoff_counter = 0 }) (u8 rc))
    ]
