-- ===== src/Uart/Queue.antt =====
-- The receive queue of riscv/ns16550.cc and the flags of the line status that speak of it.
use spike_online.Uart.{
  Uart, construct, clear8, all_sent, clear_rx, clear_tx, pending_interrupts, update_line,
  update_interrupt, rx_pop, rx_byte, read_rx, tx_byte, push_rx, write_tx, write_ier, read_register,
  write_register, load, store, tick, ignores_input, backs_off, register_of, lsr_dr, lsr_temt,
  lsr_thre, lsr_bi, lcr_dlab, mcr_loop, ier_thri, fcr_clear_rcvr, fcr_clear_xmit, uart_queue_size,
}
use spike_online.Base.{
  ℕ, ◌+◌, ◌^◌, ◌<◌, ◌≤◌, ◌≡◌, refl, sym, ap, ◌∙◌, arith, bit_or, bit_and-lt, bit_or-lt, Bool, true,
  false, Option, none, some, List, [], ◌∷◌, ◌++◌, inl, inr, Bool-cases, if_both, if_cases, length,
  ltb, ◌==◌, any_bit, any_bit-set_bit, any_bit-clear_bit, u8,
}

abbrev pub is_nonempty : List ℕ → Bool
is_nonempty [] = false
is_nonempty (x ∷ xs) = true

-- Data is ready exactly if a byte is queued, the queue keeps its bound, and the transmitter is empty.
pub record IsReady (u : Uart) : Type 0 where
  pub ready : any_bit u.lsr lsr_dr ≡ is_nonempty u.rx_queue
  pub room : length u.rx_queue ≤ uart_queue_size
  pub sent : any_bit u.lsr lsr_temt ≡ true
  pub byte : u.lsr < 2 ^ 8

pub all_sent-dr : (x : ℕ) → any_bit (all_sent x) lsr_dr ≡ any_bit x lsr_dr
all_sent-dr x = any_bit-set_bit (bit_or x lsr_temt) 5 0 ∙ any_bit-set_bit x 6 0

all_sent-temt : (x : ℕ) → any_bit (all_sent x) lsr_temt ≡ true
all_sent-temt x = any_bit-set_bit (bit_or x lsr_temt) 5 6 ∙ any_bit-set_bit x 6 6

all_sent-lt : (x : ℕ) → x < 2 ^ 8 → all_sent x < 2 ^ 8
all_sent-lt x h = bit_or-lt 8 _ lsr_thre (bit_or-lt 8 x lsr_temt h (omega arith)) (omega arith)

-- A flag other than these two is cleared.
clear-lt : (x mask : ℕ) → x < 2 ^ 8 → clear8 x mask < 2 ^ 8
clear-lt x mask h = bit_and-lt 8 x _ h

sent-IsReady : (u : Uart) → IsReady u → IsReady (record u { lsr = all_sent u.lsr })
sent-IsReady u ok = record {
  ready = all_sent-dr u.lsr ∙ ok.ready;
  room = ok.room;
  sent = all_sent-temt u.lsr;
  byte = all_sent-lt u.lsr ok.byte;
}

emptied-IsReady :
    (u : Uart) → IsReady u → IsReady (record u { rx_queue = []; lsr = clear8 u.lsr lsr_dr })
emptied-IsReady u ok = record {
  ready = any_bit-clear_bit 8 u.lsr 0 0 (omega arith) ok.byte;
  room = omega arith;
  sent = any_bit-clear_bit 8 u.lsr 0 6 (omega arith) ok.byte ∙ ok.sent;
  byte = clear-lt u.lsr lsr_dr ok.byte;
}

-- The fields that the invariant does not mention.
pub other-IsReady :
    {u : Uart} {a b c d e f g h i j k l m : ℕ} {o : List ℕ}
    → IsReady u
    → IsReady (record u {
      reg_shift = a;
      reg_io_width = b;
      dll = c;
      dlm = d;
      iir = e;
      ier = f;
      fcr = g;
      lcr = h;
      mcr = i;
      msr = j;
      scr = k;
      backoff_counter = l;
      level = m;
      written = o;
    })
other-IsReady ok = record { ready = ok.ready; room = ok.room; sent = ok.sent; byte = ok.byte }

clear_rx-IsReady : (u : Uart) → IsReady u → IsReady (clear_rx u)
unfolding clear_rx
clear_rx-IsReady u ok = elim (Bool-cases (any_bit u.lcr fcr_clear_rcvr)) [
  | inl t ↦ rw (t, clear_rx) (other-IsReady (emptied-IsReady u ok))
  | inr f ↦ rw (f, clear_rx) ok
]

clear_tx-IsReady : (u : Uart) → IsReady u → IsReady (clear_tx u)
unfolding clear_tx
clear_tx-IsReady u ok = elim (Bool-cases (any_bit u.lcr fcr_clear_xmit)) [
  | inl t ↦ rw (t, clear_tx) (other-IsReady (sent-IsReady u ok))
  | inr f ↦ rw (f, clear_tx) ok
]

update_line-IsReady : (u : Uart) → IsReady u → IsReady (update_line u)
unfolding update_line
update_line-IsReady u ok = elim (Bool-cases (pending_interrupts u == 0)) [
  | inl t ↦ rw (t, update_line) (other-IsReady ok)
  | inr f ↦ rw (f, update_line) (other-IsReady ok)
]

pub update_interrupt-IsReady : (u : Uart) → IsReady u → IsReady (update_interrupt u)
unfolding update_interrupt
update_interrupt-IsReady u ok =
    let u' = update_line (clear_tx (clear_rx u)) in
    let ok' = update_line-IsReady _ (clear_tx-IsReady _ (clear_rx-IsReady u ok)) in
    elim (Bool-cases (any_bit u'.ier ier_thri)) [
      | inl t ↦ rw (t, update_interrupt) ok'
      | inr f ↦ rw (f, update_interrupt) (sent-IsReady u' ok')
    ]

rx_pop-IsReady :
    (u : Uart) (queue : List ℕ) → u.rx_queue ≡ queue → IsReady u → IsReady (rx_pop u queue).0
unfolding rx_pop
rx_pop-IsReady u [] e ok = record {
  ready = any_bit-clear_bit 8 u.lsr 0 0 (omega arith) ok.byte ∙ sym (ap is_nonempty e);
  room = ok.room;
  sent = any_bit-clear_bit 8 u.lsr 0 6 (omega arith) ok.byte ∙ ok.sent;
  byte = clear-lt u.lsr lsr_dr ok.byte;
}
rx_pop-IsReady u (ret ∷ rest) e ok = elim (Bool-cases (any_bit u.lsr lsr_bi)) [
  | inl t ↦
      rw (t, rx_pop)
        (record {
          ready = any_bit-clear_bit 8 u.lsr 4 0 (omega arith) ok.byte ∙ ok.ready;
          room = ok.room;
          sent = any_bit-clear_bit 8 u.lsr 4 6 (omega arith) ok.byte ∙ ok.sent;
          byte = clear-lt u.lsr lsr_bi ok.byte;
        })
  | inr f ↦
      rw (f, rx_pop)
        (after rest (omega (arith, ok.room, ap length e)) (ok.ready ∙ ap is_nonempty e))
]
  where
    after :
        (rest : List ℕ)
        → length rest ≤ uart_queue_size
        → any_bit u.lsr lsr_dr ≡ true
        → IsReady (record u {
          rx_queue = rest;
          lsr = elim rest [ [] ↦ clear8 u.lsr lsr_dr | next ∷ more ↦ u.lsr ];
        })
    after [] h r = emptied-IsReady u ok
    after (next ∷ more) h r = record { ready = r; room = h; sent = ok.sent; byte = ok.byte }

read_rx-IsReady : (u : Uart) → IsReady u → IsReady (read_rx u).0
unfolding read_rx rx_byte
read_rx-IsReady u ok = elim (Bool-cases (any_bit u.lcr lcr_dlab)) [
  | inl t ↦ rw (t, read_rx) ok
  | inr f ↦ rw (f, read_rx) (rx_pop-IsReady u u.rx_queue refl ok)
]

length-snoc : (xs : List ℕ) (x : ℕ) → length (xs ++ x ∷ []) ≡ length xs + 1
length-snoc [] x = omega arith
length-snoc (y ∷ xs) x = omega (arith, length-snoc xs x)

is_nonempty-snoc : (xs : List ℕ) (x : ℕ) → is_nonempty (xs ++ x ∷ []) ≡ true
is_nonempty-snoc [] x = refl
is_nonempty-snoc (y ∷ xs) x = refl

push_rx-IsReady :
    (u : Uart) (val : ℕ) → length u.rx_queue < uart_queue_size → IsReady u → IsReady (push_rx u val)
unfolding push_rx
push_rx-IsReady u val h ok = record {
  ready = any_bit-set_bit u.lsr 0 0 ∙ sym (is_nonempty-snoc u.rx_queue val);
  room = omega (arith, length-snoc u.rx_queue val, h);
  sent = any_bit-set_bit u.lsr 0 6 ∙ ok.sent;
  byte = bit_or-lt 8 u.lsr lsr_dr ok.byte (omega arith);
}

write_tx-IsReady : (u : Uart) (val : ℕ) → IsReady u → IsReady (write_tx u val)
unfolding write_tx tx_byte
write_tx-IsReady u val ok = elim (Bool-cases (any_bit u.lcr lcr_dlab)) [
  | inl d ↦ rw (d, write_tx) (other-IsReady ok)
  | inr d ↦ elim (Bool-cases (any_bit u.mcr mcr_loop)) [
    | inr m ↦ rw (d, m, write_tx) (other-IsReady (sent-IsReady u ok))
    | inl m ↦ elim (Bool-cases (ltb (length u.rx_queue) uart_queue_size)) [
      | inl t ↦ rw (d, m, t, write_tx) (push_rx-IsReady u val (ground (arith, t)) ok)
      | inr f ↦ rw (d, m, f, write_tx) ok
    ]
  ]
]

write_ier-IsReady : (u : Uart) (val : ℕ) → IsReady u → IsReady (write_ier u val)
unfolding write_ier
write_ier-IsReady u val ok = elim (Bool-cases (any_bit u.lcr lcr_dlab)) [
  | inl t ↦ rw (t, write_ier) (other-IsReady ok)
  | inr f ↦ rw (f, write_ier) (other-IsReady ok)
]

read_register-IsReady : (u : Uart) (r : ℕ) → IsReady u → IsReady (read_register u r).0
unfolding read_register
read_register-IsReady u r ok =
    let P : Uart × Option ℕ → Type 0 = λ (out : Uart × Option ℕ). IsReady out.0 in
    if_both P (r == 0) (update_interrupt-IsReady _ (read_rx-IsReady u ok)) (
      if_both P (r == 1) ok (
        if_both P (r == 2) ok (
          if_both P (r == 3) ok (
            if_both P (r == 4) ok
              (if_both P (r == 5) ok (if_both P (r == 6) ok (if_both P (r == 7) ok ok)))))))

write_register-IsReady : (u : Uart) (r val : ℕ) → IsReady u → IsReady (write_register u r val).0
unfolding write_register
write_register-IsReady u r val ok =
    let P : Uart × Bool → Type 0 = λ (out : Uart × Bool). IsReady out.0 in
    if_both P (r == 0) (update_interrupt-IsReady _ (write_tx-IsReady u val ok)) (
      if_both P (r == 1) (update_interrupt-IsReady _ (write_ier-IsReady u val ok)) (
        if_both P (r == 2) (update_interrupt-IsReady _ (other-IsReady ok)) (
          if_both P (r == 3) (update_interrupt-IsReady _ (other-IsReady ok)) (
            if_both P (r == 4) (update_interrupt-IsReady _ (other-IsReady ok)) (
              if_both P (r == 5) ok
                (if_both P (r == 6) ok (if_both P (r == 7) (other-IsReady ok) ok)))))))

tick-IsReady : (u : Uart) (input : Option ℕ) → IsReady u → IsReady (tick u input)
unfolding tick
tick-IsReady u input ok =
    if_cases IsReady (ignores_input u) (λ idle. ok)
      (λ busy.
        if_both IsReady (backs_off u) (other-IsReady ok) (arrive input (ground (arith, busy))))
  where
    arrive :
        (input : Option ℕ)
        → length u.rx_queue < uart_queue_size
        → IsReady (elim input [
          | none ↦ record u { backoff_counter = 1 }
          | some rc ↦ update_interrupt (push_rx (record u { backoff_counter = 0 }) (u8 rc))
        ])
    arrive none h = other-IsReady ok
    arrive (some rc) h = update_interrupt-IsReady _ (push_rx-IsReady _ (u8 rc) h (other-IsReady ok))

-- One step of the port: a load, a store, or a tick with what the terminal answers.
pub data Step (u : Uart) : Uart → Type 0 where
  loads : (addr len : ℕ) → Step u (load u addr len).0
  stores : (addr len val : ℕ) → Step u (store u addr len val).0
  ticks : (input : Option ℕ) → Step u (tick u input)

pub data Reach (u : Uart) : Uart → Type 0 where
  here : Reach u u
  next : {v w : Uart} → Reach u v → Step v w → Reach u w

pub Step-IsReady : {u v : Uart} → Step u v → IsReady u → IsReady v
unfolding load store
Step-IsReady {u} (loads addr len) ok =
    if_both (λ (out : Uart × Option ℕ). IsReady out.0) _ ok
      (read_register-IsReady u (register_of u addr) ok)
Step-IsReady {u} (stores addr len val) ok =
    if_both (λ (out : Uart × Bool). IsReady out.0) _ ok
      (write_register-IsReady u (register_of u addr) val ok)
Step-IsReady {u} (ticks input) ok = tick-IsReady u input ok

Reach-keeps : {u v : Uart} → Reach u v → IsReady u → IsReady v
Reach-keeps here ok = ok
Reach-keeps (next r s) ok = Step-IsReady s (Reach-keeps r ok)

construct-IsReady : (reg_shift width dlm : ℕ) → IsReady (construct reg_shift width dlm)
unfolding construct
construct-IsReady reg_shift width dlm = record {
  ready = refl;
  room = omega arith;
  sent = refl;
  byte = omega arith;
}

-- In every state that a new port reaches by loads, stores and ticks, the data-ready flag tells
-- whether a received byte is queued, at most 64 bytes are queued, and the transmitter shows empty.
pub Reach-IsReady :
    (reg_shift width dlm : ℕ) {u : Uart} → Reach (construct reg_shift width dlm) u → IsReady u
Reach-IsReady reg_shift width dlm r = Reach-keeps r (construct-IsReady reg_shift width dlm)
