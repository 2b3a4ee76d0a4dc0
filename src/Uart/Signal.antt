-- ===== src/Uart/Signal.antt =====
-- The interrupt line of riscv/ns16550.cc, and which registers clear the receive queue.
use spike_online.Uart.{
  Uart, construct, all_sent, clear_rx, clear_tx, pending_interrupts, update_line, update_interrupt,
  read_register, write_register, load, store, tick, ignores_input, backs_off, register_of, ier_thri,
  iir_no_int, iir_rdi, iir_thri, fcr_clear_rcvr, fcr_clear_xmit,
}
use spike_online.Uart.Queue.{Step, loads, stores, ticks, Reach, here, next, all_sent-dr}
use spike_online.Base.{
  ℕ, ◌≡◌, refl, sym, ◌∙◌, Bool, true, false, Option, none, some, [], inl, inr, Bool-cases, if_both,
  if_cases, if◌then◌else◌, ◌==◌, any_bit, any_bit_lem, bit, bit_or, ◌+◌, ◌&&◌, ◌||◌,
}

-- The line and the identification register show what `update_interrupt` last computed.
record IsLatched (u : Uart) : Type 0 where
  pub line : u.level ≡ (if pending_interrupts u == 0 then 0 else 1)
  pub register : u.iir ≡ (if pending_interrupts u == 0 then iir_no_int else pending_interrupts u)

update_line-IsLatched : (u : Uart) → IsLatched (update_line u)
unfolding update_line pending_interrupts
update_line-IsLatched u =
    if_cases IsLatched (pending_interrupts u == 0)
      (λ t. record { line = sym (rw t); register = sym (rw t) })
      (λ f. record { line = sym (rw f); register = sym (rw f) })

pending-sent :
    (u : Uart)
    → any_bit u.ier ier_thri ≡ false
    → pending_interrupts (record u { lsr = all_sent u.lsr }) ≡ pending_interrupts u
unfolding pending_interrupts
pending-sent u off = rw (off, all_sent-dr u.lsr)

sent-IsLatched :
    (u : Uart)
    → any_bit u.ier ier_thri ≡ false
    → IsLatched u
    → IsLatched (record u { lsr = all_sent u.lsr })
sent-IsLatched u off ok = record {
  line = rw (pending-sent u off) ok.line;
  register = rw (pending-sent u off) ok.register;
}

update_interrupt-IsLatched : (u : Uart) → IsLatched (update_interrupt u)
unfolding update_interrupt
update_interrupt-IsLatched u =
    let u' = update_line (clear_tx (clear_rx u)) in
    if_cases IsLatched (any_bit u'.ier ier_thri) (λ on. update_line-IsLatched _)
      (λ off. sent-IsLatched u' off (update_line-IsLatched _))

-- The registers that the line does not depend on.
other-IsLatched :
    {u : Uart} {scr backoff : ℕ}
    → IsLatched u
    → IsLatched (record u { scr = scr; backoff_counter = backoff })
unfolding pending_interrupts
other-IsLatched ok = record { line = ok.line; register = ok.register }

read_register-IsLatched : (u : Uart) (r : ℕ) → IsLatched u → IsLatched (read_register u r).0
unfolding read_register
read_register-IsLatched u r ok =
    let P : Uart × Option ℕ → Type 0 = λ (out : Uart × Option ℕ). IsLatched out.0 in
    if_both P (r == 0) (update_interrupt-IsLatched _) (
      if_both P (r == 1) ok (
        if_both P (r == 2) ok (
          if_both P (r == 3) ok (
            if_both P (r == 4) ok
              (if_both P (r == 5) ok (if_both P (r == 6) ok (if_both P (r == 7) ok ok)))))))

write_register-IsLatched :
    (u : Uart) (r val : ℕ) → IsLatched u → IsLatched (write_register u r val).0
unfolding write_register
write_register-IsLatched u r val ok =
    let P : Uart × Bool → Type 0 = λ (out : Uart × Bool). IsLatched out.0 in
    if_both P (r == 0) (update_interrupt-IsLatched _) (
      if_both P (r == 1) (update_interrupt-IsLatched _) (
        if_both P (r == 2) (update_interrupt-IsLatched _) (
          if_both P (r == 3) (update_interrupt-IsLatched _) (
            if_both P (r == 4) (update_interrupt-IsLatched _) (
              if_both P (r == 5) ok
                (if_both P (r == 6) ok (if_both P (r == 7) (other-IsLatched ok) ok)))))))

tick-IsLatched : (u : Uart) (input : Option ℕ) → IsLatched u → IsLatched (tick u input)
unfolding tick
tick-IsLatched u none ok =
    if_both IsLatched (ignores_input u) ok
      (if_both IsLatched (backs_off u) (other-IsLatched ok) (other-IsLatched ok))
tick-IsLatched u (some rc) ok =
    if_both IsLatched (ignores_input u) ok
      (if_both IsLatched (backs_off u) (other-IsLatched ok) (update_interrupt-IsLatched _))

Step-IsLatched : {u v : Uart} → Step u v → IsLatched u → IsLatched v
unfolding load store
Step-IsLatched {u} (loads addr len) ok =
    if_both (λ (out : Uart × Option ℕ). IsLatched out.0) _ ok
      (read_register-IsLatched u (register_of u addr) ok)
Step-IsLatched {u} (stores addr len val) ok =
    if_both (λ (out : Uart × Bool). IsLatched out.0) _ ok
      (write_register-IsLatched u (register_of u addr) val ok)
Step-IsLatched {u} (ticks input) ok = tick-IsLatched u input ok

Reach-keeps : {u v : Uart} → Reach u v → IsLatched u → IsLatched v
Reach-keeps here ok = ok
Reach-keeps (next r s) ok = Step-IsLatched s (Reach-keeps r ok)

construct-IsLatched : (reg_shift width dlm : ℕ) → IsLatched (construct reg_shift width dlm)
unfolding construct pending_interrupts
construct-IsLatched reg_shift width dlm = record { line = refl; register = refl }

-- Received data is ready (bit 0 of the line status) and that interrupt is enabled (bit 0); the transmitter is
-- empty (bit 6) and that interrupt is enabled (bit 1).
abbrev pub tells_received : Uart → Bool
tells_received u = bit u.ier 0 == 1 && bit u.lsr 0 == 1

abbrev pub tells_sent : Uart → Bool
tells_sent u = bit u.ier 1 == 1 && bit u.lsr 6 == 1

abbrev told : Bool → Bool → ℕ
told received sent = (if received then 4 else 0) + (if sent then 2 else 0)

-- The line is high exactly if there is one of the two interrupts, and the identification register
-- holds 4 for the first and 2 for the second, and 1 where there is none.
pub record Signals (u : Uart) : Type 0 where
  pub line : u.level ≡ (if tells_received u || tells_sent u then 1 else 0)
  pub register :
      u.iir
      ≡ (if tells_received u || tells_sent u then told (tells_received u) (tells_sent u) else 1)

sum_lem : (r s : Bool) → bit_or (if r then iir_rdi else 0) (if s then iir_thri else 0) ≡ told r s
sum_lem true true = refl
sum_lem true false = refl
sum_lem false true = refl
sum_lem false false = refl

shown :
    (r s : Bool)
    → (let low : ℕ = 0 in (if told r s == 0 then low else 1) ≡ (if r || s then 1 else 0))
      × ((if told r s == 0 then iir_no_int else told r s) ≡ (if r || s then told r s else 1))
shown true true = (refl, refl)
shown true false = (refl, refl)
shown false true = (refl, refl)
shown false false = (refl, refl)

pending_lem : (u : Uart) → pending_interrupts u ≡ told (tells_received u) (tells_sent u)
unfolding pending_interrupts
pending_lem u =
    rw (any_bit_lem u.ier 0, any_bit_lem u.ier 1, any_bit_lem u.lsr 0, any_bit_lem u.lsr 6)
      (sum_lem (tells_received u) (tells_sent u))

latched-Signals : (u : Uart) → IsLatched u → Signals u
latched-Signals u ok =
    let (level, value) = shown (tells_received u) (tells_sent u) in
    record {
      line = ok.line ∙ rw (pending_lem u) level;
      register = ok.register ∙ rw (pending_lem u) value;
    }

-- In every state that a new port reaches by loads, stores and ticks, the interrupt line is high
-- exactly if received data is ready or the transmitter is empty and that interrupt is enabled, and
-- the identification register tells which of the two interrupts there are.
pub Reach-Signals :
    (reg_shift width dlm : ℕ) {u : Uart} → Reach (construct reg_shift width dlm) u → Signals u
Reach-Signals reg_shift width dlm {u} r =
    latched-Signals u (Reach-keeps r (construct-IsLatched reg_shift width dlm))

update_line-queue : (u : Uart) → (update_line u).rx_queue ≡ u.rx_queue
unfolding update_line
update_line-queue u =
    if_both (λ (v : Uart). v.rx_queue ≡ u.rx_queue) (pending_interrupts u == 0) refl refl

clear_tx-queue : (u : Uart) → (clear_tx u).rx_queue ≡ u.rx_queue
unfolding clear_tx
clear_tx-queue u =
    if_both (λ (v : Uart). v.rx_queue ≡ u.rx_queue) (any_bit u.lcr fcr_clear_xmit) refl refl

clear_rx-queue :
    (u : Uart) → (clear_rx u).rx_queue ≡ (if any_bit u.lcr fcr_clear_rcvr then [] else u.rx_queue)
unfolding clear_rx
clear_rx-queue u = elim (Bool-cases (any_bit u.lcr fcr_clear_rcvr)) [ inl t ↦ rw t | inr f ↦ rw f ]

update_interrupt-queue :
    (u : Uart)
    → (update_interrupt u).rx_queue ≡ (if any_bit u.lcr fcr_clear_rcvr then [] else u.rx_queue)
unfolding update_interrupt
update_interrupt-queue u =
    let u' = update_line (clear_tx (clear_rx u)) in
    if_both (λ (v : Uart). v.rx_queue ≡ u'.rx_queue) (any_bit u'.ier ier_thri) refl refl
    ∙ update_line-queue (clear_tx (clear_rx u))
    ∙ clear_tx-queue (clear_rx u)
    ∙ clear_rx-queue u

-- The receive queue is cleared by a write to the line control register with bit 1 set, as in the
-- common setting of eight data bits; a write to the FIFO control register with that bit, which asks
-- for the queue to be cleared, leaves it as it is while the bit is not in the line control register.
pub line_control_clears :
    (u : Uart) (val : ℕ)
    → any_bit u.lcr fcr_clear_rcvr ≡ false
    → any_bit val fcr_clear_rcvr ≡ true
    → ((write_register u 3 val).0.rx_queue ≡ [])
      × ((write_register u 2 val).0.rx_queue ≡ u.rx_queue)
unfolding write_register
line_control_clears u val off on = (
  update_interrupt-queue (record u { lcr = val }) ∙ rw on,
  update_interrupt-queue (record u { fcr = val }) ∙ rw off,
)
