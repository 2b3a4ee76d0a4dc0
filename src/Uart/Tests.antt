-- ===== src/Uart/Tests.antt =====
-- Runs and instances for riscv/ns16550.cc: a port in loopback mode that receives a byte.
use spike_online.Uart.{
  Uart, construct, clear_rx, clear_tx, pending_interrupts, update_line, update_interrupt, rx_pop,
  rx_byte, read_rx, tx_byte, push_rx, write_tx, write_ier, read_register, write_register, load,
  store, register_of, fcr_clear_rcvr,
}
use spike_online.Uart.Queue.{IsReady, Reach, here, next, stores, Reach-IsReady}
use spike_online.Uart.Signal.{Signals, Reach-Signals, line_control_clears}
use spike_online.Base.{◌≡◌, refl, some, none, false, [], ◌∷◌, any_bit}

abbrev port : Uart
port = construct 0 1 0

abbrev looped : Uart
looped = (store (store (store port 4 1 0x18).0 1 1 0x01).0 0 1 0x41).0

loopback_test :
    (looped.rx_queue ≡ 0x41 ∷ [])
    × (looped.level ≡ 1)
    × ((load looped 0 1).1 ≡ some 0x41)
    × ((load looped 0 1).0.level ≡ 0)
    × ((load looped 0 2).1 ≡ none)
unfolding load store read_register write_register update_interrupt update_line clear_tx clear_rx
    read_rx rx_byte rx_pop tx_byte push_rx write_tx write_ier pending_interrupts register_of
    construct
loopback_test = (refl, refl, refl, refl, refl)

received : Reach port looped
received = next (next (next here (stores 4 1 0x18)) (stores 1 1 0x01)) (stores 0 1 0x41)

Reach-IsReady_example : IsReady looped
Reach-IsReady_example = Reach-IsReady 0 1 0 received

Reach-Signals_example : Signals looped
Reach-Signals_example = Reach-Signals 0 1 0 received

no_line_control : any_bit looped.lcr fcr_clear_rcvr ≡ false
unfolding store write_register update_interrupt update_line clear_tx clear_rx push_rx write_tx
    write_ier pending_interrupts register_of construct
no_line_control = refl

line_control_clears_example :
    ((write_register looped 3 0x03).0.rx_queue ≡ [])
    × ((write_register looped 2 0x03).0.rx_queue ≡ looped.rx_queue)
line_control_clears_example = line_control_clears looped 0x03 no_line_control refl
