-- ===== src/Clint/Tests.antt =====
-- Runs and instances for riscv/clint.cc: one hart whose timer is set and reached.
use spike_online.Clint.{
  Clint, elapsed, Hart, Timeval, construct, tick, tick_hart, tick_harts, sync, find_hart, load,
  load_reg, store, store_reg, write_msip,
}
use spike_online.Clint.Timer.{Timely, start_state, stores, ticks, Reach-Timely}
use spike_online.Devices.Mip.{backdoor_write_with_mask}
use spike_online.Devices.Endian.{read_little_endian_reg, write_little_endian_reg}
use spike_online.Base.{ℕ, ◌≡◌, refl, some, true, false, [], ◌∷◌}

abbrev hart : Hart
hart = record {
  mip = 0;
  hvip = 0;
  shadow_val = 0;
  sstc = false;
  stimecmp = 0;
  vstimecmp = 0;
  htimedelta = 0;
  menvcfg_stce = false;
  henvcfg_stce = false;
}

abbrev clock : ℕ → Timeval
clock i = record { tv_sec = 100; tv_usec = i }

abbrev started : Clint
started = construct clock ((3, hart) ∷ []) 1000000 false

abbrev waiting : Clint
waiting = (store clock started 0x4018 (5 ∷ 0 ∷ 0 ∷ 0 ∷ 0 ∷ 0 ∷ 0 ∷ 0 ∷ [])).0

abbrev due : Clint
due = tick clock waiting 5

timer_test :
    (find_hart waiting.harts 3 ≡ some hart)
    × (find_hart due.harts 3 ≡ some (record hart { mip = 0x80; shadow_val = 5 }))
unfolding construct store store_reg tick tick_harts tick_hart sync find_hart
    backdoor_write_with_mask write_little_endian_reg
timer_test = (refl, refl)

access_test :
    ((load clock due 0xbff8 2).1 ≡ some (5 ∷ 0 ∷ []))
    × (find_hart (store clock due 12 (1 ∷ [])).0.harts 3
        ≡ some (record hart { mip = 0x88; shadow_val = 5 }))
    × ((store clock due 0xc0000 (1 ∷ [])).1 ≡ false)
unfolding construct load load_reg store store_reg write_msip tick tick_harts tick_hart sync
    find_hart backdoor_write_with_mask write_little_endian_reg read_little_endian_reg
access_test = (refl, refl, refl)

real_time_test : (construct clock [] 1000000 true).mtime ≡ 1
unfolding construct tick elapsed
real_time_test = refl

Reach-Timely_example : Timely due
Reach-Timely_example =
    Reach-Timely clock ((3, hart) ∷ []) 1000000 false
      (ticks 5 (stores 0x4018 (5 ∷ 0 ∷ 0 ∷ 0 ∷ 0 ∷ 0 ∷ 0 ∷ 0 ∷ []) start_state))
