-- ===== src/Clint/Timer.antt =====
-- What the interruptor of riscv/clint.cc keeps up to date in the harts.
use spike_online.Clint.{
  Clint, Hart, Timeval, mip_mtip, find_hart, stip_value, stip_mask, sync, tick_hart, tick_harts,
  tick, construct, load, store_reg, store, is_split, load_one, load_second, store_one, store_done,
  store_second,
}
use spike_online.Devices.Mip.{bit-backdoor}
use spike_online.Base.{
  max, ℕ, ◌+◌, ◌^◌, ◌<◌, ◌≡◌, refl, sym, ◌∙◌, arith, bit, bit-bit_or, bit-two_pow, bit-zero, bit_or,
  bool_ℕ, Bool, true, false, ◌&&◌, ◌||◌, inl, inr, Bool-cases, ==_iff, if_both, Option, none, some,
  List, [], ◌∷◌, length, take, drop, if◌then◌else◌, ltb, leb, ◌==◌, u64,
}

bit-choose : (t : Bool) (k i : ℕ) → bit (if t then 2 ^ k else 0) i ≡ (if t && i == k then 1 else 0)
bit-choose true k i = bit-two_pow k i
bit-choose false k i = bit-zero i

-- The timer's bits of `mip` and the time register of a hart follow the time; the timers of the
-- supervisor do where they are enabled.
pub record Follows (hart : Hart) (time compare_at : ℕ) : Type 0 where
  pub machine_timer : bit hart.mip 7 ≡ bool_ℕ (leb compare_at time)
  pub time_register : hart.shadow_val ≡ time
  pub supervisor_timer :
      (hart.sstc && hart.menvcfg_stce) ≡ true → bit hart.mip 5 ≡ bool_ℕ (leb hart.stimecmp time)
  pub virtual_timer :
      (hart.sstc && hart.henvcfg_stce) ≡ true
      → bit hart.mip 6 ≡ bool_ℕ (leb hart.vstimecmp (u64 (time + hart.htimedelta)))

bit-choose_two :
    (t s : Bool) (i : ℕ)
    → bit (bit_or (if t then 2 ^ 5 else 0) (if s then 2 ^ 6 else 0)) i
      ≡ (if t && i == 5 || s && i == 6 then 1 else 0)
bit-choose_two t s i = bit-bit_or _ _ i ∙ rw (bit-choose t 5 i, bit-choose s 6 i) (cases t s)
  where
    cases :
        (t s : Bool)
        → max (if t && i == 5 then 1 else 0) (if s && i == 6 then 1 else 0)
          ≡ (if t && i == 5 || s && i == 6 then 1 else 0)
    cases true true = ground arith
    cases true false = ground arith
    cases false true = ground arith
    cases false false = refl

stip_mask-lt : (hart : Hart) → stip_mask hart < 2 ^ 64
unfolding stip_mask
stip_mask-lt hart = cases hart.menvcfg_stce hart.henvcfg_stce
  where
    cases : (t s : Bool) → bit_or (if t then 2 ^ 5 else 0) (if s then 2 ^ 6 else 0) < 2 ^ 64
    cases true true = omega arith
    cases true false = omega arith
    cases false true = omega arith
    cases false false = omega arith

-- What `sync` leaves in `mip`.
bit-sync :
    (hart : Hart) (time i : ℕ)
    → i < 64
    → bit (sync hart time).mip i ≡ (
        if hart.sstc && bit (stip_mask hart) i == 1
        then bit (stip_value hart time) i
        else bit hart.mip i)
unfolding sync stip_mask stip_value
bit-sync hart time i l = elim (Bool-cases hart.sstc) [
  | inl t ↦
      rw t (bit-backdoor hart.mip (stip_mask hart) (stip_value hart time) i (stip_mask-lt hart) l)
  | inr f ↦ rw f refl
]

-- What a tick leaves in `mip`.
bit-tick_hart :
    (hart : Hart) (time compare_at i : ℕ)
    → i < 64
    → bit (tick_hart hart time compare_at).mip i ≡ (
        if i == 7
        then bool_ℕ (leb compare_at time)
        else if hart.sstc && bit (stip_mask hart) i == 1
        then bit (stip_value hart time) i
        else bit hart.mip i)
unfolding tick_hart
bit-tick_hart hart time compare_at i l =
    bit-backdoor (sync hart time).mip mip_mtip _ i (omega arith) l
    ∙ rw (bit-two_pow 7 i, bit-choose (leb compare_at time) 7 i)
        (elim (Bool-cases (i == 7)) [
          | inl e ↦ rw e (cases (leb compare_at time))
          | inr n ↦ rw n (bit-sync hart time i l)
        ])
  where
    cases : (t : Bool) → (if t && true then 1 else 0) ≡ bool_ℕ t
    cases true = refl
    cases false = refl

timer_bit :
    (hart : Hart) (time compare_at i : ℕ)
    → i < 64
    → (i == 7) ≡ false
    → (hart.sstc && (hart.menvcfg_stce && i == 5 || hart.henvcfg_stce && i == 6)) ≡ true
    → bit (tick_hart hart time compare_at).mip i ≡ (
        if leb hart.stimecmp time && i == 5
          || leb hart.vstimecmp (u64 (time + hart.htimedelta)) && i == 6
        then 1
        else 0)
unfolding stip_mask stip_value
timer_bit hart time compare_at i l other h =
    let on = and_true hart.sstc (hart.menvcfg_stce && i == 5 || hart.henvcfg_stce && i == 6) h in
    bit-tick_hart hart time compare_at i l
    ∙ rw (other, on.0, bit-choose_two hart.menvcfg_stce hart.henvcfg_stce i, on.1)
        (bit-choose_two _ _ i)
  where
    and_true : (a b : Bool) → (a && b) ≡ true → (a ≡ true) × (b ≡ true)
    and_true true b e = (refl, e)
    and_true false b e = cc

tick_hart-Follows :
    (hart : Hart) (time compare_at : ℕ) → Follows (tick_hart hart time compare_at) time compare_at
unfolding tick_hart sync
tick_hart-Follows hart time compare_at = record {
  machine_timer = bit-tick_hart hart time compare_at 7 (omega arith);
  time_register = refl;
  supervisor_timer = λ h.
      timer_bit hart time compare_at 5 (omega arith) refl
        (five hart.sstc hart.menvcfg_stce hart.henvcfg_stce h)
      ∙ first (leb hart.stimecmp time) (leb hart.vstimecmp (u64 (time + hart.htimedelta)));
  virtual_timer = λ h.
      timer_bit hart time compare_at 6 (omega arith) refl
        (six hart.sstc hart.menvcfg_stce hart.henvcfg_stce h)
      ∙ second (leb hart.stimecmp time) (leb hart.vstimecmp (u64 (time + hart.htimedelta)));
}
  where
    first : (a b : Bool) → (if a && true || b && false then 1 else 0) ≡ bool_ℕ a
    first true b = refl
    first false true = refl
    first false false = refl

    second : (a b : Bool) → (if a && false || b && true then 1 else 0) ≡ bool_ℕ b
    second true true = refl
    second true false = refl
    second false true = refl
    second false false = refl

    five : (a b c : Bool) → (a && b) ≡ true → (a && (b && true || c && false)) ≡ true
    five true true c h = refl
    five true false c h = cc
    five false b c h = h

    six : (a b c : Bool) → (a && c) ≡ true → (a && (b && false || c && true)) ≡ true
    six true true true h = refl
    six true false true h = refl
    six true b false h = cc
    six false b c h = h

-- Every hart follows the time and its comparison value.
pub record Timely (c : Clint) : Type 0 where
  pub follows :
      (id : ℕ) (hart : Hart)
      → find_hart c.harts id ≡ some hart
      → Follows hart c.mtime (c.mtimecmp id)

tick_harts-follow :
    (harts : List (ℕ × Hart)) (time : ℕ) (mtimecmp : ℕ → ℕ) (id : ℕ) (hart : Hart)
    → find_hart (tick_harts harts time mtimecmp) id ≡ some hart
    → Follows hart time (mtimecmp id)
unfolding tick_harts find_hart
tick_harts-follow [] time mtimecmp id hart e = cc
tick_harts-follow ((k, other) ∷ harts) time mtimecmp id hart e = elim (Bool-cases (k == id)) [
  | inl t ↦
      let here : some (tick_hart other time (mtimecmp k)) ≡ some hart = sym (rw t refl) ∙ e in
      let same : tick_hart other time (mtimecmp k) ≡ hart = cc in
      let key = (==_iff k id).0 t in
      rw key at (rw same at (tick_hart-Follows other time (mtimecmp k)))
  | inr f ↦
      let later : find_hart (tick_harts harts time mtimecmp) id ≡ some hart = sym (rw f refl) ∙ e in
      tick_harts-follow harts time mtimecmp id hart later
]

module _ (clock : ℕ → Timeval) where
  tick-Timely : (c : Clint) (rtc_ticks : ℕ) → Timely (tick clock c rtc_ticks)
  unfolding tick
  tick-Timely c rtc_ticks = record { follows = tick_harts-follow c.harts _ c.mtimecmp }

  load_second-Timely :
      (out : Clint × Option (List ℕ)) (addr : ℕ)
      → Timely out.0
      → Timely (load_second clock out addr).0
  load_second-Timely (c, none) addr h = h
  load_second-Timely (c, some low) addr h = tick-Timely c 0

  load-Timely : (c : Clint) (addr len : ℕ) → Timely c → Timely (load clock c addr len).0
  unfolding load
  load-Timely c addr len h =
      if_both (λ (out : Clint × Option (List ℕ)). Timely out.0) (ltb 8 len) h
        (if_both (λ (out : Clint × Option (List ℕ)). Timely out.0) (is_split addr len)
          (load_second-Timely (load_one clock (tick clock c 0) addr 4) (addr + 4)
            (tick-Timely (tick clock c 0) 0))
          (tick-Timely c 0))

  store_done-Timely :
      (c : Clint) (done : Option Clint) → Timely c → Timely (store_done clock c done).0
  store_done-Timely c none h = h
  store_done-Timely c (some c') h = tick-Timely c' 0

  store_one-Timely :
      (c : Clint) (addr : ℕ) (bytes : List ℕ) → Timely c → Timely (store_one clock c addr bytes).0
  store_one-Timely c addr bytes h = store_done-Timely c (store_reg c addr bytes) h

  store_second-Timely :
      (out : Clint × Bool) (addr : ℕ) (bytes : List ℕ)
      → Timely out.0
      → Timely (store_second clock out addr bytes).0
  store_second-Timely (c, false) addr bytes h = h
  store_second-Timely (c, true) addr bytes h = store_one-Timely c addr bytes h

  store-Timely :
      (c : Clint) (addr : ℕ) (bytes : List ℕ) → Timely c → Timely (store clock c addr bytes).0
  unfolding store
  store-Timely c addr bytes h =
      if_both (λ (out : Clint × Bool). Timely out.0) (ltb 8 (length bytes)) h
        (if_both (λ (out : Clint × Bool). Timely out.0) (is_split addr (length bytes))
          (store_second-Timely (store_one clock c addr (take 4 bytes)) (addr + 4) (drop 4 bytes)
            (store_one-Timely c addr (take 4 bytes) h))
          (store_one-Timely c addr bytes h))

  -- The states that accesses and ticks lead to.
  pub data Reach (start : Clint) : Clint → Type 0 where
    start_state : Reach start start
    loads : {c : Clint} (addr len : ℕ) → Reach start c → Reach start (load clock c addr len).0
    stores :
        {c : Clint} (addr : ℕ) (bytes : List ℕ)
        → Reach start c
        → Reach start (store clock c addr bytes).0
    ticks : {c : Clint} (rtc_ticks : ℕ) → Reach start c → Reach start (tick clock c rtc_ticks)

  -- In every state that accesses and ticks lead to from the constructor's, accepted or refused, each
  -- hart's machine timer interrupt is pending exactly if its comparison value is at or below the
  -- time, its time register shows the time, and so for the timers of the supervisor where they are
  -- enabled.
  pub Reach-Timely :
      (harts : List (ℕ × Hart)) (freq_hz : ℕ) (real_time : Bool) {c : Clint}
      → Reach (construct clock harts freq_hz real_time) c
      → Timely c
  unfolding construct
  Reach-Timely harts freq_hz real_time start_state = tick-Timely _ 0
  Reach-Timely harts freq_hz real_time (loads {c} addr len r) =
      load-Timely c addr len (Reach-Timely harts freq_hz real_time r)
  Reach-Timely harts freq_hz real_time (stores {c} addr bytes r) =
      store-Timely c addr bytes (Reach-Timely harts freq_hz real_time r)
  Reach-Timely harts freq_hz real_time (ticks {c} rtc_ticks r) = tick-Timely c rtc_ticks
