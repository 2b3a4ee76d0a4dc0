-- ===== src/Clint.antt =====
-- riscv/clint.cc: the core-local interruptor, the timer and the software interrupts of the harts.
-- Readings of the clock of the host are arguments; the state counts how many were taken.
pub mod Timer
mod Tests
use spike_online.Devices.Endian.{read_little_endian_reg, write_little_endian_reg}
use spike_online.Devices.Mip.{backdoor_write_with_mask}
use spike_online.Base.{
  ℕ, zero, suc, ◌+◌, ◌-◌, ◌*◌, ◌/◌, ◌%◌, ◌^◌, bit_or, bool_ℕ, Bool, true, false, not, ◌&&◌, ◌||◌,
  Option, none, some, List, [], ◌∷◌, ◌++◌, length, replicate, take, drop, if◌then◌else◌, ltb, leb,
  ◌==◌, any_bit, u64, sub,
}

abbrev pub mip_msip : ℕ
mip_msip = 2 ^ 3

abbrev pub mip_mtip : ℕ
mip_mtip = 2 ^ 7

abbrev pub mip_stip : ℕ
mip_stip = 2 ^ 5

abbrev pub mip_vstip : ℕ
mip_vstip = 2 ^ 6

abbrev pub msip_base : ℕ
msip_base = 0x0

abbrev pub mtimecmp_base : ℕ
mtimecmp_base = 0x4000

abbrev pub mtime_base : ℕ
mtime_base = 0xbff8

abbrev pub clint_size : ℕ
clint_size = 0x000c0000

-- What the device and the time register use of a hart: `mip` and `hvip`, the time register's
-- shadow, and the values that its timer comparison reads.
pub record Hart : Type 0 where
  pub mip : ℕ
  pub hvip : ℕ
  pub shadow_val : ℕ
  pub sstc : Bool
  pub stimecmp : ℕ
  pub vstimecmp : ℕ
  pub htimedelta : ℕ
  pub menvcfg_stce : Bool
  pub henvcfg_stce : Bool

-- A reading of `gettimeofday`.
pub record Timeval : Type 0 where
  pub tv_sec : ℕ
  pub tv_usec : ℕ

-- `clint_t`, with the harts of the simulator. A missing key of `mtimecmp` has the value 0.
pub record Clint : Type 0 where
  pub harts : List (ℕ × Hart)
  pub freq_hz : ℕ
  pub real_time : Bool
  pub real_time_ref_secs : ℕ
  pub real_time_ref_usecs : ℕ
  pub mtime : ℕ
  pub mtimecmp : ℕ → ℕ
  pub readings : ℕ

pub find_hart : List (ℕ × Hart) → ℕ → Option Hart
find_hart [] id = none
find_hart ((k, hart) ∷ harts) id = if k == id then some hart else find_hart harts id

-- `time_counter_csr_t::sync` (riscv/csrs.cc).
pub stip_value : Hart → ℕ → ℕ
stip_value hart time =
    bit_or (if leb hart.stimecmp time then mip_stip else 0)
      (if leb hart.vstimecmp (u64 (time + hart.htimedelta)) then mip_vstip else 0)

pub stip_mask : Hart → ℕ
stip_mask hart =
    bit_or (if hart.menvcfg_stce then mip_stip else 0) (if hart.henvcfg_stce then mip_vstip else 0)

pub sync : Hart → ℕ → Hart
sync hart time = record hart {
  shadow_val = time;
  mip =
      if hart.sstc
      then backdoor_write_with_mask hart.mip (stip_mask hart) (stip_value hart time)
      else hart.mip;
}

-- A hart's turn of the loop of `tick`.
pub tick_hart : Hart → ℕ → ℕ → Hart
tick_hart hart time compare_at =
    let hart' = sync hart time in
    record hart' {
      mip =
          backdoor_write_with_mask hart'.mip mip_mtip (if leb compare_at time then mip_mtip else 0);
    }

pub tick_harts : List (ℕ × Hart) → ℕ → (ℕ → ℕ) → List (ℕ × Hart)
tick_harts [] time mtimecmp = []
tick_harts ((id, hart) ∷ harts) time mtimecmp =
    (id, tick_hart hart time (mtimecmp id)) ∷ tick_harts harts time mtimecmp

pub elapsed : Clint → Timeval → ℕ
elapsed c now = u64 (
    u64 (sub 64 now.tv_sec c.real_time_ref_secs * 1000000)
    + sub 64 now.tv_usec c.real_time_ref_usecs)

abbrev pub msip_of : Option Hart → ℕ
msip_of none = 0
msip_of (some hart) = bool_ℕ (any_bit (bit_or hart.mip hart.hvip) mip_msip)

abbrev pub mtimecmp_of : Option Hart → ℕ → ℕ
mtimecmp_of none value = 0
mtimecmp_of (some hart) value = value

-- `load` after its call of `tick`, of an access that is not split.
pub load_reg : Clint → ℕ → ℕ → Option (List ℕ)
load_reg c addr len =
    if leb msip_base addr && ltb addr mtimecmp_base
    then some
        (read_little_endian_reg 4 (msip_of (find_hart c.harts ((addr - msip_base) / 4))) addr len)
    else if leb mtimecmp_base addr && ltb addr mtime_base
    then (let hart_id = (addr - mtimecmp_base) / 8 in
        some (
          read_little_endian_reg 8 (mtimecmp_of (find_hart c.harts hart_id) (c.mtimecmp hart_id))
            addr len))
    else if leb mtime_base addr && ltb addr (mtime_base + 8)
    then some (read_little_endian_reg 8 c.mtime addr len)
    else if leb (u64 (addr + len)) clint_size
    then some (replicate len 0)
    else none

abbrev pub is_split : ℕ → ℕ → Bool
is_split addr len = leb msip_base addr && ltb addr mtimecmp_base && len == 8

pub write_msip : List (ℕ × Hart) → ℕ → ℕ → List (ℕ × Hart)
write_msip [] id msip = []
write_msip ((k, hart) ∷ harts) id msip =
    if k == id
    then (
      k,
      record hart {
        mip = backdoor_write_with_mask hart.mip mip_msip (if any_bit msip 1 then mip_msip else 0);
      },
    )
      ∷ harts
    else (k, hart) ∷ write_msip harts id msip

abbrev pub is_some : Option Hart → Bool
is_some none = false
is_some (some hart) = true

abbrev pub update : (ℕ → ℕ) → ℕ → ℕ → ℕ → ℕ
update f k v id = if k == id then v else f id

-- `store` up to its call of `tick`, of an access that is not split; none where it is refused.
pub store_reg : Clint → ℕ → List ℕ → Option Clint
store_reg c addr bytes =
    if leb msip_base addr && ltb addr mtimecmp_base
    then (if addr % 4 == 0
        then some (record c {
          harts =
              write_msip c.harts ((addr - msip_base) / 4) (write_little_endian_reg 4 0 addr bytes);
        })
        else some c)
    else if leb mtimecmp_base addr && ltb addr mtime_base
    then (let hart_id = (addr - mtimecmp_base) / 8 in
        if is_some (find_hart c.harts hart_id)
        then some (record c {
          mtimecmp =
              update c.mtimecmp hart_id (write_little_endian_reg 8 (c.mtimecmp hart_id) addr bytes);
        })
        else some c)
    else if leb mtime_base addr && ltb addr (mtime_base + 8)
    then some (record c { mtime = write_little_endian_reg 8 c.mtime addr bytes })
    else if leb (u64 (addr + length bytes)) clint_size
    then some c
    else none

module _ (clock : ℕ → Timeval) where
  pub tick : Clint → ℕ → Clint
  tick c rtc_ticks =
      let time =
        if c.real_time
        then u64 (elapsed c (clock c.readings) * c.freq_hz) / 1000000
        else u64 (c.mtime + rtc_ticks) in
      record c {
        mtime = time;
        harts = tick_harts c.harts time c.mtimecmp;
        readings = c.readings + bool_ℕ c.real_time;
      }

  pub construct : List (ℕ × Hart) → ℕ → Bool → Clint
  construct harts freq_hz real_time =
      tick
        (record {
          harts = harts;
          freq_hz = freq_hz;
          real_time = real_time;
          real_time_ref_secs = (clock 0).tv_sec;
          real_time_ref_usecs = (clock 0).tv_usec;
          mtime = 0;
          mtimecmp = λ id. 0;
          readings = 1;
        })
        0

  abbrev pub load_one : Clint → ℕ → ℕ → Clint × Option (List ℕ)
  load_one c addr len = let c' = tick c 0 in (c', load_reg c' addr len)

  -- `load(addr, 4, bytes) && load(addr + 4, 4, bytes + 4)`
  abbrev pub load_second : Clint × Option (List ℕ) → ℕ → Clint × Option (List ℕ)
  load_second (c, none) addr = (c, none)
  load_second (c, some low) addr =
      let high = load_one c addr 4 in
      (high.0, elim high.1 [ none ↦ none | some bytes ↦ some (low ++ bytes) ])

  pub load : Clint → ℕ → ℕ → Clint × Option (List ℕ)
  load c addr len =
      if ltb 8 len
      then (c, none)
      else if is_split addr len
      then load_second (load_one (tick c 0) addr 4) (addr + 4)
      else load_one c addr len

  -- The end of `store`: a tick unless the access was refused.
  abbrev pub store_done : Clint → Option Clint → Clint × Bool
  store_done c none = (c, false)
  store_done c (some c') = (tick c' 0, true)

  abbrev pub store_one : Clint → ℕ → List ℕ → Clint × Bool
  store_one c addr bytes = store_done c (store_reg c addr bytes)

  abbrev pub store_second : Clint × Bool → ℕ → List ℕ → Clint × Bool
  store_second (c, false) addr bytes = (c, false)
  store_second (c, true) addr bytes = store_one c addr bytes

  pub store : Clint → ℕ → List ℕ → Clint × Bool
  store c addr bytes =
      if ltb 8 (length bytes)
      then (c, false)
      else if is_split addr (length bytes)
      then store_second (store_one c addr (take 4 bytes)) (addr + 4) (drop 4 bytes)
      else store_one c addr bytes
