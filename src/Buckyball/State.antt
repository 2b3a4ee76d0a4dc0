-- ===== src/Buckyball/State.antt =====
-- The state of nvr/buckyball/bucykball.cc (`buckyball_state_t`) with the memory that it reaches, and
-- the accesses to both. An `elem_t` is an 8-bit pattern, an `int32_t` a 32-bit pattern.
use spike_online.Base.{
  ℕ, zero, suc, ◌+◌, ◌*◌, Bool, true, false, Option, none, some, List, [], set, replicate, bit_or,
  bit_and, wrap, ◌<<<◌, ◌>>>◌,
}
use spike_online.Buckyball.Fields.{dim, bank_rows, sp_matrices}
use spike_online.Buckyball.Run.{
  Run, Result, done, stopped, fault, ◌>>=◌, pure, read, modify, at, for,
}

-- `load<uint8_t>` and `store<uint8_t>` of the hart's `mmu_t`; none and false where it raises an
-- exception.
pub record Mmu (Mem : Type 0) : Type 0 where
  pub load : Mem → ℕ → Mem × Option ℕ
  pub store : Mem → ℕ → ℕ → Mem × Bool

pub record Buckyball : Type 0 where
  pub enable : Bool
  pub resetted : Bool
  pub spad : List (List ℕ)
  pub rf : List (List ℕ)

-- `resetted` is the initial value of the struct; what the constructor leaves indeterminate is a
-- parameter.
unfoldable pub initial : Bool → Buckyball
initial enable = record { enable = enable; resetted = false; spad = []; rf = [] }

unfoldable pub reset : Buckyball → Buckyball
reset b = record {
  enable = true;
  resetted = true;
  spad = replicate (sp_matrices * dim) (replicate dim 0);
  rf = replicate 2 (replicate bank_rows 0);
}

pub record Machine (Mem : Type 0) : Type 0 where
  pub buckyball : Buckyball
  pub mem : Mem

module _ {Mem : Type 0} where
  -- `spad.at(r).at(c)`, and a write to it.
  unfoldable pub spad_at : ℕ → ℕ → Run (Machine Mem) ℕ
  spad_at r c = do spad ← read (λ s. s.buckyball.spad); row ← at spad r; at row c

  abbrev pub with_spad : Machine Mem → List (List ℕ) → Machine Mem
  with_spad s spad = record s { buckyball = record s.buckyball { spad = spad } }

  unfoldable pub set_spad : ℕ → ℕ → ℕ → Run (Machine Mem) (Unit {0})
  set_spad r c value = do
    spad ← read (λ s. s.buckyball.spad)
    row ← at spad r
    old ← at row c
    modify (λ s. with_spad s (set spad r (set row c value)))

  unfoldable pub set_rf : ℕ → ℕ → ℕ → Run (Machine Mem) (Unit {0})
  set_rf bank i value = do
    rf ← read (λ s. s.buckyball.rf)
    regs ← at rf bank
    old ← at regs i
    modify
        (λ s. record s { buckyball = record s.buckyball { rf = set rf bank (set regs i value) } })

module _ {Mem : Type 0} where
  abbrev pub loaded : Machine Mem → Mem × Option ℕ → Machine Mem × Result ℕ
  loaded s (mem, some byte) = (record s { mem = mem }, done byte)
  loaded s (mem, none) = (record s { mem = mem }, stopped fault)

  abbrev pub stored : Machine Mem → Mem × Bool → Machine Mem × Result (Unit {0})
  stored s (mem, true) = (record s { mem = mem }, done tt)
  stored s (mem, false) = (record s { mem = mem }, stopped fault)

module _ {Mem : Type 0} (mmu : Mmu Mem) where
  unfoldable pub load_byte : ℕ → Run (Machine Mem) ℕ
  load_byte addr s = loaded s (mmu.load s.mem addr)

  unfoldable pub store_byte : ℕ → ℕ → Run (Machine Mem) (Unit {0})
  store_byte addr byte s = stored s (mmu.store s.mem addr byte)

  -- The rest of the loop of `read_from_dram<T>` with `n` bytes to go, for a T of `w` bits.
  unfoldable pub read_bytes : ℕ → ℕ → ℕ → ℕ → ℕ → Run (Machine Mem) ℕ
  read_bytes w addr zero byte_idx value = pure value
  read_bytes w addr (suc n) byte_idx value = do
    byte ← load_byte (addr + byte_idx)
    read_bytes w addr n (suc byte_idx) (wrap w (bit_or value (byte <<< (byte_idx * 8))))

  unfoldable pub read_from_dram : ℕ → ℕ → Run (Machine Mem) ℕ
  read_from_dram size addr = read_bytes (size * 8) addr size 0 0

  unfoldable pub write_to_dram : ℕ → ℕ → ℕ → Run (Machine Mem) (Unit {0})
  write_to_dram size addr value =
      for size 0
        (λ byte_idx. store_byte (addr + byte_idx) (bit_and (value >>> (byte_idx * 8)) 0xFF))
