-- ===== src/Buckyball/Fixture.antt =====
-- A small state of nvr/buckyball/bucykball.cc that the instances use: a scratchpad of 40 rows and a memory
-- that is a function.
use spike_online.Base.{
  ℕ, zero, suc, get_or, ◌^◌, ◌%◌, ◌<◌, refl, arith, true, some, List, [], ◌∷◌, replicate,
  if◌then◌else◌, if_both, ◌==◌,
}
use spike_online.Buckyball.Scatter.{ShowsWords}
use spike_online.Buckyball.Fields.{bank_rows, dim}
use spike_online.Buckyball.State.{Mmu, Machine, Buckyball}
use spike_online.Buckyball.Cells.{IsShaped, put_cell, put_cell-IsTable, cell}
use spike_online.Buckyball.Shows.{Shows}
use spike_online.Buckyball.Ram.{Ram, Has}
use spike_online.Buckyball.Kept.{replicate-IsTable}

-- Row 16 has a 3 in its first column, and the matrix at row 0 a 5 in its first row.
abbrev pub pad : List (List ℕ)
pad = put_cell (put_cell (replicate 40 (replicate dim 0)) 16 0 3) 0 2 5

pub pad-IsShaped : IsShaped 40 pad
pad-IsShaped =
    put_cell-IsTable (put_cell (replicate 40 (replicate dim 0)) 16 0 3) 0 2 5
      (put_cell-IsTable (replicate 40 (replicate dim 0)) 16 0 3
        (replicate-IsTable 40 dim (2 ^ 8) (omega arith)) (omega arith) (omega arith) (omega arith))
      (omega arith) (omega arith) (omega arith)

-- One entry, 3, in row 1 of column 0.
abbrev pub indices : List (List ℕ)
indices = (1 ∷ []) ∷ (0 ∷ replicate 16 1) ∷ []

abbrev pub unit : Buckyball
unit = record { enable = true; resetted = true; spad = pad; rf = indices }

abbrev pub Bytes : Type 0
Bytes = ℕ → ℕ

abbrev pub flat : Mmu Bytes
flat = record {
  load = λ m a. (m, some (m a));
  store = λ m a v. ((λ x. if a == x then v else m x), true);
}

abbrev pub blank : Bytes
blank a = 0

abbrev pub machine : Machine Bytes
machine = record { buckyball = unit; mem = blank }

abbrev pub flat_ram : Ram flat
flat_ram = record {
  Good = λ m. (a : ℕ) → m a < 2 ^ 8;
  view = λ m a. m a;
  base = 0;
  size = 2 ^ 20;
  byte = λ m a good. good a;
  load_answers = λ m a good lo hi. (m, refl, good, λ x. refl);
  store_writes = λ m a v good lo hi small.
      (_, refl, (λ x. if_both (λ b. b < 2 ^ 8) (a == x) small (good x)), λ x. refl);
}

pub machine-Shows : Shows 40 indices (Has flat_ram blank) (cell pad) machine
machine-Shows = record {
  same_rf = refl;
  holds = ((λ a. omega arith), λ a. refl);
  shape = pad-IsShaped;
  cells = λ r c. refl;
}

ones_small : (n k : ℕ) → get_or (replicate n 1) k 0 < 2 ^ 32
ones_small zero k = omega arith
ones_small (suc n) zero = omega arith
ones_small (suc n) (suc k) = ones_small n k

pub pointers_small : (k : ℕ) → get_or (0 ∷ replicate 16 1) k 0 < 2 ^ 32
pointers_small zero = omega arith
pointers_small (suc k) = ones_small 16 k

-- Two empty register banks and a memory that counts.
abbrev pub banks : List (List ℕ)
banks = replicate 2 (replicate bank_rows 0)

abbrev pub counting : Bytes
counting a = a % 2 ^ 8

abbrev pub counting_machine : Machine Bytes
counting_machine = record {
  buckyball = record { enable = true; resetted = true; spad = pad; rf = banks };
  mem = counting;
}

pub counting_machine-ShowsWords :
    ShowsWords pad (Has flat_ram counting) (cell banks) counting_machine
counting_machine-ShowsWords = record {
  same_spad = refl;
  holds = ((λ a. omega arith), λ a. refl);
  shape = replicate-IsTable 2 bank_rows (2 ^ 32) (omega arith);
  words = λ bank i. refl;
}
