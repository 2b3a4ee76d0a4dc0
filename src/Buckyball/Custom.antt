-- ===== src/Buckyball/Custom.antt =====
-- The custom instructions of nvr/buckyball/bucykball.cc (`buckyball_custom` and `custom3`), with the
-- fields of `rocc_insn_t` of riscv/rocc.h. The log of register writes is left out.
use spike_online.Base.{ℕ, ◌+◌, ◌-◌, ◌^◌, Bool, true, not, List, if◌then◌else◌, ◌==◌, u64}
use spike_online.Decode.{x, rd, rs1, rs2}
use spike_online.Decode.RegFile
use spike_online.Buckyball.Run.{Run, ◌>>=◌, ◌>>◌, pure, modify, throw, illegal_instruction}
use spike_online.Buckyball.State.{Mmu, Machine, Buckyball, reset}
use spike_online.Buckyball.Move.{mvin, mvout, scatter_mvin}
use spike_online.Buckyball.Multiply.{mul_warp16, sparse_mul}

abbrev pub mvin_funct : ℕ
mvin_funct = 24

abbrev pub mvout_funct : ℕ
mvout_funct = 25

abbrev pub mul_funct : ℕ
mul_funct = 32

abbrev pub sparse_mul_funct : ℕ
sparse_mul_funct = 33

abbrev pub scatter_mvin_funct : ℕ
scatter_mvin_funct = 34

abbrev pub flush_funct : ℕ
flush_funct = 7

-- The fields of `rocc_insn_t` that the code reads; `rd`, `rs1` and `rs2` are where `insn_t` has them.
pub xs2_bit : ℕ → Bool
xs2_bit insn = x insn 12 1 == 1

pub xs1_bit : ℕ → Bool
xs1_bit insn = x insn 13 1 == 1

pub xd_bit : ℕ → Bool
xd_bit insn = x insn 14 1 == 1

pub funct : ℕ → ℕ
funct insn = x insn 25 7

abbrev pub reset_if_needed : Buckyball → Buckyball
reset_if_needed b = if not b.resetted then reset b else b

module _ {Mem : Type 0} (mmu : Mmu Mem) where
  unfoldable pub dispatch : ℕ → ℕ → ℕ → Run (Machine Mem) (Unit {0})
  dispatch f xs1 xs2 =
      if f == mvin_funct
      then mvin mmu xs1 xs2
      else if f == mvout_funct
      then mvout mmu xs1 xs2
      else if f == mul_funct
      then mul_warp16 xs1 xs2
      else if f == scatter_mvin_funct
      then scatter_mvin mmu xs1 xs2
      else if f == sparse_mul_funct
      then sparse_mul xs1 xs2
      else if f == flush_funct
      then pure tt
      else throw illegal_instruction

  -- `CUSTOMFN(XCUSTOM_ACC)`
  unfoldable pub custom3 : ℕ → ℕ → ℕ → Run (Machine Mem) ℕ
  custom3 f xs1 xs2 = do
    modify (λ s. record s { buckyball = reset_if_needed s.buckyball })
    dispatch f xs1 xs2
    pure 0

  abbrev pub operand : Bool → List ℕ → ℕ → ℕ
  operand used xpr reg = if used then RegFile.read 0 xpr reg else 2 ^ 64 - 1

  -- The registers after the instruction, and the next address.
  unfoldable pub buckyball_custom : List ℕ → ℕ → ℕ → Run (Machine Mem) (List ℕ × ℕ)
  buckyball_custom xpr insn pc = do
    xd ←
        custom3 (funct insn) (operand (xs1_bit insn) xpr (rs1 insn))
          (operand (xs2_bit insn) xpr (rs2 insn))
    pure (if xd_bit insn then RegFile.write true xpr (rd insn) xd else xpr, u64 (pc + 4))
