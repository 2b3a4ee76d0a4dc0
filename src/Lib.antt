-- ===== src/Lib.antt =====
-- A model of the simulator's hardware parts, and of the cache model that this fork adds.
--
-- A hart fetches instructions, whose fields riscv/decode.h takes apart; it computes with
-- riscv/arith.h, and before an instruction it looks for interrupts (riscv/processor.cc) that the
-- interrupt controller (riscv/plic.cc) and the timer (riscv/clint.cc) raise in its control registers.
-- The addresses of its accesses go through the page tables (riscv/mmu.cc), each access to memory is
-- checked against the protection entries (riscv/csrs.cc, riscv/mmu.cc), and it may be played through
-- the cache hierarchy (riscv/cache_hierarchy.cc) over the caches of riscv/cache_model.cc. What is not
-- in the host's memory goes over the bus (riscv/devices.cc) to a device: a memory, the two interrupt
-- sources above, or the serial port (riscv/ns16550.cc), which has a line into the controller. Custom
-- instructions (riscv/rocc.h) go to the matrix unit of nvr/buckyball, which programs in nvr/workload drive.
--
-- Base: names of the libraries, lists on native numbers, machine words, and their bits.
-- Arith: riscv/arith.h. Multiply has mulhu, mulh and mulhsu; Saturate has sat_add, sat_sub,
--   sat_addu and sat_subu at any width; Count has ctz, clz, cto, log2 and the bit fields; Permute
--   has popcount, xperm and the rotations.
-- Decode: riscv/decode.h. insn_t's accessors keep their names; x and xs are the private ones. RegFile
--   is regfile_t, and Field has the macros get_field and set_field. Opcodes has the encoders of
--   riscv/opcodes.h that the debug module writes its programs with; Layout, Encoded and Jump are about
--   their digits.
-- Devices: what devices share, the byte access to registers of riscv/devices.h (Endian) and the write
--   of pending interrupts of riscv/csrs.cc (Mip).
-- Plic: riscv/plic.cc, plic_t with its contexts. The harts' mip registers are a list in the state.
--   Registers has the register accesses, Access load and store; Pin is about the pins.
-- Clint: riscv/clint.cc, clint_t with the part of each hart that it drives, and the time register's
--   sync of riscv/csrs.cc. The readings of the host's clock are an argument.
-- Uart: riscv/ns16550.cc, ns16550_t. What the terminal has for a tick is an argument, the bytes that
--   are sent to it and the level of the interrupt line are fields.
-- Memory: mem_t of riscv/devices.cc. A page is a function from its offsets to its bytes.
-- Bus: bus_t of riscv/devices.cc over the interface AbstractDevice; Route attaches memories to it.
-- Walk: page tables of riscv/mmu.cc and riscv/mmu.h. Guest has s2xlate, Host has walk and translate;
--   Permission is about single entries, Permits about what the walk answers.
--   The memory that pte_load and pte_store reach is the interface Physical; exceptions are values.
-- Interrupt: take_interrupt, legalize_privilege and set_privilege of riscv/processor.cc. The values
--   that the code reads from control registers are fields of Hart; a thrown trap is a value.
-- Traps: take_trap of riscv/processor.cc. What it writes to control registers is a list of writes.
-- CacheSim: cache_sim_t of riscv/cachesim.cc, a list of caches of which each is the miss handler of
--   the one before it; Reach has the states that they can be in.
-- Buckyball: the matrix unit of nvr/buckyball, driven by custom instructions. Fields has the operands'
--   fields, State the storage and the memory that it reaches, Move and Multiply the instructions, and
--   Custom their dispatch. A run is a function from a state to a state and a result, which is a value or
--   the exception that stops it; Run has its invariant rules. Ram states what a move needs of memory.
-- Workload: the programs of nvr/workload for that unit. Encode has the packing of the operands,
--   Generator and Bsr the conversion of a matrix to blocks of sparse columns and the product on the
--   host, and Step the step of the main program that multiplies one block by a dense matrix.
-- Cache: riscv/cache_model.cc. Hierarchy: riscv/cache_hierarchy.cc. What rand returns is an argument.
--   Cache/Dirty, Cache/Written and Hierarchy/Dirty are about dirty lines.
-- Pmp: pmpaddr_csr_t of riscv/csrs.cc and pmp_ok of riscv/mmu.cc; Homogeneous has pmp_homogeneous.
--
-- A word of w bits is a number below 2 ^ w, and the wrap-around is written out. Loops over arrays,
-- words and the levels of page tables are structural recursion on the rounds that are left, which is
-- the bound of the source's loop. Some loops run on fuel: cto (64 rounds, since a word has 64 bits),
-- log2_uint32 (32 rounds), the loop for idx_shift (64 rounds), the accesses of
-- cachesim.cc (as many levels as caches), the loop over the entries of a sparse column (as many
-- rounds as entries, of which each takes one; Buckyball/Fuel is about it), and the loop of mem_t's
-- accesses (as many rounds as bytes, since a round copies at least one; the refinement of Memory
-- shows that this is enough).
-- An index outside an array, which the source leaves undefined, reads 0 and writes nothing.
--
-- Not modelled: printing, files, device trees and the text interfaces; the translation buffers and
-- their flush; failing allocation; softfloat and fdt, which are other projects' code; and, so far, the
-- instructions' semantics, the vector unit, control register writes, triggers and the debug module.
pub mod Base
pub mod Arith
pub mod Decode
pub mod Devices
pub mod Plic
pub mod Interrupt
pub mod Cache
pub mod Hierarchy
pub mod Pmp
pub mod Uart
pub mod Memory
pub mod Bus
pub mod Clint
pub mod Walk
pub mod CacheSim
pub mod Traps
pub mod Buckyball
pub mod Workload
