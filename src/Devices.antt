-- ===== src/Devices.antt =====
-- What the memory-mapped devices of riscv/devices.h share.
pub mod Endian
pub mod Mip
