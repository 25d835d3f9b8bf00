-- ===== src/Rv32.antt =====
-- The RV32IM emulator of zirgen/circuit/rv32im/shared/rv32im.h.
pub mod Inst
pub mod Decode
pub mod Table
pub mod Context
pub mod Alu
pub mod Emulator
mod Tests
