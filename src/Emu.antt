-- ===== src/Emu.antt =====
-- zirgen/circuit/rv32im/v2/emu: the memory image of the version 2 emulator, and its paging.
pub mod Image
pub mod Paging
mod Tests
