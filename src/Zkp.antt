-- ===== src/Zkp.antt =====
-- zirgen/compiler/zkp: the Poseidon2 hash of the proof system.
pub mod Constants
pub mod Poseidon2
mod Tests
