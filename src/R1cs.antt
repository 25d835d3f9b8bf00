-- ===== src/R1cs.antt =====
-- The readers of circom's binary files: zirgen/compiler/r1cs, r1csfile.cpp for constraint systems and
-- wtnsfile.cpp for witnesses. What the two files write out alike is modelled once.
pub mod Stream
pub mod Index
pub mod Format
pub mod System
pub mod Witness
mod Tests
