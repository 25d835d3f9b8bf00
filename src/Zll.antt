-- ===== src/Zll.antt =====
-- zirgen/Dialect/Zll/IR/Field.h and Field.cpp: the fields of constant folding.
pub mod Field
pub mod Extension
pub mod Inverse
mod Tests
