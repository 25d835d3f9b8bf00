-- ===== src/BigInt.antt =====
-- zirgen/Dialect/BigInt/IR: big integers as polynomials of small coefficients, whose types bound the
-- coefficients.
pub mod Int
pub mod Types
pub mod ApInt
pub mod Poly
pub mod Carry
mod Tests
