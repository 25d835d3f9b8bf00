-- ===== src/Parser.antt =====
-- zirgen/dsl/parser.h and zirgen/dsl/parser.cpp: the parser of the Zirgen language.
pub mod Source
pub mod Precedence
pub mod Expression
pub mod Descent
pub mod Declaration
pub mod Instance
pub mod Grammar
mod Tests
