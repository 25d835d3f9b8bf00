-- ===== src/Lexer.antt =====
-- zirgen/dsl/lexer.h and zirgen/dsl/lexer.cpp: the lexer of the Zirgen language.
pub mod Token
pub mod Reader
pub mod State
pub mod Skip
pub mod Scan
pub mod Take
mod Tests
