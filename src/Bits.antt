-- ===== src/Bits.antt =====
-- Laws of `&`, `|` and `^` on words of every width. Each follows from one equation for the lowest
-- binary digit: such an operation works digit by digit, and so field by field.
mod Digits
mod Fields
pub mod Mask
pub use Digits.{bit_and_step, bit_or_step, bit_xor_step}
pub use Fields.*
