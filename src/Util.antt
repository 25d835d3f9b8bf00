-- ===== src/Util.antt =====
-- risc0/core/util.h and util.cpp: the small arithmetic of the core.
pub mod Laws
mod Tests
use zirgen.Prelude.{
  ℕ, zero, suc, ◌+◌, ◌-◌, ◌*◌, ◌/◌, ◌%◌, ◌^◌, ltb, ◌==◌, ◌&&◌, not, if◌then◌else◌, Bool, true,
  false, Option, none, some,
}
use zirgen.Word.{sub32}
use zirgen.Word.Signed.{int32, pos, ltb_ℤ}

abbrev u64 : ℕ → ℕ
u64 n = n % 2 ^ 64

-- `size_t` has 64 bits. A divisor of 0, undefined in C++, gives 0 here.
unfoldable pub ceil_div : ℕ → ℕ → ℕ
ceil_div a b = u64 (a + u64 (b + 2 ^ 64 - 1)) / b

unfoldable pub round_up : ℕ → ℕ → ℕ
unfolding ceil_div
round_up a b = u64 (ceil_div a b * b)

-- `while (r < in)`: `none` when the rounds are used up.
unfoldable pub po_x_from : ℕ → ℕ → ℕ → ℕ → Option ℕ
po_x_from zero r n x = none
po_x_from (suc fuel) r n x =
    let rest = po_x_from fuel (u64 (r * x)) n x in if ltb r n then rest else some r

unfoldable pub nearest_po_x : ℕ → ℕ → ℕ → Option ℕ
unfolding po_x_from
nearest_po_x fuel n x = po_x_from fuel 1 n x

unfoldable pub nearest_po2 : ℕ → ℕ → Option ℕ
unfolding po_x_from
nearest_po2 fuel n = po_x_from fuel 1 n 2

-- `while (c < in)`, with the count of the rounds.
unfoldable pub log_x_from : ℕ → ℕ → ℕ → ℕ → ℕ → Option ℕ
log_x_from zero r c n x = none
log_x_from (suc fuel) r c n x =
    let rest = log_x_from fuel (suc r) (u64 (c * x)) n x in if ltb c n then rest else some r

unfoldable pub log_x_ceil : ℕ → ℕ → ℕ → Option ℕ
unfolding log_x_from
log_x_ceil fuel n x = log_x_from fuel 0 1 n x

-- `while ((size_t(1) << r) < in)`; a shift by 64 is undefined, and ends the loop here.
unfoldable pub log2_ceil_from : ℕ → ℕ → ℕ → ℕ
log2_ceil_from zero r n = r
log2_ceil_from (suc fuel) r n =
    let rest = log2_ceil_from fuel (suc r) n in if ltb (2 ^ r) n then rest else r

unfoldable pub log2_ceil : ℕ → ℕ
unfolding log2_ceil_from
log2_ceil n = log2_ceil_from 64 0 n

unfoldable pub is_po2 : ℕ → Bool
unfolding log2_ceil
is_po2 n = u64 (2 ^ log2_ceil n) == n

-- `-n - onesComp`
abbrev pub negated : ℕ → ℕ → ℕ
negated ones n = sub32 (sub32 0 n) ones

abbrev pub negate_if : Bool → ℕ → ℕ → ℕ
negate_if c ones n = if c then negated ones n else n

abbrev pub xor_bool : Bool → Bool → Bool
xor_bool true b = not b
xor_bool false b = b

abbrev pub is_negative : ℕ → Bool
is_negative w = ltb_ℤ (int32 w) (pos 0)

-- Quotient and remainder. `quotNegOut` is not 0 when the signs differ and the divisor is not 0.
unfoldable pub divide_rv32im : ℕ → ℕ → ℕ → ℕ × ℕ
unfolding int32 ltb_ℤ
divide_rv32im numer denom sign_type =
    let ones = if sign_type == 2 then 1 else 0 in
    let neg_numer = not (sign_type == 0) && is_negative numer in
    let neg_denom = (sign_type == 1) && is_negative denom in
    let n = negate_if neg_numer ones numer in
    let d = negate_if neg_denom ones denom in
    let quot = if d == 0 then 0xffffffff else n / d in
    let rem = if d == 0 then n else n % d in
    let quot_neg_out = xor_bool neg_numer neg_denom && not ((d == 0) && neg_numer) in
    (negate_if quot_neg_out ones quot, negate_if neg_numer ones rem)
