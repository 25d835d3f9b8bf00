-- ===== src/BigInt/Types.antt =====
-- `BigIntType` and what the operations infer for their results. A `size_t` has 64 bits.
use zirgen.Prelude.{
  ℕ, ◌+◌, ◌-◌, ◌*◌, ◌/◌, ◌%◌, ◌^◌, max, min, ltb, leb, ◌==◌, ◌&&◌, ◌||◌, if◌then◌else◌, Option,
  none, some,
}
use zirgen.Fp.{p}
use zirgen.Util.{ceil_div, log2_ceil}

abbrev pub bits_per_coeff : ℕ
bits_per_coeff = 8

pub record BigIntType : Type 0 where
  pub coeffs : ℕ
  pub max_pos : ℕ
  pub max_neg : ℕ
  pub min_bits : ℕ

pub data VerifyError : Type 0 where
  negative_min_bits overflowing : VerifyError

abbrev pub size_t : ℕ → ℕ
size_t n = n % 2 ^ 64

-- `none` is `success()`.
unfoldable pub verify : BigIntType → Option VerifyError
verify t =
    if ltb 0 t.max_neg && ltb 0 t.min_bits
    then some negative_min_bits
    else (if leb p (size_t (t.max_pos + t.max_neg)) then some overflowing else none)

unfoldable pub get_max_pos_bits : BigIntType → ℕ
unfolding log2_ceil
get_max_pos_bits t =
    let all_bits = log2_ceil (size_t (t.max_pos + 1)) in
    let carry = if ltb 1 t.coeffs then 1 else 0 in
    let extra = if leb all_bits bits_per_coeff then 0 else all_bits - bits_per_coeff + carry in
    size_t (bits_per_coeff * t.coeffs + extra)

unfoldable pub get_carry_offset : BigIntType → ℕ
get_carry_offset t = (max t.max_pos t.max_neg + 3 * bits_per_coeff) / bits_per_coeff

unfoldable pub get_carry_bytes : BigIntType → ℕ
unfolding get_carry_offset
get_carry_bytes t =
    let max_carry = get_carry_offset t * 2 in
    if ltb max_carry 256 then 1 else (if ltb (max_carry / 256) 256 then 2 else 4)

-- `maxPos = (1 << kBitsPerCoeff) - 1`, `maxNeg = 0`
abbrev pub byte_type : ℕ → ℕ → BigIntType
byte_type width min_bits = record {
  coeffs = ceil_div width bits_per_coeff;
  max_pos = 2 ^ bits_per_coeff - 1;
  max_neg = 0;
  min_bits = min_bits;
}

unfoldable pub infer_def : ℕ → ℕ → BigIntType
unfolding ceil_div
infer_def bit_width min_bits = byte_type bit_width min_bits

unfoldable pub infer_load : ℕ → ℕ → BigIntType
unfolding ceil_div
infer_load bit_width min_bits = byte_type bit_width min_bits

-- `getBitWidth` and `getActiveBits` of the constant.
unfoldable pub infer_const : ℕ → ℕ → BigIntType
unfolding ceil_div
infer_const bit_width active_bits = byte_type bit_width active_bits

unfoldable pub infer_add : BigIntType → BigIntType → BigIntType
infer_add lhs rhs =
    let max_neg = size_t (lhs.max_neg + rhs.max_neg) in
    record {
      coeffs = max lhs.coeffs rhs.coeffs;
      max_pos = size_t (lhs.max_pos + rhs.max_pos);
      max_neg = max_neg;
      min_bits = if ltb 0 max_neg then 0 else max lhs.min_bits rhs.min_bits;
    }

unfoldable pub infer_sub : BigIntType → BigIntType → BigIntType
infer_sub lhs rhs = record {
  coeffs = max lhs.coeffs rhs.coeffs;
  max_pos = size_t (lhs.max_pos + rhs.max_neg);
  max_neg = size_t (lhs.max_neg + rhs.max_pos);
  min_bits = 0;
}

-- The bigger of two products, times the number of pairs if it is below 2 ^ 32.
abbrev pub product_bound : ℕ → ℕ → ℕ → ℕ → ℕ → ℕ
product_bound pairs a b c d =
    let one = max (size_t (a * b)) (size_t (c * d)) in
    min (if ltb one (2 ^ 32) then size_t (one * pairs) else one) (2 ^ 64 - 1)

unfoldable pub infer_mul : BigIntType → BigIntType → BigIntType
infer_mul lhs rhs =
    let pairs = min lhs.coeffs rhs.coeffs in
    record {
      coeffs = size_t (lhs.coeffs + rhs.coeffs + (2 ^ 64 - 1));
      max_pos = product_bound pairs lhs.max_pos rhs.max_pos lhs.max_neg rhs.max_neg;
      max_neg = product_bound pairs lhs.max_pos rhs.max_neg lhs.max_neg rhs.max_pos;
      min_bits =
          if (lhs.min_bits == 0) || (rhs.min_bits == 0)
          then 0
          else size_t (lhs.min_bits + rhs.min_bits - 1);
    }

-- The smaller of the widths of both operands.
abbrev pub smaller_bits : BigIntType → BigIntType → ℕ
smaller_bits lhs rhs =
    let l = get_max_pos_bits lhs in let r = get_max_pos_bits rhs in if ltb r l then r else l

unfoldable pub infer_nondet_rem : BigIntType → BigIntType → BigIntType
unfolding get_max_pos_bits ceil_div
infer_nondet_rem lhs rhs = byte_type (smaller_bits lhs rhs) 0

unfoldable pub infer_nondet_quot : BigIntType → BigIntType → BigIntType
unfolding get_max_pos_bits ceil_div
infer_nondet_quot lhs rhs =
    let out_bits = get_max_pos_bits lhs in
    let less = size_t (out_bits + 2 ^ 64 - (rhs.min_bits - 1)) in
    byte_type (if ltb 0 rhs.min_bits then less else out_bits) 0

unfoldable pub infer_nondet_inv : BigIntType → BigIntType → BigIntType
unfolding get_max_pos_bits ceil_div
infer_nondet_inv lhs rhs = byte_type (get_max_pos_bits rhs) 0

unfoldable pub infer_inv : BigIntType → BigIntType → BigIntType
unfolding get_max_pos_bits ceil_div
infer_inv lhs rhs = byte_type (get_max_pos_bits rhs) 0

unfoldable pub infer_reduce : BigIntType → BigIntType → BigIntType
unfolding get_max_pos_bits ceil_div
infer_reduce lhs rhs = byte_type (smaller_bits lhs rhs) 0
