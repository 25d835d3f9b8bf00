-- ===== src/BigInt/Poly.antt =====
-- The sums and products of Eval.cpp on polynomials, vectors of `int32_t` whose overflow C++ leaves
-- undefined, as it does an access out of range.
pub mod Value
pub mod Least
pub mod Loop
pub mod Sum
pub mod Product
pub mod Rows
pub mod Laws
use zirgen.Prelude.{
  ℕ, ◌+◌, ◌-◌, ◌^◌, max, leb, ◌&&◌, Bool, if◌then◌else◌, List, [], ◌∷◌, length, replicate,
}
use zirgen.Prelude.Result.{Result, ok, throws, ◌>>=◌}
use zirgen.Word.Signed.{ℤ, pos, ◌*ℤ◌}
use zirgen.BigInt.Int.{pos_part, neg_part, ◌+ℤ◌, ◌-ℤ◌}

-- Undefined behaviour, a vector that cannot be made, and what `EqualZeroOp` throws.
pub data Failure : Type 0 where
  overflow out_of_range too_long nonzero bad_carry : Failure

abbrev pub BytePoly : Type 0
BytePoly = List ℤ

-- A result of `int32_t` arithmetic.
unfoldable pub checked : ℤ → Result Failure ℤ
checked c =
    if leb (pos_part c) (2 ^ 31 - 1) && leb (neg_part c) (2 ^ 31) then ok c else throws overflow

-- `for (i ...) out[i] = f(out[i], xs[i])`
unfoldable pub into : (ℤ → ℤ → Result Failure ℤ) → BytePoly → BytePoly → Result Failure BytePoly
into f [] out = ok out
into f (x ∷ xs) [] = throws out_of_range
into f (x ∷ xs) (o ∷ out) = f o x >>= λ v. into f xs out >>= λ rest. ok (v ∷ rest)

abbrev pub plus : ℤ → ℤ → Result Failure ℤ
plus o x = checked (o +ℤ x)

abbrev pub minus : ℤ → ℤ → Result Failure ℤ
minus o x = checked (o -ℤ x)

-- `o += a * x`
abbrev pub plus_product : ℤ → ℤ → ℤ → Result Failure ℤ
plus_product a o x = checked (a *ℤ x) >>= λ t. checked (o +ℤ t)

unfoldable pub add : BytePoly → BytePoly → Result Failure BytePoly
unfolding into checked ◌+ℤ◌
add lhs rhs =
    into plus lhs (replicate (max (length lhs) (length rhs)) (pos 0)) >>= λ out. into plus rhs out

unfoldable pub sub : BytePoly → BytePoly → Result Failure BytePoly
unfolding into checked ◌+ℤ◌ ◌-ℤ◌
sub lhs rhs =
    into plus lhs (replicate (max (length lhs) (length rhs)) (pos 0)) >>= λ out. into minus rhs out

-- The loop over `i`, with `out` from its element `i` on.
unfoldable pub mul_from : BytePoly → BytePoly → BytePoly → Result Failure BytePoly
unfolding into checked ◌+ℤ◌ ◌*ℤ◌
mul_from [] rhs out = ok out
mul_from (a ∷ lhs) rhs out = into (plus_product a) rhs out >>= λ row. elim row [
  | [] ↦ mul_from lhs rhs []
  | o ∷ rest ↦ mul_from lhs rhs rest >>= λ more. ok (o ∷ more)
]

-- The length is a `size_t`, which wraps around if both are empty.
unfoldable pub mul : BytePoly → BytePoly → Result Failure BytePoly
unfolding mul_from
mul [] [] = throws too_long
mul lhs rhs = mul_from lhs rhs (replicate (length lhs + length rhs - 1) (pos 0))
