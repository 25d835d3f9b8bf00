-- ===== src/BigInt/Carry.antt =====
-- `EqualZeroOp` of Eval.cpp: the carries of a polynomial that stands for zero, in bytes.
pub mod Exact
pub mod Chain
pub mod Laws
use zirgen.Prelude.{
  ℕ, ◌+◌, ◌-◌, ◌*◌, ◌/◌, ◌%◌, ◌^◌, ltb, ◌==◌, ◌&&◌, Bool, if◌then◌else◌, List, [], ◌∷◌, map, length,
  replicate,
}
use zirgen.Prelude.Result.{Result, ok, throws, ◌>>=◌}
use zirgen.Word.Signed.{ℤ, pos, ◌*ℤ◌, tdiv, wrap, int32}
use zirgen.BigInt.Int.{pos_part, neg_part, ◌+ℤ◌, ◌-ℤ◌}
use zirgen.BigInt.ApInt.{ApInt, to_ap_int}
use zirgen.BigInt.Types.{BigIntType, get_carry_offset, get_carry_bytes}
use zirgen.BigInt.Poly.{Failure, BytePoly, checked, nonzero, bad_carry, out_of_range}

-- `int32_t carryOffset`
unfoldable pub carry_offset : BigIntType → ℤ
unfolding get_carry_offset int32
carry_offset t = int32 (get_carry_offset t % 2 ^ 32)

-- `carry = (poly[i] + carry) / 256`, which goes towards zero.
unfoldable pub carries : ℤ → BytePoly → Result Failure (List ℤ)
unfolding checked tdiv ◌+ℤ◌
carries carry [] = ok []
carries carry (c ∷ poly) = checked (c +ℤ carry) >>= λ s.
    let next = tdiv s (pos 256) in carries next poly >>= λ rest. ok (next ∷ rest)

-- What the element `i` of the four polynomials gets from `carryU`; those that there are not stay 0.
pub record Row : Type 0 where
  pub byte0 : ℕ
  pub byte1 : ℕ
  pub byte2 : ℕ
  pub byte3 : ℕ

abbrev pub row : ℕ → ℕ → Row
row bytes carry_u = record {
  byte0 = carry_u % 256;
  byte1 = if ltb 1 bytes then carry_u / 2 ^ 8 % 256 else 0;
  byte2 = if ltb 2 bytes then carry_u / 2 ^ 16 % 256 else 0;
  byte3 = if ltb 2 bytes then carry_u / 2 ^ 16 % 256 * 4 else 0;
}

unfoldable pub rows : ℕ → ℤ → List ℤ → Result Failure (List Row)
unfolding checked wrap ◌+ℤ◌
rows bytes offset [] = ok []
rows bytes offset (carry ∷ ks) = checked (carry +ℤ offset) >>= λ sum.
    rows bytes offset ks >>= λ rest. ok (row bytes (wrap (2 ^ 32) sum) ∷ rest)

abbrev pub big_carry : ℕ → ℤ → Row → Result Failure ℤ
big_carry bytes offset r =
    let second = if ltb 1 bytes then 256 * r.byte1 else 0 in
    let third = if ltb 2 bytes then 65536 * r.byte2 else 0 in
    checked (pos (r.byte0 + second + third)) >>= λ sum. checked (sum -ℤ offset)

abbrev pub is_zero_ℤ : ℤ → Bool
is_zero_ℤ c = (pos_part c == 0) && (neg_part c == 0)

-- "Verify carry computation", with the carry of the element before.
unfoldable pub check_carries : ℕ → ℤ → ℤ → BytePoly → List Row → Result Failure (Unit {0})
unfolding checked ◌+ℤ◌ ◌-ℤ◌ ◌*ℤ◌
check_carries bytes offset before [] rs = ok tt
check_carries bytes offset before (c ∷ poly) [] = throws out_of_range
check_carries bytes offset before (c ∷ poly) (r ∷ rs) = big_carry bytes offset r >>= λ carry.
    checked (pos 256 *ℤ carry) >>= λ scaled. checked (c -ℤ scaled) >>= λ difference.
    checked (difference +ℤ before) >>= λ should_be_zero.
    if is_zero_ℤ should_be_zero then check_carries bytes offset carry poly rs else throws bad_carry

-- The polynomials that go to the private witness.
abbrev pub columns : ℕ → List Row → List BytePoly
columns bytes rs =
    let first = map (λ r. pos r.byte0) rs in
    let second = map (λ r. pos r.byte1) rs in
    let third = map (λ r. pos r.byte2) rs in
    let fourth = map (λ r. pos r.byte3) rs in
    if ltb 2 bytes
    then first ∷ second ∷ third ∷ fourth ∷ []
    else (if ltb 1 bytes then first ∷ second ∷ [] else first ∷ [])

unfoldable pub equal_zero :
    {A : Type 0} → ApInt A → BigIntType → BytePoly → Result Failure (List BytePoly)
unfolding carry_offset get_carry_bytes carries rows check_carries to_ap_int
equal_zero api t poly =
    let bytes = get_carry_bytes t in
    let offset = carry_offset t in
    let carried = carries (pos 0) poly >>= λ ks. rows bytes offset ks >>= λ rs.
    check_carries bytes offset (pos 0) poly rs >>= λ _. ok (columns bytes rs) in
    if api.is_nonzero (to_ap_int api poly) then throws nonzero else carried
