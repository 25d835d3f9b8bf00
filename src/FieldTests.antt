-- ===== src/FieldTests.antt =====
-- The laws of the field and its extension at concrete elements.
use zirgen.Prelude.{◌%◌, ◌≡◌, refl, arith}
use zirgen.Fp
use zirgen.Fp.{p, as_uint32, of_uint32, encode, decode, inv}
use zirgen.Fp.Laws.{IsModular, ops-IsModular, as_uint32-of_uint32, IsValid}
use zirgen.FpExt
use zirgen.FpExt.Laws.{IsValidExt, mul-coefficients, coefficients, reduce, mul_poly}

abbrev seven : Fp.Fp
seven = Fp.raw 7

abbrev nine : Fp.Fp
nine = Fp.raw 9

third : as_uint32 (Fp.mul (inv (of_uint32 3)) (of_uint32 3)) ≡ 1
unfolding as_uint32 Fp.mul inv of_uint32
third = refl

ops-IsModular_example : IsModular seven nine
ops-IsModular_example = ops-IsModular seven nine (omega arith) (omega arith)

as_uint32-of_uint32_example :
    IsValid (of_uint32 0x80000000) × (as_uint32 (of_uint32 0x80000000) ≡ 0x80000000 % p)
as_uint32-of_uint32_example = as_uint32-of_uint32 0x80000000 (omega arith)

abbrev some_ext : FpExt.FpExt
some_ext = FpExt.parts seven nine seven nine

mul-coefficients_example :
    IsValidExt (FpExt.mul some_ext some_ext)
    × (coefficients (FpExt.mul some_ext some_ext)
        ≡ reduce (mul_poly (coefficients some_ext) (coefficients some_ext)))
mul-coefficients_example = mul-coefficients some_ext some_ext (omega arith) (omega arith)
