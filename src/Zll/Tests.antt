-- ===== src/Zll/Tests.antt =====
-- The laws at concrete fields.
use zirgen.Prelude.{◌≡◌, refl, arith, some, [], ◌∷◌}
use zirgen.Zll.Field.{Field, default_field, field_prime_default}
use zirgen.Zll.Field as Field
use zirgen.Zll.Field.Laws.{IsModular, arithmetic-IsModular}
use zirgen.Zll.Extension.{ExtensionField, mul}
use zirgen.Zll.Inverse as Inverse

-- The prime of Goldilocks, whose sums pass 2 ^ 64.
abbrev goldilocks : Field
goldilocks = record { prime = 0xffffffff00000001 }

arithmetic-IsModular_example : IsModular goldilocks 0xffffffff00000000 0xfffffffe00000000
arithmetic-IsModular_example =
    arithmetic-IsModular goldilocks 0xffffffff00000000 0xfffffffe00000000 (omega arith)
      (omega arith) (omega arith)

-- X * X ^ 3 is -11.
abbrev quartic : ExtensionField
quartic = record { subfield = default_field; degree = 4 }

product : mul quartic (0 ∷ 1 ∷ 0 ∷ 0 ∷ []) (0 ∷ 0 ∷ 0 ∷ 1 ∷ []) ≡ some (2013265910 ∷ 0 ∷ 0 ∷ 0 ∷ [])
unfolding mul
product = refl

inverse : Field.inv default_field 100 2 ≡ some 1006632961
unfolding Field.inv
inverse = refl

-- The inverse of X is -X ^ 3 / 11.
x_inverse : Inverse.inv quartic 64 (0 ∷ 1 ∷ 0 ∷ 0 ∷ []) ≡ some (0 ∷ 0 ∷ 0 ∷ 1464193397 ∷ [])
unfolding Inverse.inv
x_inverse = refl
