-- ===== src/Zkp/Tests.antt =====
-- The permutation and its pieces at concrete numbers.
use zirgen.Prelude.{◌≡◌, refl, arith, [], ◌∷◌, map}
use zirgen.Zkp.Poseidon2.{
  Four, multiply_by_m_ext, multiply_by_4x4_circulant, to_montgomery, poseidon2_hash,
}
use zirgen.Zkp.Poseidon2.Ext.{six, matrix_product, multiply_by_m_ext-matrix_product}
use zirgen.Zkp.Poseidon2.Laws.{IsReduced, IsCirculant, multiply_by_4x4_circulant-IsCirculant}

abbrev big : Four
big = record { a = 2013265920; b = 7; c = 1999999999; d = 3 }

multiply_by_4x4_circulant-IsCirculant_example : IsCirculant big (multiply_by_4x4_circulant big)
multiply_by_4x4_circulant-IsCirculant_example =
    multiply_by_4x4_circulant-IsCirculant big (omega arith, omega arith, omega arith, omega arith)

abbrev small : Four
small = record { a = 1; b = 2; c = 3; d = 4 }

big-IsReduced : IsReduced big
big-IsReduced = (omega arith, omega arith, omega arith, omega arith)

small-IsReduced : IsReduced small
small-IsReduced = (omega arith, omega arith, omega arith, omega arith)

multiply_by_m_ext-matrix_product_example :
    multiply_by_m_ext (six big small small big small small)
    ≡ matrix_product big small small big small small
multiply_by_m_ext-matrix_product_example =
    multiply_by_m_ext-matrix_product big small small big small small (
      big-IsReduced, small-IsReduced, small-IsReduced, big-IsReduced, small-IsReduced,
      small-IsReduced,
    )

-- The vectors of the repository's own test of `poseidon2Hash`.
hash_of_sixteen :
    poseidon2_hash (0 ∷ 1 ∷ 2 ∷ 3 ∷ 4 ∷ 5 ∷ 6 ∷ 7 ∷ 8 ∷ 9 ∷ 10 ∷ 11 ∷ 12 ∷ 13 ∷ 14 ∷ 15 ∷ [])
    ≡ map to_montgomery (
        1749308481 ∷ 879447913 ∷ 499502012 ∷ 1842374203 ∷ 1869354733 ∷ 71489094 ∷ 19273002
        ∷ 690566044 ∷ [])
unfolding poseidon2_hash to_montgomery
hash_of_sixteen = refl
