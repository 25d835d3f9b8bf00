-- ===== src/Zkp/Poseidon2/Laws.antt =====
-- The pieces of the permutation.
use zirgen.Prelude.{ℕ, ◌+◌, ◌*◌, ◌%◌, ◌^◌, ◌<◌, ◌≤◌, ◌≡◌, refl, ◌∙◌, arith}
use native.Mathlib.Nat.{pow-suc, pow-zero, mod-eq_of_lt, mul-le-mul}
use zirgen.Modular.{mod-mul_left, mod-mul}
use zirgen.Fp.{p}
use zirgen.Zkp.Poseidon2.{to_montgomery, from_montgomery, sbox2, Four, multiply_by_4x4_circulant}

-- The Montgomery form of a residue is turned back into it.
pub from_montgomery-to_montgomery : (n : ℕ) → n < p → from_montgomery (to_montgomery n) ≡ n
unfolding to_montgomery from_montgomery
from_montgomery-to_montgomery n h = omega arith

-- A product of residues does not pass 64 bits.
product_fits : (a b : ℕ) → a < p → b < p → a * b % 2 ^ 64 ≡ a * b
product_fits a b h k =
    let le : a * b ≤ p * p = mul-le-mul {n₂ = p} {m₂ = p} (omega arith) (omega arith) in
    mod-eq_of_lt (omega arith)

seventh_power : (n : ℕ) → n ^ 7 ≡ n * n * (n * n) * (n * n) * n
seventh_power n =
    pow-suc n 6
    ∙ rw (pow-suc n 5, pow-suc n 4, pow-suc n 3, pow-suc n 2, pow-suc n 1, pow-suc n 0, pow-zero n)
        (omega arith)

-- `sbox2` of a residue is its seventh power modulo the prime.
pub sbox2-IsPower : (n : ℕ) → n < p → sbox2 n ≡ n ^ 7 % p
unfolding sbox2
sbox2-IsPower n h =
    let n2 = n * n % p in
    let n4 = n2 * n2 % p in
    let n6 = n4 * n2 % p in
    let l2 : n2 < p = omega arith in
    let l4 : n4 < p = omega arith in
    let l6 : n6 < p = omega arith in
    let seventh : n ^ 7 ≡ n * n * (n * n) * (n * n) * n = seventh_power n in
    rw
      (
        product_fits n n h h,
        product_fits n2 n2 l2 l2,
        product_fits n4 n2 l4 l2,
        product_fits n6 n l6 h,
        mod-mul (n * n) (n * n) p,
        mod-mul (n * n * (n * n)) (n * n) p,
        mod-mul_left (n * n * (n * n) * (n * n)) n p,
        seventh,
      )
      refl

-- The rows of the matrix, as `_M_EXT` has them, modulo the prime.
pub record IsCirculant (v : Four) (w : Four) : Type 0 where
  pub row_a : w.a ≡ (5 * v.a + 7 * v.b + v.c + 3 * v.d) % p
  pub row_b : w.b ≡ (4 * v.a + 6 * v.b + v.c + v.d) % p
  pub row_c : w.c ≡ (v.a + 3 * v.b + 5 * v.c + 7 * v.d) % p
  pub row_d : w.d ≡ (v.a + v.b + 4 * v.c + 6 * v.d) % p

abbrev pub IsReduced : Four → Type 0
IsReduced v = (v.a < p) × (v.b < p) × (v.c < p) × (v.d < p)

-- The shortcut of `multiply_by_4x4_circulant` gives, for residues, the product with the matrix.
pub multiply_by_4x4_circulant-IsCirculant :
    (v : Four) → IsReduced v → IsCirculant v (multiply_by_4x4_circulant v)
unfolding multiply_by_4x4_circulant
multiply_by_4x4_circulant-IsCirculant v (ha, hb, hc, hd) = record {
  row_a = omega arith;
  row_b = omega arith;
  row_c = omega arith;
  row_d = omega arith;
}
