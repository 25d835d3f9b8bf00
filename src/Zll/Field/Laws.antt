-- ===== src/Zll/Field/Laws.antt =====
-- The operations are those of the integers modulo the prime.
use native.Mathlib.Nat.{mod-eq_of_lt, mod-eq-sub-mod, mod-lt, mul-le-mul}
use zirgen.Prelude.{
  ℕ, ltb, if◌then◌else◌, inl, inr, ◌∙◌, ◌⊎◌, ◌+◌, ◌-◌, ◌*◌, ◌%◌, ◌^◌, ◌≤◌, ◌<◌, ◌≡◌, arith,
}
use zirgen.Zll.Field.{Field, add, sub, mul}

pub record IsModular (f : Field) (a b : ℕ) : Type 0 where
  pub sum : add f a b ≡ (a + b) % f.prime
  pub difference : sub f a b ≡ (a + (f.prime - b)) % f.prime
  pub product : mul f a b ≡ a * b % f.prime

lt_or_le : (n m : ℕ) → (n < m) ⊎ (m ≤ n)
lt_or_le n m = grind arith

-- A sum of less than twice the modulus, reduced.
reduce_once : (n m : ℕ) → n < m + m → n % m ≡ (if ltb n m then n else n - m)
reduce_once n m h = elim (lt_or_le n m) [
  | inl small ↦ mod-eq_of_lt small ∙ ground arith
  | inr large ↦ mod-eq-sub-mod large ∙ mod-eq_of_lt (omega arith) ∙ ground arith
]

add_lem :
    (f : Field) (a b : ℕ)
    → f.prime < 2 ^ 64
    → a < f.prime
    → b ≤ f.prime
    → add f a b ≡ (a + b) % f.prime
unfolding add
add_lem f a b p ha hb = rw (reduce_once (a + b) f.prime (omega arith)) (ground arith)

mul_lem :
    (f : Field) (a b : ℕ)
    → f.prime < 2 ^ 64
    → a < 2 ^ 64
    → b < 2 ^ 64
    → 0 < f.prime
    → mul f a b ≡ a * b % f.prime
unfolding mul
mul_lem f a b p ha hb hp =
    let fits : a * b < 2 ^ 128 =
      (let top : a * b ≤ (2 ^ 64 - 1) * (2 ^ 64 - 1) =
          mul-le-mul {n₂ = 2 ^ 64 - 1} {m₂ = 2 ^ 64 - 1} (omega arith) (omega arith) in
        omega (arith, top)) in
    rw (mod-eq_of_lt fits) (mod-eq_of_lt (omega (arith, mod-lt (a * b) hp)))

-- Over a prime of 64 bits, `Add`, `Sub` and `Mul` of reduced operands are the sum, the difference
-- and the product modulo the prime, whichever of them wraps around.
pub arithmetic-IsModular :
    (f : Field) (a b : ℕ) → f.prime < 2 ^ 64 → a < f.prime → b < f.prime → IsModular f a b
unfolding sub
arithmetic-IsModular f a b p ha hb = record {
  sum = add_lem f a b p ha (omega arith);
  difference =
      let d : (f.prime + 2 ^ 64 - b) % 2 ^ 64 ≡ f.prime - b = omega arith in
      rw (d) (add_lem f a (f.prime - b) p ha (omega arith));
  product = mul_lem f a b p (omega arith) (omega arith) (omega arith);
}
