-- ===== src/BigInt/Poly/Laws.antt =====
-- The product of two polynomials.
use mathlib.Core.Path.{subst}
use zirgen.Prelude.{
  sym, ℕ, zero, suc, ◌+◌, ◌-◌, ◌*◌, ◌≤◌, ◌<◌, ◌^◌, ◌≡◌, refl, ◌∙◌, [], ◌∷◌, length, replicate,
  length-replicate, max, min, none, arith, if◌then◌else◌, ltb, Bool-cases, ltb→lt, inl, inr,
}
use native.Mathlib.Nat.{mul-le-mul, mod-eq_of_lt}
use zirgen.Prelude.Result.{Post}
use zirgen.Word.Signed.{ℤ, pos, ◌*ℤ◌}
use zirgen.BigInt.Int.{◌+ℤ◌, ext, +ℤ_parts}
use zirgen.BigInt.Types.{BigIntType, verify, infer_mul, product_bound, size_t}
use zirgen.BigInt.Poly.{BytePoly, mul_from, mul}
use zirgen.BigInt.Poly.Value.{value}
use zirgen.BigInt.Poly.Least.{IsLeast, IsLeast-product}
use zirgen.BigInt.Poly.Loop.{Each, Each-weaken, down, down_le}
use zirgen.BigInt.Poly.Sum.{IsOfType, IsSmall, Post-mono, verify-IsSmall, value-zeros}
use zirgen.BigInt.Poly.Product.{Before, Fits}
use zirgen.BigInt.Poly.Rows.{IsRow, mul_from-Multiplied}

-- What a bound that is not too big says of the product that it stands for.
clamped :
    (pairs one : ℕ)
    → pairs < 2 ^ 30
    → one < 2 ^ 63
    → (min (if ltb one (2 ^ 32) then size_t (one * pairs) else one) (2 ^ 64 - 1) < 2 ^ 63)
      × (min (if ltb one (2 ^ 32) then size_t (one * pairs) else one) (2 ^ 64 - 1) < 2 ^ 32
          → one * pairs ≡ min (if ltb one (2 ^ 32) then size_t (one * pairs) else one) (2 ^ 64 - 1))
clamped pairs one few small = elim (Bool-cases (ltb one (2 ^ 32))) [
  | inl l ↦
      let below = ltb→lt one (2 ^ 32) l in
      let h : one * pairs ≤ 2 ^ 32 * 2 ^ 30 =
        mul-le-mul {n₂ = 2 ^ 32} {m₂ = 2 ^ 30} (omega arith) (omega arith) in
      rw (l, mod-eq_of_lt {n = one * pairs} {m = 2 ^ 64} (omega arith))
        (omega arith, λ q. omega arith)
  | inr l ↦ rw l (omega arith, λ q. absurd (ground (arith, l, q)))
]

covered :
    (pairs a b c d : ℕ)
    → pairs < 2 ^ 30
    → (a < 2 ^ 31) × (b < 2 ^ 31) × (c < 2 ^ 31) × (d < 2 ^ 31)
    → (product_bound pairs a b c d < 2 ^ 63)
      × (product_bound pairs a b c d < 2 ^ 32
          → max (a * b) (c * d) * pairs ≡ product_bound pairs a b c d)
covered pairs a b c d k (la, lb, lc, ld) =
    let ab : a * b ≤ 2 ^ 31 * 2 ^ 31 =
      mul-le-mul {n₂ = 2 ^ 31} {m₂ = 2 ^ 31} (omega arith) (omega arith) in
    let cd : c * d ≤ 2 ^ 31 * 2 ^ 31 =
      mul-le-mul {n₂ = 2 ^ 31} {m₂ = 2 ^ 31} (omega arith) (omega arith) in
    rw
      (
        mod-eq_of_lt {n = a * b} {m = 2 ^ 64} (omega arith),
        mod-eq_of_lt {n = c * d} {m = 2 ^ 64} (omega arith),
      )
      (clamped pairs (max (a * b) (c * d)) k (omega arith))

Each-zeros :
    (B : ℕ → ℤ → Type 0) (most c n : ℕ)
    → c ≤ most
    → ((k : ℕ) → k ≤ most → B k (pos 0))
    → Each B c (replicate n (pos 0))
Each-zeros B most c zero le h = tt
Each-zeros B most c (suc n) le h =
    (h c le, Each-zeros B most (down c) n (omega (arith, down_le c)) h)

mul-some :
    (a b : BytePoly)
    → 1 ≤ length a
    → mul a b ≡ mul_from a b (replicate (length a + length b - 1) (pos 0))
unfolding mul
mul-some [] b h = absurd (omega arith)
mul-some (x ∷ a) b h = refl

from_zero : (v : ℤ) (n : ℕ) → value (replicate n (pos 0)) +ℤ v ≡ v
from_zero v n = rw (value-zeros n) (ext _ _ (omega (arith, +ℤ_parts)))

module _ (t u : BigIntType) (a b : BytePoly) (small : IsSmall t) (small' : IsSmall u)
    (ta : IsOfType t a) (tb : IsOfType u b) where
  -- If the type that is inferred for a product passes the verifier, the product of polynomials of the
  -- types of its operands, whose bounds are below the prime and which have from 1 to 2 ^ 30 - 1
  -- coefficients, does not overflow, is of the inferred type, and has the product of the values.
  pub mul-IsOfType :
      (1 ≤ t.coeffs) × (t.coeffs < 2 ^ 30)
      → (1 ≤ u.coeffs) × (u.coeffs < 2 ^ 30)
      → verify (infer_mul t u) ≡ none
      → Post (λ c. IsOfType (infer_mul t u) c × (value c ≡ value a *ℤ value b)) (λ e. ⊥) (mul a b)
  unfolding mul infer_mul
  mul-IsOfType (some_t, few_t) (some_u, few_u) v =
      let r = infer_mul t u in
      let n = min t.coeffs u.coeffs in
      let (hs, he) =
        covered n t.max_pos u.max_pos t.max_neg u.max_neg (omega arith)
          (omega arith, omega arith, omega arith, omega arith) in
      let (ls, le) =
        covered n t.max_pos u.max_neg t.max_neg u.max_pos (omega arith)
          (omega arith, omega arith, omega arith, omega arith) in
      let fits = verify-IsSmall r hs ls v in
      let high = max (t.max_pos * u.max_pos) (t.max_neg * u.max_neg) in
      let low = max (t.max_pos * u.max_neg) (t.max_neg * u.max_pos) in
      let eh = he (omega arith) in
      let el = le (omega arith) in
      let size = length a + length b - 1 in
      let rows : Fits t.coeffs u.coeffs t.max_pos t.max_neg u.max_pos u.max_neg high low =
        (omega arith, omega arith, omega arith, omega arith, omega arith, omega arith) in
      rw (mul-some a b (omega (arith, ta.size))) (
        Post-mono (mul_from a b (replicate size (pos 0)))
          (λ c d. (
            record {
              size =
                  d.same_length ∙ length-replicate size (pos 0) ∙ omega (arith, ta.size, tb.size);
              bounds =
                  Each-weaken
                    {B = λ _.
                      IsRow t.coeffs u.coeffs t.max_pos t.max_neg u.max_pos u.max_neg high low rows}
                    0 0 c (omega arith) (λ k o q (x, y). (omega arith, omega arith)) d.each;
              least =
                  subst (IsLeast r.min_bits) (sym (d.product ∙ from_zero (value a *ℤ value b) size))
                    (IsLeast-product t.min_bits u.min_bits (value a) (value b) ta.least tb.least);
            },
            d.product ∙ from_zero (value a *ℤ value b) size,
          ))
          (mul_from-Multiplied t.coeffs u.coeffs t.max_pos t.max_neg u.max_pos u.max_neg high low
            rows 0 a b (replicate size (pos 0)) (omega (arith, ta.size)) tb.size some_u
            (omega (arith, length-replicate size (pos 0), ta.size, tb.size)) ta.bounds tb.bounds
            (Each-zeros
              (Before t.coeffs u.coeffs t.max_pos t.max_neg u.max_pos u.max_neg high low 0) u.coeffs
              u.coeffs size (omega arith) (λ k q. (q, (omega arith, omega arith))))))
