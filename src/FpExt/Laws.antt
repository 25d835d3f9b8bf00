-- ===== src/FpExt/Laws.antt =====
-- The product of the extension field against the product of polynomials.
use native.Mathlib.Nat.{mod-eq_of_lt, add-mod}
use zirgen.Prelude.{ℕ, ◌+◌, ◌-◌, ◌*◌, ◌%◌, ◌≡◌, sym, ap, ◌∙◌, arith, List, [], ◌∷◌, map}
use zirgen.Modular.{mod-mul}
use zirgen.Fp
use zirgen.Fp.{Fp, p, as_uint32, of_uint32}
use zirgen.Fp.Laws.{IsValid, as_uint32-lt, ops-IsModular, as_uint32-of_uint32}
use zirgen.FpExt.{FpExt, nbeta, mul}

-- A valid element that stands for `n` modulo P.
record Stands (x : Fp) (n : ℕ) : Type 0 where
  valid : IsValid x
  number : as_uint32 x ≡ n % p

Stands-self : (x : Fp) → IsValid x → Stands x (as_uint32 x)
Stands-self x h = record { valid = h; number = sym (mod-eq_of_lt (as_uint32-lt x h)) }

Stands-add : {x y : Fp} {m n : ℕ} → Stands x m → Stands y n → Stands (Fp.add x y) (m + n)
Stands-add {x} {y} {m} {n} hx hy =
    let both = ops-IsModular x y hx.valid hy.valid in
    record {
      valid = both.add_valid;
      number = both.add_eq ∙ (λ i. (hx.number i + hy.number i) % p) ∙ sym (add-mod m n p);
    }

Stands-mul : {x y : Fp} {m n : ℕ} → Stands x m → Stands y n → Stands (Fp.mul x y) (m * n)
Stands-mul {x} {y} {m} {n} hx hy =
    let both = ops-IsModular x y hx.valid hy.valid in
    record {
      valid = both.mul_valid;
      number = both.mul_eq ∙ (λ i. hx.number i * hy.number i % p) ∙ mod-mul m n p;
    }

Stands-nbeta : Stands nbeta (p - 11)
Stands-nbeta =
    let beta = as_uint32-of_uint32 (p - 11) (omega arith) in
    record { valid = beta.0; number = beta.1 }

-- Polynomials by their coefficients, the constant first.
unfoldable pub add_poly : List ℕ → List ℕ → List ℕ
add_poly [] ys = ys
add_poly (x ∷ xs) [] = x ∷ xs
add_poly (x ∷ xs) (y ∷ ys) = (x + y) ∷ add_poly xs ys

unfoldable pub mul_poly : List ℕ → List ℕ → List ℕ
mul_poly [] ys = []
mul_poly (x ∷ xs) ys = add_poly (map (λ y. x * y) ys) (0 ∷ mul_poly xs ys)

-- The remainder by X ^ 4 + 11: X ^ 4 is -11 modulo P.
unfoldable pub reduce : List ℕ → List ℕ
reduce (c0 ∷ c1 ∷ c2 ∷ c3 ∷ high) =
    map (λ c. c % p) (add_poly (c0 ∷ c1 ∷ c2 ∷ c3 ∷ []) (map (λ c. (p - 11) * c) high))
reduce low = map (λ c. c % p) low

abbrev pub coefficients : FpExt → List ℕ
coefficients x = as_uint32 x.e0 ∷ as_uint32 x.e1 ∷ as_uint32 x.e2 ∷ as_uint32 x.e3 ∷ []

abbrev pub IsValidExt : FpExt → Type 0
IsValidExt x = IsValid x.e0 × IsValid x.e1 × IsValid x.e2 × IsValid x.e3

module _ (a b : FpExt) (ha : IsValidExt a) (hb : IsValidExt b) where
  abbrev S : {x y : Fp} → IsValid x → IsValid y → Stands (Fp.mul x y) (as_uint32 x * as_uint32 y)
  S {x} {y} hx hy = Stands-mul (Stands-self x hx) (Stands-self y hy)

  product_parts :
      Stands (mul a b).e0 (
        as_uint32 a.e0 * as_uint32 b.e0
        + (p - 11)
          * (as_uint32 a.e1 * as_uint32 b.e3
              + as_uint32 a.e2 * as_uint32 b.e2
              + as_uint32 a.e3 * as_uint32 b.e1))
      × Stands (mul a b).e1 (
          as_uint32 a.e0 * as_uint32 b.e1
          + as_uint32 a.e1 * as_uint32 b.e0
          + (p - 11) * (as_uint32 a.e2 * as_uint32 b.e3 + as_uint32 a.e3 * as_uint32 b.e2))
      × Stands (mul a b).e2 (
          as_uint32 a.e0 * as_uint32 b.e2
          + as_uint32 a.e1 * as_uint32 b.e1
          + as_uint32 a.e2 * as_uint32 b.e0
          + (p - 11) * (as_uint32 a.e3 * as_uint32 b.e3))
      × Stands (mul a b).e3 (
          as_uint32 a.e0 * as_uint32 b.e3
          + as_uint32 a.e1 * as_uint32 b.e2
          + as_uint32 a.e2 * as_uint32 b.e1
          + as_uint32 a.e3 * as_uint32 b.e0)
  unfolding mul
  product_parts =
      let (a0, a1, a2, a3) = ha in
      let (b0, b1, b2, b3) = hb in
      (
        Stands-add (S a0 b0)
            (Stands-mul Stands-nbeta (Stands-add (Stands-add (S a1 b3) (S a2 b2)) (S a3 b1))),
        Stands-add (Stands-add (S a0 b1) (S a1 b0))
            (Stands-mul Stands-nbeta (Stands-add (S a2 b3) (S a3 b2))),
        Stands-add (Stands-add (Stands-add (S a0 b2) (S a1 b1)) (S a2 b0))
            (Stands-mul Stands-nbeta (S a3 b3)),
        Stands-add (Stands-add (Stands-add (S a0 b3) (S a1 b2)) (S a2 b1)) (S a3 b0),
      )

coefficients_path :
    {a0 a1 a2 a3 b0 b1 b2 b3 : ℕ}
    → a0 ≡ b0
    → a1 ≡ b1
    → a2 ≡ b2
    → a3 ≡ b3
    → ◌≡◌ {A = List ℕ} (a0 ∷ a1 ∷ a2 ∷ a3 ∷ []) (b0 ∷ b1 ∷ b2 ∷ b3 ∷ [])
coefficients_path p q r s i = p i ∷ q i ∷ r i ∷ s i ∷ []

-- The product of valid elements is valid, and its coefficients are those of the product of the two
-- polynomials modulo P and X ^ 4 + 11.
pub mul-coefficients :
    (a b : FpExt)
    → IsValidExt a
    → IsValidExt b
    → IsValidExt (mul a b)
      × (coefficients (mul a b) ≡ reduce (mul_poly (coefficients a) (coefficients b)))
unfolding reduce mul_poly add_poly
mul-coefficients a b ha hb =
    let (s0, s1, s2, s3) = product_parts a b ha hb in
    (
      (s0.valid, s1.valid, s2.valid, s3.valid),
      coefficients_path (s0.number ∙ ap (λ t. t % p) (omega arith))
          (s1.number ∙ ap (λ t. t % p) (omega arith)) (s2.number ∙ ap (λ t. t % p) (omega arith))
          (s3.number ∙ ap (λ t. t % p) (omega arith)),
    )
