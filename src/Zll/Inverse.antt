-- ===== src/Zll/Inverse.antt =====
-- `Div` and `Inv` of `ExtensionField`. Their loops run on `fuel`, as that of `Field::Inv` does;
-- `none` when it is used up, or where the field is not supported. The assertion of `Div` is left out.
use zirgen.Prelude.{
  ℕ, zero, suc, ◌-◌, leb, ◌==◌, if◌then◌else◌, Option, none, some, true, false, List, [], ◌∷◌, ◌++◌,
  set,
}
use zirgen.Zll.Field as Field
use zirgen.Zll.Extension.{
  ExtensionField, at, resize, get_degree, times, zeros, one, sub, scale, naive_mul,
  get_irreducible_polynomial,
}

-- A field that can hold the irreducible polynomial of `e`.
abbrev larger : ExtensionField → ExtensionField
larger e = record e { degree = suc e.degree }

-- `x[i] = a[i]` for `i` up to the degree of `a`, in a vector of `degree + 1` coefficients.
abbrev widened : ExtensionField → List ℕ → List ℕ
widened e a = resize (suc e.degree) (resize (suc (get_degree a)) a)

module _ (e : ExtensionField) where
  -- `r = extension.Sub(a, extension.NaiveMul(q, b2))`
  abbrev remainder : List ℕ → List ℕ → List ℕ → List ℕ
  remainder a b2 q = sub (larger e) a (naive_mul (larger e) q b2)

  -- The next coefficient of the quotient, from the inverse of the divisor's highest.
  abbrev next_quotient : ℕ → ℕ → List ℕ → List ℕ → ℕ → List ℕ
  next_quotient r_degree b_degree r q inverse =
      set q (r_degree - b_degree) (times e (at r r_degree) inverse)

  -- `while (rDegree >= bDegree)`, with the inverse that every round computes.
  unfoldable div_from : ℕ → List ℕ → List ℕ → ℕ → ℕ → List ℕ → List ℕ → Option ℕ → Option (List ℕ)
  unfolding Field.mul get_degree sub naive_mul
  div_from zero a b2 b_degree r_degree r q inverse = none
  div_from (suc fuel) a b2 b_degree r_degree r q none =
      if leb b_degree r_degree then none else some q
  div_from (suc fuel) a b2 b_degree r_degree r q (some inverse) =
      let q2 = next_quotient r_degree b_degree r q inverse in
      let r2 = remainder a b2 q2 in
      let rest = div_from fuel a b2 b_degree (get_degree r2) r2 q2 (some inverse) in
      if leb b_degree r_degree then rest else some q

  unfoldable pub quotient : ℕ → List ℕ → List ℕ → Option (List ℕ)
  unfolding Field.inv get_degree resize div_from
  quotient fuel a b =
      div_from fuel a (widened e b) (get_degree b) (get_degree a) (widened e a) (zeros (larger e))
        (Field.inv e.subfield fuel (at (widened e b) (get_degree b)))

  -- `t0 - quot * t1` and `r0 - quot * r1`
  abbrev less_product : List ℕ → List ℕ → List ℕ → List ℕ
  less_product x quot y = sub (larger e) x (naive_mul (larger e) quot y)

  abbrev scaled : Option ℕ → List ℕ → Option (List ℕ)
  scaled none t = none
  scaled (some inverse) t = some (scale e inverse t)

  -- `while (getDegree(r1) > 0)`
  unfoldable inv_from : ℕ → List ℕ → List ℕ → List ℕ → List ℕ → Option (List ℕ)
  unfolding Field.inv get_degree scale sub naive_mul quotient
  inv_from zero t0 t1 r0 r1 = none
  inv_from (suc fuel) t0 t1 r0 r1 = elim (get_degree r1 == 0) [
    | true ↦ scaled (Field.inv e.subfield (suc fuel) (at r1 0)) t1
    | false ↦ elim (quotient (suc fuel) r0 r1) [
      | none ↦ none
      | some quot ↦ inv_from fuel t1 (less_product t0 quot t1) r1 (less_product r0 quot r1)
    ]
  ]

  abbrev constant : Option ℕ → Option (List ℕ)
  constant none = none
  constant (some n) = some (n ∷ [])

  unfoldable pub inv : ℕ → List ℕ → Option (List ℕ)
  unfolding Field.inv get_degree get_irreducible_polynomial inv_from resize
  inv fuel a = elim (get_degree a == 0) [
    | true ↦ constant (Field.inv e.subfield fuel (at a 0))
    | false ↦ elim (get_irreducible_polynomial e) [
      | none ↦ none
      | some irreducible ↦
          inv_from fuel (zeros (larger e)) (one (larger e))
            (irreducible ++ (e.subfield.prime - 1) ∷ []) (resize (suc e.degree) (resize e.degree a))
    ]
  ]
