-- ===== src/Zll/Extension.antt =====
-- `ExtensionField`: polynomials as the vectors of their coefficients. A read out of bounds, which
-- C++ leaves undefined, gives 0 here; the callers pass vectors of the degree's size.
use zirgen.Prelude.{
  ℕ, zero, suc, ◌+◌, ◌-◌, ◌*◌, ◌%◌, ◌==◌, ◌||◌, ◌&&◌, not, if◌then◌else◌, min, Bool, true, false,
  Option, none, some, List, [], ◌∷◌, length, get_or, set, each, replicate, bit_and,
}
use zirgen.Zll.Field.{Field, default_field, field_prime_default}
use zirgen.Zll.Field as Field

abbrev pub field_invalid : ℕ
field_invalid = 0xffffffff

unfoldable pub resize : ℕ → List ℕ → List ℕ
resize zero a = []
resize (suc n) [] = 0 ∷ resize n []
resize (suc n) (x ∷ a) = x ∷ resize n a

abbrev pub at : List ℕ → ℕ → ℕ
at a i = get_or a i 0

-- `for (i = a.size() - 1; i > 0; i--)`
unfoldable degree_from : ℕ → List ℕ → ℕ
degree_from zero a = 0
degree_from (suc i) a = let rest = degree_from i a in if at a (suc i) == 0 then rest else suc i

unfoldable pub get_degree : List ℕ → ℕ
unfolding degree_from
get_degree a = degree_from (length a - 1) a

unfoldable pub is_invalid : List ℕ → Bool
is_invalid [] = false
is_invalid (x ∷ a) = x == field_invalid || is_invalid a

unfoldable pub is_zero : List ℕ → Bool
is_zero [] = true
is_zero (x ∷ a) = x == 0 && is_zero a

pub record ExtensionField : Type 0 where
  pub subfield : Field
  pub degree : ℕ

module _ (e : ExtensionField) where
  abbrev plus : ℕ → ℕ → ℕ
  plus = Field.add e.subfield

  abbrev pub times : ℕ → ℕ → ℕ
  times = Field.mul e.subfield

  abbrev minus : ℕ → ℕ → ℕ
  minus = Field.sub e.subfield

  abbrev pub zeros : List ℕ
  zeros = replicate e.degree 0

  abbrev pub one : List ℕ
  one = set zeros 0 1

  unfoldable pub add : List ℕ → List ℕ → List ℕ
  unfolding Field.add resize
  add a b = each 0 (length b) (λ i c. set c i (plus (at c i) (at b i))) (resize e.degree a)

  unfoldable pub sub : List ℕ → List ℕ → List ℕ
  unfolding Field.sub resize
  sub a b =
      each 0 (min e.degree (length b)) (λ i c. set c i (minus (at c i) (at b i)))
        (resize e.degree a)

  unfoldable pub scale : ℕ → List ℕ → List ℕ
  unfolding Field.mul
  scale a b = each 0 e.degree (λ i c. set c i (times a (at b i))) zeros

  unfoldable pub neg : List ℕ → List ℕ
  unfolding Field.sub
  neg a = each 0 e.degree (λ i c. set c i (minus 0 (at a i))) zeros

  unfoldable pub bitwise_and : List ℕ → List ℕ → List ℕ
  bitwise_and a b = each 0 e.degree (λ i c. set c i (bit_and (at a i) (at b i))) zeros

  -- `none` is the exception of a division by 0.
  unfoldable pub modulo : List ℕ → List ℕ → Option (List ℕ)
  modulo a b =
      each 0 e.degree
        (λ i c. elim c [
          | none ↦ none
          | some v ↦ if at b i == 0 then none else some (set v i (at a i % at b i))
        ])
        (some zeros)

  -- `none` is a field that the source does not support.
  unfoldable pub get_irreducible_polynomial : Option (List ℕ)
  get_irreducible_polynomial =
      let low = e.subfield.prime - 11 in
      if not (e.subfield.prime == field_prime_default)
      then none
      else (if e.degree == 1
          then some (1 ∷ [])
          else (if e.degree == 2
              then some (low ∷ 0 ∷ [])
              else (if e.degree == 4 then some (low ∷ 0 ∷ 0 ∷ 0 ∷ []) else none)))

  unfoldable pub naive_mul : List ℕ → List ℕ → List ℕ
  unfolding Field.add Field.mul
  naive_mul a b =
      each 0 (length a)
        (λ i row.
          each 0 (length b) (λ j c. set c (i + j) (plus (at c (i + j)) (times (at a i) (at b j))))
            row)
        (replicate (2 * e.degree - 1) 0)

  -- `for (i = 2 * degree - 2; i >= degree; i--)`, with `left` rounds left; the sums go to
  -- `c[i - degree]` for every `j`, as in the source.
  unfoldable pub reduce : ℕ → List ℕ → List ℕ → List ℕ
  unfolding Field.add Field.mul
  reduce zero irreducible c = c
  reduce (suc left) irreducible c =
      let i = e.degree + left in
      let low =
        each 0 e.degree
          (λ j c.
            set c (i - e.degree) (plus (at c (i - e.degree)) (times (at c i) (at irreducible j))))
          c in
      reduce left irreducible (set low i 0)

  abbrev reduced : Option (List ℕ) → List ℕ → Option (List ℕ)
  reduced none c = none
  reduced (some irreducible) c = some (resize e.degree (reduce (e.degree - 1) irreducible c))

  unfoldable pub mul : List ℕ → List ℕ → Option (List ℕ)
  unfolding get_irreducible_polynomial naive_mul reduce resize
  mul a b = reduced get_irreducible_polynomial (naive_mul a b)
