-- ===== src/BigInt/Poly/Sum.antt =====
-- Sums and differences of polynomials are those of their values, and have the inferred types.
use mathlib.Core.Path.{subst}
use zirgen.Prelude.{
  inl, inr, ltb, Bool-cases, ℕ, zero, suc, ◌+◌, ◌≤◌, ◌<◌, ◌^◌, ◌≡◌, refl, sym, ap, ◌∙◌, [], ◌∷◌,
  map, length, replicate, length-replicate, max, none, arith,
}
use zirgen.Prelude.Result.{Result, ok, throws, Post, Post-bind}
use zirgen.Word.Signed.{ℤ, pos}
use zirgen.Fp.{p}
use zirgen.BigInt.Int.{
  ◌+ℤ◌, ◌-ℤ◌, ext, +ℤ_parts, -ℤ_parts, +ℤ_bounds, -ℤ_bounds, pos_part-*ℤ, neg_part-*ℤ,
}
use zirgen.BigInt.Types.{BigIntType, size_t, verify, infer_add, infer_sub}
use zirgen.BigInt.Poly.{Failure, BytePoly, into, plus, minus, add, sub}
use zirgen.BigInt.Poly.Value.{value}
use zirgen.BigInt.Poly.Least.{IsLeast, IsLeast-max, value-not_negative}
use zirgen.BigInt.Poly.Loop.{Each, Each-weaken, IsBetween, checked-ok, Added, into-Added, down}

-- A polynomial of a type: of so many coefficients, within the bounds, and if `minBits` is not 0, with
-- a value that is not below 2 ^ (minBits - 1).
pub record IsOfType (t : BigIntType) (a : BytePoly) : Type 0 where
  pub size : length a ≡ t.coeffs
  pub bounds : Each (λ _. IsBetween t.max_pos t.max_neg) 0 a
  pub least : IsLeast t.min_bits (value a)

-- The two bounds stay below the prime together, so that neither is near the end of `int32_t`.
abbrev pub IsSmall : BigIntType → Type 0
IsSmall t = t.max_pos + t.max_neg < p

pub verify-IsSmall :
    (t : BigIntType) → t.max_pos < 2 ^ 63 → t.max_neg < 2 ^ 63 → verify t ≡ none → IsSmall t
unfolding verify
verify-IsSmall t h l v = ground arith

pub Each-any :
    (B : ℤ → Type 0) (c d : ℕ) (out : BytePoly) → Each (λ _. B) c out → Each (λ _. B) d out
Each-any B c d [] e = tt
Each-any B c d (o ∷ out) (b, e) = (b, Each-any B (down c) (down d) out e)

zeros-IsBetween : (c n : ℕ) → Each (λ _. IsBetween 0 0) c (replicate n (pos 0))
zeros-IsBetween c zero = tt
zeros-IsBetween c (suc n) = ((omega arith, omega arith), zeros-IsBetween (down c) n)

pub value-zeros : (n : ℕ) → value (replicate n (pos 0)) ≡ pos 0
unfolding value
value-zeros zero = refl
value-zeros (suc n) =
    rw (value-zeros n) (ext _ _ (omega (arith, +ℤ_parts, pos_part-*ℤ, neg_part-*ℤ)))

value-same : (xs : BytePoly) → value (map (λ x. x) xs) ≡ value xs
unfolding value
value-same [] = refl
value-same (x ∷ xs) = rw (value-same xs) refl

value-negated : (xs : BytePoly) → value (map (λ x. pos 0 -ℤ x) xs) ≡ pos 0 -ℤ value xs
unfolding value
value-negated [] = ext _ _ (omega (arith, -ℤ_parts))
value-negated (x ∷ xs) =
    rw (value-negated xs) (ext _ _ (omega (arith, +ℤ_parts, -ℤ_parts, pos_part-*ℤ, neg_part-*ℤ)))

-- One loop, of sums or of differences.
module _ (h l : ℕ) (small : h < 2 ^ 31) (small_neg : l < 2 ^ 31) where
  plus-Adds :
      (a b c d : ℕ) (o x : ℤ)
      → a + c ≤ h
      → b + d ≤ l
      → IsBetween a b o
      → IsBetween c d x
      → Post (λ v. IsBetween h l v × (v ≡ o +ℤ x)) (λ e. ⊥) (plus o x)
  plus-Adds a b c d o x p q (oh, ol) (xh, xl) =
      let (u, w) = +ℤ_bounds o x in
      let fits : IsBetween h l (o +ℤ x) = (omega arith, omega arith) in
      rw (checked-ok h l (o +ℤ x) small small_neg fits) (fits, refl)

  minus-Adds :
      (a b c d : ℕ) (o x : ℤ)
      → a + d ≤ h
      → b + c ≤ l
      → IsBetween a b o
      → IsBetween c d x
      → Post (λ v. IsBetween h l v × (v ≡ o +ℤ (pos 0 -ℤ x))) (λ e. ⊥) (minus o x)
  minus-Adds a b c d o x p q (oh, ol) (xh, xl) =
      let (u, w) = -ℤ_bounds o x in
      let fits : IsBetween h l (o -ℤ x) = (omega arith, omega arith) in
      rw (checked-ok h l (o -ℤ x) small small_neg fits)
        (fits, ext _ _ (omega (arith, +ℤ_parts, -ℤ_parts)))

  add_loop :
      (a b c d : ℕ) (xs out : BytePoly)
      → a + c ≤ h
      → b + d ≤ l
      → Each (λ _. IsBetween c d) 0 xs
      → length xs ≤ length out
      → Each (λ _. IsBetween a b) 0 out
      → Post
          (Added (λ _. IsBetween h l) (length xs) out (value (map (λ x. x) xs)))
          (λ e. ⊥)
          (into plus xs out)
  add_loop a b c d xs out p q ex le eo =
      into-Added plus (λ x. x) (λ _. IsBetween a b) (λ _. IsBetween h l) (IsBetween c d)
        (λ n o x tx b'. plus-Adds a b c d o x p q b' tx) (λ o (u, w). (omega arith, omega arith)) xs
        out ex le (Each-any (IsBetween a b) 0 (length xs) out eo)

  sub_loop :
      (a b c d : ℕ) (xs out : BytePoly)
      → a + d ≤ h
      → b + c ≤ l
      → Each (λ _. IsBetween c d) 0 xs
      → length xs ≤ length out
      → Each (λ _. IsBetween a b) 0 out
      → Post
          (Added (λ _. IsBetween h l) (length xs) out (value (map (λ x. pos 0 -ℤ x) xs)))
          (λ e. ⊥)
          (into minus xs out)
  sub_loop a b c d xs out p q ex le eo =
      into-Added minus (λ x. pos 0 -ℤ x) (λ _. IsBetween a b) (λ _. IsBetween h l) (IsBetween c d)
        (λ n o x tx b'. minus-Adds a b c d o x p q b' tx) (λ o (u, w). (omega arith, omega arith))
        xs out ex le (Each-any (IsBetween a b) 0 (length xs) out eo)

-- After the first loop of both: the left operand, in a vector that has room for the right one.
record Copied (t : BigIntType) (a b out : BytePoly) : Type 0 where
  size : length out ≡ max (length a) (length b)
  bounds : Each (λ _. IsBetween t.max_pos t.max_neg) 0 out
  same_value : value out ≡ value a

plus_left : (a : ℤ) → pos 0 +ℤ a ≡ a
plus_left a = ext _ _ (omega (arith, +ℤ_parts))

plus_negated : (a b : ℤ) → a +ℤ (pos 0 -ℤ b) ≡ a -ℤ b
plus_negated a b = ext _ _ (omega (arith, +ℤ_parts, -ℤ_parts))

copies :
    (t : BigIntType) (a b : BytePoly)
    → IsSmall t
    → IsOfType t a
    → Post (Copied t a b) (λ e. ⊥) (into plus a (replicate (max (length a) (length b)) (pos 0)))
copies t a b small ta =
    let n = max (length a) (length b) in
    let loop =
      add_loop t.max_pos t.max_neg (omega arith) (omega arith) 0 0 t.max_pos t.max_neg a
        (replicate n (pos 0)) (omega arith) (omega arith) ta.bounds
        (omega (arith, length-replicate n (pos 0))) (zeros-IsBetween 0 n) in
    go (into plus a (replicate n (pos 0))) loop
  where
    go :
        (r : Result Failure BytePoly)
        → Post
            (Added
              (λ _. IsBetween t.max_pos t.max_neg)
              (length a)
              (replicate (max (length a) (length b)) (pos 0))
              (value (map (λ x. x) a)))
            (λ e. ⊥)
            r
        → Post (Copied t a b) (λ e. ⊥) r
    go (throws e) h = absurd h
    go (ok out) h = record {
      size = h.same_length ∙ length-replicate (max (length a) (length b)) (pos 0);
      bounds = Each-any (IsBetween t.max_pos t.max_neg) (length a) 0 out h.each;
      same_value =
          h.sum ∙ rw (value-zeros (max (length a) (length b)), value-same a) (plus_left (value a));
    }

pub Post-mono :
    {A : Type 0} {P Q : A → Type 0} (m : Result Failure A)
    → ((a : A) → P a → Q a)
    → Post P (λ e. ⊥) m
    → Post Q (λ e. ⊥) m
Post-mono (ok a) f h = f a h
Post-mono (throws e) f h = absurd h

module _ (t u : BigIntType) (a b : BytePoly) (small : IsSmall t) (small' : IsSmall u)
    (ta : IsOfType t a) (tb : IsOfType u b) where
  -- What an inferred type has to be for its bounds to be big enough.
  abbrev Covers : BigIntType → ℕ → ℕ → Type 0
  Covers r h l = (r.coeffs ≡ max t.coeffs u.coeffs) × (h ≤ r.max_pos) × (l ≤ r.max_neg)

  of_type :
      (r : BigIntType) (h l c : ℕ) (out next : BytePoly) (more : ℤ)
      → Covers r h l
      → IsLeast r.min_bits (value a +ℤ more)
      → Copied t a b out
      → Added (λ _. IsBetween h l) c out more next
      → IsOfType r next × (value next ≡ value a +ℤ more)
  of_type r h l c out next more (size, high, low) least s d = (
    record {
      size = d.same_length ∙ s.size ∙ rw (ta.size, tb.size) (sym size);
      bounds =
          Each-weaken {B = λ _. IsBetween h l} 0 0 next (omega arith)
            (λ k o q (x, y). (omega arith, omega arith)) (Each-any (IsBetween h l) c 0 next d.each);
      least = subst (IsLeast r.min_bits) (sym (d.sum ∙ ap (λ v. v +ℤ more) s.same_value)) least;
    },
    d.sum ∙ ap (λ v. v +ℤ more) s.same_value,
  )

  least_sum : IsLeast (infer_add t u).min_bits (value a +ℤ value b)
  unfolding infer_add
  least_sum = elim (Bool-cases (ltb 0 (size_t (t.max_neg + u.max_neg)))) [
    | inl e ↦ rw e (λ some. absurd (omega (arith, some)))
    | inr e ↦
        let zero_t : t.max_neg ≡ 0 = ground (arith, e) in
        let zero_u : u.max_neg ≡ 0 = ground (arith, e) in
        rw e (
          IsLeast-max t.min_bits u.min_bits (value a) (value b)
            (value-not_negative t.max_pos 0 a (rw zero_t at ta.bounds))
            (value-not_negative u.max_pos 0 b (rw zero_u at tb.bounds)) ta.least tb.least)
  ]

  -- If the type that is inferred for a sum passes the verifier, the sum of polynomials of the types
  -- of its operands, whose bounds are below the prime, does not overflow, is of the inferred type, and
  -- has the sum of the values.
  pub add-IsOfType :
      verify (infer_add t u) ≡ none
      → Post (λ c. IsOfType (infer_add t u) c × (value c ≡ value a +ℤ value b)) (λ e. ⊥) (add a b)
  unfolding add infer_add
  add-IsOfType v =
      let r = infer_add t u in
      let h = t.max_pos + u.max_pos in
      let l = t.max_neg + u.max_neg in
      let fits = verify-IsSmall r (omega arith) (omega arith) v in
      let covers : Covers r h l = (refl, omega arith, omega arith) in
      Post-bind (λ c. IsOfType r c × (value c ≡ value a +ℤ value b)) (λ e. ⊥)
        (into plus a (replicate (max (length a) (length b)) (pos 0))) (into plus b)
        (copies t a b small ta)
        (λ out s.
          Post-mono (into plus b out)
            (λ next d.
              of_type r h l (length b) out next (value b) covers least_sum s
                (rw (value-same b) at d))
            (add_loop h l (omega arith) (omega arith) t.max_pos t.max_neg u.max_pos u.max_neg b out
              (omega arith) (omega arith) tb.bounds (omega (arith, s.size)) s.bounds))

  -- If the type that is inferred for a difference passes the verifier, the difference of polynomials of
  -- the types of its operands, whose bounds are below the prime, does not overflow, is of the inferred
  -- type, and has the difference of the values.
  pub sub-IsOfType :
      verify (infer_sub t u) ≡ none
      → Post (λ c. IsOfType (infer_sub t u) c × (value c ≡ value a -ℤ value b)) (λ e. ⊥) (sub a b)
  unfolding sub infer_sub
  sub-IsOfType v =
      let r = infer_sub t u in
      let h = t.max_pos + u.max_neg in
      let l = t.max_neg + u.max_pos in
      let fits = verify-IsSmall r (omega arith) (omega arith) v in
      let covers : Covers r h l = (refl, omega arith, omega arith) in
      Post-bind (λ c. IsOfType r c × (value c ≡ value a -ℤ value b)) (λ e. ⊥)
        (into plus a (replicate (max (length a) (length b)) (pos 0))) (into minus b)
        (copies t a b small ta)
        (λ out s.
          Post-mono (into minus b out)
            (λ next d.
              let (kind, sum) =
                of_type r h l (length b) out next (pos 0 -ℤ value b) covers
                  (λ some. absurd (omega (arith, some))) s (rw (value-negated b) at d) in
              (kind, sum ∙ plus_negated (value a) (value b)))
            (sub_loop h l (omega arith) (omega arith) t.max_pos t.max_neg u.max_pos u.max_neg b out
              (omega arith) (omega arith) tb.bounds (omega (arith, s.size)) s.bounds))
