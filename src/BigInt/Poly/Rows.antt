-- ===== src/BigInt/Poly/Rows.antt =====
-- The loop over the left operand's elements.
use zirgen.Prelude.{
  ℕ, zero, suc, ◌+◌, ◌*◌, ◌≤◌, ◌≡◌, refl, ap, ◌∙◌, [], ◌∷◌, map, length, min, arith,
}
use native.Mathlib.Nat.{mul-le-mul_right}
use zirgen.Prelude.Result.{Result, ok, throws, Post, ◌>>=◌}
use zirgen.Word.Signed.{ℤ, pos, ◌*ℤ◌}
use zirgen.Fp.{p}
use zirgen.BigInt.Int.{◌+ℤ◌}
use zirgen.BigInt.Poly.{Failure, BytePoly, into, plus_product, mul_from}
use zirgen.BigInt.Poly.Value.{value}
use zirgen.BigInt.Poly.Loop.{Each, Each-weaken, IsBetween, Added, into-Added, down, down_le}
use zirgen.BigInt.Poly.Sum.{Each-any}
use zirgen.BigInt.Poly.Product.{
  pairs, Before, After, Fits, product-Adds, next_digit, no_digit, value-scaled,
}

-- Dropping the first element drops the number.
Each-down :
    (B D : ℕ → ℤ → Type 0) (most c : ℕ) (out : BytePoly)
    → c ≤ most
    → ((k : ℕ) (o : ℤ) → k ≤ most → B (down k) o → D k o)
    → Each B (down c) out
    → Each D c out
Each-down B D most c [] le h e = tt
Each-down B D most zero (o ∷ out) le h (b, e) = (h zero o le b, Each-down B D most zero out le h e)
Each-down B D most (suc c) (o ∷ out) le h (b, e) =
    (h (suc c) o le b, Each-down B D most c out (omega arith) h e)

module _ (n m P N Q M high low : ℕ) (fits : Fits n m P N Q M high low) where
  abbrev pub IsRow : ℤ → Type 0
  IsRow = IsBetween (pairs n m P N Q M high low * high) (pairs n m P N Q M high low * low)

  pub record Multiplied (lhs rhs out next : BytePoly) : Type 0 where
    pub same_length : length next ≡ length out
    pub each : Each (λ _. IsRow) 0 next
    pub product : value next ≡ value out +ℤ value lhs *ℤ value rhs

  few : (a b : ℕ) (o : ℤ) → a ≤ n → b ≤ m → IsBetween (min a b * high) (min a b * low) o → IsRow o
  few a b o p q (x, y) =
      let le : min a b ≤ min n m = omega arith in
      let h = mul-le-mul_right high le in
      let l = mul-le-mul_right low le in (omega arith, omega arith)

  none_left :
      (i : ℕ) (o : ℤ)
      → IsBetween (min i 0 * high) (min i 0 * low) o
      → IsBetween (min (suc i) 0 * high) (min (suc i) 0 * low) o
  none_left i o b = let e : min i 0 ≡ min (suc i) 0 = omega arith in rw e at b

  next_row :
      (i : ℕ) (a : ℤ) (lhs rhs out row : BytePoly)
      → suc i ≤ n
      → 1 ≤ length out
      → Added (After n m P N Q M high low i) m out (a *ℤ value rhs) row
      → ((rest : BytePoly)
          → length rest + 1 ≡ length out
          → Each (Before n m P N Q M high low (suc i)) m rest
          → Post (Multiplied lhs rhs rest) (λ e. ⊥) (mul_from lhs rhs rest))
      → Post
          (Multiplied (a ∷ lhs) rhs out)
          (λ e. ⊥)
          (elim row [
            | [] ↦ mul_from lhs rhs []
            | o ∷ rest ↦ mul_from lhs rhs rest >>= λ more. ok (o ∷ more)
          ])
  unfolding value
  next_row i a lhs rhs out [] le some_out added next = absurd (omega (arith, added.same_length))
  next_row i a lhs rhs out (o ∷ rest) le some_out added next =
      let (first, others) = added.each in
      let shifted =
        Each-down (After n m P N Q M high low i) (Before n m P N Q M high low (suc i)) m m rest
          (omega arith) (λ k c q (w, b). (q, b)) others in
      go (mul_from lhs rhs rest) (next rest (omega (arith, added.same_length)) shifted)
    where
      go :
          (r : Result Failure BytePoly)
          → Post (Multiplied lhs rhs rest) (λ e. ⊥) r
          → Post (Multiplied (a ∷ lhs) rhs out) (λ e. ⊥) (r >>= λ more. ok (o ∷ more))
      go (throws e) h = absurd h
      go (ok more) h = record {
        same_length = ap suc h.same_length ∙ added.same_length;
        each = (few (suc i) m o le (omega arith) (added.each.0.1), h.each);
        product =
            ap (λ v. o +ℤ pos 256 *ℤ v) h.product
            ∙ next_digit o (value rest) (value out) a (value rhs) (value lhs) added.sum;
      }

  bind_row :
      (i : ℕ) (a : ℤ) (lhs rhs out : BytePoly) (r : Result Failure BytePoly)
      → suc i ≤ n
      → 1 ≤ length out
      → length rhs ≡ m
      → Post
          (Added (After n m P N Q M high low i) (length rhs) out (value (map (λ x. a *ℤ x) rhs)))
          (λ e. ⊥)
          r
      → ((rest : BytePoly)
          → length rest + 1 ≡ length out
          → Each (Before n m P N Q M high low (suc i)) m rest
          → Post (Multiplied lhs rhs rest) (λ e. ⊥) (mul_from lhs rhs rest))
      → Post
          (Multiplied (a ∷ lhs) rhs out)
          (λ e. ⊥)
          (r >>= λ row. elim row [
            | [] ↦ mul_from lhs rhs []
            | o ∷ rest ↦ mul_from lhs rhs rest >>= λ more. ok (o ∷ more)
          ])
  bind_row i a lhs rhs out (throws e) le some_out len h next = absurd h
  bind_row i a lhs rhs out (ok row) le some_out len h next =
      next_row i a lhs rhs out row le some_out (rw (len, value-scaled a rhs) at h) next

  pub mul_from-Multiplied :
      (i : ℕ) (lhs rhs out : BytePoly)
      → length lhs + i ≤ n
      → length rhs ≡ m
      → 1 ≤ m
      → length out + 1 ≡ length lhs + m
      → Each (λ _. IsBetween P N) 0 lhs
      → Each (λ _. IsBetween Q M) 0 rhs
      → Each (Before n m P N Q M high low i) m out
      → Post (Multiplied lhs rhs out) (λ e. ⊥) (mul_from lhs rhs out)
  unfolding mul_from value
  mul_from-Multiplied i [] rhs out le len some_m size el er before = record {
    same_length = refl;
    each = Each-any IsRow m 0 out (
        Each-weaken {B = Before n m P N Q M high low i} m m out (omega arith)
          (λ k o q (w, b). few i (down k) o (omega arith) (omega (arith, down_le k)) b) before);
    product = no_digit (value out) (value rhs);
  }
  mul_from-Multiplied i (a ∷ lhs) rhs out le len some_m size (ea, el) er before =
      bind_row i a lhs rhs out (into (plus_product a) rhs out) (omega arith) (omega arith) len
        (into-Added (plus_product a) (λ x. a *ℤ x) (Before n m P N Q M high low i)
          (After n m P N Q M high low i) (IsBetween Q M)
          (λ k o x tx b. product-Adds n m P N Q M high low i k a o x fits (omega arith) ea tx b)
          (λ o (w, b). (w, none_left i o b)) rhs out er (omega arith) (rw len before))
        (λ rest less b.
          mul_from-Multiplied (suc i) lhs rhs rest (omega arith) len some_m (omega arith) el er b)
