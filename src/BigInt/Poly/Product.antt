-- ===== src/BigInt/Poly/Product.antt =====
-- The product of polynomials is that of their values, and has the inferred type.
use zirgen.Prelude.{ℕ, suc, ◌*◌, ◌≤◌, ◌<◌, ◌^◌, ◌≡◌, refl, sym, ap, ◌∙◌, [], ◌∷◌, map, min, arith}
use zirgen.Prelude.Result.{Post}
use native.Mathlib.Nat.{mul-le-mul, mul-le-mul_right}
use zirgen.Word.Signed.{ℤ, pos, negsuc, ◌*ℤ◌}
use zirgen.BigInt.Int.{pos_part, neg_part, ◌+ℤ◌, ext, +ℤ_parts, +ℤ_bounds, pos_part-*ℤ, neg_part-*ℤ}
use zirgen.BigInt.Poly.{BytePoly, plus_product}
use zirgen.BigInt.Poly.Value.{value}
use zirgen.BigInt.Poly.Loop.{IsBetween, checked-ok, down}

*ℤ_distrib : (a b c : ℤ) → a *ℤ (b +ℤ c) ≡ a *ℤ b +ℤ a *ℤ c
*ℤ_distrib a b c =
    let e = +ℤ_parts b c in
    let h = ap (λ n. pos_part a * n) e in
    let l = ap (λ n. neg_part a * n) e in
    ext _ _ (omega (arith, +ℤ_parts, pos_part-*ℤ, neg_part-*ℤ, h, l))

*ℤ_comm : (a b : ℤ) → a *ℤ b ≡ b *ℤ a
*ℤ_comm a b = ext _ _ (omega (arith, pos_part-*ℤ, neg_part-*ℤ))

scale_swap : (a r : ℤ) → pos 256 *ℤ (a *ℤ r) ≡ a *ℤ (pos 256 *ℤ r)
scale_swap a r =
    let h = pos_part-*ℤ (pos 256) r in
    let l = neg_part-*ℤ (pos 256) r in
    let hh = ap (λ n. pos_part a * n) h in
    let hl = ap (λ n. pos_part a * n) l in
    let lh = ap (λ n. neg_part a * n) h in
    let ll = ap (λ n. neg_part a * n) l in
    ext _ _ (omega (arith, pos_part-*ℤ, neg_part-*ℤ, hh, hl, lh, ll))

pub value-scaled : (a : ℤ) (xs : BytePoly) → value (map (λ x. a *ℤ x) xs) ≡ a *ℤ value xs
unfolding value
value-scaled a [] = ext _ _ (omega (arith, pos_part-*ℤ, neg_part-*ℤ))
value-scaled a (x ∷ xs) =
    rw (value-scaled a xs, scale_swap a (value xs)) (sym (*ℤ_distrib a x (pos 256 *ℤ value xs)))

-- One more digit of the left operand.
pub next_digit :
    (o v out a r x : ℤ)
    → o +ℤ pos 256 *ℤ v ≡ out +ℤ a *ℤ r
    → o +ℤ pos 256 *ℤ (v +ℤ x *ℤ r) ≡ out +ℤ (a +ℤ pos 256 *ℤ x) *ℤ r
next_digit o v out a r x e =
    let h = ap pos_part e in
    let l = ap neg_part e in
    let d = *ℤ_comm (a +ℤ pos 256 *ℤ x) r ∙ *ℤ_distrib r a (pos 256 *ℤ x) in
    rw (d, ← scale_swap r x) (ext _ _ (omega (arith, +ℤ_parts, pos_part-*ℤ, neg_part-*ℤ, h, l)))

pub no_digit : (out r : ℤ) → out ≡ out +ℤ pos 0 *ℤ r
no_digit out r = ext _ _ (omega (arith, +ℤ_parts, pos_part-*ℤ, neg_part-*ℤ))

-- A product has one sign.
product_bounds :
    (a b c d h l : ℕ) (x y : ℤ)
    → (a * c ≤ h) × (b * d ≤ h)
    → (a * d ≤ l) × (b * c ≤ l)
    → IsBetween a b x
    → IsBetween c d y
    → IsBetween h l (x *ℤ y)
product_bounds a b c d h l (pos x) (pos y) (p1, p2) (p3, p4) (xh, xl) (yh, yl) =
    let m = mul-le-mul xh yh in
    (omega (arith, pos_part-*ℤ, neg_part-*ℤ), omega (arith, pos_part-*ℤ, neg_part-*ℤ))
product_bounds a b c d h l (pos x) (negsuc y) (p1, p2) (p3, p4) (xh, xl) (yh, yl) =
    let m = mul-le-mul xh yl in
    (omega (arith, pos_part-*ℤ, neg_part-*ℤ), omega (arith, pos_part-*ℤ, neg_part-*ℤ))
product_bounds a b c d h l (negsuc x) (pos y) (p1, p2) (p3, p4) (xh, xl) (yh, yl) =
    let m = mul-le-mul xl yh in
    (omega (arith, pos_part-*ℤ, neg_part-*ℤ), omega (arith, pos_part-*ℤ, neg_part-*ℤ))
product_bounds a b c d h l (negsuc x) (negsuc y) (p1, p2) (p3, p4) (xh, xl) (yh, yl) =
    let m = mul-le-mul xl yl in
    (omega (arith, pos_part-*ℤ, neg_part-*ℤ), omega (arith, pos_part-*ℤ, neg_part-*ℤ))

-- Rows of products, for operands of `n` and `m` elements, where a product is between `high` and -`low`.
module _ (n m P N Q M high low : ℕ) where
  abbrev pub pairs : ℕ
  pairs = min n m

  -- The element with `c` more to come before the end of a row holds so many products, before row `i`
  -- and after it.
  abbrev pub Before : ℕ → ℕ → ℤ → Type 0
  Before i c o = (c ≤ m) × IsBetween (min i (down c) * high) (min i (down c) * low) o

  abbrev pub After : ℕ → ℕ → ℤ → Type 0
  After i c o = (c ≤ m) × IsBetween (min (suc i) c * high) (min (suc i) c * low) o

  abbrev pub Fits : Type 0
  Fits =
      (P * Q ≤ high)
      × (N * M ≤ high)
      × (P * M ≤ low)
      × (N * Q ≤ low)
      × (pairs * high < 2 ^ 31)
      × (pairs * low < 2 ^ 31)

  pub product-Adds :
      (i k : ℕ) (a o x : ℤ)
      → Fits
      → suc i ≤ n
      → IsBetween P N a
      → IsBetween Q M x
      → Before i (suc k) o
      → Post (λ v. After i (suc k) v × (v ≡ o +ℤ a *ℤ x)) (λ e. ⊥) (plus_product a o x)
  product-Adds i k a o x (p1, p2, p3, p4, small, small_neg) le ba bx (lm, (oh, ol)) =
      let (th, tl) = product_bounds P N Q M high low a x (p1, p2) (p3, p4) ba bx in
      let (sh, sl) = +ℤ_bounds o (a *ℤ x) in
      let e : min (suc i) (suc k) ≡ suc (min i k) = omega arith in
      let few : suc (min i k) ≤ pairs = omega arith in
      let h = mul-le-mul_right high few in
      let l = mul-le-mul_right low few in
      let next : IsBetween (suc (min i k) * high) (suc (min i k) * low) (o +ℤ a *ℤ x) =
        (omega arith, omega arith) in
      rw
        (
          checked-ok high low (a *ℤ x) (omega arith) (omega arith) (th, tl),
          checked-ok (suc (min i k) * high) (suc (min i k) * low) (o +ℤ a *ℤ x) (omega arith)
              (omega arith) next,
        )
        ((lm, rw e next), refl)
