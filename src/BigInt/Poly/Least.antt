-- ===== src/BigInt/Poly/Least.antt =====
-- The least value that the `minBits` of a type stands for.
use zirgen.Prelude.{
  ℕ, zero, suc, ◌+◌, ◌-◌, ◌*◌, ◌≤◌, ◌<◌, ◌^◌, ◌≡◌, refl, [], ◌∷◌, max, arith, if◌then◌else◌, leb,
  ◌==◌, ◌||◌, Bool-cases, inl, inr, ap, ◌∙◌,
}
use native.Mathlib.Nat.{pow-le-pow_right, two-pow-succ, mul-le-mul}
use zirgen.Word.Signed.{ℤ, pos, ◌*ℤ◌}
use zirgen.BigInt.Int.{pos_part, neg_part, ◌+ℤ◌, +ℤ_parts, +ℤ_bounds, pos_part-*ℤ, neg_part-*ℤ}
use zirgen.BigInt.Types.{size_t}
use zirgen.BigInt.Poly.{BytePoly}
use zirgen.BigInt.Poly.Value.{value}
use zirgen.BigInt.Poly.Loop.{Each, IsBetween, down}

-- "If minBits == 0, no constraint, otherwise N >= 2^(minBits - 1)"
abbrev pub IsLeast : ℕ → ℤ → Type 0
IsLeast bits v = 0 < bits → 2 ^ (bits - 1) ≤ pos_part v

-- Without negative coefficients the value is not negative.
pub value-not_negative :
    (h c : ℕ) (a : BytePoly) → Each (λ _. IsBetween h 0) c a → neg_part (value a) ≡ 0
unfolding value
value-not_negative h c [] e = refl
value-not_negative h c (x ∷ a) ((p, n), e) =
    let rest = value-not_negative h (down c) a e in
    let (u, l) = +ℤ_bounds x (pos 256 *ℤ value a) in
    omega (arith, l, n, rest, neg_part-*ℤ (pos 256) (value a))

pub IsLeast-max :
    (l u : ℕ) (a b : ℤ)
    → neg_part a ≡ 0
    → neg_part b ≡ 0
    → IsLeast l a
    → IsLeast u b
    → IsLeast (max l u) (a +ℤ b)
IsLeast-max l u a b na nb la lb = elim (Bool-cases (leb l u)) [
  | inl e ↦
      let m : max l u ≡ u = ground (arith, e) in
      rw m (λ some. omega (arith, lb some, +ℤ_parts a b, na, nb))
  | inr e ↦
      let m : max l u ≡ l = ground (arith, e) in
      rw m (λ some. omega (arith, la some, +ℤ_parts a b, na, nb))
]

pub pow_sum : (i j : ℕ) → 2 ^ (i + j) ≡ 2 ^ i * 2 ^ j
pow_sum i zero =
    let e : 2 ^ (i + 0) ≡ 2 ^ i = ap (λ (n : ℕ). 2 ^ n) (omega arith) in e ∙ omega arith
pow_sum i (suc j) =
    let ih = pow_sum i j in
    let e : 2 ^ (i + suc j) ≡ 2 ^ suc (i + j) = ap (λ (n : ℕ). 2 ^ n) (omega arith) in
    e ∙ rw (two-pow-succ j) (omega (arith, ih, two-pow-succ (i + j)))

pub IsLeast-product :
    (l u : ℕ) (a b : ℤ)
    → IsLeast l a
    → IsLeast u b
    → IsLeast (if (l == 0) || (u == 0) then 0 else size_t (l + u - 1)) (a *ℤ b)
IsLeast-product l u a b la lb = elim (Bool-cases ((l == 0) || (u == 0))) [
  | inl e ↦ rw e (λ some. absurd (omega (arith, some)))
  | inr e ↦ rw e (λ some.
      let pl : 0 < l = ground (arith, e) in
      let pu : 0 < u = ground (arith, e) in
      let fewer : 2 ^ (size_t (l + u - 1) - 1) ≤ 2 ^ (l - 1 + (u - 1)) =
        pow-le-pow_right {n = 2} (omega arith) (omega (arith, pl, pu)) in
      let split : 2 ^ (l - 1 + (u - 1)) ≡ 2 ^ (l - 1) * 2 ^ (u - 1) = pow_sum (l - 1) (u - 1) in
      let both : 2 ^ (l - 1) * 2 ^ (u - 1) ≤ pos_part a * pos_part b =
        mul-le-mul {n₂ = pos_part a} {m₂ = pos_part b} (la pl) (lb pu) in
      omega (arith, fewer, split, both, pos_part-*ℤ a b))
]
