-- ===== src/BigInt/ApInt/Laws.antt =====
-- `toAPInt` is the value of a polynomial of `int32_t`.
use mathlib.Core.Path.{subst}
use native.Mathlib.Nat.{mul-le-mul, one-le-pow, pow-suc}
use zirgen.Prelude.{
  ℕ, zero, suc, ◌+◌, ◌*◌, ◌-◌, ◌^◌, ◌<◌, ◌≤◌, ◌≡◌, ◌↔◌, refl, ap, sym, ◌∙◌, false, [], ◌∷◌, length,
  arith,
}
use zirgen.Word.Signed.{ℤ, pos, ◌*ℤ◌}
use zirgen.BigInt.Int.{pos_part, neg_part, ◌+ℤ◌, ext, +ℤ_parts, +ℤ_bounds, pos_part-*ℤ, neg_part-*ℤ}
use zirgen.BigInt.Poly.{BytePoly}
use zirgen.BigInt.Poly.Value.{value}
use zirgen.BigInt.Poly.Least.{pow_sum}
use zirgen.BigInt.Poly.Loop.{Each, IsBetween}
use zirgen.BigInt.ApInt.{ApInt, IsApInt, sum_from, to_ap_int}

abbrev pub IsInt32 : ℤ → Type 0
IsInt32 = IsBetween (2 ^ 31 - 1) (2 ^ 31)

times-parts :
    (m : ℕ) (v : ℤ)
    → (pos_part (pos m *ℤ v) ≡ m * pos_part v) × (neg_part (pos m *ℤ v) ≡ m * neg_part v)
times-parts m v = (pos_part-*ℤ (pos m) v ∙ omega arith, neg_part-*ℤ (pos m) v ∙ omega arith)

times_pos : (m k : ℕ) → pos m *ℤ pos k ≡ pos (m * k)
unfolding ◌*ℤ◌
times_pos m k = refl

-- The first element taken out of the value.
unroll :
    (o c r : ℤ) (m : ℕ) → o +ℤ pos m *ℤ c +ℤ pos (m * 256) *ℤ r ≡ o +ℤ pos m *ℤ (c +ℤ pos 256 *ℤ r)
unroll o c r m =
    let (p1, n1) = times-parts m c in
    let (p2, n2) = times-parts (m * 256) r in
    let (p3, n3) = times-parts m (c +ℤ pos 256 *ℤ r) in
    let (p4, n4) = times-parts 256 r in
    let e : pos_part (c +ℤ pos 256 *ℤ r) + neg_part c + 256 * neg_part r
        ≡ neg_part (c +ℤ pos 256 *ℤ r) + pos_part c + 256 * pos_part r =
      omega (arith, +ℤ_parts c (pos 256 *ℤ r), p4, n4) in
    ext _ _ (omega (arith, +ℤ_parts, p1, n1, p2, n2, p3, n3, ap (λ (t : ℕ). m * t) e))

bounded : (m : ℕ) (c : ℤ) → IsInt32 c → IsBetween (2 ^ 31 * m) (2 ^ 31 * m) (pos m *ℤ c)
bounded m c (h, l) =
    let (p, n) = times-parts m c in
    let ph : m * pos_part c ≤ m * 2 ^ 31 =
      mul-le-mul {n₂ = m} {m₂ = 2 ^ 31} (omega arith) (omega arith) in
    let nh : m * neg_part c ≤ m * 2 ^ 31 =
      mul-le-mul {n₂ = m} {m₂ = 2 ^ 31} (omega arith) (omega arith) in
    (omega (arith, p, ph), omega (arith, n, nh))

module _ {A : Type 0} (api : ApInt A) (Holds : ℕ → A → ℤ → Type 0) (lawful : IsApInt api Holds)
    (bits : ℕ) where
  sum_from-Holds :
      (val : BytePoly) (out mul : A) (o : ℤ) (m : ℕ)
      → 2 ^ 31 * (m * 256 ^ length val) ≤ 2 ^ (bits - 1)
      → 0 < m
      → IsBetween (2 ^ 31 * m) (2 ^ 31 * m) o
      → 2 ^ 31 ≤ 2 ^ (bits - 1)
      → Each (λ _. IsInt32) 0 val
      → Holds bits out o
      → Holds bits mul (pos m)
      → Holds bits (sum_from api bits val out mul) (o +ℤ pos m *ℤ value val)
  unfolding sum_from value
  sum_from-Holds [] out mul o m room some (h, l) wide e ho hm =
      let (p, n) = times-parts m (pos 0) in
      let same : o ≡ o +ℤ pos m *ℤ pos 0 = ext _ _ (omega (arith, +ℤ_parts, p, n)) in
      subst (Holds bits out) same ho
  sum_from-Holds (c ∷ val) out mul o m room some (h, l) wide ((ch, cl), e) ho hm =
      let (th, tl) = bounded m c (ch, cl) in
      let (sh, sl) = +ℤ_bounds o (pos m *ℤ c) in
      let more : m * 256 ≤ m * 256 * 256 ^ length val = omega (
        arith,
        mul-le-mul {n₁ = m * 256} {m₁ = 1} {n₂ = m * 256} {m₂ = 256 ^ length val} (omega arith)
            (one-le-pow (length val) 256 (omega arith)),
      ) in
      let same_room : m * 256 ^ suc (length val) ≡ m * 256 * 256 ^ length val =
        omega (arith, ap (λ (t : ℕ). m * t) (pow-suc 256 (length val))) in
      let term =
        lawful.smul_sat bits mul (api.make bits c) (pos m) c hm
          (lawful.make bits c (omega arith, omega arith))
          (omega (arith, th, more, same_room), omega (arith, tl, more, same_room)) in
      let sum =
        lawful.add bits out _ o (pos m *ℤ c) ho term
          (omega (arith, sh, th, more, same_room), omega (arith, sl, tl, more, same_room)) in
      let scaled : pos m *ℤ pos 256 ≡ pos (m * 256) = times_pos m 256 in
      let next =
        lawful.scale bits mul (pos m) 256 hm
          (omega (arith, ap pos_part scaled, more, same_room), omega (arith, ap neg_part scaled)) in
      subst (Holds bits _) (unroll o c (value val) m) (
        sum_from-Holds val _ _ (o +ℤ pos m *ℤ c) (m * 256) (omega (arith, room, same_room))
          (omega arith) (omega (arith, sh, th), omega (arith, sl, tl)) wide e sum
          (subst (Holds bits (api.scale mul 256)) scaled next))

pow_bytes : (n : ℕ) → 2 ^ (n * 8) ≡ 256 ^ n
pow_bytes zero = refl
pow_bytes (suc n) =
    let k : suc n * 8 ≡ n * 8 + 8 = omega arith in
    let e : 2 ^ (suc n * 8) ≡ 2 ^ (n * 8) * 256 = ap (λ (i : ℕ). 2 ^ i) k ∙ pow_sum (n * 8) 8 in
    e ∙ ap (λ (t : ℕ). t * 256) (pow_bytes n) ∙ sym (pow-suc 256 n)

-- For every polynomial of `int32_t`, over integers that behave as documented, `toAPInt` has the value of
-- the polynomial: no product saturates, and no sum wraps around.
pub to_ap_int-value :
    {A : Type 0} (api : ApInt A) (Holds : ℕ → A → ℤ → Type 0)
    → IsApInt api Holds
    → (val : BytePoly) → Each (λ _. IsInt32) 0 val
    → Holds (length val * 8 + 32) (to_ap_int api val) (value val)
unfolding to_ap_int
to_ap_int-value api Holds lawful val e =
    let bits = length val * 8 + 32 in
    let limit : 2 ^ (bits - 1) ≡ 2 ^ 31 * 256 ^ length val =
      let k : bits - 1 ≡ length val * 8 + 31 = omega arith in
      ap (λ (i : ℕ). 2 ^ i) k
      ∙ pow_sum (length val * 8) 31
      ∙ omega (arith, pow_bytes (length val)) in
    let some : 1 ≤ 256 ^ length val = one-le-pow (length val) 256 (omega arith) in
    let (p, n) = times-parts 1 (value val) in
    let start : pos 0 +ℤ pos 1 *ℤ value val ≡ value val = ext _ _ (omega (arith, +ℤ_parts, p, n)) in
    subst (Holds bits (to_ap_int api val)) start (
      sum_from-Holds api Holds lawful bits val _ _ (pos 0) 1 (omega (arith, limit)) (omega arith)
        (omega arith, omega arith) (omega (arith, limit, some)) e
        (lawful.make bits (pos 0) (omega (arith, limit, some), omega arith))
        (lawful.make bits (pos 1) (omega (arith, limit, some), omega arith)))

-- So the test against 0 is true of the polynomials that stand for 0.
pub is_nonzero-value :
    {A : Type 0} (api : ApInt A) (Holds : ℕ → A → ℤ → Type 0)
    → IsApInt api Holds
    → (val : BytePoly) → Each (λ _. IsInt32) 0 val
    → (api.is_nonzero (to_ap_int api val) ≡ false) ↔ (value val ≡ pos 0)
is_nonzero-value api Holds lawful val e =
    lawful.is_nonzero (length val * 8 + 32) (to_ap_int api val) (value val)
      (to_ap_int-value api Holds lawful val e)
