-- ===== src/BigInt/Carry/Exact.antt =====
-- The division of a carry is exact where the polynomial stands for zero.
use zirgen.Prelude.{suc, ◌/◌, ◌≡◌, ◌⊎◌, refl, ap, inl, inr, arith}
use zirgen.Word.Signed.{ℤ, pos, negsuc, neg, ◌*ℤ◌, tdiv}
use zirgen.BigInt.Int.{pos_part, neg_part, neg-parts, ◌+ℤ◌, ext, +ℤ_parts, pos_part-*ℤ, neg_part-*ℤ}

pub tdiv-parts :
    (s : ℤ)
    → (pos_part (tdiv s (pos 256)) ≡ pos_part s / 256)
      × (neg_part (tdiv s (pos 256)) ≡ neg_part s / 256)
unfolding tdiv neg
tdiv-parts (pos n) = (refl, omega arith)
tdiv-parts (negsuc n) = neg-parts (suc n / 256)

pub one_sign : (s : ℤ) → (pos_part s ≡ 0) ⊎ (neg_part s ≡ 0)
one_sign (pos n) = inr refl
one_sign (negsuc n) = inl refl

-- What is behind an element of a polynomial that stands for zero is what is carried there.
pub exact :
    (c carry v : ℤ)
    → c +ℤ pos 256 *ℤ v +ℤ carry ≡ pos 0
    → (v +ℤ tdiv (c +ℤ carry) (pos 256) ≡ pos 0)
      × (c +ℤ carry ≡ pos 256 *ℤ tdiv (c +ℤ carry) (pos 256))
exact c carry v e =
    let h = ap pos_part e in
    let l = ap neg_part e in
    let (dp, dn) = tdiv-parts (c +ℤ carry) in
    elim (one_sign (c +ℤ carry)) [
      | inl z ↦ (
        ext _ _ (omega (arith, +ℤ_parts, pos_part-*ℤ, neg_part-*ℤ, h, l)),
        ext _ _ (omega (arith, +ℤ_parts, pos_part-*ℤ, neg_part-*ℤ, h, l)),
      )
      | inr z ↦ (
        ext _ _ (omega (arith, +ℤ_parts, pos_part-*ℤ, neg_part-*ℤ, h, l)),
        ext _ _ (omega (arith, +ℤ_parts, pos_part-*ℤ, neg_part-*ℤ, h, l)),
      )
    ]
