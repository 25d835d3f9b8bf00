-- ===== src/BigInt/Tests.antt =====
-- Sums and products of two-byte numbers.
use zirgen.Prelude.{ℕ, ap, ap₂, sym, ◌∙◌, ◌≡◌, refl, [], ◌∷◌, arith, not, ◌⊎◌, ◌≢◌}
use zirgen.Prelude.Result.{Post, ok, throws}
use zirgen.Word.Signed.{ℤ, pos, negsuc, ◌*ℤ◌}
use zirgen.BigInt.Int.{◌+ℤ◌, ◌-ℤ◌, ext}
use zirgen.BigInt.Types.{
  BigIntType, verify, infer_def, infer_add, infer_sub, infer_mul, get_carry_offset,
}
use zirgen.BigInt.Poly.{BytePoly, add, sub, mul, nonzero}
use zirgen.BigInt.Poly.Value.{value}
use zirgen.BigInt.Poly.Sum.{IsOfType, IsSmall, add-IsOfType, sub-IsOfType}
use zirgen.BigInt.ApInt.{ApInt, IsApInt, to_ap_int}
use zirgen.BigInt.Carry.{is_zero_ℤ, equal_zero}
use zirgen.BigInt.Carry.Laws.{IsPassed, equal_zero-passes}
use zirgen.BigInt.Poly.Laws.{mul-IsOfType}

abbrev two_bytes : BigIntType
two_bytes = record { coeffs = 2; max_pos = 255; max_neg = 0; min_bits = 5 }

two_bytes_inferred : infer_def 16 5 ≡ two_bytes
unfolding infer_def
two_bytes_inferred = refl

abbrev some_bytes : BytePoly
some_bytes = pos 200 ∷ pos 100 ∷ []

abbrev more_bytes : BytePoly
more_bytes = pos 255 ∷ pos 1 ∷ []

some_bytes-IsOfType : IsOfType two_bytes some_bytes
unfolding value
some_bytes-IsOfType = record {
  size = refl;
  bounds = ((omega arith, omega arith), ((omega arith, omega arith), tt));
  least = λ some. omega arith;
}

more_bytes-IsOfType : IsOfType two_bytes more_bytes
unfolding value
more_bytes-IsOfType = record {
  size = refl;
  bounds = ((omega arith, omega arith), ((omega arith, omega arith), tt));
  least = λ some. omega arith;
}

two_bytes-IsSmall : IsSmall two_bytes
two_bytes-IsSmall = omega arith

add-IsOfType_example :
    Post
      (λ c.
        IsOfType (infer_add two_bytes two_bytes) c
        × (value c ≡ value some_bytes +ℤ value more_bytes))
      (λ e. ⊥)
      (add some_bytes more_bytes)
unfolding verify infer_add
add-IsOfType_example =
    add-IsOfType two_bytes two_bytes some_bytes more_bytes two_bytes-IsSmall two_bytes-IsSmall
      some_bytes-IsOfType more_bytes-IsOfType refl

sub-IsOfType_example :
    Post
      (λ c.
        IsOfType (infer_sub two_bytes two_bytes) c
        × (value c ≡ value some_bytes -ℤ value more_bytes))
      (λ e. ⊥)
      (sub some_bytes more_bytes)
unfolding verify infer_sub
sub-IsOfType_example =
    sub-IsOfType two_bytes two_bytes some_bytes more_bytes two_bytes-IsSmall two_bytes-IsSmall
      some_bytes-IsOfType more_bytes-IsOfType refl

mul-IsOfType_example :
    Post
      (λ c.
        IsOfType (infer_mul two_bytes two_bytes) c
        × (value c ≡ value some_bytes *ℤ value more_bytes))
      (λ e. ⊥)
      (mul some_bytes more_bytes)
unfolding verify infer_mul
mul-IsOfType_example =
    mul-IsOfType two_bytes two_bytes some_bytes more_bytes two_bytes-IsSmall two_bytes-IsSmall
      some_bytes-IsOfType more_bytes-IsOfType (omega arith, omega arith) (omega arith, omega arith)
      refl

product : mul some_bytes (negsuc 0 ∷ pos 3 ∷ []) ≡ ok (negsuc 199 ∷ pos 500 ∷ pos 300 ∷ [])
unfolding mul
product = refl

abbrev signed_bytes : BigIntType
signed_bytes = record { coeffs = 2; max_pos = 255; max_neg = 510; min_bits = 0 }

-- 256 - 256
abbrev zero_bytes : BytePoly
zero_bytes = negsuc 255 ∷ pos 1 ∷ []

zero_bytes-IsOfType : IsOfType signed_bytes zero_bytes
zero_bytes-IsOfType = record {
  size = refl;
  bounds = ((omega arith, omega arith), ((omega arith, omega arith), tt));
  least = λ some. absurd (omega (arith, some));
}

-- Integers of any size with their width, which never saturate.
abbrev integers : ApInt (ℕ × ℤ)
integers = record {
  make = λ bits v. (bits, v);
  add = λ a b. (a.0, a.1 +ℤ b.1);
  smul_sat = λ a b. (a.0, a.1 *ℤ b.1);
  scale = λ a k. (a.0, a.1 *ℤ pos k);
  is_nonzero = λ a. not (is_zero_ℤ a.1);
}

abbrev Holds : ℕ → ℕ × ℤ → ℤ → Type 0
Holds bits a v = (a.0 ≡ bits) × (a.1 ≡ v)

integers-IsApInt : IsApInt integers Holds
integers-IsApInt = record {
  make = λ bits v h. (refl, refl);
  add = λ bits a b v w (wa, va) (wb, vb) h. (wa, ap₂ (λ (x y : ℤ). x +ℤ y) va vb);
  smul_sat = λ bits a b v w (wa, va) (wb, vb) h. (wa, ap₂ (λ (x y : ℤ). x *ℤ y) va vb);
  scale = λ bits a v k (wa, va) h. (wa, ap (λ (x : ℤ). x *ℤ pos k) va);
  is_nonzero =
      λ bits a v (wa, va). (λ h. sym va ∙ ext _ _ (ground (arith, h)), λ e. rw (va ∙ e) refl);
}

equal_zero-passes_example :
    ((value zero_bytes ≡ pos 0)
      × IsPassed signed_bytes (equal_zero integers signed_bytes zero_bytes) zero_bytes)
    ⊎ ((value zero_bytes ≢ pos 0) × (equal_zero integers signed_bytes zero_bytes ≡ throws nonzero))
unfolding get_carry_offset
equal_zero-passes_example =
    equal_zero-passes signed_bytes integers Holds zero_bytes integers-IsApInt (omega arith)
      zero_bytes-IsOfType

zero_carries : equal_zero integers signed_bytes zero_bytes ≡ ok ((pos 65 ∷ pos 66 ∷ []) ∷ [])
unfolding equal_zero to_ap_int ◌*ℤ◌
zero_carries = refl
